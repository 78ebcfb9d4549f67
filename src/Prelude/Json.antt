-- ===== src/Prelude/Json.antt =====
-- The values that Python's `json` reads and writes, with the numbers that the program keeps, and the
-- `get` and `setdefault` of its dictionaries. A value of a type that its reader does not expect is the
-- exception `unexpected`.
use Prim.Native.Nat.{ℕ}
use Prim.Native.String.{String}
use mathlib.Core.Path.{◌≡◌, refl}
use mathlib.Core.Bool.{Bool}
use mathlib.Core.Option.{Option, none, some}
use mathlib.Core.List.{List, [], ◌∷◌}
use native.Mathlib.Omega.{arith}
use text.Mathlib.Text.{◌==◌}
use text.Mathlib.TextEquality.{eq_iff}
use pr_auto_reviewer.Prelude.Lists.{All}
use pr_auto_reviewer.Prelude.Result.{Result, ok, raise, unexpected, ◌>>=◌}
use pr_auto_reviewer.Prelude.Tests.{if◌then◌else◌}

mutual
  pub data Json : Type 0 where
    null : Json
    boolean : Bool → Json
    number : ℕ → Json
    string : String → Json
    array : Array → Json
    object : Object → Json

  pub data Array : Type 0 where
    end : Array
    element : Json → Array → Array

  pub data Object : Type 0 where
    bare : Object
    field : String → Json → Object → Object

-- `{key: value, ...}`
abbrev pub fields : List (String × Json) → Object
fields [] = bare
fields ((key, value) ∷ rest) = field key value (fields rest)

-- `[write(x) for x in xs]`
abbrev pub elements {ℓ} : {A : Type ℓ} → (A → Json) → List A → Array
elements write [] = end
elements write (x ∷ xs) = element (write x) (elements write xs)

-- `raw.get(key)`
unfoldable pub get : String → Object → Option Json
get key bare = none
get key (field key' value rest) =
    let found = get key rest in if key' == key then some value else found

-- `raw[key] = value`
unfoldable pub put : String → Json → Object → Object
put key value bare = field key value bare
put key value (field key' value' rest) =
    let changed = put key value rest in
    if key' == key then field key' value rest else field key' value' changed

pub get-put :
    (wanted key : String) (value : Json) (raw : Object)
    → get wanted (put key value raw) ≡ (if key == wanted then some value else get wanted raw)
unfolding get put
get-put wanted key value bare = refl
get-put wanted key value (field key' value' rest) =
    ground
      (arith, eq_iff key wanted, eq_iff key' key, eq_iff key' wanted, get-put wanted key value rest)

abbrev pub as_text : String → Option Json → Result String
as_text default none = ok default
as_text default (some (string s)) = ok s
as_text default (some _) = raise unexpected

-- `raw.get(key, default)` for a text
unfoldable pub get_text : String → String → Object → Result String
unfolding get
get_text key default raw = as_text default (get key raw)

abbrev pub as_optional_text : Option Json → Result (Option String)
as_optional_text none = ok none
as_optional_text (some null) = ok none
as_optional_text (some (string s)) = ok (some s)
as_optional_text (some _) = raise unexpected

-- `raw.get(key)` for a text or None
unfoldable pub get_optional_text : String → Object → Result (Option String)
unfolding get
get_optional_text key raw = as_optional_text (get key raw)

abbrev pub as_optional_number : Option Json → Result (Option ℕ)
as_optional_number none = ok none
as_optional_number (some null) = ok none
as_optional_number (some (number n)) = ok (some n)
as_optional_number (some _) = raise unexpected

-- `raw.get(key)` for a number or None
unfoldable pub get_optional_number : String → Object → Result (Option ℕ)
unfolding get
get_optional_number key raw = as_optional_number (get key raw)

abbrev pub as_boolean : Bool → Option Json → Result Bool
as_boolean default none = ok default
as_boolean default (some (boolean b)) = ok b
as_boolean default (some _) = raise unexpected

-- `raw.get(key, default)` for a Boolean
unfoldable pub get_boolean : String → Bool → Object → Result Bool
unfolding get
get_boolean key default raw = as_boolean default (get key raw)

-- `[read(x) for x in xs]`
unfoldable pub read_array {ℓ} : {A : Type ℓ} → (Json → Result A) → Array → Result (List A)
read_array read end = ok []
read_array read (element j js) = do x ← read j; xs ← read_array read js; ok (x ∷ xs)

abbrev pub as_array : Option Json → Result Array
as_array none = ok end
as_array (some (array js)) = ok js
as_array (some _) = raise unexpected

-- `[read(x) for x in raw.get(key, [])]`
unfoldable pub get_list {ℓ} : {A : Type ℓ} → (Json → Result A) → String → Object → Result (List A)
unfolding get read_array
get_list read key raw = do js ← as_array (get key raw); read_array read js

-- a reader of dictionaries
abbrev pub read_object {ℓ} : {A : Type ℓ} → (Object → Result A) → Json → Result A
read_object read (object raw) = read raw
read_object read _ = raise unexpected

abbrev pub read_text : Json → Result String
read_text (string s) = ok s
read_text _ = raise unexpected

-- A reader that undoes a writer on some elements undoes it on a list of them.
pub read_array-elements {ℓ κ} :
    {A : Type ℓ} (read : Json → Result A) (write : A → Json) (P : A → Type κ)
    → ((x : A) → P x → read (write x) ≡ ok x)
    → (xs : List A) → All P xs
    → read_array read (elements write xs) ≡ ok xs
unfolding read_array
read_array-elements read write P undoes [] h = refl
read_array-elements read write P undoes (x ∷ xs) (h, hs) =
    rw (undoes x h, read_array-elements read write P undoes xs hs) refl
