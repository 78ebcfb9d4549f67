-- ===== src/Domain/Verdict.antt =====
-- domain/value_objects/review_verdict.py
use pr_auto_reviewer.Prelude.{
  ℕ, String, Bool, true, false, List, [], ◌∷◌, Option, none, some, ◌&&◌, ◌||◌, not, if◌then◌else◌,
  leb, ◌==◌,
}
use Prim.Native.Char.{Char, code}
use pr_auto_reviewer.Prelude.Lists.{any}
use pr_auto_reviewer.Prelude.Sets.{contains}
use pr_auto_reviewer.Prelude.Text.{strip, lower, replace_char, occurs, truthy}

pub data ReviewVerdict : Type 0 where
  approved changes_requested commented : ReviewVerdict

abbrev pub value : ReviewVerdict → String
value approved = "approved"
value changes_requested = "changes_requested"
value commented = "commented"

abbrev pub is_commented : ReviewVerdict → Bool
is_commented commented = true
is_commented _ = false

abbrev pub is_changes_requested : ReviewVerdict → Bool
is_changes_requested changes_requested = true
is_changes_requested _ = false

abbrev pub is_approved : ReviewVerdict → Bool
is_approved approved = true
is_approved _ = false

-- one of `[a-z0-9]`
token_char : ℕ → Bool
token_char n = leb b'a' n && leb n b'z' || leb b'0' n && leb n b'9'

-- `re.split(r"[^a-z0-9]+", raw)`: the maximal runs of token characters, the empty text where `raw`
-- begins or ends with a separator.
start_token : Char → List String → List String
start_token c [] = String.◌∷◌ c "" ∷ []
start_token c (t ∷ ts) = String.◌∷◌ c t ∷ ts

-- A separator before an empty first token belongs to the same run of separators.
cut_token : Bool → List String → List String
cut_token true ts = ts
cut_token false ts = "" ∷ ts

-- whether the text begins with a separator
starts_apart : String → Bool
unfolding token_char
starts_apart String.[] = false
starts_apart (String.◌∷◌ c s) = not (token_char (code c))

unfoldable pub tokens : String → List String
unfolding token_char start_token cut_token starts_apart
tokens String.[] = "" ∷ []
tokens (String.◌∷◌ c s) =
    let rest = tokens s in
    if token_char (code c) then start_token c rest else cut_token (starts_apart s) rest

abbrev negative : List String
negative =
    "critical" ∷ "changes" ∷ "request" ∷ "fail" ∷ "issues" ∷ "problems" ∷ "errors" ∷ "must"
    ∷ "needs" ∷ "incomplete" ∷ "concerns" ∷ "blocker" ∷ "blocking" ∷ "blocked" ∷ []

abbrev positive : List String
positive =
    "positive" ∷ "approved" ∷ "approve" ∷ "noissues" ∷ "pass" ∷ "good" ∷ "clean" ∷ "acceptable" ∷ []

abbrev clean_phrases : List String
clean_phrases = "no issues" ∷ "no_issues" ∷ "no critical" ∷ "no_critical" ∷ "nothing wrong" ∷ []

-- `raw in (member.value, member.value.replace("_", " "))`, for each member in turn
member_named : String → List ReviewVerdict → Option ReviewVerdict
unfolding replace_char
member_named raw [] = none
member_named raw (m ∷ ms) =
    let rest = member_named raw ms in
    if raw == value m || raw == replace_char "_" " " (value m) then some m else rest

by_wording : String → Option ReviewVerdict
unfolding tokens contains
by_wording raw =
    if any (λ phrase. occurs phrase raw) clean_phrases
    then some approved
    else if any (λ t. contains t positive) (tokens raw)
    then some approved
    else if any (λ t. contains t negative) (tokens raw)
    then some changes_requested
    else none

or_by_wording : String → Option ReviewVerdict → Option ReviewVerdict
unfolding by_wording
or_by_wording raw none = by_wording raw
or_by_wording raw (some m) = some m

-- `coerce` of a text; of `None` it is `None`
unfoldable pub coerce_text : String → Option ReviewVerdict
unfolding strip lower or_by_wording member_named
coerce_text text =
    let raw = lower (strip text) in
    if not (truthy raw)
    then none
    else or_by_wording raw (member_named raw (approved ∷ changes_requested ∷ commented ∷ []))

unfoldable pub coerce : Option String → Option ReviewVerdict
unfolding coerce_text
coerce none = none
coerce (some text) = coerce_text text
