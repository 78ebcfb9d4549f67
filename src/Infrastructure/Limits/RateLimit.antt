-- ===== src/Infrastructure/Limits/RateLimit.antt =====
-- infrastructure/client/rate_limit_snapshot.py and rate_limit_tracker. Times are whole: seconds of the
-- epoch for the reset, milliseconds of the monotonic clock for the cooldown. The numbers of a snapshot
-- are not negative.
use pr_auto_reviewer.Prelude.{
  ℕ, ◌+◌, ◌-◌, ◌≤◌, ◌<◌, String, Bool, true, false, ◌≡◌, refl, [], ◌∷◌, Option, none, some, ◌&&◌,
  not, leb, ltb, nat_eq, if◌then◌else◌, arith, ◌⊎◌, inl, inr, Bool-cases,
}
use pr_auto_reviewer.Prelude.Integers.{ℤ, pos, negsuc, int}
use pr_auto_reviewer.Prelude.Json.{Json, number, string, Object, fields, get, get_text}
use pr_auto_reviewer.Prelude.Result.{Result, ok, raise, unexpected, value_error, ◌>>=◌}

pub record RateLimitSnapshot : Type 0 where
  pub limit : ℕ
  pub remaining : ℕ
  pub used : ℕ
  pub reset : ℕ
  pub resource : String

-- `RateLimitSnapshot()`
abbrev pub no_snapshot : RateLimitSnapshot
no_snapshot = record { limit = 0; remaining = 0; used = 0; reset = 0; resource = "" }

unfoldable pub exhausted : RateLimitSnapshot → Bool
exhausted s = nat_eq s.remaining 0 && ltb 0 s.limit

-- `now` is `int(time.time())`; the subtraction stops at 0, like `max(0, ...)`
unfoldable pub reset_seconds_from_now : (now : ℕ) → RateLimitSnapshot → ℕ
reset_seconds_from_now now s = if nat_eq s.reset 0 then 0 else s.reset - now

unfoldable pub to_dict : RateLimitSnapshot → Object
to_dict s = fields (
    ("limit", number s.limit)
    ∷ ("remaining", number s.remaining)
    ∷ ("used", number s.used)
    ∷ ("reset", number s.reset)
    ∷ ("resource", string s.resource)
    ∷ [])

-- `RateLimitWaiter.wait`: the seconds to sleep, if it sleeps
unfoldable pub wait : (now : ℕ) → RateLimitSnapshot → (min_remaining : ℕ) → Option ℕ
unfolding exhausted reset_seconds_from_now
wait now s min_remaining =
    let wait_seconds = reset_seconds_from_now now s in
    if nat_eq s.limit 0
    then none
    else if leb min_remaining s.remaining
    then none
    else if not (exhausted s) && ltb 0 s.remaining
    then none
    else if leb wait_seconds 0
    then some 60
    else some wait_seconds

-- The waiter sleeps exactly if the window is exhausted and `min_remaining` is positive, until the reset
-- if that is to come, else for a minute. For what remains above zero, `min_remaining` plays no part.
pub wait_lem :
    (now : ℕ) (s : RateLimitSnapshot) (min_remaining : ℕ)
    → wait now s min_remaining ≡ (
        if exhausted s && ltb 0 min_remaining
        then some (if ltb now s.reset then s.reset - now else 60)
        else none)
unfolding wait
wait_lem now s min_remaining = ground arith

-- the file of a store
pub data SnapshotFile : Type 0 where
  absent broken : SnapshotFile
  contains : Object → SnapshotFile

pub record RateLimitStore : Type 0 where
  pub file : SnapshotFile
  pub last_write : ℕ

-- what `int` returns for a text; a number below zero is left out
abbrev not_negative : Option ℤ → Result ℕ
not_negative none = raise value_error
not_negative (some (pos n)) = ok n
not_negative (some (negsuc n)) = raise unexpected

-- `int(data.get(key, 0))` for a number or a text
as_number : Option Json → Result ℕ
unfolding int
as_number none = ok 0
as_number (some (number n)) = ok n
as_number (some (string s)) = not_negative (int s)
as_number (some _) = raise unexpected

-- `except ValueError`
abbrev or_no_snapshot : Result RateLimitSnapshot → Result RateLimitSnapshot
or_no_snapshot (raise value_error) = ok no_snapshot
or_no_snapshot r = r

unfoldable pub load : RateLimitStore → Result RateLimitSnapshot
unfolding get get_text as_number
load store = elim store.file [
  | absent ↦ ok no_snapshot
  | broken ↦ ok no_snapshot
  | contains data_ ↦ or_no_snapshot (do
    limit ← as_number (get "limit" data_)
    remaining ← as_number (get "remaining" data_)
    used ← as_number (get "used" data_)
    reset ← as_number (get "reset" data_)
    resource ← get_text "resource" "" data_
    ok (record {
      limit = limit;
      remaining = remaining;
      used = used;
      reset = reset;
      resource = resource;
    }))
]

-- `_SAVE_COOLDOWN`
abbrev pub save_cooldown : ℕ
save_cooldown = 5000

-- `writable` is whether the file can be written; `now` is the monotonic clock.
unfoldable pub force_save :
    (writable : Bool) (now : ℕ) → RateLimitStore → RateLimitSnapshot → RateLimitStore
unfolding to_dict
force_save writable now store snapshot =
    if writable then record { file = contains (to_dict snapshot); last_write = now } else store

unfoldable pub save :
    (writable : Bool) (now : ℕ) → RateLimitStore → RateLimitSnapshot → RateLimitStore
save writable now store snapshot =
    if ltb (now - store.last_write) save_cooldown
    then store
    else force_save writable now store snapshot

pub record RateLimitTracker : Type 0 where
  pub current : RateLimitSnapshot
  pub store : RateLimitStore

-- `RateLimitTracker.record`
unfoldable pub record_snapshot :
    (writable : Bool) (now : ℕ) → RateLimitTracker → RateLimitSnapshot → RateLimitTracker
record_snapshot writable now t snapshot = record {
  current = snapshot;
  store =
      if exhausted snapshot
      then force_save writable now t.store snapshot
      else save writable now t.store snapshot;
}

load-force_save :
    (now : ℕ) (store : RateLimitStore) (s : RateLimitSnapshot)
    → load (force_save true now store s) ≡ ok s
unfolding load force_save
load-force_save now store s = refl

last_write-force_save :
    (now : ℕ) (store : RateLimitStore) (s : RateLimitSnapshot)
    → (force_save true now store s).last_write ≡ now
unfolding force_save
last_write-force_save now store s = refl

-- With a file that can be written, a recorded snapshot is what a later start loads, if it is exhausted
-- or the last write lies a cooldown back; otherwise the store stays as it is.
pub record_snapshot_lem :
    (now : ℕ) (t : RateLimitTracker) (s : RateLimitSnapshot)
    → let t' = record_snapshot true now t s in
      (t'.current ≡ s)
      × (((load t'.store ≡ ok s)
            × (t'.store.last_write ≡ now)
            × ((exhausted s ≡ true) ⊎ (t.store.last_write + save_cooldown ≤ now)))
          ⊎ ((t'.store ≡ t.store)
              × (exhausted s ≡ false)
              × (now < t.store.last_write + save_cooldown)))
unfolding record_snapshot save
record_snapshot_lem now t s = (
  refl,
  elim (Bool-cases (exhausted s)) [
    | inl h ↦
        rw h (inl (load-force_save now t.store s, last_write-force_save now t.store s, inl refl))
    | inr h ↦ rw h (elim (Bool-cases (ltb (now - t.store.last_write) save_cooldown)) [
      | inl soon ↦ rw soon (inr (refl, refl, ground arith))
      | inr late ↦ rw late (
          inl (
            load-force_save now t.store s,
            last_write-force_save now t.store s,
            inr (ground arith),
          ))
    ])
  ],
)
