-- ===== src/Infrastructure/PrRepository/RoundTrip.antt =====
-- A pull request that is saved and found again.
use pr_auto_reviewer.Prelude.{
  ℕ, String, true, false, ◌≡◌, refl, List, [], ◌∷◌, Option, none, some, ◌||◌, not, if◌then◌else◌,
  arith, eq_refl, ◌⊎◌, inl, inr, ◌∙◌, ap, sym, ◌++◌, Bool-cases,
}
use pr_auto_reviewer.Prelude.Json.{
  Json, string, object, Object, elements, get, put, get-put, read_object, read_text, read_array,
  read_array-elements, as_optional_number, bare,
}
use pr_auto_reviewer.Prelude.Lists.{All, All-unit}
use pr_auto_reviewer.Prelude.Result.{ok, fold_m}
use pr_auto_reviewer.Prelude.Sets.{contains, union, contains-union, difference}
use pr_auto_reviewer.Prelude.Text.{truthy}
use pr_auto_reviewer.Prelude.Words.{sorted, place, contains-sorted}
use pr_auto_reviewer.Domain.Identity.{new_commit_sha, new_comment_id}
use pr_auto_reviewer.Domain.PullRequest.{
  PullRequest, has_lifecycles, has_reviews, review_items, review_suggestions,
}
use pr_auto_reviewer.Domain.Item.{ReviewItem}
use pr_auto_reviewer.Domain.PullRequest.Derive.{
  with_derived_lifecycles, derive_lifecycles, derive_item,
}
use pr_auto_reviewer.Infrastructure.PrRepository.Items.{as_optional_text-optional_text}
use pr_auto_reviewer.Infrastructure.PrRepository.Lifecycles.{
  IsStorable, serialize_lifecycle, deserialize_lifecycle, deserialize-serialize_lifecycle,
}
use pr_auto_reviewer.Infrastructure.PrRepository.Reviews.{
  IsAccepted, serialize_review, deserialize_review, deserialize-serialize_review,
}
use pr_auto_reviewer.Infrastructure.PrRepository.{
  state_key, optional_number, serialize, read_comment_id, deserialize, File, missing, unreadable,
  holds, load, find, save, as_reviewed, no_state,
}

-- Nothing that a lifecycle could be derived from: no item or suggestion of a review has an ID, and nothing is
-- dismissed.
abbrev pub IsClean : PullRequest → Type 0
IsClean pr =
    All (λ item. truthy item.id ≡ false) (review_items pr.reviews ++ review_suggestions pr.reviews)
    × (pr.lifecycles ≡ [])
    × (pr.dismissed_item_ids ≡ [])

-- What the constructors accept, with the lifecycles of its reviews, if there should be any, on record.
pub record IsPersistable (pr : PullRequest) : Type 0 where
  pub reviews : All IsAccepted pr.reviews
  pub lifecycles : All IsStorable pr.lifecycles
  pub head_sha : truthy pr.head_sha.value ≡ true
  pub processed : All (λ id. truthy id ≡ true) pr.processed_comment_ids
  pub derived : (has_lifecycles pr.lifecycles || not (has_reviews pr.reviews) ≡ true) ⊎ IsClean pr

-- The same pull request, with its sets perhaps in another order.
pub record Restored (pr pr' : PullRequest) : Type 0 where
  pub same : pr' ≡ record pr {
    unresolved_blocking_ids = pr'.unresolved_blocking_ids;
    created_issue_item_ids = pr'.created_issue_item_ids;
    dismissed_item_ids = pr'.dismissed_item_ids;
    processed_comment_ids = pr'.processed_comment_ids;
  }
  pub unresolved :
      (k : String) → contains k pr'.unresolved_blocking_ids ≡ contains k pr.unresolved_blocking_ids
  pub created :
      (k : String) → contains k pr'.created_issue_item_ids ≡ contains k pr.created_issue_item_ids
  pub dismissed :
      (k : String) → contains k pr'.dismissed_item_ids ≡ contains k pr.dismissed_item_ids
  pub processed :
      (k : String) → contains k pr'.processed_comment_ids ≡ contains k pr.processed_comment_ids

contains-reread :
    (k : String) (ss : List String) → contains k (union [] (sorted ss)) ≡ contains k ss
unfolding contains
contains-reread k ss = contains-union k [] (sorted ss) ∙ contains-sorted k ss

All-sorted : (P : String → Type 0) (ss : List String) → All P ss → All P (sorted ss)
unfolding sorted
All-sorted P [] h = tt
All-sorted P (s ∷ ss) (h, hs) = All-place s (sorted ss) h (All-sorted P ss hs)
  where
    All-place : (s : String) (ss : List String) → P s → All P ss → All P (place s ss)
    All-place s [] h hs = (h, tt)
    All-place s (t ∷ ts) h hs = ground (arith, All-place s ts)

read_texts : (ss : List String) → read_array read_text (elements string ss) ≡ ok ss
read_texts ss = read_array-elements read_text string (λ s. Unit {0}) (λ s u. refl) ss (All-unit ss)

read_comment_ids :
    (ss : List String)
    → All (λ id. truthy id ≡ true) ss
    → read_array read_comment_id (elements string ss) ≡ ok ss
unfolding read_comment_id new_comment_id
read_comment_ids ss h =
    read_array-elements read_comment_id string (λ s. truthy s ≡ true) read_back ss h
  where
    read_back : (s : String) → truthy s ≡ true → read_comment_id (string s) ≡ ok s
    read_back s h = rw h refl

as_optional_number-optional_number :
    (o : Option ℕ) → as_optional_number (some (optional_number o)) ≡ ok o
as_optional_number-optional_number none = refl
as_optional_number-optional_number (some n) = refl

-- what `find` returns after `save`
abbrev reread : PullRequest → PullRequest
reread pr = record pr {
  unresolved_blocking_ids = union [] (sorted pr.unresolved_blocking_ids);
  created_issue_item_ids = union [] (sorted pr.created_issue_item_ids);
  dismissed_item_ids = union [] (sorted pr.dismissed_item_ids);
  processed_comment_ids = union [] (sorted pr.processed_comment_ids);
}

nothing_derived :
    (sha : String) (items : List ReviewItem)
    → All (λ item. truthy item.id ≡ false) items
    → fold_m (derive_item sha) (record { known = []; lifecycles = [] }) items
      ≡ ok (record { known = []; lifecycles = [] })
unfolding fold_m derive_item
nothing_derived sha [] h = refl
nothing_derived sha (item ∷ items) (h, hs) = rw h (nothing_derived sha items hs)

derive_lifecycles-clean :
    (pr : PullRequest)
    → All
        (λ item. truthy item.id ≡ false)
        (review_items pr.reviews ++ review_suggestions pr.reviews)
    → pr.dismissed_item_ids ≡ []
    → derive_lifecycles (reread pr) ≡ ok []
unfolding derive_lifecycles union sorted difference fold_m
derive_lifecycles-clean pr unnamed quiet =
    rw
      (
        nothing_derived pr.head_sha.value (review_items pr.reviews ++ review_suggestions pr.reviews)
            unnamed,
        quiet,
      )
      refl

-- Where lifecycles are on record, or there are none to derive, `find` derives none.
derived-reread :
    (pr : PullRequest)
    → (has_lifecycles pr.lifecycles || not (has_reviews pr.reviews) ≡ true) ⊎ IsClean pr
    → with_derived_lifecycles (reread pr) ≡ ok (reread pr)
unfolding with_derived_lifecycles
derived-reread pr (inl known) = rw known refl
derived-reread pr (inr (unnamed, none_, quiet)) =
    elim (Bool-cases (has_lifecycles pr.lifecycles || not (has_reviews pr.reviews))) [
      | inl known ↦ rw known refl
      | inr open_ ↦ rw open_ (
          rw (derive_lifecycles-clean pr unnamed quiet)
            (ap (λ ls. ok (record (reread pr) { lifecycles = ls })) (sym none_)))
    ]

deserialize-serialize :
    (pr : PullRequest) → IsPersistable pr → deserialize pr.id (serialize pr) ≡ ok (reread pr)
unfolding deserialize serialize new_commit_sha
deserialize-serialize pr p =
    rw
      (
        read_array-elements (read_object deserialize_review) serialize_review IsAccepted
            deserialize-serialize_review pr.reviews p.reviews,
        read_texts (sorted pr.unresolved_blocking_ids),
        read_texts (sorted pr.created_issue_item_ids),
        read_texts (sorted pr.dismissed_item_ids),
        read_array-elements (read_object deserialize_lifecycle) serialize_lifecycle IsStorable
            deserialize-serialize_lifecycle pr.lifecycles p.lifecycles,
        read_comment_ids (sorted pr.processed_comment_ids)
            (All-sorted (λ id. truthy id ≡ true) pr.processed_comment_ids p.processed),
        p.head_sha,
        as_optional_text-optional_text pr.last_reviewed_at,
        as_optional_text-optional_text pr.last_command_checked_at,
        as_optional_number-optional_number pr.last_review_request_event_id,
        as_optional_number-optional_number pr.last_platform_review_id,
      )
      (derived-reread pr p.derived)

reread-Restored : (pr : PullRequest) → Restored pr (reread pr)
reread-Restored pr = record {
  same = refl;
  unresolved = λ k. contains-reread k pr.unresolved_blocking_ids;
  created = λ k. contains-reread k pr.created_issue_item_ids;
  dismissed = λ k. contains-reread k pr.dismissed_item_ids;
  processed = λ k. contains-reread k pr.processed_comment_ids;
}

-- the state file is missing, or holds an object under "reviewed", or nothing there
abbrev pub IsReadable : File → Type 0
IsReadable missing = Unit
IsReadable unreadable = ⊥
IsReadable (holds state) =
    (get "reviewed" state ≡ none)
    ⊎ ((reviewed : Object) × (get "reviewed" state ≡ some (object reviewed)))

-- What a readable state file holds under "reviewed".
pub reviewed_of :
    (file : File)
    → IsReadable file
    → (state : Object) × (reviewed : Object) × (load file ≡ ok state)
      × (as_reviewed (get "reviewed" state) ≡ ok reviewed)
unfolding load get
reviewed_of missing r = (no_state, bare, refl, refl)
reviewed_of unreadable r = elim r [ ]
reviewed_of (holds state) (inl e) = (state, bare, refl, rw e refl)
reviewed_of (holds state) (inr (reviewed, e)) = (state, reviewed, refl, rw e refl)

-- the state that holds `reviewed`
abbrev pub with_reviewed : Object → Object → Object
with_reviewed reviewed state = put "reviewed" (object reviewed) state

pub get-with_reviewed :
    (reviewed state : Object)
    → get "reviewed" (with_reviewed reviewed state) ≡ some (object reviewed)
get-with_reviewed reviewed state = get-put "reviewed" "reviewed" (object reviewed) state

get-put_same :
    (key : String) (value : Json) (raw : Object) → get key (put key value raw) ≡ some value
get-put_same key value raw =
    get-put key key value raw ∙ ap (λ b. if b then some value else get key raw) (eq_refl key)

-- On a readable state file, a pull request can be saved whose parts the constructors accept, and which
-- has lifecycles, or no reviews, or nothing to derive a lifecycle from (no item or suggestion with an
-- ID, and nothing dismissed). The state stays readable, and the pull request is found again under its
-- ID as it was, up to the order of its sets.
pub find-save :
    (file : File) (pr : PullRequest)
    → IsReadable file
    → IsPersistable pr
    → (state : Object) × (pr' : PullRequest) × (save file pr ≡ ok state)
      × IsReadable (holds state)
      × (find (holds state) pr.id ≡ ok (some pr'))
      × Restored pr pr'
unfolding find save load
find-save file pr r p =
    let (state, reviewed, l, a) = reviewed_of file r in
    let key = state_key pr.id in
    let reviewed' = put key (object (serialize pr)) reviewed in
    (
      with_reviewed reviewed' state,
      reread pr,
      rw (l, a) refl,
      inr (reviewed', get-with_reviewed reviewed' state),
      rw
          (
            get-with_reviewed reviewed' state,
            get-put_same key (object (serialize pr)) reviewed,
            deserialize-serialize pr p,
          )
          refl,
      reread-Restored pr,
    )
