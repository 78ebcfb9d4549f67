-- ===== src/Domain/PullRequest/Reviews.antt =====
-- `add_review`: the lifecycles that a completed review creates.
use pr_auto_reviewer.Prelude.{
  String, Bool, true, false, ◌≡◌, refl, sym, ap, subst, ◌∙◌, List, [], ◌∷◌, ◌++◌, Option, none,
  some, ◌&&◌, not, ◌==◌, eq_iff, arith, if◌then◌else◌, is_some, Bool-cases, inl, inr, append-nil,
  append_assoc,
}
use mathlib.Core.List.{foldl, map-append}
use mathlib.Core.Option
use pr_auto_reviewer.Prelude.Lists.{All, All-snoc, All-unit}
use pr_auto_reviewer.Prelude.Sets.{
  contains, add, union, Distinct, contains-add, contains-append, contains-union, snoc-Distinct,
}
use pr_auto_reviewer.Prelude.Result.{ok, fold_m, fold_m-eq-foldl}
use pr_auto_reviewer.Prelude.Text.{truthy}
use pr_auto_reviewer.Domain.Identity.{CommitSha}
use pr_auto_reviewer.Domain.Item.{ReviewItem}
use pr_auto_reviewer.Domain.Review.{CodeReview}
use pr_auto_reviewer.Domain.Lifecycle.{ReviewItemLifecycle}
use pr_auto_reviewer.Domain.Lifecycle.Moves.{
  IsValid, appeared, appeared-IsValid, first_appearance-eq-appeared,
}
use pr_auto_reviewer.Domain.PullRequest.{PullRequest, records, item_ids, find_lifecycle}
use pr_auto_reviewer.Domain.PullRequest.Lifecycles.{Tracking, track_item, add_review}
use pr_auto_reviewer.Domain.PullRequest.Index.{
  IsSound, is_some-find_lifecycle, find_lifecycle-append,
}
use pr_auto_reviewer.Domain.PullRequest.Views.{find_item}

-- The loop's invariant.
record IsTracking (t : Tracking) : Type 0 where
  distinct : Distinct (item_ids t.lifecycles)
  valid : All IsValid t.lifecycles
  known : (k : String) → contains k t.known ≡ contains k (item_ids t.lifecycles)

-- What `add_review` at a commit leaves for an item that has a name.
abbrev pub tracked_by :
    String → String → Option ReviewItemLifecycle → List ReviewItem → Option ReviewItemLifecycle
tracked_by sha k (some l) items = some l
tracked_by sha k none items =
    Option.map (λ item. appeared k sha item.status_explanation) (find_item k items)

tracked_by-nil : (sha k : String) (o : Option ReviewItemLifecycle) → o ≡ tracked_by sha k o []
tracked_by-nil sha k none = refl
tracked_by-nil sha k (some l) = refl

tracked_by-cons :
    (sha k : String) (o : Option ReviewItemLifecycle) (item : ReviewItem) (items : List ReviewItem)
    → tracked_by sha k
        (if is_some o
          then o
          else if item.id == k
          then some (appeared k sha item.status_explanation)
          else none)
        items
      ≡ tracked_by sha k o (item ∷ items)
tracked_by-cons sha k (some l) item items = refl
tracked_by-cons sha k none item items = ground arith

module _ (sha : String) (hs : truthy sha ≡ true) where
  abbrev is_new : Tracking → ReviewItem → Bool
  is_new t item = truthy item.id && not (contains item.id t.known)

  -- what the loop adds for an item
  fresh_one : Tracking → ReviewItem → List ReviewItemLifecycle
  fresh_one t item = if is_new t item then appeared item.id sha item.status_explanation ∷ [] else []

  tracked : Tracking → ReviewItem → Tracking
  unfolding fresh_one
  tracked t item = record {
    known = if is_new t item then add item.id t.known else t.known;
    lifecycles = t.lifecycles ++ fresh_one t item;
  }

  track_item-eq-ok :
      (t : Tracking) (item : ReviewItem) → track_item sha t item ≡ ok (tracked t item)
  unfolding track_item tracked
  track_item-eq-ok t item = elim (Bool-cases (truthy item.id)) [
    | inl named ↦ elim (Bool-cases (contains item.id t.known)) [
      | inl old ↦ rw (named, old) (rw append-nil)
      | inr new ↦
          rw (named, new, first_appearance-eq-appeared item.id sha item.status_explanation named hs)
    ]
    | inr unnamed ↦ rw (unnamed) (rw append-nil)
  ]

  item_ids-append :
      (ls ms : List ReviewItemLifecycle) → item_ids (ls ++ ms) ≡ item_ids ls ++ item_ids ms
  item_ids-append ls ms = map-append _ ls ms

  new_parts :
      (t : Tracking) (item : ReviewItem)
      → is_new t item ≡ true
      → (truthy item.id ≡ true) × (contains item.id t.known ≡ false)
  new_parts t item h = ground arith

  tracked-IsTracking :
      (t : Tracking) (item : ReviewItem) → IsTracking t → IsTracking (tracked t item)
  unfolding tracked appeared contains
  tracked-IsTracking t item h = elim (Bool-cases (is_new t item)) [
    | inr old ↦ rw (old, append-nil) h
    | inl new ↦
        let (named, absent) = new_parts t item new in
        let l = appeared item.id sha item.status_explanation in
        rw new (record {
          distinct = subst Distinct (sym (item_ids-append t.lifecycles (l ∷ []))) (
              snoc-Distinct item.id (item_ids t.lifecycles) h.distinct
                (sym (h.known item.id) ∙ absent));
          valid =
              All-snoc IsValid (appeared-IsValid item.id sha item.status_explanation named hs)
                t.lifecycles h.valid;
          known = λ k. ground (
            arith,
            contains-add k item.id t.known,
            h.known k,
            item_ids-append t.lifecycles (l ∷ []),
            contains-append k (item_ids t.lifecycles) (item.id ∷ []),
          );
        })
  ]

  find-tracked_one :
      (k : String) (t : Tracking) (item : ReviewItem)
      → IsTracking t
      → truthy k ≡ true
      → find_lifecycle k (tracked t item).lifecycles ≡ (
          if is_some (find_lifecycle k t.lifecycles)
          then find_lifecycle k t.lifecycles
          else if item.id == k
          then some (appeared k sha item.status_explanation)
          else none)
  unfolding tracked appeared
  find-tracked_one k t item h named = ground (
    arith,
    find_lifecycle-append k t.lifecycles (fresh_one t item),
    is_some-find_lifecycle k t.lifecycles,
    h.known k,
    eq_iff item.id k,
  )

  find-tracked :
      (k : String) (t : Tracking) (items : List ReviewItem)
      → IsTracking t
      → truthy k ≡ true
      → find_lifecycle k (foldl tracked t items).lifecycles
        ≡ tracked_by sha k (find_lifecycle k t.lifecycles) items
  find-tracked k t [] h named = tracked_by-nil sha k (find_lifecycle k t.lifecycles)
  find-tracked k t (item ∷ items) h named =
      find-tracked k (tracked t item) items (tracked-IsTracking t item h) named
      ∙ ap (λ o. tracked_by sha k o items) (find-tracked_one k t item h named)
      ∙ tracked_by-cons sha k (find_lifecycle k t.lifecycles) item items

  -- Lifecycles keep their places, and fresh ones come behind.
  lifecycles-tracked :
      (t : Tracking) (items : List ReviewItem)
      → (fresh : List ReviewItemLifecycle) × ((foldl tracked t items).lifecycles
          ≡ t.lifecycles ++ fresh)
  unfolding tracked
  lifecycles-tracked t [] = ([], sym (append-nil t.lifecycles))
  lifecycles-tracked t (item ∷ items) =
      let (rest, e) = lifecycles-tracked (tracked t item) items in
      (fresh_one t item ++ rest, e ∙ append_assoc t.lifecycles (fresh_one t item) rest)

-- What `add_review` returns.
pub record Recorded (pr : PullRequest) (review : CodeReview) (sha : CommitSha) (pr' : PullRequest)
    : Type 0 where
  pub reviews : pr'.reviews ≡ pr.reviews ++ review ∷ []
  pub head_sha : pr'.head_sha ≡ sha
  pub dismissed : pr'.dismissed_item_ids ≡ []
  pub blocking : pr'.unresolved_blocking_ids ≡ pr.unresolved_blocking_ids
  pub event : pr'.last_review_request_event_id ≡ pr.last_review_request_event_id
  pub platform : pr'.last_platform_review_id ≡ pr.last_platform_review_id
  pub platform_dismissed : pr'.last_platform_review_dismissed ≡ pr.last_platform_review_dismissed
  pub fresh : List ReviewItemLifecycle
  pub grown : pr'.lifecycles ≡ pr.lifecycles ++ fresh
  pub finds :
      (k : String)
      → truthy k ≡ true
      → find_lifecycle k pr'.lifecycles
        ≡ tracked_by sha.value k (find_lifecycle k pr.lifecycles) (records review)
  pub sound : IsSound pr'

module _ (pr : PullRequest) (review : CodeReview) (sha : CommitSha) (s : IsSound pr)
    (hs : truthy sha.value ≡ true) where
  abbrev start : Tracking
  start = record { known = union [] (item_ids pr.lifecycles); lifecycles = pr.lifecycles }

  start-IsTracking : IsTracking start
  unfolding contains
  start-IsTracking = record {
    distinct = s.distinct;
    valid = s.valid;
    known = λ k. contains-union k [] (item_ids pr.lifecycles);
  }

  abbrev final : Tracking
  final = foldl (tracked sha.value hs) start (records review)

  loop : (fold_m (track_item sha.value) start (records review) ≡ ok final) × IsTracking final
  loop =
      fold_m-eq-foldl IsTracking (λ _. Unit {0}) (track_item sha.value) (tracked sha.value hs)
        (λ t item h _.
          (track_item-eq-ok sha.value hs t item, tracked-IsTracking sha.value hs t item h))
        start (records review) start-IsTracking (All-unit (records review))

  abbrev result : PullRequest
  result = record pr {
    reviews = pr.reviews ++ review ∷ [];
    head_sha = sha;
    dismissed_item_ids = [];
    lifecycles = final.lifecycles;
  }

  returns : add_review pr review sha ≡ ok result
  unfolding add_review
  returns = rw loop.0

  result-Recorded : Recorded pr review sha result
  result-Recorded =
      let (fresh, e) = lifecycles-tracked sha.value hs start (records review) in
      record {
        reviews = refl;
        head_sha = refl;
        dismissed = refl;
        blocking = refl;
        event = refl;
        platform = refl;
        platform_dismissed = refl;
        fresh = fresh;
        grown = e;
        finds =
            λ k named. find-tracked sha.value hs k start (records review) start-IsTracking named;
        sound = record { distinct = loop.1.distinct; valid = loop.1.valid; head_sha = hs };
      }

-- On a sound pull request and a commit that is no empty text, `add_review` returns. The review is
-- appended, the head moves to the commit and the dismissed IDs are cleared; the blocking IDs and
-- what the platform reported stay. The lifecycles before stay as they are, in front; a named item
-- of the review or of its suggestions that had none gets one, CREATED at the commit by its first
-- occurrence; no other item gets one. The result is sound.
pub add_review_lem :
    (pr : PullRequest) (review : CodeReview) (sha : CommitSha)
    → IsSound pr
    → truthy sha.value ≡ true
    → (pr' : PullRequest) × (add_review pr review sha ≡ ok pr') × Recorded pr review sha pr'
add_review_lem pr review sha s hs =
    (result pr review sha s hs, returns pr review sha s hs, result-Recorded pr review sha s hs)
