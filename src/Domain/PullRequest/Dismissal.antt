-- ===== src/Domain/PullRequest/Dismissal.antt =====
-- `dismiss_review_items`: what it leaves for each item, and what `latest_review_items` then shows.
use pr_auto_reviewer.Prelude.{
  String, true, ◌≡◌, refl, sym, ap, subst, ◌∙◌, List, [], ◌∷◌, Option, none, some, ◌||◌, ◌==◌,
  eq_iff, arith, if◌then◌else◌, is_some, some_or_none, Bool-cases, inl, inr,
}
use mathlib.Core.List.{foldl}
use pr_auto_reviewer.Prelude.Lists.{All-unit}
use pr_auto_reviewer.Prelude.Sets.{contains, Distinct, union, contains-union}
use pr_auto_reviewer.Prelude.Dict.{lookup, insert, lookup-insert}
use pr_auto_reviewer.Prelude.Result.{ok, fold_m, fold_m-eq-foldl}
use pr_auto_reviewer.Prelude.Text.{truthy}
use pr_auto_reviewer.Domain.Status.{ReviewItemStatus, created, opened, resolved, dismissed}
use pr_auto_reviewer.Domain.Status
use pr_auto_reviewer.Domain.Lifecycle
use pr_auto_reviewer.Domain.Lifecycle.{ReviewItemLifecycle, dismiss}
use pr_auto_reviewer.Domain.Lifecycle.Moves.{
  IsValid, moved, dismiss_target, dismiss-eq-moved, moved-IsValid,
}
use pr_auto_reviewer.Domain.PullRequest.{PullRequest, item_ids, find_lifecycle}
use pr_auto_reviewer.Domain.PullRequest.Lifecycles.{
  dismiss_found, dismiss_item, dismiss_review_items, index_by_id,
}
use pr_auto_reviewer.Domain.PullRequest.Index.{
  IsSound, Fits, IsIndex, insert-IsIndex, is_some-find_lifecycle, lookup-index, index_by_id-IsIndex,
  Collected, collect_total,
}

-- The lifecycle that a dismissal at a commit leaves for an item.
abbrev pub dismissal : String → Option ReviewItemLifecycle → Option ReviewItemLifecycle
dismissal sha none = none
dismissal sha (some l) =
    if Lifecycle.is_active l then some (moved dismissed l sha "Dismissed by command") else some l

active_target : (s : ReviewItemStatus) → Status.is_active s ≡ true → dismiss_target s ≡ dismissed
active_target created a = refl
active_target opened a = refl
active_target resolved a = cc
active_target dismissed a = refl

dismissal_idem :
    (sha : String) (o : Option ReviewItemLifecycle)
    → dismissal sha (dismissal sha o) ≡ dismissal sha o
unfolding moved
dismissal_idem sha none = refl
dismissal_idem sha (some l) = elim (Bool-cases (Lifecycle.is_active l)) [
  | inl a ↦ rw a
  | inr a ↦ rw (a, a)
]

is_some-dismissal :
    (sha : String) (o : Option ReviewItemLifecycle) → is_some (dismissal sha o) ≡ is_some o
is_some-dismissal sha none = refl
is_some-dismissal sha (some l) = ground arith

module _ (sha : String) (hs : truthy sha ≡ true) where
  -- The dictionary after one item.
  abbrev put_dismissal :
      List (String × ReviewItemLifecycle)
      → String
      → Option ReviewItemLifecycle
      → List (String × ReviewItemLifecycle)
  put_dismissal d k none = d
  put_dismissal d k (some l) =
      if Lifecycle.is_active l then insert k (moved dismissed l sha "Dismissed by command") d else d

  dismissed_one : List (String × ReviewItemLifecycle) → String → List (String × ReviewItemLifecycle)
  dismissed_one d k = put_dismissal d k (lookup k d)

  dismiss_active :
      (l : ReviewItemLifecycle)
      → IsValid l
      → Lifecycle.is_active l ≡ true
      → dismiss l sha "Dismissed by command" ≡ ok (moved dismissed l sha "Dismissed by command")
  dismiss_active l v a =
      dismiss-eq-moved l v sha "Dismissed by command" hs
      ∙ ap (λ t. ok (moved t l sha "Dismissed by command")) (active_target l.status a)

  dismiss_found-eq-ok :
      (d : List (String × ReviewItemLifecycle)) (k : String) (o : Option ReviewItemLifecycle)
      → Fits k o
      → dismiss_found sha d k o ≡ ok (put_dismissal d k o)
  unfolding dismiss_found
  dismiss_found-eq-ok d k none f = refl
  dismiss_found-eq-ok d k (some l) f = elim (Bool-cases (Lifecycle.is_active l)) [
    | inl a ↦ rw (a, dismiss_active l f.1 a)
    | inr a ↦ rw a
  ]

  put_dismissal-IsIndex :
      (d : List (String × ReviewItemLifecycle)) (k : String) (o : Option ReviewItemLifecycle)
      → IsIndex d
      → Fits k o
      → IsIndex (put_dismissal d k o)
  unfolding moved
  put_dismissal-IsIndex d k none h f = h
  put_dismissal-IsIndex d k (some l) h f = elim (Bool-cases (Lifecycle.is_active l)) [
    | inl a ↦
        rw a
          (insert-IsIndex d k _ h f.0 (moved-IsValid l f.1 sha "Dismissed by command" dismissed hs))
    | inr a ↦ rw a h
  ]

  lookup-put_dismissal :
      (d : List (String × ReviewItemLifecycle)) (j k : String) (o : Option ReviewItemLifecycle)
      → lookup k d ≡ o
      → lookup j (put_dismissal d k o) ≡ (if k == j then dismissal sha (lookup j d) else lookup j d)
  lookup-put_dismissal d j k none e = ground (arith, eq_iff k j)
  lookup-put_dismissal d j k (some l) e =
      ground (arith, eq_iff k j, lookup-insert j k (moved dismissed l sha "Dismissed by command") d)

  lookup-dismissed_one :
      (d : List (String × ReviewItemLifecycle)) (j k : String)
      → lookup j (dismissed_one d k) ≡ (if k == j then dismissal sha (lookup j d) else lookup j d)
  unfolding dismissed_one
  lookup-dismissed_one d j k = lookup-put_dismissal d j k (lookup k d) refl

  lookup-dismissed_all :
      (d : List (String × ReviewItemLifecycle)) (j : String) (ks : List String)
      → lookup j (foldl dismissed_one d ks)
        ≡ (if contains j ks then dismissal sha (lookup j d) else lookup j d)
  unfolding contains
  lookup-dismissed_all d j [] = refl
  lookup-dismissed_all d j (k ∷ ks) = ground (
    arith,
    lookup-dismissed_all (dismissed_one d k) j ks,
    lookup-dismissed_one d j k,
    dismissal_idem sha (lookup j d),
  )

  dismiss_item-eq-ok :
      (d : List (String × ReviewItemLifecycle)) (k : String)
      → IsIndex d
      → Unit {0}
      → (dismiss_item sha d k ≡ ok (dismissed_one d k)) × IsIndex (dismissed_one d k)
  unfolding dismiss_item dismissed_one
  dismiss_item-eq-ok d k h _ = (
    dismiss_found-eq-ok d k (lookup k d) (h.fits k),
    put_dismissal-IsIndex d k (lookup k d) h (h.fits k),
  )

-- What `dismiss_review_items` returns, item by item.
pub record Dismissed (pr : PullRequest) (ks : List String) (pr' : PullRequest) : Type 0 where
  pub lifecycles :
      (k : String)
      → find_lifecycle k pr'.lifecycles ≡ (
          if contains k ks
          then dismissal pr.head_sha.value (find_lifecycle k pr.lifecycles)
          else find_lifecycle k pr.lifecycles)
  pub order : item_ids pr'.lifecycles ≡ item_ids pr.lifecycles
  pub dismissed :
      (k : String)
      → contains k pr'.dismissed_item_ids ≡ contains k pr.dismissed_item_ids || contains k ks
  pub sound : IsSound pr'
  pub reviews : pr'.reviews ≡ pr.reviews
  pub head_sha : pr'.head_sha ≡ pr.head_sha

module _ (pr : PullRequest) (k₀ : String) (ks : List String) (s : IsSound pr) where
  abbrev sha : String
  sha = pr.head_sha.value

  abbrev start : List (String × ReviewItemLifecycle)
  start = index_by_id [] pr.lifecycles

  abbrev final : List (String × ReviewItemLifecycle)
  final = foldl (dismissed_one sha s.head_sha) start (k₀ ∷ ks)

  loop : (fold_m (dismiss_item sha) start (k₀ ∷ ks) ≡ ok final) × IsIndex final
  loop =
      fold_m-eq-foldl IsIndex (λ _. Unit {0}) (dismiss_item sha) (dismissed_one sha s.head_sha)
        (dismiss_item-eq-ok sha s.head_sha) start (k₀ ∷ ks)
        (index_by_id-IsIndex pr.lifecycles s.distinct s.valid) (All-unit (k₀ ∷ ks))

  lookup-final :
      (k : String)
      → lookup k final ≡ (
          if contains k (k₀ ∷ ks)
          then dismissal sha (find_lifecycle k pr.lifecycles)
          else find_lifecycle k pr.lifecycles)
  lookup-final k =
      lookup-dismissed_all sha s.head_sha start k (k₀ ∷ ks)
      ∙ ap (λ o. if contains k (k₀ ∷ ks) then dismissal sha o else o)
          (lookup-index k pr.lifecycles s.distinct)

  covers : (k : String) → contains k (item_ids pr.lifecycles) ≡ is_some (lookup k final)
  covers k = ground (
    arith,
    is_some-find_lifecycle k pr.lifecycles,
    lookup-final k,
    is_some-dismissal sha (find_lifecycle k pr.lifecycles),
  )

  read_back : Collected final (item_ids pr.lifecycles)
  read_back = collect_total final loop.1 (item_ids pr.lifecycles) (λ k m. sym (covers k) ∙ m)

  abbrev result : PullRequest
  result = record pr {
    dismissed_item_ids = union pr.dismissed_item_ids (k₀ ∷ ks);
    lifecycles = read_back.lifecycles;
  }

  returns : dismiss_review_items pr (k₀ ∷ ks) ≡ ok result
  unfolding dismiss_review_items
  returns = rw (loop.0, read_back.returns)

  result-Dismissed : Dismissed pr (k₀ ∷ ks) result
  result-Dismissed = record {
    lifecycles = λ k.
        read_back.finds k
        ∙ ap (λ b. if b then lookup k final else none) (covers k)
        ∙ some_or_none (lookup k final)
        ∙ lookup-final k;
    order = read_back.ids;
    dismissed = λ k. contains-union k pr.dismissed_item_ids (k₀ ∷ ks);
    sound = record {
      distinct = subst Distinct (sym read_back.ids) s.distinct;
      valid = read_back.valid;
      head_sha = s.head_sha;
    };
    reviews = refl;
    head_sha = refl;
  }

-- On a sound pull request, `dismiss_review_items` returns for any IDs. An active lifecycle of a named
-- item becomes DISMISSED at the head commit; every other lifecycle stays as it is, in its place; the
-- dismissed IDs grow by the named ones; the result is sound, with the same reviews and head.
pub dismiss_review_items_lem :
    (pr : PullRequest) (ks : List String)
    → IsSound pr
    → (pr' : PullRequest) × (dismiss_review_items pr ks ≡ ok pr') × Dismissed pr ks pr'
unfolding dismiss_review_items contains
dismiss_review_items_lem pr [] s = (
  pr,
  refl,
  record {
    lifecycles = λ k. refl;
    order = refl;
    dismissed = λ k. ground arith;
    sound = s;
    reviews = refl;
    head_sha = refl;
  },
)
dismiss_review_items_lem pr (k ∷ ks) s =
    (result pr k ks s, returns pr k ks s, result-Dismissed pr k ks s)
