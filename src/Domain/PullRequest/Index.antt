-- ===== src/Domain/PullRequest/Index.antt =====
-- The dictionary of lifecycles by item, and the tuple that is read back from it.
use pr_auto_reviewer.Prelude.{
  String, true, false, ◌≡◌, refl, ◌∙◌, List, [], ◌∷◌, ◌++◌, Option, none, some, ◌==◌, eq_iff,
  eq_refl, arith, if◌then◌else◌, is_some, Bool-cases, Option-cases, ◌⊎◌, inl, inr,
}
use pr_auto_reviewer.Prelude.Lists.{All}
use pr_auto_reviewer.Prelude.Sets.{contains, Distinct}
use pr_auto_reviewer.Prelude.Dict.{lookup, insert, lookup-insert}
use pr_auto_reviewer.Prelude.Result.{ok}
use pr_auto_reviewer.Domain.Lifecycle.{ReviewItemLifecycle}
use pr_auto_reviewer.Domain.Lifecycle.Moves.{IsValid}
use pr_auto_reviewer.Prelude.Text.{truthy}
use pr_auto_reviewer.Domain.PullRequest.{PullRequest, item_ids, find_lifecycle}
use pr_auto_reviewer.Domain.PullRequest.Lifecycles.{index_by_id, collect}

-- What every reachable pull request satisfies: one lifecycle to an item, made by the constructor, and
-- a head commit that is no empty text.
pub record IsSound (pr : PullRequest) : Type 0 where
  pub distinct : Distinct (item_ids pr.lifecycles)
  pub valid : All IsValid pr.lifecycles
  pub head_sha : truthy pr.head_sha.value ≡ true

-- What an optional lifecycle of an item is like.
abbrev pub Fits : String → Option ReviewItemLifecycle → Type 0
Fits k none = Unit
Fits k (some l) = (l.item_id ≡ k) × IsValid l

-- Every entry stands under its own item and is valid.
pub record IsIndex (by_id : List (String × ReviewItemLifecycle)) : Type 0 where
  pub fits : (k : String) → Fits k (lookup k by_id)

pub insert-IsIndex :
    (by_id : List (String × ReviewItemLifecycle)) (k : String) (l : ReviewItemLifecycle)
    → IsIndex by_id
    → l.item_id ≡ k
    → IsValid l
    → IsIndex (insert k l by_id)
insert-IsIndex by_id k l h e v = record {
  fits = λ j. rw lookup-insert (insert_fits j (Bool-cases (k == j)));
}
  where
    insert_fits :
        (j : String)
        → (k == j ≡ true) ⊎ (k == j ≡ false)
        → Fits j (if k == j then some l else lookup j by_id)
    insert_fits j (inl same) = rw same (e ∙ (eq_iff k j).0 same, v)
    insert_fits j (inr other) = rw other (h.fits j)

-- A lifecycle is found exactly if its item is listed.
pub is_some-find_lifecycle :
    (k : String) (ls : List ReviewItemLifecycle)
    → is_some (find_lifecycle k ls) ≡ contains k (item_ids ls)
unfolding contains
is_some-find_lifecycle k [] = refl
is_some-find_lifecycle k (l ∷ ls) = ground (arith, is_some-find_lifecycle k ls)

pub find_lifecycle-Fits :
    (k : String) (ls : List ReviewItemLifecycle) → All IsValid ls → Fits k (find_lifecycle k ls)
find_lifecycle-Fits k [] v = tt
find_lifecycle-Fits k (l ∷ ls) v = elim (Bool-cases (l.item_id == k)) [
  | inl same ↦ rw same ((eq_iff l.item_id k).0 same, v.0)
  | inr other ↦ rw other (find_lifecycle-Fits k ls v.1)
]

pub find_lifecycle-append :
    (k : String) (ls ms : List ReviewItemLifecycle)
    → find_lifecycle k (ls ++ ms)
      ≡ (if is_some (find_lifecycle k ls) then find_lifecycle k ls else find_lifecycle k ms)
find_lifecycle-append k [] ms = refl
find_lifecycle-append k (l ∷ ls) ms = ground (arith, find_lifecycle-append k ls ms)

-- The index of lifecycles of distinct items holds each of them.
pub lookup-index_by_id :
    (k : String) (d : List (String × ReviewItemLifecycle)) (ls : List ReviewItemLifecycle)
    → Distinct (item_ids ls)
    → lookup k (index_by_id d ls)
      ≡ (if is_some (find_lifecycle k ls) then find_lifecycle k ls else lookup k d)
unfolding index_by_id
lookup-index_by_id k d [] h = refl
lookup-index_by_id k d (l ∷ ls) h = ground (
  arith,
  lookup-index_by_id k (insert l.item_id l d) ls h.1,
  lookup-insert k l.item_id l d,
  is_some-find_lifecycle k ls,
  eq_iff l.item_id k,
)

pub lookup-index :
    (k : String) (ls : List ReviewItemLifecycle)
    → Distinct (item_ids ls)
    → lookup k (index_by_id [] ls) ≡ find_lifecycle k ls
unfolding lookup
lookup-index k ls h = ground (arith, lookup-index_by_id k [] ls h)

pub index_by_id-IsIndex :
    (ls : List ReviewItemLifecycle)
    → Distinct (item_ids ls)
    → All IsValid ls
    → IsIndex (index_by_id [] ls)
index_by_id-IsIndex ls h v = record {
  fits = λ k. rw (lookup-index k ls h) (find_lifecycle-Fits k ls v);
}

-- What `collect` returns.
pub record Collected (by_id : List (String × ReviewItemLifecycle)) (ks : List String) : Type 0 where
  pub lifecycles : List ReviewItemLifecycle
  pub returns : collect by_id ks ≡ ok lifecycles
  pub ids : item_ids lifecycles ≡ ks
  pub valid : All IsValid lifecycles
  pub finds :
      (k : String) → find_lifecycle k lifecycles ≡ (if contains k ks then lookup k by_id else none)

module _ (by_id : List (String × ReviewItemLifecycle)) (h : IsIndex by_id) where
  abbrev Covered : List String → Type 0
  Covered ks = (k : String) → contains k ks ≡ true → is_some (lookup k by_id) ≡ true

  Covered-tail : (k : String) (ks : List String) → Covered (k ∷ ks) → Covered ks
  unfolding contains
  Covered-tail k ks c j m = c j (ground arith)

  Covered-head :
      (k : String) (ks : List String) → Covered (k ∷ ks) → is_some (lookup k by_id) ≡ true
  unfolding contains
  Covered-head k ks c = c k (rw eq_refl)

  Collected-cons :
      (k : String) (ks : List String) (l : ReviewItemLifecycle)
      → lookup k by_id ≡ some l
      → Fits k (some l)
      → Collected by_id ks
      → Collected by_id (k ∷ ks)
  unfolding collect contains
  Collected-cons k ks l e f c = record {
    lifecycles = l ∷ c.lifecycles;
    returns = rw (e, c.returns);
    ids = cc (f.0, c.ids);
    valid = (f.1, c.valid);
    finds = λ j. ground (arith, c.finds j, eq_iff k j, eq_iff l.item_id j, e, f.0);
  }

  -- Where every key is there, nothing is raised, and the tuple finds what the dictionary holds.
  pub collect_total : (ks : List String) → Covered ks → Collected by_id ks
  unfolding collect contains
  collect_total [] c = record {
    lifecycles = [];
    returns = refl;
    ids = refl;
    valid = tt;
    finds = λ j. refl;
  }
  collect_total (k ∷ ks) c = elim (Option-cases (lookup k by_id)) [
    | inl e ↦ ground (arith, Covered-head k ks c)
    | inr (l, e) ↦
        Collected-cons k ks l e (rw e at (h.fits k)) (collect_total ks (Covered-tail k ks c))
  ]
