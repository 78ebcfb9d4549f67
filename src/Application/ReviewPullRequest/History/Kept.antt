-- ===== src/Application/ReviewPullRequest/History/Kept.antt =====
-- review_pull_request_service.py, `_fail_closed_history`: what is left of a lifecycle and of a record
use pr_auto_reviewer.Prelude.{
  String, true, false, List, [], ◌∷◌, ◌++◌, Option, none, some, not, ◌≡◌, refl, ◌∙◌, arith, map,
  subst, sym, if◌then◌else◌, eq_iff,
}
use pr_auto_reviewer.Prelude.Lists.{All, any}
use pr_auto_reviewer.Prelude.Sets.{contains, Distinct}
use pr_auto_reviewer.Prelude.Result.{ok}
use pr_auto_reviewer.Prelude.Text.{truthy}
use pr_auto_reviewer.Domain.Item.{ReviewItem}
use pr_auto_reviewer.Domain.Item
use pr_auto_reviewer.Domain.Status.{opened}
use pr_auto_reviewer.Domain.PullRequest.Index.{lookup-index}
use pr_auto_reviewer.Prelude.Dict.{lookup}
use pr_auto_reviewer.Domain.Lifecycle
use pr_auto_reviewer.Domain.Lifecycle.{ReviewItemLifecycle, audit, audit_target}
use pr_auto_reviewer.Domain.Lifecycle.Moves.{IsValid, moved, audit-eq-moved}
use pr_auto_reviewer.Domain.PullRequest.{PullRequest, find_lifecycle, item_ids}
use pr_auto_reviewer.Domain.PullRequest.Lifecycles.{index_by_id}
use pr_auto_reviewer.Application.ReviewPullRequest.Merge.{named_ids}
use pr_auto_reviewer.Application.ReviewPullRequest.History.{
  all_ids, unavailable, carry_lifecycles, project_fail_closed, project_record,
}

-- The lifecycle that the carry leaves.
unfoldable pub carried : String → ReviewItemLifecycle → ReviewItemLifecycle
carried sha l =
    if Lifecycle.is_active l then moved (audit_target l.status true false) l sha unavailable else l

pub carry_lifecycles-eq-map :
    (sha : String) (ls : List ReviewItemLifecycle)
    → truthy sha ≡ true
    → All IsValid ls
    → carry_lifecycles sha ls ≡ ok (map (carried sha) ls)
unfolding carry_lifecycles carried
carry_lifecycles-eq-map sha [] hs v = refl
carry_lifecycles-eq-map sha (l ∷ ls) hs v = ground (
  arith,
  audit-eq-moved l v.0 sha unavailable true false hs,
  carry_lifecycles-eq-map sha ls hs v.1,
)

-- What is terminal after the carry was so before, and was not touched.
pub find-carried :
    (sha k : String) (ls : List ReviewItemLifecycle) (l : ReviewItemLifecycle)
    → find_lifecycle k (map (carried sha) ls) ≡ some l
    → Lifecycle.is_terminal l ≡ true
    → find_lifecycle k ls ≡ some l
unfolding carried moved audit_target
find-carried sha k [] l h t = ground (arith, h)
find-carried sha k (c ∷ ls) l h t = ground (arith, h, t, find-carried sha k ls l)

pub all_ids-project :
    (records : List ReviewItem) (by_id : List (String × ReviewItemLifecycle))
    → all_ids (project_fail_closed records by_id) ≡ all_ids records
unfolding project_fail_closed
all_ids-project [] by_id = refl
all_ids-project (r ∷ rs) by_id = ground (arith, all_ids-project rs by_id)

pub item_ids-carried :
    (sha : String) (ls : List ReviewItemLifecycle) → item_ids (map (carried sha) ls) ≡ item_ids ls
unfolding carried moved
item_ids-carried sha [] = refl
item_ids-carried sha (l ∷ ls) = ground (arith, item_ids-carried sha ls)

pub all_ids-append : (xs ys : List ReviewItem) → all_ids (xs ++ ys) ≡ all_ids xs ++ all_ids ys
all_ids-append [] ys = refl
all_ids-append (x ∷ xs) ys = ground (arith, all_ids-append xs ys)

pub contains-named_ids :
    (k : String) (items : List ReviewItem)
    → truthy k ≡ true
    → contains k (named_ids items) ≡ contains k (all_ids items)
unfolding contains
contains-named_ids k [] t = refl
contains-named_ids k (i ∷ is) t = ground (arith, t, eq_iff i.id k, contains-named_ids k is t)

pub covered :
    (k : String) (expected actual : List String)
    → contains k expected ≡ true
    → any (λ id. not (contains id actual)) expected ≡ false
    → contains k actual ≡ true
unfolding contains
covered k [] actual h c = ground (arith, h)
covered k (e ∷ es) actual h c = ground (arith, h, c, eq_iff e k, covered k es actual)

abbrev pub Pairwise : {A B : Type 0} → (A → B → Type 0) → List A → List B → Type 0
Pairwise R [] [] = Unit
Pairwise R [] (b ∷ bs) = ⊥
Pairwise R (a ∷ rest) [] = ⊥
Pairwise R (a ∷ rest) (b ∷ bs) = R a b × Pairwise R rest bs

pub Pairwise-map :
    {A B : Type 0} (R : A → B → Type 0) (f : A → B)
    → ((a : A) → R a (f a))
    → (given : List A) → Pairwise R given (map f given)
Pairwise-map R f h [] = tt
Pairwise-map R f h (a ∷ given) = (h a, Pairwise-map R f h given)

-- A lifecycle before and after the carry: what is terminal stays as it is, and what is active is open.
abbrev pub KeptLifecycle : ReviewItemLifecycle → ReviewItemLifecycle → Type 0
KeptLifecycle l l' =
    (Lifecycle.is_terminal l ≡ true → l' ≡ l)
    × (Lifecycle.is_terminal l ≡ false
        → (l'.item_id ≡ l.item_id) × (l'.status ≡ opened) × (l'.status_explanation ≡ unavailable))

-- How a record is shown whose lifecycle was `l`: as terminal only with the status that the lifecycle, or
-- the record itself where it has no lifecycle, had before.
abbrev ShownAs : Option ReviewItemLifecycle → ReviewItem → ReviewItem → Type 0
ShownAs none item item' =
    item' ≡ record item { status = if Item.is_active item then opened else item.status }
ShownAs (some l) item item' =
    if Lifecycle.is_terminal l
    then item' ≡ record item { status = l.status; status_explanation = l.status_explanation }
    else item' ≡ record item { status = opened; status_explanation = unavailable }

abbrev pub KeptRecord : PullRequest → ReviewItem → ReviewItem → Type 0
KeptRecord pr item item' = ShownAs (find_lifecycle item.id pr.lifecycles) item item'

pub carried-KeptLifecycle :
    (sha : String) (l : ReviewItemLifecycle) → KeptLifecycle l (carried sha l)
unfolding carried moved audit_target
carried-KeptLifecycle sha l = ground arith

find_lifecycle-carried :
    (sha k : String) (ls : List ReviewItemLifecycle)
    → find_lifecycle k (map (carried sha) ls)
      ≡ elim (find_lifecycle k ls) [ none ↦ none | some l ↦ some (carried sha l) ]
unfolding carried moved
find_lifecycle-carried sha k [] = refl
find_lifecycle-carried sha k (l ∷ ls) = ground (arith, find_lifecycle-carried sha k ls)

project_record-ShownAs :
    (sha : String) (item : ReviewItem) (found : Option ReviewItemLifecycle)
    → ShownAs found item
        (project_record item (elim found [ none ↦ none | some l ↦ some (carried sha l) ]))
unfolding carried moved audit_target
project_record-ShownAs sha item none = refl
project_record-ShownAs sha item (some l) = ground arith

pub project_record-KeptRecord :
    (pr : PullRequest) (sha : String)
    → Distinct (item_ids pr.lifecycles)
    → (item : ReviewItem)
    → KeptRecord pr item
        (project_record item (lookup item.id (index_by_id [] (map (carried sha) pr.lifecycles))))
project_record-KeptRecord pr sha d item =
    let ls = map (carried sha) pr.lifecycles in
    let found =
      lookup-index item.id ls (subst Distinct (sym (item_ids-carried sha pr.lifecycles)) d)
      ∙ find_lifecycle-carried sha item.id pr.lifecycles in
    subst (λ o. KeptRecord pr item (project_record item o)) (sym found)
      (project_record-ShownAs sha item (find_lifecycle item.id pr.lifecycles))
