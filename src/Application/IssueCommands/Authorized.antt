-- ===== src/Application/IssueCommands/Authorized.antt =====
-- What a comment may do to the items that it names.
use pr_auto_reviewer.Prelude.{
  String, Bool, true, false, ◌≡◌, refl, inl, inr, List, [], ◌∷◌, ◌++◌, Option, ◌||◌, arith, eq_iff,
  Bool-cases, subst, ap, sym, ◌⊎◌, if◌then◌else◌, ◌∙◌, append-nil,
}
use pr_auto_reviewer.Prelude.Lists.{keep}
use pr_auto_reviewer.Prelude.Logged.{Logged, ◌>>=◌, ◌>>◌, lift, return}
use pr_auto_reviewer.Prelude.Result.{Result, ok, raise, OnReturn}
use pr_auto_reviewer.Prelude.Sets.{contains}
use pr_auto_reviewer.Domain.Item.{ReviewItem}
use pr_auto_reviewer.Domain.PullRequest.{
  PullRequest, find_lifecycle, mark_comment_processed, record_created_issue_items,
}
use pr_auto_reviewer.Domain.PullRequest.Lifecycles.{dismiss_review_items}
use pr_auto_reviewer.Domain.PullRequest.Index.{IsSound}
use pr_auto_reviewer.Domain.PullRequest.Dismissal.{Dismissed, dismissal, dismiss_review_items_lem}
use pr_auto_reviewer.Application.IssueCommands.{
  IssueCommand, IssueCommandAction, create_issue, dismiss, PrComment, Issue, Effect, Message,
  SortedIds, issues_created, dismissed_items, invalid_items, rejected_command_items, has_any,
  post_if, available_ids, dispatch_issue_creations, source_ids, partition_item_ids, obey, answer,
  handle_command,
}
use pr_auto_reviewer.Application.IssueCommands.Requests.{
  dispatched_ids, IsFaithful, Covers, dispatch-Covers, available_ids_lem, dispatched_ids-append,
}
use pr_auto_reviewer.Application.IssueCommands.Partition.{
  named, is_negligible, partition_item_ids_lem,
}

contains-keep :
    (test : String → Bool) (k : String) (ks : List String)
    → contains k (keep test ks) ≡ true
    → test k ≡ true
unfolding contains
contains-keep test k [] h = ground arith
contains-keep test k (j ∷ js) h = ground (arith, contains-keep test k js, eq_iff j k)

-- From `pr` to `pr'`, only items that pass the test are dismissed: no other ID is added to the dismissed
-- ones, and the lifecycles of all other items are the same.
abbrev pub DismissesOnly : (String → Bool) → PullRequest → PullRequest → Type 0
DismissesOnly test pr pr' =
    ((k : String)
      → contains k pr'.dismissed_item_ids ≡ true
      → (contains k pr.dismissed_item_ids || test k) ≡ true)
    × ((k : String)
        → test k ≡ false
        → find_lifecycle k pr'.lifecycles ≡ find_lifecycle k pr.lifecycles)

-- Issues are asked for, and items are dismissed, only where the ID passes the test.
unfoldable pub IsWithin : (String → Bool) → PullRequest → Logged Effect PullRequest → Type 0
IsWithin test pr call =
    ((k : String) → contains k (dispatched_ids call.0) ≡ true → test k ≡ true)
    × OnReturn (DismissesOnly test pr) call.1

dismiss_review_items-Dismissed :
    (pr : PullRequest) (ks : List String)
    → IsSound pr
    → OnReturn (Dismissed pr ks) (dismiss_review_items pr ks)
dismiss_review_items-Dismissed pr ks s =
    let (pr', e, d) = dismiss_review_items_lem pr ks s in
    subst (OnReturn (Dismissed pr ks)) (sym e) d

module _ (test : String → Bool) where
  IsWithin-return :
      (pr pr' : PullRequest)
      → pr'.dismissed_item_ids ≡ pr.dismissed_item_ids
      → pr'.lifecycles ≡ pr.lifecycles
      → IsWithin test pr (return pr')
  unfolding IsWithin contains
  IsWithin-return pr pr' e l = (
    (λ k m. ground arith),
    (
      (λ k m. ground (arith, subst (λ ks. contains k ks ≡ true) e m)),
      λ k t. ap (find_lifecycle k) l,
    ),
  )

  IsWithin-post :
      (pr : PullRequest) (b : Bool) (message : Message) (rest : Logged Effect PullRequest)
      → IsWithin test pr rest
      → IsWithin test pr (post_if b message >> rest)
  unfolding post_if IsWithin
  IsWithin-post pr false message rest o = o
  IsWithin-post pr true message rest o = o

  then_post-IsWithin :
      (pr : PullRequest) (valid : List String) (r : Result PullRequest) (b : Bool)
      (message : Message)
      → ((k : String) → contains k valid ≡ true → test k ≡ true)
      → OnReturn (Dismissed pr valid) r
      → IsWithin test pr (lift r >>= λ pr'. post_if b message >> return pr')
  unfolding IsWithin contains
  then_post-IsWithin pr valid (raise e) b message each h = ((λ k m. ground arith), tt)
  then_post-IsWithin pr valid (ok pr') b message each h = IsWithin-post pr b message (return pr') (
    (λ k m. ground arith),
    (
      (λ k m. ground (arith, each k, h.dismissed k, m)),
      λ k t. h.lifecycles k ∙ untouched k t (Bool-cases (contains k valid)),
    ),
  )
    where
      untouched :
          (k : String)
          → test k ≡ false
          → (contains k valid ≡ true) ⊎ (contains k valid ≡ false)
          → (if contains k valid
              then dismissal pr.head_sha.value (find_lifecycle k pr.lifecycles)
              else find_lifecycle k pr.lifecycles)
            ≡ find_lifecycle k pr.lifecycles
      untouched k t (inl v) = ground (arith, t, v, each k)
      untouched k t (inr v) = rw v refl

  dismissed-record_created :
      (pr : PullRequest) (ks : List String)
      → (record_created_issue_items pr ks).dismissed_item_ids ≡ pr.dismissed_item_ids
  unfolding record_created_issue_items
  dismissed-record_created pr [] = refl
  dismissed-record_created pr (k ∷ ks) = refl

  lifecycles-record_created :
      (pr : PullRequest) (ks : List String)
      → (record_created_issue_items pr ks).lifecycles ≡ pr.lifecycles
  unfolding record_created_issue_items
  lifecycles-record_created pr [] = refl
  lifecycles-record_created pr (k ∷ ks) = refl

  quiet-IsWithin :
      (pr pr' : PullRequest) (es quiet : List Effect)
      → dispatched_ids quiet ≡ []
      → ((k : String) → contains k (dispatched_ids es) ≡ true → test k ≡ true)
      → pr'.dismissed_item_ids ≡ pr.dismissed_item_ids
      → pr'.lifecycles ≡ pr.lifecycles
      → IsWithin test pr (es ++ quiet, ok pr')
  unfolding IsWithin
  quiet-IsWithin pr pr' es quiet q each e l =
      let same =
        dispatched_ids-append es quiet
        ∙ ap (λ ks. dispatched_ids es ++ ks) q
        ∙ append-nil (dispatched_ids es) in
      ((λ k m. each k (subst (λ ks. contains k ks ≡ true) same m)), (IsWithin-return pr pr' e l).1)

  created-IsWithin :
      (pr : PullRequest) (call : Logged Effect (List Issue)) (b : List Issue → Bool)
      (message : List Issue → Message) (ids : List Issue → List String)
      → ((k : String) → contains k (dispatched_ids call.0) ≡ true → test k ≡ true)
      → IsWithin test pr (
          call >>= λ issues.
          post_if (b issues) (message issues)
          >> return (record_created_issue_items pr (ids issues)))
  unfolding IsWithin post_if
  created-IsWithin pr (es, raise e) b message ids each = (each, tt)
  created-IsWithin pr (es, ok issues) b message ids each = then_posted (b issues) (message issues)
    where
      then_posted :
          (b : Bool) (message : Message)
          → IsWithin test pr (
              (es, ok issues) >>= λ issues.
              post_if b message >> return (record_created_issue_items pr (ids issues)))
      then_posted true message =
          quiet-IsWithin pr (record_created_issue_items pr (ids issues)) es (_ ∷ []) refl each
            (dismissed-record_created pr (ids issues)) (lifecycles-record_created pr (ids issues))
      then_posted false message =
          quiet-IsWithin pr (record_created_issue_items pr (ids issues)) es [] refl each
            (dismissed-record_created pr (ids issues)) (lifecycles-record_created pr (ids issues))

  module _ (dispatch : String → Result (Option Issue)) (faithful : IsFaithful dispatch) where
    obey-IsWithin :
        (action : IssueCommandAction) (pr : PullRequest) (valid : List String)
        (items : List ReviewItem)
        → IsSound pr
        → ((k : String) → contains k valid ≡ true → test k ≡ true)
        → IsWithin test pr (obey dispatch action pr valid items)
    unfolding obey Covers
    obey-IsWithin dismiss pr valid items s each =
        then_post-IsWithin pr valid (dismiss_review_items pr valid) (has_any valid)
          (dismissed_items valid items) each (dismiss_review_items-Dismissed pr valid s)
    obey-IsWithin create_issue pr valid items s each =
        let ks = available_ids pr.created_issue_item_ids [] valid in
        created-IsWithin pr (dispatch_issue_creations dispatch ks) has_any
          (λ issues. issues_created issues items) (source_ids dispatch)
          (λ k m.
            each k
              ((available_ids_lem pr.created_issue_item_ids [] valid).1 k
                ((dispatch-Covers dispatch faithful ks).0 k m)).2)

    answer-IsWithin :
        (action : IssueCommandAction) (pr : PullRequest) (p : SortedIds) (items : List ReviewItem)
        → IsSound pr
        → ((k : String) → contains k p.valid ≡ true → test k ≡ true)
        → IsWithin test pr (answer dispatch action pr p items)
    unfolding answer
    answer-IsWithin action pr p items s each =
        elim (Bool-cases (has_any p.unknown || has_any p.rejected)) [
          | inl h ↦ rw h (IsWithin-return pr pr refl refl)
          | inr h ↦ rw h (obey-IsWithin action pr p.valid items s each)
        ]

-- On a sound pull request, the command of a comment asks for issues only for IDs whose item (the last
-- of the given ones with that ID) is open and does not block a merge. Only such IDs are added to the
-- dismissed ones, and the lifecycle of any other item stays as it is.
pub handle_command-IsWithin :
    (dispatch : String → Result (Option Issue))
    → IsFaithful dispatch
    → (pr : PullRequest) (comment : PrComment) (cmd : IssueCommand) (items : List ReviewItem)
    → IsSound pr
    → IsWithin
        (λ k. is_negligible (named items k))
        pr
        (handle_command dispatch pr comment cmd items)
unfolding handle_command mark_comment_processed IsWithin
handle_command-IsWithin dispatch faithful pr comment cmd items s =
    let test = λ (k : String). is_negligible (named items k) in
    let updated = mark_comment_processed pr comment.id in
    let p = partition_item_ids cmd.item_ids items in
    let valid = (partition_item_ids_lem cmd.item_ids items).0 in
    IsWithin-post test pr (has_any p.unknown) (invalid_items p.unknown items) _ (
      IsWithin-post test pr (has_any p.rejected)
        (rejected_command_items cmd.action p.rejected items) _
        (answer-IsWithin test dispatch faithful cmd.action updated p items
          (record { distinct = s.distinct; valid = s.valid; head_sha = s.head_sha })
          (λ k m. contains-keep test k cmd.item_ids (subst (λ ks. contains k ks ≡ true) valid m))))
