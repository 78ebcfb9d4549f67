-- ===== src/Application/IssueCommands/Once.antt =====
-- The issues that are asked for while the comments of a pull request are processed.
use pr_auto_reviewer.Prelude.{
  String, Bool, true, false, ◌≡◌, refl, inl, inr, List, [], ◌∷◌, ◌++◌, Option, ◌||◌, arith,
  Option-cases, Bool-cases, sym, subst, ap, ◌∙◌, append-nil,
}
use pr_auto_reviewer.Prelude.Logged.{Logged, ◌>>=◌, lift, return, ◌>>◌}
use pr_auto_reviewer.Prelude.Result.{Result, ok, raise, OnReturn}
use pr_auto_reviewer.Prelude.Sets.{contains, Distinct, contains-union}
use pr_auto_reviewer.Domain.Item.{ReviewItem}
use pr_auto_reviewer.Domain.PullRequest.{
  PullRequest, latest_review_items, is_comment_processed, mark_comment_processed,
  record_created_issue_items,
}
use pr_auto_reviewer.Domain.PullRequest.Lifecycles.{dismiss_review_items}
use pr_auto_reviewer.Application.IssueCommands.{
  IssueCommand, IssueCommandAction, create_issue, dismiss, PrComment, Issue, Effect, posted,
  Message, SortedIds, issues_created, dismissed_items, invalid_items, rejected_command_items, parse,
  has_any, post_if, available_ids, dispatch_issue_creations, source_ids, partition_item_ids, obey,
  answer, handle_command, handle_single_comment, process_each_comment,
}
use pr_auto_reviewer.Application.IssueCommands.Answered.{
  SameIssues, dismiss_review_items-SameIssues,
}
use pr_auto_reviewer.Application.IssueCommands.Requests.{
  dispatched_ids, dispatched_ids-append, Once, Once-return, Once->>=, IsFaithful, available_ids_lem,
  Covers, dispatch-Covers,
}

module _ (dispatch : String → Result (Option Issue)) (faithful : IsFaithful dispatch) where
  Once-post :
      (created : List String) (b : Bool) (message : Message) (rest : Logged Effect PullRequest)
      → Once created rest
      → Once created (post_if b message >> rest)
  unfolding post_if Once
  Once-post created false message rest o = o
  Once-post created true message rest o = o

  contains-record_created :
      (pr : PullRequest) (k : String) (ks : List String)
      → contains k (record_created_issue_items pr ks).created_issue_item_ids
        ≡ (contains k pr.created_issue_item_ids || contains k ks)
  unfolding record_created_issue_items contains
  contains-record_created pr k [] = ground arith
  contains-record_created pr k (j ∷ js) = contains-union k pr.created_issue_item_ids (j ∷ js)

  Once-quietly :
      (created : List String) (es quiet : List Effect) (pr' : PullRequest)
      → dispatched_ids quiet ≡ []
      → Distinct (dispatched_ids es)
      → ((k : String) → contains k (dispatched_ids es) ≡ true → contains k created ≡ false)
      → ((k : String)
          → (contains k created || contains k (dispatched_ids es)) ≡ true
          → contains k pr'.created_issue_item_ids ≡ true)
      → Once created (es ++ quiet, ok pr')
  unfolding Once
  Once-quietly created es quiet pr' q d new kept =
      let e =
        dispatched_ids-append es quiet
        ∙ ap (λ ks. dispatched_ids es ++ ks) q
        ∙ append-nil (dispatched_ids es) in
      (
        subst Distinct (sym e) d,
        (λ k m. new k (subst (λ ks. contains k ks ≡ true) e m)),
        λ k m. kept k (subst (λ ks. (contains k created || contains k ks) ≡ true) e m),
      )

  -- The issues of new IDs are recorded.
  Once-recorded :
      (pr : PullRequest) (ks : List String) (call : Logged Effect (List Issue))
      (message : List Issue → Message)
      → Covers dispatch faithful ks call
      → Distinct ks
      → ((k : String) → contains k ks ≡ true → contains k pr.created_issue_item_ids ≡ false)
      → Once pr.created_issue_item_ids (
          call >>= λ issues.
          post_if (has_any issues) (message issues)
          >> return (record_created_issue_items pr (source_ids dispatch issues)))
  unfolding Covers Once post_if
  Once-recorded pr ks (es, raise e) message (known, distinct, c) d new =
      (distinct d, (λ k m. new k (known k m)), tt)
  Once-recorded pr ks (es, ok issues) message (known, distinct, (c, c')) d new =
      posted_after (has_any issues) (message issues) es
        (record_created_issue_items pr (source_ids dispatch issues)) (distinct d)
        (λ k m. new k (known k m))
        (λ k m.
          contains-record_created pr k (source_ids dispatch issues)
          ∙ ap (λ js. contains k pr.created_issue_item_ids || contains k js) (c ∙ sym c')
          ∙ m)
    where
      posted_after :
          (b : Bool) (m : Message) (es : List Effect) (pr' : PullRequest)
          → Distinct (dispatched_ids es)
          → ((k : String)
              → contains k (dispatched_ids es) ≡ true
              → contains k pr.created_issue_item_ids ≡ false)
          → ((k : String)
              → (contains k pr.created_issue_item_ids || contains k (dispatched_ids es)) ≡ true
              → contains k pr'.created_issue_item_ids ≡ true)
          → Once pr.created_issue_item_ids ((es, ok issues) >>= λ issues. post_if b m >> return pr')
      posted_after true m es pr' =
          Once-quietly pr.created_issue_item_ids es (posted m ∷ []) pr' refl
      posted_after false m es pr' = Once-quietly pr.created_issue_item_ids es [] pr' refl

  Once-lift :
      (pr : PullRequest) (r : Result PullRequest)
      → OnReturn (SameIssues pr) r
      → Once pr.created_issue_item_ids (lift r)
  unfolding Once SameIssues contains
  Once-lift pr (ok pr') same = (
    tt,
    (λ k m. ground arith),
    λ k m. subst (λ ids. contains k ids ≡ true) (sym same.1) (ground arith),
  )
  Once-lift pr (raise e) same = (tt, (λ k m. ground arith), tt)

  obey-Once :
      (action : IssueCommandAction) (pr : PullRequest) (valid : List String)
      (items : List ReviewItem)
      → Once pr.created_issue_item_ids (obey dispatch action pr valid items)
  unfolding obey
  obey-Once create_issue pr valid items =
      let (d, each) = available_ids_lem pr.created_issue_item_ids [] valid in
      let ks = available_ids pr.created_issue_item_ids [] valid in
      Once-recorded pr ks (dispatch_issue_creations dispatch ks)
        (λ issues. issues_created issues items) (dispatch-Covers dispatch faithful ks) d
        (λ k m. (each k m).0)
  obey-Once dismiss pr valid items =
      Once->>= pr.created_issue_item_ids (lift (dismiss_review_items pr valid)) _
        (Once-lift pr (dismiss_review_items pr valid) (dismiss_review_items-SameIssues pr valid))
        (λ pr'.
          Once-post pr'.created_issue_item_ids (has_any valid) (dismissed_items valid items)
            (return pr') (Once-return pr'.created_issue_item_ids pr' (λ k h. h)))

  answer-Once :
      (action : IssueCommandAction) (pr : PullRequest) (p : SortedIds) (items : List ReviewItem)
      → Once pr.created_issue_item_ids (answer dispatch action pr p items)
  unfolding answer
  answer-Once action pr p items = elim (Bool-cases (has_any p.unknown || has_any p.rejected)) [
    | inl h ↦ rw h (Once-return pr.created_issue_item_ids pr (λ k m. m))
    | inr h ↦ rw h (obey-Once action pr p.valid items)
  ]

  handle_command-Once :
      (pr : PullRequest) (comment : PrComment) (cmd : IssueCommand) (items : List ReviewItem)
      → Once pr.created_issue_item_ids (handle_command dispatch pr comment cmd items)
  unfolding handle_command mark_comment_processed
  handle_command-Once pr comment cmd items =
      let updated = mark_comment_processed pr comment.id in
      let p = partition_item_ids cmd.item_ids items in
      Once-post pr.created_issue_item_ids (has_any p.unknown) (invalid_items p.unknown items) _ (
        Once-post pr.created_issue_item_ids (has_any p.rejected)
          (rejected_command_items cmd.action p.rejected items) _
          (answer-Once cmd.action updated p items))

  module _ (search : String → Option (String × Bool)) where
    handle_single_comment-Once :
        (pr : PullRequest) (comment : PrComment) (items : List ReviewItem)
        → Once pr.created_issue_item_ids (handle_single_comment dispatch search pr comment items)
    unfolding handle_single_comment
    handle_single_comment-Once pr comment items =
        elim (Bool-cases (is_comment_processed pr comment.id)) [
          | inl h ↦ rw h (Once-return pr.created_issue_item_ids pr (λ k m. m))
          | inr h ↦ elim (Option-cases (parse search comment.id.value comment.body)) [
            | inl n ↦ rw (h, n) (Once-return pr.created_issue_item_ids pr (λ k m. m))
            | inr (cmd, s) ↦ rw (h, s) (handle_command-Once pr comment cmd items)
          ]
        ]

    -- While the comments of a pull request are processed, an issue is asked for at most once for each item,
    -- and for no item that has an issue on record; the pull request that is returned has all of them on
    -- record. The bus must answer with an issue for the item that it was asked for, or raise.
    pub process_each_comment-Once :
        (pr : PullRequest) (comments : List PrComment)
        → Once pr.created_issue_item_ids (process_each_comment dispatch search pr comments)
    unfolding process_each_comment
    process_each_comment-Once pr [] = Once-return pr.created_issue_item_ids pr (λ k m. m)
    process_each_comment-Once pr (comment ∷ comments) =
        Once->>= pr.created_issue_item_ids
          (handle_single_comment dispatch search pr comment (latest_review_items pr)) _
          (handle_single_comment-Once pr comment (latest_review_items pr))
          (λ pr'. process_each_comment-Once pr' comments)
