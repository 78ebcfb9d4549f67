-- ===== src/Application/IssueCommands/Answered.antt =====
-- Comments that are processed stay processed.
use pr_auto_reviewer.Prelude.{
  String, Bool, true, ◌≡◌, refl, ◌⊎◌, inl, inr, List, [], ◌∷◌, Option, none, ◌||◌, arith, eq_iff,
  Option-cases, Bool-cases, sym, subst,
}
use pr_auto_reviewer.Prelude.Lists.{All}
use pr_auto_reviewer.Prelude.Logged.{OnReturn->>=, lift, return, OnReturn->>}
use pr_auto_reviewer.Prelude.Result.{Result, ok, OnReturn, fold_m, OnReturn-rest, OnReturn-mono}
use pr_auto_reviewer.Prelude.Sets.{contains, contains-union}
use pr_auto_reviewer.Domain.Item.{ReviewItem}
use pr_auto_reviewer.Domain.PullRequest.{
  PullRequest, item_ids, latest_review_items, is_comment_processed, mark_comment_processed,
  record_created_issue_items,
}
use pr_auto_reviewer.Domain.PullRequest.Lifecycles.{
  dismiss_review_items, dismiss_item, index_by_id, collect,
}
use pr_auto_reviewer.Application.IssueCommands.{
  IssueCommand, IssueCommandAction, create_issue, dismiss, PrComment, Issue, Effect, issues_created,
  dismissed_items, invalid_items, rejected_command_items, parse, has_any, post_if, available_ids,
  dispatch_issue_creations, source_ids, partition_item_ids, obey, handle_command,
  handle_single_comment, process_each_comment, answer, SortedIds,
}

-- the same processed comments and created issues
unfoldable pub SameIssues : PullRequest → PullRequest → Type 0
SameIssues pr pr' =
    (pr'.processed_comment_ids ≡ pr.processed_comment_ids)
    × (pr'.created_issue_item_ids ≡ pr.created_issue_item_ids)

pub dismiss_review_items-SameIssues :
    (pr : PullRequest) (ks : List String) → OnReturn (SameIssues pr) (dismiss_review_items pr ks)
unfolding dismiss_review_items SameIssues
dismiss_review_items-SameIssues pr [] = (refl, refl)
dismiss_review_items-SameIssues pr (k ∷ ks) =
    OnReturn-rest (SameIssues pr)
      (fold_m (dismiss_item pr.head_sha.value) (index_by_id [] pr.lifecycles) (k ∷ ks)) _
      (λ by_id.
        OnReturn-rest (SameIssues pr) (collect by_id (item_ids pr.lifecycles)) _
          (λ ls. (refl, refl)))

-- `pr'` has processed all comments that `pr` has.
Keeps : PullRequest → PullRequest → Type 0
Keeps pr pr' =
    (id : String)
    → contains id pr.processed_comment_ids ≡ true
    → contains id pr'.processed_comment_ids ≡ true

record_created-Keeps :
    (pr : PullRequest) (ks : List String) → Keeps pr (record_created_issue_items pr ks)
unfolding record_created_issue_items Keeps
record_created-Keeps pr [] = λ id h. h
record_created-Keeps pr (k ∷ ks) = λ id h. h

module _ (dispatch : String → Result (Option Issue)) where
  obey-Keeps :
      (action : IssueCommandAction) (pr : PullRequest) (valid : List String)
      (items : List ReviewItem)
      → OnReturn (Keeps pr) (obey dispatch action pr valid items).1
  unfolding obey SameIssues Keeps
  obey-Keeps dismiss pr valid items =
      OnReturn->>= (SameIssues pr) (Keeps pr) (lift (dismiss_review_items pr valid)) _
        (dismiss_review_items-SameIssues pr valid)
        (λ pr' same.
          OnReturn->> (Keeps pr) (post_if (has_any valid) (dismissed_items valid items)) _
            (λ u. λ id h. subst (λ ids. contains id ids ≡ true) (sym same.0) h))
  obey-Keeps create_issue pr valid items =
      OnReturn->> (Keeps pr)
        (dispatch_issue_creations dispatch (available_ids pr.created_issue_item_ids [] valid)) _
        (λ issues.
          OnReturn->> (Keeps pr) (post_if (has_any issues) (issues_created issues items)) _
            (λ u. record_created-Keeps pr (source_ids dispatch issues)))

  answer-Keeps :
      (action : IssueCommandAction) (pr : PullRequest) (p : SortedIds) (items : List ReviewItem)
      → OnReturn (Keeps pr) (answer dispatch action pr p items).1
  unfolding answer Keeps
  answer-Keeps action pr p items = elim (Bool-cases (has_any p.unknown || has_any p.rejected)) [
    | inl h ↦ rw h (λ id k. k)
    | inr h ↦ rw h (obey-Keeps action pr p.valid items)
  ]

  -- the comment is processed, and so are all that were
  Processes : PullRequest → PrComment → PullRequest → Type 0
  Processes pr comment pr' = Keeps pr pr' × (is_comment_processed pr' comment.id ≡ true)

  mark-Processes :
      (pr : PullRequest) (comment : PrComment)
      → Processes pr comment (mark_comment_processed pr comment.id)
  unfolding Processes Keeps is_comment_processed mark_comment_processed contains
  mark-Processes pr comment = (
    λ id h. ground (arith, contains-union id pr.processed_comment_ids (comment.id.value ∷ [])),
    ground (
      arith,
      contains-union comment.id.value pr.processed_comment_ids (comment.id.value ∷ []),
      eq_iff comment.id.value comment.id.value,
    ),
  )

  Keeps-Processes :
      (pr pr' pr'' : PullRequest) (comment : PrComment)
      → Processes pr comment pr'
      → Keeps pr' pr''
      → Processes pr comment pr''
  unfolding Processes Keeps is_comment_processed
  Keeps-Processes pr pr' pr'' comment (k, p) k' = (λ id h. k' id (k id h), k' comment.id.value p)

  handle_command-Processes :
      (pr : PullRequest) (comment : PrComment) (cmd : IssueCommand) (items : List ReviewItem)
      → OnReturn (Processes pr comment) (handle_command dispatch pr comment cmd items).1
  unfolding handle_command
  handle_command-Processes pr comment cmd items =
      let updated = mark_comment_processed pr comment.id in
      let p = partition_item_ids cmd.item_ids items in
      OnReturn->> (Processes pr comment)
        (post_if (has_any p.unknown) (invalid_items p.unknown items)) _
        (λ u.
          OnReturn->> (Processes pr comment)
            (post_if (has_any p.rejected) (rejected_command_items cmd.action p.rejected items)) _
            (λ u.
              OnReturn-mono (Keeps updated) (Processes pr comment)
                (λ pr' k. Keeps-Processes pr updated pr' comment (mark-Processes pr comment) k)
                (answer dispatch cmd.action updated p items).1
                (answer-Keeps cmd.action updated p items)))

  module _ (search : String → Option (String × Bool)) where
    -- nothing is left to do for the comment
    IsAnswered : PullRequest → PrComment → Type 0
    IsAnswered pr comment =
        (is_comment_processed pr comment.id ≡ true)
        ⊎ (parse search comment.id.value comment.body ≡ none)

    Keeps-IsAnswered :
        (pr pr' : PullRequest) (comment : PrComment)
        → Keeps pr pr'
        → IsAnswered pr comment
        → IsAnswered pr' comment
    unfolding Keeps IsAnswered is_comment_processed
    Keeps-IsAnswered pr pr' comment k (inl h) = inl (k comment.id.value h)
    Keeps-IsAnswered pr pr' comment k (inr h) = inr h

    processed-IsAnswered :
        (pr : PullRequest) (comment : PrComment)
        → is_comment_processed pr comment.id ≡ true
        → IsAnswered pr comment
    unfolding IsAnswered
    processed-IsAnswered pr comment h = inl h

    unparsed-IsAnswered :
        (pr : PullRequest) (comment : PrComment)
        → parse search comment.id.value comment.body ≡ none
        → IsAnswered pr comment
    unfolding IsAnswered
    unparsed-IsAnswered pr comment n = inr n

    handle_single_comment-IsAnswered :
        (pr : PullRequest) (comment : PrComment) (items : List ReviewItem)
        → OnReturn
            (λ pr'. Keeps pr pr' × IsAnswered pr' comment)
            (handle_single_comment dispatch search pr comment items).1
    unfolding handle_single_comment Keeps Processes
    handle_single_comment-IsAnswered pr comment items =
        elim (Bool-cases (is_comment_processed pr comment.id)) [
          | inl h ↦ rw h (λ id k. k, processed-IsAnswered pr comment h)
          | inr h ↦ elim (Option-cases (parse search comment.id.value comment.body)) [
            | inl n ↦ rw (h, n) (λ id k. k, unparsed-IsAnswered pr comment n)
            | inr (cmd, s) ↦
                rw (h, s)
                  (OnReturn-mono (Processes pr comment)
                    (λ pr'. Keeps pr pr' × IsAnswered pr' comment)
                    (λ pr' q. (q.0, processed-IsAnswered pr' comment q.1)) _
                    (handle_command-Processes pr comment cmd items))
          ]
        ]

    process_each_comment-AllAnswered :
        (pr : PullRequest) (comments : List PrComment)
        → OnReturn
            (λ pr'. Keeps pr pr' × All (IsAnswered pr') comments)
            (process_each_comment dispatch search pr comments).1
    unfolding process_each_comment Keeps
    process_each_comment-AllAnswered pr [] = (λ id k. k, tt)
    process_each_comment-AllAnswered pr (comment ∷ comments) =
        OnReturn->>= (λ pr'. Keeps pr pr' × IsAnswered pr' comment) _
          (handle_single_comment dispatch search pr comment (latest_review_items pr)) _
          (handle_single_comment-IsAnswered pr comment (latest_review_items pr))
          (λ pr' q.
            OnReturn-mono (λ pr''. Keeps pr' pr'' × All (IsAnswered pr'') comments) _
              (λ pr'' r.
                ((λ id k. r.0 id (q.0 id k)), (Keeps-IsAnswered pr' pr'' comment r.0 q.1, r.1)))
              _ (process_each_comment-AllAnswered pr' comments))

    handle-answered :
        (pr : PullRequest) (comment : PrComment) (items : List ReviewItem)
        → IsAnswered pr comment
        → handle_single_comment dispatch search pr comment items ≡ return pr
    unfolding handle_single_comment IsAnswered
    handle-answered pr comment items (inl h) = rw h refl
    handle-answered pr comment items (inr n) =
        elim (Bool-cases (is_comment_processed pr comment.id)) [
          | inl h ↦ rw h refl
          | inr h ↦ rw (h, n) refl
        ]

    process-answered :
        (pr : PullRequest) (comments : List PrComment)
        → All (IsAnswered pr) comments
        → process_each_comment dispatch search pr comments ≡ return pr
    unfolding process_each_comment
    process-answered pr [] h = refl
    process-answered pr (comment ∷ comments) (h, hs) =
        rw (handle-answered pr comment (latest_review_items pr) h, process-answered pr comments hs)
          refl

    -- Once all comments are processed, to process them again does nothing: no message, no issue, no
    -- change of the pull request.
    pub process_each_comment-again :
        (pr pr' : PullRequest) (comments : List PrComment) (effects : List Effect)
        → process_each_comment dispatch search pr comments ≡ (effects, ok pr')
        → process_each_comment dispatch search pr' comments ≡ ([], ok pr')
    process_each_comment-again pr pr' comments effects e =
        process-answered pr' comments
          (subst (λ m. OnReturn (λ pr'. Keeps pr pr' × All (IsAnswered pr') comments) m.1) e
            (process_each_comment-AllAnswered pr comments)).1
