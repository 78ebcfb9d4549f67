-- ===== src/Application/IssueCommands.antt =====
-- application/services/process_issue_commands_service.py, with the parser of domain/services and the
-- values that they pass. The search of the regular expression is a parameter, and so is the bus:
-- `dispatch id` is what it returns for a RegisterIssueCommand. That the publisher of the comments may raise
-- an error is left out.
pub mod Partition
pub mod Answered
pub mod Requests
pub mod Once
pub mod Authorized
use pr_auto_reviewer.Prelude.{
  ℕ, String, Bool, true, false, List, [], ◌∷◌, ◌++◌, Option, none, some, not, ◌&&◌, ◌||◌,
  if◌then◌else◌, map,
}
use pr_auto_reviewer.Prelude.Dict.{lookup, insert}
use pr_auto_reviewer.Prelude.Integers.{split}
use pr_auto_reviewer.Prelude.Logged.{Logged, ◌>>=◌, return, lift, effect, ◌>>◌}
use pr_auto_reviewer.Prelude.Result.{Result, ok, raise, pull_request_not_found}
use pr_auto_reviewer.Prelude.Sets.{contains}
use pr_auto_reviewer.Prelude.Text.{truthy, strip}
use pr_auto_reviewer.Domain.Identity.{PullRequestId, CommentId}
use pr_auto_reviewer.Domain.Item.{ReviewItem, is_open, is_blocking}
use pr_auto_reviewer.Domain.PullRequest.{
  PullRequest, latest_review_items, is_comment_processed, mark_comment_processed,
  record_created_issue_items,
}
use pr_auto_reviewer.Domain.PullRequest.Lifecycles.{dismiss_review_items}

pub data IssueCommandAction : Type 0 where
  create_issue dismiss : IssueCommandAction

pub record IssueCommand : Type 0 where
  pub comment_id : String
  pub item_ids : List String
  pub action : IssueCommandAction

pub record PrComment : Type 0 where
  pub id : CommentId
  pub body : String
  pub created_at : String

pub record Issue : Type 0 where
  pub id : ℕ
  pub repository : String
  pub title : String
  pub body : String
  pub source_pr_id : PullRequestId
  pub source_item_id : String
  pub is_closed : Bool

-- the parts that are not empty, stripped
unfoldable pub id_parts : List String → List String
unfolding strip
id_parts [] = []
id_parts (part ∷ parts) =
    let rest = id_parts parts in if truthy (strip part) then strip part ∷ rest else rest

-- `search body` gives the groups "ids" and whether "dismiss" took part.
unfoldable pub parse :
    (search : String → Option (String × Bool)) → String → String → Option IssueCommand
unfolding id_parts split
parse search comment_id body = elim (search body) [
  | none ↦ none
  | some (raw, is_dismiss) ↦ command (id_parts (split b',' raw)) is_dismiss
]
  where
    command : List String → Bool → Option IssueCommand
    command [] is_dismiss = none
    command (k ∷ ks) is_dismiss = some (record {
      comment_id = comment_id;
      item_ids = k ∷ ks;
      action = if is_dismiss then dismiss else create_issue;
    })

-- the messages of domain/messages/messages.py
pub data Message : Type 0 where
  invalid_items : List String → List ReviewItem → Message
  rejected_command_items : IssueCommandAction → List String → List ReviewItem → Message
  dismissed_items : List String → List ReviewItem → Message
  issues_created : List Issue → List ReviewItem → Message

-- what the service does on the outside
pub data Effect : Type 0 where
  posted : Message → Effect
  dispatched : String → Effect
  saved : PullRequest → Effect

-- `{item.id: item for item in items}`
unfoldable pub items_by_id :
    List (String × ReviewItem) → List ReviewItem → List (String × ReviewItem)
items_by_id by_id [] = by_id
items_by_id by_id (item ∷ items) = items_by_id (insert item.id item by_id) items

pub record SortedIds : Type 0 where
  pub valid : List String
  pub rejected : List String
  pub unknown : List String

-- one turn of the loop
unfoldable pub sort_id : Option ReviewItem → String → SortedIds → SortedIds
sort_id none item_id p = record p { unknown = p.unknown ++ item_id ∷ [] }
sort_id (some item) item_id p =
    if is_open item && not (is_blocking item)
    then record p { valid = p.valid ++ item_id ∷ [] }
    else record p { rejected = p.rejected ++ item_id ∷ [] }

unfoldable pub sort_ids : List (String × ReviewItem) → SortedIds → List String → SortedIds
sort_ids by_id p [] = p
sort_ids by_id p (item_id ∷ requested) =
    sort_ids by_id (sort_id (lookup item_id by_id) item_id p) requested

unfoldable pub partition_item_ids : List String → List ReviewItem → SortedIds
unfolding sort_ids items_by_id
partition_item_ids requested items =
    sort_ids (items_by_id [] items) (record { valid = []; rejected = []; unknown = [] }) requested

-- `list(dict.fromkeys(item_id for item_id in valid if item_id not in created))`, after `seen`
unfoldable pub available_ids : (created seen valid : List String) → List String
available_ids created seen [] = []
available_ids created seen (item_id ∷ valid) =
    let skipped = contains item_id created || contains item_id seen in
    let rest = available_ids created (if skipped then seen else item_id ∷ seen) valid in
    if skipped then rest else item_id ∷ rest

-- `if texts:`
abbrev pub has_any {ℓ} : {A : Type ℓ} → List A → Bool
has_any [] = false
has_any (x ∷ xs) = true

-- `post(...)` under `if texts:`
unfoldable pub post_if : Bool → Message → Logged Effect (Unit {0})
post_if false message = return tt
post_if true message = effect (posted message)

module _ (dispatch : String → Result (Option Issue)) where
  abbrev append_issue : Option Issue → List Issue → List Issue
  append_issue none issues = issues
  append_issue (some issue) issues = issue ∷ issues

  unfoldable pub dispatch_issue_creations : List String → Logged Effect (List Issue)
  dispatch_issue_creations [] = return []
  dispatch_issue_creations (item_id ∷ valid) = do
    effect (dispatched item_id)
    result ← lift (dispatch item_id)
    rest ← dispatch_issue_creations valid
    return (append_issue result rest)

  abbrev pub source_ids : List Issue → List String
  source_ids issues = map (λ issue. issue.source_item_id) issues

  -- the command, once its IDs are all valid
  unfoldable pub obey :
      IssueCommandAction → PullRequest → List String → List ReviewItem → Logged Effect PullRequest
  unfolding post_if dispatch_issue_creations available_ids
  obey dismiss pr valid review_items = do
    pr' ← lift (dismiss_review_items pr valid)
    post_if (has_any valid) (dismissed_items valid review_items)
    return pr'
  obey create_issue pr valid review_items = do
    issues ← dispatch_issue_creations (available_ids pr.created_issue_item_ids [] valid)
    post_if (has_any issues) (issues_created issues review_items)
    return (record_created_issue_items pr (source_ids issues))

  -- the last three returns, after the messages on IDs
  unfoldable pub answer :
      IssueCommandAction → PullRequest → SortedIds → List ReviewItem → Logged Effect PullRequest
  answer action updated p review_items =
      if has_any p.unknown || has_any p.rejected
      then return updated
      else obey action updated p.valid review_items

  -- the command of a comment that is not processed yet
  unfoldable pub handle_command :
      PullRequest → PrComment → IssueCommand → List ReviewItem → Logged Effect PullRequest
  unfolding post_if partition_item_ids
  handle_command pr comment cmd review_items =
      let updated = mark_comment_processed pr comment.id in
      let p = partition_item_ids cmd.item_ids review_items in
      do
        post_if (has_any p.unknown) (invalid_items p.unknown review_items)
        post_if (has_any p.rejected) (rejected_command_items cmd.action p.rejected review_items)
        answer cmd.action updated p review_items

  module _ (search : String → Option (String × Bool)) where
    unfoldable pub handle_single_comment :
        PullRequest → PrComment → List ReviewItem → Logged Effect PullRequest
    handle_single_comment pr comment review_items =
        if is_comment_processed pr comment.id
        then return pr
        else elim (parse search comment.id.value comment.body) [
          | none ↦ return pr
          | some cmd ↦ handle_command pr comment cmd review_items
        ]

    unfoldable pub process_each_comment : PullRequest → List PrComment → Logged Effect PullRequest
    process_each_comment pr [] = return pr
    process_each_comment pr (comment ∷ comments) = do
      pr' ← handle_single_comment pr comment (latest_review_items pr)
      process_each_comment pr' comments

    -- `get_comments` is the port's answer for the pull request.
    unfoldable pub process_comments_for_pull_request :
        (get_comments : Result (List PrComment)) → PullRequest → Logged Effect (Unit {0})
    unfolding process_each_comment
    process_comments_for_pull_request get_comments pr =
        if not (has_any (latest_review_items pr)) then return tt else (do
          comments ← lift get_comments
          if not (has_any comments)
              then return tt
              else (do pr' ← process_each_comment pr comments; effect (saved pr')))

    -- `found` is what the repository finds under the ID.
    unfoldable pub execute :
        (found : Option PullRequest) (get_comments : Result (List PrComment))
        → Logged Effect (Unit {0})
    unfolding process_comments_for_pull_request
    execute none get_comments = lift (raise pull_request_not_found)
    execute (some pr) get_comments = process_comments_for_pull_request get_comments pr
