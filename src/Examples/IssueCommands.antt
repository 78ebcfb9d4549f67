-- ===== src/Examples/IssueCommands.antt =====
-- Comments on the sample pull request that ask for an issue, or dismiss a finding.
use pr_auto_reviewer.Domain.Status.{created}
use pr_auto_reviewer.Domain.Lifecycle.Moves.{appeared}
use pr_auto_reviewer.Prelude.Dict.{lookup, insert}
use pr_auto_reviewer.Prelude.{
  String, Bool, [], ◌∷◌, List, Option, ◌⊎◌, none, some, ◌≡◌, refl, true, false, ◌==◌, if◌then◌else◌,
  ap, sym,
}
use pr_auto_reviewer.Prelude.Integers.{split}
use pr_auto_reviewer.Prelude.Lists.{All}
use pr_auto_reviewer.Prelude.Result.{
  Result, ok, raise, runtime_error, review_item_not_found, pull_request_not_found, ok-injective,
}
use pr_auto_reviewer.Prelude.Sets.{contains, union}
use pr_auto_reviewer.Prelude.Text.{strip}
use pr_auto_reviewer.Domain.Item.{ReviewItem}
use pr_auto_reviewer.Domain.PullRequest.{
  PullRequest, latest_review_items, is_comment_processed, mark_comment_processed,
  record_created_issue_items, project_item,
}
use pr_auto_reviewer.Application.IssueCommands.{
  PrComment, Issue, IssueCommand, dismiss, Effect, dispatched, posted, issues_created,
  invalid_items, process_each_comment, handle_single_comment, handle_command, execute, parse,
  partition_item_ids, post_if, answer, obey, dispatch_issue_creations, available_ids, sort_ids,
  items_by_id, id_parts, process_comments_for_pull_request, sort_id,
}
use pr_auto_reviewer.Application.IssueCommands.Partition.{
  named, is_negligible, partition_item_ids_lem,
}
use pr_auto_reviewer.Application.IssueCommands.Answered.{process_each_comment-again}
use pr_auto_reviewer.Application.IssueCommands.Requests.{Once, IsFaithful}
use pr_auto_reviewer.Application.IssueCommands.Once.{process_each_comment-Once}
use pr_auto_reviewer.Application.IssueCommands.Authorized.{IsWithin, handle_command-IsWithin}
use pr_auto_reviewer.Application.RegisterIssue.{
  IssueContent, bus, register_item, register_issue_lem, IsFirst, IsRegistered, bus-IsFaithful,
  find_item,
}
use pr_auto_reviewer.Application.RegisterIssue
use pr_auto_reviewer.Examples.PullRequests.{reviewed-IsSound}
use pr_auto_reviewer.Examples.Samples.{reviewed, blocker, nit, pr_id, review1}

-- what the regular expression finds in two comments
abbrev search : String → Option (String × Bool)
search body =
    if body == "/create-issue c3d4"
    then some ("c3d4", false)
    else if body == "dismiss zz"
    then some ("zz", true)
    else none

abbrev asks : PrComment
asks = record { id = record { value = "1" }; body = "/create-issue c3d4"; created_at = "" }

abbrev errs : PrComment
errs = record { id = record { value = "2" }; body = "dismiss zz"; created_at = "" }

abbrev chats : PrComment
chats = record { id = record { value = "3" }; body = "nice"; created_at = "" }

abbrev comments : List PrComment
comments = asks ∷ errs ∷ chats ∷ asks ∷ []

abbrev issue : String → Issue
issue k = record {
  id = 12;
  repository = "o/r";
  title = "t";
  body = "b";
  source_pr_id = pr_id;
  source_item_id = k;
  is_closed = false;
}

abbrev prepare : ReviewItem → Result IssueContent
prepare item = ok (record { title = item.description; body = "" })

abbrev create : String → String → String → String → Result Issue
create repository title body k = ok (issue k)

abbrev dispatch : String → Result (Option Issue)
dispatch = bus prepare create (some reviewed)

dispatch-IsFaithful : IsFaithful dispatch
dispatch-IsFaithful = bus-IsFaithful prepare create returns (some reviewed)
  where
    returns :
        (repository title body k : String) (i : Issue)
        → create repository title body k ≡ ok i
        → i.source_item_id ≡ k
    returns repository title body k i e =
        ap (λ j. j.source_item_id) (sym (ok-injective (issue k) i e))

abbrev answered : PullRequest
answered = record reviewed {
  processed_comment_ids = "2" ∷ "1" ∷ [];
  created_issue_item_ids = "c3d4" ∷ [];
}

-- the latest items, with the status of their lifecycles
abbrev shown : List ReviewItem
shown = record blocker { status = created } ∷ record nit { status = created } ∷ []

abbrev effects : List Effect
effects =
    dispatched "c3d4"
    ∷ posted (issues_created (issue "c3d4" ∷ []) shown)
    ∷ posted (invalid_items ("zz" ∷ []) shown)
    ∷ []

process_run : process_each_comment dispatch search reviewed comments ≡ (effects, ok answered)
unfolding process_each_comment handle_single_comment is_comment_processed contains parse
    handle_command sort_id lookup latest_review_items insert appeared project_item split id_parts
    strip partition_item_ids sort_ids items_by_id answer obey dispatch_issue_creations available_ids
    post_if union mark_comment_processed record_created_issue_items bus RegisterIssue.execute
    find_item register_item
process_run = refl

process_each_comment-again_example :
    process_each_comment dispatch search answered comments ≡ ([], ok answered)
process_each_comment-again_example =
    process_each_comment-again dispatch search reviewed answered comments effects process_run

process_each_comment-Once_example : Once [] (process_each_comment dispatch search reviewed comments)
process_each_comment-Once_example =
    process_each_comment-Once dispatch dispatch-IsFaithful search reviewed comments

abbrev dismissal : IssueCommand
dismissal = record { comment_id = "4"; item_ids = "c3d4" ∷ "a1b2" ∷ "zz" ∷ []; action = dismiss }

partition_item_ids_lem_example :
    let p = partition_item_ids dismissal.item_ids shown in
    (p.valid ≡ "c3d4" ∷ []) × (p.rejected ≡ "a1b2" ∷ []) × (p.unknown ≡ "zz" ∷ [])
partition_item_ids_lem_example = partition_item_ids_lem dismissal.item_ids shown

-- The command is carried out: the item is open and does not block.
abbrev waiver : IssueCommand
waiver = record { comment_id = "4"; item_ids = "c3d4" ∷ []; action = dismiss }

handle_command-IsWithin_example :
    IsWithin
      (λ k. is_negligible (named shown k))
      reviewed
      (handle_command dispatch reviewed chats waiver shown)
handle_command-IsWithin_example =
    handle_command-IsWithin dispatch dispatch-IsFaithful reviewed chats waiver shown
      reviewed-IsSound

register_issue_lem_example :
    ((some reviewed ≡ none)
      × (RegisterIssue.execute prepare create (some reviewed) "c3d4"
          ≡ raise pull_request_not_found))
    ⊎ ((pr : PullRequest) × (some reviewed ≡ some pr)
        × (((RegisterIssue.execute prepare create (some reviewed) "c3d4"
                ≡ raise review_item_not_found)
              × All (λ item. (item.id == "c3d4") ≡ false) (latest_review_items pr))
            ⊎ ((item : ReviewItem) × IsFirst prepare create "c3d4" item (latest_review_items pr)
                × IsRegistered prepare create pr item
                    (RegisterIssue.execute prepare create (some reviewed) "c3d4"))))
register_issue_lem_example = register_issue_lem prepare create (some reviewed) "c3d4"

-- A tracker that fails on the second issue: the first one is created, and the pull request is not saved.
abbrev failing : String → String → String → String → Result Issue
failing repository title body k = if k == "c3d4" then ok (issue k) else raise runtime_error

abbrev two_nits : PullRequest
two_nits = record reviewed {
  reviews = record review1 { items = nit ∷ record nit { id = "e5f6" } ∷ [] } ∷ [];
}

test_failing :
    execute
      (bus prepare failing (some two_nits))
      (λ body. some ("c3d4,e5f6", false))
      (some two_nits)
      (ok (asks ∷ []))
    ≡ (dispatched "c3d4" ∷ dispatched "e5f6" ∷ [], raise runtime_error)
unfolding process_each_comment handle_single_comment is_comment_processed contains parse
    handle_command sort_id lookup latest_review_items insert appeared project_item split id_parts
    strip partition_item_ids sort_ids items_by_id answer obey dispatch_issue_creations available_ids
    post_if union mark_comment_processed record_created_issue_items bus RegisterIssue.execute
    find_item register_item execute process_comments_for_pull_request
test_failing = refl
