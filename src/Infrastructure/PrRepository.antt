-- ===== src/Infrastructure/PrRepository.antt =====
-- infrastructure/persistence/json_file_pr_repository.py: `StateKey` and `JsonFilePullRequestRepository`.
-- The state file is the value that it holds: the text, `json` and the steps of an atomic write are left
-- out.
pub mod Items
pub mod Lifecycles
pub mod Reviews
pub mod RoundTrip
pub mod Apart
use pr_auto_reviewer.Prelude.{
  ℕ, String, Bool, true, false, List, [], ◌∷◌, Option, none, some, ◌==◌, if◌then◌else◌,
}
use pr_auto_reviewer.Prelude.Json.{
  Json, null, boolean, number, string, array, object, Object, fields, bare, elements, get, put,
  get_text, get_optional_text, get_optional_number, get_boolean, get_list, read_object, read_text,
}
use pr_auto_reviewer.Prelude.Result.{Result, ok, raise, repository_corrupted, unexpected, ◌>>=◌}
use pr_auto_reviewer.Prelude.Sets.{union}
use pr_auto_reviewer.Prelude.Words.{append, show, sorted}
use pr_auto_reviewer.Domain.Identity.{PullRequestId, new_commit_sha, new_comment_id}
use pr_auto_reviewer.Domain.PullRequest.{PullRequest}
use pr_auto_reviewer.Domain.PullRequest.Derive.{with_derived_lifecycles}
use pr_auto_reviewer.Infrastructure.PrRepository.Items.{optional_text}
use pr_auto_reviewer.Infrastructure.PrRepository.Lifecycles.{
  serialize_lifecycle, deserialize_lifecycle,
}
use pr_auto_reviewer.Infrastructure.PrRepository.Reviews.{serialize_review, deserialize_review}

-- `StateKey.of`
unfoldable pub state_key : PullRequestId → String
unfolding append show
state_key pr_id = append pr_id.repository (append "/" (show pr_id.number))

abbrev pub optional_number : Option ℕ → Json
optional_number none = null
optional_number (some n) = number n

-- a set of texts, sorted
abbrev pub sorted_texts : List String → Json
sorted_texts ids = array (elements string (sorted ids))

unfoldable pub serialize : PullRequest → Object
serialize pr = fields (
    ("title", string pr.title)
    ∷ ("head_sha", string pr.head_sha.value)
    ∷ ("is_draft", boolean pr.is_draft)
    ∷ ("reviews", array (elements serialize_review pr.reviews))
    ∷ ("lifecycles", array (elements serialize_lifecycle pr.lifecycles))
    ∷ ("unresolved_blocking_ids", sorted_texts pr.unresolved_blocking_ids)
    ∷ ("created_issue_item_ids", sorted_texts pr.created_issue_item_ids)
    ∷ ("dismissed_item_ids", sorted_texts pr.dismissed_item_ids)
    ∷ ("last_reviewed_at", optional_text pr.last_reviewed_at)
    ∷ ("processed_comment_ids", sorted_texts pr.processed_comment_ids)
    ∷ ("last_review_request_event_id", optional_number pr.last_review_request_event_id)
    ∷ ("last_platform_review_id", optional_number pr.last_platform_review_id)
    ∷ ("last_platform_review_dismissed", boolean pr.last_platform_review_dismissed)
    ∷ ("last_command_checked_at", optional_text pr.last_command_checked_at)
    ∷ [])

-- `CommentId(str(cid))`
unfoldable pub read_comment_id : Json → Result String
unfolding show
read_comment_id (string s) = do id ← new_comment_id s; ok id.value
read_comment_id (number n) = do id ← new_comment_id (show n); ok id.value
read_comment_id _ = raise unexpected

unfoldable pub deserialize : PullRequestId → Object → Result PullRequest
unfolding get_text get_optional_text get_optional_number get_boolean get_list
deserialize pr_id raw = do
  reviews ← get_list (read_object deserialize_review) "reviews" raw
  unresolved_ids ← get_list read_text "unresolved_blocking_ids" raw
  created_ids ← get_list read_text "created_issue_item_ids" raw
  dismissed_ids ← get_list read_text "dismissed_item_ids" raw
  lifecycles ← get_list (read_object deserialize_lifecycle) "lifecycles" raw
  processed_ids ← get_list read_comment_id "processed_comment_ids" raw
  title ← get_text "title" "" raw
  head_text ← get_text "head_sha" "" raw
  head_sha ← new_commit_sha head_text
  last_reviewed_at ← get_optional_text "last_reviewed_at" raw
  is_draft ← get_boolean "is_draft" false raw
  event_id ← get_optional_number "last_review_request_event_id" raw
  review_id ← get_optional_number "last_platform_review_id" raw
  review_dismissed ← get_boolean "last_platform_review_dismissed" false raw
  last_command_checked_at ← get_optional_text "last_command_checked_at" raw
  with_derived_lifecycles (record {
    id = pr_id;
    title = title;
    head_sha = head_sha;
    unresolved_blocking_ids = union [] unresolved_ids;
    created_issue_item_ids = union [] created_ids;
    dismissed_item_ids = union [] dismissed_ids;
    last_reviewed_at = last_reviewed_at;
    is_draft = is_draft;
    processed_comment_ids = union [] processed_ids;
    reviews = reviews;
    last_review_request_event_id = event_id;
    last_platform_review_id = review_id;
    last_platform_review_dismissed = review_dismissed;
    last_command_checked_at = last_command_checked_at;
    lifecycles = lifecycles;
  })

-- the state file
pub data File : Type 0 where
  missing unreadable : File
  holds : Object → File

-- `{"reviewed": {}}`
abbrev pub no_state : Object
no_state = fields (("reviewed", object bare) ∷ [])

unfoldable pub load : File → Result Object
load missing = ok no_state
load unreadable = raise repository_corrupted
load (holds state) = ok state

-- `data.get("reviewed", {})`, and what `setdefault` returns
abbrev pub as_reviewed : Option Json → Result Object
as_reviewed none = ok bare
as_reviewed (some (object reviewed)) = ok reviewed
as_reviewed (some _) = raise unexpected

abbrev found : PullRequestId → Option Json → Result (Option PullRequest)
found pr_id none = ok none
found pr_id (some null) = ok none
found pr_id (some (object raw)) = do pr ← deserialize pr_id raw; ok (some pr)
found pr_id (some _) = raise unexpected

unfoldable pub find : File → PullRequestId → Result (Option PullRequest)
unfolding load get
find file pr_id = do
  state ← load file
  reviewed ← as_reviewed (get "reviewed" state)
  found pr_id (get (state_key pr_id) reviewed)

-- the state that is written
unfoldable pub save : File → PullRequest → Result Object
unfolding load get put
save file pr = do
  state ← load file
  reviewed ← as_reviewed (get "reviewed" state)
  ok (put "reviewed" (object (put (state_key pr.id) (object (serialize pr)) reviewed)) state)

-- The file is deleted and written anew.
unfoldable pub reset : File → File
reset file = holds no_state
