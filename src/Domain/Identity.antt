-- ===== src/Domain/Identity.antt =====
-- domain/value_objects/commit_sha.py, pull_request_id.py and comment_id.py
use pr_auto_reviewer.Prelude.{ℕ, String, if◌then◌else◌, not, leb}
use pr_auto_reviewer.Prelude.Result.{
  Result, ok, raise, invalid_commit_sha, invalid_pull_request_id, invalid_comment_id,
}
use pr_auto_reviewer.Prelude.Text.{truthy}

pub record CommitSha : Type 0 where
  pub value : String

pub record PullRequestId : Type 0 where
  pub repository : String
  pub number : ℕ

pub record CommentId : Type 0 where
  pub value : String

-- `CommitSha(value)`
unfoldable pub new_commit_sha : String → Result CommitSha
new_commit_sha value =
    if not (truthy value) then raise invalid_commit_sha else ok (record { value = value })

-- `PullRequestId(repository, number)`
unfoldable pub new_pull_request_id : String → ℕ → Result PullRequestId
new_pull_request_id repository number =
    if not (truthy repository)
    then raise invalid_pull_request_id
    else if leb number 0
    then raise invalid_pull_request_id
    else ok (record { repository = repository; number = number })

-- `CommentId(value)`
unfoldable pub new_comment_id : String → Result CommentId
new_comment_id value =
    if not (truthy value) then raise invalid_comment_id else ok (record { value = value })
