-- ===== src/Examples/Repositories.antt =====
-- The sample pull request in a state file.
use pr_auto_reviewer.Prelude.{none, some, ◌≡◌, refl, inl}
use pr_auto_reviewer.Prelude.Json.{Object, get}
use pr_auto_reviewer.Prelude.Result.{ok, raise, repository_corrupted}
use pr_auto_reviewer.Prelude.Words.{append, show}
use pr_auto_reviewer.Domain.Identity.{PullRequestId}
use pr_auto_reviewer.Domain.Lifecycle.Moves.{appeared}
use pr_auto_reviewer.Domain.PullRequest.{PullRequest}
use pr_auto_reviewer.Infrastructure.PrRepository.{
  missing, unreadable, holds, state_key, find, save, load,
}
use pr_auto_reviewer.Infrastructure.PrRepository.RoundTrip.{
  IsPersistable, IsReadable, Restored, find-save,
}
use pr_auto_reviewer.Infrastructure.PrRepository.Apart.{find-save_other}
use pr_auto_reviewer.Examples.Samples.{reviewed, pr_id}
use pr_auto_reviewer.Examples.PullRequests.{lifecycle_a-IsValid, lifecycle_c-IsValid}

test_state_key : state_key pr_id ≡ "o/r/7"
unfolding state_key append show
test_state_key = refl

test_find_missing : find missing pr_id ≡ ok none
unfolding find load get
test_find_missing = refl

test_find_unreadable : find unreadable pr_id ≡ raise repository_corrupted
unfolding find load
test_find_unreadable = refl

reviewed-IsPersistable : IsPersistable reviewed
unfolding appeared
reviewed-IsPersistable = record {
  reviews = (record { verdict = refl; reason = refl; summary = refl; model_used = refl }, tt);
  lifecycles = (
    record { valid = lifecycle_a-IsValid; shas = (refl, tt) },
    (record { valid = lifecycle_c-IsValid; shas = (refl, tt) }, tt),
  );
  head_sha = refl;
  processed = tt;
  derived = inl refl;
}

find-save_example :
    (state : Object) × (pr' : PullRequest) × (save missing reviewed ≡ ok state)
    × IsReadable (holds state)
    × (find (holds state) pr_id ≡ ok (some pr'))
    × Restored reviewed pr'
find-save_example = find-save missing reviewed tt reviewed-IsPersistable

abbrev other_id : PullRequestId
other_id = record { repository = "o/r"; number = 8 }

find-save_other_example :
    (state : Object) × (save missing reviewed ≡ ok state)
    × (find (holds state) other_id ≡ find missing other_id)
find-save_other_example = find-save_other missing reviewed other_id tt refl
