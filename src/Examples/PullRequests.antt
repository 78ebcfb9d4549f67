-- ===== src/Examples/PullRequests.antt =====
-- Pull requests with one review: a new review, an audit, a dismissal.
use pr_auto_reviewer.Prelude.{true, [], ◌∷◌, some, ◌≡◌, refl}
use pr_auto_reviewer.Prelude.Lists.{All}
use pr_auto_reviewer.Prelude.Sets.{contains}
use pr_auto_reviewer.Prelude.Result.{ok}
use pr_auto_reviewer.Domain.Status.{dismissed}
use pr_auto_reviewer.Domain.Lifecycle.{ReviewItemLifecycle, is_terminal, dismiss, audit}
use pr_auto_reviewer.Domain.Lifecycle.Moves.{IsValid, moved, appeared}
use pr_auto_reviewer.Domain.PullRequest.{
  PullRequest, find_lifecycle, latest_review_items, review_items, review_suggestions,
  historical_items, historical_suggestions,
}
use pr_auto_reviewer.Domain.PullRequest.Lifecycles.{
  add_review, apply_audit_result, dismiss_review_items,
}
use pr_auto_reviewer.Domain.PullRequest.Index.{IsSound}
use pr_auto_reviewer.Domain.PullRequest.Audit.{
  Audited, apply_audit_result_lem, apply_audit_result-terminal,
}
use pr_auto_reviewer.Domain.PullRequest.Dismissal.{Dismissed, dismiss_review_items_lem}
use pr_auto_reviewer.Domain.PullRequest.Reviews.{Recorded, add_review_lem}
use pr_auto_reviewer.Domain.PullRequest.Views.{
  Settled, latest-dismiss_inactive, IsHistoryOf, historical_items_lem,
}
use pr_auto_reviewer.Examples.Samples.{reviewed, review1, sha2, lifecycle_a, lifecycle_c}

pub lifecycle_a-IsValid : IsValid lifecycle_a
unfolding appeared
lifecycle_a-IsValid = record { item_id = refl; first_seen_sha = refl; last_audited_sha = refl }

pub lifecycle_c-IsValid : IsValid lifecycle_c
unfolding appeared
lifecycle_c-IsValid = record { item_id = refl; first_seen_sha = refl; last_audited_sha = refl }

pub reviewed-IsSound : IsSound reviewed
unfolding contains appeared
reviewed-IsSound = record {
  distinct = (refl, (refl, tt));
  valid = (lifecycle_a-IsValid, (lifecycle_c-IsValid, tt));
  head_sha = refl;
}

add_review_lem_example :
    (pr' : PullRequest) × (add_review reviewed review1 sha2 ≡ ok pr')
    × Recorded reviewed review1 sha2 pr'
add_review_lem_example = add_review_lem reviewed review1 sha2 reviewed-IsSound refl

apply_audit_result_lem_example :
    (pr' : PullRequest) × (apply_audit_result reviewed (lifecycle_c ∷ []) ≡ ok pr')
    × Audited reviewed (lifecycle_c ∷ []) pr'
apply_audit_result_lem_example =
    apply_audit_result_lem reviewed (lifecycle_c ∷ []) reviewed-IsSound (lifecycle_c-IsValid, tt)

dismiss_review_items_lem_example :
    (pr' : PullRequest) × (dismiss_review_items reviewed ("c3d4" ∷ "zzzz" ∷ []) ≡ ok pr')
    × Dismissed reviewed ("c3d4" ∷ "zzzz" ∷ []) pr'
dismiss_review_items_lem_example =
    dismiss_review_items_lem reviewed ("c3d4" ∷ "zzzz" ∷ []) reviewed-IsSound

-- `reviewed` with the nit dismissed.
abbrev dismissed_c : ReviewItemLifecycle
dismissed_c = moved dismissed lifecycle_c "111" "Dismissed by command"

abbrev settled : PullRequest
settled = record reviewed {
  dismissed_item_ids = "c3d4" ∷ [];
  lifecycles = lifecycle_a ∷ dismissed_c ∷ [];
}

dismiss_run : dismiss_review_items reviewed ("c3d4" ∷ []) ≡ ok settled
unfolding dismiss_review_items moved appeared dismiss
dismiss_run = refl

latest-dismiss_inactive_example : All (Settled ("c3d4" ∷ [])) (latest_review_items settled)
latest-dismiss_inactive_example =
    latest-dismiss_inactive reviewed settled ("c3d4" ∷ []) reviewed-IsSound dismiss_run

dismissed_c-IsValid : IsValid dismissed_c
unfolding appeared moved
dismissed_c-IsValid = record { item_id = refl; first_seen_sha = refl; last_audited_sha = refl }

settled-IsSound : IsSound settled
unfolding contains appeared moved
settled-IsSound = record {
  distinct = (refl, (refl, tt));
  valid = (lifecycle_a-IsValid, (dismissed_c-IsValid, tt));
  head_sha = refl;
}

-- An auditor that calls the dismissed nit created does not reopen it.
abbrev audited_pr : PullRequest
audited_pr = record settled { lifecycles = lifecycle_a ∷ moved dismissed dismissed_c "111" "" ∷ [] }

audit_run : apply_audit_result settled (lifecycle_c ∷ []) ≡ ok audited_pr
unfolding apply_audit_result moved appeared audit contains
audit_run = refl

found_c : find_lifecycle "c3d4" settled.lifecycles ≡ some dismissed_c
unfolding moved appeared
found_c = refl

terminal_c : is_terminal dismissed_c ≡ true
unfolding moved
terminal_c = refl

apply_audit_result-terminal_example :
    (l' : ReviewItemLifecycle) × (find_lifecycle "c3d4" audited_pr.lifecycles ≡ some l')
    × (l'.status ≡ dismissed_c.status)
apply_audit_result-terminal_example =
    apply_audit_result-terminal settled audited_pr (lifecycle_c ∷ []) "c3d4" dismissed_c
      settled-IsSound (lifecycle_c-IsValid, tt) audit_run found_c terminal_c

historical_items_lem_example :
    IsHistoryOf settled (review_items settled.reviews) (historical_items settled)
    × IsHistoryOf settled (review_suggestions settled.reviews) (historical_suggestions settled)
historical_items_lem_example = historical_items_lem settled
