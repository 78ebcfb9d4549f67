-- ===== src/Application/ReviewPullRequest/Conclude.antt =====
-- review_pull_request_service.py, `execute`: from the finished review to the saved pull request
use pr_auto_reviewer.Prelude.{
  String, true, false, List, [], ◌∷◌, ◌++◌, not, ◌≡◌, refl, sym, ap, ◌∙◌, subst, arith,
}
use pr_auto_reviewer.Prelude.Lists.{any, keep, All}
use pr_auto_reviewer.Prelude.Sets.{contains, Distinct}
use pr_auto_reviewer.Prelude.Result.{Result, ok, ◌>>=◌}
use pr_auto_reviewer.Prelude.Text.{truthy}
use pr_auto_reviewer.Domain.Item.{is_open_blocking}
use pr_auto_reviewer.Domain.Verdict.{approved}
use pr_auto_reviewer.Domain.Review.{CodeReview, new_review}
use pr_auto_reviewer.Domain.Lifecycle.Moves.{IsValid}
use pr_auto_reviewer.Domain.PullRequest.{
  item_ids, PullRequest, with_unresolved_blocking, with_resolved_blocking,
  record_review_request_event, record_platform_review,
}
use pr_auto_reviewer.Domain.PullRequest.Lifecycles.{add_review, apply_audit_result}
use pr_auto_reviewer.Domain.PullRequest.Index.{IsSound}
use pr_auto_reviewer.Domain.PullRequest.Audit.{apply_audit_result_lem}
use pr_auto_reviewer.Domain.PullRequest.Reviews.{add_review_lem}
use pr_auto_reviewer.Application.ReviewPullRequest.{
  ReviewPullRequestCommand, ReviewAuditResult, record_event, record_latest, extract_blocking_ids,
  track_blocking, guard_verdict,
}
use pr_auto_reviewer.Application.ReviewPullRequest.Settle.{settle_lem}
use pr_auto_reviewer.Application.ReviewPullRequest.Merge.{merge_audited_history, historical_ids}
use pr_auto_reviewer.Application.ReviewPullRequest.Merge.Outcome.{merge_audited_history_lem}

unfoldable pub record_review :
    PullRequest → CodeReview → ReviewPullRequestCommand → Result PullRequest
record_review pr review command =
    add_review
      (record_latest command.latest_review_id command.latest_review_dismissed
        (record_event command.review_request_event_id pr))
      review command.head_sha

module _ (generate_id : List String → String) (publish : CodeReview → Result (Unit {0})) where
  -- The review that is published, and the pull request that is saved, which is so only after the
  -- publisher returned.
  unfoldable pub conclude :
      ReviewPullRequestCommand
      → PullRequest
      → CodeReview
      → ReviewAuditResult
      → Result (CodeReview × PullRequest)
  conclude command pr review audit = do
    merged ← merge_audited_history generate_id review audit (historical_ids pr)
    audited ← apply_audit_result pr audit.lifecycles
    let settled = track_blocking audited (extract_blocking_ids merged.items)
    final ← guard_verdict settled merged
    _ ← publish final
    saved ← record_review settled final command
    ok (final, saved)

with_unresolved-IsSound :
    (pr : PullRequest) (ids : List String) → IsSound pr → IsSound (with_unresolved_blocking pr ids)
unfolding with_unresolved_blocking
with_unresolved-IsSound pr [] s = s
with_unresolved-IsSound pr (k ∷ ks) s = record {
  distinct = s.distinct;
  valid = s.valid;
  head_sha = s.head_sha;
}

with_resolved-IsSound :
    (pr : PullRequest) (ids : List String) → IsSound pr → IsSound (with_resolved_blocking pr ids)
unfolding with_resolved_blocking
with_resolved-IsSound pr [] s = s
with_resolved-IsSound pr (k ∷ ks) s = record {
  distinct = s.distinct;
  valid = s.valid;
  head_sha = s.head_sha;
}

with_unresolved-reviews :
    (pr : PullRequest) (ids : List String) → (with_unresolved_blocking pr ids).reviews ≡ pr.reviews
unfolding with_unresolved_blocking
with_unresolved-reviews pr [] = refl
with_unresolved-reviews pr (k ∷ ks) = refl

with_resolved-reviews :
    (pr : PullRequest) (ids : List String) → (with_resolved_blocking pr ids).reviews ≡ pr.reviews
unfolding with_resolved_blocking
with_resolved-reviews pr [] = refl
with_resolved-reviews pr (k ∷ ks) = refl

track_blocking-keeps :
    (pr : PullRequest) (ids : List String)
    → IsSound pr
    → IsSound (track_blocking pr ids) × ((track_blocking pr ids).reviews ≡ pr.reviews)
unfolding track_blocking with_unresolved_blocking with_resolved_blocking
track_blocking-keeps pr ids s =
    let gone = keep (λ id. not (contains id ids)) pr.unresolved_blocking_ids in
    (
      with_unresolved-IsSound (with_resolved_blocking pr gone) ids
          (with_resolved-IsSound pr gone s),
      with_unresolved-reviews (with_resolved_blocking pr gone) ids ∙ with_resolved-reviews pr gone,
    )

-- The pull request with what the platform reports.
abbrev pub noted : ReviewPullRequestCommand → PullRequest → PullRequest
noted command pr =
    record_latest command.latest_review_id command.latest_review_dismissed
      (record_event command.review_request_event_id pr)

pub noted-keeps :
    (command : ReviewPullRequestCommand) (pr : PullRequest)
    → ((noted command pr).lifecycles ≡ pr.lifecycles)
      × ((noted command pr).head_sha ≡ pr.head_sha)
      × ((noted command pr).unresolved_blocking_ids ≡ pr.unresolved_blocking_ids)
      × ((noted command pr).reviews ≡ pr.reviews)
unfolding record_review_request_event record_platform_review
noted-keeps command pr = ground arith

pub noted-IsSound :
    (command : ReviewPullRequestCommand) (pr : PullRequest)
    → IsSound pr
    → IsSound (noted command pr)
noted-IsSound command pr s =
    let (l, h, b, r) = noted-keeps command pr in
    record {
      distinct = subst (λ ls. Distinct (item_ids ls)) (sym l) s.distinct;
      valid = subst (All IsValid) (sym l) s.valid;
      head_sha = subst (λ c. truthy c.value ≡ true) (sym h) s.head_sha;
    }

-- What is published and saved.
pub record IsConcluded (command : ReviewPullRequestCommand) (pr : PullRequest) (final : CodeReview)
    (saved : PullRequest) : Type 0 where
  pub approved_only : final.verdict ≡ approved → any is_open_blocking final.items ≡ false
  pub blocking :
      (k : String)
      → contains k saved.unresolved_blocking_ids ≡ contains k (extract_blocking_ids final.items)
  pub reviews : saved.reviews ≡ pr.reviews ++ final ∷ []
  pub head_sha : saved.head_sha ≡ command.head_sha
  pub sound : IsSound saved

conclude-eq :
    (generate_id : List String → String) (publish : CodeReview → Result (Unit {0}))
    (command : ReviewPullRequestCommand) (pr : PullRequest) (review : CodeReview)
    (audit : ReviewAuditResult) (merged : CodeReview) (audited : PullRequest) (final : CodeReview)
    (saved : PullRequest)
    → merge_audited_history generate_id review audit (historical_ids pr) ≡ ok merged
    → apply_audit_result pr audit.lifecycles ≡ ok audited
    → guard_verdict (track_blocking audited (extract_blocking_ids merged.items)) merged ≡ ok final
    → add_review
        (noted command (track_blocking audited (extract_blocking_ids merged.items)))
        final
        command.head_sha
      ≡ ok saved
    → conclude generate_id publish command pr review audit
      ≡ (publish final >>= λ _. ok (final, saved))
unfolding conclude record_review
conclude-eq generate_id publish command pr review audit merged audited final saved e₁ e₂ e₃ e₄ =
    rw (conclude, e₁, e₂, e₃, record_review, e₄) refl

-- A well-formed review of a sound pull request reaches the publisher, and where the publisher returns the
-- pull request is saved: an approval is published only where no item of the review is open and blocking,
-- the IDs that are saved as blocking are those of the published review's open blocking items, the
-- published review is the last of the saved ones, and the saved pull request is sound, at the new head.
-- New IDs are assumed not to be reserved.
pub conclude_lem :
    (generate_id : List String → String) (publish : CodeReview → Result (Unit {0}))
    → ((reserved : List String)
        → (truthy (generate_id reserved) ≡ true)
          × (contains (generate_id reserved) reserved ≡ false))
    → (command : ReviewPullRequestCommand) (pr : PullRequest) (review : CodeReview)
      (audit : ReviewAuditResult)
    → IsSound pr
    → All IsValid audit.lifecycles
    → new_review review ≡ ok review
    → truthy command.head_sha.value ≡ true
    → (final : CodeReview) × (saved : PullRequest) × (conclude generate_id publish command pr review
          audit
        ≡ (publish final >>= λ _. ok (final, saved)))
      × IsConcluded command pr final saved
unfolding conclude record_review
conclude_lem generate_id publish generates command pr review audit s v w hs =
    let (merged, e₁, m) =
      merge_audited_history_lem generate_id generates review audit (historical_ids pr) w in
    let (audited, e₂, a) = apply_audit_result_lem pr audit.lifecycles s v in
    let ids = extract_blocking_ids merged.items in
    let settled = track_blocking audited ids in
    let (sound, same) = track_blocking-keeps audited ids a.sound in
    let (final, e₃, g) = settle_lem audited merged m.wellformed in
    let (saved, e₄, n) =
      add_review_lem (noted command settled) final command.head_sha
        (noted-IsSound command settled sound) hs in
    let (nl, nh, nb, nr) = noted-keeps command settled in
    (
      final,
      saved,
      conclude-eq generate_id publish command pr review audit merged audited final saved e₁ e₂ e₃
          e₄,
      record {
        approved_only = λ p.
            subst (λ items. any is_open_blocking items ≡ false) (sym g.items)
              (m.approved_only (sym (ap (λ r. r.verdict) (g.kept p)) ∙ p));
        blocking = λ k. ap (contains k) (n.blocking ∙ nb) ∙ g.tracked k;
        reviews = n.reviews ∙ ap (λ rs. rs ++ final ∷ []) (nr ∙ same ∙ a.reviews);
        head_sha = n.head_sha;
        sound = n.sound;
      },
    )
