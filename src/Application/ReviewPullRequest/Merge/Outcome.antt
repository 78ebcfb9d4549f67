-- ===== src/Application/ReviewPullRequest/Merge/Outcome.antt =====
-- `_merge_audited_history`: the merged review
use pr_auto_reviewer.Prelude.{
  String, true, false, List, [], ◌∷◌, ◌++◌, ◌&&◌, ◌||◌, ◌≡◌, refl, arith, if◌then◌else◌,
}
use pr_auto_reviewer.Prelude.Sets.{contains, union, Distinct, contains-union, contains-append}
use pr_auto_reviewer.Prelude.Text.{truthy}
use pr_auto_reviewer.Domain.Item.{ReviewItem, is_open_blocking}
use pr_auto_reviewer.Domain.Renaming.{IsRenaming, IsRenaming-same}
use pr_auto_reviewer.Domain.Review.{CodeReview, new_review, verdict_for}
use pr_auto_reviewer.Domain.Verdict.{
  ReviewVerdict, approved, changes_requested, is_changes_requested, is_commented,
}
use pr_auto_reviewer.Prelude.Lists.{any}
use pr_auto_reviewer.Prelude.Result.{ok}
use pr_auto_reviewer.Application.ReviewPullRequest.{ReviewAuditResult}
use pr_auto_reviewer.Application.ReviewPullRequest.Merge.{
  named_ids, prepare, renumber, fresh_records, merge_audited_history,
}
use pr_auto_reviewer.Application.ReviewPullRequest.Merge.Ids.{
  ids_of, prepare-AreFresh, renumber-AreFresh, AreFresh-append, newly_shown, prepare-IsRenaming,
  renumber-IsRenaming,
}

-- the IDs of the history, and those that the audited records carry
abbrev pub taken_ids : ReviewAuditResult → List String → List String
taken_ids audit reserved = reserved ++ named_ids (audit.items ++ audit.suggestions)

-- What the merge returns for a review and an audit, under the IDs that are reserved.
pub record IsMerged (review : CodeReview) (audit : ReviewAuditResult) (reserved : List String)
    (merged : CodeReview) : Type 0 where
  pub wellformed : new_review merged ≡ ok merged
  pub fresh_items : List ReviewItem
  pub fresh_suggestions : List ReviewItem
  pub items : merged.items ≡ audit.items ++ fresh_items
  pub suggestions : merged.suggestions ≡ audit.suggestions ++ fresh_suggestions
  pub new_items :
      IsRenaming (taken_ids audit reserved) (newly_shown audit.items review.items) fresh_items
  pub new_suggestions :
      IsRenaming
        (taken_ids audit reserved ++ ids_of fresh_items)
        (newly_shown audit.suggestions review.suggestions)
        fresh_suggestions
  pub praise :
      IsRenaming
        (taken_ids audit reserved ++ (ids_of fresh_items ++ ids_of fresh_suggestions))
        review.praise
        merged.praise
  pub rest : merged ≡ record review {
    items = merged.items;
    suggestions = merged.suggestions;
    praise = merged.praise;
    verdict = merged.verdict;
  }
  pub ids : List String
  pub are_ids : ids ≡ (ids_of fresh_items ++ ids_of fresh_suggestions) ++ ids_of merged.praise
  pub distinct : Distinct ids
  pub named : contains "" ids ≡ false
  pub unreserved :
      (k : String)
      → contains k ids
          && (contains k reserved || contains k (named_ids (audit.items ++ audit.suggestions)))
        ≡ false
  pub approved_only : merged.verdict ≡ approved → any is_open_blocking merged.items ≡ false
  pub requested : review.verdict ≡ changes_requested → merged.verdict ≡ changes_requested

merged_review : (List String → String) → CodeReview → ReviewAuditResult → List String → CodeReview
unfolding verdict_for
merged_review generate_id review audit reserved_ids =
    let m = fresh_records generate_id review audit reserved_ids in
    record review {
      items = audit.items ++ m.fresh_items;
      suggestions = audit.suggestions ++ m.fresh_suggestions;
      praise = m.praise;
      verdict =
          if is_changes_requested review.verdict
          then changes_requested
          else verdict_for (audit.items ++ m.fresh_items);
    }

merged_verdict_lem :
    (verdict : ReviewVerdict) (items : List ReviewItem)
    → let verdict' =
        if is_changes_requested verdict then changes_requested else verdict_for items in
      (is_commented verdict' ≡ false)
      × (verdict' ≡ approved → any is_open_blocking items ≡ false)
      × (verdict ≡ changes_requested → verdict' ≡ changes_requested)
unfolding verdict_for
merged_verdict_lem verdict [] = ground arith
merged_verdict_lem verdict (i ∷ is) = ground arith

merge_audited_history-eq-ok :
    (generate_id : List String → String) (review : CodeReview) (audit : ReviewAuditResult)
    (reserved : List String)
    → new_review review ≡ ok review
    → merge_audited_history generate_id review audit reserved
      ≡ ok (merged_review generate_id review audit reserved)
unfolding merge_audited_history merged_review new_review
merge_audited_history-eq-ok generate_id review audit reserved h =
    let m = fresh_records generate_id review audit reserved in
    ground (arith, h, merged_verdict_lem review.verdict (audit.items ++ m.fresh_items))

taken_ids-reserved :
    (audit : ReviewAuditResult) (reserved : List String) (k : String)
    → contains k (taken_ids audit reserved)
      ≡ contains k (union (union [] reserved) (named_ids (audit.items ++ audit.suggestions)))
unfolding contains
taken_ids-reserved audit reserved k =
    let named = named_ids (audit.items ++ audit.suggestions) in
    ground (
      arith,
      contains-append k reserved named,
      contains-union k (union [] reserved) named,
      contains-union k [] reserved,
    )

taken_more :
    (taken reserved ids reserved' : List String) (k : String)
    → contains k taken ≡ contains k reserved
    → contains k reserved' ≡ contains k reserved || contains k ids
    → contains k (taken ++ ids) ≡ contains k reserved'
taken_more taken reserved ids reserved' k t r = ground (arith, t, r, contains-append k taken ids)

-- Where new IDs are generated that are not reserved, the merge of a well-formed review never raises. It
-- keeps every audited record; behind them come, in their order and as first shown, just those items and
-- suggestions of the review that repeat no active audited record. All praise stays. What is new carries IDs
-- that are named, that differ from each other, and that neither an audited record nor the history carries;
-- an ID that already is so stays. The merge approves only where no merged item is open and blocking, and a
-- change request stays one; what else the review holds is as it was.
pub merge_audited_history_lem :
    (generate_id : List String → String)
    → ((reserved : List String)
        → (truthy (generate_id reserved) ≡ true)
          × (contains (generate_id reserved) reserved ≡ false))
    → (review : CodeReview) (audit : ReviewAuditResult) (reserved : List String)
    → new_review review ≡ ok review
    → (merged : CodeReview) × (merge_audited_history generate_id review audit reserved ≡ ok merged)
      × IsMerged review audit reserved merged
unfolding merge_audited_history merged_review fresh_records contains
merge_audited_history_lem generate_id generates review audit reserved_ids h =
    let named = named_ids (audit.items ++ audit.suggestions) in
    let reserved = union (union [] reserved_ids) named in
    let (items, r₁) = prepare generate_id audit.items reserved review.items in
    let (suggestions, r₂) = prepare generate_id audit.suggestions r₁ review.suggestions in
    let (praise, r₃) = renumber generate_id r₂ review.praise in
    let first = prepare-AreFresh generate_id generates audit.items reserved review.items in
    let both =
      AreFresh-append generate_id generates reserved r₁ r₂ (ids_of items) (ids_of suggestions) first
        (prepare-AreFresh generate_id generates audit.suggestions r₁ review.suggestions) in
    let fresh =
      AreFresh-append generate_id generates reserved r₂ r₃ (ids_of items ++ ids_of suggestions)
        (ids_of praise) both (renumber-AreFresh generate_id generates r₂ review.praise) in
    let taken = taken_ids-reserved audit reserved_ids in
    let (_, a, c) = merged_verdict_lem review.verdict (audit.items ++ items) in
    (
      merged_review generate_id review audit reserved_ids,
      merge_audited_history-eq-ok generate_id review audit reserved_ids h,
      record {
        wellformed = merge_audited_history-eq-ok generate_id review audit reserved_ids h;
        fresh_items = items;
        fresh_suggestions = suggestions;
        items = refl;
        suggestions = refl;
        new_items =
            IsRenaming-same reserved _ (newly_shown audit.items review.items) items taken
              (prepare-IsRenaming generate_id generates audit.items reserved review.items);
        new_suggestions =
            IsRenaming-same r₁ _ (newly_shown audit.suggestions review.suggestions) suggestions
              (λ k.
                taken_more (taken_ids audit reserved_ids) reserved (ids_of items) r₁ k (taken k)
                  (first.reserves k))
              (prepare-IsRenaming generate_id generates audit.suggestions r₁ review.suggestions);
        praise =
            IsRenaming-same r₂ _ review.praise praise
              (λ k.
                taken_more (taken_ids audit reserved_ids) reserved
                  (ids_of items ++ ids_of suggestions) r₂ k (taken k) (both.reserves k))
              (renumber-IsRenaming generate_id generates r₂ review.praise);
        rest = refl;
        ids = (ids_of items ++ ids_of suggestions) ++ ids_of praise;
        are_ids = refl;
        distinct = fresh.distinct;
        named = fresh.unnamed;
        unreserved = λ k. ground (
          arith,
          fresh.absent k,
          contains-union k (union [] reserved_ids) named,
          contains-union k [] reserved_ids,
        );
        approved_only = a;
        requested = c;
      },
    )
