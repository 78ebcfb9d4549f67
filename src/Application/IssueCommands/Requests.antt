-- ===== src/Application/IssueCommands/Requests.antt =====
-- What is asked for on the outside while a command is obeyed.
use mathlib.Core.Bool.{false≢true}
use pr_auto_reviewer.Prelude.{
  String, true, false, ◌≡◌, refl, ◌⊎◌, inl, inr, List, [], ◌∷◌, ◌++◌, Option, some, ◌||◌, arith,
  eq_iff, Bool-cases, sym, subst, ap, ◌∙◌, append-nil,
}
use pr_auto_reviewer.Prelude.Logged.{Logged, ◌>>=◌, return, ◌>>◌, effect}
use pr_auto_reviewer.Prelude.Result.{Result, ok, raise, OnReturn, OnReturn-mono, Error}
use pr_auto_reviewer.Prelude.Sets.{contains, Distinct, contains-append, append-Distinct}
use pr_auto_reviewer.Domain.PullRequest.{PullRequest}
use pr_auto_reviewer.Application.IssueCommands.{
  Issue, Effect, dispatched, posted, saved, available_ids, dispatch_issue_creations, source_ids,
}

-- the IDs for which an issue was asked for
abbrev pub dispatched_ids : List Effect → List String
dispatched_ids [] = []
dispatched_ids (posted message ∷ effects) = dispatched_ids effects
dispatched_ids (dispatched item_id ∷ effects) = item_id ∷ dispatched_ids effects
dispatched_ids (saved pr ∷ effects) = dispatched_ids effects

pub dispatched_ids-append :
    (es es' : List Effect) → dispatched_ids (es ++ es') ≡ dispatched_ids es ++ dispatched_ids es'
dispatched_ids-append [] es' = refl
dispatched_ids-append (posted m ∷ es) es' = dispatched_ids-append es es'
dispatched_ids-append (dispatched k ∷ es) es' = ap (λ ks. k ∷ ks) (dispatched_ids-append es es')
dispatched_ids-append (saved pr ∷ es) es' = dispatched_ids-append es es'

-- Issues are asked for at most once each, for none of `created`; and what is returned has recorded them.
unfoldable pub Once : List String → Logged Effect PullRequest → Type 0
Once created call =
    Distinct (dispatched_ids call.0)
    × ((k : String) → contains k (dispatched_ids call.0) ≡ true → contains k created ≡ false)
    × OnReturn
        (λ pr'.
          (k : String)
          → (contains k created || contains k (dispatched_ids call.0)) ≡ true
          → contains k pr'.created_issue_item_ids ≡ true)
        call.1

pub Once-return :
    (created : List String) (pr : PullRequest)
    → ((k : String) → contains k created ≡ true → contains k pr.created_issue_item_ids ≡ true)
    → Once created (return pr)
unfolding Once contains
Once-return created pr h = (tt, (λ k e. ground arith), λ k e. h k (ground arith))

pub Once->>= :
    (created : List String) (call : Logged Effect PullRequest)
    (f : PullRequest → Logged Effect PullRequest)
    → Once created call
    → ((pr' : PullRequest) → Once pr'.created_issue_item_ids (f pr'))
    → Once created (call >>= f)
unfolding Once
Once->>= created (es, raise e) f o each = o
Once->>= created (es, ok pr) f (d, new, kept) each =
    let (d', new', kept') = each pr in
    let split = λ (k : String).
      ap (contains k) (dispatched_ids-append es (f pr).0)
      ∙ contains-append k (dispatched_ids es) (dispatched_ids (f pr).0) in
    (
      subst Distinct (sym (dispatched_ids-append es (f pr).0)) (
          append-Distinct (dispatched_ids es) (dispatched_ids (f pr).0) d d'
            (λ k h. ground (arith, new' k, kept k))),
      (λ k h. ground (arith, split k, new k, new' k, kept k)),
      OnReturn-mono _
          (λ pr'.
            (k : String)
            → (contains k created || contains k (dispatched_ids (es ++ (f pr).0))) ≡ true
            → contains k pr'.created_issue_item_ids ≡ true)
          (λ pr' h k e. ground (arith, split k, kept k, h k)) (f pr).1 kept',
    )

-- an answer of the bus: an issue for the item that it was asked for
abbrev pub IsFaithful : (String → Result (Option Issue)) → Type 0
IsFaithful dispatch =
    (k : String) (result : Option Issue)
    → dispatch k ≡ ok result
    → (issue : Issue) × (result ≡ some issue) × (issue.source_item_id ≡ k)

pub available_ids_lem :
    (created seen valid : List String)
    → Distinct (available_ids created seen valid)
      × ((k : String)
          → contains k (available_ids created seen valid) ≡ true
          → (contains k created ≡ false) × (contains k seen ≡ false) × (contains k valid ≡ true))
unfolding available_ids contains
available_ids_lem created seen [] = (tt, λ k h. elim (false≢true h) [ ])
available_ids_lem created seen (id ∷ valid) =
    elim (Bool-cases (contains id created || contains id seen)) [
      | inl h ↦
          let (d, each) = available_ids_lem created seen valid in
          rw h (d, λ k m. ground (arith, each k))
      | inr h ↦
          let (d, each) = available_ids_lem created (id ∷ seen) valid in
          rw h
            ((ground (arith, each id, eq_iff id id), d), λ k m. ground (arith, each k, eq_iff id k))
    ]

Result-cases {ℓ} :
    {A : Type ℓ} (r : Result A) → ((a : A) × (r ≡ ok a)) ⊎ ((e : Error) × (r ≡ raise e))
Result-cases (ok a) = inl (a, refl)
Result-cases (raise e) = inr (e, refl)

module _ (dispatch : String → Result (Option Issue)) (faithful : IsFaithful dispatch) where
  -- Only listed IDs are asked for, each once, and what is returned are their issues.
  unfoldable pub Covers : List String → Logged Effect (List Issue) → Type 0
  Covers ks call =
      ((k : String) → contains k (dispatched_ids call.0) ≡ true → contains k ks ≡ true)
      × (Distinct ks → Distinct (dispatched_ids call.0))
      × OnReturn (λ issues. (source_ids dispatch issues ≡ ks) × (dispatched_ids call.0 ≡ ks)) call.1

  Covers-more :
      (k : String) (ks : List String) (issue : Issue) (call : Logged Effect (List Issue))
      → issue.source_item_id ≡ k
      → Covers ks call
      → Covers (k ∷ ks) (effect (dispatched k) >> (call >>= λ rest. return (issue ∷ rest)))
  unfolding Covers contains
  Covers-more k ks issue (es, raise e) u (known, distinct, c) =
      ((λ j m. ground (arith, known j)), (λ d. (ground (arith, known k), distinct d.1)), tt)
  Covers-more k ks issue (es, ok issues) u (known, distinct, (c, c')) =
      subst (λ es'. Covers (k ∷ ks) (dispatched k ∷ es', ok (issue ∷ issues))) (sym (append-nil es))
        (
          (λ j m. ground (arith, known j)),
          (λ d. (ground (arith, known k), distinct d.1)),
          (ground (arith, c, u), ap (λ js. k ∷ js) c'),
        )

  Covers-none : Covers [] (return [])
  unfolding Covers
  Covers-none = ((λ k h. h), (λ d. tt), (refl, refl))

  Covers-raised :
      (k : String) (ks : List String) (e : Error) → Covers (k ∷ ks) (dispatched k ∷ [], raise e)
  unfolding Covers contains
  Covers-raised k ks e = ((λ j m. ground arith), (λ d. (refl, tt)), tt)

  pub dispatch-Covers : (ks : List String) → Covers ks (dispatch_issue_creations dispatch ks)
  unfolding dispatch_issue_creations
  dispatch-Covers [] = Covers-none
  dispatch-Covers (k ∷ ks) = elim (Result-cases (dispatch k)) [
    | inr (e, q) ↦ rw q (Covers-raised k ks e)
    | inl (r, q) ↦
        let (issue, t, u) = faithful k r q in
        rw (q, t)
          (Covers-more k ks issue (dispatch_issue_creations dispatch ks) u (dispatch-Covers ks))
  ]
