-- ===== src/Infrastructure/PrRepository/Apart.antt =====
-- A pull request that is saved beside another one.
use pr_auto_reviewer.Prelude.{
  false, ◌≡◌, refl, some, ◌==◌, if◌then◌else◌, arith, inl, inr, ◌∙◌, ap, Bool-cases, ◌&&◌, nat_eq,
  eq_iff,
}
use pr_auto_reviewer.Prelude.Json.{object, Object, get, put, get-put}
use pr_auto_reviewer.Prelude.Result.{ok}
use pr_auto_reviewer.Prelude.Words.Decimals.{numbered-injective}
use pr_auto_reviewer.Domain.Identity.{PullRequestId}
use pr_auto_reviewer.Domain.PullRequest.{PullRequest}
use pr_auto_reviewer.Infrastructure.PrRepository.{
  state_key, serialize, File, holds, load, find, save,
}
use pr_auto_reviewer.Infrastructure.PrRepository.RoundTrip.{
  IsReadable, reviewed_of, with_reviewed, get-with_reviewed,
}

-- Two pull requests that differ in the repository or the number have different keys.
apart_keys :
    (a b : PullRequestId)
    → (a.repository == b.repository && nat_eq a.number b.number) ≡ false
    → (state_key a == state_key b) ≡ false
unfolding state_key
apart_keys a b h = elim (Bool-cases (state_key a == state_key b)) [
  | inl same ↦
      let (r, n) =
        numbered-injective a.repository b.repository a.number b.number
          ((eq_iff (state_key a) (state_key b)).0 same) in
      ground (arith, h, n, (eq_iff a.repository b.repository).1 r)
  | inr differ ↦ differ
]

-- On a readable state file, a pull request can be saved, and that does not change what is found for another
-- one, in another repository or with another number.
pub find-save_other :
    (file : File) (pr : PullRequest) (other : PullRequestId)
    → IsReadable file
    → (pr.id.repository == other.repository && nat_eq pr.id.number other.number) ≡ false
    → (state : Object) × (save file pr ≡ ok state) × (find (holds state) other ≡ find file other)
unfolding find save load
find-save_other file pr other r differ =
    let (state, reviewed, l, a) = reviewed_of file r in
    let key = state_key pr.id in
    let reviewed' = put key (object (serialize pr)) reviewed in
    let untouched =
      get-put (state_key other) key (object (serialize pr)) reviewed
      ∙ ap (λ b. if b then some (object (serialize pr)) else get (state_key other) reviewed)
          (apart_keys pr.id other differ) in
    (
      with_reviewed reviewed' state,
      rw (l, a) refl,
      rw (get-with_reviewed reviewed' state, untouched, l, a) refl,
    )
