-- ===== src/Application/RegisterIssue.antt =====
-- application/services/register_issue_service.py. The preparation of the content, which asks the model,
-- and the tracker are parameters; so is what the repository finds under the ID of the pull request.
use pr_auto_reviewer.Prelude.{
  String, false, List, [], ◌∷◌, Option, none, some, ◌==◌, if◌then◌else◌, ◌≡◌, refl, ◌⊎◌, inl, inr,
  arith, eq_iff, subst,
}
use pr_auto_reviewer.Prelude.Lists.{All, Any}
use pr_auto_reviewer.Prelude.Result.{
  Result, Error, ok, raise, pull_request_not_found, review_item_not_found, ◌>>=◌, OnReturn,
  OnReturn-rest, OnReturn-intro, OnReturn-bind,
}
use pr_auto_reviewer.Domain.Item.{ReviewItem}
use pr_auto_reviewer.Domain.PullRequest.{PullRequest, latest_review_items}
use pr_auto_reviewer.Application.IssueCommands.{Issue}
use pr_auto_reviewer.Application.IssueCommands.Requests.{IsFaithful}

pub record IssueContent : Type 0 where
  pub title : String
  pub body : String

unfoldable pub find_item : List ReviewItem → String → Result ReviewItem
find_item [] issue_id = raise review_item_not_found
find_item (item ∷ items) issue_id =
    let rest = find_item items issue_id in if item.id == issue_id then ok item else rest

module _ (prepare : ReviewItem → Result IssueContent)
    (create : (repository title body source_item_id : String) → Result Issue) where
  -- from the found item on
  unfoldable pub register_item : PullRequest → ReviewItem → Result Issue
  register_item pr item = do
    content ← prepare item
    create pr.id.repository content.title content.body item.id

  unfoldable pub execute : (found : Option PullRequest) (issue_id : String) → Result Issue
  execute none issue_id = raise pull_request_not_found
  execute (some pr) issue_id = do
    item ← find_item (latest_review_items pr) issue_id
    register_item pr item

  -- the command bus, for this command
  unfoldable pub bus : Option PullRequest → String → Result (Option Issue)
  bus found issue_id = do issue ← execute found issue_id; ok (some issue)

  find_item-cases :
      (items : List ReviewItem) (k : String)
      → ((find_item items k ≡ raise review_item_not_found)
          × All (λ item. (item.id == k) ≡ false) items)
        ⊎ ((item : ReviewItem) × (find_item items k ≡ ok item)
            × (item.id ≡ k)
            × Any (λ i. i ≡ item) items)
  unfolding find_item
  find_item-cases [] k = inl (refl, tt)
  find_item-cases (i ∷ is) k = ground (arith, find_item-cases is k, eq_iff i.id k)

  -- What registering the item `item` of `pr` comes to: the content is prepared for that item, and the issue
  -- is created in the repository with its title and its body.
  abbrev pub IsRegistered : PullRequest → ReviewItem → Result Issue → Type 0
  IsRegistered pr item result =
      ((error : Error) × (prepare item ≡ raise error) × (result ≡ raise error))
      ⊎ ((content : IssueContent) × (prepare item ≡ ok content)
          × (result ≡ create pr.id.repository content.title content.body item.id))

  -- `item` has the ID, and no item before it has.
  abbrev pub IsFirst : String → ReviewItem → List ReviewItem → Type 0
  IsFirst k item [] = ⊥
  IsFirst k item (i ∷ items) =
      ((i ≡ item) × (i.id ≡ k)) ⊎ (((i.id == k) ≡ false) × IsFirst k item items)

  find_item-IsFirst :
      (items : List ReviewItem) (k : String) (item : ReviewItem)
      → find_item items k ≡ ok item
      → IsFirst k item items
  unfolding find_item
  find_item-IsFirst [] k item e = ground (arith, e)
  find_item-IsFirst (i ∷ is) k item e =
      ground (arith, e, find_item-IsFirst is k item, eq_iff i.id k)

  register_item-IsRegistered :
      (pr : PullRequest) (item : ReviewItem) → IsRegistered pr item (register_item pr item)
  unfolding register_item
  register_item-IsRegistered pr item = prepared (prepare item) refl
    where
      prepared :
          (r : Result IssueContent)
          → prepare item ≡ r
          → IsRegistered pr item
              (r >>= λ content. create pr.id.repository content.title content.body item.id)
      prepared (ok content) e = inr (content, e, refl)
      prepared (raise error) e = inl (error, e, refl)

  -- Without the pull request, a PullRequestNotFoundError is raised, and without an item of the
  -- requested ID in its latest review a ReviewItemNotFoundError. Else the issue is created for the
  -- first item with that ID, under the title and with the body that were prepared for it, unless
  -- preparing them raises an error, which is passed on.
  pub register_issue_lem :
      (found : Option PullRequest) (k : String)
      → ((found ≡ none) × (execute found k ≡ raise pull_request_not_found))
        ⊎ ((pr : PullRequest) × (found ≡ some pr)
            × (((execute found k ≡ raise review_item_not_found)
                  × All (λ item. (item.id == k) ≡ false) (latest_review_items pr))
                ⊎ ((item : ReviewItem) × IsFirst k item (latest_review_items pr)
                    × IsRegistered pr item (execute found k))))
  unfolding execute
  register_issue_lem none k = inl (refl, refl)
  register_issue_lem (some pr) k = inr (
    pr,
    refl,
    elim (find_item-cases (latest_review_items pr) k) [
      | inl (e, h) ↦ inl (rw e refl, h)
      | inr (item, e, i, h) ↦ inr (
        item,
        find_item-IsFirst (latest_review_items pr) k item e,
        rw e (register_item-IsRegistered pr item),
      )
    ],
  )

  module _
      (returns : (repository title body k : String) (issue : Issue)
        → create repository title body k ≡ ok issue
        → issue.source_item_id ≡ k) where
    HasSource : String → Issue → Type 0
    HasSource k issue = issue.source_item_id ≡ k

    register_item-HasSource :
        (pr : PullRequest) (item : ReviewItem)
        → OnReturn (HasSource item.id) (register_item pr item)
    unfolding register_item HasSource
    register_item-HasSource pr item = OnReturn-rest (HasSource item.id) (prepare item) _ (λ content.
        OnReturn-intro (HasSource item.id)
          (create pr.id.repository content.title content.body item.id)
          (returns pr.id.repository content.title content.body item.id))

    execute-HasSource :
        (found : Option PullRequest) (k : String) → OnReturn (HasSource k) (execute found k)
    unfolding execute
    execute-HasSource none k = tt
    execute-HasSource (some pr) k = elim (find_item-cases (latest_review_items pr) k) [
      | inl (e, h) ↦ rw e tt
      | inr (item, e, i, h) ↦ rw e (
          subst (λ j. OnReturn (HasSource j) (register_item pr item)) i
            (register_item-HasSource pr item))
    ]

    -- The bus answers with an issue for the item that it was asked for, where the tracker returns the source
    -- ID that it was given.
    pub bus-IsFaithful : (found : Option PullRequest) → IsFaithful (bus found)
    unfolding bus HasSource
    bus-IsFaithful found k result e =
        subst
          (OnReturn
            (λ result. (issue : Issue) × (result ≡ some issue) × (issue.source_item_id ≡ k)))
          e
          (OnReturn-bind (HasSource k) _ (execute found k) _ (execute-HasSource found k)
            (λ issue h. (issue, refl, h)))
