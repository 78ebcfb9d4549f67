-- ===== src/Lib.antt =====
-- PR Auto Reviewer: the review core of src/pr_auto_reviewer.
--
-- The program watches pull requests, lets a language model review them in several phases, and publishes
-- the review. This library models its decision-making code.
--
--   Prelude      Boolean tests, lists, sets and dictionaries of texts, calls that raise, text operations.
--   Domain       src/pr_auto_reviewer/domain: the review items, their lifecycles, the review and its
--                verdict, the guardrails of a conversation, and the pull request.
--   Application  src/pr_auto_reviewer/application: the conversation of one review phase, and what
--                becomes of a review before it is published.
--   Infrastructure  src/pr_auto_reviewer/infrastructure: the state file, budgets and limits.
--   Examples     the theorems at concrete inputs, and runs of the definitions.
--
-- How the parts interact. ReviewPullRequestService.execute loads the pull request, has its history
-- audited, has the diff reviewed (each phase is one conversation of AgentConversationService), merges the
-- audited records into the review, folds the audit into the pull request, settles the IDs that block a
-- merge, publishes, and saves. The pull request is the only state that lives longer than one review.
--
-- Which file models what.
--
--   Domain.Status, Severity, Category, Verdict, Identity, Item, Review
--       the value objects, one file each, with their coercions of text and their constructor checks.
--   Domain.Lifecycle
--       ReviewItemLifecycle and ReviewItemTransition of domain/value_objects: first_appearance, audit,
--       dismiss. Lifecycle.Moves gives each as one step, Lifecycle.History reads a list of transitions,
--       Lifecycle.Runs is the step relation.
--   Domain.PullRequest
--       domain/entities/pull_request.py. The `frozenset`s are lists without repetition, a dictionary is
--       an association list in insertion order, `replace` is a record update. PullRequest.Lifecycles has
--       add_review, apply_audit_result and dismiss_review_items; PullRequest.Derive the legacy
--       derivation; the other children the proofs, by what they prove.
--   Domain.Guardrails
--       domain/value_objects/conversation_guardrails.py: the counters of a conversation.
--   Application.Conversation
--       application/services/agent_conversation_service.py, from `_run` to `_finish_final_verdict`. The
--       variables of the loop are the record LoopState. Conversation.Turn has one turn of the loop, each
--       branch a definition, Conversation.Loop the loop, Conversation.Reads the coverage of files. The
--       chat port, the parser behind the command bus, the observer, the tools and the file system are the
--       parameters `Ports`; messages that a template renders are constructors.
--   Application.ReviewPullRequest
--       application/services/review_pull_request_service.py: when a review is due, the merge of audited
--       records (Merge), what stands in for a missing audit (History), the blocking IDs and the guard on
--       approvals (the module itself), and `execute` from the finished review to the saved pull request
--       (Conclude). Settle, Again and the children of Merge and History hold proofs. The generator of IDs
--       and the publisher are parameters.
--   Application.RemediationAudit
--       application/services/remediation_audit_service.py: which answer of the auditor belongs to which
--       record, what counts as evidence (here), the audit of one record and of all (Execute). The answers
--       are records with a field for each key that the code reads; the regular expression for a cited
--       path and the texts of the files are parameters.
--   Domain.CitedPath
--       `_normalize_file_path` of domain/services/review_item_factory.py: the file of the repository that a
--       path in the model's answer stands for. pathlib and the file system are the record Files.
--   Domain.UniqueIds
--       `ensure_unique_ids` of the same file: IDs of its own for each record of a review. What it has in common
--       with the merge of a review into its history stands in Domain.Renaming.
--   Application.Findings
--       application/services/finding_deduplicator_service.py (Deduplicator) and
--       finding_aggregator_service.py (Aggregator, Summary): the findings of all phases as one review. Sets of line
--       numbers are lists of integers; the digits are those of ASCII. The reason factory and the generator
--       of IDs are parameters.
--   Application.IssueCommands, Application.RegisterIssue
--       application/services/process_issue_commands_service.py and register_issue_service.py: comments that
--       file issues or dismiss findings. A call that acts on the outside returns what it did along with its
--       result, so what was done before an exception stays on the list (Prelude.Logged). Partition,
--       Answered, Requests, Once and Authorized hold proofs.
--   Infrastructure.PrRepository
--       infrastructure/persistence/json_file_pr_repository.py: the codecs (Items, Lifecycles, Reviews), the keys and the
--       repository over the values that json reads and writes. A value of a type that its reader does not
--       expect raises here, where Python would pass it on.
--   Domain.AllowList
--       domain/services/repository_allow_list.py: which repositories are allowed, and which are polled.
--   Infrastructure.Limits
--       infrastructure/fragments/token_budget_manager.py (Budget), infrastructure/llm/retry_orchestrator.py
--       (Retry) and the rate limits of infrastructure/client (RateLimit). Clocks are arguments.
--
-- Bounds and fuel. The loop of a conversation takes fuel; `run` gives it one more than the limit of turns,
-- and each turn uses one up, so the fuel lasts. All other definitions are structural. Numbers
-- are unbounded, as in Python.
--
-- Exceptions are the constructors of Prelude.Result.Error. Logging, events for the transcript and the
-- rendering of prompts are left out; the missing files that a demand for exploration lists keep the order
-- of the coverage files, where the source sorts them.
--
-- Not modelled: the platform clients, the container, the configuration and the command line (input and
-- output, wiring); of the application, the orchestrator of the phases, the conversation with the auditor, the
-- verification of findings and the polling daemon.
pub mod Prelude
pub mod Domain
pub mod Application
pub mod Infrastructure
mod Examples
