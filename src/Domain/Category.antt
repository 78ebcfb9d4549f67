-- ===== src/Domain/Category.antt =====
-- domain/value_objects/issue_category.py
use pr_auto_reviewer.Prelude.{
  String, Bool, true, false, ◌≡◌, refl, ◌==◌, if◌then◌else◌, List, [], ◌∷◌, Option, none, some,
}
use pr_auto_reviewer.Prelude.Dict.{lookup}
use pr_auto_reviewer.Prelude.Text.{strip, lower}

pub data IssueCategory : Type 0 where
  bug security design performance testability quality documentation : IssueCategory
  test typo maintainability style docs naming general : IssueCategory

-- `category.value`
abbrev pub value : IssueCategory → String
value bug = "bug"
value security = "security"
value design = "design"
value performance = "performance"
value testability = "testability"
value quality = "quality"
value documentation = "documentation"
value test = "test"
value typo = "typo"
value maintainability = "maintainability"
value style = "style"
value docs = "docs"
value naming = "naming"
value general = "general"

abbrev members : List IssueCategory
members =
    bug ∷ security ∷ design ∷ performance ∷ testability ∷ quality ∷ documentation ∷ test ∷ typo
    ∷ maintainability ∷ style ∷ docs ∷ naming ∷ general ∷ []

abbrev aliases : List (String × IssueCategory)
aliases =
    ("architecture", design)
    ∷ ("solid", design)
    ∷ ("doc", docs)
    ∷ ("tests", test)
    ∷ ("correctness", bug)
    ∷ ("safety", security)
    ∷ ("best-practices", quality)
    ∷ ("error-handling", bug)
    ∷ ("concurrency", bug)
    ∷ []

-- `cls(normalized)`, with GENERAL for any other text
by_value : String → List IssueCategory → IssueCategory
by_value s [] = general
by_value s (c ∷ cs) = if value c == s then c else by_value s cs

or_by_value : String → Option IssueCategory → IssueCategory
unfolding by_value
or_by_value s none = by_value s members
or_by_value s (some c) = c

unfoldable pub from_value : String → IssueCategory
unfolding or_by_value strip lower lookup
from_value text =
    let normalized = lower (strip text) in or_by_value normalized (lookup normalized aliases)

pub from_value-value : (c : IssueCategory) → from_value (value c) ≡ c
unfolding from_value
from_value-value bug = refl
from_value-value security = refl
from_value-value design = refl
from_value-value performance = refl
from_value-value testability = refl
from_value-value quality = refl
from_value-value documentation = refl
from_value-value test = refl
from_value-value typo = refl
from_value-value maintainability = refl
from_value-value style = refl
from_value-value docs = refl
from_value-value naming = refl
from_value-value general = refl

-- `category == IssueCategory.SECURITY`
abbrev pub is_security : IssueCategory → Bool
is_security security = true
is_security _ = false
