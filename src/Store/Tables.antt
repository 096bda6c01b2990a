-- ===== src/Store/Tables.antt =====
-- The tables of adapters/postgres_review_schema.py and the parent budget of domain/review_budget.py.
-- A document is the session that its JSON decodes to.
use nokinc_factory.Prelude.{
  ℕ, Bool, ◌&&◌, List, [], ◌∷◌, Option, ◌==◌, nat_eq, ℕ_discrete, Eq, eq_of_discrete,
}
use nokinc_factory.Review.Artifact.{Identifier, Digest, Moment, ReviewScope, scope_eq}
use nokinc_factory.Review.Session.{BudgetState, ReviewSeed, ReviewSession}
use nokinc_factory.Review.Persistence.{TransitionKind}

pub record ParentBudget : Type 0 where
  pub tenant_id : Identifier
  pub work_item_id : Identifier
  pub budget_id : Identifier
  pub max_invocations : ℕ
  pub max_repairs : ℕ
  pub max_tokens : ℕ
  pub max_cost_microusd : ℕ
  pub expires_at : Moment

unfoldable pub ParentBudget-discrete : Discrete ParentBudget
ParentBudget-discrete = hlevel ℕ_discrete

instance abbrev pub parent_eq : Eq ParentBudget
parent_eq = eq_of_discrete ParentBudget-discrete

-- `COUNTERS`.
pub data Counter : Type 0 where
  invocations repairs tokens_spent cost_microusd_spent tokens_reserved : Counter
  cost_microusd_reserved : Counter

abbrev pub counters : List Counter
counters =
    invocations ∷ repairs ∷ tokens_spent ∷ cost_microusd_spent ∷ tokens_reserved
    ∷ cost_microusd_reserved ∷ []

-- `getattr(budget, key)`.
abbrev pub read : BudgetState → Counter → ℕ
read b Counter.invocations = b.invocations
read b Counter.repairs = b.repairs
read b Counter.tokens_spent = b.tokens_spent
read b Counter.cost_microusd_spent = b.cost_microusd_spent
read b Counter.tokens_reserved = b.tokens_reserved
read b Counter.cost_microusd_reserved = b.cost_microusd_reserved

pub record BudgetRow : Type 0 where
  pub limits : ParentBudget
  pub usage : Counter → ℕ

pub record RegistrationRow : Type 0 where
  pub scope : ReviewScope
  pub budget_id : Identifier
  pub seed_digest : Digest

pub record SessionRow : Type 0 where
  pub scope : ReviewScope
  pub document : ReviewSession
  pub digest : Digest
  pub sequence : ℕ
  pub format_version : ℕ

pub record EventRow : Type 0 where
  pub scope : ReviewScope
  pub sequence : ℕ
  pub kind : TransitionKind
  pub subject_id : Identifier
  pub before_digest : Option Digest
  pub after_digest : Digest
  pub document : ReviewSession
  pub invocation_id : Option Identifier
  pub provider : Option Identifier
  pub execution_id : Option Identifier

pub record ReviewTables : Type 0 where
  pub budgets : List BudgetRow
  pub registrations : List RegistrationRow
  pub sessions : List SessionRow
  pub events : List EventRow

pub record ReviewStoreGrant : Type 0 where
  pub tenant_id : Identifier
  pub subject_id : Identifier

-- `ReviewStoreDenied`, a `ValueError` of a validation, and a query for one row that found none.
pub data StoreFault : Type 0 where
  review_store_denied value_error no_result_found : StoreFault

-- The primary key of a budget.
abbrev pub is_budget : Identifier → Identifier → BudgetRow → Bool
is_budget tenant budget b = b.limits.tenant_id == tenant && b.limits.budget_id == budget

-- The work item of a budget, which no two budgets share.
abbrev pub is_parent : Identifier → Identifier → BudgetRow → Bool
is_parent tenant item b = b.limits.tenant_id == tenant && b.limits.work_item_id == item

abbrev pub is_unit : ReviewScope → SessionRow → Bool
is_unit scope r = r.scope == scope

-- What the store takes from outside: the length of a document's JSON and the digest of a seed.
pub record Encodings : Type 0 where
  pub size : ReviewSession → ℕ
  pub seed : ReviewSeed → Digest
