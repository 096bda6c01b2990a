-- ===== src/Store/Admin.antt =====
-- The administrator's operations, adapters/postgres_review_admin.py, each one transaction.
use nokinc_factory.Prelude.{
  Bool, not, ltb, require, ◌&&◌, [], ◌∷◌, ◌++◌, Option, none, some, first?, any, ◌==◌, nat_eq,
  if◌then◌else◌, Result, ok, err, ◌>>◌,
}
use nokinc_factory.Review.Artifact.{Identifier, scope_eq}
use nokinc_factory.Review.Session.{ReviewSeed}
use nokinc_factory.Review.Digests.{Digests}
use nokinc_factory.Review.Validators.{seed_valid}
use nokinc_factory.Review.Rules.{ReviewError, validate_seed}
use nokinc_factory.Store.Tables.{
  ParentBudget, parent_eq, BudgetRow, RegistrationRow, ReviewTables, StoreFault, is_budget,
  is_parent, Encodings,
}
use nokinc_factory.Store.Rows.{raised, deny_unless}

-- The counters of a new row: the columns' default.
abbrev pub fresh_row : ParentBudget → BudgetRow
fresh_row parent = record { limits = parent; usage = λ key. 0 }

-- `provision`, by the budget that the work item has; an insert that breaks the primary key is denied.
unfoldable pub provision_as :
    ParentBudget → Option BudgetRow → ReviewTables → Result StoreFault ReviewTables
provision_as parent (some old) tables = do deny_unless (old.limits == parent); ok tables
provision_as parent none tables = do
  deny_unless (not (any (is_budget parent.tenant_id parent.budget_id) tables.budgets))
  ok (record tables { budgets = tables.budgets ++ fresh_row parent ∷ [] })

-- The limits of a `ParentBudget` are positive.
abbrev pub parent_valid : ParentBudget → Bool
parent_valid p = ltb 0 p.max_invocations && ltb 0 p.max_tokens && ltb 0 p.max_cost_microusd

unfoldable pub provision : ParentBudget → ReviewTables → Result StoreFault ReviewTables
unfolding provision_as
provision parent tables = do
  require (parent_valid parent) StoreFault.value_error
  provision_as parent (first? (is_parent parent.tenant_id parent.work_item_id) tables.budgets)
      tables

module _ (d : Digests) (encodings : Encodings) where
  unfoldable pub register_as :
      ReviewSeed
      → Identifier
      → Option RegistrationRow
      → ReviewTables
      → Result StoreFault ReviewTables
  register_as seed budget (some old) tables = do
    deny_unless (old.seed_digest == encodings.seed seed && old.budget_id == budget)
    ok tables
  register_as seed budget none tables = ok (record tables {
    registrations =
        tables.registrations
        ++ record { scope = seed.scope; budget_id = budget; seed_digest = encodings.seed seed }
          ∷ [];
  })

  unfoldable pub register : ReviewSeed → Identifier → ReviewTables → Result StoreFault ReviewTables
  unfolding register_as seed_valid validate_seed
  register seed parent_budget_id tables = do
    raised (if seed_valid seed then validate_seed d seed else err ReviewError.invalid)
    deny_unless (
        any
          (λ (b : BudgetRow).
            is_parent seed.scope.tenant_id seed.scope.work_item_id b
            && b.limits.budget_id == parent_budget_id)
          tables.budgets)
    register_as seed parent_budget_id
        (first? (λ (r : RegistrationRow). r.scope == seed.scope) tables.registrations) tables
