-- ===== src/Store/Reached.antt =====
-- The tables that the operations of adapters/postgres_review_admin.py and
-- adapters/postgres_review_store.py lead to, in whatever order transactions of whatever grants commit.
use nokinc_factory.Prelude.{
  ◌≡◌, sym, ap, Bool, ◌&&◌, [], Option, none, some, first?, any, ◌==◌, nat_eq, option_eq,
  if◌then◌else◌, ok, err, >>=-eq-ok, >>-eq-ok, ok_injective,
}
use nokinc_factory.Review.Artifact.{Identifier, Digest, Moment, ReviewScope, scope_eq}
use nokinc_factory.Review.Session.{ReviewSession, ReviewSeed}
use nokinc_factory.Review.Digests.{Digests}
use nokinc_factory.Review.Rules.{ReviewError, validate_seed}
use nokinc_factory.Review.Validators.{seed_valid}
use nokinc_factory.Store.Tables.{
  ParentBudget, BudgetRow, RegistrationRow, ReviewTables, ReviewStoreGrant, is_parent, Encodings,
}
use nokinc_factory.Store.Swap.{compare_and_reserve}
use nokinc_factory.Store.Rows.{raised, deny_unless}
use nokinc_factory.Store.Admin.{provision, register_as, register}
use nokinc_factory.Store.Balance.{IsBalanced, compare_and_reserve-IsBalanced}
use nokinc_factory.Store.Setup.{provision-IsBalanced}

-- The tables of a new schema.
abbrev pub no_rows : ReviewTables
no_rows = record { budgets = []; registrations = []; sessions = []; events = [] }

module _ (d : Digests) (encodings : Encodings) where
  pub data Reached : ReviewTables → Type 0 where
    created : Reached no_rows
    provisioned :
        (parent : ParentBudget) (before after : ReviewTables)
        → Reached before
        → provision parent before ≡ ok after
        → Reached after
    registered :
        (seed : ReviewSeed) (budget : Identifier) (before after : ReviewTables)
        → Reached before
        → register d encodings seed budget before ≡ ok after
        → Reached after
    answered :
        (grant : ReviewStoreGrant) (scope : ReviewScope) (expected : Option Digest)
        (given : ReviewSession) (budget : Identifier) (now : Moment) (before after : ReviewTables)
        (answer : Bool)
        → Reached before
        → compare_and_reserve d encodings grant scope expected given budget now before
          ≡ ok (answer, after)
        → Reached after

  register_as-keeps :
      (seed : ReviewSeed) (budget : Identifier) (found : Option RegistrationRow)
      (before after : ReviewTables)
      → register_as d encodings seed budget found before ≡ ok after
      → (after.budgets ≡ before.budgets) × (after.sessions ≡ before.sessions)
  unfolding register_as
  register_as-keeps seed budget (some old) before after h =
      let (_, same) =
        >>-eq-ok (deny_unless (old.seed_digest == encodings.seed seed && old.budget_id == budget)) _
          h in
      let is = ok_injective same in
      (
        sym (ap (λ (t : ReviewTables). t.budgets) is),
        sym (ap (λ (t : ReviewTables). t.sessions) is),
      )
  register_as-keeps seed budget none before after h =
      let is = ok_injective h in
      (
        sym (ap (λ (t : ReviewTables). t.budgets) is),
        sym (ap (λ (t : ReviewTables). t.sessions) is),
      )

  register-IsBalanced :
      (seed : ReviewSeed) (budget : Identifier) (before after : ReviewTables)
      → IsBalanced before
      → register d encodings seed budget before ≡ ok after
      → IsBalanced after
  unfolding register
  register-IsBalanced seed budget before after h r =
      let (_, _, r1) =
        >>=-eq-ok
          (raised (if seed_valid seed then validate_seed d seed else err ReviewError.invalid)) _
          r in
      let (_, r2) =
        >>-eq-ok
          (deny_unless (
            any
              (λ (b : BudgetRow).
                is_parent seed.scope.tenant_id seed.scope.work_item_id b
                && b.limits.budget_id == budget)
              before.budgets))
          _ r1 in
      let (b, s) =
        register_as-keeps seed budget
          (first? (λ (r : RegistrationRow). r.scope == seed.scope) before.registrations) before
          after r2 in
      record {
        sole = rw b h.sole;
        separated = rw s h.separated;
        backed = rw (b, s) h.backed;
        balances = λ key. rw (b, s) (h.balances key);
      }

  -- In every tables that provisions, registrations and answered compare-and-reserve calls lead to
  -- from empty ones, no two budgets share a key or a work item, no two sessions are of one unit,
  -- every session's work item has a budget, and each counter of each budget is the sum of that
  -- counter over the sessions of its work item.
  pub Reached-IsBalanced : (tables : ReviewTables) → Reached tables → IsBalanced tables
  Reached-IsBalanced tables created = record {
    sole = tt;
    separated = tt;
    backed = tt;
    balances = λ key. tt;
  }
  Reached-IsBalanced tables (provisioned parent before after r e) =
      provision-IsBalanced parent before after (Reached-IsBalanced before r) e
  Reached-IsBalanced tables (registered seed budget before after r e) =
      register-IsBalanced seed budget before after (Reached-IsBalanced before r) e
  Reached-IsBalanced tables
        (answered grant scope expected given budget now before after answer r e) =
      compare_and_reserve-IsBalanced d encodings grant scope expected given budget now before after
        answer (Reached-IsBalanced before r) e
