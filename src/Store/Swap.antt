-- ===== src/Store/Swap.antt =====
-- The operations of adapters/postgres_review_store.py on the tables, each one transaction: an error
-- leaves the tables as they were.
use nokinc_factory.Prelude.{
  ℕ, ◌+◌, ◌/◌, Bool, true, false, not, ◌&&◌, ◌||◌, List, [], ◌∷◌, Option, none, some, first?, last?,
  leb, ◌==◌, nat_eq, option_eq, if◌then◌else◌, Result, ok, err, ◌>>=◌, ◌>>◌,
}
use nokinc_factory.Review.Artifact.{Identifier, Digest, Moment, ReviewScope, scope_eq}
use nokinc_factory.Review.Session.{ReviewSession, session_eq}
use nokinc_factory.Review.Digests.{Digests}
use nokinc_factory.Review.Policy.{validate_session}
use nokinc_factory.Review.Persistence.{TransitionKind, transition_eq, validate_extension}
use nokinc_factory.Store.Tables.{
  Counter, BudgetRow, RegistrationRow, SessionRow, EventRow, ReviewTables, ReviewStoreGrant,
  StoreFault, is_budget, is_parent, is_unit, Encodings,
}
use nokinc_factory.Store.Rows.{
  append_event, budget_of, check_tip, deny_unless, executed_as, executed_by, highest, is_create,
  is_reserve, last_receipt, max_session_bytes, next_counters, next_sequence, one, put_session,
  raised, registered, reserved_call, set_usage, unit_events,
}

module _ (d : Digests) (encodings : Encodings) where
  -- `_decode`.
  unfoldable pub decode_row : SessionRow → Result StoreFault ReviewSession
  decode_row row = do
    deny_unless (row.format_version == 1 && leb (encodings.size row.document) max_session_bytes)
    session ← raised (validate_session d row.document)
    deny_unless (d.session session == row.digest)
    ok session

  unfoldable pub decode_present : Option SessionRow → Result StoreFault (Option ReviewSession)
  unfolding decode_row
  decode_present none = ok none
  decode_present (some row) = do session ← decode_row row; ok (some session)

  abbrev pub digest_of : Option ReviewSession → Option Digest
  digest_of none = none
  digest_of (some s) = some (d.session s)

  -- The stored seed must be the registered one.
  abbrev pub is_authorized : ReviewScope → RegistrationRow → Option ReviewSession → Bool
  is_authorized scope registration none = true
  is_authorized scope registration (some s) =
      s.seed.scope == scope && encodings.seed s.seed == registration.seed_digest

  abbrev pub row_of : ReviewScope → ReviewSession → ℕ → SessionRow
  row_of scope updated sequence = record {
    scope = scope;
    document = updated;
    digest = d.session updated;
    sequence = sequence;
    format_version = 1;
  }

  abbrev pub event_of :
      ReviewStoreGrant
      → ReviewScope
      → Option ReviewSession
      → ReviewSession
      → TransitionKind
      → ℕ
      → EventRow
  event_of grant scope current updated kind sequence = record {
    scope = scope;
    sequence = sequence;
    kind = kind;
    subject_id = grant.subject_id;
    before_digest = digest_of current;
    after_digest = d.session updated;
    document = updated;
    invocation_id = reserved_call kind (last? updated.attempts);
    provider = executed_by kind (last_receipt updated);
    execution_id = executed_as kind (last_receipt updated);
  }

  -- The writes, once the compare has succeeded.
  unfoldable pub commit :
      ReviewStoreGrant
      → ReviewScope
      → ReviewSession
      → Moment
      → BudgetRow
      → Option SessionRow
      → Option ReviewSession
      → ReviewTables
      → Result StoreFault (Bool × ReviewTables)
  unfolding next_counters append_event
  commit grant scope updated now parent row current tables = do
    kind ← raised (validate_extension d current updated)
    deny_unless (
        not (is_create kind || is_reserve kind)
        || leb (encodings.size updated) (max_session_bytes / 2))
    values ← next_counters now parent (budget_of current) updated kind
    events ←
        append_event (event_of grant scope current updated kind (next_sequence row)) tables.events
    ok (
      true,
      record tables {
        budgets =
            set_usage (is_budget scope.tenant_id parent.limits.budget_id) values tables.budgets;
        sessions = put_session row (row_of scope updated (next_sequence row)) tables.sessions;
        events = events;
      },
    )

  abbrev pub is_current : Option ReviewSession → ReviewSession → Bool
  is_current none updated = false
  is_current (some s) updated = s == updated

  -- A replay and a stale digest change nothing.
  unfoldable pub compare :
      ReviewStoreGrant
      → ReviewScope
      → Option Digest
      → ReviewSession
      → Moment
      → BudgetRow
      → Option SessionRow
      → Option ReviewSession
      → ReviewTables
      → Result StoreFault (Bool × ReviewTables)
  unfolding commit
  compare grant scope expected updated now parent row current tables =
      if is_current current updated || not (expected == digest_of current)
      then ok (false, tables)
      else commit grant scope updated now parent row current tables

  unfoldable pub compare_and_reserve :
      ReviewStoreGrant
      → ReviewScope
      → Option Digest
      → ReviewSession
      → Identifier
      → Moment
      → ReviewTables
      → Result StoreFault (Bool × ReviewTables)
  unfolding check_tip decode_present compare highest
  compare_and_reserve grant scope expected given parent_budget_id now tables = do
    updated ← raised (validate_session d given)
    deny_unless (updated.seed.scope == scope)
    deny_unless (leb (encodings.size updated) max_session_bytes)
    deny_unless (scope.tenant_id == grant.tenant_id)
    registration ←
        registered (first? (λ (r : RegistrationRow). r.scope == scope) tables.registrations)
    deny_unless (
        registration.budget_id == parent_budget_id
        && registration.seed_digest == encodings.seed updated.seed)
    parent ← one (
        first?
          (λ (b : BudgetRow).
            is_parent scope.tenant_id scope.work_item_id b
            && b.limits.budget_id == parent_budget_id)
          tables.budgets)
    check_tip (highest (unit_events scope tables.events)) (first? (is_unit scope) tables.sessions)
    current ← decode_present (first? (is_unit scope) tables.sessions)
    compare grant scope expected updated now parent (first? (is_unit scope) tables.sessions) current
        tables

  unfoldable pub load_current :
      ReviewStoreGrant → ReviewScope → ReviewTables → Result StoreFault (Option ReviewSession)
  unfolding check_tip decode_present highest
  load_current grant scope tables = do
    deny_unless (scope.tenant_id == grant.tenant_id)
    registration ←
        registered (first? (λ (r : RegistrationRow). r.scope == scope) tables.registrations)
    parent ← one (first? (is_budget scope.tenant_id registration.budget_id) tables.budgets)
    check_tip (highest (unit_events scope tables.events)) (first? (is_unit scope) tables.sessions)
    current ← decode_present (first? (is_unit scope) tables.sessions)
    deny_unless (is_authorized scope registration current)
    ok current

  -- The events of a unit are its sessions, each the extension of the one before; `done` is the number
  -- of those read.
  unfoldable pub read_history :
      ℕ → Option ReviewSession → List EventRow → Result StoreFault (List ReviewSession)
  read_history done previous [] = ok []
  read_history done previous (e ∷ es) =
      let rest = read_history (done + 1) (some e.document) es in
      do
        item ← raised (validate_session d e.document)
        deny_unless (
            e.sequence == done + 1
            && e.after_digest == d.session item
            && e.before_digest == digest_of previous)
        kind ← raised (validate_extension d previous item)
        deny_unless (e.kind == kind)
        items ← rest
        ok (item ∷ items)

  unfoldable pub history :
      ReviewStoreGrant → ReviewScope → ReviewTables → Result StoreFault (List ReviewSession)
  unfolding read_history
  history grant scope tables = do
    deny_unless (scope.tenant_id == grant.tenant_id)
    registration ←
        registered (first? (λ (r : RegistrationRow). r.scope == scope) tables.registrations)
    read_history 0 none (unit_events scope tables.events)

-- `usage`, of the budget of the grant's tenant.
unfoldable pub usage :
    ReviewStoreGrant → Identifier → ReviewTables → Result StoreFault (Counter → ℕ)
usage grant parent_budget_id tables =
    elim (first? (is_budget grant.tenant_id parent_budget_id) tables.budgets) [
      | none ↦ err StoreFault.review_store_denied
      | some b ↦ ok b.usage
    ]
