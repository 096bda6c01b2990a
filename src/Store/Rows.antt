-- ===== src/Store/Rows.antt =====
-- What the operations of adapters/postgres_review_store.py do to the rows of the tables: the check of a
-- unit's tip, the counters of the parent budget and the writes.
use nokinc_factory.Prelude.{
  ℕ, ◌+◌, ◌-◌, ◌*◌, Bool, true, false, not, ◌&&◌, ◌||◌, List, [], ◌∷◌, ◌++◌, Option, none, some,
  last?, keep, any, all, leb, ltb, ◌==◌, nat_eq, option_eq, if◌then◌else◌, Result, ok, err, require,
  ◌>>◌,
}
use nokinc_factory.Review.Artifact.{Identifier, Moment, ReviewScope, scope_eq}
use nokinc_factory.Review.Session.{
  BudgetState, Invocation, InvocationReceipt, Completion, ReviewAttempt, ReviewSession, session_eq,
}
use nokinc_factory.Review.Rules.{Checked}
use nokinc_factory.Review.Reducer.{no_budget}
use nokinc_factory.Review.Persistence.{TransitionKind, transition_eq, last_completion}
use nokinc_factory.Store.Tables.{
  ParentBudget, Counter, counters, read, BudgetRow, RegistrationRow, SessionRow, EventRow,
  StoreFault, is_unit,
}

abbrev pub max_session_bytes : ℕ
max_session_bytes = 4 * 1024 * 1024

-- A validation that fails raises a `ValueError`.
abbrev pub raised {ℓ} : {A : Type ℓ} → Checked A → Result StoreFault A
raised (ok a) = ok a
raised (err e) = err StoreFault.value_error

abbrev pub deny_unless : Bool → Result StoreFault (Unit {0})
deny_unless c = require c StoreFault.review_store_denied

-- `.one()`.
abbrev pub one {ℓ} : {A : Type ℓ} → Option A → Result StoreFault A
one none = err StoreFault.no_result_found
one (some a) = ok a

-- `_registration`.
abbrev pub registered : Option RegistrationRow → Result StoreFault RegistrationRow
registered none = err StoreFault.review_store_denied
registered (some r) = ok r

abbrev pub unit_events : ReviewScope → List EventRow → List EventRow
unit_events scope = keep (λ (e : EventRow). e.scope == scope)

-- The event of the highest sequence; of a table that only appends it is the last.
unfoldable pub highest : List EventRow → Option EventRow
highest [] = none
highest (e ∷ es) = elim (highest es) [
  | none ↦ some e
  | some f ↦ some (if ltb f.sequence e.sequence then e else f)
]

-- `_check_tip`.
unfoldable pub check_tip : Option EventRow → Option SessionRow → Result StoreFault (Unit {0})
check_tip none none = ok tt
check_tip (some tip) (some row) =
    deny_unless (
      row.sequence == tip.sequence
      && row.digest == tip.after_digest
      && row.document == tip.document)
check_tip none (some row) = err StoreFault.review_store_denied
check_tip (some tip) none = err StoreFault.review_store_denied

abbrev pub budget_of : Option ReviewSession → BudgetState
budget_of none = no_budget
budget_of (some s) = s.state.budget

-- The deadline and the parent's ceilings, for a reservation; `now` is the database's clock.
unfoldable pub within_limits : ParentBudget → (Counter → ℕ) → Option Invocation → Moment → Bool
within_limits limits values none now = false
within_limits limits values (some call) now =
    let deadline = call.started_at + call.reservation.seconds * 1000000 in
    leb call.started_at now
    && ltb now deadline
    && leb deadline limits.expires_at
    && ltb now limits.expires_at
    && leb (values Counter.invocations) limits.max_invocations
    && leb (values Counter.repairs) limits.max_repairs
    && leb (values Counter.tokens_spent + values Counter.tokens_reserved) limits.max_tokens
    && leb (values Counter.cost_microusd_spent + values Counter.cost_microusd_reserved)
        limits.max_cost_microusd

abbrev pub is_reserve : TransitionKind → Bool
is_reserve TransitionKind.reserve = true
is_reserve _ = false

abbrev pub is_create : TransitionKind → Bool
is_create TransitionKind.create = true
is_create _ = false

-- What a budget's counters become: a negative one is refused before the subtraction is made.
abbrev pub next_usage : (Counter → ℕ) → BudgetState → BudgetState → Counter → ℕ
next_usage usage old new key = usage key + read new key - read old key

-- `_counters`.
unfoldable pub next_counters :
    Moment
    → BudgetRow
    → BudgetState
    → ReviewSession
    → TransitionKind
    → Result StoreFault (Counter → ℕ)
unfolding within_limits
next_counters now parent old updated kind =
    let new = updated.state.budget in
    let values = next_usage parent.usage old new in
    do
      deny_unless (all (λ key. leb (read old key) (parent.usage key + read new key)) counters)
      deny_unless
          (not (is_reserve kind) || within_limits parent.limits values updated.state.pending now)
      ok values

unfoldable pub set_usage : (BudgetRow → Bool) → (Counter → ℕ) → List BudgetRow → List BudgetRow
set_usage p values [] = []
set_usage p values (b ∷ bs) =
    (if p b then record b { usage = values } else b) ∷ set_usage p values bs

unfoldable pub set_session : ReviewScope → SessionRow → List SessionRow → List SessionRow
set_session scope row [] = []
set_session scope row (r ∷ rs) = (if is_unit scope r then row else r) ∷ set_session scope row rs

-- The insert or the update of the unit's row.
abbrev pub put_session : Option SessionRow → SessionRow → List SessionRow → List SessionRow
put_session none row rows = rows ++ row ∷ []
put_session (some old) row rows = set_session row.scope row rows

abbrev pub next_sequence : Option SessionRow → ℕ
next_sequence none = 1
next_sequence (some row) = row.sequence + 1

abbrev pub receipt_of : Option Completion → Option InvocationReceipt
receipt_of none = none
receipt_of (some c) = c.receipt

abbrev pub last_receipt : ReviewSession → Option InvocationReceipt
last_receipt s = receipt_of (last_completion (last? s.attempts))

abbrev pub reserved_call : TransitionKind → Option ReviewAttempt → Option Identifier
reserved_call TransitionKind.reserve (some a) = some a.invocation.invocation_id
reserved_call _ _ = none

abbrev pub executed_by : TransitionKind → Option InvocationReceipt → Option Identifier
executed_by TransitionKind.complete (some proof) = some proof.actual_model.provider
executed_by _ _ = none

abbrev pub executed_as : TransitionKind → Option InvocationReceipt → Option Identifier
executed_as TransitionKind.complete (some proof) = some proof.execution_id
executed_as _ _ = none

-- The two unique constraints of the events; columns without a value do not collide.
abbrev pub same_value : Option ℕ → Option ℕ → Bool
same_value (some a) (some b) = a == b
same_value none b = false
same_value (some a) none = false

abbrev pub collides : EventRow → EventRow → Bool
collides new e =
    same_value e.invocation_id new.invocation_id
    || same_value e.provider new.provider && same_value e.execution_id new.execution_id
    || e.scope == new.scope && e.sequence == new.sequence

-- An insert that breaks a unique constraint is an `IntegrityError`, which is denied.
unfoldable pub append_event : EventRow → List EventRow → Result StoreFault (List EventRow)
append_event new events = do deny_unless (not (any (collides new) events)); ok (events ++ new ∷ [])
