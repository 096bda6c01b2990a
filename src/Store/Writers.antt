-- ===== src/Store/Writers.antt =====
-- Two writers of one unit, and the ceilings of the parent, in adapters/postgres_review_store.py.
use nokinc_factory.Prelude.{
  ◌≡◌, ◌≢◌, refl, sym, ap, subst, ◌∙◌, ℕ, ◌+◌, ◌≤◌, Bool, true, false, not, ◌||◌, List, [], ◌∷◌,
  Option, none, some, first?, last?, last?-append, all, leb, Bool-cases, inl, inr, nat_eq,
  option_eq, arith, ok, >>-eq-ok, require-eq-ok, ok_injective, All,
}
use nokinc_factory.Review.Artifact.{Identifier, Digest, Moment, ReviewScope, scope_eq}
use nokinc_factory.Review.Session.{Invocation, ReviewSession, BudgetState}
use nokinc_factory.Review.Digests.{Digests}
use nokinc_factory.Review.Persistence.{TransitionKind}
use nokinc_factory.Store.Tables.{
  ParentBudget, Counter, counters, read, BudgetRow, SessionRow, EventRow, ReviewTables,
  ReviewStoreGrant, is_budget, is_parent, is_unit, Encodings,
}
use nokinc_factory.Store.Swap.{row_of, digest_of, compare_and_reserve}
use nokinc_factory.Store.Rows.{
  deny_unless, is_reserve, within_limits, budget_of, next_usage, next_counters, set_session,
  put_session, next_sequence,
}
use nokinc_factory.Store.Sums.{Sole, Sole-Picks, Picks}
use nokinc_factory.Store.Accounts.{usage_set, set_usage-All}
use nokinc_factory.Store.Commit.{Stored, compare_and_reserve-IsAnswer}

-- The row that was written is the row that is found.
pub first?-put_session :
    (new : SessionRow) (row : Option SessionRow) (rows : List SessionRow)
    → first? (is_unit new.scope) rows ≡ row
    → first? (is_unit new.scope) (put_session row new rows) ≡ some new
unfolding set_session
first?-put_session new none [] e = ground (arith, scope_eq.beq_iff new.scope new.scope)
first?-put_session new none (r ∷ rs) e = ground (arith, first?-put_session new none rs)
first?-put_session new (some old) [] e = cc
first?-put_session new (some old) (r ∷ rs) e = elim (Bool-cases (is_unit new.scope r)) [
  | inl on ↦ rw on (ground (arith, scope_eq.beq_iff new.scope new.scope))
  | inr off ↦ rw off (rw off (first?-put_session new (some old) rs (ground arith)))
]

-- The ceilings of a budget.
abbrev pub IsWithin : ParentBudget → (Counter → ℕ) → Type 0
IsWithin limits usage =
    (usage Counter.invocations ≤ limits.max_invocations)
    × (usage Counter.repairs ≤ limits.max_repairs)
    × (usage Counter.tokens_spent + usage Counter.tokens_reserved ≤ limits.max_tokens)
    × (usage Counter.cost_microusd_spent + usage Counter.cost_microusd_reserved
        ≤ limits.max_cost_microusd)

within_limits-IsWithin :
    (limits : ParentBudget) (values : Counter → ℕ) (call : Option Invocation) (now : Moment)
    → within_limits limits values call now ≡ true
    → IsWithin limits values
unfolding within_limits
within_limits-IsWithin limits values none now h = cc
within_limits-IsWithin limits values (some call) now h =
    (ground arith, ground arith, ground arith, ground arith)

next_counters-IsWithin :
    (now : Moment) (parent : BudgetRow) (old : BudgetState) (updated : ReviewSession)
    (kind : TransitionKind) (values : Counter → ℕ)
    → next_counters now parent old updated kind ≡ ok values
    → kind ≡ TransitionKind.reserve
    → IsWithin parent.limits values
unfolding next_counters
next_counters-IsWithin now parent old updated kind values h is =
    let new = updated.state.budget in
    let usage = next_usage parent.usage old new in
    let (_, h1) =
      >>-eq-ok
        (deny_unless (all (λ key. leb (read old key) (parent.usage key + read new key)) counters)) _
        h in
    let (passed, h2) =
      >>-eq-ok
        (deny_unless
          (not (is_reserve kind) || within_limits parent.limits usage updated.state.pending now))
        _ h1 in
    let holds =
      subst
        (λ (k : TransitionKind).
          (not (is_reserve k) || within_limits parent.limits usage updated.state.pending now)
          ≡ true)
        is (require-eq-ok _ _ passed) in
    subst (IsWithin parent.limits) (ok_injective h2)
      (within_limits-IsWithin parent.limits usage updated.state.pending now holds)

-- The parent's row after it was written is within the ceilings, and no other is of the work item.
written-IsWithin :
    (scope : ReviewScope) (parent : BudgetRow) (values : Counter → ℕ)
    → IsWithin parent.limits values
    → (b : BudgetRow) → Picks scope.tenant_id scope.work_item_id parent b
    → is_parent scope.tenant_id scope.work_item_id
        (usage_set (is_budget scope.tenant_id parent.limits.budget_id) values b)
      ≡ true
    → IsWithin
        (usage_set (is_budget scope.tenant_id parent.limits.budget_id) values b).limits
        (usage_set (is_budget scope.tenant_id parent.limits.budget_id) values b).usage
written-IsWithin scope parent values within b picks =
    elim (Bool-cases (is_budget scope.tenant_id parent.limits.budget_id b)) [
      | inl on ↦
          rw on
            (λ there. subst (λ (p : BudgetRow). IsWithin p.limits values) (sym (picks.0 on)) within)
      | inr off ↦ rw off (λ there. absurd (let away = picks.1 off in cc))
    ]

abbrev kind_of : Option EventRow → Option TransitionKind
kind_of none = none
kind_of (some e) = some e.kind

module _ (d : Digests) (encodings : Encodings) where
  -- After a compare-and-reserve answered true, another one of the same unit with the same expected
  -- digest, which is not the digest of the session that was written, answers false and changes
  -- nothing if it answers, whatever its grant, session, budget and time.
  pub compare_and_reserve_once :
      (grant other : ReviewStoreGrant) (scope : ReviewScope) (expected : Option Digest)
      (given next : ReviewSession) (budget another : Identifier) (now later : Moment)
      (before between after : ReviewTables) (answer : Bool)
      → expected ≢ some (d.session given)
      → compare_and_reserve d encodings grant scope expected given budget now before
        ≡ ok (true, between)
      → compare_and_reserve d encodings other scope expected next another later between
        ≡ ok (answer, after)
      → (answer ≡ false) × (after ≡ between)
  compare_and_reserve_once grant other scope expected given next budget another now later before
        between after answer fresh e f =
      let a =
        compare_and_reserve-IsAnswer d encodings grant scope expected given budget now before
          between true e in
      let b =
        compare_and_reserve-IsAnswer d encodings other scope expected next another later between
          after answer f in
      elim a.outcome [
        | inl (stale, _) ↦ cc
        | inr (_, _, c) ↦ elim b.outcome [
          | inl unchanged ↦ unchanged
          | inr (_, same, _) ↦
              let row = first? (is_unit scope) before.sessions in
              let new = row_of d encodings scope given (next_sequence row) in
              let there : first? (is_unit scope) between.sessions ≡ some new =
                rw c.sessions (first?-put_session new row before.sessions refl) in
              absurd (
                fresh (
                  same
                  ∙ ap (digest_of d encodings) (
                      stored_as b.current new
                        (subst (λ (r : Option SessionRow). Stored r b.current) there b.stored))))
        ]
      ]
    where
      stored_as :
          (current : Option ReviewSession) (row : SessionRow)
          → Stored (some row) current
          → current ≡ some row.document
      stored_as none row h = absurd h
      stored_as (some s) row h = ap some (sym h)

  -- When no two budgets share a key or a work item, a compare-and-reserve answers true and the
  -- last event is then a reservation, every budget of the unit's work item has calls, repairs,
  -- tokens spent and reserved, and cost spent and reserved within its ceilings.
  pub compare_and_reserve-IsWithin :
      (grant : ReviewStoreGrant) (scope : ReviewScope) (expected : Option Digest)
      (given : ReviewSession) (budget : Identifier) (now : Moment) (before after : ReviewTables)
      (event : EventRow)
      → Sole before.budgets
      → compare_and_reserve d encodings grant scope expected given budget now before
        ≡ ok (true, after)
      → last? after.events ≡ some event
      → event.kind ≡ TransitionKind.reserve
      → All
          (λ (b : BudgetRow).
            is_parent scope.tenant_id scope.work_item_id b ≡ true → IsWithin b.limits b.usage)
          after.budgets
  compare_and_reserve-IsWithin grant scope expected given budget now before after event sole e tip
        kind =
      let a =
        compare_and_reserve-IsAnswer d encodings grant scope expected given budget now before after
          true e in
      elim a.outcome [
        | inl (stale, _) ↦ cc
        | inr (_, _, c) ↦
            let last =
              sym (ap (last? {A = EventRow}) c.events ∙ last?-append before.events _) ∙ tip in
            let reserved =
              subst (λ (o : Option EventRow). kind_of o ≡ some TransitionKind.reserve) (sym last)
                (ap some kind) in
            let within =
              next_counters-IsWithin now a.parent (budget_of a.current) given c.kind c.values
                c.counted (ground arith) in
            rw c.budgets (
              set_usage-All _
                (λ (b : BudgetRow).
                  is_parent scope.tenant_id scope.work_item_id b ≡ true → IsWithin b.limits b.usage)
                (is_budget scope.tenant_id a.parent.limits.budget_id) c.values
                (written-IsWithin scope a.parent c.values within) before.budgets
                (Sole-Picks scope.tenant_id scope.work_item_id budget a.parent before.budgets sole
                  a.found))
      ]
