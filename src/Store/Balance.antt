-- ===== src/Store/Balance.antt =====
-- The accounts of the parent budgets across the transactions of adapters/postgres_review_store.py and
-- adapters/postgres_review_admin.py.
use nokinc_factory.Prelude.{
  ◌≡◌, refl, sym, ap, subst, ◌∙◌, ℕ, ◌+◌, Bool, true, false, not, ◌||◌, List, [], ◌∷◌, Option, none,
  some, first?, first?-passes, any, all, leb, Bool-cases, inl, inr, nat_eq, arith, ok, >>-eq-ok,
  require-eq-ok, ok_injective, All, All-map, All-append,
}
use nokinc_factory.Review.Artifact.{Identifier, Digest, Moment, ReviewScope, scope_eq}
use nokinc_factory.Review.Session.{ReviewSession, BudgetState}
use nokinc_factory.Review.Digests.{Digests}
use nokinc_factory.Review.Reducer.{no_budget}
use nokinc_factory.Review.Persistence.{TransitionKind}
use nokinc_factory.Store.Tables.{
  Counter, counters, read, BudgetRow, SessionRow, ReviewTables, ReviewStoreGrant, is_budget,
  is_parent, is_unit, Encodings,
}
use nokinc_factory.Store.Swap.{row_of, compare_and_reserve}
use nokinc_factory.Store.Rows.{
  deny_unless, is_reserve, within_limits, budget_of, next_usage, next_counters, set_usage,
  set_session, put_session, next_sequence,
}
use nokinc_factory.Store.Sums.{
  is_of, share, total, total-append, total-set_session, Separated, Sole, Sole-Picks, Picks,
  is_parent_as,
}
use nokinc_factory.Store.Accounts.{
  first?-none, usage_set, set_usage-All, set_usage-Sole, any-set_usage, set_session-All,
  set_session-Separated, append-Separated,
}
use nokinc_factory.Store.Commit.{Stored, IsCommit, compare_and_reserve-IsAnswer}

-- Whether a counter of a budget is what the sessions of its work item add up to.
abbrev pub Balances : List SessionRow → Counter → BudgetRow → Type 0
Balances sessions key b = b.usage key ≡ total key b.limits.tenant_id b.limits.work_item_id sessions

-- Whether the work item of a scope has a budget.
abbrev pub Backed : List BudgetRow → ReviewScope → Type 0
Backed budgets s = any (is_parent s.tenant_id s.work_item_id) budgets ≡ true

pub record IsBalanced (tables : ReviewTables) : Type 0 where
  pub sole : Sole tables.budgets
  pub separated : Separated tables.sessions
  pub backed : All (λ (r : SessionRow). Backed tables.budgets r.scope) tables.sessions
  pub balances : (key : Counter) → All (Balances tables.sessions key) tables.budgets

-- Every counter is one of `COUNTERS`.
all-counters : (p : Counter → Bool) → all p counters ≡ true → (key : Counter) → p key ≡ true
all-counters p h key = ground arith

-- What a reservation counts: no counter falls below zero, and each is settled by the difference.
next_counters-settles :
    (now : Moment) (parent : BudgetRow) (old : BudgetState) (updated : ReviewSession)
    (kind : TransitionKind) (values : Counter → ℕ)
    → next_counters now parent old updated kind ≡ ok values
    → (key : Counter) → values key + read old key ≡ parent.usage key + read updated.state.budget key
unfolding next_counters
next_counters-settles now parent old updated kind values h key =
    let new = updated.state.budget in
    let usage = next_usage parent.usage old new in
    let (enough, h1) =
      >>-eq-ok
        (deny_unless (all (λ key. leb (read old key) (parent.usage key + read new key)) counters)) _
        h in
    let (_, h2) =
      >>-eq-ok
        (deny_unless
          (not (is_reserve kind) || within_limits parent.limits usage updated.state.pending now))
        _ h1 in
    let is = ap (λ (f : Counter → ℕ). f key) (ok_injective h2) in
    let le =
      all-counters (λ key. leb (read old key) (parent.usage key + read new key))
        (require-eq-ok _ _ enough) key in
    ground (arith, is)

-- A unit that has no session adds nothing.
share-no_budget :
    (key : Counter) (tenant item : Identifier) (s : ReviewScope)
    → share key tenant item s no_budget ≡ 0
share-no_budget key tenant item s = ground arith

-- What the sessions of a work item add up to after the unit's row is written.
total-put_session :
    (key : Counter) (tenant item : Identifier) (new : SessionRow) (row : Option SessionRow)
    (old : Option ReviewSession) (rows : List SessionRow)
    → Separated rows
    → first? (is_unit new.scope) rows ≡ row
    → Stored row old
    → total key tenant item (put_session row new rows)
        + share key tenant item new.scope (budget_of old)
      ≡ total key tenant item rows + share key tenant item new.scope new.document.state.budget
total-put_session key tenant item new none none rows h e s =
    omega (arith, total-append key tenant item new rows, share-no_budget key tenant item new.scope)
total-put_session key tenant item new none (some s) rows h e x = absurd x
total-put_session key tenant item new (some r) none rows h e x = absurd x
total-put_session key tenant item new (some r) (some s) rows h e same =
    subst
      (λ (s : ReviewSession).
        total key tenant item (set_session new.scope new rows)
          + share key tenant item new.scope s.state.budget
        ≡ total key tenant item rows + share key tenant item new.scope new.document.state.budget)
      same (total-set_session key tenant item new r rows h e)

-- A budget that balanced still does, the parent by its new usage and the others by the old.
settled :
    (key : Counter) (scope : ReviewScope) (budget : Identifier) (parent : BudgetRow)
    (values : Counter → ℕ) (old new : BudgetState) (before after : List SessionRow)
    → is_parent scope.tenant_id scope.work_item_id parent ≡ true
    → values key + read old key ≡ parent.usage key + read new key
    → ((tenant item : Identifier)
        → total key tenant item after + share key tenant item scope old
          ≡ total key tenant item before + share key tenant item scope new)
    → (b : BudgetRow) → Picks scope.tenant_id scope.work_item_id parent b × Balances before key b
    → Balances after key (usage_set (is_budget scope.tenant_id parent.limits.budget_id) values b)
settled key scope budget parent values old new before after own count sums b (picks, bal) =
    let sum = sums b.limits.tenant_id b.limits.work_item_id in
    elim (Bool-cases (is_budget scope.tenant_id parent.limits.budget_id b)) [
      | inl on ↦
          let same = picks.0 on in
          let usage = ap (λ (c : BudgetRow). c.usage key) same in
          let mine : is_of parent.limits.tenant_id parent.limits.work_item_id scope ≡ true =
            ground arith in
          let whose : is_of b.limits.tenant_id b.limits.work_item_id scope ≡ true =
            subst (λ (c : BudgetRow). is_of c.limits.tenant_id c.limits.work_item_id scope ≡ true)
              (sym same) mine in
          rw on (ground (arith, usage, whose))
      | inr off ↦
          let other = picks.1 off in
          let none : is_of b.limits.tenant_id b.limits.work_item_id scope ≡ false = ground arith in
          rw off (ground arith)
    ]

pub All-both {ℓ} :
    {A : Type ℓ} (P Q : A → Type 0) (xs : List A) → All P xs → All Q xs → All (λ x. P x × Q x) xs
All-both P Q [] h k = tt
All-both P Q (x ∷ xs) h k = ((h.0, k.0), All-both P Q xs h.1 k.1)

found-Backed :
    (scope : ReviewScope) (budget : Identifier) (parent : BudgetRow) (rows : List BudgetRow)
    → first? (is_parent_as scope.tenant_id scope.work_item_id budget) rows ≡ some parent
    → Backed rows scope
found-Backed scope budget parent [] e = cc
found-Backed scope budget parent (b ∷ bs) e = ground (arith, found-Backed scope budget parent bs)

-- The rows of the sessions after one is written.
put_session-Separated :
    (new : SessionRow) (row : Option SessionRow) (rows : List SessionRow)
    → first? (is_unit new.scope) rows ≡ row
    → Separated rows
    → Separated (put_session row new rows)
put_session-Separated new none rows e h =
    append-Separated new rows h (first?-none (is_unit new.scope) rows e)
put_session-Separated new (some r) rows e h = set_session-Separated new rows h

put_session-All :
    (P : ReviewScope → Type 0) (new : SessionRow) (row : Option SessionRow) (rows : List SessionRow)
    → P new.scope
    → All (λ (r : SessionRow). P r.scope) rows
    → All (λ (r : SessionRow). P r.scope) (put_session row new rows)
put_session-All P new none rows p h =
    All-append (λ (r : SessionRow). P r.scope) rows (new ∷ []) h (p, tt)
put_session-All P new (some r) rows p h = set_session-All P new rows h

module _ (d : Digests) (encodings : Encodings) where
  commit-IsBalanced :
      (grant : ReviewStoreGrant) (scope : ReviewScope) (budget : Identifier)
      (updated : ReviewSession) (now : Moment) (parent : BudgetRow) (current : Option ReviewSession)
      (before after : ReviewTables)
      → first? (is_parent_as scope.tenant_id scope.work_item_id budget) before.budgets ≡ some parent
      → Stored (first? (is_unit scope) before.sessions) current
      → IsCommit d encodings grant scope updated now parent
          (first? (is_unit scope) before.sessions)
          current
          before
          after
      → IsBalanced before
      → IsBalanced after
  commit-IsBalanced grant scope budget updated now parent current before after found stored c h =
      let row = first? (is_unit scope) before.sessions in
      let new = row_of d encodings scope updated (next_sequence row) in
      let passes =
        first?-passes (is_parent_as scope.tenant_id scope.work_item_id budget) before.budgets parent
          found in
      let its : is_parent scope.tenant_id scope.work_item_id parent ≡ true = ground arith in
      let key_of = is_budget scope.tenant_id parent.limits.budget_id in
      let picks =
        Sole-Picks scope.tenant_id scope.work_item_id budget parent before.budgets h.sole found in
      let sums = λ (key : Counter) (tenant item : Identifier).
        total-put_session key tenant item new row current before.sessions h.separated refl stored in
      let counts =
        next_counters-settles now parent (budget_of current) updated c.kind c.values c.counted in
      record {
        sole = rw c.budgets (set_usage-Sole key_of c.values before.budgets h.sole);
        separated = rw c.sessions (put_session-Separated new row before.sessions refl h.separated);
        backed =
            rw (c.sessions, c.budgets)
              (put_session-All (Backed (set_usage key_of c.values before.budgets)) new row
                before.sessions
                (any-set_usage key_of c.values scope.tenant_id scope.work_item_id before.budgets
                  ∙ found-Backed scope budget parent before.budgets found)
                (All-map
                  (λ (r : SessionRow) there.
                    any-set_usage key_of c.values r.scope.tenant_id r.scope.work_item_id
                      before.budgets
                    ∙ there)
                  before.sessions h.backed));
        balances = λ key.
            rw (c.sessions, c.budgets)
              (set_usage-All _ (Balances (put_session row new before.sessions) key) key_of c.values
                (settled key scope parent.limits.budget_id parent c.values (budget_of current)
                  updated.state.budget before.sessions _ its (counts key) (sums key))
                before.budgets (All-both _ _ before.budgets picks (h.balances key)));
      }

  -- A transaction that answers leaves the accounts balanced: the primary keys and the unique work
  -- items, a budget for every session, and each budget's counters the sums over the sessions of its
  -- work item.
  pub compare_and_reserve-IsBalanced :
      (grant : ReviewStoreGrant) (scope : ReviewScope) (expected : Option Digest)
      (given : ReviewSession) (budget : Identifier) (now : Moment) (before after : ReviewTables)
      (answer : Bool)
      → IsBalanced before
      → compare_and_reserve d encodings grant scope expected given budget now before
        ≡ ok (answer, after)
      → IsBalanced after
  compare_and_reserve-IsBalanced grant scope expected given budget now before after answer h e =
      let a =
        compare_and_reserve-IsAnswer d encodings grant scope expected given budget now before after
          answer e in
      elim a.outcome [
        | inl (_, same) ↦ subst IsBalanced (sym same) h
        | inr (_, _, c) ↦
            commit-IsBalanced grant scope budget given now a.parent a.current before after a.found
              a.stored c h
      ]
