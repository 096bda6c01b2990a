-- ===== src/Store/Commit.antt =====
-- What a transaction of `compare_and_reserve` did when it answered.
use nokinc_factory.Prelude.{
  ◌≡◌, sym, ap, subst, ◌∙◌, ℕ, ◌/◌, Bool, true, false, not, ◌&&◌, ◌||◌, List, [], ◌∷◌, ◌++◌, Option,
  none, some, first?, any, leb, if-cases, ◌⊎◌, inl, inr, ◌==◌, nat_eq, option_eq, arith, ok, err,
  >>=-eq-ok, >>-eq-ok, require-eq-ok, ok_injective,
}
use nokinc_factory.Review.Artifact.{Identifier, Digest, Moment, ReviewScope, scope_eq}
use nokinc_factory.Review.Session.{ReviewSession}
use nokinc_factory.Review.Digests.{Digests}
use nokinc_factory.Review.Rules.{Checked}
use nokinc_factory.Review.Policy.{validate_session}
use nokinc_factory.Review.Ledger.{validate_session-IsReplayed}
use nokinc_factory.Review.Persistence.{TransitionKind, validate_extension}
use nokinc_factory.Store.Tables.{
  Counter, BudgetRow, RegistrationRow, SessionRow, EventRow, ReviewTables, ReviewStoreGrant,
  is_budget, is_unit, Encodings,
}
use nokinc_factory.Store.Swap.{
  decode_row, decode_present, digest_of, row_of, event_of, commit, compare, compare_and_reserve,
  is_current,
}
use nokinc_factory.Store.Rows.{
  raised, deny_unless, registered, one, check_tip, highest, unit_events, budget_of, next_counters,
  set_usage, put_session, next_sequence, append_event, collides, is_create, is_reserve,
  max_session_bytes,
}
use nokinc_factory.Store.Sums.{is_parent_as}

-- A session as its row was stored.
abbrev pub Stored : Option SessionRow → Option ReviewSession → Type 0
Stored none none = Unit {0}
Stored none (some s) = ⊥
Stored (some r) none = ⊥
Stored (some r) (some s) = r.document ≡ s

pub raised-eq-ok {ℓ} : {A : Type ℓ} (c : Checked A) {a : A} → raised c ≡ ok a → c ≡ ok a
raised-eq-ok (ok b) h = ap ok (ok_injective h)
raised-eq-ok (err e) h = cc

one-eq-ok {ℓ} : {A : Type ℓ} (found : Option A) {a : A} → one found ≡ ok a → found ≡ some a
one-eq-ok none h = cc
one-eq-ok (some b) h = ap some (ok_injective h)

registered-eq-ok :
    (found : Option RegistrationRow) {a : RegistrationRow}
    → registered found ≡ ok a
    → found ≡ some a
registered-eq-ok none h = cc
registered-eq-ok (some b) h = ap some (ok_injective h)

module _ (d : Digests) (encodings : Encodings) where
  -- The writes of a transaction that committed.
  pub record IsCommit (grant : ReviewStoreGrant) (scope : ReviewScope) (updated : ReviewSession)
      (now : Moment) (parent : BudgetRow) (row : Option SessionRow) (current : Option ReviewSession)
      (before after : ReviewTables) : Type 0 where
    pub kind : TransitionKind
    pub extends : validate_extension d current updated ≡ ok kind
    pub values : Counter → ℕ
    pub counted : next_counters now parent (budget_of current) updated kind ≡ ok values
    pub budgets :
        after.budgets
        ≡ set_usage (is_budget scope.tenant_id parent.limits.budget_id) values before.budgets
    pub sessions :
        after.sessions
        ≡ put_session row (row_of d encodings scope updated (next_sequence row)) before.sessions
    pub registrations : after.registrations ≡ before.registrations
    pub events :
        after.events
        ≡ before.events
          ++ event_of d encodings grant scope current updated kind (next_sequence row) ∷ []

  append_event-eq-ok :
      (new : EventRow) (rows after : List EventRow)
      → append_event new rows ≡ ok after
      → after ≡ rows ++ new ∷ []
  unfolding append_event
  append_event-eq-ok new rows after h =
      let (_, h1) = >>-eq-ok (deny_unless (not (any (collides new) rows))) _ h in
      sym (ok_injective h1)

  decode_row-document :
      (row : SessionRow) (s : ReviewSession) → decode_row d encodings row ≡ ok s → row.document ≡ s
  unfolding decode_row
  decode_row-document row s h =
      let (_, h1) =
        >>-eq-ok
          (deny_unless
            (row.format_version == 1 && leb (encodings.size row.document) max_session_bytes))
          _ h in
      let (session, v, h2) = >>=-eq-ok (raised (validate_session d row.document)) _ h1 in
      let (_, h3) = >>-eq-ok (deny_unless (d.session session == row.digest)) _ h2 in
      sym (validate_session-IsReplayed d row.document (raised-eq-ok _ v)).0 ∙ ok_injective h3

  decode_present-Stored :
      (row : Option SessionRow) (current : Option ReviewSession)
      → decode_present d encodings row ≡ ok current
      → Stored row current
  unfolding decode_present
  decode_present-Stored none none h = tt
  decode_present-Stored none (some s) h = cc
  decode_present-Stored (some r) none h =
      let (s, e, h1) = >>=-eq-ok (decode_row d encodings r) _ h in cc
  decode_present-Stored (some r) (some t) h =
      let (s, e, h1) = >>=-eq-ok (decode_row d encodings r) _ h in decode_row-document r s e ∙ cc

  commit-IsCommit :
      (grant : ReviewStoreGrant) (scope : ReviewScope) (updated : ReviewSession) (now : Moment)
      (parent : BudgetRow) (row : Option SessionRow) (current : Option ReviewSession)
      (before after : ReviewTables) (answer : Bool)
      → commit d encodings grant scope updated now parent row current before ≡ ok (answer, after)
      → (answer ≡ true) × IsCommit grant scope updated now parent row current before after
  unfolding commit
  commit-IsCommit grant scope updated now parent row current before after answer h =
      let (kind, k, h1) = >>=-eq-ok (raised (validate_extension d current updated)) _ h in
      let (_, h2) =
        >>-eq-ok
          (deny_unless (
            not (is_create kind || is_reserve kind)
            || leb (encodings.size updated) (max_session_bytes / 2)))
          _ h1 in
      let (values, v, h3) =
        >>=-eq-ok (next_counters now parent (budget_of current) updated kind) _ h2 in
      let (events, e, h4) =
        >>=-eq-ok
          (append_event (event_of d encodings grant scope current updated kind (next_sequence row))
            before.events)
          _ h3 in
      let done = ok_injective h4 in
      let tables = ap (λ (p : Bool × ReviewTables). p.1) done in
      (
        sym (ap (λ (p : Bool × ReviewTables). p.0) done),
        record {
          kind = kind;
          extends = raised-eq-ok _ k;
          values = values;
          counted = v;
          budgets = sym (ap (λ (t : ReviewTables). t.budgets) tables);
          sessions = sym (ap (λ (t : ReviewTables). t.sessions) tables);
          registrations = sym (ap (λ (t : ReviewTables). t.registrations) tables);
          events =
              sym (ap (λ (t : ReviewTables). t.events) tables)
              ∙ append_event-eq-ok _ before.events events e;
        },
      )

  -- Nothing is written, or the digest was the stored one and the writes are a commit's.
  abbrev pub Outcome :
      ReviewStoreGrant
      → ReviewScope
      → Option Digest
      → ReviewSession
      → Moment
      → BudgetRow
      → Option SessionRow
      → Option ReviewSession
      → ReviewTables
      → Bool
      → ReviewTables
      → Type 0
  Outcome grant scope expected updated now parent row current before answer after =
      ((answer ≡ false) × (after ≡ before))
      ⊎ ((answer ≡ true)
          × (expected ≡ digest_of d encodings current)
          × IsCommit grant scope updated now parent row current before after)

  -- A transaction that answers found the unit, and either wrote nothing or committed.
  pub record IsAnswer (grant : ReviewStoreGrant) (scope : ReviewScope) (expected : Option Digest)
      (given : ReviewSession) (budget : Identifier) (now : Moment) (before : ReviewTables)
      (answer : Bool) (after : ReviewTables) : Type 0 where
    pub parent : BudgetRow
    pub current : Option ReviewSession
    pub valid : validate_session d given ≡ ok given
    pub sized : leb (encodings.size given) max_session_bytes ≡ true
    pub registration : RegistrationRow
    pub enrolled :
        first? (λ (r : RegistrationRow). r.scope == scope) before.registrations ≡ some registration
    pub seeded : encodings.seed given.seed ≡ registration.seed_digest
    pub own : given.seed.scope ≡ scope
    pub found :
        first? (is_parent_as scope.tenant_id scope.work_item_id budget) before.budgets ≡ some parent
    pub stored : Stored (first? (is_unit scope) before.sessions) current
    pub tip :
        check_tip
          (highest (unit_events scope before.events))
          (first? (is_unit scope) before.sessions)
        ≡ ok tt
    pub outcome :
        Outcome grant scope expected given now parent
          (first? (is_unit scope) before.sessions)
          current
          before
          answer
          after

  compare-Outcome :
      (grant : ReviewStoreGrant) (scope : ReviewScope) (expected : Option Digest)
      (updated : ReviewSession) (now : Moment) (parent : BudgetRow) (row : Option SessionRow)
      (current : Option ReviewSession) (before after : ReviewTables) (answer : Bool)
      → compare d encodings grant scope expected updated now parent row current before
        ≡ ok (answer, after)
      → Outcome grant scope expected updated now parent row current before answer after
  unfolding compare
  compare-Outcome grant scope expected updated now parent row current before after answer h =
      elim (if-cases
        (is_current d encodings current updated || not (expected == digest_of d encodings current))
        _ _ h) [
          | inl (stale, e) ↦
              let done = ok_injective e in
              inl (
                sym (ap (λ (p : Bool × ReviewTables). p.0) done),
                sym (ap (λ (p : Bool × ReviewTables). p.1) done),
              )
          | inr (fresh, e) ↦
              let k =
                commit-IsCommit grant scope updated now parent row current before after answer e in
              let same : (expected == digest_of d encodings current) ≡ true = ground arith in
              inr (k.0, (option_eq.beq_iff expected (digest_of d encodings current)).0 same, k.1)
        ]

  pub compare_and_reserve-IsAnswer :
      (grant : ReviewStoreGrant) (scope : ReviewScope) (expected : Option Digest)
      (given : ReviewSession) (budget : Identifier) (now : Moment) (before after : ReviewTables)
      (answer : Bool)
      → compare_and_reserve d encodings grant scope expected given budget now before
        ≡ ok (answer, after)
      → IsAnswer grant scope expected given budget now before answer after
  unfolding compare_and_reserve
  compare_and_reserve-IsAnswer grant scope expected given budget now before after answer h =
      let (updated, v, h1) = >>=-eq-ok (raised (validate_session d given)) _ h in
      let same = (validate_session-IsReplayed d given (raised-eq-ok _ v)).0 in
      let (o, h2) = >>-eq-ok (deny_unless (updated.seed.scope == scope)) _ h1 in
      let own = (scope_eq.beq_iff updated.seed.scope scope).0 (require-eq-ok _ _ o) in
      let (size, h3) =
        >>-eq-ok (deny_unless (leb (encodings.size updated) max_session_bytes)) _ h2 in
      let (_, h4) = >>-eq-ok (deny_unless (scope.tenant_id == grant.tenant_id)) _ h3 in
      let (registration, enrolled, h5) =
        >>=-eq-ok
          (registered (first? (λ (r : RegistrationRow). r.scope == scope) before.registrations)) _
          h4 in
      let (approved, h6) =
        >>-eq-ok
          (deny_unless (
            registration.budget_id == budget
            && registration.seed_digest == encodings.seed updated.seed))
          _ h5 in
      let allowed = require-eq-ok _ _ approved in
      let seeded : encodings.seed updated.seed ≡ registration.seed_digest = ground arith in
      let (parent, p, h7) =
        >>=-eq-ok
          (one (first? (is_parent_as scope.tenant_id scope.work_item_id budget) before.budgets)) _
          h6 in
      let (tip, h8) =
        >>-eq-ok
          (check_tip (highest (unit_events scope before.events))
            (first? (is_unit scope) before.sessions))
          _ h7 in
      let (current, s, h9) =
        >>=-eq-ok (decode_present d encodings (first? (is_unit scope) before.sessions)) _ h8 in
      let outcome =
        compare-Outcome grant scope expected updated now parent _ current before after answer h9 in
      record {
        parent = parent;
        current = current;
        valid = raised-eq-ok _ v ∙ ap ok same;
        sized =
            subst (λ (u : ReviewSession). leb (encodings.size u) max_session_bytes ≡ true) same
              (require-eq-ok _ _ size);
        registration = registration;
        enrolled = registered-eq-ok _ enrolled;
        seeded =
            subst (λ (u : ReviewSession). encodings.seed u.seed ≡ registration.seed_digest) same
              seeded;
        own = subst (λ (u : ReviewSession). u.seed.scope ≡ scope) same own;
        found = one-eq-ok _ p;
        stored = decode_present-Stored _ current s;
        tip = tip;
        outcome =
            subst
              (λ (u : ReviewSession).
                Outcome grant scope expected u now parent (first? (is_unit scope) before.sessions)
                  current before answer after)
              same outcome;
      }
