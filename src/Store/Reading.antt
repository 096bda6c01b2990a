-- ===== src/Store/Reading.antt =====
-- What the readers of adapters/postgres_review_store.py return, in the tables that its operations lead
-- to.
use nokinc_factory.Prelude.{
  ◌≡◌, refl, sym, ap, subst, ◌∙◌, ℕ, Bool, true, List, [], ◌∷◌, Option, none, some, first?, any,
  leb, Bool-cases, inl, inr, ◌==◌, nat_eq, option_eq, arith, ok, All, All-map,
}
use nokinc_factory.Review.Artifact.{Identifier, Digest, Moment, ReviewScope, scope_eq}
use nokinc_factory.Review.Session.{ReviewSession, session_eq}
use nokinc_factory.Review.Digests.{Digests}
use nokinc_factory.Review.Policy.{validate_session}
use nokinc_factory.Store.Tables.{
  parent_eq, Counter, BudgetRow, RegistrationRow, SessionRow, ReviewTables, ReviewStoreGrant,
  is_budget, is_unit, Encodings,
}
use nokinc_factory.Store.Swap.{
  decode_row, decode_present, is_authorized, row_of, compare_and_reserve,
}
use nokinc_factory.Store.Rows.{max_session_bytes, put_session, next_sequence, set_usage}
use nokinc_factory.Store.Commit.{IsCommit, IsAnswer, compare_and_reserve-IsAnswer}
use nokinc_factory.Store.Accounts.{limits-usage_set}
use nokinc_factory.Store.Writers.{first?-put_session}
use nokinc_factory.Store.Chain.{Chained, first?-other, compare_and_reserve-Chained}

-- What the row of a unit stores.
abbrev pub document_of : Option SessionRow → Option ReviewSession
document_of none = none
document_of (some r) = some r.document

module _ (d : Digests) (encodings : Encodings) where
  -- A row that `_decode` accepts and whose seed is the registered one.
  pub record IsReadable (scope : ReviewScope) (registrations : List RegistrationRow)
      (row : SessionRow) : Type 0 where
    pub format : row.format_version ≡ 1
    pub sized : leb (encodings.size row.document) max_session_bytes ≡ true
    pub valid : validate_session d row.document ≡ ok row.document
    pub hashed : d.session row.document ≡ row.digest
    pub own : row.document.seed.scope ≡ scope
    pub registration : RegistrationRow
    pub found : first? (λ (r : RegistrationRow). r.scope == scope) registrations ≡ some registration
    pub seeded : encodings.seed row.document.seed ≡ registration.seed_digest

  abbrev pub Readable : ReviewScope → List RegistrationRow → Option SessionRow → Type 0
  Readable scope registrations none = Unit {0}
  Readable scope registrations (some row) = IsReadable scope registrations row

  IsReadable-decode_row :
      (scope : ReviewScope) (registrations : List RegistrationRow) (row : SessionRow)
      → IsReadable scope registrations row
      → decode_row d encodings row ≡ ok row.document
  unfolding decode_row
  IsReadable-decode_row scope registrations row h =
      rw h.valid (ground (arith, h.format, h.sized, h.hashed))

  pub Readable-decode_present :
      (scope : ReviewScope) (registrations : List RegistrationRow) (row : Option SessionRow)
      → Readable scope registrations row
      → decode_present d encodings row ≡ ok (document_of row)
  unfolding decode_present
  Readable-decode_present scope registrations none h = refl
  Readable-decode_present scope registrations (some row) h =
      rw (IsReadable-decode_row scope registrations row h) refl

  pub Readable-is_authorized :
      (scope : ReviewScope) (registrations : List RegistrationRow) (registration : RegistrationRow)
      (row : Option SessionRow)
      → Readable scope registrations row
      → first? (λ (r : RegistrationRow). r.scope == scope) registrations ≡ some registration
      → is_authorized d encodings scope registration (document_of row) ≡ true
  Readable-is_authorized scope registrations registration none h f = refl
  Readable-is_authorized scope registrations registration (some row) h f =
      let same : h.registration ≡ registration = let both = sym h.found ∙ f in cc in
      let seeded = h.seeded ∙ ap (λ (r : RegistrationRow). r.seed_digest) same in
      let own = (scope_eq.beq_iff row.document.seed.scope scope).1 h.own in
      ground (arith, seeded, own)

  -- Every registration has its budget.
  abbrev pub Budgeted : List BudgetRow → RegistrationRow → Type 0
  Budgeted budgets r = any (is_budget r.scope.tenant_id r.budget_id) budgets ≡ true

  pub record IsSound (tables : ReviewTables) (unit : ReviewScope) : Type 0 where
    pub chained : Chained d encodings tables unit
    pub readable : Readable unit tables.registrations (first? (is_unit unit) tables.sessions)
    pub budgeted : All (Budgeted tables.budgets) tables.registrations

  any-set_usage_key :
      (p : BudgetRow → Bool) (values : Counter → ℕ) (tenant budget : Identifier)
      (rows : List BudgetRow)
      → any (is_budget tenant budget) (set_usage p values rows) ≡ any (is_budget tenant budget) rows
  unfolding set_usage
  any-set_usage_key p values tenant budget [] = refl
  any-set_usage_key p values tenant budget (b ∷ bs) =
      rw (limits-usage_set p values b, any-set_usage_key p values tenant budget bs) refl

  commit-Readable :
      (grant : ReviewStoreGrant) (scope unit : ReviewScope) (expected : Option Digest)
      (given : ReviewSession) (budget : Identifier) (now : Moment) (before after : ReviewTables)
      (answer : Bool)
      (a : IsAnswer d encodings grant scope expected given budget now before answer after)
      → IsCommit d encodings grant scope given now a.parent
          (first? (is_unit scope) before.sessions)
          a.current
          before
          after
      → Readable unit before.registrations (first? (is_unit unit) before.sessions)
      → Readable unit after.registrations (first? (is_unit unit) after.sessions)
  commit-Readable grant scope unit expected given budget now before after answer a c h =
      let row = first? (is_unit scope) before.sessions in
      let new = row_of d encodings scope given (next_sequence row) in
      rw (c.registrations, c.sessions)
        (elim (Bool-cases (scope == unit)) [
          | inl own ↦
              subst
                (λ (u : ReviewScope).
                  Readable u before.registrations
                    (first? (is_unit u) (put_session row new before.sessions)))
                ((scope_eq.beq_iff scope unit).0 own)
                (rw (first?-put_session new row before.sessions refl) (record {
                  format = refl;
                  sized = a.sized;
                  valid = a.valid;
                  hashed = refl;
                  own = a.own;
                  registration = a.registration;
                  found = a.enrolled;
                  seeded = a.seeded;
                }))
          | inr other ↦ rw (first?-other unit new row before.sessions other) h
        ])

  pub compare_and_reserve-IsSound :
      (grant : ReviewStoreGrant) (scope unit : ReviewScope) (expected : Option Digest)
      (given : ReviewSession) (budget : Identifier) (now : Moment) (before after : ReviewTables)
      (answer : Bool)
      → IsSound before unit
      → compare_and_reserve d encodings grant scope expected given budget now before
        ≡ ok (answer, after)
      → IsSound after unit
  compare_and_reserve-IsSound grant scope unit expected given budget now before after answer h e =
      let a =
        compare_and_reserve-IsAnswer d encodings grant scope expected given budget now before after
          answer e in
      elim a.outcome [
        | inl (_, same) ↦ subst (λ (t : ReviewTables). IsSound t unit) (sym same) h
        | inr (_, _, c) ↦ record {
          chained =
              compare_and_reserve-Chained d encodings grant scope unit expected given budget now
                before after answer h.chained e;
          readable =
              commit-Readable grant scope unit expected given budget now before after answer a c
                h.readable;
          budgeted =
              rw (c.registrations, c.budgets)
                (All-map
                  (λ (r : RegistrationRow) there.
                    any-set_usage_key (is_budget scope.tenant_id a.parent.limits.budget_id) c.values
                      r.scope.tenant_id r.budget_id before.budgets
                    ∙ there)
                  before.registrations h.budgeted);
        }
      ]
