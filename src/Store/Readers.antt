-- ===== src/Store/Readers.antt =====
-- `load_current` and `history` of adapters/postgres_review_store.py in the tables that the operations
-- lead to.
use nokinc_factory.Prelude.{
  ◌≡◌, refl, sym, ap, subst, ◌∙◌, ℕ, Bool, true, not, ◌&&◌, List, [], ◌∷◌, ◌++◌, Option, none, some,
  first?, first?-passes, first?-snoc_found, any, last?, Bool-cases, inl, inr, ◌==◌, nat_eq,
  option_eq, arith, if◌then◌else◌, ok, err, ok_injective, require, >>=-eq-ok, >>-eq-ok,
  require-eq-ok, All-map, All-append, first?-All,
}
use nokinc_factory.Review.Artifact.{Identifier, ReviewScope, scope_eq}
use nokinc_factory.Review.Session.{ReviewSession, ReviewSeed}
use nokinc_factory.Review.Digests.{Digests}
use nokinc_factory.Review.Rules.{ReviewError, validate_seed}
use nokinc_factory.Review.Validators.{seed_valid}
use nokinc_factory.Store.Tables.{
  ParentBudget, parent_eq, BudgetRow, RegistrationRow, SessionRow, ReviewTables, StoreFault,
  ReviewStoreGrant, is_budget, is_parent, is_unit, Encodings,
}
use nokinc_factory.Store.Swap.{read_history, history, load_current}
use nokinc_factory.Store.Rows.{raised, deny_unless, unit_events}
use nokinc_factory.Store.Admin.{
  fresh_row, parent_valid, provision_as, provision, register_as, register,
}
use nokinc_factory.Store.Chain.{Tip}
use nokinc_factory.Store.Tips.{read_history-check_tip}
use nokinc_factory.Store.Setup.{any-append}
use nokinc_factory.Store.Reached.{Reached}
use nokinc_factory.Store.Reading.{
  document_of, Readable, Readable-decode_present, Readable-is_authorized, Budgeted, IsSound,
  compare_and_reserve-IsSound,
}

-- What is in the table is found.
any-first? {ℓ} :
    {A : Type ℓ} (p : A → Bool) (xs : List A) → any p xs ≡ true → (x : A) × (first? p xs ≡ some x)
any-first? p [] h = cc
any-first? p (x ∷ xs) h = elim (Bool-cases (p x)) [
  | inl on ↦ (x, rw on refl)
  | inr off ↦ let (y, e) = any-first? p xs (ground arith) in (y, rw off e)
]

Tip-document_of :
    (d : Digests) (row : Option SessionRow) (chain : List ReviewSession)
    → Tip d row chain
    → last? chain ≡ document_of row
Tip-document_of d none chain h = ap (last? {A = ReviewSession}) h
Tip-document_of d (some row) chain h = h.0

module _ (d : Digests) (encodings : Encodings) where
  provision_as-IsSound :
      (parent : ParentBudget) (found : Option BudgetRow) (unit : ReviewScope)
      (before after : ReviewTables)
      → IsSound d encodings before unit
      → provision_as parent found before ≡ ok after
      → IsSound d encodings after unit
  unfolding provision_as
  provision_as-IsSound parent (some old) unit before after h e =
      let (_, e1) = >>-eq-ok (deny_unless (old.limits == parent)) _ e in
      subst (λ (t : ReviewTables). IsSound d encodings t unit) (ok_injective e1) h
  provision_as-IsSound parent none unit before after h e =
      let (_, e1) =
        >>-eq-ok
          (deny_unless (not (any (is_budget parent.tenant_id parent.budget_id) before.budgets))) _
          e in
      subst (λ (t : ReviewTables). IsSound d encodings t unit) (ok_injective e1)
        (record {
          chained = h.chained;
          readable = h.readable;
          budgeted =
              All-map
                (λ (r : RegistrationRow) there.
                  any-append (is_budget r.scope.tenant_id r.budget_id) before.budgets
                    (fresh_row parent ∷ [])
                  ∙ ground (arith, there))
                before.registrations h.budgeted;
        })

  provision-IsSound :
      (parent : ParentBudget) (unit : ReviewScope) (before after : ReviewTables)
      → IsSound d encodings before unit
      → provision parent before ≡ ok after
      → IsSound d encodings after unit
  unfolding provision
  provision-IsSound parent unit before after h e =
      let (_, e1) = >>-eq-ok (require (parent_valid parent) StoreFault.value_error) _ e in
      provision_as-IsSound parent _ unit before after h e1

  parent-Budgeted :
      (scope : ReviewScope) (budget digest : ℕ) (budgets : List BudgetRow)
      → any
          (λ (b : BudgetRow).
            is_parent scope.tenant_id scope.work_item_id b && b.limits.budget_id == budget)
          budgets
        ≡ true
      → Budgeted d encodings budgets
          (record { scope = scope; budget_id = budget; seed_digest = digest })
  parent-Budgeted scope budget digest [] h = cc
  parent-Budgeted scope budget digest (b ∷ bs) h =
      ground (arith, parent-Budgeted scope budget digest bs)

  -- One more registration leaves a row readable.
  more-Readable :
      (unit : ReviewScope) (rows : List RegistrationRow) (new : RegistrationRow)
      (row : Option SessionRow)
      → Readable d encodings unit rows row
      → Readable d encodings unit (rows ++ new ∷ []) row
  more-Readable unit rows new none h = tt
  more-Readable unit rows new (some row) h = record {
    format = h.format;
    sized = h.sized;
    valid = h.valid;
    hashed = h.hashed;
    own = h.own;
    registration = h.registration;
    found =
        first?-snoc_found (λ (r : RegistrationRow). r.scope == unit) rows new h.registration
          h.found;
    seeded = h.seeded;
  }

  register_as-IsSound :
      (seed : ReviewSeed) (budget : Identifier) (found : Option RegistrationRow)
      (unit : ReviewScope) (before after : ReviewTables)
      → any
          (λ (b : BudgetRow).
            is_parent seed.scope.tenant_id seed.scope.work_item_id b
            && b.limits.budget_id == budget)
          before.budgets
        ≡ true
      → IsSound d encodings before unit
      → register_as d encodings seed budget found before ≡ ok after
      → IsSound d encodings after unit
  unfolding register_as
  register_as-IsSound seed budget (some old) unit before after there h e =
      let (_, e1) =
        >>-eq-ok (deny_unless (old.seed_digest == encodings.seed seed && old.budget_id == budget)) _
          e in
      subst (λ (t : ReviewTables). IsSound d encodings t unit) (ok_injective e1) h
  register_as-IsSound seed budget none unit before after there h e =
      let new = parent-Budgeted seed.scope budget (encodings.seed seed) before.budgets there in
      subst (λ (t : ReviewTables). IsSound d encodings t unit) (ok_injective e)
        (record {
          chained = h.chained;
          readable = more-Readable unit before.registrations _ _ h.readable;
          budgeted =
              All-append (Budgeted d encodings before.budgets) before.registrations _ h.budgeted
                (new, tt);
        })

  register-IsSound :
      (seed : ReviewSeed) (budget : Identifier) (unit : ReviewScope) (before after : ReviewTables)
      → IsSound d encodings before unit
      → register d encodings seed budget before ≡ ok after
      → IsSound d encodings after unit
  unfolding register
  register-IsSound seed budget unit before after h r =
      let (_, _, r1) =
        >>=-eq-ok
          (raised (if seed_valid seed then validate_seed d seed else err ReviewError.invalid)) _
          r in
      let (there, r2) =
        >>-eq-ok
          (deny_unless (
            any
              (λ (b : BudgetRow).
                is_parent seed.scope.tenant_id seed.scope.work_item_id b
                && b.limits.budget_id == budget)
              before.budgets))
          _ r1 in
      register_as-IsSound seed budget _ unit before after (require-eq-ok _ _ there) h r2

  Reached-IsSound :
      (unit : ReviewScope) (tables : ReviewTables)
      → Reached d encodings tables
      → IsSound d encodings tables unit
  unfolding read_history
  Reached-IsSound unit tables Reached.created = record {
    chained = ([], refl, refl);
    readable = tt;
    budgeted = tt;
  }
  Reached-IsSound unit tables (Reached.provisioned parent before after r e) =
      provision-IsSound parent unit before after (Reached-IsSound unit before r) e
  Reached-IsSound unit tables (Reached.registered seed budget before after r e) =
      register-IsSound seed budget unit before after (Reached-IsSound unit before r) e
  Reached-IsSound unit tables
        (Reached.answered grant scope expected given budget now before after answer r e) =
      compare_and_reserve-IsSound d encodings grant scope unit expected given budget now before
        after answer (Reached-IsSound unit before r) e

  -- In every tables that provisions, registrations and answered compare-and-reserve calls lead to
  -- from empty ones, a unit of the grant's tenant that has a registration can be read: `history`
  -- returns its chain of sessions and `load_current` the last of them, or none of an empty chain.
  pub Reached-history :
      (tables : ReviewTables) (grant : ReviewStoreGrant) (scope : ReviewScope)
      (registration : RegistrationRow)
      → Reached d encodings tables
      → scope.tenant_id ≡ grant.tenant_id
      → first? (λ (r : RegistrationRow). r.scope == scope) tables.registrations ≡ some registration
      → (chain : List ReviewSession) × (history d encodings grant scope tables ≡ ok chain)
        × (load_current d encodings grant scope tables ≡ ok (last? chain))
  unfolding history load_current
  Reached-history tables grant scope registration r own found =
      let h = Reached-IsSound scope tables r in
      let (chain, read, tip) = h.chained in
      let there =
        first?-All (λ (r : RegistrationRow). r.scope == scope) (Budgeted d encodings tables.budgets)
          tables.registrations registration found h.budgeted in
      let is = (scope_eq.beq_iff registration.scope scope).0 (
        first?-passes (λ (r : RegistrationRow). r.scope == scope) tables.registrations registration
          found) in
      let (parent, p) =
        any-first? (is_budget scope.tenant_id registration.budget_id) tables.budgets (
          subst
            (λ (s : ReviewScope).
              any (is_budget s.tenant_id registration.budget_id) tables.budgets ≡ true)
            is there) in
      let granted : (scope.tenant_id == grant.tenant_id) ≡ true = ground arith in
      let row = first? (is_unit scope) tables.sessions in
      let tested =
        read_history-check_tip d encodings (unit_events scope tables.events) row chain read tip in
      let decoded = Readable-decode_present d encodings scope tables.registrations row h.readable in
      let authorized =
        Readable-is_authorized d encodings scope tables.registrations registration row h.readable
          found in
      (
        chain,
        rw (granted, found, read) refl,
        rw (granted, found, p, tested, decoded, authorized)
            (ap ok (sym (Tip-document_of d row chain tip))),
      )
