-- ===== src/Store/Setup.antt =====
-- The accounts across the administrator's operations, adapters/postgres_review_admin.py.
use nokinc_factory.Prelude.{
  ◌≡◌, refl, sym, subst, ◌∙◌, Bool, true, false, not, ◌||◌, List, [], ◌∷◌, ◌++◌, Option, none, some,
  first?, any, Bool-cases, inl, inr, ◌==◌, nat_eq, arith, ok, require, >>-eq-ok, require-eq-ok,
  ok_injective, All, All-map, All-append, any-eq-false,
}
use nokinc_factory.Review.Artifact.{Identifier, scope_eq}
use nokinc_factory.Store.Tables.{
  ParentBudget, parent_eq, Counter, BudgetRow, SessionRow, ReviewTables, StoreFault, is_budget,
  is_parent,
}
use nokinc_factory.Store.Rows.{deny_unless}
use nokinc_factory.Store.Admin.{fresh_row, parent_valid, provision_as, provision}
use nokinc_factory.Store.Sums.{is_of, total}
use nokinc_factory.Store.Accounts.{first?-none, append-Sole}
use nokinc_factory.Store.Balance.{IsBalanced, Balances, Backed, All-both}

pub any-append {ℓ} :
    {A : Type ℓ} (p : A → Bool) (xs ys : List A) → any p (xs ++ ys) ≡ (any p xs || any p ys)
any-append p [] ys = refl
any-append p (x ∷ xs) ys = ground (arith, any-append p xs ys)

-- A work item without a budget has no session, so its sums are zero.
total-unbacked :
    (key : Counter) (tenant item : Identifier) (budgets : List BudgetRow)
    (sessions : List SessionRow)
    → any (is_parent tenant item) budgets ≡ false
    → All (λ (r : SessionRow). Backed budgets r.scope) sessions
    → total key tenant item sessions ≡ 0
unfolding total
total-unbacked key tenant item budgets [] free h = refl
total-unbacked key tenant item budgets (r ∷ rs) free h =
    let rest = total-unbacked key tenant item budgets rs free h.1 in
    elim (Bool-cases (is_of tenant item r.scope)) [
      | inl on ↦
          let t : r.scope.tenant_id ≡ tenant = ground arith in
          let i : r.scope.work_item_id ≡ item = ground arith in
          absurd (
            let there =
              subst (λ (x : Identifier). any (is_parent x item) budgets ≡ true) t
                (subst (λ (x : Identifier). any (is_parent r.scope.tenant_id x) budgets ≡ true) i
                  h.0) in
            cc)
      | inr off ↦ ground (arith, rest)
    ]

first?-none-any {ℓ} :
    {A : Type ℓ} (p : A → Bool) (xs : List A) → first? p xs ≡ none → any p xs ≡ false
first?-none-any p [] h = refl
first?-none-any p (x ∷ xs) h = ground (arith, first?-none-any p xs)

fresh-IsBalanced :
    (parent : ParentBudget) (tables : ReviewTables)
    → first? (is_parent parent.tenant_id parent.work_item_id) tables.budgets ≡ none
    → any (is_budget parent.tenant_id parent.budget_id) tables.budgets ≡ false
    → IsBalanced tables
    → IsBalanced (record tables { budgets = tables.budgets ++ fresh_row parent ∷ [] })
fresh-IsBalanced parent tables free new h =
    let new_row = fresh_row parent in
    let keys = any-eq-false (is_budget parent.tenant_id parent.budget_id) tables.budgets new in
    let items = first?-none (is_parent parent.tenant_id parent.work_item_id) tables.budgets free in
    record {
      sole = append-Sole new_row tables.budgets h.sole (All-both _ _ tables.budgets keys items);
      separated = h.separated;
      backed =
          All-map
            (λ (r : SessionRow) there.
              any-append (is_parent r.scope.tenant_id r.scope.work_item_id) tables.budgets
                (new_row ∷ [])
              ∙ (ground (arith, there)))
            tables.sessions h.backed;
      balances = λ key.
          All-append (Balances tables.sessions key) tables.budgets (new_row ∷ []) (h.balances key) (
            sym (
                total-unbacked key parent.tenant_id parent.work_item_id tables.budgets
                  tables.sessions (first?-none-any _ tables.budgets free) h.backed),
            tt,
          );
    }

provision_as-IsBalanced :
    (parent : ParentBudget) (found : Option BudgetRow) (before after : ReviewTables)
    → first? (is_parent parent.tenant_id parent.work_item_id) before.budgets ≡ found
    → IsBalanced before
    → provision_as parent found before ≡ ok after
    → IsBalanced after
unfolding provision_as
provision_as-IsBalanced parent (some old) before after e h p =
    let (_, p1) = >>-eq-ok (deny_unless (old.limits == parent)) _ p in
    subst IsBalanced (ok_injective p1) h
provision_as-IsBalanced parent none before after e h p =
    let (c, p1) =
      >>-eq-ok
        (deny_unless (not (any (is_budget parent.tenant_id parent.budget_id) before.budgets))) _
        p in
    let new : any (is_budget parent.tenant_id parent.budget_id) before.budgets ≡ false =
      ground (arith, require-eq-ok _ _ c) in
    subst IsBalanced (ok_injective p1) (fresh-IsBalanced parent before e new h)

-- Provisioning a budget leaves the accounts balanced.
pub provision-IsBalanced :
    (parent : ParentBudget) (before after : ReviewTables)
    → IsBalanced before
    → provision parent before ≡ ok after
    → IsBalanced after
unfolding provision
provision-IsBalanced parent before after h p =
    let (_, p1) = >>-eq-ok (require (parent_valid parent) StoreFault.value_error) _ p in
    provision_as-IsBalanced parent _ before after refl h p1
