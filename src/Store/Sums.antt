-- ===== src/Store/Sums.antt =====
-- Sums over the sessions of a work item, and the rows that a key picks.
use nokinc_factory.Prelude.{
  ◌≡◌, refl, sym, ap, subst, ◌∙◌, ℕ, ◌+◌, Bool, true, false, ◌&&◌, List, [], ◌∷◌, ◌++◌, some,
  first?, first?-passes, All, All-map, first?-All, Bool-cases, inl, inr, ◌==◌, nat_eq, arith,
  if◌then◌else◌,
}
use nokinc_factory.Review.Artifact.{Identifier, ReviewScope, scope_eq}
use nokinc_factory.Review.Session.{BudgetState}
use nokinc_factory.Store.Tables.{
  Counter, read, BudgetRow, SessionRow, is_budget, is_parent, is_unit,
}
use nokinc_factory.Store.Rows.{set_session}

-- Whether a scope is of a work item.
abbrev pub is_of : Identifier → Identifier → ReviewScope → Bool
is_of tenant item s = s.tenant_id == tenant && s.work_item_id == item

-- What a scope's budget adds to a counter of a work item.
abbrev pub share : Counter → Identifier → Identifier → ReviewScope → BudgetState → ℕ
share key tenant item s b = if is_of tenant item s then read b key else 0

-- What the sessions of a work item add up to, in one counter.
unfoldable pub total : Counter → Identifier → Identifier → List SessionRow → ℕ
total key tenant item [] = 0
total key tenant item (r ∷ rs) =
    share key tenant item r.scope r.document.state.budget + total key tenant item rs

-- No two rows are of one unit.
abbrev pub Separated : List SessionRow → Type 0
Separated [] = Unit {0}
Separated (r ∷ rs) = All (λ (q : SessionRow). is_unit r.scope q ≡ false) rs × Separated rs

set_session-none :
    (scope : ReviewScope) (new : SessionRow) (rows : List SessionRow)
    → All (λ (q : SessionRow). is_unit scope q ≡ false) rows
    → set_session scope new rows ≡ rows
unfolding set_session
set_session-none scope new [] h = refl
set_session-none scope new (r ∷ rs) h =
    rw h.0 (ap (λ (t : List SessionRow). r ∷ t) (set_session-none scope new rs h.1))

-- Replacing a unit's row replaces its share.
pub total-set_session :
    (key : Counter) (tenant item : Identifier) (new old : SessionRow) (rows : List SessionRow)
    → Separated rows
    → first? (is_unit new.scope) rows ≡ some old
    → total key tenant item (set_session new.scope new rows)
        + share key tenant item new.scope old.document.state.budget
      ≡ total key tenant item rows + share key tenant item new.scope new.document.state.budget
unfolding total set_session
total-set_session key tenant item new old [] h e = cc
total-set_session key tenant item new old (r ∷ rs) h e = elim (Bool-cases (is_unit new.scope r)) [
  | inl on ↦
      let same : r ≡ old = ground arith in
      let whose : r.scope ≡ new.scope = ground (arith, scope_eq.beq_iff r.scope new.scope) in
      let gone =
        set_session-none new.scope new rs (
          subst (λ (s : ReviewScope). All (λ (q : SessionRow). is_unit s q ≡ false) rs) whose
            h.0) in
      let there : share key tenant item r.scope r.document.state.budget
          ≡ share key tenant item new.scope old.document.state.budget =
        ap (λ (s : ReviewScope). share key tenant item s r.document.state.budget) whose
        ∙ ap (λ (q : SessionRow). share key tenant item new.scope q.document.state.budget) same in
      rw (on, gone) (omega (arith, there))
  | inr off ↦
      let rest = total-set_session key tenant item new old rs h.1 (ground arith) in
      rw off (omega (arith, rest))
]

pub total-append :
    (key : Counter) (tenant item : Identifier) (new : SessionRow) (rows : List SessionRow)
    → total key tenant item (rows ++ new ∷ [])
      ≡ total key tenant item rows + share key tenant item new.scope new.document.state.budget
unfolding total
total-append key tenant item new [] = omega arith
total-append key tenant item new (r ∷ rs) = omega (arith, total-append key tenant item new rs)

-- Whether two budgets share neither the primary key nor the work item.
abbrev pub Apart : BudgetRow → BudgetRow → Type 0
Apart b c =
    (is_budget c.limits.tenant_id c.limits.budget_id b ≡ false)
    × (is_parent c.limits.tenant_id c.limits.work_item_id b ≡ false)

-- No two budgets share the primary key or the work item.
abbrev pub Sole : List BudgetRow → Type 0
Sole [] = Unit {0}
Sole (b ∷ bs) = All (Apart b) bs × Sole bs

-- The key of a parent picks its row, and no other row is of its work item.
abbrev pub Picks : Identifier → Identifier → BudgetRow → BudgetRow → Type 0
Picks tenant item parent b =
    (is_budget tenant parent.limits.budget_id b ≡ true → b ≡ parent)
    × (is_budget tenant parent.limits.budget_id b ≡ false → is_parent tenant item b ≡ false)

abbrev pub is_parent_as : Identifier → Identifier → Identifier → BudgetRow → Bool
is_parent_as tenant item budget b = is_parent tenant item b && b.limits.budget_id == budget

Apart-Picks :
    (tenant item : Identifier) (parent c : BudgetRow)
    → is_parent tenant item parent ≡ true
    → Apart parent c
    → Picks tenant item parent c
Apart-Picks tenant item parent c h a = ((λ here. absurd (ground arith)), (λ gone. ground arith))

Apart-sym : (b c : BudgetRow) → Apart b c → Apart c b
Apart-sym b c a = (ground arith, ground arith)

self-Picks :
    (tenant item : Identifier) (parent : BudgetRow)
    → is_parent tenant item parent ≡ true
    → Picks tenant item parent parent
self-Picks tenant item parent h = ((λ here. refl), (λ gone. absurd (ground arith)))

pub Sole-Picks :
    (tenant item budget : Identifier) (parent : BudgetRow) (rows : List BudgetRow)
    → Sole rows
    → first? (is_parent_as tenant item budget) rows ≡ some parent
    → All (Picks tenant item parent) rows
Sole-Picks tenant item budget parent [] h e = cc
Sole-Picks tenant item budget parent (b ∷ bs) h e =
    let passes = first?-passes (is_parent_as tenant item budget) (b ∷ bs) parent e in
    let its : is_parent tenant item parent ≡ true = ground arith in
    elim (Bool-cases (is_parent_as tenant item budget b)) [
      | inl on ↦
          let same : b ≡ parent = ground arith in
          (
            subst (λ (p : BudgetRow). Picks tenant item parent p) (sym same)
                (self-Picks tenant item parent its),
            All-map
                (λ c apart.
                  Apart-Picks tenant item parent c its
                    (subst (λ (p : BudgetRow). Apart p c) same apart))
                bs h.0,
          )
      | inr off ↦
          let apart =
            first?-All (is_parent_as tenant item budget) (Apart b) bs parent (ground arith) h.0 in
          (
            Apart-Picks tenant item parent b its (Apart-sym b parent apart),
            Sole-Picks tenant item budget parent bs h.1 (ground arith),
          )
    ]
