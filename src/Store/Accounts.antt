-- ===== src/Store/Accounts.antt =====
-- What stays true of the tables' keys when a row is written: adapters/postgres_review_schema.py has
-- them as primary keys and unique constraints.
use nokinc_factory.Prelude.{
  ◌≡◌, refl, sym, subst, ℕ, Bool, false, List, [], ◌∷◌, ◌++◌, none, first?, any, All, All-append,
  Bool-cases, inl, inr, ◌==◌, nat_eq, arith, if◌then◌else◌,
}
use nokinc_factory.Review.Artifact.{Identifier, ReviewScope, scope_eq}
use nokinc_factory.Store.Tables.{Counter, BudgetRow, SessionRow, is_parent, is_unit}
use nokinc_factory.Store.Rows.{set_session, set_usage}
use nokinc_factory.Store.Sums.{Separated, Sole, Apart}

pub first?-none {ℓ} :
    {A : Type ℓ} (p : A → Bool) (xs : List A) → first? p xs ≡ none → All (λ x. p x ≡ false) xs
first?-none p [] e = tt
first?-none p (x ∷ xs) e = (ground arith, first?-none p xs (ground arith))

-- The row that `set_usage` leaves in the place of a row.
abbrev pub usage_set : (BudgetRow → Bool) → (Counter → ℕ) → BudgetRow → BudgetRow
usage_set p values b = if p b then record b { usage = values } else b

pub limits-usage_set :
    (p : BudgetRow → Bool) (values : Counter → ℕ) (b : BudgetRow)
    → (usage_set p values b).limits ≡ b.limits
limits-usage_set p values b = elim (Bool-cases (p b)) [
  | inl on ↦ rw on refl
  | inr off ↦ rw off refl
]

pub set_usage-All :
    (P Q : BudgetRow → Type 0) (p : BudgetRow → Bool) (values : Counter → ℕ)
    (f : (b : BudgetRow) → P b → Q (usage_set p values b)) (rows : List BudgetRow)
    → All P rows
    → All Q (set_usage p values rows)
unfolding set_usage
set_usage-All P Q p values f [] h = tt
set_usage-All P Q p values f (b ∷ bs) h = (f b h.0, set_usage-All P Q p values f bs h.1)

Apart-usage_set :
    (p : BudgetRow → Bool) (values : Counter → ℕ) (b c : BudgetRow)
    → Apart b c
    → Apart (usage_set p values b) (usage_set p values c)
Apart-usage_set p values b c h =
    let l = limits-usage_set p values b in let r = limits-usage_set p values c in rw (l, r) h

pub set_usage-Sole :
    (p : BudgetRow → Bool) (values : Counter → ℕ) (rows : List BudgetRow)
    → Sole rows
    → Sole (set_usage p values rows)
unfolding set_usage
set_usage-Sole p values [] h = tt
set_usage-Sole p values (b ∷ bs) h = (
  set_usage-All (Apart b) (Apart (usage_set p values b)) p values
      (λ c a. Apart-usage_set p values b c a) bs h.0,
  set_usage-Sole p values bs h.1,
)

pub append-Sole :
    (new : BudgetRow) (rows : List BudgetRow)
    → Sole rows
    → All (λ (b : BudgetRow). Apart b new) rows
    → Sole (rows ++ new ∷ [])
append-Sole new [] h k = (tt, tt)
append-Sole new (b ∷ bs) h k =
    (All-append (Apart b) bs (new ∷ []) h.0 (k.0, tt), append-Sole new bs h.1 k.1)

-- Writing the usage of budgets keeps the work items that have one.
pub any-set_usage :
    (p : BudgetRow → Bool) (values : Counter → ℕ) (tenant item : Identifier) (rows : List BudgetRow)
    → any (is_parent tenant item) (set_usage p values rows) ≡ any (is_parent tenant item) rows
unfolding set_usage
any-set_usage p values tenant item [] = refl
any-set_usage p values tenant item (b ∷ bs) =
    rw (limits-usage_set p values b, any-set_usage p values tenant item bs) refl

-- The row that `set_session` leaves in the place of a row.
abbrev session_set : SessionRow → SessionRow → SessionRow
session_set new r = if is_unit new.scope r then new else r

scope-session_set : (new r : SessionRow) → (session_set new r).scope ≡ r.scope
scope-session_set new r = elim (Bool-cases (is_unit new.scope r)) [
  | inl on ↦ rw on (sym ((scope_eq.beq_iff r.scope new.scope).0 on))
  | inr off ↦ rw off refl
]

-- Replacing a unit's row keeps what is true of every row by its scope.
pub set_session-All :
    (P : ReviewScope → Type 0) (new : SessionRow) (rows : List SessionRow)
    → All (λ (r : SessionRow). P r.scope) rows
    → All (λ (r : SessionRow). P r.scope) (set_session new.scope new rows)
unfolding set_session
set_session-All P new [] h = tt
set_session-All P new (r ∷ rs) h =
    (subst P (sym (scope-session_set new r)) h.0, set_session-All P new rs h.1)

pub set_session-Separated :
    (new : SessionRow) (rows : List SessionRow)
    → Separated rows
    → Separated (set_session new.scope new rows)
unfolding set_session
set_session-Separated new [] h = tt
set_session-Separated new (r ∷ rs) h = (
  rw (scope-session_set new r) (set_session-All (λ s. (s == r.scope) ≡ false) new rs h.0),
  set_session-Separated new rs h.1,
)

pub append-Separated :
    (new : SessionRow) (rows : List SessionRow)
    → Separated rows
    → All (λ (r : SessionRow). is_unit new.scope r ≡ false) rows
    → Separated (rows ++ new ∷ [])
append-Separated new [] h k = (tt, tt)
append-Separated new (r ∷ rs) h k = (
  All-append (λ (q : SessionRow). is_unit r.scope q ≡ false) rs (new ∷ []) h.0
      (ground (arith, scope_eq.beq_iff r.scope new.scope, scope_eq.beq_iff new.scope r.scope), tt),
  append-Separated new rs h.1 k.1,
)
