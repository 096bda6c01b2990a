-- ===== src/Prelude/Results.antt =====
-- Calls that may raise: the error is a value, and the first one raised ends the call.
use mathlib.Core.Path.{◌≡◌, refl}
use mathlib.Core.Logic.{◌⊎◌, inl, inr}
use mathlib.Core.Bool.{Bool, true, false}
use mathlib.Core.List.{List, [], ◌∷◌}

pub data Result {ℓ κ} (E : Type ℓ) (A : Type κ) : Type (ℓ ⊔ κ) where
  ok : A → Result E A
  err : E → Result E A

-- `if not condition: raise e`.
abbrev pub require {κ} : {X : Type κ} → Bool → X → Result X (Unit {0})
require true raised = ok tt
require false raised = err raised

infixl 5 ◌>>=◌ ◌>>◌
abbrev pub ◌>>=◌ {ℓ κ μ} :
    {X : Type ℓ} {S : Type κ} {T : Type μ} → Result X S → (S → Result X T) → Result X T
ok returned >>= next = next returned
err raised >>= next = err raised

abbrev pub ◌>>◌ {ℓ κ} : {X : Type ℓ} {T : Type κ} → Result X (Unit {0}) → Result X T → Result X T
first >> next = first >>= λ _. next

-- `for x in xs: f(x)`, for the checks that `f` makes.
unfoldable pub for_each {ℓ κ} :
    {E : Type ℓ} {A : Type κ} → (A → Result E (Unit {0})) → List A → Result E (Unit {0})
for_each f [] = ok tt
for_each f (x ∷ xs) = f x >> for_each f xs

module _ {ℓ κ μ} {X : Type ℓ} {S : Type κ} {T : Type μ} where
  -- A call that is followed by one which returned has itself returned.
  pub >>=-eq-ok :
      (call : Result X S) (next : S → Result X T) {value : T}
      → (call >>= next) ≡ ok value
      → (between : S) × (call ≡ ok between) × (next between ≡ ok value)
  >>=-eq-ok (err raised) next h = cc
  >>=-eq-ok (ok between) next h = (between, refl, h)

module _ {ℓ κ} {E : Type ℓ} {B : Type κ} where
  -- A check that is followed by a call which returned was passed.
  pub >>-eq-ok :
      (m : Result E (Unit {0})) (k : Result E B) {b : B}
      → (m >> k) ≡ ok b
      → (m ≡ ok tt) × (k ≡ ok b)
  >>-eq-ok (ok tt) k h = (refl, h)
  >>-eq-ok (err e) k h = cc

module _ {ℓ} {E : Type ℓ} where
  pub require-eq-ok : (c : Bool) (e : E) → require c e ≡ ok tt → c ≡ true
  require-eq-ok true e h = refl
  require-eq-ok false e h = cc

module _ {ℓ κ} {E : Type ℓ} {A : Type κ} where
  pub Result-cases : (m : Result E A) → ((a : A) × (m ≡ ok a)) ⊎ ((e : E) × (m ≡ err e))
  Result-cases (ok a) = inl (a, refl)
  Result-cases (err e) = inr (e, refl)

  pub ok_injective : {a b : A} → ◌≡◌ {A = Result E A} (ok a) (ok b) → a ≡ b
  ok_injective h = cc
