-- ===== src/Prelude/Lists.antt =====
-- Lists as the program uses them: membership, `any` and `all`, the last element, the removal of
-- repeated values by `dict.fromkeys`, and stable sorting by a numeric key.
use Prim.Native.Nat.{ℕ, suc, ◌+◌, ◌≤◌}
use mathlib.Core.Path.{◌≡◌, refl, ap, sym, ◌∙◌, subst}
use mathlib.Core.Logic.{◌≢◌, ◌↔◌, ◌⊎◌, inl, inr}
use mathlib.Core.Bool.{Bool, true, false, not, ◌&&◌, ◌||◌}
use mathlib.Core.Option.{Option, none, some}
use mathlib.Core.List.{List, [], ◌∷◌, ◌++◌}
use native.Mathlib.Omega.{arith}
use nokinc_factory.Prelude.Tests.{Eq, ◌==◌, if◌then◌else◌, Bool-cases}

module _ {ℓ} {A : Type ℓ} where
  abbrev pub length : List A → ℕ
  length [] = 0
  length (x ∷ xs) = suc (length xs)

  pub length-append : (xs ys : List A) → length (xs ++ ys) ≡ length xs + length ys
  length-append [] ys = omega arith
  length-append (x ∷ xs) ys = omega (arith, length-append xs ys)

  -- Python's truth value of a sequence.
  abbrev pub nonempty : List A → Bool
  nonempty [] = false
  nonempty (x ∷ xs) = true

  abbrev pub any : (A → Bool) → List A → Bool
  any p [] = false
  any p (x ∷ xs) = p x || any p xs

  abbrev pub all : (A → Bool) → List A → Bool
  all p [] = true
  all p (x ∷ xs) = p x && all p xs

  -- The comprehension `[x for x in xs if p(x)]`.
  abbrev pub keep : (A → Bool) → List A → List A
  keep p [] = []
  keep p (x ∷ xs) = let rest = keep p xs in if p x then x ∷ rest else rest

  -- `xs[-1]`, absent on an empty sequence.
  abbrev pub last? : List A → Option A
  last? [] = none
  last? (x ∷ xs) = let rest = last? xs in elim rest [ none ↦ some x | some y ↦ some y ]

  -- `xs[:-1]`.
  abbrev pub init : List A → List A
  init [] = []
  init (x ∷ []) = []
  init (x ∷ y ∷ xs) = x ∷ init (y ∷ xs)

  pub last?-append : (xs : List A) (y : A) → last? (xs ++ y ∷ []) ≡ some y
  last?-append [] y = refl
  last?-append (x ∷ xs) y = ground (arith, last?-append xs y)

  pub init-append : (xs : List A) (y : A) → init (xs ++ y ∷ []) ≡ xs
  init-append [] y = refl
  init-append (x ∷ []) y = refl
  init-append (x ∷ z ∷ xs) y = ap (λ (t : List A). x ∷ t) (init-append (z ∷ xs) y)

  -- `next((x for x in xs if p(x)), None)`.
  abbrev pub first? : (A → Bool) → List A → Option A
  first? p [] = none
  first? p (x ∷ xs) = let rest = first? p xs in if p x then some x else rest

module _ {ℓ} {A : Type ℓ} ⦃e : Eq A⦄ where
  -- `a in xs`.
  abbrev pub contains : List A → A → Bool
  contains [] a = false
  contains (x ∷ xs) a = a == x || contains xs a

  -- The comparison of two sequences.
  abbrev pub list_beq : List A → List A → Bool
  list_beq [] [] = true
  list_beq [] (y ∷ ys) = false
  list_beq (x ∷ xs) [] = false
  list_beq (x ∷ xs) (y ∷ ys) = x == y && list_beq xs ys

  -- `len(xs) == len(set(xs))`.
  abbrev pub is_distinct : List A → Bool
  is_distinct [] = true
  is_distinct (x ∷ xs) = not (contains xs x) && is_distinct xs

  -- `set(xs) <= set(ys)`.
  abbrev pub is_subset : List A → List A → Bool
  is_subset xs ys = all (contains ys) xs

  -- `tuple(dict.fromkeys(xs))`, after the values already `seen`.
  pub unseen : List A → List A → List A
  unseen seen [] = []
  unseen seen (x ∷ xs) =
      let rest = unseen (x ∷ seen) xs in
      let same = unseen seen xs in if contains seen x then same else x ∷ rest

  unfoldable pub dedup : List A → List A
  unfolding unseen
  dedup xs = unseen [] xs

module _ {ℓ} {A : Type ℓ} ⦃e : Eq A⦄ where
  pub contains-append :
      (xs ys : List A) (a : A) → contains (xs ++ ys) a ≡ (contains xs a || contains ys a)
  contains-append [] ys a = refl
  contains-append (x ∷ xs) ys a = ground (arith, contains-append xs ys a)

  pub contains-unseen :
      (seen xs : List A) (a : A)
      → contains (unseen seen xs) a ≡ (contains xs a && not (contains seen a))
  unfolding unseen
  contains-unseen seen [] a = refl
  contains-unseen seen (x ∷ xs) a = elim (Bool-cases (contains seen x)) [
    | inl old ↦ ground (arith, contains-unseen seen xs a, e.beq_iff a x)
    | inr new ↦ ground (arith, contains-unseen (x ∷ seen) xs a, e.beq_iff a x)
  ]

  -- Removing repeated values keeps exactly the values that were there.
  pub contains-dedup : (xs : List A) (a : A) → contains (dedup xs) a ≡ contains xs a
  unfolding dedup
  contains-dedup xs a = ground (arith, contains-unseen [] xs a)

  -- Nothing is left only if there was nothing.
  pub nonempty-dedup : (xs : List A) → nonempty (dedup xs) ≡ nonempty xs
  unfolding dedup
  nonempty-dedup [] = refl
  nonempty-dedup (x ∷ xs) = refl

  pub list_beq_iff : (xs ys : List A) → (list_beq xs ys ≡ true) ↔ (xs ≡ ys)
  list_beq_iff [] [] = ((λ h. refl), (λ h. refl))
  list_beq_iff [] (y ∷ ys) = ((λ h. cc), (λ h. cc))
  list_beq_iff (x ∷ xs) [] = ((λ h. cc), (λ h. cc))
  list_beq_iff (x ∷ xs) (y ∷ ys) = (
    (λ h. ground (arith, list_beq_iff xs ys, e.beq_iff x y)),
    (λ h. ground (arith, list_beq_iff xs ys, e.beq_iff x y)),
  )

module _ {ℓ} {A : Type ℓ} ⦃e : Eq A⦄ where
  abbrev pub option_beq : Option A → Option A → Bool
  option_beq none none = true
  option_beq none (some y) = false
  option_beq (some x) none = false
  option_beq (some x) (some y) = x == y

  pub option_beq_iff : (x y : Option A) → (option_beq x y ≡ true) ↔ (x ≡ y)
  option_beq_iff none none = ((λ h. refl), (λ h. refl))
  option_beq_iff none (some y) = ((λ h. cc), (λ h. cc))
  option_beq_iff (some x) none = ((λ h. cc), (λ h. cc))
  option_beq_iff (some x) (some y) =
      ((λ h. ground (arith, e.beq_iff x y)), (λ h. ground (arith, e.beq_iff x y)))

  instance abbrev pub list_eq : Eq (List A)
  list_eq = record { beq = list_beq; beq_iff = list_beq_iff }

  instance abbrev pub option_eq : Eq (Option A)
  option_eq = record { beq = option_beq; beq_iff = option_beq_iff }

module _ {ℓ} {A : Type ℓ} where
  -- The value that a dict built from `xs` in order holds at a key: the last that fits.
  abbrev pub last_match? : (A → Bool) → List A → Option A
  last_match? p xs = last? (keep p xs)

  -- A predicate that holds of every element.
  abbrev pub All {κ} : (A → Type κ) → List A → Type κ
  All P [] = Unit
  All P (x ∷ xs) = P x × All P xs

  pub append_eq_nil : (xs ys : List A) → xs ++ ys ≡ [] → (xs ≡ []) × (ys ≡ [])
  append_eq_nil [] ys h = (refl, h)
  append_eq_nil (x ∷ xs) ys h = cc

  pub nonempty-append : (xs ys : List A) → nonempty (xs ++ ys) ≡ (nonempty xs || nonempty ys)
  nonempty-append [] ys = refl
  nonempty-append (x ∷ xs) ys = refl

  pub nonempty-eq-false : (xs : List A) → nonempty xs ≡ false → xs ≡ []
  nonempty-eq-false [] h = refl
  nonempty-eq-false (x ∷ xs) h = cc

  pub any-eq-false : (p : A → Bool) (xs : List A) → any p xs ≡ false → All (λ x. p x ≡ false) xs
  any-eq-false p [] h = tt
  any-eq-false p (x ∷ xs) h = (ground arith, any-eq-false p xs (ground arith))

  pub any-of-All : (p : A → Bool) (xs : List A) → All (λ x. p x ≡ false) xs → any p xs ≡ false
  any-of-All p [] h = refl
  any-of-All p (x ∷ xs) h = ground (arith, any-of-All p xs h.1)

  pub All-map {κ μ} :
      {P : A → Type κ} {Q : A → Type μ} (f : (x : A) → P x → Q x) (xs : List A)
      → All P xs
      → All Q xs
  All-map f [] h = tt
  All-map f (x ∷ xs) h = (f x h.0, All-map f xs h.1)

  pub all-append : (p : A → Bool) (xs ys : List A) → all p (xs ++ ys) ≡ (all p xs && all p ys)
  all-append p [] ys = refl
  all-append p (x ∷ xs) ys = ground (arith, all-append p xs ys)

  -- What is found was there, so it has what all have, and it passes the test.
  pub first?-all :
      (p q : A → Bool) (xs : List A) (a : A) → first? p xs ≡ some a → all q xs ≡ true → q a ≡ true
  first?-all p q [] a h e = cc
  first?-all p q (x ∷ xs) a h e = ground (arith, first?-all p q xs a)

  pub first?-passes : (p : A → Bool) (xs : List A) (a : A) → first? p xs ≡ some a → p a ≡ true
  first?-passes p [] a h = cc
  first?-passes p (x ∷ xs) a h = ground (arith, first?-passes p xs a)

  -- What is found in a list with one more element stood in the list, or is that element.
  pub first?-snoc :
      (p : A → Bool) (xs : List A) (y a : A)
      → first? p (xs ++ y ∷ []) ≡ some a
      → (first? p xs ≡ some a) ⊎ (a ≡ y)
  first?-snoc p [] y a h = ground arith
  first?-snoc p (x ∷ xs) y a h = ground (arith, first?-snoc p xs y a)

  pub first?-snoc_found :
      (p : A → Bool) (xs : List A) (y a : A)
      → first? p xs ≡ some a
      → first? p (xs ++ y ∷ []) ≡ some a
  first?-snoc_found p [] y a h = cc
  first?-snoc_found p (x ∷ xs) y a h = ground (arith, first?-snoc_found p xs y a)

  pub first?-snoc_new :
      (p : A → Bool) (xs : List A) (y : A)
      → first? p xs ≡ none
      → p y ≡ true
      → first? p (xs ++ y ∷ []) ≡ some y
  first?-snoc_new p [] y h e = ground arith
  first?-snoc_new p (x ∷ xs) y h e = ground (arith, first?-snoc_new p xs y)

-- Two different values in a list, and its length without repeated values.
module _ {ℓ} {A : Type ℓ} ⦃e : Eq A⦄ where
  abbrev pub Differing : List A → Type ℓ
  Differing xs = (a b : A) × (contains xs a ≡ true) × (contains xs b ≡ true) × (a ≢ b)

  contains-head : (x : A) (xs : List A) → contains (x ∷ xs) x ≡ true
  contains-head x xs = ground (arith, e.beq_iff x x)

  unseen-new :
      (seen xs : List A) (x : A) (rest : List A)
      → unseen seen xs ≡ x ∷ rest
      → (contains xs x ≡ true) × (contains seen x ≡ false)
  unseen-new seen xs x rest h =
      let there = ap (λ ys. contains ys x) h ∙ contains-head x rest in
      let both = sym (contains-unseen seen xs x) ∙ there in (ground arith, ground arith)

  two-dedup : (xs : List A) → 2 ≤ length (dedup xs) → Differing xs
  unfolding dedup unseen
  two-dedup [] h = absurd (omega arith)
  two-dedup (x ∷ xs) h = go (unseen (x ∷ []) xs) refl (omega arith)
    where
      go : (ys : List A) → unseen (x ∷ []) xs ≡ ys → 1 ≤ length ys → Differing (x ∷ xs)
      go [] q l = absurd (omega arith)
      go (y ∷ ys) q l =
          let (there, other) = unseen-new (x ∷ []) xs y ys q in
          (x, y, contains-head x xs, ground arith, λ same. ground (arith, e.beq_iff x y))

  length-Differing : (xs : List A) → Differing xs → 2 ≤ length xs
  length-Differing [] (a, b, p, q, n) = cc
  length-Differing (x ∷ []) (a, b, p, q, n) = absurd (ground (arith, e.beq_iff a x, e.beq_iff b x))
  length-Differing (x ∷ y ∷ xs) (a, b, p, q, n) = omega arith

  -- A list keeps two values or more exactly when two of its values differ.
  pub dedup-Differing : (xs : List A) → (2 ≤ length (dedup xs)) ↔ Differing xs
  dedup-Differing xs = (
    two-dedup xs,
    (λ (a, b, p, q, n).
        length-Differing (dedup xs) (a, b, contains-dedup xs a ∙ p, contains-dedup xs b ∙ q, n)),
  )

module _ {ℓ κ} {A : Type ℓ} where
  -- What is found has what all have.
  pub first?-All :
      (p : A → Bool) (P : A → Type κ) (xs : List A) (a : A) → first? p xs ≡ some a → All P xs → P a
  first?-All p P [] a e h = cc
  first?-All p P (x ∷ xs) a e h = elim (Bool-cases (p x)) [
    | inl on ↦ let is : x ≡ a = ground arith in subst P is h.0
    | inr off ↦ first?-All p P xs a (ground arith) h.1
  ]

  pub All-append : (P : A → Type κ) (xs ys : List A) → All P xs → All P ys → All P (xs ++ ys)
  All-append P [] ys h k = k
  All-append P (x ∷ xs) ys h k = (h.0, All-append P xs ys h.1 k)
