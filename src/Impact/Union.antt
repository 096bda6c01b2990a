-- ===== src/Impact/Union.antt =====
-- The classification of a diff is that of its files together, and fails closed, policy/impact.py.
use nokinc_factory.Prelude.{
  ◌≡◌, refl, sym, ap, subst, ◌∙◌, Bool, true, false, not, ◌||◌, List, [], ◌∷◌, ◌++◌, any, keep,
  contains, contains-append, nonempty, nonempty-append, ◌==◌, nat_eq, list_eq, if◌then◌else◌,
  Bool-cases, inl, inr, arith,
}
use nokinc_factory.Impact.Classes.{
  ImpactClass, ImpactClass-discrete, class_eq, Evidence, evidence_eq, invalidates,
}
use nokinc_factory.Impact.Changes.{FileChange, Matching, suffix, is_cosmetic}
use nokinc_factory.Impact.Classify.{
  SecuritySensitiveRegistry, requires_human, when, or_ordinary, file_classes, change_classes,
  all_classes, without_cosmetic, invalidated_by, classify,
}

append_assoc {ℓ} : {A : Type ℓ} (xs ys zs : List A) → (xs ++ ys) ++ zs ≡ xs ++ (ys ++ zs)
append_assoc [] ys zs = refl
append_assoc (x ∷ xs) ys zs = ap (λ t. x ∷ t) (append_assoc xs ys zs)

-- Whether a class of a list invalidates the evidence.
abbrev hits : Evidence → List ImpactClass → Bool
hits e classes = any (λ c. contains (invalidates c) e) classes

contains-invalidated_by :
    (classes : List ImpactClass) (e : Evidence)
    → contains (invalidated_by classes) e ≡ hits e classes
unfolding invalidated_by
contains-invalidated_by [] e = refl
contains-invalidated_by (c ∷ cs) e =
    contains-append (invalidates c) (invalidated_by cs) e
    ∙ ground (arith, contains-invalidated_by cs e)

hits-append :
    (e : Evidence) (xs ys : List ImpactClass) → hits e (xs ++ ys) ≡ (hits e xs || hits e ys)
hits-append e [] ys = refl
hits-append e (x ∷ xs) ys = ground (arith, hits-append e xs ys)

cosmetic-hits :
    (e : Evidence) (c : ImpactClass)
    → (c == ImpactClass.cosmetic) ≡ true
    → contains (invalidates c) e ≡ false
unfolding invalidates
cosmetic-hits e c h = let is = (class_eq.beq_iff c ImpactClass.cosmetic).0 h in rw is refl

hits-keep :
    (e : Evidence) (cs : List ImpactClass)
    → hits e (keep (λ c. not (c == ImpactClass.cosmetic)) cs) ≡ hits e cs
hits-keep e [] = refl
hits-keep e (c ∷ cs) = ground (arith, hits-keep e cs, cosmetic-hits e c)

hits-without_cosmetic :
    (e : Evidence) (cs : List ImpactClass) → hits e (without_cosmetic cs) ≡ hits e cs
unfolding without_cosmetic
hits-without_cosmetic e cs = ground (arith, hits-keep e cs)

or_ordinary-nonempty : (cs : List ImpactClass) → nonempty cs ≡ true → or_ordinary cs ≡ cs
or_ordinary-nonempty [] h = cc
or_ordinary-nonempty (c ∷ cs) h = refl

contains-keep :
    (cs : List ImpactClass)
    → contains cs ImpactClass.unclassifiable ≡ true
    → contains (keep (λ c. not (c == ImpactClass.cosmetic)) cs) ImpactClass.unclassifiable ≡ true
unfolding ImpactClass-discrete
contains-keep [] h = cc
contains-keep (c ∷ cs) h = elim (Bool-cases (c == ImpactClass.cosmetic)) [
  | inl on ↦
      let is = (class_eq.beq_iff c ImpactClass.cosmetic).0 on in
      let left : contains cs ImpactClass.unclassifiable ≡ true =
        subst (λ (x : ImpactClass). contains (x ∷ cs) ImpactClass.unclassifiable ≡ true) is h in
      ground (arith, contains-keep cs left)
  | inr off ↦ ground (arith, contains-keep cs)
]

contains-without_cosmetic :
    (cs : List ImpactClass)
    → contains cs ImpactClass.unclassifiable ≡ true
    → contains (without_cosmetic cs) ImpactClass.unclassifiable ≡ true
unfolding without_cosmetic
contains-without_cosmetic cs h = ground (arith, contains-keep cs h)

all_evidence-contains : (e : Evidence) → contains (invalidates ImpactClass.unclassifiable) e ≡ true
unfolding invalidates
all_evidence-contains e = ground arith

hits-unclassifiable :
    (e : Evidence) (cs : List ImpactClass)
    → contains cs ImpactClass.unclassifiable ≡ true
    → hits e cs ≡ true
hits-unclassifiable e [] h = cc
hits-unclassifiable e (c ∷ cs) h = elim (Bool-cases (ImpactClass.unclassifiable == c)) [
  | inl on ↦
      let is = (class_eq.beq_iff ImpactClass.unclassifiable c).0 on in
      let all : contains (invalidates c) e ≡ true =
        subst (λ (x : ImpactClass). contains (invalidates x) e ≡ true) is
          (all_evidence-contains e) in
      ground (arith, all)
  | inr off ↦ ground (arith, hits-unclassifiable e cs)
]

contains-or_ordinary :
    (cs : List ImpactClass)
    → contains cs ImpactClass.unclassifiable ≡ true
    → contains (or_ordinary cs) ImpactClass.unclassifiable ≡ true
contains-or_ordinary [] h = cc
contains-or_ordinary (c ∷ cs) h = h

module _ (m : Matching) (registry : SecuritySensitiveRegistry) where
  or_ordinary-given : (cs : List ImpactClass) → nonempty (or_ordinary cs) ≡ true
  or_ordinary-given [] = refl
  or_ordinary-given (c ∷ cs) = refl

  nonempty-change_classes : (c : FileChange) → nonempty (change_classes m registry c) ≡ true
  unfolding change_classes file_classes
  nonempty-change_classes c =
      elim (Bool-cases (not (contains registry.known_extensions (suffix c.path)))) [
        | inl on ↦ rw on refl
        | inr off ↦ rw off (cosmetic_or_not (is_cosmetic m c))
      ]
    where
      cosmetic_or_not :
          (b : Bool)
          → nonempty (if b then ImpactClass.cosmetic ∷ [] else file_classes m registry c) ≡ true
      cosmetic_or_not true = refl
      cosmetic_or_not false = or_ordinary-given _

  nonempty-all_classes :
      (changes : List FileChange)
      → nonempty changes ≡ true
      → nonempty (all_classes m registry changes) ≡ true
  unfolding all_classes
  nonempty-all_classes [] h = cc
  nonempty-all_classes (c ∷ cs) h =
      nonempty-append (change_classes m registry c) _ ∙ ground (arith, nonempty-change_classes c)

  all_classes-append :
      (first second : List FileChange)
      → all_classes m registry (first ++ second)
        ≡ all_classes m registry first ++ all_classes m registry second
  unfolding all_classes
  all_classes-append [] second = refl
  all_classes-append (c ∷ cs) second =
      ap (λ t. change_classes m registry c ++ t) (all_classes-append cs second)
      ∙ sym (
          append_assoc (change_classes m registry c) (all_classes m registry cs)
            (all_classes m registry second))

  -- What a diff with a file invalidates: what its flags and its files do.
  invalidated-hits :
      (changes : List FileChange) (surface dependencies : Bool) (e : Evidence)
      → nonempty changes ≡ true
      → contains (classify m registry changes surface dependencies).invalidated e ≡ (
          hits e (
            when surface ImpactClass.interface_surface
            ++ when dependencies ImpactClass.new_dependency)
          || hits e (all_classes m registry changes))
  unfolding classify
  invalidated-hits changes surface dependencies e h =
      let flags =
        when surface ImpactClass.interface_surface
        ++ when dependencies ImpactClass.new_dependency in
      let rest = all_classes m registry changes in
      let there : nonempty (flags ++ rest) ≡ true =
        nonempty-append flags rest ∙ ground (arith, nonempty-all_classes changes h) in
      contains-invalidated_by (without_cosmetic (or_ordinary (flags ++ rest))) e
      ∙ hits-without_cosmetic e (or_ordinary (flags ++ rest))
      ∙ ap (hits e) (or_ordinary-nonempty _ there)
      ∙ hits-append e flags rest

  -- A diff of two parts that each have a file invalidates exactly the evidence that the
  -- classification of one of the parts invalidates, under the same flags.
  pub classify-append :
      (first second : List FileChange) (surface dependencies : Bool) (e : Evidence)
      → nonempty first ≡ true
      → nonempty second ≡ true
      → contains (classify m registry (first ++ second) surface dependencies).invalidated e ≡ (
          contains (classify m registry first surface dependencies).invalidated e
          || contains (classify m registry second surface dependencies).invalidated e)
  classify-append first second surface dependencies e h k =
      let both =
        invalidated-hits (first ++ second) surface dependencies e
          (nonempty-append first second ∙ ground (arith, h)) in
      let split =
        ap (hits e) (all_classes-append first second)
        ∙ hits-append e (all_classes m registry first) (all_classes m registry second) in
      ground (
        arith,
        both,
        split,
        invalidated-hits first surface dependencies e h,
        invalidated-hits second surface dependencies e k,
      )

  all_classes-unclassifiable :
      (changes : List FileChange)
      → any (λ (c : FileChange). not (contains registry.known_extensions (suffix c.path))) changes
        ≡ true
      → contains (all_classes m registry changes) ImpactClass.unclassifiable ≡ true
  unfolding all_classes change_classes ImpactClass-discrete
  all_classes-unclassifiable [] h = cc
  all_classes-unclassifiable (c ∷ cs) h =
      contains-append (change_classes m registry c) (all_classes m registry cs)
        ImpactClass.unclassifiable
      ∙ elim (Bool-cases (not (contains registry.known_extensions (suffix c.path)))) [
        | inl on ↦ rw on refl
        | inr off ↦ ground (arith, all_classes-unclassifiable cs)
      ]

  -- A diff with a file whose suffix is not a known extension requires a human and invalidates
  -- every evidence, whatever its other files and flags are.
  pub classify-unclassifiable :
      (changes : List FileChange) (surface dependencies : Bool) (e : Evidence)
      → any (λ (c : FileChange). not (contains registry.known_extensions (suffix c.path))) changes
        ≡ true
      → (requires_human (classify m registry changes surface dependencies) ≡ true)
        × (contains (classify m registry changes surface dependencies).invalidated e ≡ true)
  unfolding classify
  classify-unclassifiable changes surface dependencies e h =
      let flags =
        when surface ImpactClass.interface_surface
        ++ when dependencies ImpactClass.new_dependency in
      let files = all_classes m registry changes in
      let all_of : contains (flags ++ files) ImpactClass.unclassifiable ≡ true =
        contains-append flags files ImpactClass.unclassifiable
        ∙ ground (arith, all_classes-unclassifiable changes h) in
      let given : contains (or_ordinary (flags ++ files)) ImpactClass.unclassifiable ≡ true =
        contains-or_ordinary (flags ++ files) all_of in
      let kept = contains-without_cosmetic (or_ordinary (flags ++ files)) given in
      (
        kept,
        contains-invalidated_by (without_cosmetic (or_ordinary (flags ++ files))) e
            ∙ hits-unclassifiable e (without_cosmetic (or_ordinary (flags ++ files))) kept,
      )
