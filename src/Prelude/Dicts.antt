-- ===== src/Prelude/Dicts.antt =====
-- A Python dict with numeric keys, in insertion order, and its values in sorted key order.
use Prim.Native.Nat.{ℕ}
use mathlib.Core.Path.{◌≡◌, refl}
use mathlib.Core.Option.{Option, none, some}
use mathlib.Core.List.{List, [], ◌∷◌}
use native.Mathlib.Omega.{arith}
use nokinc_factory.Prelude.Tests.{leb, if◌then◌else◌, ◌==◌, nat_eq}

abbrev pub Dict {ℓ} : Type ℓ → Type ℓ
Dict V = List (ℕ × V)

module _ {ℓ} {V : Type ℓ} where
  abbrev pub lookup : ℕ → Dict V → Option V
  lookup k [] = none
  lookup k ((j, v) ∷ d) = let rest = lookup k d in if k == j then some v else rest

  -- `d[k] = v`: a key that is there keeps its place.
  abbrev pub insert : ℕ → V → Dict V → Dict V
  insert k v [] = (k, v) ∷ []
  insert k v ((j, w) ∷ d) = let rest = insert k v d in if k == j then (k, v) ∷ d else (j, w) ∷ rest

  abbrev pub values : Dict V → List V
  values [] = []
  values ((k, v) ∷ d) = v ∷ values d

  abbrev pub keys : Dict V → List ℕ
  keys [] = []
  keys ((k, v) ∷ d) = k ∷ keys d

  pub lookup-insert :
      (j k : ℕ) (v : V) (d : Dict V)
      → lookup j (insert k v d) ≡ (if j == k then some v else lookup j d)
  lookup-insert j k v [] = refl
  lookup-insert j k v ((i, w) ∷ d) = ground (arith, lookup-insert j k v d)

  abbrev place : ℕ → V → Dict V → Dict V
  place k v [] = (k, v) ∷ []
  place k v ((j, w) ∷ d) =
      let rest = place k v d in if leb k j then (k, v) ∷ (j, w) ∷ d else (j, w) ∷ rest

  -- The dict with its entries in the order of `sorted(d)`.
  abbrev pub sort_keys : Dict V → Dict V
  sort_keys [] = []
  sort_keys ((k, v) ∷ d) = place k v (sort_keys d)

  lookup-place :
      (j k : ℕ) (v : V) (d : Dict V)
      → lookup k d ≡ none
      → lookup j (place k v d) ≡ (if j == k then some v else lookup j d)
  lookup-place j k v [] h = refl
  lookup-place j k v ((i, w) ∷ d) h = ground (arith, lookup-place j k v d)

  -- No key stands twice.
  abbrev pub IsKeyed : Dict V → Type ℓ
  IsKeyed [] = Unit {ℓ}
  IsKeyed ((k, v) ∷ d) = (lookup k d ≡ none) × IsKeyed d

  lookup-sort_keys-none :
      (k : ℕ) (d : Dict V) → IsKeyed d → lookup k d ≡ none → lookup k (sort_keys d) ≡ none
  lookup-sort_keys-none k [] h e = refl
  lookup-sort_keys-none k ((j, v) ∷ d) h e = ground (
    arith,
    lookup-place k j v (sort_keys d),
    lookup-sort_keys-none j d h.1 h.0,
    lookup-sort_keys-none k d h.1,
  )

  pub lookup-sort_keys : (k : ℕ) (d : Dict V) → IsKeyed d → lookup k (sort_keys d) ≡ lookup k d
  lookup-sort_keys k [] h = refl
  lookup-sort_keys k ((j, v) ∷ d) h = ground (
    arith,
    lookup-place k j v (sort_keys d),
    lookup-sort_keys-none j d h.1 h.0,
    lookup-sort_keys k d h.1,
  )

  pub insert-IsKeyed : (k : ℕ) (v : V) (d : Dict V) → IsKeyed d → IsKeyed (insert k v d)
  insert-IsKeyed k v [] h = (refl, tt)
  insert-IsKeyed k v ((j, w) ∷ d) h =
      ground (arith, insert-IsKeyed k v d h.1, lookup-insert j k v d)
