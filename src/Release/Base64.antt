-- ===== src/Release/Base64.antt =====
-- `_encode` and `_decode` of policy/release_signing.py, with what they use of Python's base64. A byte
-- is a number below 256 and a character its code.
use nokinc_factory.Prelude.{
  ℕ, ◌+◌, ◌-◌, ◌*◌, ◌/◌, ◌%◌, Bool, true, false, not, ◌&&◌, ◌||◌, List, [], ◌∷◌, ◌++◌, Option, none,
  some, any, length, nonempty, leb, ltb, ◌==◌, nat_eq, if◌then◌else◌, Result, ok, err,
}

pub data ReleaseVerificationError : Type 0 where
  signature_encoding signed_evidence_required evidence_mismatch : ReleaseVerificationError

-- The character `=`.
abbrev pub pad : ℕ
pad = 61

-- The URL-safe alphabet: `A`-`Z`, `a`-`z`, `0`-`9`, `-` and `_`.
unfoldable pub char_of : ℕ → ℕ
char_of v =
    if ltb v 26
    then v + 65
    else if ltb v 52
    then v + 71
    else if ltb v 62
    then v - 4
    else if v == 62
    then 45
    else 95

unfoldable pub value_of : ℕ → Option ℕ
value_of c =
    if leb 65 c && leb c 90
    then some (c - 65)
    else if leb 97 c && leb c 122
    then some (c - 71)
    else if leb 48 c && leb c 57
    then some (c + 4)
    else if c == 45
    then some 62
    else if c == 95
    then some 63
    else none

abbrev pub in_alphabet : ℕ → Bool
in_alphabet c = elim (value_of c) [ none ↦ false | some v ↦ true ]

-- `base64.urlsafe_b64encode`.
unfoldable pub urlsafe_b64encode : List ℕ → List ℕ
unfolding char_of
urlsafe_b64encode [] = []
urlsafe_b64encode (a ∷ []) = char_of (a / 4) ∷ char_of (a % 4 * 16) ∷ pad ∷ pad ∷ []
urlsafe_b64encode (a ∷ b ∷ []) =
    char_of (a / 4) ∷ char_of (a % 4 * 16 + b / 16) ∷ char_of (b % 16 * 4) ∷ pad ∷ []
urlsafe_b64encode (a ∷ b ∷ c ∷ rest) =
    char_of (a / 4)
    ∷ char_of (a % 4 * 16 + b / 16)
    ∷ char_of (b % 16 * 4 + c / 64)
    ∷ char_of (c % 64)
    ∷ urlsafe_b64encode rest

-- `.rstrip(b"=")`.
unfoldable pub rstrip : List ℕ → List ℕ
rstrip [] = []
rstrip (c ∷ cs) = let rest = rstrip cs in if c == pad && not (nonempty rest) then [] else c ∷ rest

unfoldable pub encode : List ℕ → List ℕ
unfolding urlsafe_b64encode rstrip
encode signature = rstrip (urlsafe_b64encode signature)

-- The padding `"=" * (-len(value) % 4)`.
unfoldable pub padding : ℕ → List ℕ
padding n =
    if n % 4 == 0
    then []
    else if n % 4 == 1
    then pad ∷ pad ∷ pad ∷ []
    else if n % 4 == 2
    then pad ∷ pad ∷ []
    else pad ∷ []

-- The bytes of a group of four characters, the last of which may be padding; bits that are left over
-- are dropped.
unfoldable pub group : Option ℕ → Option ℕ → Option ℕ → Option ℕ → Option (List ℕ)
group (some x) (some y) (some z) (some w) =
    some ((x * 4 + y / 16) ∷ (y % 16 * 16 + z / 4) ∷ (z % 4 * 64 + w) ∷ [])
group (some x) (some y) (some z) none = some ((x * 4 + y / 16) ∷ (y % 16 * 16 + z / 4) ∷ [])
group (some x) (some y) none none = some ((x * 4 + y / 16) ∷ [])
group (some x) (some y) none (some w) = none
group (some x) none z w = none
group none y z w = none

abbrev pub append? : Option (List ℕ) → Option (List ℕ) → Option (List ℕ)
append? none rest = none
append? (some bytes) none = none
append? (some bytes) (some rest) = some (bytes ++ rest)

-- `base64.urlsafe_b64decode` of characters of the alphabet with padding at the end.
unfoldable pub urlsafe_b64decode : List ℕ → Option (List ℕ)
unfolding group value_of
urlsafe_b64decode [] = some []
urlsafe_b64decode (a ∷ b ∷ c ∷ e ∷ rest) =
    append? (group (value_of a) (value_of b) (value_of c) (value_of e)) (urlsafe_b64decode rest)
urlsafe_b64decode (a ∷ []) = none
urlsafe_b64decode (a ∷ b ∷ []) = none
urlsafe_b64decode (a ∷ b ∷ c ∷ []) = none

abbrev pub decoded : Option (List ℕ) → Result ReleaseVerificationError (List ℕ)
decoded none = err ReleaseVerificationError.signature_encoding
decoded (some bytes) = ok bytes

unfoldable pub decode : List ℕ → Result ReleaseVerificationError (List ℕ)
unfolding urlsafe_b64decode padding
decode value =
    if not (nonempty value) || any (λ c. not (in_alphabet c)) value
    then err ReleaseVerificationError.signature_encoding
    else decoded (urlsafe_b64decode (value ++ padding (length value)))
