-- ===== src/Release/Roundtrip.antt =====
-- Every signature can be read back from its text.
use nokinc_factory.Prelude.{
  ◌≡◌, refl, ◌∙◌, ℕ, suc, ◌+◌, ◌*◌, ◌/◌, ◌%◌, ◌<◌, true, false, not, List, [], ◌∷◌, ◌++◌, some, any,
  length, nonempty, ◌==◌, nat_eq, ok, arith, All,
}
use nokinc_factory.Release.Base64.{
  pad, char_of, value_of, in_alphabet, urlsafe_b64encode, rstrip, encode, padding, group,
  urlsafe_b64decode, decode,
}

value_of-char_of : (v : ℕ) → v < 64 → value_of (char_of v) ≡ some v
unfolding value_of char_of
value_of-char_of v h = ground arith

char_of-pad : (v : ℕ) → v < 64 → (char_of v == pad) ≡ false
unfolding char_of
char_of-pad v h = ground arith

-- The text of bytes without its padding.
bare : List ℕ → List ℕ
bare [] = []
bare (a ∷ []) = char_of (a / 4) ∷ char_of (a % 4 * 16) ∷ []
bare (a ∷ b ∷ []) = char_of (a / 4) ∷ char_of (a % 4 * 16 + b / 16) ∷ char_of (b % 16 * 4) ∷ []
bare (a ∷ b ∷ c ∷ rest) =
    char_of (a / 4)
    ∷ char_of (a % 4 * 16 + b / 16)
    ∷ char_of (b % 16 * 4 + c / 64)
    ∷ char_of (c % 64)
    ∷ bare rest

rstrip-char_of : (v : ℕ) (cs : List ℕ) → v < 64 → rstrip (char_of v ∷ cs) ≡ char_of v ∷ rstrip cs
unfolding rstrip
rstrip-char_of v cs h = rw (char_of-pad v h) refl

-- The groups of six bits of three bytes.
Sextets : ℕ → ℕ → ℕ → Type 0
Sextets a b c =
    (a / 4 < 64)
    × (a % 4 * 16 < 64)
    × (a % 4 * 16 + b / 16 < 64)
    × (b % 16 * 4 < 64)
    × (b % 16 * 4 + c / 64 < 64)
    × (c % 64 < 64)

sextets : (a b c : ℕ) → a < 256 → b < 256 → c < 256 → Sextets a b c
unfolding Sextets
sextets a b c h k l = (omega arith, omega arith, omega arith, omega arith, omega arith, omega arith)

encode-bare : (bytes : List ℕ) → All (λ b. b < 256) bytes → encode bytes ≡ bare bytes
unfolding encode bare urlsafe_b64encode Sextets rstrip
encode-bare [] h = refl
encode-bare (a ∷ []) h =
    let s = sextets a 0 0 h.0 (omega arith) (omega arith) in
    rw (char_of-pad (a / 4) s.0, char_of-pad (a % 4 * 16) s.1) refl
encode-bare (a ∷ b ∷ []) h =
    let s = sextets a b 0 h.0 h.1.0 (omega arith) in
    rw
      (char_of-pad (a / 4) s.0, char_of-pad (a % 4 * 16 + b / 16) s.2, char_of-pad (b % 16 * 4) s.3)
      refl
encode-bare (a ∷ b ∷ c ∷ rest) h =
    let s = sextets a b c h.0 h.1.0 h.1.1.0 in
    let r = encode-bare rest h.1.1.1 in
    rw
      (
        char_of-pad (a / 4) s.0,
        char_of-pad (a % 4 * 16 + b / 16) s.2,
        char_of-pad (b % 16 * 4 + c / 64) s.4,
        char_of-pad (c % 64) s.5,
        r,
      )
      refl

one_byte : (a : ℕ) → a / 4 * 4 + a % 4 * 16 / 16 ≡ a
one_byte a = omega arith

two_bytes :
    (a b : ℕ)
    → b < 256
    → (a / 4 * 4 + (a % 4 * 16 + b / 16) / 16 ≡ a)
      × ((a % 4 * 16 + b / 16) % 16 * 16 + (b % 16 * 4) / 4 ≡ b)
two_bytes a b h = (omega arith, omega arith)

three_bytes :
    (a b c : ℕ)
    → b < 256
    → c < 256
    → (a / 4 * 4 + (a % 4 * 16 + b / 16) / 16 ≡ a)
      × ((a % 4 * 16 + b / 16) % 16 * 16 + (b % 16 * 4 + c / 64) / 4 ≡ b)
      × ((b % 16 * 4 + c / 64) % 4 * 64 + c % 64 ≡ c)
three_bytes a b c h k = (omega arith, omega arith, omega arith)

padding-four : (n : ℕ) → padding (suc (suc (suc (suc n)))) ≡ padding n
unfolding padding
padding-four n = let m : suc (suc (suc (suc n))) % 4 ≡ n % 4 = omega arith in rw m refl

urlsafe_b64decode-bare :
    (bytes : List ℕ)
    → All (λ b. b < 256) bytes
    → urlsafe_b64decode (bare bytes ++ padding (length (bare bytes))) ≡ some bytes
unfolding urlsafe_b64decode group bare padding Sextets
urlsafe_b64decode-bare [] h = refl
urlsafe_b64decode-bare (a ∷ []) h =
    let s = sextets a 0 0 h.0 (omega arith) (omega arith) in
    rw (value_of-char_of (a / 4) s.0, value_of-char_of (a % 4 * 16) s.1, one_byte a) refl
urlsafe_b64decode-bare (a ∷ b ∷ []) h =
    let s = sextets a b 0 h.0 h.1.0 (omega arith) in
    let (p, q) = two_bytes a b h.1.0 in
    rw
      (
        value_of-char_of (a / 4) s.0,
        value_of-char_of (a % 4 * 16 + b / 16) s.2,
        value_of-char_of (b % 16 * 4) s.3,
        p,
        q,
      )
      refl
urlsafe_b64decode-bare (a ∷ b ∷ c ∷ rest) h =
    let s = sextets a b c h.0 h.1.0 h.1.1.0 in
    let (p, q, r) = three_bytes a b c h.1.0 h.1.1.0 in
    rw
      (
        padding-four (length (bare rest)),
        value_of-char_of (a / 4) s.0,
        value_of-char_of (a % 4 * 16 + b / 16) s.2,
        value_of-char_of (b % 16 * 4 + c / 64) s.4,
        value_of-char_of (c % 64) s.5,
        urlsafe_b64decode-bare rest h.1.1.1,
        p,
        q,
        r,
      )
      refl

in_alphabet-char_of : (v : ℕ) → v < 64 → in_alphabet (char_of v) ≡ true
in_alphabet-char_of v h = ground (arith, value_of-char_of v h)

any-bare :
    (bytes : List ℕ)
    → All (λ b. b < 256) bytes
    → any (λ c. not (in_alphabet c)) (bare bytes) ≡ false
unfolding bare Sextets
any-bare [] h = refl
any-bare (a ∷ []) h =
    let s = sextets a 0 0 h.0 (omega arith) (omega arith) in
    ground (arith, in_alphabet-char_of (a / 4) s.0, in_alphabet-char_of (a % 4 * 16) s.1)
any-bare (a ∷ b ∷ []) h =
    let s = sextets a b 0 h.0 h.1.0 (omega arith) in
    ground (
      arith,
      in_alphabet-char_of (a / 4) s.0,
      in_alphabet-char_of (a % 4 * 16 + b / 16) s.2,
      in_alphabet-char_of (b % 16 * 4) s.3,
    )
any-bare (a ∷ b ∷ c ∷ rest) h =
    let s = sextets a b c h.0 h.1.0 h.1.1.0 in
    ground (
      arith,
      in_alphabet-char_of (a / 4) s.0,
      in_alphabet-char_of (a % 4 * 16 + b / 16) s.2,
      in_alphabet-char_of (b % 16 * 4 + c / 64) s.4,
      in_alphabet-char_of (c % 64) s.5,
      any-bare rest h.1.1.1,
    )

nonempty-bare : (bytes : List ℕ) → nonempty (bare bytes) ≡ nonempty bytes
unfolding bare
nonempty-bare [] = refl
nonempty-bare (a ∷ []) = refl
nonempty-bare (a ∷ b ∷ []) = refl
nonempty-bare (a ∷ b ∷ c ∷ rest) = refl

-- A signature that is not empty, as bytes, is read back by `_decode` from the text that `_encode`
-- makes of it.
pub decode-encode :
    (signature : List ℕ)
    → All (λ byte. byte < 256) signature
    → nonempty signature ≡ true
    → decode (encode signature) ≡ ok signature
unfolding decode
decode-encode signature h n =
    rw (encode-bare signature h) (
      rw (nonempty-bare signature, n, any-bare signature h, urlsafe_b64decode-bare signature h)
        refl)

pub nonempty-encode :
    (signature : List ℕ)
    → All (λ byte. byte < 256) signature
    → nonempty signature ≡ true
    → nonempty (encode signature) ≡ true
nonempty-encode signature h n = rw (encode-bare signature h) (nonempty-bare signature ∙ n)
