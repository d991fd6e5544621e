-- ===== src/Leb128/Encode.antt =====
-- What `leb128_encode_unsigned` writes, in plain arithmetic.
use otic.Prelude.{
  ℕ, zero, suc, ◌+◌, ◌/◌, ◌%◌, ◌^◌, ◌≤◌, ◌<◌, ◌≡◌, refl, ap, sym, arith, bit_and, bit_or, [], ◌∷◌,
  length, All, IsByte,
}
use native.Mathlib.Decide.{dec_lt}
use native.Mathlib.Nat.{pow-suc, one-le-pow}
use otic.Prelude.Bits.{bit_and_127, bit_or_128, bit_or_top}
use otic.Leb128.{encode_loop, encode_unsigned, reference_loop, reference_encode}

group : (v : ℕ) → bit_or 0x80 (bit_and v 0x7f) % 256 ≡ v % 128 + 128
group v =
    omega
      (arith, bit_and_127 v, ap (bit_or 0x80) (bit_and_127 v), bit_or_128 (v % 128) (omega arith))

-- More fuel than the value changes nothing.
encode_loop_fuel : (m n v : ℕ) → v < m → v < n → encode_loop m v ≡ encode_loop n v
unfolding encode_loop
encode_loop_fuel zero n v p q = absurd (omega arith)
encode_loop_fuel (suc m) zero v p q = absurd (omega arith)
encode_loop_fuel (suc m) (suc n) v p q = ground (arith, encode_loop_fuel m n (v / 2 ^ 7))

-- The encoding of a small number is its byte.
pub encode_small : (v : ℕ) → v < 128 → encode_unsigned v ≡ v ∷ []
unfolding encode_unsigned
encode_small v h = ground arith

-- The encoding of any other is the byte of its lowest group and the encoding of the rest.
pub encode_large :
    (v : ℕ) → 128 ≤ v → encode_unsigned v ≡ (v % 128 + 128) ∷ encode_unsigned (v / 128)
unfolding encode_unsigned
encode_large v h =
    ground
      (arith, group v, encode_loop_fuel v (suc (v / 128)) (v / 128) (omega arith) (omega arith))

-- Induction along the groups of a number.
groups_induction {ℓ} :
    (P : ℕ → Type ℓ)
    → ((v : ℕ) → v < 128 → P v)
    → ((v : ℕ) → 128 ≤ v → P (v / 128) → P v)
    → (n v : ℕ) → v < n
    → P v
groups_induction P small large zero v h = absurd (omega arith)
groups_induction P small large (suc n) v h = elim (dec_lt v 128) [
  | yes p ↦ small v p
  | no p ↦ large v (omega arith) (groups_induction P small large n (v / 128) (omega arith))
]

-- Every element written is a byte.
pub encode-IsByte : (v : ℕ) → All IsByte (encode_unsigned v)
encode-IsByte v =
    groups_induction (λ v. All IsByte (encode_unsigned v))
      (λ v h. rw (encode_small v h) (omega arith))
      (λ v h ih. rw (encode_large v h) (omega arith, ih)) (suc v) v (omega arith)

-- A number below 128 to the power k + 1 is encoded in at most k + 1 bytes.
pub length-encode-le : (k v : ℕ) → v < 128 ^ suc k → length (encode_unsigned v) ≤ suc k
length-encode-le zero v h = rw (encode_small v (omega arith)) (omega arith)
length-encode-le (suc k) v h = elim (dec_lt v 128) [
  | yes p ↦ rw (encode_small v p) (omega arith)
  | no p ↦
      rw (encode_large v (omega arith))
        (omega (arith, length-encode-le k (v / 128) (omega (arith, pow-suc 128 (suc k)))))
]

pub length-encode-pos : (v : ℕ) → 1 ≤ length (encode_unsigned v)
length-encode-pos v = elim (dec_lt v 128) [
  | yes p ↦ rw (encode_small v p) (omega arith)
  | no p ↦ rw (encode_large v (omega arith)) (omega arith)
]

-- A number whose encoding has at most k + 1 bytes is below 128 to the power k + 1, so that no
-- encoding is longer than it has to be.
pub lt_of_length-encode : (k v : ℕ) → length (encode_unsigned v) ≤ suc k → v < 128 ^ suc k
lt_of_length-encode zero v h = elim (dec_lt v 128) [
  | yes p ↦ omega arith
  | no p ↦
      absurd (omega (arith, length-encode-pos (v / 128), rw (encode_large v (omega arith)) at h))
]
lt_of_length-encode (suc k) v h = elim (dec_lt v 128) [
  | yes p ↦ omega (arith, pow-suc 128 (suc k), one-le-pow (suc k) 128 (omega arith))
  | no p ↦
      let fits = rw (encode_large v (omega arith)) at h in
      omega (arith, pow-suc 128 (suc k), lt_of_length-encode k (v / 128) (omega arith))
]

reference_loop-encode : (n v : ℕ) → v < n → reference_loop n v ≡ encode_loop n v
unfolding reference_loop encode_loop
reference_loop-encode zero v h = refl
reference_loop-encode (suc n) v h = ground (
  arith,
  bit_and_127 v,
  bit_and_127 (v % 256),
  bit_or_128 (bit_and v 127),
  bit_or_top (bit_and (v % 256) 127),
  reference_loop-encode n (v / 2 ^ 7),
)

-- The encoder writes the same bytes as the loop that the comment of the source gives as its
-- origin.
pub encode-eq-reference : (value : ℕ) → encode_unsigned value ≡ reference_encode value
unfolding encode_unsigned reference_encode
encode-eq-reference value = sym (reference_loop-encode (suc value) value (omega arith))
