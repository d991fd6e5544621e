-- ===== src/Leb128/Signed/Groups.antt =====
-- The groups of a signed number, one with each byte.
use otic.Prelude.{
  ℕ, zero, suc, ◌+◌, ◌-◌, ◌*◌, ◌/◌, ◌%◌, ◌^◌, ◌≤◌, ◌<◌, bit_and, bit_or, Bool, true, false, ◌&&◌,
  ◌||◌, some, List, [], ◌∷◌, ltb, ◌==◌, ◌≡◌, refl, ap, arith, inl, inr, Bool-cases,
}
use native.Mathlib.Nat.{pow-le-pow_right, pow-suc}
use otic.Prelude.Bits.{bit_and_127, bit_and_64, bit_or_shifted, bit_or_top}
use otic.Leb128.Decode.{seven_more}
use otic.Leb128.Signed.{shift_right, sign_bit, encode_signed_loop, extend, decode_signed_loop}

pub sign_lem : (v : ℕ) → sign_bit v ≡ v / 64 % 2
unfolding sign_bit
sign_lem v = omega (arith, bit_and_64 (v % 256))

pub byte_lem : (v : ℕ) → bit_and (v % 256) 0x7f ≡ v % 128
byte_lem v = omega (arith, bit_and_127 (v % 256))

pub small_power : (s : ℕ) → s ≤ 56 → 2 ^ s ≤ 2 ^ 56
small_power s h = pow-le-pow_right {n = 2} (omega arith) {i = s} {j = 56} h

-- `k` groups are above the shift `s` of one of ten.
pub powers : (k s : ℕ) → s + 7 * k ≡ 63 → 2 ^ s * 128 ^ k ≡ 2 ^ 63
powers zero s e = let last : s ≡ 63 = omega (arith, e) in rw last refl
powers (suc k) s e = omega (
  arith,
  powers k (s + 7) (omega (arith, e)),
  ap (λ (t : ℕ). t * 128 ^ k) (seven_more s),
  ap (λ (t : ℕ). 2 ^ s * t) (pow-suc 128 k),
)

module _ (b s acc : ℕ) (hb : b < 128) (hs : s ≤ 56) (ha : acc < 2 ^ s) where
  pub group_fits : b * 2 ^ s < 2 ^ 63
  group_fits = grind (arith, small_power s hs)

  pub group : bit_or acc (b * 2 ^ s % 2 ^ 64) ≡ acc + b * 2 ^ s
  group =
      let fits : b * 2 ^ s % 2 ^ 64 ≡ b * 2 ^ s = omega (arith, group_fits) in
      rw fits (bit_or_shifted s acc b ha)

  pub below : acc + b * 2 ^ s < 2 ^ (s + 7)
  below = grind (arith, seven_more s)

  -- A group with others behind it.
  pub inner :
      (rest : List ℕ)
      → decode_signed_loop ((b + 128) ∷ rest) acc s
        ≡ decode_signed_loop rest (acc + b * 2 ^ s) (s + 7)
  unfolding decode_signed_loop
  inner rest =
      let bits : bit_and (b + 128) 0x7f ≡ b = omega (arith, bit_and_127 (b + 128), hb) in
      let on : ((b + 128) / 2 ^ 7 == 0) ≡ false = ground arith in
      let shift : (s + 7) % 256 ≡ s + 7 = omega (arith, hs) in
      let short : ltb s 64 ≡ true = ground arith in rw (short, on, bits) (rw (group, shift) refl)

  -- The last group.
  pub final :
      (rest : List ℕ)
      → decode_signed_loop (b ∷ rest) acc s ≡ some (extend (acc + b * 2 ^ s) (s + 7) b, rest)
  unfolding decode_signed_loop
  final rest =
      let bits : bit_and b 0x7f ≡ b = omega (arith, bit_and_127 b, hb) in
      let off : (b / 2 ^ 7 == 0) ≡ true = ground arith in
      let shift : (s + 7) % 256 ≡ s + 7 = omega (arith, hs) in
      let short : ltb s 64 ≡ true = ground arith in rw (short, off, bits) (rw (group, shift) refl)

pub extend_positive : (x t b : ℕ) → b < 64 → extend x t b ≡ x
unfolding extend
extend_positive x t b small =
    let sign : (sign_bit b == 1) ≡ false = ground (arith, sign_lem b) in
    elim (Bool-cases (ltb t 64)) [ inl p ↦ rw (p, sign) refl | inr p ↦ rw p refl ]

pub extend_negative :
    (k x t b : ℕ)
    → t + 7 * k ≡ 63
    → x < 2 ^ t
    → 64 ≤ b
    → b < 128
    → extend x t b + 2 ^ t ≡ x + 2 ^ 64
unfolding extend
extend_negative k x t b e hx hb hb' =
    let sign : (sign_bit b == 1) ≡ true = ground (arith, sign_lem b) in
    let short : ltb t 64 ≡ true = ground arith in
    let whole = powers k t e in
    let m = 2 * 128 ^ k - 1 in
    let t_small = pow-le-pow_right {n = 2} (omega arith) {i = t} {j = 63} (omega (arith, e)) in
    let t_large = pow-le-pow_right {n = 2} (omega arith) {i = 0} {j = t} (omega arith) in
    let k_large = pow-le-pow_right {n = 128} (omega arith) {i = 0} {j = k} (omega arith) in
    let m_suc : 2 * 128 ^ k ≡ m + 1 = omega (arith, k_large) in
    let above : m * 2 ^ t + 2 ^ t ≡ 2 ^ 64 =
      omega (arith, ap (λ (z : ℕ). z * 2 ^ t) m_suc, whole) in
    let bits : (2 ^ 64 - 1) * 2 ^ t % 2 ^ 64 ≡ m * 2 ^ t = omega (arith, above, t_small, t_large) in
    rw (short, sign) (rw bits (omega (arith, bit_or_shifted t x m hx, above)))

-- The rounds of the encoder: it ends, or it goes on.
pub ends :
    (fuel v : ℕ) (negative : Bool)
    → (shift_right negative v == 0 && sign_bit v == 0
        || shift_right negative v == 2 ^ 64 - 1 && sign_bit v == 1)
      ≡ true
    → encode_signed_loop (suc fuel) negative v ≡ v % 128 ∷ []
unfolding encode_signed_loop
ends fuel v negative h = rw (h, byte_lem v) refl

pub goes_on :
    (fuel v : ℕ) (negative : Bool)
    → (shift_right negative v == 0 && sign_bit v == 0
        || shift_right negative v == 2 ^ 64 - 1 && sign_bit v == 1)
      ≡ false
    → encode_signed_loop (suc fuel) negative v
      ≡ (v % 128 + 128) ∷ encode_signed_loop fuel negative (shift_right negative v)
unfolding encode_signed_loop
goes_on fuel v negative h = rw (h, byte_lem v) (rw (bit_or_top (v % 128) (omega arith)) refl)

pub positive_shift : (v : ℕ) → shift_right false v ≡ v / 128
unfolding shift_right
positive_shift v = refl

-- The tenth group, of which one bit is left.
pub tenth :
    (b bit acc : ℕ) (rest : List ℕ)
    → acc < 2 ^ 63
    → (b / 2 ^ 7 == 0) ≡ true
    → bit_and b 0x7f * 2 ^ 63 % 2 ^ 64 ≡ bit * 2 ^ 63
    → decode_signed_loop (b ∷ rest) acc 63 ≡ some (acc + bit * 2 ^ 63, rest)
unfolding decode_signed_loop extend
tenth b bit acc rest ha off bits = rw (off, bits) (rw (bit_or_shifted 63 acc bit ha) refl)
