-- ===== src/Leb128/Signed/RoundTrip.antt =====
-- The decoder of signed numbers inverts the encoder.
use otic.Prelude.{
  ℕ, zero, suc, ◌+◌, ◌-◌, ◌*◌, ◌/◌, ◌%◌, ◌^◌, ◌≤◌, ◌<◌, true, false, ◌&&◌, ◌||◌, some, List, ◌++◌,
  ◌==◌, ◌≡◌, refl, ap, ◌∙◌, arith,
}
use native.Mathlib.Decide.{dec_lt}
use native.Mathlib.Nat.{pow-le-pow_right, pow-suc, div-add-mod}
use otic.Prelude.Bits.{bit_or_shifted}
use otic.Leb128.{IsU64}
use otic.Leb128.Decode.{seven_more}
use otic.Leb128.Signed.{
  is_negative, shift_right, sign_bit, encode_signed_loop, encode_signed, extend, decode_signed_loop,
  decode_signed,
}
use otic.Leb128.Signed.Groups.{
  sign_lem, extend_positive, extend_negative, ends, goes_on, positive_shift, tenth, below, inner,
  final,
}

positive_ends :
    (v : ℕ)
    → v < 64
    → (shift_right false v == 0 && sign_bit v == 0
        || shift_right false v == 2 ^ 64 - 1 && sign_bit v == 1)
      ≡ true
positive_ends v h = rw (positive_shift v, sign_lem v) (ground arith)

positive_goes_on :
    (v : ℕ)
    → 64 ≤ v
    → v < 2 ^ 63
    → (shift_right false v == 0 && sign_bit v == 0
        || shift_right false v == 2 ^ 64 - 1 && sign_bit v == 1)
      ≡ false
positive_goes_on v h small = rw (positive_shift v, sign_lem v) (ground arith)

at_most_63 : (k : ℕ) → k ≤ 9 → 128 ^ k ≤ 2 ^ 63
at_most_63 k h = pow-le-pow_right {n = 128} (omega arith) {i = k} {j = 9} h

low_group : (v : ℕ) → v < 64 → v % 128 ≡ v
low_group v h = omega (arith, h)

-- The last group of a negative number, and a group before it.
sum_small : (n : ℕ) → 1 ≤ n → n ≤ 64 → (2 ^ 64 - n) % 128 + n ≡ 128
sum_small n h small = omega (arith, h, small)

sum_large : (n : ℕ) → 1 ≤ n → n ≤ 2 ^ 63 → (2 ^ 64 - n) % 128 + n ≡ 128 * ((n + 127) / 128)
sum_large n h small = omega (arith, h, small)

positive_decodes :
    (k s v acc : ℕ) (rest : List ℕ)
    → s + 7 * k ≡ 63
    → v < 128 ^ k
    → acc < 2 ^ s
    → decode_signed_loop (encode_signed_loop (suc k) false v ++ rest) acc s
      ≡ some (acc + v * 2 ^ s, rest)
positive_decodes zero s v acc rest e hv ha =
    let nothing : v ≡ 0 = omega (arith, hv) in
    let last : s ≡ 63 = omega (arith, e) in
    let ha' : acc < 2 ^ 63 = rw last at ha in
    rw (nothing, last)
      (rw (ends zero 0 false (positive_ends 0 (omega arith))) (tenth 0 0 acc rest ha' refl refl))
positive_decodes (suc k) s v acc rest e hv ha =
    let step = pow-suc 128 k in
    elim (dec_lt v 64) [
      | yes small ↦ rw (ends (suc k) v false (positive_ends v small)) (
          final (v % 128) s acc (omega arith) (omega (arith, e)) ha rest
          ∙ rw (extend_positive (acc + v % 128 * 2 ^ s) (s + 7) (v % 128) (omega (arith, small)))
              (ap (λ (x : ℕ). some (acc + x * 2 ^ s, rest)) (low_group v small)))
      | no large ↦
          rw
            (goes_on (suc k) v false (
              positive_goes_on v (omega (arith, large))
                (omega (arith, hv, at_most_63 (suc k) (omega (arith, e))))))
            (inner (v % 128) s acc (omega arith) (omega (arith, e)) ha
                (encode_signed_loop (suc k) false (shift_right false v) ++ rest)
              ∙ positive_decodes k (s + 7) (shift_right false v) (acc + v % 128 * 2 ^ s) rest
                  (omega (arith, e)) (omega (arith, positive_shift v, hv, step))
                  (below (v % 128) s acc (omega arith) (omega (arith, e)) ha)
              ∙ ap (λ (x : ℕ). some (x, rest))
                  (omega (
                    arith,
                    ap (λ (z : ℕ). z * 2 ^ s) (div-add-mod v 128),
                    ap (λ (t : ℕ). v / 128 * t) (seven_more s),
                    ap (λ (z : ℕ). z * 2 ^ (s + 7)) (positive_shift v),
                  )))
    ]

-- A negative number is `2 ^ 64 - n`, and what is left of it behind a group has `n` rounded up.
abbrev rounded : ℕ → ℕ
rounded n = (n + 127) / 128

negative_shift : (n : ℕ) → 1 ≤ n → n ≤ 2 ^ 63 → shift_right true (2 ^ 64 - n) ≡ 2 ^ 64 - rounded n
unfolding shift_right
negative_shift n h small =
    omega (arith, bit_or_shifted 57 ((2 ^ 64 - n) / 2 ^ 7) 127 (omega (arith, h, small)))

negative_ends :
    (n : ℕ)
    → 1 ≤ n
    → n ≤ 64
    → (shift_right true (2 ^ 64 - n) == 0 && sign_bit (2 ^ 64 - n) == 0
        || shift_right true (2 ^ 64 - n) == 2 ^ 64 - 1 && sign_bit (2 ^ 64 - n) == 1)
      ≡ true
negative_ends n h small =
    rw (negative_shift n h (omega (arith, small)), sign_lem (2 ^ 64 - n)) (ground arith)

negative_goes_on :
    (n : ℕ)
    → 65 ≤ n
    → n ≤ 2 ^ 63
    → (shift_right true (2 ^ 64 - n) == 0 && sign_bit (2 ^ 64 - n) == 0
        || shift_right true (2 ^ 64 - n) == 2 ^ 64 - 1 && sign_bit (2 ^ 64 - n) == 1)
      ≡ false
negative_goes_on n h small =
    rw (negative_shift n (omega (arith, h)) small, sign_lem (2 ^ 64 - n)) (ground arith)

negative_decodes :
    (k s n acc : ℕ) (rest : List ℕ)
    → s + 7 * k ≡ 63
    → 1 ≤ n
    → n ≤ 128 ^ k
    → acc < 2 ^ s
    → (x : ℕ) × (decode_signed_loop (encode_signed_loop (suc k) true (2 ^ 64 - n) ++ rest) acc s
        ≡ some (x, rest))
      × (x + n * 2 ^ s ≡ acc + 2 ^ 64)
negative_decodes zero s n acc rest e h hn ha =
    let one : n ≡ 1 = omega (arith, hn, h) in
    let last : s ≡ 63 = omega (arith, e) in
    let ha' : acc < 2 ^ 63 = rw last at ha in
    rw (one, last)
      (
        acc + 1 * 2 ^ 63,
        rw (ends zero (2 ^ 64 - 1) true (negative_ends 1 (omega arith) (omega arith)))
            (tenth 127 1 acc rest ha' refl refl),
        omega arith,
      )
negative_decodes (suc k) s n acc rest e h hn ha =
    let step = pow-suc 128 k in
    let b = (2 ^ 64 - n) % 128 in
    let n63 : n ≤ 2 ^ 63 = omega (arith, hn, at_most_63 (suc k) (omega (arith, e))) in
    elim (dec_lt 64 n) [
      | no small ↦ (
        extend (acc + b * 2 ^ s) (s + 7) b,
        rw (ends (suc k) (2 ^ 64 - n) true (negative_ends n h (omega (arith, small))))
            (final b s acc (omega arith) (omega (arith, e)) ha rest),
        omega (
          arith,
          extend_negative k (acc + b * 2 ^ s) (s + 7) b (omega (arith, e))
              (below b s acc (omega arith) (omega (arith, e)) ha) (omega (arith, small, h))
              (omega arith),
          seven_more s,
          ap (λ (z : ℕ). z * 2 ^ s) (sum_small n h (omega (arith, small))),
        ),
      )
      | yes large ↦
          let (x, decoded, sum) =
            negative_decodes k (s + 7) (rounded n) (acc + b * 2 ^ s) rest (omega (arith, e))
              (omega (arith, large)) (omega (arith, hn, step))
              (below b s acc (omega arith) (omega (arith, e)) ha) in
          (
            x,
            rw (goes_on (suc k) (2 ^ 64 - n) true (negative_goes_on n (omega (arith, large)) n63)) (
                rw (negative_shift n h n63) (
                  inner b s acc (omega arith) (omega (arith, e)) ha
                    (encode_signed_loop (suc k) true (2 ^ 64 - rounded n) ++ rest)
                  ∙ decoded)),
            omega (
              arith,
              sum,
              ap (λ (t : ℕ). rounded n * t) (seven_more s),
              ap (λ (z : ℕ). z * 2 ^ s) (sum_large n h n63),
            ),
          )
    ]

-- The signed decoder returns every number of 64 bits, negative ones included, from its signed
-- encoding, and stops right behind it, whatever bytes follow; ten rounds of the encoder are
-- enough.
pub decode_signed-encode_signed :
    (v : ℕ) (rest : List ℕ) → IsU64 v → decode_signed (encode_signed v ++ rest) ≡ some (v, rest)
unfolding decode_signed encode_signed
decode_signed-encode_signed v rest h = elim (dec_lt v (2 ^ 63)) [
  | yes p ↦
      let sign : is_negative v ≡ false = ground arith in
      rw sign (
        positive_decodes 9 0 v 0 rest refl (omega (arith, p)) (omega arith)
        ∙ ap (λ (x : ℕ). some (x, rest)) (omega arith))
  | no p ↦
      let sign : is_negative v ≡ true = ground arith in
      let n = 2 ^ 64 - v in
      let (x, decoded, sum) =
        negative_decodes 9 0 n 0 rest refl (omega (arith, h)) (omega (arith, p)) (omega arith) in
      let back : 2 ^ 64 - n ≡ v = omega (arith, h) in
      rw sign ((rw back at decoded) ∙ ap (λ (x : ℕ). some (x, rest)) (omega (arith, sum, h)))
]
