-- ===== src/Leb128/Decode.antt =====
-- `leb128_decode_unsigned`: what it takes from its input, and that it inverts the encoder.
use otic.Prelude.{
  ℕ, zero, suc, ◌+◌, ◌*◌, ◌/◌, ◌%◌, ◌^◌, ◌≤◌, ◌<◌, ◌≡◌, ap, arith, bit_and, bit_or, some, List, [],
  ◌∷◌, ◌++◌, length, ltb, ◌==◌, All, Bool-cases, inl, inr, true, false,
}
use native.Mathlib.Decide.{dec_lt}
use native.Mathlib.Nat.{div-add-mod, pow-le-pow_right}
use native.Mathlib.Numerals.{towards_suc}
use otic.Prelude.Bits.{bit_and_127, bit_and_128, bit_or_shifted}
use otic.Leb128.{IsU64, encode_unsigned, decode_loop, decode_unsigned}
use otic.Leb128.Encode.{encode_small, encode_large}

-- A byte without the continuation bit ends the number.
last_byte :
    (w value shift : ℕ) (rest : List ℕ)
    → w < 128
    → shift < 64
    → value < 2 ^ shift
    → IsU64 (w * 2 ^ shift)
    → decode_loop (w ∷ rest) value shift ≡ some (value + w * 2 ^ shift, rest)
unfolding decode_loop
last_byte w value shift rest hw hs hv fits =
    ground (arith, bit_and_127 w, bit_and_128 w, bit_or_shifted shift value w)

-- A byte with it adds its group and goes on.
inner_byte :
    (g value shift : ℕ) (rest : List ℕ)
    → g < 128
    → shift < 64
    → value < 2 ^ shift
    → IsU64 (g * 2 ^ shift)
    → decode_loop ((g + 128) ∷ rest) value shift
      ≡ decode_loop rest (value + g * 2 ^ shift) (shift + 7)
unfolding decode_loop
inner_byte g value shift rest hg hs hv fits =
    ground (arith, bit_and_127 (g + 128), bit_and_128 (g + 128), bit_or_shifted shift value g)

pub seven_more : (s : ℕ) → 2 ^ (s + 7) ≡ 128 * 2 ^ s
seven_more s = simp towards_suc (omega arith)

-- `v` counts from bit `s` on: its lowest group and the others.
split_low : (v s : ℕ) → v * 2 ^ s ≡ v % 128 * 2 ^ s + v / 128 * 2 ^ (s + 7)
split_low v s = omega (
  arith,
  ap (λ (t : ℕ). t * 2 ^ s) (div-add-mod v 128),
  ap (λ (t : ℕ). v / 128 * t) (seven_more s),
)

-- Where more groups follow, the shift has room for one more.
shift_bound : (v s : ℕ) → 128 ≤ v → IsU64 (v * 2 ^ s) → s + 7 < 64
shift_bound v s h fits = elim (dec_lt (s + 7) 64) [
  | yes p ↦ p
  | no p ↦ absurd (too_big (pow-le-pow_right {n = 2} (omega arith) {i = 57} {j = s} (omega arith)))
]
  where
    too_big : 2 ^ 57 ≤ 2 ^ s → ⊥
    too_big q = grind arith

group_sum : (g s value : ℕ) → value < 2 ^ s → g < 128 → value + g * 2 ^ s < 2 ^ (s + 7)
group_sum g s value h hg = grind (arith, seven_more s)

high_le : (v s : ℕ) → v % 128 * 2 ^ s ≤ v * 2 ^ s
high_le v s = omega (arith, split_low v s)

decode_loop-encode :
    (n v value shift : ℕ) (rest : List ℕ)
    → v < n
    → shift < 64
    → value < 2 ^ shift
    → IsU64 (v * 2 ^ shift)
    → decode_loop (encode_unsigned v ++ rest) value shift ≡ some (value + v * 2 ^ shift, rest)
decode_loop-encode zero v value shift rest hn hs hv fits = absurd (omega arith)
decode_loop-encode (suc n) v value shift rest hn hs hv fits = elim (dec_lt v 128) [
  | yes p ↦ rw (encode_small v p) (last_byte v value shift rest p hs hv fits)
  | no p ↦
      let room = shift_bound v shift (omega arith) fits in
      let low : v % 128 < 128 = omega arith in
      let sum = group_sum (v % 128) shift value hv low in
      let split = split_low v shift in
      rw (encode_large v (omega arith)) (
        ground (
          arith,
          inner_byte (v % 128) value shift (encode_unsigned (v / 128) ++ rest),
          decode_loop-encode n (v / 128) (value + v % 128 * 2 ^ shift) (shift + 7) rest
              (omega arith) room sum (omega arith),
        ))
]

-- The decoder returns every number of 64 bits from its encoding, and stops right behind it,
-- whatever bytes follow.
pub decode-encode :
    (v : ℕ) (rest : List ℕ) → IsU64 v → decode_unsigned (encode_unsigned v ++ rest) ≡ some (v, rest)
unfolding decode_unsigned
decode-encode v rest h = ground (arith, decode_loop-encode (suc v) v 0 0 rest)

-- A number read takes one byte at least and ten at most.
decode_loop_takes :
    (src : List ℕ) (value shift j v : ℕ) (rest : List ℕ)
    → shift ≡ 7 * j
    → j ≤ 10
    → decode_loop src value shift ≡ some (v, rest)
    → (length rest < length src) × (length src + j ≤ length rest + 10)
unfolding decode_loop
decode_loop_takes [] value shift j v rest hs hj e = cc
decode_loop_takes (b ∷ bs) value shift j v rest hs hj e = ground (
  arith,
  decode_loop_takes bs (bit_or value (bit_and b 0x7f * 2 ^ shift % 2 ^ 64)) ((shift + 7) % 256)
      (j + 1) v rest,
)

-- Where every shift is defined in C, ten bytes at most are taken.
pub decode_takes :
    (src : List ℕ) (v : ℕ) (rest : List ℕ)
    → decode_unsigned src ≡ some (v, rest)
    → (length rest < length src) × (length src ≤ length rest + 10)
unfolding decode_unsigned
decode_takes src v rest e = ground (arith, decode_loop_takes src 0 0 0 v rest)

-- A byte with the continuation bit, and one without.
abbrev pub Continues : ℕ → Type 0
Continues b = (bit_and b 0x80 == 0) ≡ false

abbrev pub Ends : ℕ → Type 0
Ends b = (bit_and b 0x80 == 0) ≡ true

-- The bytes of one number in front of the others.
pub record OneNumber (src rest : List ℕ) : Type 0 where
  pub inner : List ℕ
  pub last : ℕ
  pub parts : src ≡ inner ++ last ∷ rest
  pub continues : All Continues inner
  pub ends : Ends last

decode_loop-OneNumber :
    (src : List ℕ) (value shift v : ℕ) (rest : List ℕ)
    → decode_loop src value shift ≡ some (v, rest)
    → OneNumber src rest
unfolding decode_loop
decode_loop-OneNumber [] value shift v rest = λ e. cc
decode_loop-OneNumber (b ∷ bs) value shift v rest =
    let value' = bit_or value (bit_and b 0x7f * 2 ^ shift % 2 ^ 64) in
    elim (Bool-cases (ltb shift 64)) [
      | inr wide ↦ rw (decode_loop, wide) (λ e. cc)
      | inl narrow ↦ elim (Bool-cases (bit_and b 0x80 == 0)) [
        | inl stops ↦
            rw (decode_loop, narrow, stops)
              (λ e.
                let same : bs ≡ rest = cc in
                record {
                  inner = [];
                  last = b;
                  parts = ap (λ (l : List ℕ). b ∷ l) same;
                  continues = tt;
                  ends = stops;
                })
        | inr more ↦
            rw (decode_loop, narrow, more)
              (λ e.
                let o = decode_loop-OneNumber bs value' ((shift + 7) % 256) v rest e in
                record {
                  inner = b ∷ o.inner;
                  last = o.last;
                  parts = ap (λ (l : List ℕ). b ∷ l) o.parts;
                  continues = (more, o.continues);
                  ends = o.ends;
                })
      ]
    ]

-- A decoding that succeeds, of whatever bytes, takes the bytes up to the first without the
-- continuation bit, and this one, and leaves the others.
pub decode-OneNumber :
    (src : List ℕ) (v : ℕ) (rest : List ℕ)
    → decode_unsigned src ≡ some (v, rest)
    → OneNumber src rest
unfolding decode_unsigned
decode-OneNumber src v rest e = decode_loop-OneNumber src 0 0 v rest e
