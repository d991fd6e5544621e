-- ===== src/Demo/Tsv/Numbers.antt =====
-- Integers that are printed, and what `compress` makes of their texts.
use otic.Prelude.{
  ℕ, zero, suc, ◌+◌, ◌-◌, ◌*◌, ◌/◌, ◌%◌, ◌^◌, ◌≤◌, ◌<◌, true, false, List, [], ◌∷◌, some, All, ltb,
  ◌==◌, ◌≡◌, refl, ◌∙◌, arith, inl, inr, Bool-cases,
}
use otic.Codec.Session.{positive, negative}
use otic.Demo.Tsv.{
  is_one_of, is_numeric_char, is_numeric_text, from_point, get_dec_pos, is_space, skip_space,
  is_digit, number_at, signed_at, strtol, value_of,
}
use otic.Demo.Tsv.Columns.{column_of}
use otic.Demo.Tsv.Print.{digits, decimal}

abbrev IsDigit : ℕ → Type 0
IsDigit c = (48 ≤ c) × (c < 58)

digits-All : (k n : ℕ) (out : List ℕ) → All IsDigit out → All IsDigit (digits k n out)
unfolding digits
digits-All zero n out h = h
digits-All (suc k) n out h =
    let h1 : All IsDigit ((48 + n % 10) ∷ out) = ((omega arith, omega arith), h) in
    elim (Bool-cases (n / 10 == 0)) [
      | inl p ↦ rw p h1
      | inr p ↦ rw p (digits-All k (n / 10) ((48 + n % 10) ∷ out) h1)
    ]

-- There is a digit at the front.
record Leads (s : List ℕ) : Type 0 where
  first : ℕ
  others : List ℕ
  split : s ≡ first ∷ others
  digit : IsDigit first

digit_front : (n : ℕ) (out : List ℕ) → Leads ((48 + n % 10) ∷ out)
digit_front n out = record {
  first = 48 + n % 10;
  others = out;
  split = refl;
  digit = (omega arith, omega arith);
}

digits-Leads : (k n : ℕ) (out : List ℕ) → Leads out → Leads (digits k n out)
unfolding digits
digits-Leads zero n out d = d
digits-Leads (suc k) n out d = elim (Bool-cases (n / 10 == 0)) [
  | inl p ↦ rw p (digit_front n out)
  | inr p ↦ rw p (digits-Leads k (n / 10) ((48 + n % 10) ∷ out) (digit_front n out))
]

digits-front : (k n : ℕ) (out : List ℕ) → Leads (digits (suc k) n out)
unfolding digits
digits-front k n out = elim (Bool-cases (n / 10 == 0)) [
  | inl p ↦ rw p (digit_front n out)
  | inr p ↦ rw p (digits-Leads k (n / 10) ((48 + n % 10) ∷ out) (digit_front n out))
]

ltb-true : (a b : ℕ) → a < b → ltb a b ≡ true
ltb-true a b h = ground arith

ltb-false : (a b : ℕ) → b ≤ a → ltb a b ≡ false
ltb-false a b h = ground arith

-- Reading the digits gives the number, from any front that is left.
number_at-digits :
    (k n : ℕ) (out : List ℕ) → n < 10 ^ k → number_at 0 (digits k n out) ≡ number_at n out
unfolding digits number_at
number_at-digits zero n out h = let z : n ≡ 0 = omega arith in rw z refl
number_at-digits (suc k) n out h =
    let last : is_digit (48 + n % 10) ≡ true = ground arith in
    let value : 10 * (n / 10) + (48 + n % 10 - 48) ≡ n = omega arith in
    elim (Bool-cases (n / 10 == 0)) [
      | inl p ↦
          let small : 10 * 0 + (48 + n % 10 - 48) ≡ n = ground arith in rw p (rw (last, small) refl)
      | inr p ↦
          rw p (
            number_at-digits k (n / 10) ((48 + n % 10) ∷ out) (omega arith) ∙ rw (last, value) refl)
    ]

numeric_char-digit : (c : ℕ) → IsDigit c → is_numeric_char c ≡ true
unfolding is_numeric_char is_one_of
numeric_char-digit c h = ground arith

numeric-digits : (s : List ℕ) → All IsDigit s → is_numeric_text s ≡ true
unfolding is_numeric_text
numeric-digits [] h = refl
numeric-digits (c ∷ s) (hc, h) = rw (numeric_char-digit c hc, numeric-digits s h) refl

no_point-digits : (s : List ℕ) → All IsDigit s → from_point s ≡ []
unfolding from_point
no_point-digits [] h = refl
no_point-digits (c ∷ s) (hc, h) =
    let other : (c == 46) ≡ false = ground arith in rw (other, no_point-digits s h) refl

not_minus : (c : ℕ) → IsDigit c → (is_space c ≡ false) × ((c == 45) ≡ false) × ((c == 43) ≡ false)
not_minus c h = (ground arith, ground arith, ground arith)

strtol-digits : (s : List ℕ) → Leads s → number_at 0 s < 2 ^ 63 → strtol s ≡ number_at 0 s
unfolding strtol skip_space signed_at
strtol-digits s d h =
    let (space, minus, plus) = not_minus d.first d.digit in
    let front : number_at 0 (d.first ∷ d.others) < 2 ^ 63 = rw d.split at h in
    let small : ltb (number_at 0 (d.first ∷ d.others)) (2 ^ 63) ≡ true = ground arith in
    rw d.split (rw (space, strtol) (rw (signed_at, minus, plus, small) refl))

strtol-minus :
    (s : List ℕ) → number_at 0 s ≤ 2 ^ 63 → strtol (45 ∷ s) ≡ (2 ^ 64 - number_at 0 s) % 2 ^ 64
unfolding strtol skip_space signed_at
strtol-minus s h = let small : ltb (2 ^ 63) (number_at 0 s) ≡ false = ground arith in rw small refl

module _ (strtod : List ℕ → ℕ) (n : ℕ) where
  number-decimal : n < 2 ^ 64 → number_at 0 (decimal n) ≡ n
  unfolding decimal number_at
  number-decimal h = number_at-digits 20 n [] (omega arith)

  decimal-All : All IsDigit (decimal n)
  unfolding decimal
  decimal-All = digits-All 20 n [] tt

  decimal-front : Leads (decimal n)
  unfolding decimal
  decimal-front = digits-front 19 n []

  pub value_of-decimal : n < 2 ^ 63 → value_of strtod (some (decimal n)) ≡ positive n
  unfolding value_of get_dec_pos
  value_of-decimal h =
      let number = number-decimal (omega arith) in
      let read = strtol-digits (decimal n) decimal-front (rw number h) ∙ number in
      rw
        (
          numeric-digits (decimal n) decimal-All,
          no_point-digits (decimal n) decimal-All,
          read,
          ltb-true n (2 ^ 63) h,
        )
        refl

  pub value_of-minus : 0 < n → n ≤ 2 ^ 63 → value_of strtod (some (45 ∷ decimal n)) ≡ negative n
  unfolding value_of is_numeric_text is_numeric_char is_one_of get_dec_pos from_point
  value_of-minus positive' h =
      let number = number-decimal (omega arith) in
      let read : strtol (45 ∷ decimal n) ≡ 2 ^ 64 - n =
        rw (strtol-minus (decimal n) (rw number h), number) (omega arith) in
      let large : ltb (2 ^ 64 - n) (2 ^ 63) ≡ false =
        ltb-false (2 ^ 64 - n) (2 ^ 63) (omega arith) in
      let back : (2 ^ 64 - (2 ^ 64 - n)) % 2 ^ 64 ≡ n = omega arith in
      rw
        (
          numeric-digits (decimal n) decimal-All,
          no_point-digits (decimal n) decimal-All,
          read,
          large,
          back,
        )
        refl

  -- The text has a first character.
  pub decimal-some : column_of (decimal n) ≡ some (decimal n)
  decimal-some = rw decimal-front.split refl
