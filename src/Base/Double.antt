-- ===== src/Base/Double.antt =====
-- The order of `double` on its patterns of 64 bits: `<` of C, which no NaN is in.
use otic.Prelude.{
  ℕ, ◌+◌, ◌-◌, ◌^◌, Bool, true, false, not, ◌&&◌, ltb, if◌then◌else◌, ◌≡◌, refl, arith, inl, inr,
  Bool-cases,
}
use otic.Base.Oval.{is_nan}

-- The place of a pattern: the magnitude above the middle, or below it for a negative sign. The two
-- zeros have the same place.
abbrev pub place : ℕ → ℕ
place w = if ltb w (2 ^ 63) then w + 2 ^ 63 else 2 ^ 64 - w

unfoldable pub double_lt : ℕ → ℕ → Bool
double_lt a b = not (is_nan a) && not (is_nan b) && ltb (place a) (place b)

-- `DBL_MAX`, `DBL_MIN` and `0.0001`
abbrev pub dbl_max : ℕ
dbl_max = 0x7fefffffffffffff

abbrev pub dbl_min : ℕ
dbl_min = 0x0010000000000000

abbrev pub shortest_interval : ℕ
shortest_interval = 0x3f1a36e2eb1c432d

parts : (p q r : Bool) → (not p && not q && r) ≡ true → (p ≡ false) × (q ≡ false) × (r ≡ true)
parts true q r h = absurd cc
parts false true r h = absurd cc
parts false false true h = (refl, refl, refl)
parts false false false h = absurd cc

pub double_lt_trans :
    (a b c : ℕ) → double_lt a b ≡ true → double_lt b c ≡ true → double_lt a c ≡ true
unfolding double_lt
double_lt_trans a b c h k =
    let (na, nb, ab) = parts (is_nan a) (is_nan b) (ltb (place a) (place b)) h in
    let (nb', nc, bc) = parts (is_nan b) (is_nan c) (ltb (place b) (place c)) k in
    rw (na, nc) (less (place a) (place b) (place c) ab bc)
  where
    less : (x y z : ℕ) → ltb x y ≡ true → ltb y z ≡ true → ltb x z ≡ true
    less x y z h k = ground arith

-- No number is less than itself.
pub double_lt_irrefl : (a : ℕ) → double_lt a a ≡ false
unfolding double_lt
double_lt_irrefl a = elim (Bool-cases (is_nan a)) [
  | inl p ↦ rw p refl
  | inr p ↦ rw p (same (place a))
]
  where
    same : (x : ℕ) → ltb x x ≡ false
    same x = ground arith
