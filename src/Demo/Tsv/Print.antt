-- ===== src/Demo/Tsv/Print.antt =====
-- demo/tsvParser/tsvParser.c: `flusher2`, the line that is printed for a row.
use otic.Prelude.{
  ℕ, zero, suc, ◌+◌, ◌/◌, ◌%◌, Option, none, some, List, [], ◌∷◌, ◌++◌, ◌==◌, if◌then◌else◌,
}
use otic.Base.Oval.{Oval, int_neg, int_pos, double, string, null}
use otic.Unpack.Channel.{Row}

-- `%lu`: the digits of a number in front of what follows. A number of 64 bits has at most twenty.
unfoldable pub digits : ℕ → ℕ → List ℕ → List ℕ
digits zero n out = out
digits (suc places) n out =
    let rest = (48 + n % 10) ∷ out in if n / 10 == 0 then rest else digits places (n / 10) rest

unfoldable pub decimal : ℕ → List ℕ
unfolding digits
decimal n = digits 20 n []

-- `%lf` is a parameter.
module _ (format_double : ℕ → List ℕ) where
  -- The last column; `none` is a type that is not printed.
  unfoldable pub print_value : Oval → Option (List ℕ)
  unfolding decimal
  print_value (int_pos n) = some (decimal n)
  print_value (int_neg n) = some (45 ∷ decimal n)
  print_value (double w) = some (format_double w)
  print_value (string s) = some s
  print_value null = some []
  print_value v = none

  -- `flusher2`: what it writes.
  unfoldable pub print_row : Row → Option (List ℕ)
  unfolding print_value
  print_row r = elim (print_value r.value) [
    | none ↦ none
    | some text ↦ some (format_double r.time ++ 9 ∷ r.name ++ 9 ∷ r.unit ++ 9 ∷ text ++ 10 ∷ [])
  ]
