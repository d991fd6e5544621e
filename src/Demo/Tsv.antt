-- ===== src/Demo/Tsv.antt =====
-- demo/tsvParser/tsvParser.c: a table of five columns becomes a file of one channel. A line has a time, a
-- name, a column that is skipped, a unit and a value.
pub mod Compress
pub mod Print
pub mod Numbers
pub mod Columns
pub mod Lines
pub mod Printed
mod Fuel
pub mod Whole
mod Tests
use otic.Prelude.{
  ℕ, zero, suc, ◌+◌, ◌-◌, ◌*◌, ◌%◌, ◌^◌, Bool, true, false, ◌&&◌, ◌||◌, Option, none, some, List,
  [], ◌∷◌, length, codes, ltb, ◌==◌, if◌then◌else◌,
}
use otic.Utility.Format.{Column, column_text}
use otic.Codec.Session.{Value, positive, negative, real, text, nothing, Injection}

-- `isNumericChar`: the loop over the characters of `numeric`, and `isNumeric`.
unfoldable pub is_one_of : List ℕ → ℕ → Bool
is_one_of [] value = false
is_one_of (c ∷ characters) value = c == value || is_one_of characters value

unfoldable pub is_numeric_char : ℕ → Bool
unfolding is_one_of
is_numeric_char value = is_one_of (codes "0123456789.-") value

unfoldable pub is_numeric_text : List ℕ → Bool
unfolding is_numeric_char
is_numeric_text [] = true
is_numeric_text (c ∷ value) = is_numeric_char c && is_numeric_text value

-- `getDecPos`: the length of the text from its first point on, in a `uint8_t`.
unfoldable pub from_point : List ℕ → List ℕ
from_point [] = []
from_point (c ∷ ptr) = if c == 46 then c ∷ ptr else from_point ptr

unfoldable pub get_dec_pos : List ℕ → ℕ
unfolding from_point
get_dec_pos ptr = length (from_point ptr) % 256

-- `isspace`
abbrev pub is_space : ℕ → Bool
is_space c = c == 32 || ltb 8 c && ltb c 14

unfoldable pub skip_space : List ℕ → List ℕ
skip_space [] = []
skip_space (c ∷ s) = if is_space c then skip_space s else c ∷ s

-- `strtol(s, 0, 10)`, as a pattern of 64 bits: blanks, a sign, and the digits that follow. What is
-- out of range is the least or the greatest `long`.
abbrev pub is_digit : ℕ → Bool
is_digit c = ltb 47 c && ltb c 58

unfoldable pub number_at : ℕ → List ℕ → ℕ
number_at n [] = n
number_at n (c ∷ s) = if is_digit c then number_at (10 * n + (c - 48)) s else n

unfoldable pub signed_at : List ℕ → ℕ
unfolding number_at
signed_at [] = 0
signed_at (c ∷ s) =
    let n = number_at 0 s in
    let m = number_at 0 (c ∷ s) in
    if c == 45
    then if ltb (2 ^ 63) n then 2 ^ 63 else (2 ^ 64 - n) % 2 ^ 64
    else if c == 43
    then if ltb n (2 ^ 63) then n else 2 ^ 63 - 1
    else if ltb m (2 ^ 63)
    then m
    else 2 ^ 63 - 1

unfoldable pub strtol : List ℕ → ℕ
unfolding skip_space signed_at
strtol s = signed_at (skip_space s)

-- The injection that `compress` chooses by the text of the last column. `strtod` is that of the C
-- library, into a pattern of 64 bits.
unfoldable pub value_of : (List ℕ → ℕ) → Column → Value
unfolding is_numeric_text get_dec_pos strtol
value_of strtod none = nothing
value_of strtod (some column) =
    let int_value = strtol column in
    if is_numeric_text column
    then if get_dec_pos column == 0
      then if ltb int_value (2 ^ 63)
        then positive int_value
        else negative ((2 ^ 64 - int_value) % 2 ^ 64)
      else real (strtod column)
    else text column

-- Its arguments. A time or a name that is null is read through, and a column that no line had is a
-- pointer that was never set: both are `none`. A unit that is null counts as empty.
unfoldable pub injection_of : (List ℕ → ℕ) → List Column → Option Injection
unfolding value_of column_text
injection_of strtod (some time ∷ some sensor ∷ skipped ∷ unit' ∷ value' ∷ more) = some (record {
  ts = strtod time;
  name = sensor;
  unit = column_text unit';
  value = value_of strtod value';
})
injection_of strtod columns = none
