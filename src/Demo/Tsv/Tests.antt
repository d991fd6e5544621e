-- ===== src/Demo/Tsv/Tests.antt =====
-- A table of three lines, and the theorems at this example.
use otic.Prelude.{
  ◌+◌, ◌/◌, ℕ, ◌-◌, ◌^◌, ◌≤◌, some, List, [], ◌∷◌, codes, map, All, ◌≡◌, refl, arith,
}
use otic.Base.Types.{opened, no_error}
use otic.Base.{to_ticks}
use otic.Pack.Channel.{cleared}
use otic.Base.Oval.{int_neg}
use otic.Pack.Container.{Pack, default_size}
use otic.Codec.Session.{Injection, positive, negative, real, text, IsInjection}
use otic.Codec.Accept.Session.{cost, FitsIn, Chronological}
use otic.Codec.Tests.{whole_numbers, stored, stored-laws, stored-Taking}
use otic.Demo.Tsv.{
  is_one_of, is_numeric_char, is_numeric_text, from_point, get_dec_pos, skip_space, number_at,
  signed_at, strtol, value_of,
}
use otic.Demo.Tsv.Compress.{scan_rest, scan_line}
use otic.Utility.Format.{Format}
use otic.Demo.Tsv.Print.{digits, decimal, print_value, print_row}
use otic.Demo.Tsv.Printed.{Reread, minus, value_of-print}
use otic.Demo.Tsv.Columns.{TableLine, IsLine, Plain, line_injection}
use otic.Demo.Tsv.Whole.{Converted, compress-Converted}

-- Numbers without a fraction.
abbrev read_number : List ℕ → ℕ
read_number s = number_at 0 s

abbrev line : List ℕ → List ℕ → TableLine
line time value = record {
  time = time;
  sensor = codes "a";
  skipped = [];
  unit = codes "b";
  value = value;
}

abbrev table : List TableLine
table = line (codes "5") (codes "30") ∷ line (codes "5") (codes "x") ∷ line (codes "7") [] ∷ []

value_tests :
    (value_of read_number (some (codes "-12")) ≡ negative 12)
    × (value_of read_number (some (codes "1.5")) ≡ real 1)
    × (value_of read_number (some (codes "1 2")) ≡ text (codes "1 2"))
    × (value_of read_number (some []) ≡ positive 0)
    × (strtol (codes " +12a") ≡ 12)
    × (strtol (codes "9223372036854775808") ≡ 2 ^ 63 - 1)
unfolding value_of is_numeric_text is_numeric_char is_one_of get_dec_pos from_point strtol
    skip_space signed_at number_at
value_tests = (refl, refl, refl, refl, refl, refl)

-- The line behind a chunk loses its newline, and the blanks in front of the next.
rest_tests :
    (scan_rest [] (codes "ab\n\t c") ≡ some (codes "ab", codes "c"))
    × (scan_rest (codes "a") (codes "\nb") ≡ some (codes "a", codes "b"))
unfolding scan_rest scan_line skip_space
rest_tests = (refl, refl)

print_test :
    print_row decimal (record { time = 5; name = codes "a"; unit = codes "b"; value = int_neg 120 })
    ≡ some (codes "5\ta\tb\t-120\n")
unfolding print_row print_value decimal digits
print_test = refl

plain : (s : List ℕ) → (All (λ c. 32 ≤ c) s) → Plain s
plain [] h = tt
plain (c ∷ s) (hc, h) = ((λ e. absurd (omega arith), λ e. absurd (omega arith)), plain s h)

a_line :
    (time value : List ℕ)
    → All (λ c. 32 ≤ c) time
    → All (λ c. 32 ≤ c) value
    → IsLine (line time value)
a_line time value ht hv = record {
  time = plain time ht;
  sensor = plain (codes "a") (omega arith, tt);
  named = λ e. absurd cc;
  skipped = tt;
  unit = plain (codes "b") (omega arith, tt);
  value = plain value hv;
}

any_pack : Pack (List ℕ)
any_pack = record {
  channels = [];
  parent = record { error = no_error; state = opened; context = [] };
}

abbrev injections : List Injection
injections = map (line_injection read_number) table

lines : All IsLine table
lines = (
  a_line _ _ (omega arith, tt) (omega arith, (omega arith, tt)),
  (a_line _ _ (omega arith, tt) (omega arith, tt), (a_line _ _ (omega arith, tt) tt, tt)),
)

valid : All (IsInjection whole_numbers) injections
unfolding to_ticks value_of is_numeric_text is_numeric_char is_one_of get_dec_pos from_point strtol
    skip_space signed_at number_at
valid = (
  (omega arith, (omega arith, omega arith), omega arith),
  ((omega arith, omega arith, omega arith), ((omega arith, omega arith, omega arith), tt)),
)

fit : All (FitsIn (default_size - 512)) injections
unfolding value_of is_numeric_text is_numeric_char is_one_of get_dec_pos from_point strtol
    skip_space signed_at number_at
fit = ((omega arith, omega arith), ((omega arith, omega arith), ((omega arith, omega arith), tt)))

order : Chronological whole_numbers injections
unfolding to_ticks number_at
order = (omega arith, (omega arith, tt))

spacious : (let bytes = cost injections in bytes + bytes / 256 + 600 ≤ default_size)
unfolding value_of is_numeric_text is_numeric_char is_one_of get_dec_pos from_point strtol
    skip_space signed_at number_at
spacious = omega arith

compress-Converted_example : Converted stored whole_numbers cleared 0 read_number any_pack table
compress-Converted_example =
    compress-Converted stored whole_numbers cleared 0 read_number stored-laws stored-Taking any_pack
      table refl lines (omega arith) valid fit order (omega arith) spacious

value_of-print_example : Reread decimal read_number (int_neg 120) (negative 120)
value_of-print_example =
    value_of-print decimal read_number (int_neg 120) (negative 120)
      (minus 120 (omega arith) (omega arith))

abbrev five_columns : Format
five_columns = record { delimiter = 9; size = 5; parsed = 0; content = [] }

abbrev one_line : List ℕ
one_line = codes "5\ta\t\tb\t1\n"
