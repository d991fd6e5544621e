-- ===== src/Demo/Tsv/Printed.antt =====
-- The values that `flusher2` prints, and what `compress` makes of what it printed.
use otic.Prelude.{ℕ, ◌≤◌, ◌<◌, ◌^◌, true, false, some, List, [], ◌∷◌, ◌==◌, ◌≡◌, ◌≢◌, refl, ◌∙◌, ap}
use otic.Base.Oval.{Oval, int_neg, int_pos, double, string, null}
use otic.Utility.Format.{Column}
use otic.Codec.Session.{Value, positive, negative, real, text, nothing}
use otic.Demo.Tsv.{is_numeric_text, from_point, get_dec_pos, value_of}
use otic.Demo.Tsv.Print.{decimal, print_value}
use otic.Demo.Tsv.Columns.{column_of}
use otic.Demo.Tsv.Numbers.{value_of-decimal, value_of-minus, decimal-some}

module _ (format_double : ℕ → List ℕ) (strtod : List ℕ → ℕ) where
  -- The values that have a text of their own: integers in the range of `long`, of which zero has no
  -- sign, a number whose text has a point, a text that is not empty and no number, and null.
  pub data HasText : Oval → Value → Type 0 where
    plus : (n : ℕ) → n < 2 ^ 63 → HasText (int_pos n) (positive n)
    minus : (n : ℕ) → 0 < n → n ≤ 2 ^ 63 → HasText (int_neg n) (negative n)
    point :
        (w w' : ℕ)
        → is_numeric_text (format_double w) ≡ true
        → (get_dec_pos (format_double w) == 0) ≡ false
        → strtod (format_double w) ≡ w'
        → HasText (double w) (real w')
    word : (s : List ℕ) → s ≢ [] → is_numeric_text s ≡ false → HasText (string s) (text s)
    no_text : HasText null nothing

  point_column :
      (s : List ℕ) (w : ℕ)
      → is_numeric_text s ≡ true
      → (get_dec_pos s == 0) ≡ false
      → strtod s ≡ w
      → value_of strtod (column_of s) ≡ real w
  unfolding value_of get_dec_pos from_point
  point_column [] w numeric dot reads = absurd cc
  point_column (c ∷ s) w numeric dot reads = rw (value_of, numeric, dot, reads) refl

  word_column :
      (s : List ℕ) → s ≢ [] → is_numeric_text s ≡ false → value_of strtod (column_of s) ≡ text s
  unfolding value_of
  word_column [] full other = absurd (full refl)
  word_column (c ∷ s) full other = rw (value_of, other) refl

  -- What is printed for a value, and injected for the column that is printed.
  pub record Reread (v : Oval) (w : Value) : Type 0 where
    pub column : List ℕ
    pub prints : print_value format_double v ≡ some column
    pub injects : value_of strtod (column_of column) ≡ w

  -- For an integer in the range of long, of which zero has no sign, a double whose text is
  -- numeric and has a point, a text that is not empty and not numeric, and null: flusher2 prints
  -- the value, and the injection that compress chooses for the printed column has the same kind,
  -- and the same integer or text, or the double that the text reads as.
  pub value_of-print : (v : Oval) (w : Value) → HasText v w → Reread v w
  unfolding print_value value_of
  value_of-print v w (plus n h) = record {
    column = decimal n;
    prints = refl;
    injects =
        ap (λ (c : Column). value_of strtod c) (decimal-some strtod n)
        ∙ value_of-decimal strtod n h;
  }
  value_of-print v w (minus n h k) = record {
    column = 45 ∷ decimal n;
    prints = refl;
    injects = value_of-minus strtod n h k;
  }
  value_of-print v w (point x x' numeric dot reads) = record {
    column = format_double x;
    prints = refl;
    injects = point_column (format_double x) x' numeric dot reads;
  }
  value_of-print v w (word s full other) = record {
    column = s;
    prints = refl;
    injects = word_column s full other;
  }
  value_of-print v w no_text = record { column = []; prints = refl; injects = refl }
