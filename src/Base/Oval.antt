-- ===== src/Base/Oval.antt =====
-- `oval_t` of include/core/base.h: a value with its type, and the functions on it of
-- src/core/base.c. A `double` is its 64-bit pattern, a `float` its 32-bit pattern.
use otic.Prelude.{
  ℕ, zero, suc, ◌/◌, ◌%◌, ◌^◌, Bool, true, false, not, ◌&&◌, ◌||◌, List, [], ◌∷◌, length, ◌==◌,
  if◌then◌else◌,
}
use otic.Base.Types.{OticType}

-- `unset` is the value of a sensor that has a name and no reading yet: its type is
-- `OTIC_TYPE_EOF`. The reader builds no objects.
mutual
  pub data Oval : Type 0 where
    null bool_true bool_false rawbuffer unset : Oval
    int_neg int_pos : ℕ → Oval
    float double : ℕ → Oval
    string : List ℕ → Oval
    array : Elements → Oval

  pub data Elements : Type 0 where
    nil : Elements
    cons : Oval → Elements → Elements

-- `otic_oval_getType`
unfoldable pub get_type : Oval → OticType
get_type null = OticType.null
get_type bool_true = OticType.bool_true
get_type bool_false = OticType.bool_false
get_type rawbuffer = OticType.rawbuffer
get_type unset = OticType.eof
get_type (int_neg n) = OticType.int_neg
get_type (int_pos n) = OticType.int_pos
get_type (float w) = OticType.float
get_type (double w) = OticType.double
get_type (string s) = OticType.string
get_type (array es) = OticType.array

-- `otic_oval_isNumeric`
unfoldable pub is_numeric : Oval → Bool
is_numeric (int_neg n) = true
is_numeric (int_pos n) = true
is_numeric (double w) = true
is_numeric _ = false

-- `==` on `double`: a NaN equals nothing, and the two zeros are equal.
unfoldable pub is_nan : ℕ → Bool
is_nan w = w / 2 ^ 52 % 2 ^ 11 == 2047 && not (w % 2 ^ 52 == 0)

is_zero : ℕ → Bool
is_zero w = w % 2 ^ 63 == 0

unfoldable pub double_eq : ℕ → ℕ → Bool
unfolding is_nan is_zero
double_eq a b = not (is_nan a) && not (is_nan b) && (a == b || is_zero a && is_zero b)

-- `strncmp(a, b, n) == 0`, which ends at a terminator in both.
strncmp_eq : ℕ → List ℕ → List ℕ → Bool
strncmp_eq zero a b = true
strncmp_eq (suc n) [] [] = true
strncmp_eq (suc n) [] (y ∷ b) = false
strncmp_eq (suc n) (x ∷ a) [] = false
strncmp_eq (suc n) (x ∷ a) (y ∷ b) = x == y && (x == 0 || strncmp_eq n a b)

-- `otic_oval_cmp`: not zero where the values are the same. Of the types that have no case, as
-- the truth values and the arrays, no two values are.
unfoldable pub oval_cmp : Oval → Oval → Bool
unfolding strncmp_eq
oval_cmp null null = true
oval_cmp (int_pos m) (int_pos n) = m == n
oval_cmp (int_neg m) (int_neg n) = m == n
oval_cmp (double v) (double w) = double_eq v w
oval_cmp (string s) (string t) = if length s == length t then strncmp_eq (length s) s t else false
oval_cmp _ _ = false

count_elements : Elements → ℕ
count_elements nil = 0
count_elements (cons v es) = suc (count_elements es)

all_same : Elements → Elements → Bool
all_same (cons v vs) (cons w ws) = oval_cmp v w && all_same vs ws
all_same _ _ = true

-- `oval_array_cmp`
unfoldable pub array_cmp : Elements → Elements → Bool
unfolding count_elements all_same
array_cmp vs ws = if count_elements vs == count_elements ws then all_same vs ws else false
