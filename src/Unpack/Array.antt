-- ===== src/Unpack/Array.antt =====
-- The reader of arrays, `read_array`. A failure inside an array leaves the elements behind it as
-- they were initialised, null, and its answer is not used by `otic_unpack_read_array`.
use otic.Prelude.{
  ℕ, zero, suc, ◌+◌, ◌*◌, ◌%◌, ◌^◌, Bool, true, false, Option, none, some, List, [], ◌∷◌, length,
  ◌>>=◌,
}
use otic.Prelude.Bytes.{le_read}
use otic.Base.Types.{OticType, type_of_code}
use otic.Base.Oval.{
  Oval, Elements, nil, cons, null, bool_true, bool_false, int_neg, int_pos, float, double, string,
  array,
}
use otic.Leb128.{decode_unsigned}
use otic.Unpack.Channel.{Channel, deliver, store_value, read_index}
use otic.Unpack.Read.{split}

-- The answer of a reader, what it built, and the bytes from `top` on.
abbrev pub Answer : Type 0 → Type 0
Answer A = Option (Bool × A × List ℕ)

-- `otic_array_init_size`: every element is null at first.
pub nulls : ℕ → Elements
nulls zero = nil
nulls (suc n) = cons null (nulls n)

-- The element that a number or a constant gives.
abbrev pub element : (ℕ → Oval) → Option (ℕ × List ℕ) → Answer Oval
element build m = m >>= λ (v, rest). some (true, build v, rest)

-- A text has a length of one byte.
unfoldable pub short_text : List ℕ → Answer Oval
short_text [] = none
short_text (n ∷ bs) = split n bs >>= λ (text, rest). some (true, string text, rest)

-- The cases of the `switch` that have no element inside. A `float` is copied with the four bytes
-- behind it, as a `double` is, and `top` moves on by four.
unfoldable pub scalar : Option OticType → List ℕ → Answer Oval
scalar (some OticType.int_pos) top = element int_pos (decode_unsigned top)
scalar (some OticType.int_neg) top = element int_neg (decode_unsigned top)
scalar (some OticType.double) top = element double (le_read 8 top)
scalar (some OticType.float) top = le_read 8 top >>= λ _. element float (le_read 4 top)
scalar (some OticType.string) top = short_text top
scalar (some OticType.bool_true) top = some (true, bool_true, top)
scalar (some OticType.bool_false) top = some (true, bool_false, top)
-- Objects are not read, and no other byte starts an element.
scalar _ top = some (false, null, top)

-- `read_array` and its loop. Every round takes a byte, and so does every array; without fuel the
-- result is `none`.
unfoldable mutual
  pub read_array : ℕ → List ℕ → Answer Elements
  read_array zero top = none
  read_array (suc fuel) top =
      decode_unsigned top >>= λ (size, rest). read_elements fuel (size % 2 ^ 32) rest

  pub read_elements : ℕ → ℕ → List ℕ → Answer Elements
  read_elements fuel zero top = some (true, nil, top)
  read_elements zero (suc n) top = none
  read_elements (suc fuel) (suc n) [] = none
  read_elements (suc fuel) (suc n) (b ∷ top) =
      read_element fuel (type_of_code b) top >>= λ (good, v, rest). elim good [
        | true ↦ read_elements fuel n rest >>= λ (good', vs, rest'). some (good', cons v vs, rest')
        | false ↦ some (false, cons v (nulls n), rest)
      ]

  pub read_element : ℕ → Option OticType → List ℕ → Answer Oval
  read_element zero t top = none
  read_element (suc fuel) (some OticType.array) top =
      read_array fuel top >>= λ (good, vs, rest). some (good, array vs, rest)
  read_element (suc fuel) t top = scalar t top

-- `otic_unpack_read_array`
unfoldable pub channel_read_array : Channel → Option Channel
unfolding read_index read_array scalar short_text store_value deliver
channel_read_array c = read_index c >>= λ c1.
    read_array (3 * length c1.top + 3) c1.top >>= λ (good, vs, rest).
    store_value (record c1 { top = rest }) (array vs) >>= deliver
