-- ===== src/Codec/Arrays.antt =====
-- Arrays that are written and read: which come through, and their bytes.
pub mod Write
pub mod Read
use otic.Prelude.{
  ℕ, zero, suc, ◌+◌, ◌-◌, ◌*◌, ◌%◌, ◌^◌, ◌≤◌, ◌<◌, Bool, true, false, Option, none, some, List, [],
  ◌∷◌, ◌++◌, length, length-append, append_assoc, append-nil, ltb, ◌==◌, ◌≡◌, refl, sym, ap, ◌∙◌,
  arith, if◌then◌else◌, ◌>>=◌,
}
use otic.Prelude.Bytes.{le_bytes, le_read, le_read-le_bytes, length-le_bytes}
use otic.Base.Types.{OticType, type_code, type_of_code, small_int_limit}
use otic.Base.Oval.{
  Oval, Elements, nil, cons, null, bool_true, bool_false, int_neg, int_pos, double, float, string,
  array,
}
use otic.Leb128.{IsU64, encode_unsigned, decode_unsigned}
use otic.Leb128.Decode.{decode-encode}
use otic.Leb128.Encode.{length-encode-pos}
use otic.Pack.Channel as Packing
use otic.Pack.Channel.{write_bytes, write_byte, write_type, write_long, write_double, write_string}
use otic.Pack.Array.{size_of, write_elements, write_element, write_array}
use otic.Unpack.Array.{read_array, read_elements, read_element, scalar, short_text, element}
use otic.Unpack.Read.{split}
use otic.Codec.Records.{split-append}

-- The arrays that come through: numbers of 64 bits, positive ones above the small integers, texts of at
-- most 255 bytes, no null and no `float`.
unfoldable mutual
  pub AllPlain : Elements → Type 0
  AllPlain nil = Unit {0}
  AllPlain (cons v vs) = IsPlain v × AllPlain vs

  pub IsPlain : Oval → Type 0
  IsPlain (int_pos n) = (small_int_limit ≤ n) × IsU64 n
  IsPlain (int_neg n) = IsU64 n
  IsPlain (double w) = IsU64 w
  IsPlain (string s) = length s ≤ 255
  IsPlain (array vs) = (size_of vs < 2 ^ 32) × AllPlain vs
  IsPlain bool_true = Unit {0}
  IsPlain bool_false = Unit {0}
  IsPlain _ = ⊥

abbrev pub IsScalar : Oval → Type 0
IsScalar (array vs) = ⊥
IsScalar _ = Unit {0}

-- The bytes of an array.
unfoldable mutual
  pub elements_bytes : Elements → List ℕ
  elements_bytes nil = []
  elements_bytes (cons v vs) = element_bytes v ++ elements_bytes vs

  pub element_bytes : Oval → List ℕ
  element_bytes (int_pos n) =
      if ltb n small_int_limit then (n % 256) ∷ [] else 203 ∷ encode_unsigned n
  element_bytes (int_neg n) = 202 ∷ encode_unsigned n
  element_bytes (double w) = 205 ∷ le_bytes 8 w
  element_bytes (string s) = 206 ∷ (length s % 256) ∷ s
  element_bytes (array vs) = 207 ∷ (encode_unsigned (size_of vs) ++ elements_bytes vs)
  element_bytes bool_true = 209 ∷ []
  element_bytes bool_false = 210 ∷ []
  element_bytes _ = []

unfoldable pub array_bytes : Elements → List ℕ
unfolding elements_bytes
array_bytes vs = encode_unsigned (size_of vs) ++ elements_bytes vs
