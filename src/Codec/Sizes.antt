-- ===== src/Codec/Sizes.antt =====
-- How long the records are: a number of bytes that the slack of the buffer covers, besides the
-- text of a string.
use otic.Prelude.{ℕ, ◌+◌, ◌^◌, ◌≤◌, ◌<◌, List, ◌++◌, length, length-append, arith}
use otic.Prelude.Bytes.{le_bytes, length-le_bytes}
use otic.Base.Oval.{Oval, string}
use otic.Leb128.{IsU64, encode_unsigned}
use otic.Leb128.Encode.{length-encode-le}

abbrev pub text_size : Oval → ℕ
text_size (string s) = length s
text_size v = 0

pub number_short : (v : ℕ) → IsU64 v → length (encode_unsigned v) ≤ 10
number_short v h = length-encode-le 9 v (omega arith)

module _ (i : ℕ) (small : i < 2 ^ 32) where
  pub one_short : length (encode_unsigned i) ≤ 10
  one_short = number_short i (omega arith)

  pub two_short : (n : ℕ) → IsU64 n → length (encode_unsigned i ++ encode_unsigned n) ≤ 20
  two_short n h =
      omega
        (arith, length-append (encode_unsigned i) (encode_unsigned n), one_short, number_short n h)

  pub double_short : (w : ℕ) → length (encode_unsigned i ++ le_bytes 8 w) ≤ 20
  double_short w =
      omega
        (arith, length-append (encode_unsigned i) (le_bytes 8 w), one_short, length-le_bytes 8 w)

  pub text_short :
      (s : List ℕ)
      → IsU64 (length s)
      → length (encode_unsigned i ++ (encode_unsigned (length s) ++ s)) ≤ 20 + length s
  text_short s h = omega (
    arith,
    length-append (encode_unsigned i) (encode_unsigned (length s) ++ s),
    length-append (encode_unsigned (length s)) s,
    one_short,
    number_short (length s) h,
  )
