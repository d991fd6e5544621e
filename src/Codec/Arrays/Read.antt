-- ===== src/Codec/Arrays/Read.antt =====
-- The reader of an array on the bytes that were written.
use otic.Prelude.{
  ℕ, suc, ◌+◌, ◌-◌, ◌*◌, ◌%◌, ◌^◌, ◌≤◌, ◌<◌, Bool, true, false, some, List, [], ◌∷◌, ◌++◌, length,
  length-append, append_assoc, ltb, ◌≡◌, refl, ap, ◌∙◌, arith,
}
use otic.Prelude.Bytes.{le_bytes, le_read-le_bytes}
use otic.Base.Types.{type_of_code, small_int_limit}
use otic.Base.Oval.{
  Oval, Elements, nil, cons, bool_true, bool_false, int_neg, int_pos, double, string, array,
}
use otic.Leb128.{IsU64, encode_unsigned, decode_unsigned}
use otic.Leb128.Decode.{decode-encode}
use otic.Leb128.Encode.{length-encode-pos}
use otic.Pack.Channel as Packing
use otic.Pack.Channel.{write_bytes, write_byte, write_type, write_long, write_double, write_string}
use otic.Pack.Array.{size_of, write_array}
use otic.Unpack.Array.{read_array, read_elements, read_element, scalar, short_text, element}
use otic.Codec.Records.{split-append}
use otic.Codec.Arrays.{AllPlain, IsPlain, IsScalar, elements_bytes, element_bytes, array_bytes}
use otic.Codec.Arrays.Write.{written_array}

-- What an element is read from: its first byte, and the bytes behind it.
record Read (v : Oval) (fuel : ℕ) (tail : List ℕ) : Type 0 where
  first : ℕ
  others : List ℕ
  bytes : element_bytes v ≡ first ∷ others
  read : read_element fuel (type_of_code first) (others ++ tail) ≡ some (true, v, tail)

number_read :
    (build : ℕ → Oval) (n : ℕ) (tail : List ℕ)
    → IsU64 n
    → element build (decode_unsigned (encode_unsigned n ++ tail)) ≡ some (true, build n, tail)
number_read build n tail h = rw (decode-encode n tail h) refl

text_read :
    (s tail : List ℕ)
    → length s ≤ 255
    → short_text ((length s % 256 ∷ s) ++ tail) ≡ some (true, string s, tail)
unfolding short_text
text_read s tail h =
    let byte : length s % 256 ≡ length s = omega (arith, h) in
    rw byte (rw (split-append s tail) refl)

-- An element that holds no others.
scalar-Read :
    (v : Oval) (fuel : ℕ) (tail : List ℕ) → IsPlain v → IsScalar v → Read v (suc fuel) tail
unfolding elements_bytes AllPlain read_array scalar type_of_code
scalar-Read (int_pos n) fuel tail h s =
    let large : ltb n small_int_limit ≡ false = ground (arith, h.0) in
    record {
      first = 203;
      others = encode_unsigned n;
      bytes = rw large refl;
      read = number_read int_pos n tail h.1;
    }
scalar-Read (int_neg n) fuel tail h s = record {
  first = 202;
  others = encode_unsigned n;
  bytes = refl;
  read = number_read int_neg n tail h;
}
scalar-Read (double w) fuel tail h s = record {
  first = 205;
  others = le_bytes 8 w;
  bytes = refl;
  read = rw (le_read-le_bytes 8 w tail h) refl;
}
scalar-Read (string t) fuel tail h s = record {
  first = 206;
  others = length t % 256 ∷ t;
  bytes = refl;
  read = text_read t tail h;
}
scalar-Read bool_true fuel tail h s = record { first = 209; others = []; bytes = refl; read = refl }
scalar-Read bool_false fuel tail h s = record {
  first = 210;
  others = [];
  bytes = refl;
  read = refl;
}
scalar-Read (array vs) fuel tail h s = absurd s
scalar-Read _ fuel tail h s = absurd h

-- An element, and then the others.
then-Read :
    (v : Oval) (vs : Elements) (fuel : ℕ) (rest : List ℕ)
    → Read v fuel (elements_bytes vs ++ rest)
    → read_elements fuel (size_of vs) (elements_bytes vs ++ rest) ≡ some (true, vs, rest)
    → read_elements (suc fuel) (size_of (cons v vs)) (elements_bytes (cons v vs) ++ rest)
      ≡ some (true, cons v vs, rest)
unfolding elements_bytes read_array
then-Read v vs fuel rest r later =
    rw (r.bytes, append_assoc r.others (elements_bytes vs) rest) (rw r.read (rw later refl))

element_length : (v : Oval) → IsPlain v → 1 ≤ length (element_bytes v)
unfolding elements_bytes AllPlain
element_length (int_pos n) h =
    let large : ltb n small_int_limit ≡ false = ground (arith, h.0) in rw large (omega arith)
element_length (int_neg n) h = omega arith
element_length (double w) h = omega arith
element_length (string t) h = omega arith
element_length (array vs) h = omega arith
element_length bool_true h = omega arith
element_length bool_false h = omega arith
element_length _ h = absurd h

array_step :
    (fuel n : ℕ) (top rest : List ℕ) (r : Bool × Elements × List ℕ)
    → decode_unsigned top ≡ some (n, rest)
    → n < 2 ^ 32
    → read_elements fuel n rest ≡ some r
    → read_array (suc fuel) top ≡ some r
unfolding read_array
array_step fuel n top rest r e small inner =
    let whole : n % 2 ^ 32 ≡ n = omega (arith, small) in
    rw e (ap (λ (m : ℕ). read_elements fuel m rest) whole ∙ inner)

array_read :
    (ws : Elements) (fuel : ℕ) (tail : List ℕ)
    → size_of ws < 2 ^ 32
    → read_elements fuel (size_of ws) (elements_bytes ws ++ tail) ≡ some (true, ws, tail)
    → read_array (suc fuel) ((encode_unsigned (size_of ws) ++ elements_bytes ws) ++ tail)
      ≡ some (true, ws, tail)
array_read ws fuel tail small =
    array_step fuel (size_of ws) ((encode_unsigned (size_of ws) ++ elements_bytes ws) ++ tail)
      (elements_bytes ws ++ tail) (true, ws, tail)
      (rw (append_assoc (encode_unsigned (size_of ws)) (elements_bytes ws) tail)
        (decode-encode (size_of ws) (elements_bytes ws ++ tail) (omega (arith, small))))
      small

-- An element that is an array, of elements that are read.
nested-Read :
    (ws : Elements) (fuel : ℕ) (tail : List ℕ)
    → size_of ws < 2 ^ 32
    → read_elements fuel (size_of ws) (elements_bytes ws ++ tail) ≡ some (true, ws, tail)
    → Read (array ws) (suc (suc fuel)) tail
unfolding elements_bytes read_array type_of_code
nested-Read ws fuel tail small inner = record {
  first = 207;
  others = encode_unsigned (size_of ws) ++ elements_bytes ws;
  bytes = refl;
  read = rw (array_read ws fuel tail small inner) refl;
}

elements_read :
    (vs : Elements) (fuel : ℕ) (rest : List ℕ)
    → AllPlain vs
    → 2 * length (elements_bytes vs) < fuel
    → read_elements fuel (size_of vs) (elements_bytes vs ++ rest) ≡ some (true, vs, rest)
unfolding elements_bytes AllPlain read_array
elements_read nil fuel rest h enough = refl
elements_read (cons (array ws) vs) fuel rest (h, hs) enough =
    let size = encode_unsigned (size_of ws) in
    let outer = length-append (207 ∷ size ++ elements_bytes ws) (elements_bytes vs) in
    let inner = length-append size (elements_bytes ws) in
    let positive = length-encode-pos (size_of ws) in
    let n = fuel - 3 in
    let e : fuel ≡ suc (suc (suc n)) = omega (arith, enough, outer, inner, positive) in
    rw e (
      then-Read (array ws) vs (suc (suc n)) rest
        (nested-Read ws n (elements_bytes vs ++ rest) h.0 (
          elements_read ws n (elements_bytes vs ++ rest) h.1
            (omega (arith, enough, outer, inner, positive))))
        (elements_read vs (suc (suc n)) rest hs (omega (arith, enough, outer, inner, positive))))
elements_read (cons v vs) fuel rest (h, hs) enough =
    let outer = length-append (element_bytes v) (elements_bytes vs) in
    let positive = element_length v h in
    let n = fuel - 2 in
    let e : fuel ≡ suc (suc n) = omega (arith, enough, outer, positive) in
    rw e (
      then-Read v vs (suc n) rest (scalar-Read v n (elements_bytes vs ++ rest) h tt)
        (elements_read vs (suc n) rest hs (omega (arith, enough, outer, positive))))

-- The bytes that `write_array` adds to the buffer of a channel.
pub record Written (to_float : ℕ → ℕ) (c : Packing.Channel) (vs : Elements) : Type 0 where
  pub bytes : List ℕ
  pub appended : write_array to_float c vs ≡ write_bytes c bytes
  pub fits : length (write_array to_float c vs).base.cache ≤ c.base.cache_size
  pub restored :
      (rest : List ℕ)
      → read_array (3 * length (bytes ++ rest) + 3) (bytes ++ rest) ≡ some (true, vs, rest)

-- For an array of fewer than 2^32 elements, of 64-bit numbers (positive ones not below the limit
-- of small integers), doubles, texts of at most 255 bytes, truth values and arrays of these,
-- whose bytes fit what is left of the buffer: write_array appends bytes within the buffer and
-- changes nothing else, and read_array gives the array back from them and stops right behind,
-- whatever follows, with the fuel that the reader of a channel takes.
pub write_array-Written :
    (to_float : ℕ → ℕ) (c : Packing.Channel) (vs : Elements)
    → size_of vs < 2 ^ 32
    → AllPlain vs
    → length c.base.cache + length (array_bytes vs) ≤ c.base.cache_size
    → Written to_float c vs
unfolding array_bytes
write_array-Written to_float c vs small h room = record {
  bytes = array_bytes vs;
  appended = written_array to_float c vs h;
  fits =
      rw (written_array to_float c vs h)
        (unfold write_bytes in omega (arith, length-append c.base.cache (array_bytes vs), room));
  restored = λ rest.
      let size = encode_unsigned (size_of vs) in
      let all = length-append (size ++ elements_bytes vs) rest in
      let parts = length-append size (elements_bytes vs) in
      let fuel = 3 * length ((size ++ elements_bytes vs) ++ rest) + 2 in
      let e : 3 * length ((size ++ elements_bytes vs) ++ rest) + 3 ≡ suc fuel = omega arith in
      rw e
        (array_read vs fuel rest small (elements_read vs fuel rest h (omega (arith, all, parts))));
}
