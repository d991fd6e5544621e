-- ===== src/Codec/Arrays/Write.antt =====
-- What the writer of an array adds to the buffer.
use otic.Prelude.{
  ℕ, ◌%◌, false, List, [], ◌∷◌, ◌++◌, length, append_assoc, append-nil, ltb, ◌≡◌, refl, ap, ◌∙◌,
  arith,
}
use otic.Prelude.Bytes.{le_bytes}
use otic.Base.Types.{OticType, type_code, small_int_limit}
use otic.Base.Oval.{
  Oval, Elements, nil, cons, bool_true, bool_false, int_neg, int_pos, double, string, array,
}
use otic.Leb128.{encode_unsigned}
use otic.Pack.Channel as Packing
use otic.Pack.Channel.{write_bytes, write_byte, write_type, write_long, write_double, write_string}
use otic.Pack.Array.{size_of, write_elements, write_element, write_array}
use otic.Codec.Arrays.{AllPlain, IsPlain, IsScalar, elements_bytes, element_bytes, array_bytes}

module _ (to_float : ℕ → ℕ) where
  two_writes :
      (c : Packing.Channel) (xs ys : List ℕ)
      → write_bytes (write_bytes c xs) ys ≡ write_bytes c (xs ++ ys)
  unfolding write_bytes
  two_writes c xs ys = rw (append_assoc c.base.cache xs ys) refl

  -- A type and what follows it.
  typed :
      (c : Packing.Channel) (t : OticType) (xs : List ℕ)
      → write_bytes (write_type c t) xs ≡ write_bytes c (type_code t % 256 ∷ xs)
  unfolding write_type write_byte
  typed c t xs = two_writes c (type_code t % 256 ∷ []) xs

  nothing_more : (c : Packing.Channel) → c ≡ write_bytes c []
  unfolding write_bytes
  nothing_more c = rw append-nil refl

  after_array :
      (c : Packing.Channel) (xs ys : List ℕ)
      → write_bytes (write_bytes c (type_code OticType.array % 256 ∷ xs)) ys
        ≡ write_bytes c (207 ∷ xs ++ ys)
  unfolding type_code
  after_array c xs ys = two_writes c (207 ∷ xs) ys

  -- The elements that hold no others.
  written_scalar :
      (c : Packing.Channel) (v : Oval)
      → IsPlain v
      → IsScalar v
      → write_element to_float c v ≡ write_bytes c (element_bytes v)
  unfolding write_elements elements_bytes AllPlain write_byte write_long write_double write_string
      write_type type_code
  written_scalar c (int_pos n) h s =
      let large : ltb n small_int_limit ≡ false = ground (arith, h.0) in
      rw large (typed c OticType.int_pos (encode_unsigned n))
  written_scalar c (int_neg n) h s = typed c OticType.int_neg (encode_unsigned n)
  written_scalar c (double w) h s = typed c OticType.double (le_bytes 8 w)
  written_scalar c (string t) h s =
      two_writes (write_type c OticType.string) (length t % 256 ∷ []) t
      ∙ typed c OticType.string (length t % 256 ∷ t)
  written_scalar c bool_true h s = refl
  written_scalar c bool_false h s = refl
  written_scalar c (array vs) h s = absurd s
  written_scalar c _ h s = absurd h

  -- The writer appends these bytes and changes nothing else.
  written_elements :
      (c : Packing.Channel) (vs : Elements)
      → AllPlain vs
      → write_elements to_float c vs ≡ write_bytes c (elements_bytes vs)
  unfolding write_elements elements_bytes AllPlain write_long
  written_elements c nil h = nothing_more c
  written_elements c (cons (array ws) vs) (h, hs) =
      let c1 = write_type c OticType.array in
      let size = encode_unsigned (size_of ws) in
      let inner =
        written_elements (write_long c1 (size_of ws)) ws h.1
        ∙ two_writes c1 size (elements_bytes ws)
        ∙ typed c OticType.array (size ++ elements_bytes ws) in
      written_elements (write_element to_float c (array ws)) vs hs
      ∙ rw inner (after_array c (size ++ elements_bytes ws) (elements_bytes vs))
  written_elements c (cons v vs) (h, hs) =
      written_elements (write_element to_float c v) vs hs
      ∙ ap (λ (c1 : Packing.Channel). write_bytes c1 (elements_bytes vs)) (written_scalar c v h tt)
      ∙ two_writes c (element_bytes v) (elements_bytes vs)

  pub written_array :
      (c : Packing.Channel) (vs : Elements)
      → AllPlain vs
      → write_array to_float c vs ≡ write_bytes c (array_bytes vs)
  unfolding write_array write_long array_bytes
  written_array c vs h =
      written_elements (write_bytes c (encode_unsigned (size_of vs))) vs h
      ∙ two_writes c (encode_unsigned (size_of vs)) (elements_bytes vs)
