-- ===== src/Codec/Records.antt =====
-- One record of each type: what the reader does on the bytes that the packer writes for it.
use otic.Prelude.{
  ℕ, zero, suc, ◌%◌, ◌^◌, ◌<◌, true, false, not, ◌&&◌, some, List, [], ◌∷◌, ◌++◌, length, get_elem?,
  set, append_assoc, ◌==◌, ltb, ◌≡◌, refl, ap, arith, ◌>>=◌,
}
use otic.Prelude.Bytes.{le_bytes, le_read-le_bytes}
use otic.Base.{Floating, increment}
use otic.Base.Types.{type_of_code}
use otic.Base.Oval.{Oval, null, bool_true, bool_false, int_neg, int_pos, double, string}
use otic.Leb128.{IsU64, encode_unsigned}
use otic.Leb128.Decode.{decode-encode}
use otic.Unpack.Channel.{
  Channel, Entry, Row, flush_if_flushable, deliver, store_value, read_number, read_index, count_row,
}
use otic.Unpack.Read.{
  split, read_true, read_false, read_null, read_smallint, read_intneg, read_intpos, read_double,
  read_string, read_unmodified,
}
use otic.Unpack.Block.{parse_record}
use otic.Codec.Reads.{at, OneRecord}

-- The row that the entry `e` gives at this time.
abbrev pub row_of : Channel → Entry → Row
row_of u e = record { time = u.ts; name = e.name; unit = e.unit; value = e.value }

-- The channel after a record for the sensor at `i` whose entry is now `e`.
abbrev pub delivered : Channel → ℕ → Entry → Channel
delivered u i e = record u {
  entry_index = i;
  entries = set u.entries i e;
  rows = u.rows ++ (row_of u e ∷ []);
  base = record (u.base) { row_counter = increment u.base.row_counter };
}

abbrev pub with_value : Entry → Oval → Entry
with_value e v = record e { value = v }

pub get_elem?-set_self {ℓ} :
    {A : Type ℓ} (xs : List A) (i : ℕ) (x y : A)
    → get_elem? xs i ≡ some x
    → get_elem? (set xs i y) i ≡ some y
get_elem?-set_self [] i x y h = cc
get_elem?-set_self (z ∷ xs) zero x y h = refl
get_elem?-set_self (z ∷ xs) (suc i) x y h = get_elem?-set_self xs i x y h

pub set_same {ℓ} :
    {A : Type ℓ} (xs : List A) (i : ℕ) (x : A) → get_elem? xs i ≡ some x → set xs i x ≡ xs
set_same [] i x h = refl
set_same (z ∷ xs) zero x h = cc
set_same (z ∷ xs) (suc i) x h = ap (λ (t : List _). z ∷ t) (set_same xs i x h)

pub split-append : (s rest : List ℕ) → split (length s) (s ++ rest) ≡ some (s, rest)
unfolding split
split-append [] rest = refl
split-append (b ∷ s) rest = rw (split-append s rest)

-- The readers of numbers on what the writers of numbers wrote.
read_number_lem :
    (u : Channel) (v : ℕ) (rest : List ℕ)
    → IsU64 v
    → read_number (at u (encode_unsigned v ++ rest)) ≡ some (v, at u rest)
unfolding read_number
read_number_lem u v rest h = rw (decode-encode v rest h)

read_index_lem :
    (u : Channel) (i : ℕ) (rest : List ℕ)
    → i < 2 ^ 32
    → read_index (at u (encode_unsigned i ++ rest))
      ≡ some (record u { top = rest; entry_index = i })
unfolding read_index
read_index_lem u i rest h =
    let small : i % 2 ^ 32 ≡ i = omega arith in rw (read_number_lem u i rest (omega arith), small)

module _ (u : Channel) (i : ℕ) (e : Entry) (found : get_elem? u.entries i ≡ some e)
    (shown : (e.ignore && not (length u.to_fetch == 0)) ≡ false) where
  deliver_lem :
      (rest : List ℕ)
      → deliver (record u { top = rest; entry_index = i }) ≡ some (at (delivered u i e) rest)
  unfolding deliver flush_if_flushable count_row
  deliver_lem rest = rw (found, shown, set_same u.entries i e found)

  store_deliver :
      (v : Oval) (rest : List ℕ)
      → (store_value (record u { top = rest; entry_index = i }) v >>= deliver)
        ≡ some (at (delivered u i (with_value e v)) rest)
  unfolding deliver flush_if_flushable count_row store_value
  store_deliver v rest = rw (found, get_elem?-set_self u.entries i e (with_value e v) found, shown)

  module _ (in_range : i < 2 ^ 32) where
    index_lem :
        (rest : List ℕ)
        → read_index (at u (encode_unsigned i ++ rest))
          ≡ some (record u { top = rest; entry_index = i })
    index_lem rest = read_index_lem u i rest in_range

    -- A record that is its type and its index.
    index_value :
        (v : Oval) (rest : List ℕ)
        → (read_index (at u (encode_unsigned i ++ rest)) >>= λ c. store_value c v >>= deliver)
          ≡ some (at (delivered u i (with_value e v)) rest)
    index_value v rest = rw (index_lem rest) (store_deliver v rest)

    -- A record with a number behind its index.
    index_number :
        (build : ℕ → Oval) (n : ℕ) (rest : List ℕ)
        → IsU64 n
        → (read_index (at u ((encode_unsigned i ++ encode_unsigned n) ++ rest)) >>= λ c.
            read_number c >>= λ (m, c'). store_value c' (build m) >>= deliver)
          ≡ some (at (delivered u i (with_value e (build n))) rest)
    index_number build n rest h =
        rw (append_assoc, index_lem (encode_unsigned n ++ rest))
          (rw (read_number_lem (record u { entry_index = i }) n rest h)
            (store_deliver (build n) rest))

  module _ (fl : Floating) (version : ℕ) (in_range : i < 2 ^ 32) where
    pub unmodified_record : OneRecord fl version u 212 (encode_unsigned i) (delivered u i e)
    unfolding parse_record type_of_code read_unmodified
    unmodified_record rest = rw (index_lem in_range rest) (deliver_lem rest)

    pub null_record :
        OneRecord fl version u 201 (encode_unsigned i) (delivered u i (with_value e null))
    unfolding parse_record type_of_code read_null
    null_record rest = index_value in_range null rest

    pub true_record :
        OneRecord fl version u 209 (encode_unsigned i) (delivered u i (with_value e bool_true))
    unfolding parse_record type_of_code read_true
    true_record rest = index_value in_range bool_true rest

    pub false_record :
        OneRecord fl version u 210 (encode_unsigned i) (delivered u i (with_value e bool_false))
    unfolding parse_record type_of_code read_false
    false_record rest = index_value in_range bool_false rest

    pub smallint_record :
        (n : ℕ)
        → ltb n 201 ≡ true
        → OneRecord fl version u n (encode_unsigned i) (delivered u i (with_value e (int_pos n)))
    unfolding parse_record read_smallint
    smallint_record n h rest = rw h (index_value in_range (int_pos n) rest)

    pub intpos_record :
        (n : ℕ)
        → IsU64 n
        → OneRecord fl version u 203
            (encode_unsigned i ++ encode_unsigned n)
            (delivered u i (with_value e (int_pos n)))
    unfolding parse_record type_of_code read_intpos
    intpos_record n h rest = index_number in_range int_pos n rest h

    pub intneg_record :
        (n : ℕ)
        → IsU64 n
        → OneRecord fl version u 202
            (encode_unsigned i ++ encode_unsigned n)
            (delivered u i (with_value e (int_neg n)))
    unfolding parse_record type_of_code read_intneg
    intneg_record n h rest = index_number in_range int_neg n rest h

    pub double_record :
        (w : ℕ)
        → IsU64 w
        → OneRecord fl version u 205
            (encode_unsigned i ++ le_bytes 8 w)
            (delivered u i (with_value e (double w)))
    unfolding parse_record type_of_code read_double
    double_record w h rest =
        rw (append_assoc, index_lem in_range (le_bytes 8 w ++ rest))
          (rw (le_read-le_bytes 8 w rest h) (store_deliver (double w) rest))

    pub string_record :
        (s : List ℕ)
        → (version == 1) ≡ false
        → IsU64 (length s)
        → OneRecord fl version u 206
            (encode_unsigned i ++ (encode_unsigned (length s) ++ s))
            (delivered u i (with_value e (string s)))
    unfolding parse_record type_of_code read_string
    string_record s hv h rest =
        rw (append_assoc, index_lem in_range ((encode_unsigned (length s) ++ s) ++ rest), hv)
          (rw (append_assoc, decode-encode (length s) (s ++ rest) h)
            (rw (split-append s rest) (store_deliver (string s) rest)))
