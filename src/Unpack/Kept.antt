-- ===== src/Unpack/Kept.antt =====
-- What the reader of a record keeps of its channel, whatever the bytes are: its id and its buffers,
-- and the rows that were delivered. No reader goes back in the block.
pub mod Arrays
pub mod Records
pub mod Blocks
use otic.Prelude.{
  ℕ, zero, suc, ◌+◌, ◌*◌, ◌%◌, ◌^◌, ◌≤◌, ◌<◌, Bool, true, false, not, ◌&&◌, Option, none, some,
  List, [], ◌∷◌, ◌++◌, length, ltb, ◌==◌, ◌≡◌, append-nil, append_assoc, ap, ◌∙◌, refl, sym, arith,
  inl, inr, Bool-cases, Option-cases, if◌then◌else◌, ◌>>=◌, OfSome, OfSome-bind, get_elem?,
}
use otic.Prelude.Bytes.{le_read}
use otic.Base.{Floating}
use otic.Base.Types.{OticType, small_int_limit, type_of_code}
use otic.Base.Oval.{Oval, null, bool_true, bool_false, int_neg, int_pos, double, float, string}
use otic.Leb128.{decode_unsigned}
use otic.Leb128.Decode.{decode_takes}
use otic.Unpack.Channel.{
  Channel, Entry, Row, flush_if_flushable, deliver, count_row, store_value, read_number, read_index,
}
use otic.Unpack.Read.{
  split, read_true, read_false, read_null, read_smallint, read_intneg, read_intpos, read_double,
  read_float, read_byte, read_string, read_unmodified, read_rawbuffer, read_set_timestamp,
  read_shift_timestamp, split_terminator, insert_entry, read_name_assign, read_eof,
}
use otic.Unpack.Array.{
  Answer, element, short_text, scalar, read_array, read_elements, read_element, nulls,
  channel_read_array,
}
use otic.Unpack.Block.{dispatch, parse_record, parse_loop, parse_block}

pub record Kept (c c' : Channel) : Type 0 where
  pub id : c'.channel_id ≡ c.channel_id
  pub size : c'.base.cache_size ≡ c.base.cache_size
  pub new_rows : List Row
  pub rows : c'.rows ≡ c.rows ++ new_rows
  pub shorter : length c'.top ≤ length c.top

pub split_shorter :
    (n : ℕ) (bs : List ℕ) → OfSome (λ (r : List ℕ × List ℕ). length r.1 ≤ length bs) (split n bs)
unfolding split
split_shorter zero bs = omega arith
split_shorter (suc n) [] = tt
split_shorter (suc n) (b ∷ bs) =
    OfSome-bind (λ (r : List ℕ × List ℕ). length r.1 ≤ length bs) _ (split n bs) _
      (split_shorter n bs) (λ r h. omega (arith, h))

pub le_read_shorter :
    (n : ℕ) (bs : List ℕ) → OfSome (λ (r : ℕ × List ℕ). length r.1 ≤ length bs) (le_read n bs)
unfolding le_read
le_read_shorter zero bs = omega arith
le_read_shorter (suc n) [] = tt
le_read_shorter (suc n) (b ∷ bs) = elim (Option-cases (le_read n bs)) [
  | inl p ↦ rw p tt
  | inr ((v, rest), p) ↦
      let shorter = le_read_shorter n bs in
      let h : length rest ≤ length bs = rw p at shorter in rw p (omega (arith, h))
]

pub decode_shorter :
    (bs : List ℕ) → OfSome (λ (r : ℕ × List ℕ). length r.1 ≤ length bs) (decode_unsigned bs)
decode_shorter bs = elim (Option-cases (decode_unsigned bs)) [
  | inl p ↦ rw p tt
  | inr ((v, rest), p) ↦ rw p (omega (arith, (decode_takes bs v rest p).0))
]

module _ (c : Channel) where
  abbrev pub From : Option Channel → Type 0
  From = OfSome (Kept c)

  abbrev pub FromPair : Option (ℕ × Channel) → Type 0
  FromPair = OfSome (λ (r : ℕ × Channel). Kept c r.1)

  pub Kept-refl : Kept c c
  Kept-refl = record {
    id = refl;
    size = refl;
    new_rows = [];
    rows = sym (append-nil c.rows);
    shorter = omega arith;
  }

  pub moved :
      (c1 : Channel) (rest : List ℕ)
      → Kept c c1
      → length rest ≤ length c1.top
      → Kept c (record c1 { top = rest })
  moved c1 rest k h = record {
    id = k.id;
    size = k.size;
    new_rows = k.new_rows;
    rows = k.rows;
    shorter = omega (arith, k.shorter, h);
  }

  -- A step that changes other fields only.
  pub alike :
      (c1 c2 : Channel)
      → c2.channel_id ≡ c1.channel_id
      → c2.base.cache_size ≡ c1.base.cache_size
      → c2.rows ≡ c1.rows
      → c2.top ≡ c1.top
      → Kept c c1
      → Kept c c2
  alike c1 c2 id size rows top k = record {
    id = id ∙ k.id;
    size = size ∙ k.size;
    new_rows = k.new_rows;
    rows = rows ∙ k.rows;
    shorter = omega (arith, ap length top, k.shorter);
  }

  pub read_number-Kept : (c1 : Channel) → Kept c c1 → FromPair (read_number c1)
  unfolding read_number
  read_number-Kept c1 k =
      OfSome-bind _ _ (decode_unsigned c1.top) _ (decode_shorter c1.top) (λ r h. moved c1 r.1 k h)

  pub read_index-Kept : (c1 : Channel) → Kept c c1 → From (read_index c1)
  unfolding read_index
  read_index-Kept c1 k =
      OfSome-bind _ _ (read_number c1) _ (read_number-Kept c1 k)
        (λ r h. alike _ _ refl refl refl refl h)

  store_value-Kept : (c1 : Channel) (v : Oval) → Kept c c1 → From (store_value c1 v)
  unfolding store_value
  store_value-Kept c1 v k = elim (Option-cases (get_elem? c1.entries c1.entry_index)) [
    | inl p ↦ rw p tt
    | inr (e, p) ↦ rw p (alike _ _ refl refl refl refl k)
  ]

  pub deliver-Kept : (c1 : Channel) → Kept c c1 → From (deliver c1)
  unfolding deliver flush_if_flushable count_row
  deliver-Kept c1 k = elim (Option-cases (get_elem? c1.entries c1.entry_index)) [
    | inl p ↦ rw p tt
    | inr (e, p) ↦ elim (Bool-cases (e.ignore && not (length c1.to_fetch == 0))) [
      | inl q ↦ rw (p, q) (alike _ _ refl refl refl refl k)
      | inr q ↦
          let r : Row = record { time = c1.ts; name = e.name; unit = e.unit; value = e.value } in
          rw (p, q)
            (record {
              id = k.id;
              size = k.size;
              new_rows = k.new_rows ++ (r ∷ []);
              rows =
                  ap (λ (rs : List Row). rs ++ (r ∷ [])) k.rows
                  ∙ append_assoc c.rows k.new_rows (r ∷ []);
              shorter = k.shorter;
            })
    ]
  ]

  -- The value that is stored after the index, and its row.
  pub stored-Kept : (c1 : Channel) (v : Oval) → Kept c c1 → From (store_value c1 v >>= deliver)
  stored-Kept c1 v k =
      OfSome-bind _ _ (store_value c1 v) deliver (store_value-Kept c1 v k) deliver-Kept

  pub indexed :
      (f : Channel → Option Channel)
      → ((c1 : Channel) → Kept c c1 → From (f c1))
      → (c0 : Channel) → Kept c c0
      → From (read_index c0 >>= f)
  indexed f next c0 k = OfSome-bind _ _ (read_index c0) f (read_index-Kept c0 k) next

  pub constant-Kept :
      (v : Oval) (c0 : Channel)
      → Kept c c0
      → From (read_index c0 >>= λ c1. store_value c1 v >>= deliver)
  constant-Kept v = indexed _ (λ c1 k. stored-Kept c1 v k)

  pub number-Kept :
      (build : ℕ → Oval) (c0 : Channel)
      → Kept c c0
      → From (
          read_index c0 >>= λ c1.
          read_number c1 >>= λ (v, c2). store_value c2 (build v) >>= deliver)
  number-Kept build = indexed _ (λ c1 k.
      OfSome-bind _ _ (read_number c1) _ (read_number-Kept c1 k)
        (λ r h. stored-Kept r.1 (build r.0) h))

  pub fixed-Kept :
      (n : ℕ) (build : ℕ → Oval) (c0 : Channel)
      → Kept c c0
      → From (
          read_index c0 >>= λ c1. le_read n c1.top >>= λ (w, rest).
          store_value (record c1 { top = rest }) (build w) >>= deliver)
  fixed-Kept n build = indexed _ (λ c1 k.
      OfSome-bind _ _ (le_read n c1.top) _ (le_read_shorter n c1.top)
        (λ r h. stored-Kept (record c1 { top = r.1 }) (build r.0) (moved c1 r.1 k h)))

  pub read_byte-Kept : (c1 : Channel) → Kept c c1 → FromPair (read_byte c1)
  unfolding read_byte
  read_byte-Kept c1 k =
      OfSome-bind _ _ (split 1 c1.top) _ (split_shorter 1 c1.top) (λ r h. moved c1 r.1 k h)

  pub length-Kept :
      (old : Bool) (c1 : Channel)
      → Kept c c1
      → FromPair (if old then read_byte c1 else read_number c1)
  length-Kept true = read_byte-Kept
  length-Kept false = read_number-Kept
