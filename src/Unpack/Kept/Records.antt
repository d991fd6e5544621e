-- ===== src/Unpack/Kept/Records.antt =====
-- The records that the block parser reads, and its loop.
use otic.Prelude.{
  ℕ, ◌+◌, ◌*◌, Option, some, List, length, ltb, ◌==◌, refl, inl, inr, Bool-cases, Option-cases,
  if◌then◌else◌, OfSome-bind,
}
use otic.Base.{Floating}
use otic.Base.Types.{OticType, small_int_limit, type_of_code}
use otic.Base.Oval.{array, null, bool_true, bool_false, int_neg, int_pos, double, float, string}
use otic.Unpack.Channel.{Channel, deliver, read_number}
use otic.Unpack.Read.{
  split, read_true, read_false, read_null, read_smallint, read_intneg, read_intpos, read_double,
  read_float, read_byte, read_string, read_unmodified, read_rawbuffer, read_set_timestamp,
  read_shift_timestamp, split_terminator, insert_entry, read_name_assign, read_eof,
}
use otic.Unpack.Array.{read_array, channel_read_array}
use otic.Unpack.Block.{dispatch, parse_record}
use otic.Unpack.Kept.{
  Kept, From, Kept-refl, moved, alike, read_number-Kept, stored-Kept, indexed, constant-Kept,
  number-Kept, fixed-Kept, read_byte-Kept, length-Kept, deliver-Kept, split_shorter,
}
use otic.Unpack.Kept.Arrays.{array_shorter}

module _ (c : Channel) where
  module _ (c0 : Channel) (k : Kept c c0) where
    read_string-Kept : (version : ℕ) → From c (read_string version c0)
    unfolding read_string
    read_string-Kept version =
        indexed c _
          (λ c1 k1.
            OfSome-bind _ _ (if version == 1 then read_byte c1 else read_number c1) _
              (length-Kept c (version == 1) c1 k1)
              (λ r h. OfSome-bind _ _ (split r.0 (r.1).top) _ (split_shorter r.0 (r.1).top) (λ s h1.
                stored-Kept c (record (r.1) { top = s.1 }) (string s.0) (moved c r.1 s.1 h h1))))
          c0 k

    read_rawbuffer-Kept : From c (read_rawbuffer c0)
    unfolding read_rawbuffer
    read_rawbuffer-Kept = tt

    timed-Kept : (fl : Floating) → From c (read_set_timestamp fl c0)
    unfolding read_set_timestamp
    timed-Kept fl =
        OfSome-bind _ _ (read_number c0) _ (read_number-Kept c c0 k)
          (λ r h. alike c _ _ refl refl refl refl h)

    shifted-Kept : (fl : Floating) → From c (read_shift_timestamp fl c0)
    unfolding read_shift_timestamp
    shifted-Kept fl =
        OfSome-bind _ _ (read_number c0) _ (read_number-Kept c c0 k)
          (λ r h. alike c _ _ refl refl refl refl h)

    checked-Kept : From c (read_eof c0)
    unfolding read_eof
    checked-Kept = OfSome-bind _ _ (read_number c0) _ (read_number-Kept c c0 k) (λ r h.
        elim (Bool-cases (r.0 == (r.1).base.row_counter)) [
          | inl p ↦ rw p h
          | inr p ↦ rw p (alike c _ _ refl refl refl refl h)
        ])

  insert_entry-Kept : (c1 : Channel) (value : List ℕ) → Kept c c1 → From c (insert_entry c1 value)
  unfolding insert_entry
  insert_entry-Kept c1 value k = elim (Option-cases (split_terminator value)) [
    | inl p ↦ rw p tt
    | inr (parts, p) ↦ rw p (alike c _ _ refl refl refl refl k)
  ]

  named-Kept : (c0 : Channel) → Kept c c0 → From c (read_name_assign c0)
  unfolding read_name_assign
  named-Kept c0 k = OfSome-bind _ _ (read_byte c0) _ (read_byte-Kept c c0 k) (λ r h.
      OfSome-bind _ _ (split r.0 (r.1).top) _ (split_shorter r.0 (r.1).top)
        (λ s h1. insert_entry-Kept (record (r.1) { top = s.1 }) s.0 (moved c r.1 s.1 h h1)))

  array-Kept : (c0 : Channel) → Kept c c0 → From c (channel_read_array c0)
  unfolding channel_read_array
  array-Kept = indexed c _ (λ c1 k.
      OfSome-bind _ _ (read_array (3 * length c1.top + 3) c1.top) _
        (array_shorter (3 * length c1.top + 3) c1.top)
        (λ r le. stored-Kept c (record c1 { top = r.2 }) (array r.1) (moved c c1 r.2 k le)))

  pub dispatch-Kept :
      (fl : Floating) (version : ℕ) (t : Option OticType) (c0 : Channel)
      → Kept c c0
      → From c (dispatch fl version t c0)
  unfolding dispatch read_true read_false read_null read_intneg read_intpos read_double read_float
      read_unmodified
  dispatch-Kept fl version (some OticType.unmodified) c0 k = indexed c deliver (deliver-Kept c) c0 k
  dispatch-Kept fl version (some OticType.int_pos) c0 k = number-Kept c int_pos c0 k
  dispatch-Kept fl version (some OticType.int_neg) c0 k = number-Kept c int_neg c0 k
  dispatch-Kept fl version (some OticType.double) c0 k = fixed-Kept c 8 double c0 k
  dispatch-Kept fl version (some OticType.float) c0 k = fixed-Kept c 4 float c0 k
  dispatch-Kept fl version (some OticType.null) c0 k = constant-Kept c null c0 k
  dispatch-Kept fl version (some OticType.bool_true) c0 k = constant-Kept c bool_true c0 k
  dispatch-Kept fl version (some OticType.bool_false) c0 k = constant-Kept c bool_false c0 k
  dispatch-Kept fl version (some OticType.set_timestamp) c0 k = timed-Kept c0 k fl
  dispatch-Kept fl version (some OticType.shift_timestamp) c0 k = shifted-Kept c0 k fl
  dispatch-Kept fl version (some OticType.name_assign) c0 k = named-Kept c0 k
  dispatch-Kept fl version (some OticType.array) c0 k = array-Kept c0 k
  dispatch-Kept fl version (some OticType.eof) c0 k = checked-Kept c0 k
  dispatch-Kept fl version (some OticType.string) c0 k = read_string-Kept c0 k version
  dispatch-Kept fl version (some OticType.rawbuffer) c0 k = read_rawbuffer-Kept c0 k
  dispatch-Kept fl version _ c0 k = k

  pub smallint-Kept : (b : ℕ) (c0 : Channel) → Kept c c0 → From c (read_smallint c0 b)
  unfolding read_smallint
  smallint-Kept b = constant-Kept c (int_pos b)

-- A record takes its first byte at least.
pub parse_record-Kept :
    (fl : Floating) (version : ℕ) (c : Channel) (b : ℕ) (rest : List ℕ)
    → From (record c { top = rest }) (parse_record fl version c b rest)
unfolding parse_record
parse_record-Kept fl version c b rest =
    let c0 = record c { top = rest } in
    elim (Bool-cases (ltb b small_int_limit)) [
      | inl p ↦ rw p (smallint-Kept c0 b c0 (Kept-refl c0))
      | inr p ↦ rw p (dispatch-Kept c0 fl version (type_of_code b) c0 (Kept-refl c0))
    ]
