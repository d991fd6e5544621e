-- ===== src/Unpack/Block.antt =====
-- The loop over the records of a block, `otic_unpack_parseBlock`.
use otic.Prelude.{
  ℕ, zero, suc, Option, none, some, List, [], ◌∷◌, length, ltb, if◌then◌else◌, ◌>>=◌,
}
use otic.Base.{Floating}
use otic.Base.Types.{OticType, type_of_code, small_int_limit}
use otic.Unpack.Channel.{Channel}
use otic.Unpack.Read.{
  read_true, read_false, read_null, read_smallint, read_intneg, read_intpos, read_double,
  read_float, read_string, read_unmodified, read_rawbuffer, read_set_timestamp,
  read_shift_timestamp, read_name_assign, read_eof,
}
use otic.Unpack.Array.{channel_read_array}

module _ (fl : Floating) (version : ℕ) where
  -- The `switch` on the type. A byte without a case is passed over.
  unfoldable pub dispatch : Option OticType → Channel → Option Channel
  dispatch (some OticType.unmodified) c = read_unmodified c
  dispatch (some OticType.int_pos) c = read_intpos c
  dispatch (some OticType.int_neg) c = read_intneg c
  dispatch (some OticType.double) c = read_double c
  dispatch (some OticType.float) c = read_float c
  dispatch (some OticType.null) c = read_null c
  dispatch (some OticType.bool_true) c = read_true c
  dispatch (some OticType.bool_false) c = read_false c
  dispatch (some OticType.set_timestamp) c = read_set_timestamp fl c
  dispatch (some OticType.shift_timestamp) c = read_shift_timestamp fl c
  dispatch (some OticType.name_assign) c = read_name_assign c
  dispatch (some OticType.array) c = channel_read_array c
  dispatch (some OticType.eof) c = read_eof c
  dispatch (some OticType.string) c = read_string version c
  dispatch (some OticType.rawbuffer) c = read_rawbuffer c
  dispatch _ c = some c

  -- One round of the loop, at the byte `b` with the others behind it.
  unfoldable pub parse_record : Channel → ℕ → List ℕ → Option Channel
  unfolding dispatch
  parse_record c b rest =
      let c' = record c { top = rest } in
      if ltb b small_int_limit then read_smallint c' b else dispatch (type_of_code b) c'

  -- Each round takes a byte, so as many rounds as there are bytes are enough.
  unfoldable pub parse_loop : ℕ → List ℕ → Channel → Option Channel
  parse_loop fuel [] c = some c
  parse_loop zero (b ∷ rest) c = none
  parse_loop (suc fuel) (b ∷ rest) c =
      parse_record c b rest >>= λ (c' : Channel). parse_loop fuel c'.top c'

  -- `otic_unpack_parseBlock`
  unfoldable pub parse_block : Channel → Option Channel
  unfolding parse_loop
  parse_block c = parse_loop (length c.top) c.top c
