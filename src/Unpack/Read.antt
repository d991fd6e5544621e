-- ===== src/Unpack/Read.antt =====
-- The readers of one record, `otic_unpack_read_*`. `none` is a read outside the block or the table.
use otic.Prelude.{
  ℕ, zero, suc, ◌+◌, ◌-◌, ◌%◌, ◌^◌, not, Option, none, some, List, [], ◌∷◌, ◌++◌, length, ◌==◌,
  if◌then◌else◌, ◌>>=◌,
}
use otic.Prelude.Bytes.{le_read}
use otic.Base.{Floating, ts_null, of_ticks}
use otic.Base.Types.{row_count_mismatch, on_error}
use otic.Base.Oval.{
  null, bool_true, bool_false, unset, int_neg, int_pos, float, double, string, double_eq,
}
use otic.Unpack.Channel.{
  Channel, Entry, is_fetchable, deliver, store_value, read_number, read_index,
}

-- The first `n` bytes and the others.
unfoldable pub split : ℕ → List ℕ → Option (List ℕ × List ℕ)
split zero bs = some ([], bs)
split (suc n) [] = none
split (suc n) (b ∷ bs) = split n bs >>= λ (front, back). some (b ∷ front, back)

unfoldable pub read_true : Channel → Option Channel
unfolding read_index store_value deliver
read_true c = read_index c >>= λ c1. store_value c1 bool_true >>= deliver

unfoldable pub read_false : Channel → Option Channel
unfolding read_index store_value deliver
read_false c = read_index c >>= λ c1. store_value c1 bool_false >>= deliver

unfoldable pub read_null : Channel → Option Channel
unfolding read_index store_value deliver
read_null c = read_index c >>= λ c1. store_value c1 null >>= deliver

unfoldable pub read_smallint : Channel → ℕ → Option Channel
unfolding read_index store_value deliver
read_smallint c val = read_index c >>= λ c1. store_value c1 (int_pos val) >>= deliver

unfoldable pub read_intneg : Channel → Option Channel
unfolding read_index read_number store_value deliver
read_intneg c =
    read_index c >>= λ c1. read_number c1 >>= λ (v, c2). store_value c2 (int_neg v) >>= deliver

unfoldable pub read_intpos : Channel → Option Channel
unfolding read_index read_number store_value deliver
read_intpos c =
    read_index c >>= λ c1. read_number c1 >>= λ (v, c2). store_value c2 (int_pos v) >>= deliver

unfoldable pub read_double : Channel → Option Channel
unfolding read_index store_value deliver
read_double c = read_index c >>= λ c1.
    le_read 8 c1.top >>= λ (w, rest). store_value (record c1 { top = rest }) (double w) >>= deliver

unfoldable pub read_float : Channel → Option Channel
unfolding read_index store_value deliver
read_float c = read_index c >>= λ c1.
    le_read 4 c1.top >>= λ (w, rest). store_value (record c1 { top = rest }) (float w) >>= deliver

-- A length of one byte, as `*channel->base.top++`.
unfoldable pub read_byte : Channel → Option (ℕ × Channel)
read_byte c = split 1 c.top >>= λ (front, rest). some (head front, record c { top = rest })
  where
    head : List ℕ → ℕ
    head [] = 0
    head (b ∷ bs) = b

-- The length is one byte in version 1 of the format, and a LEB128 number in the others.
unfoldable pub read_string : ℕ → Channel → Option Channel
unfolding read_index read_number read_byte store_value deliver
read_string version c = read_index c >>= λ c1.
    (if version == 1 then read_byte c1 else read_number c1) >>= λ (total, c2).
    split total c2.top >>= λ (text, rest).
    store_value (record c2 { top = rest }) (string text) >>= deliver

unfoldable pub read_unmodified : Channel → Option Channel
unfolding read_index deliver
read_unmodified c = read_index c >>= deliver

-- A number is taken for the size of a buffer, which is passed over.
-- The number is decoded into eight bytes, of which its variable has four: a write outside it, before
-- anything else is done.
unfoldable pub read_rawbuffer : Channel → Option Channel
read_rawbuffer c = none

unfoldable pub read_set_timestamp : Floating → Channel → Option Channel
unfolding read_number
read_set_timestamp fl c = read_number c >>= λ (v, c1).
    let ts' = of_ticks fl v in
    some (record c1 {
      base = record (c1.base) { timestamp_start = v; timestamp_current = v };
      ts = ts';
      time_start = if double_eq c1.time_start (fl.of_u64 ts_null) then ts' else c1.time_start;
    })

unfoldable pub read_shift_timestamp : Floating → Channel → Option Channel
unfolding read_number
read_shift_timestamp fl c = read_number c >>= λ (v, c1).
    let now = (c1.base.timestamp_current + v) % 2 ^ 64 in
    some (record c1 { base = record (c1.base) { timestamp_current = now }; ts = of_ticks fl now })

-- The bytes before the first terminator, and those behind it. Without a terminator the C code
-- writes before the start of its copy of the unit.
unfoldable pub split_terminator : List ℕ → Option (List ℕ × List ℕ)
split_terminator [] = none
split_terminator (b ∷ bs) =
    let rest = split_terminator bs in
    if b == 0 then some ([], bs) else rest >>= λ (front, back). some (b ∷ front, back)

-- `OTIC_UNPACK_CACHE_ALLOCATION_RESERVE_SIZE`
abbrev pub reserve_size : ℕ
reserve_size = 8

-- `otic_unpack_insert_entry`, where the allocations succeed: the table grows by eight when it is
-- full, and the new entry goes behind the others.
unfoldable pub insert_entry : Channel → List ℕ → Option Channel
unfolding is_fetchable
insert_entry c value = split_terminator value >>= λ (name', unit').
    let full = c.allocation_left == 0 in
    let entry : Entry = record {
      index = length c.entries;
      name = name';
      unit = unit';
      value = unset;
      ignore = not (is_fetchable c name');
    } in
    some (record c {
      entries = c.entries ++ (entry ∷ []);
      allocation_left = (if full then reserve_size else c.allocation_left) - 1;
      cache_allocated = if full then c.cache_allocated + reserve_size else c.cache_allocated;
    })

unfoldable pub read_name_assign : Channel → Option Channel
unfolding read_byte insert_entry
read_name_assign c = read_byte c >>= λ (len, c1).
    split len c1.top >>= λ (value, rest). insert_entry (record c1 { top = rest }) value

unfoldable pub read_eof : Channel → Option Channel
unfolding read_number
read_eof c = read_number c >>= λ (expected, c1). some (
    if expected == c1.base.row_counter
    then c1
    else record c1 { base = record (c1.base) { error = row_count_mismatch; state = on_error } })
