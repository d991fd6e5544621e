-- ===== src/Pack/Put.antt =====
-- The middle of each `otic_pack_channel_inject_*`: what it does between the timestamp and the row
-- count. The name, the unit and the text are C strings, not null; `memory` tells whether the
-- allocation that the code tests succeeds.
use otic.Prelude.{
  ℕ, ◌+◌, ◌%◌, ◌^◌, Bool, false, Option, none, some, List, length, ltb, ◌==◌, if◌then◌else◌,
  bytes_eq, ◌>>=◌,
}
use otic.Base.{increment}
use otic.Base.Types.{OticType, buffer_overflow, entry_insertion_failure, small_int_limit, type_eq}
use otic.Base.Oval.{
  Oval, null, bool_true, bool_false, rawbuffer, int_neg, int_pos, double, string, get_type,
  double_eq,
}
use otic.Pack.Channel.{
  Channel, write_byte, write_type, write_long, write_double, write_string2, write_buffer, set_error,
  id_assign,
}
use otic.Pack.Entries.{
  entry_find, entry_store, entry_insert_bool, entry_insert_u, entry_insert_un, entry_insert_d,
  entry_insert_s, entry_insert_n, entry_insert_b,
}

-- The tests of `lastValue` against the type and the value that is injected.
abbrev pub same_int_neg : Oval → ℕ → Bool
same_int_neg (int_neg lval) value = lval == value
same_int_neg _ value = false

abbrev pub same_int_pos : Oval → ℕ → Bool
same_int_pos (int_pos lval) value = lval == value
same_int_pos _ value = false

abbrev pub same_double : Oval → ℕ → Bool
same_double (double dval) value = double_eq dval value
same_double _ value = false

-- `strcmp` with a text up to its first zero.
abbrev pub same_string : Oval → List ℕ → Bool
same_string (string sval) value = bytes_eq sval value
same_string _ value = false

-- `goto fail`, with what was assigned before.
pub data Outcome : Type 0 where
  done failed : Channel → Outcome

-- `++channel->totalEntries`, a `uint16_t`.
unfoldable pub count_entry : Channel → Channel
count_entry c = record c { total_entries = (c.total_entries + 1) % 2 ^ 16 }

unfoldable pub write_unmodified : Channel → ℕ → Channel
unfolding write_type write_long
write_unmodified c index =
    let c1 = write_long (write_type c OticType.unmodified) index in
    record c1 { stats = record (c1.stats) { type_unmodified = increment c1.stats.type_unmodified } }

-- The test of `s.size + u.size + 1` against `UINT8_MAX`, then the rest of the branch.
unfoldable pub check_size : Channel → List ℕ → List ℕ → Outcome → Outcome
unfolding set_error
check_size c s u rest =
    if ltb 255 (length s + length u + 1) then failed (set_error c buffer_overflow) else rest

-- The test of the entry that an insertion returns, then the rest of the branch.
unfoldable pub check_entry : Channel → Option Channel → (Channel → Channel) → Outcome
unfolding set_error
check_entry c none rest = failed (set_error c entry_insertion_failure)
check_entry c (some c') rest = done (rest c')

-- An insertion whose result is not tested.
unfoldable pub ignore_entry : Channel → Option Channel → (Channel → Channel) → Outcome
ignore_entry c none rest = done (rest c)
ignore_entry c (some c') rest = done (rest c')

-- What follows the insertion of a new sensor: its name, and its first value.
module _ (s u : List ℕ) where
  unfoldable pub define_bool : Bool → Channel → Channel
  unfolding id_assign write_type write_long count_entry
  define_bool value c =
      let c1 = id_assign c s u in
      let c2 = write_type c1 (if value then OticType.bool_true else OticType.bool_false) in
      count_entry (write_long c2 c2.total_entries)

  unfoldable pub define_i_neg : ℕ → Channel → Channel
  unfolding id_assign write_type write_long count_entry
  define_i_neg value c =
      let c1 = write_type (id_assign c s u) OticType.int_neg in
      count_entry (write_long (write_long c1 c1.total_entries) value)

  unfoldable pub define_i : ℕ → Channel → Channel
  unfolding id_assign write_byte write_type write_long count_entry
  define_i value c =
      let c1 = id_assign c s u in
      count_entry (
        if ltb value small_int_limit
        then write_long (write_byte c1 value) c1.total_entries
        else write_long (write_long (write_type c1 OticType.int_pos) c1.total_entries) value)

  unfoldable pub define_d : ℕ → Channel → Channel
  unfolding id_assign write_type write_long write_double count_entry
  define_d value c =
      let c1 = write_type (id_assign c s u) OticType.double in
      count_entry (write_double (write_long c1 c1.total_entries) value)

  unfoldable pub define_s : List ℕ → Channel → Channel
  unfolding id_assign write_type write_long write_string2 count_entry
  define_s value c =
      let c1 = write_type (id_assign c s u) OticType.string in
      count_entry (write_string2 (write_long c1 c1.total_entries) value)

  unfoldable pub define_n : Channel → Channel
  unfolding id_assign write_type write_long count_entry
  define_n c =
      let c1 = write_type (id_assign c s u) OticType.null in
      count_entry (write_long c1 c1.total_entries)

  unfoldable pub define_b : Channel → Channel
  unfolding id_assign write_type write_long count_entry
  define_b c =
      let c1 = write_type (id_assign c s u) OticType.rawbuffer in
      count_entry (write_long c1 c1.total_entries)

module _ (memory : Bool) (c : Channel) (name unit : List ℕ) where
  unfoldable pub put_bool : Bool → Outcome
  unfolding entry_find entry_store entry_insert_bool check_size check_entry define_bool
      write_unmodified write_type write_long
  put_bool value =
      let type = if value then OticType.bool_true else OticType.bool_false in
      elim (entry_find c name) [
        | none ↦ check_size c name unit (
            check_entry c (entry_insert_bool memory c name unit c.total_entries value)
              (define_bool name unit value))
        | some entry ↦
            if type_eq (get_type entry.last_value) type
            then done (write_unmodified c entry.index)
            else done (
                write_long
                  (write_type (entry_store c name (if value then bool_true else bool_false)) type)
                  entry.index)
      ]

  unfoldable pub put_i_neg : ℕ → Outcome
  unfolding entry_find entry_store entry_insert_un check_size check_entry define_i_neg
      write_unmodified write_type write_long
  put_i_neg value = elim (entry_find c name) [
    | none ↦ check_size c name unit (
        check_entry c (entry_insert_un memory c name unit c.total_entries value)
          (define_i_neg name unit value))
    | some entry ↦
        if same_int_neg entry.last_value value
        then done (write_unmodified c entry.index)
        else let c1 = write_type (entry_store c name (int_neg value)) OticType.int_neg in
          done (write_long (write_long c1 entry.index) value)
  ]

  unfoldable pub put_i : ℕ → Outcome
  unfolding entry_find entry_store entry_insert_u check_size check_entry define_i write_unmodified
      write_byte write_type write_long
  put_i value = elim (entry_find c name) [
    | none ↦ check_size c name unit (
        check_entry c (entry_insert_u memory c name unit c.total_entries value)
          (define_i name unit value))
    | some entry ↦
        if same_int_pos entry.last_value value
        then done (write_unmodified c entry.index)
        else if ltb value small_int_limit
        then done (entry_store (write_long (write_byte c value) entry.index) name (int_pos value))
        else let c1 = write_type (entry_store c name (int_pos value)) OticType.int_pos in
          done (write_long (write_long c1 entry.index) value)
  ]

  unfoldable pub put_d : ℕ → Outcome
  unfolding entry_find entry_store entry_insert_d check_size ignore_entry define_d write_unmodified
      write_type write_long write_double
  put_d value = elim (entry_find c name) [
    | none ↦ check_size c name unit (
        ignore_entry c (entry_insert_d memory c name unit c.total_entries value)
          (define_d name unit value))
    | some entry ↦
        if same_double entry.last_value value
        then done (write_unmodified c entry.index)
        else let c1 = write_type (entry_store c name (double value)) OticType.double in
          done (write_double (write_long c1 entry.index) value)
  ]

  unfoldable pub put_s : List ℕ → Outcome
  unfolding entry_find entry_store entry_insert_s check_size ignore_entry define_s write_unmodified
      write_type write_long write_string2
  put_s value = elim (entry_find c name) [
    | none ↦ check_size c name unit (
        ignore_entry c (entry_insert_s memory c name unit c.total_entries value)
          (define_s name unit value))
    | some entry ↦
        if same_string entry.last_value value
        then done (write_unmodified c entry.index)
        else let c1 = write_type (entry_store c name (string value)) OticType.string in
          done (write_string2 (write_long c1 entry.index) value)
  ]

  -- The new entry is inserted twice: the second call finds the one that the first has made.
  unfoldable pub put_n : Outcome
  unfolding entry_find entry_store entry_insert_n check_size check_entry ignore_entry define_n
      write_unmodified write_type write_long
  put_n = elim (entry_find c name) [
    | none ↦ check_size c name unit (
        check_entry c
          (entry_insert_n memory c name unit c.total_entries >>= λ (c1 : Channel).
            entry_insert_n memory c1 name unit c1.total_entries)
          (define_n name unit))
    | some entry ↦
        if type_eq (get_type entry.last_value) OticType.null
        then done (write_unmodified c entry.index)
        else let c1 = write_type (entry_store c name null) OticType.null in
          done (write_long c1 entry.index)
  ]

  -- A buffer is written behind its header on either path.
  unfoldable pub put_b : List ℕ → Outcome
  unfolding entry_find entry_store entry_insert_b check_size check_entry define_b write_type
      write_long write_buffer
  put_b buffer = elim (entry_find c name) [
    | none ↦ check_size c name unit (
        check_entry c (entry_insert_b memory c name unit c.total_entries)
          (λ (c1 : Channel). write_buffer (define_b name unit c1) buffer))
    | some entry ↦
        let c1 = write_type (entry_store c name rawbuffer) OticType.rawbuffer in
        done (write_buffer (write_long c1 entry.index) buffer)
  ]
