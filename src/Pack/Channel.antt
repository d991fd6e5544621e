-- ===== src/Pack/Channel.antt =====
-- The packing channel (`otic_pack_channel_t`), its sensors, and the writers of bytes.
use otic.Prelude.{ℕ, ◌+◌, ◌%◌, List, [], ◌∷◌, ◌++◌, length}
use otic.Prelude.Bytes.{le_bytes}
use otic.Base.{Base, increment}
use otic.Base.Types.{OticType, OticError, OticState, ChannelType, type_code}
use otic.Base.Oval.{Oval}
use otic.Leb128.{encode_unsigned}

-- `otic_entry_t`. The C `name` holds the sensor's name and its unit, each with a terminator.
pub record Entry : Type 0 where
  pub index : ℕ
  pub name : List ℕ
  pub unit : List ℕ
  pub last_value : Oval

-- `otic_stats`
pub record Stats : Type 0 where
  pub blocks_written : ℕ
  pub type_unmodified : ℕ
  pub type_integer : ℕ
  pub type_string : ℕ
  pub type_bool : ℕ
  pub type_double : ℕ
  pub type_array : ℕ
  pub type_null : ℕ
  pub time_sets : ℕ
  pub time_shifts : ℕ
  pub cols_assigned : ℕ

abbrev pub no_stats : Stats
no_stats = record {
  blocks_written = 0;
  type_unmodified = 0;
  type_integer = 0;
  type_string = 0;
  type_bool = 0;
  type_double = 0;
  type_array = 0;
  type_null = 0;
  time_sets = 0;
  time_shifts = 0;
  cols_assigned = 0;
}

-- `buckets` is the table `cache`, whose chains are lists; `threshold` is an offset into the
-- buffer. The times of the interval are patterns of `double`. `stale` is no field of the source: it is
-- what the memory holds up to the first zero behind a text that was stored without its terminator.
pub record Channel : Type 0 where
  pub base : Base
  pub buckets : ℕ → List Entry
  pub total_entries : ℕ
  pub threshold : ℕ
  pub channel_type : ChannelType
  pub channel_id : ℕ
  pub time_start : ℕ
  pub time_end : ℕ
  pub stats : Stats
  pub stale : List ℕ

-- What the memory of a new channel held: the end of its interval, and what lies behind the first text
-- of a sensor.
pub record LeftOver : Type 0 where
  pub time_end : ℕ
  pub stale : List ℕ

-- Zeros alone.
abbrev pub cleared : LeftOver
cleared = record { time_end = 0; stale = [] }

-- `memcpy(top, bytes, size); top += size`. The source does not look at the end of the buffer here, and
-- neither does this list: it is the buffer of the source as long as it has at most `cache_size` bytes,
-- which is for the theorems to show or to assume.
unfoldable pub write_bytes : Channel → List ℕ → Channel
write_bytes c bytes = record c { base = record (c.base) { cache = c.base.cache ++ bytes } }

-- `otic_pack_write_byte`
unfoldable pub write_byte : Channel → ℕ → Channel
unfolding write_bytes
write_byte c value = write_bytes c ((value % 256) ∷ [])

unfoldable pub write_type : Channel → OticType → Channel
unfolding write_byte
write_type c type = write_byte c (type_code type)

unfoldable pub write_long : Channel → ℕ → Channel
unfolding write_bytes
write_long c value = write_bytes c (encode_unsigned value)

unfoldable pub write_double : Channel → ℕ → Channel
unfolding write_bytes
write_double c value = write_bytes c (le_bytes 8 value)

unfoldable pub write_float : Channel → ℕ → Channel
unfolding write_bytes
write_float c value = write_bytes c (le_bytes 4 value)

-- The length is one byte.
unfoldable pub write_string : Channel → List ℕ → Channel
unfolding write_byte
write_string c value = write_bytes (write_byte c (length value)) value

-- The length is a LEB128 number.
unfoldable pub write_string2 : Channel → List ℕ → Channel
unfolding write_long
write_string2 c value = write_bytes (write_long c (length value)) value

-- The length is a `size_t`, as it lies in memory.
unfoldable pub write_buffer : Channel → List ℕ → Channel
unfolding write_bytes
write_buffer c buffer = write_bytes (write_bytes c (le_bytes 8 (length buffer))) buffer

unfoldable pub set_base : Channel → Base → Channel
set_base c base' = record c { base = base' }

unfoldable pub set_error : Channel → OticError → Channel
set_error c error' = record c { base = record (c.base) { error = error' } }

unfoldable pub set_state : Channel → OticState → Channel
set_state c state' = record c { base = record (c.base) { state = state' } }

-- `otic_pack_id_assign`: the name, a terminator and the unit, behind their length in one byte.
unfoldable pub id_assign : Channel → List ℕ → List ℕ → Channel
unfolding write_type write_byte write_bytes
id_assign c sensor_name unit =
    let c1 = write_type c OticType.name_assign in
    let c2 = write_byte c1 (length sensor_name + length unit + 1) in
    let c3 = write_byte (write_bytes c2 sensor_name) 0 in
    let c4 = write_bytes c3 unit in
    record c4 { stats = record (c4.stats) { cols_assigned = increment c4.stats.cols_assigned } }
