-- ===== src/Base/Types.antt =====
-- include/core/base.h: the enumerations, with their numbers where the format stores them.
use otic.Prelude.{
  ℕ, ◌-◌, ◌≤◌, ◌<◌, Bool, Option, none, some, List, [], ◌∷◌, get_elem?, ltb, ◌==◌, if◌then◌else◌,
  ◌≡◌, refl, arith,
}

-- `SMALL_INT_LIMIT`
abbrev pub small_int_limit : ℕ
small_int_limit = 0xc9

pub data OticType : Type 0 where
  null int_neg int_pos float double string array object bool_true bool_false : OticType
  rawbuffer unmodified set_timestamp shift_timestamp name_assign eof : OticType

unfoldable pub type_code : OticType → ℕ
type_code null = 201
type_code int_neg = 202
type_code int_pos = 203
type_code float = 204
type_code double = 205
type_code string = 206
type_code array = 207
type_code object = 208
type_code bool_true = 209
type_code bool_false = 210
type_code rawbuffer = 211
type_code unmodified = 212
type_code set_timestamp = 213
type_code shift_timestamp = 214
type_code name_assign = 215
type_code eof = 216

-- The enumerators, in the order of their numbers.
abbrev enumerators : List OticType
enumerators =
    null ∷ int_neg ∷ int_pos ∷ float ∷ double ∷ string ∷ array ∷ object ∷ bool_true ∷ bool_false
    ∷ rawbuffer ∷ unmodified ∷ set_timestamp ∷ shift_timestamp ∷ name_assign ∷ eof ∷ []

-- The `case` that a byte selects in a `switch` over these types.
unfoldable pub type_of_code : ℕ → Option OticType
type_of_code byte =
    if ltb byte small_int_limit then none else get_elem? enumerators (byte - small_int_limit)

-- Every type is selected by its own number, and no number below the limit selects one.
pub type_of_code-type_code : (t : OticType) → type_of_code (type_code t) ≡ some t
unfolding type_of_code type_code
type_of_code-type_code null = refl
type_of_code-type_code t = refl

pub type_code_range : (t : OticType) → (small_int_limit ≤ type_code t) × (type_code t < 256)
unfolding type_code
type_code_range null = omega arith
type_code_range t = omega arith

unfoldable pub type_eq : OticType → OticType → Bool
type_eq s t = type_code s == type_code t

pub data OticError : Type 0 where
  no_error invalid_pointer buffer_overflow invalid_timestamp entry_insertion_failure : OticError
  zstd flush_failed end_of_file invalid_file data_corrupted invalid_otic_file : OticError
  version_unsupported row_count_mismatch invalid_argument at_invalid_state : OticError
  allocation_failure : OticError

pub data OticState : Type 0 where
  opened on_error closed : OticState

pub data MetaType : Type 0 where
  channel_define channel_type compression_method chunk_size payload : MetaType

unfoldable pub meta_code : MetaType → ℕ
meta_code channel_define = 0
meta_code channel_type = 1
meta_code compression_method = 2
meta_code chunk_size = 3
meta_code payload = 4

-- `channel_type_e`
pub data ChannelType : Type 0 where
  sensor binary : ChannelType
