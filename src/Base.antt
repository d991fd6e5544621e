-- ===== src/Base.antt =====
-- include/core/base.h and src/core/base.c: the types that packing and unpacking share.
pub mod Types
pub mod Oval
pub mod Double
pub mod Set
use otic.Prelude.{ℕ, ◌+◌, ◌-◌, ◌*◌, ◌%◌, ◌^◌, List, [], ◌∷◌, ltb, if◌then◌else◌, Option}
use otic.Base.Types.{OticError, OticState, no_error, opened, closed}

-- `otic_base_t`. `cache` is the content of the buffer: in a packing channel the bytes written so
-- far, from `cache` up to `top`. The buffer of an unpacking channel holds a block only while it is
-- decompressed, and its content is not kept.
pub record Base : Type 0 where
  pub cache : List ℕ
  pub timestamp_start : ℕ
  pub timestamp_current : ℕ
  pub error : OticError
  pub state : OticState
  pub row_counter : ℕ
  pub cache_size : ℕ

-- `TS_NULL`, as a `uint64_t`.
abbrev pub ts_null : ℕ
ts_null = 2 ^ 64 - 1

-- `otic_base_init` where `malloc` succeeds.
unfoldable pub base_init : ℕ → Base
base_init bucket_size = record {
  cache = [];
  timestamp_start = ts_null;
  timestamp_current = ts_null;
  error = no_error;
  state = opened;
  row_counter = 0;
  cache_size = bucket_size;
}

abbrev pub base_set_error : Base → OticError → Base
base_set_error base error' = record base { error = error' }

abbrev pub base_set_state : Base → OticState → Base
base_set_state base state' = record base { state = state' }

unfoldable pub base_close : Base → Base
base_close base = record base { cache = []; state = closed }

-- `++` on a `uint64_t` or `size_t` counter.
abbrev pub increment : ℕ → ℕ
increment n = (n + 1) % 2 ^ 64

-- The arithmetic of `double` that the source uses, on 64-bit patterns: `(double)n`, `(uint64_t)x`,
-- `x * y` and `x / y`.
pub record Floating : Type 0 where
  pub of_u64 : ℕ → ℕ
  pub to_u64 : ℕ → ℕ
  pub mul : ℕ → ℕ → ℕ
  pub div : ℕ → ℕ → ℕ

-- `OTIC_TS_MULTIPLICATOR`
abbrev pub ts_multiplicator : ℕ
ts_multiplicator = 10000

-- `(uint64_t)(ts * OTIC_TS_MULTIPLICATOR)`
unfoldable pub to_ticks : Floating → ℕ → ℕ
to_ticks fl ts = fl.to_u64 (fl.mul ts (fl.of_u64 ts_multiplicator))

-- `(double)ticks / OTIC_TS_MULTIPLICATOR`
unfoldable pub of_ticks : Floating → ℕ → ℕ
of_ticks fl ticks = fl.div (fl.of_u64 ticks) (fl.of_u64 ts_multiplicator)

-- The hash of a C string before it is reduced to a table's size: `PTR_M * hash_address + *ptr++`,
-- in `size_t`. A `char` is signed.
abbrev char_value : ℕ → ℕ
char_value c = if ltb c 128 then c else 2 ^ 64 - 256 + c

unfoldable pub hash_loop : ℕ → List ℕ → ℕ
hash_loop hash_address [] = hash_address
hash_loop hash_address (c ∷ ptr) = hash_loop ((31 * hash_address + char_value c) % 2 ^ 64) ptr

-- The compressor and the decompressor of the zstd library, on a capacity and the source; `none` is
-- a result for which `ZSTD_isError` holds.
pub record Zstd : Type 0 where
  pub compress : ℕ → List ℕ → Option (List ℕ)
  pub decompress : ℕ → List ℕ → Option (List ℕ)
