-- ===== src/Unpack/Parse.antt =====
-- One step of the reader of a file, `otic_unpack_parse`: a header of two bytes and what follows it.
use otic.Prelude.{
  ℕ, Bool, true, false, Option, none, some, List, [], ◌∷◌, get_elem?, ltb, if◌then◌else◌, ◌>>=◌,
}
use otic.Prelude.Bytes.{le_read}
use otic.Base.{Floating, Zstd}
use otic.Base.Types.{
  OticError, OticState, opened, on_error, data_corrupted, end_of_file, zstd, allocation_failure,
}
use otic.Base.Types
use otic.Unpack.Channel.{Channel}
use otic.Unpack.Block.{parse_block}
use otic.Unpack.Container.{Fetcher, Unpack, find_channel, set_channel, fail_with}

-- `otic_meta_type_e`, as a `case` label.
unfoldable pub meta_of_code : ℕ → Option Types.MetaType
meta_of_code byte =
    get_elem?
      (Types.channel_define ∷ Types.channel_type ∷ Types.compression_method ∷ Types.chunk_size
        ∷ Types.payload ∷ [])
      byte

module _ {F : Type 0} (zs : Zstd) (fl : Floating) (fetcher : Fetcher F)
    (seeker : Option (ℕ → F → F)) where
  unfoldable pub with_data : Unpack F → F → Unpack F
  with_data up data' = record up { context = data' }

  -- What follows a fetch, where it gave nothing and where it gave bytes.
  unfoldable pub after_fetch :
      Option (List ℕ) × F
      → Unpack F
      → (Unpack F → Option (Bool × Unpack F))
      → (List ℕ → Unpack F → Option (Bool × Unpack F))
      → Option (Bool × Unpack F)
  unfolding with_data
  after_fetch (none, data') up otherwise next = otherwise (with_data up data')
  after_fetch (some bytes, data') up otherwise next = next bytes (with_data up data')

  -- A fetch where `fail:` follows a result of 0.
  unfoldable pub fetch_or_fail :
      ℕ → Unpack F → (List ℕ → Unpack F → Option (Bool × Unpack F)) → Option (Bool × Unpack F)
  unfolding after_fetch fail_with
  fetch_or_fail n up next =
      after_fetch (fetcher n up.context) up (λ up1. some (fail_with up1 end_of_file)) next

  -- A fetched `uint32_t`.
  unfoldable pub fetch_size :
      Unpack F → (ℕ → Unpack F → Option (Bool × Unpack F)) → Option (Bool × Unpack F)
  unfolding fetch_or_fail
  fetch_size up next =
      fetch_or_fail 4 up (λ bytes up1. le_read 4 bytes >>= λ (size, rest). next size up1)

  -- What follows the decompression of a block: its records are read, or the error is set in the
  -- channel and in the container.
  unfoldable pub after_decompress : Option (List ℕ) → Unpack F → Channel → Option (Bool × Unpack F)
  unfolding fail_with set_channel parse_block
  after_decompress none up c =
      let broken = record c { base = record (c.base) { error = zstd } } in
      some (fail_with (set_channel up c.channel_id broken) zstd)
  after_decompress (some records) up c =
      parse_block fl up.version (record c { top = records }) >>= λ (c' : Channel).
      some (true, set_channel up c.channel_id c')

  -- `otic_unpack_read_data`. A block that is longer than the buffer is written behind its end,
  -- which is `none`.
  unfoldable pub read_data : Unpack F → Channel → ℕ → Option (Bool × Unpack F)
  unfolding after_fetch after_decompress
  read_data up c size =
      if ltb c.base.cache_size size
      then none
      else after_fetch (fetcher size up.context) up (λ up1. some (false, up1))
          (λ block up1. after_decompress (zs.decompress c.base.cache_size block) up1 c)

  -- The data of a channel that is not read.
  unfoldable pub skip_data : Unpack F → ℕ → Option (Bool × Unpack F)
  unfolding with_data
  skip_data up size = elim seeker [
    | some seek ↦ some (true, with_data up (seek size up.context))
    | none ↦ some (true, with_data up (fetcher size up.context).1)
  ]

  -- The buffers for blocks of another size.
  unfoldable pub resize : Bool → Unpack F → Channel → ℕ → Option (Bool × Unpack F)
  unfolding set_channel fail_with
  resize memory up c size =
      let resized = record c { base = record (c.base) { cache_size = size }; out_size = size } in
      let up1 = set_channel up c.channel_id resized in
      some (if memory then (true, up1) else fail_with up1 allocation_failure)

  unfoldable pub parse_meta :
      Bool → Option Types.MetaType → Option Channel → Unpack F → Option (Bool × Unpack F)
  unfolding set_channel fetch_or_fail fetch_size read_data skip_data resize fail_with
  parse_meta memory (some Types.channel_define) (some c) up =
      let c' = record c { base = record (c.base) { state = opened } } in
      some (true, set_channel up c.channel_id c')
  parse_meta memory (some Types.channel_define) none up = some (true, up)
  parse_meta memory (some Types.payload) (some c) up =
      fetch_size up (λ size up1. read_data up1 c size)
  parse_meta memory (some Types.payload) none up = fetch_size up (λ size up1. skip_data up1 size)
  parse_meta memory (some Types.compression_method) channel up =
      fetch_or_fail 1 up (λ bytes up1. some (true, up1))
  parse_meta memory (some Types.channel_type) (some c) up = fetch_or_fail 1 up (λ bytes up1.
      le_read 1 bytes >>= λ (type, rest).
      some (true, set_channel up1 c.channel_id (record c { channel_type = type })))
  parse_meta memory (some Types.channel_type) none up =
      fetch_or_fail 1 up (λ bytes up1. some (true, up1))
  parse_meta memory (some Types.chunk_size) (some c) up =
      fetch_size up (λ size up1. resize memory up1 c size)
  parse_meta memory (some Types.chunk_size) none up = fetch_size up (λ size up1. some (true, up1))
  parse_meta memory none channel up = some (fail_with up data_corrupted)

  -- A header of two bytes selects what follows.
  unfoldable pub parse_header : Bool → List ℕ → Unpack F → Option (Bool × Unpack F)
  unfolding parse_meta meta_of_code find_channel
  parse_header memory (type ∷ id ∷ []) up =
      parse_meta memory (meta_of_code type) (find_channel up.channels id) up
  parse_header memory _ up = none

  -- `otic_unpack_parse`. `none` is a read or a write outside a buffer.
  unfoldable pub parse : Bool → Unpack F → Option (Bool × Unpack F)
  unfolding after_fetch parse_header
  parse memory up =
      after_fetch (fetcher 2 up.context) up (λ up1. some (false, up1)) (parse_header memory)
