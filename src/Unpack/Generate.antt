-- ===== src/Unpack/Generate.antt =====
-- The generator of the reader, `otic_unpack_generate`: one record with each call, from the block of
-- the current channel or from the next block of the file.
pub mod Lines
pub mod Rounds
use otic.Prelude.{
  ℕ, zero, suc, Bool, true, false, not, Option, none, some, List, [], ◌∷◌, ltb, ◌==◌, if◌then◌else◌,
  ◌>>=◌,
}
use otic.Prelude.Bytes.{le_read}
use otic.Base.{Floating, Zstd}
use otic.Base.Types.{
  OticType, OticError, type_of_code, type_eq, small_int_limit, opened, on_error, data_corrupted,
  end_of_file, zstd, allocation_failure,
}
use otic.Base.Types
use otic.Unpack.Channel.{Channel}
use otic.Unpack.Read.{read_smallint}
use otic.Unpack.Block.{dispatch}
use otic.Unpack.Container.{Fetcher, Unpack, find_channel, set_channel, set_error}
use otic.Unpack.Parse.{meta_of_code}

-- What `otic_unpack_getLine` answers, whether it has cleared `current`, and the channel after it.
pub record Line : Type 0 where
  pub answer : Bool
  pub ended : Bool
  pub channel : Channel

-- The record of the end answers 0.
unfoldable pub answer_of : Option OticType → Bool
answer_of (some OticType.eof) = false
answer_of _ = true

module _ (fl : Floating) (version : ℕ) where
  -- The `switch`, on the byte at `top`. A block that has no byte more is read behind its end, which
  -- is `none`.
  unfoldable pub line_switch : Channel → List ℕ → Option Line
  unfolding dispatch answer_of
  line_switch c [] = none
  line_switch c (b ∷ rest) =
      dispatch fl version (type_of_code b) (record c { top = rest }) >>= λ (c' : Channel).
      some (record { answer = answer_of (type_of_code b); ended = false; channel = c' })

  unfoldable pub line_at : Channel → List ℕ → Option Line
  unfolding line_switch
  line_at c [] = some (record { answer = true; ended = true; channel = c })
  line_at c (b ∷ rest) =
      if ltb b small_int_limit
      then (read_smallint (record c { top = rest }) b >>= λ (c' : Channel). line_switch c' c'.top)
      else line_switch c (b ∷ rest)

  -- `otic_unpack_getLine`
  unfoldable pub get_line : Channel → Option Line
  unfolding line_at
  get_line c = line_at c c.top

-- A reader with what its generator keeps: the id of the channel that `current` points to, and for
-- each id the size that was allocated for the `cache` of its channel.
pub record Generator (F : Type 0) : Type 0 where
  pub unpack : Unpack F
  pub current : Option ℕ
  pub room : ℕ → ℕ

-- How a round of the loop of `otic_unpack_getNext` ends: the loop goes on, or it returns.
pub data Round (F : Type 0) : Type 0 where
  again : Generator F → Round F
  returns : Bool → Generator F → Round F

module _ {F : Type 0} where
  unfoldable pub with_unpack : Generator F → Unpack F → Generator F
  with_unpack g up = record g { unpack = up }

  -- An error that leaves no current channel.
  unfoldable pub stop : Generator F → OticError → Round F
  unfolding set_error with_unpack
  stop g e = returns false (record g { unpack = set_error g.unpack e; current = none })

  -- What a line has done to the channel `id`.
  unfoldable pub after_line : Generator F → ℕ → Line → Generator F
  unfolding set_channel with_unpack
  after_line g id line = record g {
    unpack = set_channel g.unpack id line.channel;
    current = if line.ended then none else some id;
  }

-- `old` is what the `cache` of a channel holds, as many bytes as asked for: a fetch of a block that
-- fails is not noticed.
module _ {F : Type 0} (zs : Zstd) (fl : Floating) (fetcher : Fetcher F)
    (seeker : Option (ℕ → F → F)) (old : Channel → ℕ → List ℕ) where
  unfoldable pub fetched : Generator F → F → Generator F
  unfolding with_unpack
  fetched g data' = with_unpack g (record (g.unpack) { context = data' })

  unfoldable pub after_fetch :
      Option (List ℕ) × F
      → Generator F
      → (Generator F → Option (Round F))
      → (List ℕ → Generator F → Option (Round F))
      → Option (Round F)
  unfolding fetched
  after_fetch (none, data') g otherwise next = otherwise (fetched g data')
  after_fetch (some bytes, data') g otherwise next = next bytes (fetched g data')

  unfoldable pub fetch_or_stop :
      ℕ → Generator F → (List ℕ → Generator F → Option (Round F)) → Option (Round F)
  unfolding after_fetch stop
  fetch_or_stop n g next =
      after_fetch (fetcher n g.unpack.context) g (λ g1. some (stop g1 end_of_file)) next

  unfoldable pub fetch_size : Generator F → (ℕ → Generator F → Option (Round F)) → Option (Round F)
  unfolding fetch_or_stop
  fetch_size g next =
      fetch_or_stop 4 g (λ bytes g1. le_read 4 bytes >>= λ (size, rest). next size g1)

  -- The block that was decompressed, and its first line.
  unfoldable pub first_line : Option (List ℕ) → Generator F → Channel → Option (Round F)
  unfolding get_line after_line stop set_channel with_unpack
  first_line none g c =
      let broken = record c { base = record (c.base) { error = zstd } } in
      let up = set_channel g.unpack c.channel_id broken in
      some (stop (with_unpack g (record up { state = on_error })) zstd)
  first_line (some records) g c =
      get_line fl g.unpack.version (record c { top = records }) >>= λ (line : Line).
      some (returns line.answer (after_line g c.channel_id line))

  -- The block of a channel. One that is longer than the `cache` is written behind its end.
  unfoldable pub next_block : Generator F → Channel → ℕ → Option (Round F)
  unfolding after_fetch first_line
  next_block g c size =
      if ltb (g.room c.channel_id) size
      then none
      else after_fetch (fetcher size g.unpack.context) g
          (λ g1. first_line (zs.decompress c.base.cache_size (old c size)) g1 c)
          (λ block g1. first_line (zs.decompress c.base.cache_size block) g1 c)

  unfoldable pub skip_block : Generator F → ℕ → Option (Round F)
  unfolding fetched
  skip_block g size = elim seeker [
    | some seek ↦ some (again (fetched g (seek size g.unpack.context)))
    | none ↦ some (again (fetched g (fetcher size g.unpack.context).1))
  ]

  -- The `cache` for blocks of another size; `out` and `cacheSize` stay as they are.
  unfoldable pub new_cache : Bool → Generator F → Channel → ℕ → Option (Round F)
  unfolding stop
  new_cache memory g c size =
      let resized =
        λ (n : ℕ). record g { room = λ id. if id == c.channel_id then n else g.room id } in
      some (if memory then again (resized size) else stop (resized 0) allocation_failure)

  unfoldable pub round_meta :
      Bool → Option Types.MetaType → Option Channel → Generator F → Option (Round F)
  unfolding set_channel with_unpack fetch_or_stop fetch_size next_block skip_block new_cache stop
  round_meta memory (some Types.channel_define) (some c) g =
      let c' = record c { base = record (c.base) { state = opened } } in
      some (again (with_unpack g (set_channel g.unpack c.channel_id c')))
  round_meta memory (some Types.channel_define) none g = some (again g)
  round_meta memory (some Types.payload) (some c) g = fetch_size g (λ size g1. next_block g1 c size)
  round_meta memory (some Types.payload) none g = fetch_size g (λ size g1. skip_block g1 size)
  round_meta memory (some Types.compression_method) channel g =
      fetch_or_stop 1 g (λ bytes g1. some (again g1))
  round_meta memory (some Types.channel_type) (some c) g = fetch_or_stop 1 g (λ bytes g1.
      le_read 1 bytes >>= λ (type, rest). some (
        returns true
          (with_unpack g1 (set_channel g1.unpack c.channel_id (record c { channel_type = type })))))
  round_meta memory (some Types.channel_type) none g =
      fetch_or_stop 1 g (λ bytes g1. some (returns true g1))
  round_meta memory (some Types.chunk_size) (some c) g =
      fetch_size g (λ size g1. new_cache memory g1 c size)
  round_meta memory (some Types.chunk_size) none g =
      fetch_size g (λ size g1. some (returns true g1))
  round_meta memory none channel g = some (stop g data_corrupted)

  unfoldable pub round_header : Bool → List ℕ → Generator F → Option (Round F)
  unfolding round_meta meta_of_code find_channel
  round_header memory (type ∷ id ∷ []) g =
      round_meta memory (meta_of_code type) (find_channel g.unpack.channels id) g
  round_header memory _ g = none

  -- A round of the loop of `otic_unpack_getNext`: a header, and what follows it.
  unfoldable pub next_round : Bool → Generator F → Option (Round F)
  unfolding after_fetch round_header
  next_round memory g =
      after_fetch (fetcher 2 g.unpack.context) g
        (λ g1. some (returns false (record g1 { current = none }))) (round_header memory)

  -- `otic_unpack_getNext`. How a call ends: a read or a write outside a buffer, the fuel used up, or
  -- an answer.
  pub data Ending : Type 0 where
    outside no_fuel : Ending
    answers : Bool → Generator F → Ending

  unfoldable pub after_round : Option (Round F) → (Generator F → Ending) → Ending
  after_round none rest = outside
  after_round (some (again g)) rest = rest g
  after_round (some (returns answer g)) rest = answers answer g

  unfoldable pub get_next : Bool → ℕ → Generator F → Ending
  unfolding next_round after_round
  get_next memory zero g = no_fuel
  get_next memory (suc fuel) g = after_round (next_round memory g) (get_next memory fuel)

  unfoldable pub from_line : Option Line → Generator F → ℕ → Ending
  unfolding after_line
  from_line none g id = outside
  from_line (some line) g id = answers line.answer (after_line g id line)

  -- A line of the channel that `current` points to. One that was closed is memory that was freed.
  unfoldable pub current_line : Option Channel → Generator F → ℕ → Ending
  unfolding get_line from_line
  current_line none g id = outside
  current_line (some c) g id = from_line (get_line fl g.unpack.version c) g id

  -- `otic_unpack_generate`
  unfoldable pub generate : Bool → ℕ → Generator F → Ending
  unfolding get_next current_line find_channel
  generate memory fuel g = elim g.current [
    | none ↦ get_next memory fuel g
    | some id ↦ current_line (find_channel g.unpack.channels id) g id
  ]
