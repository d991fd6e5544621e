-- ===== src/Unpack/Container.antt =====
-- The container `otic_unpack_t`, and how its channels are found, defined and closed.
use otic.Prelude.{
  ℕ, ◌*◌, ◌%◌, Bool, true, false, Option, none, some, List, [], ◌∷◌, length, bytes_eq, ltb, ◌==◌,
  if◌then◌else◌,
}
use otic.Base.{Floating, base_init, ts_null}
use otic.Base.Types.{
  OticError, OticState, opened, on_error, closed, no_error, invalid_otic_file, version_unsupported,
  at_invalid_state, invalid_argument, allocation_failure,
}
use otic.Unpack.Channel.{Channel, hash_function}

-- `fetcher`: the bytes asked for, or `none` where it returns 0, and the state of its data after.
abbrev pub Fetcher : Type 0 → Type 0
Fetcher F = ℕ → F → Option (List ℕ) × F

-- `otic_unpack_t`. `F` is what the fetcher's and the seeker's data point to; the channel defined
-- last is the first of `channels`, each the `previous` of the one before it.
pub record Unpack (F : Type 0) : Type 0 where
  pub channels : List Channel
  pub state : OticState
  pub error : OticError
  pub version : ℕ
  pub context : F

-- `OTIC_BASE_CACHE_SIZE`, `OTIC_UNPACK_OUT_SIZE`
abbrev pub default_size : ℕ
default_size = 100 * 16384

-- `OTIC_MAGIC` and `OTIC_VERSION_MAJOR`
abbrev pub magic : List ℕ
magic = 79 ∷ 169 ∷ 70 ∷ 53 ∷ []

abbrev pub version_major : ℕ
version_major = 2

-- `findChannel`
unfoldable pub find_channel : List Channel → ℕ → Option Channel
find_channel [] id = none
find_channel (c ∷ cs) id = if c.channel_id == id then some c else find_channel cs id

-- What a pointer that `findChannel` gave has written: the first channel with this id is `c`.
unfoldable pub update_channel : List Channel → ℕ → Channel → List Channel
update_channel [] id c = []
update_channel (c' ∷ cs) id c = if c'.channel_id == id then c ∷ cs else c' ∷ update_channel cs id c

-- The list without the first channel of this id: `before->previous = current->previous`.
unfoldable pub remove_channel : List Channel → ℕ → List Channel
remove_channel [] id = []
remove_channel (c ∷ cs) id = if c.channel_id == id then cs else c ∷ remove_channel cs id

-- `otic_unpack_channel_init`, where the allocations succeed.
unfoldable pub channel_init : Floating → ℕ → ℕ → Channel
unfolding base_init
channel_init fl id left_over = record {
  base = base_init default_size;
  top = [];
  entries = [];
  allocation_left = 0;
  cache_allocated = 0;
  entry_index = left_over;
  ts = fl.of_u64 ts_null;
  rows = [];
  channel_id = id;
  channel_type = left_over;
  to_fetch = [];
  time_start = fl.of_u64 ts_null;
  out_size = default_size;
}

-- `otic_unpack_channel_toFetch`
unfoldable pub channel_to_fetch : Channel → List (List ℕ) → Channel
unfolding hash_function
channel_to_fetch c [] = c
channel_to_fetch c (v ∷ values) = record c { to_fetch = hash_function v ∷ hashes values }
  where
    hashes : List (List ℕ) → List ℕ
    hashes [] = []
    hashes (v ∷ vs) = hash_function v ∷ hashes vs

module _ {F : Type 0} where
  unfoldable pub set_error : Unpack F → OticError → Unpack F
  set_error up e = record up { error = e }

  -- `fail:`
  unfoldable pub fail_with : Unpack F → OticError → Bool × Unpack F
  fail_with up e = (false, record up { error = e; state = on_error })

  unfoldable pub set_channel : Unpack F → ℕ → Channel → Unpack F
  unfolding update_channel
  set_channel up id c = record up { channels = update_channel up.channels id c }

  -- `otic_unpack_defineChannel`. `memory` says whether the `malloc` of the channel succeeds, and
  -- `left_over` is what the memory held before. The allocations inside `otic_unpack_channel_init` are
  -- taken to succeed: where one fails, the source writes through a pointer that was not set.
  unfoldable pub define_channel : Bool → Floating → ℕ → Unpack F → ℕ → Bool × Unpack F
  unfolding fail_with find_channel channel_init
  define_channel memory fl left_over up id = elim up.state [
    | opened ↦ elim (find_channel up.channels id) [
      | some c ↦ fail_with up invalid_argument
      | none ↦
          if memory
          then (true, record up { channels = channel_init fl id left_over ∷ up.channels })
          else fail_with up allocation_failure
    ]
    | _ ↦ fail_with up at_invalid_state
  ]

  -- `otic_unpack_closeChannel`
  unfoldable pub close_channel : Unpack F → ℕ → Bool × Unpack F
  unfolding fail_with find_channel remove_channel
  close_channel up id = elim (find_channel up.channels id) [
    | some c ↦ (true, record up { channels = remove_channel up.channels id })
    | none ↦ fail_with up invalid_argument
  ]

  -- `otic_unpack_getTotalAmountOfChannel`, in a `uint8_t`.
  unfoldable pub total_channels : Unpack F → ℕ
  total_channels up = length up.channels % 256

  -- `otic_unpack_channel_close`: the channel takes itself out of the list.
  unfoldable pub channel_close : Unpack F → Channel → Bool × Unpack F
  unfolding find_channel remove_channel
  channel_close up c = elim (find_channel up.channels c.channel_id) [
    | some c' ↦ (true, record up { channels = remove_channel up.channels c.channel_id })
    | none ↦ (false, up)
  ]

  -- `otic_unpack_close`: the loop over the channels that there are at its start.
  unfoldable pub close_channels : List Channel → Unpack F → Bool × Unpack F
  unfolding channel_close
  close_channels [] up = (true, record up { state = closed })
  close_channels (c ∷ cs) up =
      let rest = close_channels cs (channel_close up c).1 in
      if (channel_close up c).0
      then rest
      else (false, record ((channel_close up c).1) { state = on_error })

  unfoldable pub close : Unpack F → Bool × Unpack F
  unfolding close_channels
  close up = close_channels up.channels up

  -- `otic_unpack_init`, on the header that the fetcher gave. Of a fetcher that gave none the code
  -- reads a header that was never written, which is `none`.
  unfoldable pub check_header : Option (List ℕ) → F → Option (Bool × Unpack F)
  unfolding fail_with
  check_header (some (a ∷ b ∷ c ∷ d ∷ features ∷ version' ∷ [])) data' =
      let up : Unpack F = record {
        channels = [];
        state = opened;
        error = no_error;
        version = version';
        context = data';
      } in
      some (
        if bytes_eq (a ∷ b ∷ c ∷ d ∷ []) magic
        then if ltb version_major version' then fail_with up version_unsupported else (true, up)
        else fail_with up invalid_otic_file)
  check_header _ data' = none

  unfoldable pub init : Fetcher F → F → Option (Bool × Unpack F)
  unfolding check_header
  init fetcher data' = let (header, rest) = fetcher 6 data' in check_header header rest
