-- ===== src/Pack/Container.antt =====
-- The container `otic_pack_t`, and how its channels are defined, resized, flushed and closed.
use otic.Prelude.{
  ℕ, ◌+◌, ◌-◌, ◌*◌, ◌%◌, ◌^◌, Bool, true, false, ◌&&◌, Option, none, some, List, [], ◌∷◌, ◌++◌,
  length, ltb, ◌==◌, ◌>>=◌, if◌then◌else◌,
}
use otic.Prelude.Bytes.{le_bytes}
use otic.Base.{Floating, Zstd, base_init, ts_null}
use otic.Base.Types.{
  OticType, OticError, OticState, ChannelType, MetaType, opened, on_error, closed, no_error,
  invalid_pointer, invalid_argument, at_invalid_state, allocation_failure, zstd, flush_failed,
  channel_define, compression_method, chunk_size, meta_code, sensor, binary,
}
use otic.Base.Types
use otic.Pack.Channel.{Channel, LeftOver, no_stats, write_type, write_long, set_error}
use otic.Pack.Flush.{Ctx, Parent, Flusher, meta_data_size, channel_flush, flush_done}

-- `otic_pack_t`: the channel defined last is the first of `channels`.
pub record Pack (W : Type 0) : Type 0 where
  pub channels : List Channel
  pub parent : Parent W

abbrev pub default_size : ℕ
default_size = 100 * 16384

unfoldable pub channel_type_code : ChannelType → ℕ
channel_type_code sensor = 0
channel_type_code binary = 1

-- `otic_pack_channel_init`, where the allocations succeed. The end of the interval is not set:
-- `left_over` is what the memory held. The offset of the threshold is computed in 32 bits.
unfoldable pub channel_init : Floating → LeftOver → ℕ → ChannelType → ℕ → Channel
unfolding base_init
channel_init fl left_over id channel_type' bucket_size = record {
  base = base_init bucket_size;
  buckets = λ k. [];
  total_entries = 0;
  threshold = (bucket_size + 2 ^ 32 - 512) % 2 ^ 32;
  channel_type = channel_type';
  channel_id = id;
  time_start = fl.of_u64 ts_null;
  time_end = left_over.time_end;
  stats = no_stats;
  stale = left_over.stale;
}

-- The channel of this id, in the list from the channel defined last.
unfoldable pub find_channel : List Channel → ℕ → Option Channel
find_channel [] id = none
find_channel (c ∷ cs) id = if c.channel_id == id then some c else find_channel cs id

unfoldable pub remove_channel : List Channel → ℕ → List Channel
remove_channel [] id = []
remove_channel (c ∷ cs) id = if c.channel_id == id then cs else c ∷ remove_channel cs id

-- The 14 bytes that announce a channel: its definition, type, compression and bucket size.
unfoldable pub announcement : ChannelType → ℕ → ℕ → List ℕ
unfolding meta_code channel_type_code
announcement channel_type' id bucket_size =
    meta_code channel_define
    ∷ id
    ∷ meta_code Types.channel_type
    ∷ id
    ∷ channel_type_code channel_type'
    ∷ meta_code compression_method
    ∷ id
    ∷ 0
    ∷ meta_code chunk_size
    ∷ id
    ∷ le_bytes 4 bucket_size

module _ {W : Type 0} where
  unfoldable pub fail_with : Pack W → OticError → Bool × Pack W
  fail_with pack e =
      (false, record pack { parent = record (pack.parent) { error = e; state = on_error } })

  -- The flusher is called and its answer is not used.
  unfoldable pub send : Flusher W → List ℕ → Pack W → Pack W
  send flusher bytes pack = record pack {
    parent = record (pack.parent) { context = (flusher bytes pack.parent.context).1 };
  }

  -- `otic_pack_clearErrorFlag`
  unfoldable pub clear_error_flag : Pack W → Pack W
  clear_error_flag pack = record pack {
    parent = record (pack.parent) { error = no_error; state = opened };
  }

  -- `otic_pack_getTotalAmountOfChannel`, in a `uint8_t`.
  unfoldable pub total_channels : Pack W → ℕ
  total_channels pack = length pack.channels % 256

  -- `otic_pack_init`, on a container in any state.
  unfoldable pub init : Pack W → Option (Flusher W) → ℕ → W → Bool × Pack W
  unfolding fail_with
  init pack none features context' = fail_with pack invalid_pointer
  init pack (some flusher) features context' = (
    true,
    record {
      channels = [];
      parent = record {
        error = no_error;
        state = opened;
        context = (flusher (79 ∷ 169 ∷ 70 ∷ 53 ∷ features ∷ 2 ∷ []) context').1;
      };
    },
  )

  -- `otic_pack_defineChannel`. `memory` is the allocation of the channel. Those inside
  -- `otic_pack_channel_init` are taken to succeed: where one fails, the source writes through a pointer
  -- that was not set.
  unfoldable pub define_channel :
      Flusher W → Bool → Floating → LeftOver → Pack W → ChannelType → ℕ → ℕ → Bool × Pack W
  unfolding fail_with find_channel channel_init announcement send
  define_channel flusher memory fl left_over pack channel_type' id buffer_size =
      let size = if buffer_size == 0 then default_size else buffer_size in
      elim pack.parent.state [
        | opened ↦
            if id == 0
            then fail_with pack invalid_argument
            else elim (find_channel pack.channels id) [
              | some c ↦ fail_with pack invalid_argument
              | none ↦
                  if memory
                  then (
                    true,
                    send flusher (announcement channel_type' id size) (record pack {
                      channels = channel_init fl left_over id channel_type' size ∷ pack.channels;
                    }),
                  )
                  else fail_with pack allocation_failure
            ]
        | _ ↦ fail_with pack at_invalid_state
      ]

  -- `otic_pack_closeChannel`, of which `close_loop` is the loop from the channel defined last. A channel
  -- of this id is taken from the list where it is the first, is freed, and then has its `previous` read,
  -- which is `none`.
  unfoldable pub close_loop : List Channel → ℕ → Pack W → Option (Pack W)
  close_loop [] id pack = some pack
  close_loop (previous ∷ others) id pack =
      let rest = close_loop others id pack in if previous.channel_id == id then none else rest

  unfoldable pub close_channel : Pack W → ℕ → Option (Bool × Pack W)
  unfolding fail_with close_loop
  close_channel pack id = close_loop pack.channels id pack >>= λ (pack1 : Pack W).
      some (fail_with pack1 invalid_argument)

  -- `otic_pack_channel_resizeBucket`, for a channel with its parent. Where `realloc` moves the buffer,
  -- `top` is left in the old one: a channel whose next write is outside its buffer, which is `none`.
  unfoldable pub resize_bucket : Flusher W → Bool → Bool → Ctx W → ℕ → Option (Bool × Ctx W)
  unfolding meta_data_size meta_code
  resize_bucket flusher memory moves ctx bucket_size =
      let c = ctx.channel in
      let size = if bucket_size == 0 then default_size else bucket_size in
      let refused = record (ctx.parent) { error = allocation_failure } in
      let resized = record c {
        base = record (c.base) { cache_size = size };
        threshold = size - 512;
      } in
      let told = record (ctx.parent) {
        context =
            (flusher (meta_data_size (meta_code chunk_size) c.channel_id size)
              ctx.parent.context).1;
      } in
      elim c.base.state [
        | opened ↦
            if ltb (length c.base.cache) size && ltb 1024 size
            then if memory
              then if moves then none else some (true, record { channel = resized; parent = told })
              else some (false, record ctx { parent = refused })
            else some (false, record ctx { parent = record refused { state = on_error } })
        | _ ↦
            let invalid = record (ctx.parent) { error = at_invalid_state; state = on_error } in
            some (false, record ctx { parent = invalid })
      ]

  module _ (zs : Zstd) (flusher : Flusher W) where
    -- `otic_pack_channel_close`: the number of rows is written, the buffer is flushed, and the
    -- channel leaves the list of its parent.
    unfoldable pub channel_close : Pack W → Channel → Bool × Pack W
    unfolding write_type write_long channel_flush find_channel remove_channel
    channel_close pack c =
        let c1 = write_long (write_type c OticType.eof) c.base.row_counter in
        let flushed =
          (channel_flush zs flusher (record { channel = c1; parent = pack.parent })).1 in
        elim (find_channel pack.channels c.channel_id) [
          | some c' ↦ (
            true,
            record {
              channels = remove_channel pack.channels c.channel_id;
              parent = flushed.parent;
            },
          )
          | none ↦ (false, record pack { parent = flushed.parent })
        ]

    -- `otic_pack_close`
    unfoldable pub close_channels : List Channel → Pack W → Bool × Pack W
    unfolding channel_close
    close_channels [] pack =
        (true, record pack { parent = record (pack.parent) { state = closed } })
    close_channels (c ∷ cs) pack =
        let (found, pack1) = channel_close pack c in
        let rest = close_channels cs pack1 in
        if found
        then rest
        else (false, record pack1 { parent = record (pack1.parent) { state = on_error } })

    unfoldable pub close : Pack W → Bool × Pack W
    unfolding close_channels
    close pack = close_channels pack.channels pack

    -- One round of `otic_pack_flush`. The header is an `otic_payload_t`: the length, then the id.
    unfoldable pub flush_one : Pack W → Channel → Bool × Channel × W
    unfolding flush_done set_error
    flush_one pack c =
        let w = pack.parent.context in
        elim (zs.compress c.base.cache_size c.base.cache) [
          | none ↦ (false, set_error c zstd, w)
          | some out ↦
              let (sent, w1) = flusher (le_bytes 4 (length out) ++ (c.channel_id ∷ [])) w in
              let (taken, w2) = flusher out w1 in
              if sent
              then if taken then (true, flush_done c, w2) else (false, set_error c flush_failed, w2)
              else (false, set_error c flush_failed, w1)
        ]

    -- The loop of `otic_pack_flush` over the channels, from the one defined last.
    unfoldable pub flush_channels : Pack W → List Channel → Bool × Pack W
    unfolding flush_one
    flush_channels pack [] = (true, record pack { channels = [] })
    flush_channels pack (c ∷ cs) =
        let (taken, c', w) = flush_one pack c in
        let parent' = record (pack.parent) { context = w } in
        let (all, rest) = flush_channels (record pack { parent = parent' }) cs in
        if taken
        then (all, record rest { channels = c' ∷ rest.channels })
        else (false, record { channels = c' ∷ cs; parent = record parent' { state = on_error } })

    -- `otic_pack_flush`
    unfoldable pub flush : Pack W → Bool × Pack W
    unfolding flush_channels
    flush pack = flush_channels pack pack.channels
