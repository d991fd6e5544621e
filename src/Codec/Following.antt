-- ===== src/Codec/Following.antt =====
-- The reader behind a whole channel: it has read what was flushed, and the bytes in the buffer
-- would bring it in step with the packer. `Holds id size w u` says that the output `w` leaves the
-- reader of channel `id`, whose buckets have this size, in the state `u`.
use otic.Prelude.{
  ℕ, ◌+◌, ◌^◌, ◌≤◌, ◌<◌, Bool, true, false, some, if◌then◌else◌, List, length, ltb, ◌≡◌, ◌≢◌, sym,
  ◌∙◌, arith, inl, inr,
}
use otic.Base.{Floating, Zstd}
use otic.Base.Types.{opened, on_error, payload, meta_code}
use otic.Pack.Channel as Packing
use otic.Pack.Flush.{
  Ctx, Flusher, meta_data_size, with_channel, with_context, channel_flush, flush_if_flushable,
  flush_done,
}
use otic.Pack.Flush.Outcome.{channel_flush_cases}
use otic.Unpack.Channel as Unpacking
use otic.Codec.Reads.{Reads, none}
use otic.Codec.Sync.{Sync}

pub opened≢on_error : opened ≢ on_error
opened≢on_error p = cc

module _ {W : Type 0} (zs : Zstd) (fl : Floating) (flusher : Flusher W) (version : ℕ)
    (Holds : ℕ → ℕ → W → Unpacking.Channel → Type 0) where
  -- What the output has to do with a block that the flusher took.
  abbrev pub Flushes : Type 0
  Flushes =
      (id capacity : ℕ) (cache out : List ℕ) (w w1 w2 : W) (u0 u : Unpacking.Channel)
      → zs.compress capacity cache ≡ some out
      → length out < 2 ^ 32
      → flusher (meta_data_size (meta_code payload) id (length out)) w ≡ (true, w1)
      → flusher out w1 ≡ (true, w2)
      → length cache ≤ capacity
      → Holds id capacity w u0
      → Reads fl version u0 cache u
      → u.base.cache_size ≡ capacity
      → u.channel_id ≡ id
      → Holds id capacity w2 u

  pub record Following (ctx : Ctx W) (u : Unpacking.Channel) : Type 0 where
    pub before : Unpacking.Channel
    pub holds : Holds ctx.channel.channel_id ctx.channel.base.cache_size ctx.parent.context before
    pub reads : Reads fl version before ctx.channel.base.cache u
    pub sync : Sync fl ctx.channel u
    pub fits : length ctx.channel.base.cache ≤ ctx.channel.threshold + 300
    pub slack : ctx.channel.threshold + 512 ≤ ctx.channel.base.cache_size
    pub capacity : ctx.channel.base.cache_size < 2 ^ 32

module _ {W : Type 0} (zs : Zstd) (fl : Floating) (flusher : Flusher W) (version : ℕ)
    (Holds : ℕ → ℕ → W → Unpacking.Channel → Type 0)
    (flushes : Flushes zs fl flusher version Holds) where
  flushed-Sync :
      {c : Packing.Channel} {u : Unpacking.Channel} → Sync fl c u → Sync fl (flush_done c) u
  unfolding flush_done
  flushed-Sync s = record {
    table = s.table;
    counters = s.counters;
    times = s.times;
    time_fits = s.time_fits;
    unfiltered = s.unfiltered;
    room = s.room;
    rows_fit = s.rows_fit;
    size = s.size;
    id = s.id;
  }

  abbrev Behind : Ctx W → Unpacking.Channel → Type 0
  Behind = Following zs fl flusher version Holds

  -- A flush that does not fail keeps the reader behind the channel.
  pub channel_flush-Following :
      (ctx : Ctx W) {u : Unpacking.Channel}
      → Behind ctx u
      → (channel_flush zs flusher ctx).1.parent.state ≡ opened
      → Behind (channel_flush zs flusher ctx).1 u
  channel_flush-Following ctx {u} f well = elim (channel_flush_cases zs flusher ctx) [
    | inr failed ↦ absurd (opened≢on_error (sym well ∙ failed.parent_state))
    | inl sent ↦ rw sent.result (
        unfold with_channel with_context flush_done in
        record {
          before = u;
          holds =
              flushes ctx.channel.channel_id ctx.channel.base.cache_size ctx.channel.base.cache
                sent.out ctx.parent.context sent.middle sent.last f.before u sent.compressed
                sent.short sent.header sent.block (omega (arith, f.fits, f.slack)) f.holds f.reads
                f.sync.size f.sync.id;
          reads = none;
          sync = flushed-Sync f.sync;
          fits = omega arith;
          slack = f.slack;
          capacity = f.capacity;
        })
  ]

  pub flush_if_flushable-Following :
      (ctx : Ctx W) {u : Unpacking.Channel}
      → Behind ctx u
      → (flush_if_flushable zs flusher ctx).parent.state ≡ opened
      → Behind (flush_if_flushable zs flusher ctx) u
  unfolding flush_if_flushable
  flush_if_flushable-Following ctx {u} f =
      by_test (ltb ctx.channel.threshold (length ctx.channel.base.cache))
    where
      by_test :
          (b : Bool)
          → (if b then (channel_flush zs flusher ctx).1 else ctx).parent.state ≡ opened
          → Behind (if b then (channel_flush zs flusher ctx).1 else ctx) u
      by_test true well = channel_flush-Following ctx f well
      by_test false well = f
