-- ===== src/Codec/Times.antt =====
-- The handler of timestamps: what it writes brings the reader to the same time.
use otic.Prelude.{
  ℕ, ◌+◌, ◌-◌, ◌%◌, ◌^◌, ◌≤◌, ◌<◌, Bool, true, false, List, ◌∷◌, ◌++◌, length, length-append, ltb,
  ◌==◌, ◌≡◌, ◌≢◌, refl, sym, ap, ◌∙◌, arith, inl, inr, Bool-cases, append_assoc, if◌then◌else◌,
}
use otic.Base.{Floating, Zstd, of_ticks, to_ticks, ts_null}
use otic.Base.Types.{opened, type_code}
use otic.Leb128.{encode_unsigned}
use otic.Pack.Channel as Packing
use otic.Pack.Flush.{
  Ctx, Flusher, with_channel, with_context, channel_flush, flush_if_flushable, flush_done,
}
use otic.Pack.Flush.Outcome.{channel_flush_cases}
use otic.Pack.Inject.{ts_handler, set_time, shift_time}
use otic.Unpack.Channel as Unpacking
use otic.Codec.Reads.{Reads, Reads-one, Reads-append}
use otic.Codec.Headers.{timed, shifted, set_time_record, shift_time_record}
use otic.Codec.Sizes.{number_short}
use otic.Codec.Sync.{Sync}
use otic.Codec.Following.{Flushes, Following, opened≢on_error, flush_if_flushable-Following}

-- What a flush leaves alone.
pub record SameTable (c c' : Packing.Channel) : Type 0 where
  pub buckets : c'.buckets ≡ c.buckets
  pub total : c'.total_entries ≡ c.total_entries
  pub now : c'.base.timestamp_current ≡ c.base.timestamp_current
  pub threshold : c'.threshold ≡ c.threshold
  pub stale : c'.stale ≡ c.stale
  pub id : c'.channel_id ≡ c.channel_id

module _ {W : Type 0} (zs : Zstd) (flusher : Flusher W) (ctx : Ctx W) where
  pub channel_flush-SameTable :
      (channel_flush zs flusher ctx).1.parent.state ≡ opened
      → SameTable ctx.channel (channel_flush zs flusher ctx).1.channel
  channel_flush-SameTable well = elim (channel_flush_cases zs flusher ctx) [
    | inr failed ↦ absurd (opened≢on_error (sym well ∙ failed.parent_state))
    | inl sent ↦ rw sent.result (
        unfold with_channel with_context flush_done in
        record {
          buckets = refl;
          total = refl;
          now = refl;
          threshold = refl;
          stale = refl;
          id = refl;
        })
  ]

  pub flush_if_flushable-SameTable :
      (flush_if_flushable zs flusher ctx).parent.state ≡ opened
      → SameTable ctx.channel (flush_if_flushable zs flusher ctx).channel
  unfolding flush_if_flushable
  flush_if_flushable-SameTable = by_test (ltb ctx.channel.threshold (length ctx.channel.base.cache))
    where
      by_test :
          (b : Bool)
          → (if b then (channel_flush zs flusher ctx).1 else ctx).parent.state ≡ opened
          → SameTable ctx.channel (if b then (channel_flush zs flusher ctx).1 else ctx).channel
      by_test true well = channel_flush-SameTable well
      by_test false well = record {
        buckets = refl;
        total = refl;
        now = refl;
        threshold = refl;
        stale = refl;
        id = refl;
      }

  pub channel_flush-empty :
      (channel_flush zs flusher ctx).1.parent.state ≡ opened
      → length (channel_flush zs flusher ctx).1.channel.base.cache ≡ 0
  channel_flush-empty well = elim (channel_flush_cases zs flusher ctx) [
    | inr failed ↦ absurd (opened≢on_error (sym well ∙ failed.parent_state))
    | inl sent ↦ rw sent.result (unfold with_channel with_context flush_done in refl)
  ]

  pub channel_flush-low :
      (channel_flush zs flusher ctx).1.parent.state ≡ opened
      → length (channel_flush zs flusher ctx).1.channel.base.cache
        ≤ (channel_flush zs flusher ctx).1.channel.threshold
  channel_flush-low well = omega (arith, channel_flush-empty well)

  -- No flush makes the buffer longer.
  pub flush_if_flushable-shrinks :
      (flush_if_flushable zs flusher ctx).parent.state ≡ opened
      → length (flush_if_flushable zs flusher ctx).channel.base.cache
        ≤ length ctx.channel.base.cache
  unfolding flush_if_flushable
  flush_if_flushable-shrinks =
      elim (Bool-cases (ltb ctx.channel.threshold (length ctx.channel.base.cache))) [
        | inl full ↦ rw full (λ well. omega (arith, channel_flush-empty well))
        | inr below ↦ rw below (λ well. omega arith)
      ]

  -- After a flush that the threshold asks for, the buffer is below it.
  pub flush_if_flushable-low :
      (flush_if_flushable zs flusher ctx).parent.state ≡ opened
      → length (flush_if_flushable zs flusher ctx).channel.base.cache
        ≤ (flush_if_flushable zs flusher ctx).channel.threshold
  unfolding flush_if_flushable
  flush_if_flushable-low =
      elim (Bool-cases (ltb ctx.channel.threshold (length ctx.channel.base.cache))) [
        | inl full ↦ rw full channel_flush-low
        | inr below ↦ rw below (λ well. ground arith)
      ]

  pub channel_flush-opened :
      (channel_flush zs flusher ctx).1.parent.state ≡ opened → ctx.parent.state ≡ opened
  channel_flush-opened well = elim (channel_flush_cases zs flusher ctx) [
    | inr failed ↦ absurd (opened≢on_error (sym well ∙ failed.parent_state))
    | inl sent ↦
        unfold with_channel with_context in
        (sym (ap (λ (r : Bool × Ctx W). r.1.parent.state) sent.result) ∙ well)
  ]

  -- Nothing reopens a parent that a flush has closed.
  pub flush_if_flushable-opened :
      (flush_if_flushable zs flusher ctx).parent.state ≡ opened → ctx.parent.state ≡ opened
  unfolding flush_if_flushable
  flush_if_flushable-opened = by_test (ltb ctx.channel.threshold (length ctx.channel.base.cache))
    where
      by_test :
          (b : Bool)
          → (if b then (channel_flush zs flusher ctx).1 else ctx).parent.state ≡ opened
          → ctx.parent.state ≡ opened
      by_test true well = channel_flush-opened well
      by_test false well = well

module _ {W : Type 0} (zs : Zstd) (fl : Floating) (flusher : Flusher W) (version : ℕ)
    (Holds : ℕ → ℕ → W → Unpacking.Channel → Type 0)
    (flushes : Flushes zs fl flusher version Holds) where
  abbrev Behind : Ctx W → Unpacking.Channel → Type 0
  Behind = Following zs fl flusher version Holds

  -- The reader after the handler: no row more, and at the time that was given.
  pub record InTime (ctx ctx' : Ctx W) (u : Unpacking.Channel) (ts : ℕ) : Type 0 where
    pub reader : Unpacking.Channel
    pub following : Behind ctx' reader
    pub rows : reader.rows ≡ u.rows
    pub time : reader.ts ≡ of_ticks fl (to_ticks fl ts)
    pub buckets : ctx'.channel.buckets ≡ ctx.channel.buckets
    pub total : ctx'.channel.total_entries ≡ ctx.channel.total_entries
    pub low : length ctx'.channel.base.cache ≤ ctx'.channel.threshold
    pub id : ctx'.channel.channel_id ≡ ctx.channel.channel_id
    pub threshold : ctx'.channel.threshold ≡ ctx.channel.threshold
    pub stale : ctx'.channel.stale ≡ ctx.channel.stale

  module _ (ctx : Ctx W) {u : Unpacking.Channel} (f : Behind ctx u)
      (low : length ctx.channel.base.cache ≤ ctx.channel.threshold) where
    abbrev c : Packing.Channel
    c = ctx.channel

    -- A channel that has written more, before the flush that may follow.
    more_written :
        (c' : Packing.Channel) (b : ℕ) (bs : List ℕ) {v : Unpacking.Channel}
        → c'.base.cache ≡ c.base.cache ++ b ∷ bs
        → (c'.channel_id ≡ c.channel_id)
          × (c'.threshold ≡ c.threshold)
          × (c'.base.cache_size ≡ c.base.cache_size)
        → length bs ≤ 10
        → Reads fl version u (b ∷ bs) v
        → Sync fl c' v
        → Behind (with_channel ctx c') v
    unfolding with_channel
    more_written c' b bs written (same_id, same_threshold, same_size) short reads sync = record {
      before = f.before;
      holds = rw (same_id, same_size) f.holds;
      reads = rw written (Reads-append fl version (b ∷ bs) f.reads reads);
      sync = sync;
      fits = omega (
        arith,
        ap length written,
        length-append c.base.cache (b ∷ bs),
        low,
        short,
        same_threshold,
      );
      slack = omega (arith, f.slack, same_threshold, same_size);
      capacity = omega (arith, f.capacity, same_size);
    }

    module _ (ts : ℕ) (small : to_ticks fl ts < ts_null) where
      abbrev ticks : ℕ
      ticks = to_ticks fl ts

      same_time : c.base.timestamp_current ≡ ticks → InTime ctx ctx u ts
      same_time e = record {
        reader = u;
        following = f;
        rows = refl;
        time =
            (f.sync.times (λ p. absurd (omega (arith, small, sym e ∙ p)))).1 ∙ ap (of_ticks fl) e;
        buckets = refl;
        total = refl;
        low = low;
        id = refl;
        threshold = refl;
        stale = refl;
      }

      -- The flush after a time was written.
      then_flush :
          (c' : Packing.Channel) {v : Unpacking.Channel}
          → Behind (with_channel ctx c') v
          → v.rows ≡ u.rows
          → v.ts ≡ of_ticks fl ticks
          → c'.buckets ≡ c.buckets
          → c'.total_entries ≡ c.total_entries
          → c'.channel_id ≡ c.channel_id
          → c'.threshold ≡ c.threshold
          → c'.stale ≡ c.stale
          → (flush_if_flushable zs flusher (with_channel ctx c')).parent.state ≡ opened
          → InTime ctx (flush_if_flushable zs flusher (with_channel ctx c')) u ts
      then_flush c' {v} behind rows time buckets total id threshold stale well =
          let kept = flush_if_flushable-SameTable zs flusher (with_channel ctx c') well in
          record {
            reader = v;
            following =
                flush_if_flushable-Following zs fl flusher version Holds flushes
                  (with_channel ctx c') behind well;
            rows = rows;
            time = time;
            buckets = unfold with_channel in kept.buckets ∙ buckets;
            total = unfold with_channel in kept.total ∙ total;
            id = unfold with_channel in kept.id ∙ id;
            threshold = unfold with_channel in kept.threshold ∙ threshold;
            stale = unfold with_channel in kept.stale ∙ stale;
            low = flush_if_flushable-low zs flusher (with_channel ctx c') well;
          }

      first_time :
          (flush_if_flushable zs flusher (with_channel ctx (set_time fl c ts ticks))).parent.state
            ≡ opened
          → InTime ctx
              (flush_if_flushable zs flusher (with_channel ctx (set_time fl c ts ticks)))
              u
              ts
      unfolding set_time type_code
      first_time =
          then_flush (set_time fl c ts ticks)
            (more_written (set_time fl c ts ticks) 213 (encode_unsigned ticks)
              {v = timed fl version u ticks} (simp append_assoc) (refl, refl, refl)
              (number_short ticks (omega arith))
              (Reads-one fl version 213 (encode_unsigned ticks)
                (set_time_record fl version u ticks (omega arith)))
              (record {
                table = f.sync.table;
                counters = f.sync.counters;
                times = λ _. (refl, refl);
                time_fits = omega (arith, small);
                unfiltered = f.sync.unfiltered;
                room = f.sync.room;
                rows_fit = f.sync.rows_fit;
                size = f.sync.size;
                id = f.sync.id;
              }))
            refl refl refl refl refl refl refl

      later_time :
          c.base.timestamp_current ≢ ts_null
          → c.base.timestamp_current ≤ ticks
          → (flush_if_flushable zs flusher (with_channel ctx (shift_time c ts ticks))).parent.state
            ≡ opened
          → InTime ctx
              (flush_if_flushable zs flusher (with_channel ctx (shift_time c ts ticks)))
              u
              ts
      unfolding shift_time type_code
      later_time set ordered =
          let step = ticks - c.base.timestamp_current in
          let now : (u.base.timestamp_current + step) % 2 ^ 64 ≡ ticks =
            omega (arith, (f.sync.times set).0, ordered, small) in
          then_flush (shift_time c ts ticks)
            (more_written (shift_time c ts ticks) 214 (encode_unsigned step)
              {v = shifted fl version u step} (simp append_assoc) (refl, refl, refl)
              (number_short step (omega arith))
              (Reads-one fl version 214 (encode_unsigned step)
                (shift_time_record fl version u step (omega arith)))
              (record {
                table = f.sync.table;
                counters = f.sync.counters;
                times = λ _. (now, ap (of_ticks fl) now);
                time_fits = omega (arith, small);
                unfiltered = f.sync.unfiltered;
                room = f.sync.room;
                rows_fit = f.sync.rows_fit;
                size = f.sync.size;
                id = f.sync.id;
              }))
            refl (ap (of_ticks fl) now) refl refl refl refl refl

      -- Where the reader is behind the channel, whose buffer is at or below its threshold, and
      -- the time is below the null time, a handler of timestamps that answers true and leaves the
      -- container open brings the reader to this time, with no row more, the same sensors and the
      -- buffer at or below its threshold.
      pub ts_handler-InTime :
          (ts_handler zs fl flusher ctx ts).0 ≡ true
          → (ts_handler zs fl flusher ctx ts).1.parent.state ≡ opened
          → InTime ctx (ts_handler zs fl flusher ctx ts).1 u ts
      unfolding ts_handler
      ts_handler-InTime = elim (Bool-cases (c.base.timestamp_current == ticks)) [
        | inl same ↦ rw same (λ ok well. same_time (ground arith))
        | inr differs ↦ elim (Bool-cases (c.base.timestamp_current == ts_null)) [
          | inl unset ↦ rw (differs, unset) (λ ok well. first_time well)
          | inr set ↦ elim (Bool-cases (ltb ticks c.base.timestamp_current)) [
            | inl back ↦ rw (differs, set, back) (λ ok well. cc)
            | inr ordered ↦
                rw (differs, set, ordered)
                  (λ ok well. later_time (ground arith) (ground arith) well)
          ]
        ]
      ]
