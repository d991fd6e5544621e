-- ===== src/Codec/Inject.antt =====
-- The injections: what a true answer says of the bytes written and of the reader behind them.
use otic.Prelude.{
  ℕ, suc, ◌+◌, ◌^◌, ◌≤◌, ◌<◌, true, List, [], ◌∷◌, ◌++◌, length, length-append, All, IsChar, ◌≡◌,
  refl, sym, ap, ◌∙◌, arith, inl, inr, Bool-cases,
}
use otic.Base.{Base, Floating, Zstd, of_ticks, to_ticks, ts_null, increment}
use otic.Base.Types.{OticState, opened}
use otic.Base.Oval.{Oval}
use otic.Pack.Channel as Packing
use otic.Pack.Flush.{Ctx, Flusher, with_channel}
use otic.Pack.Put.{Outcome, done, failed}
use otic.Pack.Inject.{ts_handler, finish, inject, inject_fail, count_row}
use otic.Unpack.Channel as Unpacking
use otic.Codec.Reads.{Reads-append}
use otic.Codec.Sizes.{text_size}
use otic.Codec.Sync.{Delivers, ReadsAs, unit_of}
use otic.Codec.Units.{UnitsFrom}
use otic.Codec.Puts.{Ready, PutSpec}
use otic.Codec.Following.{Flushes, Following, flush_if_flushable-Following}
use otic.Codec.Times.{
  InTime, ts_handler-InTime, flush_if_flushable-SameTable, flush_if_flushable-opened,
  flush_if_flushable-low,
}

module _ {W : Type 0} (zs : Zstd) (fl : Floating) (flusher : Flusher W) (version : ℕ)
    (Holds : ℕ → ℕ → W → Unpacking.Channel → Type 0)
    (flushes : Flushes zs fl flusher version Holds) where
  abbrev Behind : Ctx W → Unpacking.Channel → Type 0
  Behind = Following zs fl flusher version Holds

  -- The reader after an injection: one row more, at the time, with the name and the value given.
  pub record Injected (ctx ctx' : Ctx W) (u : Unpacking.Channel) (ts : ℕ) (name unit : List ℕ)
      (v : Oval) : Type 0 where
    pub reader : Unpacking.Channel
    pub following : Behind ctx' reader
    pub low : length ctx'.channel.base.cache ≤ ctx'.channel.threshold
    pub grows : ctx'.channel.total_entries ≤ suc ctx.channel.total_entries
    pub id : ctx'.channel.channel_id ≡ ctx.channel.channel_id
    pub threshold : ctx'.channel.threshold ≡ ctx.channel.threshold
    pub stale : ctx'.channel.stale ≡ ctx.channel.stale
    pub value : Oval
    pub same_value : ReadsAs v value
    pub units : UnitsFrom ctx.channel.buckets ctx'.channel.buckets name unit
    pub rows :
        reader.rows
        ≡ u.rows
          ++ (record {
            time = of_ticks fl (to_ticks fl ts);
            name = name;
            unit = unit_of ctx.channel.buckets name unit;
            value = value;
          }
              ∷ [])

  -- The channel that a put wrote, once the row is counted.
  pub counted-Following :
      (ctx1 : Ctx W) {u1 : Unpacking.Channel} (c' : Packing.Channel)
      (count : Packing.Stats → Packing.Stats) (name unit : List ℕ) (v : Oval)
      → Behind ctx1 u1
      → length ctx1.channel.base.cache + text_size v ≤ ctx1.channel.threshold
      → (d : Delivers fl version ctx1.channel c' u1 name unit v)
      → Behind (with_channel ctx1 (count_row c' count)) d.reader
  unfolding with_channel count_row
  counted-Following ctx1 {u1} c' count name unit v f room d =
      let now : c'.base.timestamp_current ≡ ctx1.channel.base.timestamp_current =
        ap (λ (b : Base). b.timestamp_current) d.written in
      let rows : c'.base.row_counter ≡ ctx1.channel.base.row_counter =
        ap (λ (b : Base). b.row_counter) d.written in
      let size : c'.base.cache_size ≡ ctx1.channel.base.cache_size =
        ap (λ (b : Base). b.cache_size) d.written in
      let cache : c'.base.cache ≡ ctx1.channel.base.cache ++ d.bytes =
        ap (λ (b : Base). b.cache) d.written in
      record {
        before = f.before;
        holds = rw (d.same_id, size) f.holds;
        reads = rw cache (Reads-append fl version d.bytes f.reads d.reads);
        sync = record {
          table = d.table;
          counters = d.counted ∙ ap increment (f.sync.counters ∙ sym rows);
          times = λ set. (
            d.same_time ∙ (f.sync.times (rw (sym now) set)).0 ∙ sym now,
            d.same_ts ∙ (f.sync.times (rw (sym now) set)).1 ∙ ap (of_ticks fl) (sym now),
          );
          time_fits = rw now f.sync.time_fits;
          unfiltered = d.same_filter ∙ f.sync.unfiltered;
          room = d.room;
          rows_fit = omega arith;
          size = d.same_size ∙ f.sync.size ∙ sym size;
          id = d.same_reader ∙ f.sync.id ∙ sym d.same_id;
        };
        fits = omega (
          arith,
          ap length cache,
          length-append ctx1.channel.base.cache d.bytes,
          d.short,
          d.same_threshold,
          room,
        );
        slack = omega (arith, f.slack, d.same_threshold, size);
        capacity = omega (arith, f.capacity, size);
      }

  pub finish-opened :
      (ctx1 : Ctx W) (o : Outcome) (on_fail : OticState) (count : Packing.Stats → Packing.Stats)
      → (finish zs fl flusher on_fail count ctx1 o).0 ≡ true
      → (finish zs fl flusher on_fail count ctx1 o).1.parent.state ≡ opened
      → ctx1.parent.state ≡ opened
  unfolding finish inject_fail with_channel
  finish-opened ctx1 (failed c') on_fail count ok well = cc
  finish-opened ctx1 (done c') on_fail count ok well =
      flush_if_flushable-opened zs flusher (with_channel ctx1 (count_row c' count)) well

  module _ (ctx : Ctx W) {u : Unpacking.Channel} (ts : ℕ) (name unit : List ℕ) (v : Oval) where
    pub finish-Injected :
        (ctx1 : Ctx W) (t : InTime zs fl flusher version Holds flushes ctx ctx1 u ts) (o : Outcome)
        (on_fail : OticState) (count : Packing.Stats → Packing.Stats)
        → length ctx1.channel.base.cache + text_size v ≤ ctx1.channel.threshold
        → PutSpec fl version ctx1.channel t.reader name unit v o
        → (finish zs fl flusher on_fail count ctx1 o).0 ≡ true
        → (finish zs fl flusher on_fail count ctx1 o).1.parent.state ≡ opened
        → Injected ctx (finish zs fl flusher on_fail count ctx1 o).1 u ts name unit v
    unfolding finish inject_fail with_channel count_row
    finish-Injected ctx1 t (failed c') on_fail count room spec ok well = cc
    finish-Injected ctx1 t (done c') on_fail count room d ok well = record {
      reader = d.reader;
      following =
          flush_if_flushable-Following zs fl flusher version Holds flushes
            (with_channel ctx1 (count_row c' count))
            (counted-Following ctx1 c' count name unit v t.following room d) well;
      value = d.value;
      low = flush_if_flushable-low zs flusher (with_channel ctx1 (count_row c' count)) well;
      grows = omega (
        arith,
        (flush_if_flushable-SameTable zs flusher (with_channel ctx1 (count_row c' count))
            well).total,
        d.grows,
        t.total,
      );
      id =
          (flush_if_flushable-SameTable zs flusher (with_channel ctx1 (count_row c' count)) well).id
          ∙ d.same_id
          ∙ t.id;
      threshold =
          (flush_if_flushable-SameTable zs flusher (with_channel ctx1 (count_row c' count))
            well).threshold
          ∙ d.same_threshold
          ∙ t.threshold;
      stale =
          (flush_if_flushable-SameTable zs flusher (with_channel ctx1 (count_row c' count))
            well).stale
          ∙ d.same_stale
          ∙ t.stale;
      same_value = d.same_value;
      units =
          rw
            ((flush_if_flushable-SameTable zs flusher (with_channel ctx1 (count_row c' count))
              well).buckets)
            (rw t.buckets at d.units);
      rows = rw (d.one_row, t.rows, t.time, t.buckets) refl;
    }

    -- A put that delivers on every channel with the same sensors is delivered by its injection.
    pub inject-Injected :
        Behind ctx u
        → length ctx.channel.base.cache ≤ ctx.channel.threshold
        → text_size v ≡ 0
        → to_ticks fl ts < ts_null
        → All IsChar name
        → suc ctx.channel.total_entries < 2 ^ 16
        → (on_fail : OticState) (count : Packing.Stats → Packing.Stats)
          (put : Packing.Channel → Outcome)
        → ((c : Packing.Channel) (u1 : Unpacking.Channel)
            → Ready fl c u1 name
            → c.buckets ≡ ctx.channel.buckets
            → PutSpec fl version c u1 name unit v (put c))
        → (inject zs fl flusher on_fail count put ctx ts).0 ≡ true
        → (inject zs fl flusher on_fail count put ctx ts).1.parent.state ≡ opened
        → Injected ctx (inject zs fl flusher on_fail count put ctx ts).1 u ts name unit v
    unfolding inject
    inject-Injected f low plain small chars space on_fail count put spec =
        elim (Bool-cases (ts_handler zs fl flusher ctx ts).0) [
          | inr refused ↦ rw refused (unfold inject_fail in λ ok well. cc)
          | inl in_order ↦ rw in_order (λ ok well.
              let t =
                ts_handler-InTime zs fl flusher version Holds flushes ctx f low ts small in_order (
                  finish-opened (ts_handler zs fl flusher ctx ts).1
                    (put (ts_handler zs fl flusher ctx ts).1.channel) on_fail count ok well) in
              finish-Injected (ts_handler zs fl flusher ctx ts).1 t
                (put (ts_handler zs fl flusher ctx ts).1.channel) on_fail count
                (omega (arith, t.low, plain))
                (spec (ts_handler zs fl flusher ctx ts).1.channel t.reader
                  (record { sync = t.following.sync; chars = chars; space = rw t.total space })
                  t.buckets)
                ok well)
        ]
