-- ===== src/Codec/Accept/Inject.antt =====
-- An injection in order, whose name and value fit, is taken.
use otic.Prelude.{
  ℕ, ◌+◌, ◌-◌, ◌%◌, ◌^◌, ◌≤◌, Bool, true, false, List, length, length-append, ◌<◌, ltb, ◌≡◌, refl,
  ap, ◌∙◌, arith, inl, inr, Bool-cases,
}
use otic.Base.{Base, Floating, Zstd, to_ticks}
use otic.Base.Types.{OticState, opened}
use otic.Base.Oval.{Oval}
use otic.Pack.Channel as Packing
use otic.Pack.Flush.{Ctx, Flusher, with_channel}
use otic.Pack.Put.{Outcome, done, failed}
use otic.Pack.Inject.{ts_handler, finish, inject, count_row, make_room}
use otic.Unpack.Channel as Unpacking
use otic.Codec.Sizes.{text_size}
use otic.Codec.Puts.{Ready, PutSpec}
use otic.Codec.Following.{Flushes, Following}
use otic.Codec.Times.{
  InTime, ts_handler-InTime, channel_flush-SameTable, flush_if_flushable-SameTable,
  flush_if_flushable-shrinks, channel_flush-empty,
}
use otic.Codec.Inject.{counted-Following}
use otic.Codec.Injections.{Injectable}
use otic.Codec.Accept.{
  Taking, IsOpen, InOrder, Took, ts_handler-Took, channel_flush-taken, flush_if_flushable-taken,
  bound_within, bound_when_full, Ample, Ample-less, compress_bound,
}
use otic.Codec.Accept.Puts.{IsDone}

-- Where the text fits what is left, the test finds that it does.
no_need :
    (threshold used n : ℕ)
    → used ≤ threshold
    → used + n ≤ threshold
    → threshold < 2 ^ 64
    → ltb ((threshold + 2 ^ 64 - used) % 2 ^ 64) n ≡ true
    → ⊥
no_need threshold used n low fits small full =
    let left : (threshold + 2 ^ 64 - used) % 2 ^ 64 ≡ threshold - used = omega arith in
    let h : ltb (threshold - used) n ≡ true = rw left at full in ground arith

module _ {W : Type 0} (zs : Zstd) (fl : Floating) (flusher : Flusher W) (version : ℕ)
    (Holds : ℕ → ℕ → W → Unpacking.Channel → Type 0) (flushes : Flushes zs fl flusher version Holds)
    (taking : Taking zs flusher) where
  abbrev Behind : Ctx W → Unpacking.Channel → Type 0
  Behind = Following zs fl flusher version Holds

  -- An open channel with the reader behind it.
  Following-IsOpen :
      (ctx : Ctx W) {u : Unpacking.Channel}
      → Behind ctx u
      → ctx.parent.state ≡ opened
      → length ctx.channel.base.cache ≤ ctx.channel.threshold
      → Ample ctx.channel.threshold (length ctx.channel.base.cache + 11)
      → IsOpen ctx
  Following-IsOpen ctx f state low tight = record {
    tight = tight;
    state = state;
    low = low;
    slack = f.slack;
    capacity = f.capacity;
  }

  module _ (ctx : Ctx W) {u : Unpacking.Channel} (ts : ℕ) (name unit : List ℕ) (v : Oval)
      (tight : Ample ctx.channel.threshold
        (length ctx.channel.base.cache + 311 + text_size v)) where
    -- The end of an injection whose put was done.
    pub finish-Took :
        (ctx1 : Ctx W) (t : InTime zs fl flusher version Holds flushes ctx ctx1 u ts) (o : Outcome)
        (on_fail : OticState) (count : Packing.Stats → Packing.Stats)
        → ctx1.parent.state ≡ opened
        → ctx1.channel.base.timestamp_current ≡ to_ticks fl ts
        → length ctx1.channel.base.cache ≤ length ctx.channel.base.cache + 11
        → length ctx1.channel.base.cache + text_size v ≤ ctx1.channel.threshold
        → IsDone o
        → PutSpec fl version ctx1.channel t.reader name unit v o
        → Took
            (finish zs fl flusher on_fail count ctx1 o)
            (to_ticks fl ts)
            (length ctx.channel.base.cache + 311 + text_size v)
    unfolding finish with_channel count_row
    finish-Took ctx1 t (failed c') on_fail count state now grown room yes_done d = elim yes_done [ ]
    finish-Took ctx1 t (done c') on_fail count state now grown room yes_done d =
        let f =
          counted-Following zs fl flusher version Holds flushes ctx1 c' count name unit v
            t.following room d in
        let ctx2 = with_channel ctx1 (count_row c' count) in
        let longer : length ctx2.channel.base.cache
            ≤ length ctx.channel.base.cache + 311 + text_size v =
          omega (
            arith,
            ap (λ (b : Base). length b.cache) d.written,
            length-append ctx1.channel.base.cache d.bytes,
            d.short,
            grown,
          ) in
        let flushed = flush_if_flushable-taken zs flusher taking ctx2 state f.capacity (
          bound_when_full (length ctx2.channel.base.cache) ctx2.channel.threshold
            ctx2.channel.base.cache_size
            (Ample-less ctx.channel.threshold ctx2.channel.threshold
              (length ctx2.channel.base.cache) (length ctx.channel.base.cache + 311 + text_size v)
              (d.same_threshold ∙ t.threshold) longer tight)
            f.fits f.slack) in
        record {
          short = omega (arith, flush_if_flushable-shrinks zs flusher ctx2 flushed.0, longer);
          answer = refl;
          state = flushed.0;
          now =
              (flush_if_flushable-SameTable zs flusher ctx2 flushed.0).now
              ∙ ap (λ (b : Base). b.timestamp_current) d.written
              ∙ now;
        }

    module _ (f : Behind ctx u) (state : ctx.parent.state ≡ opened) (i : Injectable fl ctx ts name)
        (order : InOrder ctx (to_ticks fl ts)) where
      abbrev pub ctx1 : Ctx W
      ctx1 = (ts_handler zs fl flusher ctx ts).1

      pub timely :
          Took
            (ts_handler zs fl flusher ctx ts)
            (to_ticks fl ts)
            (length ctx.channel.base.cache + 11)
      timely =
          ts_handler-Took zs fl flusher taking ctx
            (Following-IsOpen ctx f state i.low (
              Ample-less ctx.channel.threshold ctx.channel.threshold
                (length ctx.channel.base.cache + 11)
                (length ctx.channel.base.cache + 311 + text_size v) refl (omega arith) tight))
            ts i.small order

      pub in_time : InTime zs fl flusher version Holds flushes ctx ctx1 u ts
      in_time =
          ts_handler-InTime zs fl flusher version Holds flushes ctx f i.low ts i.small timely.answer
            timely.state

      pub ready : Ready fl ctx1.channel in_time.reader name
      ready = record {
        sync = in_time.following.sync;
        chars = i.chars;
        space = rw in_time.total i.space;
      }

      pub inject-Took :
          (on_fail : OticState) (count : Packing.Stats → Packing.Stats)
          (put : Packing.Channel → Outcome)
          → text_size v ≡ 0
          → IsDone (put ctx1.channel)
          → PutSpec fl version ctx1.channel in_time.reader name unit v (put ctx1.channel)
          → Took
              (inject zs fl flusher on_fail count put ctx ts)
              (to_ticks fl ts)
              (length ctx.channel.base.cache + 311 + text_size v)
      unfolding inject
      inject-Took on_fail count put plain yes_done spec = rw timely.answer (
          finish-Took ctx1 in_time (put ctx1.channel) on_fail count timely.state timely.now
            timely.short (omega (arith, in_time.low, plain)) yes_done spec)

      module _ (value : List ℕ) (fits : length value ≤ ctx.channel.threshold)
          (of_text : text_size v ≡ length value) where
        abbrev pub roomy : Bool × Ctx W
        roomy = make_room zs fl flusher ctx1 value

        pub room-Took : Took roomy (to_ticks fl ts) (length ctx.channel.base.cache + 11)
        unfolding make_room
        room-Took =
            let c = ctx1.channel in
            let room = (c.threshold + 2 ^ 64 - length c.base.cache) % 2 ^ 64 in
            let short : ltb c.threshold (length value) ≡ false =
              ground (arith, in_time.threshold, fits) in
            elim (Bool-cases (ltb room (length value))) [
              | inr enough ↦
                  rw (short, enough)
                    (record {
                      short = timely.short;
                      answer = refl;
                      state = timely.state;
                      now = timely.now;
                    })
              | inl full ↦
                  let g = in_time.following in
                  let bounded : compress_bound (length c.base.cache) ≤ c.base.cache_size =
                    elim tight [
                      | inl small ↦
                          bound_within (length c.base.cache) c.threshold c.base.cache_size g.fits
                            g.slack (omega (arith, in_time.threshold, small))
                      | inr ample ↦ absurd (
                          no_need c.threshold (length c.base.cache) (length value)
                            (omega (arith, in_time.low))
                            (omega (arith, timely.short, ample, of_text, in_time.threshold))
                            (omega (arith, g.slack, g.capacity)) full)
                    ] in
                  let flushed =
                    channel_flush-taken zs flusher taking ctx1 timely.state g.capacity bounded in
                  rw (short, full)
                    (record {
                      short = omega (arith, channel_flush-empty zs flusher ctx1 flushed.1);
                      answer = flushed.0;
                      state = flushed.1;
                      now = (channel_flush-SameTable zs flusher ctx1 flushed.1).now ∙ timely.now;
                    })
            ]
