-- ===== src/Codec/Injections.antt =====
-- Each public injection: the row that a reader of the output gets for it.
use otic.Prelude.{
  ℕ, suc, ◌+◌, ◌-◌, ◌%◌, ◌^◌, ◌<◌, ◌≤◌, Bool, true, false, none, List, [], length, ltb, ◌==◌, All,
  IsChar, ◌≡◌, ◌∙◌, refl, arith, inl, inr, Bool-cases, if◌then◌else◌,
}
use otic.Base.{Floating, Zstd, to_ticks, ts_null}
use otic.Base.Types.{opened, on_error, closed}
use otic.Base.Oval.{null, bool_true, bool_false, int_neg, int_pos, double, string}
use otic.Leb128.{IsU64}
use otic.Pack.Flush.{Ctx, Flusher, channel_flush}
use otic.Pack.Put.{put_bool, put_i_neg, put_i, put_d, put_n, put_s}
use otic.Pack.Inject.{
  ts_handler, inject_fail, inject_bool, inject_i_neg, inject_i, inject_d, inject_n, inject_s,
  make_room, count_string, count_bool, count_integer, count_double, count_null,
}
use otic.Unpack.Channel as Unpacking
use otic.Codec.Sizes.{text_size}
use otic.Codec.Table.{find}
use otic.Codec.Deliver.{
  put_bool-PutSpec, put_i_neg-PutSpec, put_i-PutSpec, put_d-PutSpec, put_n-PutSpec, put_s-PutSpec,
}
use otic.Codec.Following.{Flushes, Following, channel_flush-Following}
use otic.Codec.Times.{
  InTime, ts_handler-InTime, channel_flush-SameTable, channel_flush-opened, channel_flush-low,
  channel_flush-empty,
}
use otic.Codec.Inject.{Injected, inject-Injected, finish-Injected, finish-opened}

-- What the theorems below ask of an injection: the time is one that the format can hold, the name
-- is a C string, there is an index for one sensor more, and the buffer is not above its threshold.
pub record Injectable {W : Type 0} (fl : Floating) (ctx : Ctx W) (ts : ℕ) (name : List ℕ)
    : Type 0 where
  pub small : to_ticks fl ts < ts_null
  pub chars : All IsChar name
  pub low : length ctx.channel.base.cache ≤ ctx.channel.threshold
  pub space : suc ctx.channel.total_entries < 2 ^ 16

pub plain : (value : Bool) → text_size (if value then bool_true else bool_false) ≡ 0
plain true = refl
plain false = refl

module _ {W : Type 0} (zs : Zstd) (fl : Floating) (flusher : Flusher W) (version : ℕ)
    (Holds : ℕ → ℕ → W → Unpacking.Channel → Type 0) (flushes : Flushes zs fl flusher version Holds)
    (memory : Bool) (ctx : Ctx W) {u : Unpacking.Channel}
    (f : Following zs fl flusher version Holds ctx u) (ts : ℕ) (name unit : List ℕ)
    (i : Injectable fl ctx ts name) where
  -- Where the reader of the output is behind the channel, the time and the name are injectable,
  -- and the injection of a truth value answers true and leaves the container open, the reader
  -- behind the new channel has exactly one row more: the time given in ticks, the name, the unit
  -- of the name's first injection and the value (a double may be the other zero); the buffer
  -- stays at or below its threshold.
  pub inject_bool-Injected :
      (value : Bool)
      → (inject_bool zs fl flusher memory ctx ts name unit value).0 ≡ true
      → (inject_bool zs fl flusher memory ctx ts name unit value).1.parent.state ≡ opened
      → Injected zs fl flusher version Holds flushes ctx
          (inject_bool zs fl flusher memory ctx ts name unit value).1
          u
          ts
          name
          unit
          (if value then bool_true else bool_false)
  unfolding inject_bool
  inject_bool-Injected value =
      inject-Injected zs fl flusher version Holds flushes ctx ts name unit
        (if value then bool_true else bool_false) f i.low (plain value) i.small i.chars i.space
        closed count_bool (λ c. put_bool memory c name unit value)
        (λ c u1 r same. put_bool-PutSpec fl version r memory unit value)

  -- Where the reader of the output is behind the channel, the time and the name are injectable,
  -- and the injection of null answers true and leaves the container open, the reader behind the
  -- new channel has exactly one row more: the time given in ticks, the name, the unit of the
  -- name's first injection and the value (a double may be the other zero); the buffer stays at or
  -- below its threshold.
  pub inject_n-Injected :
      (inject_n zs fl flusher memory ctx ts name unit).0 ≡ true
      → (inject_n zs fl flusher memory ctx ts name unit).1.parent.state ≡ opened
      → Injected zs fl flusher version Holds flushes ctx
          (inject_n zs fl flusher memory ctx ts name unit).1
          u
          ts
          name
          unit
          null
  unfolding inject_n
  inject_n-Injected =
      inject-Injected zs fl flusher version Holds flushes ctx ts name unit null f i.low refl i.small
        i.chars i.space closed count_null (λ c. put_n memory c name unit)
        (λ c u1 r same. put_n-PutSpec fl version r memory unit)

  module _ (value : ℕ) (h : IsU64 value) where
    -- Where the reader of the output is behind the channel, the time and the name are injectable,
    -- and the injection of a double answers true and leaves the container open, the reader behind
    -- the new channel has exactly one row more: the time given in ticks, the name, the unit of
    -- the name's first injection and the value (a double may be the other zero); the buffer stays
    -- at or below its threshold.
    pub inject_d-Injected :
        (inject_d zs fl flusher memory ctx ts name unit value).0 ≡ true
        → (inject_d zs fl flusher memory ctx ts name unit value).1.parent.state ≡ opened
        → Injected zs fl flusher version Holds flushes ctx
            (inject_d zs fl flusher memory ctx ts name unit value).1
            u
            ts
            name
            unit
            (double value)
    unfolding inject_d
    inject_d-Injected =
        inject-Injected zs fl flusher version Holds flushes ctx ts name unit (double value) f i.low
          refl i.small i.chars i.space on_error count_double (λ c. put_d memory c name unit value)
          (λ c u1 r same. put_d-PutSpec fl version r memory unit value h)

    module _ (low : find ctx.channel.buckets name ≡ none → value < 2 ^ 32) where
      -- Where the reader of the output is behind the channel, the time and the name are
      -- injectable, and the injection of a positive integer answers true and leaves the container
      -- open, the reader behind the new channel has exactly one row more: the time given in
      -- ticks, the name, the unit of the name's first injection and the value (a double may be
      -- the other zero); the buffer stays at or below its threshold. An integer for a new name is
      -- below 2^32.
      pub inject_i-Injected :
          (inject_i zs fl flusher memory ctx ts name unit value).0 ≡ true
          → (inject_i zs fl flusher memory ctx ts name unit value).1.parent.state ≡ opened
          → Injected zs fl flusher version Holds flushes ctx
              (inject_i zs fl flusher memory ctx ts name unit value).1
              u
              ts
              name
              unit
              (int_pos value)
      unfolding inject_i
      inject_i-Injected =
          inject-Injected zs fl flusher version Holds flushes ctx ts name unit (int_pos value) f
            i.low refl i.small i.chars i.space on_error count_integer
            (λ c. put_i memory c name unit value)
            (λ c u1 r same. put_i-PutSpec fl version r memory unit value h (rw same low))

      -- Where the reader of the output is behind the channel, the time and the name are
      -- injectable, and the injection of a negative integer answers true and leaves the container
      -- open, the reader behind the new channel has exactly one row more: the time given in
      -- ticks, the name, the unit of the name's first injection and the value (a double may be
      -- the other zero); the buffer stays at or below its threshold. An integer for a new name is
      -- below 2^32.
      pub inject_i_neg-Injected :
          (inject_i_neg zs fl flusher memory ctx ts name unit value).0 ≡ true
          → (inject_i_neg zs fl flusher memory ctx ts name unit value).1.parent.state ≡ opened
          → Injected zs fl flusher version Holds flushes ctx
              (inject_i_neg zs fl flusher memory ctx ts name unit value).1
              u
              ts
              name
              unit
              (int_neg value)
      unfolding inject_i_neg
      inject_i_neg-Injected =
          inject-Injected zs fl flusher version Holds flushes ctx ts name unit (int_neg value) f
            i.low refl i.small i.chars i.space closed count_integer
            (λ c. put_i_neg memory c name unit value)
            (λ c u1 r same. put_i_neg-PutSpec fl version r memory unit value h (rw same low))

  -- A flush between two times.
  flushed-InTime :
      (ctx1 : Ctx W)
      → InTime zs fl flusher version Holds flushes ctx ctx1 u ts
      → (channel_flush zs flusher ctx1).1.parent.state ≡ opened
      → InTime zs fl flusher version Holds flushes ctx (channel_flush zs flusher ctx1).1 u ts
  flushed-InTime ctx1 t well =
      let same = channel_flush-SameTable zs flusher ctx1 well in
      record {
        reader = t.reader;
        following =
            channel_flush-Following zs fl flusher version Holds flushes ctx1 t.following well;
        rows = t.rows;
        time = t.time;
        buckets = same.buckets ∙ t.buckets;
        total = same.total ∙ t.total;
        id = same.id ∙ t.id;
        threshold = same.threshold ∙ t.threshold;
        stale = same.stale ∙ t.stale;
        low = channel_flush-low zs flusher ctx1 well;
      }

  channel_flush-space :
      (ctx1 : Ctx W) (value : List ℕ)
      → ltb ctx1.channel.threshold (length value) ≡ false
      → (channel_flush zs flusher ctx1).1.parent.state ≡ opened
      → length (channel_flush zs flusher ctx1).1.channel.base.cache + length value
        ≤ (channel_flush zs flusher ctx1).1.channel.threshold
  channel_flush-space ctx1 value short well =
      let same = channel_flush-SameTable zs flusher ctx1 well in
      let value_fits : length value ≤ ctx1.channel.threshold = ground arith in
      omega (arith, same.threshold, channel_flush-empty zs flusher ctx1 well, value_fits)

  make_room-opened :
      (ctx1 : Ctx W) (value : List ℕ)
      → (make_room zs fl flusher ctx1 value).0 ≡ true
      → (make_room zs fl flusher ctx1 value).1.parent.state ≡ opened
      → ctx1.parent.state ≡ opened
  unfolding make_room
  make_room-opened ctx1 value =
      let room = (ctx1.channel.threshold + 2 ^ 64 - length ctx1.channel.base.cache) % 2 ^ 64 in
      elim (Bool-cases (ltb ctx1.channel.threshold (length value))) [
        | inl long ↦ rw long (λ ok well. cc)
        | inr short ↦ elim (Bool-cases (ltb room (length value))) [
          | inl full ↦ rw (short, full) (λ ok well. channel_flush-opened zs flusher ctx1 well)
          | inr fits ↦ rw (short, fits) (λ ok well. well)
        ]
      ]

  pub make_room-InTime :
      (ctx1 : Ctx W) (value : List ℕ)
      → InTime zs fl flusher version Holds flushes ctx ctx1 u ts
      → (make_room zs fl flusher ctx1 value).0 ≡ true
      → (make_room zs fl flusher ctx1 value).1.parent.state ≡ opened
      → InTime zs fl flusher version Holds flushes ctx (make_room zs fl flusher ctx1 value).1 u ts
  unfolding make_room
  make_room-InTime ctx1 value t =
      let room = (ctx1.channel.threshold + 2 ^ 64 - length ctx1.channel.base.cache) % 2 ^ 64 in
      elim (Bool-cases (ltb ctx1.channel.threshold (length value))) [
        | inl long ↦ rw long (λ ok well. cc)
        | inr short ↦ elim (Bool-cases (ltb room (length value))) [
          | inl full ↦ rw (short, full) (λ ok well. flushed-InTime ctx1 t well)
          | inr fits ↦ rw (short, fits) (λ ok well. t)
        ]
      ]

  -- What is left of the buffer takes the text.
  pub make_room-space :
      (ctx1 : Ctx W) (value : List ℕ)
      → InTime zs fl flusher version Holds flushes ctx ctx1 u ts
      → (make_room zs fl flusher ctx1 value).0 ≡ true
      → (make_room zs fl flusher ctx1 value).1.parent.state ≡ opened
      → length (make_room zs fl flusher ctx1 value).1.channel.base.cache + length value
        ≤ (make_room zs fl flusher ctx1 value).1.channel.threshold
  unfolding make_room
  make_room-space ctx1 value t =
      let room = (ctx1.channel.threshold + 2 ^ 64 - length ctx1.channel.base.cache) % 2 ^ 64 in
      elim (Bool-cases (ltb ctx1.channel.threshold (length value))) [
        | inl long ↦ rw long (λ ok well. cc)
        | inr short ↦ elim (Bool-cases (ltb room (length value))) [
          | inl full ↦ rw (short, full) (λ ok well. channel_flush-space ctx1 value short well)
          | inr fits ↦
              rw (short, fits)
                (λ ok well.
                  let value_fits : length value ≤ room = ground arith in
                  omega (arith, value_fits, t.low, t.following.slack, t.following.capacity))
        ]
      ]

  -- Where the reader of the output is behind the channel, the time and the name are injectable,
  -- and the injection of a text answers true and leaves the container open, the reader behind the
  -- new channel has exactly one row more: the time given in ticks, the name, the unit of the
  -- name's first injection and the value (a double may be the other zero); the buffer stays at or
  -- below its threshold. The format is not of version 1. The byte behind the memory of a sensor's
  -- first text is zero, where the source stores it without its terminator.
  pub inject_s-Injected :
      (value : List ℕ)
      → ctx.channel.stale ≡ []
      → (version == 1) ≡ false
      → IsU64 (length value)
      → (inject_s zs fl flusher memory ctx ts name unit value).0 ≡ true
      → (inject_s zs fl flusher memory ctx ts name unit value).1.parent.state ≡ opened
      → Injected zs fl flusher version Holds flushes ctx
          (inject_s zs fl flusher memory ctx ts name unit value).1
          u
          ts
          name
          unit
          (string value)
  unfolding inject_s
  inject_s-Injected value zero_behind hv h =
      let ctx1 = (ts_handler zs fl flusher ctx ts).1 in
      let ctx2 = (make_room zs fl flusher ctx1 value).1 in
      elim (Bool-cases (ts_handler zs fl flusher ctx ts).0) [
        | inr refused ↦ rw refused (unfold inject_fail in λ ok well. cc)
        | inl in_order ↦ elim (Bool-cases (make_room zs fl flusher ctx1 value).0) [
          | inr refused ↦ rw (in_order, refused) (unfold inject_fail in λ ok well. cc)
          | inl fits ↦
              rw (in_order, fits)
                (λ ok well.
                  let put = put_s memory ctx2.channel name unit value in
                  let opened2 =
                    finish-opened zs fl flusher version Holds flushes ctx2 put on_error count_string
                      ok well in
                  let t1 =
                    ts_handler-InTime zs fl flusher version Holds flushes ctx f i.low ts i.small
                      in_order (make_room-opened ctx1 value fits opened2) in
                  let t = make_room-InTime ctx1 value t1 fits opened2 in
                  finish-Injected zs fl flusher version Holds flushes ctx ts name unit
                    (string value) ctx2 t put on_error count_string
                    (make_room-space ctx1 value t1 fits opened2)
                    (put_s-PutSpec fl version
                      (record {
                        sync = t.following.sync;
                        chars = i.chars;
                        space = rw t.total i.space;
                      })
                      memory unit value (t.stale ∙ zero_behind) hv h)
                    ok well)
        ]
      ]
