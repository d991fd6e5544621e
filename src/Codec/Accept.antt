-- ===== src/Codec/Accept.antt =====
-- When the packer takes what it is given: a flusher that takes every block and a compressor that
-- compresses every source that fits keep the container open, and a time in order is taken.
pub mod Puts
pub mod Inject
pub mod Session
pub mod Whole
use otic.Prelude.{
  ℕ, ◌+◌, ◌-◌, ◌/◌, ◌^◌, ◌≤◌, ◌<◌, Bool, true, false, some, List, [], ◌∷◌, ◌++◌, length,
  length-append, append_assoc, ltb, ◌==◌, ◌≡◌, ◌≢◌, ◌⊎◌, refl, sym, ap, ◌∙◌, arith, inl, inr,
  Bool-cases, if◌then◌else◌,
}
use otic.Base.{Base, Floating, Zstd, to_ticks, ts_null}
use otic.Base.Types.{opened, payload, meta_code, type_code}
use otic.Leb128.{encode_unsigned}
use otic.Pack.Channel as Packing
use otic.Pack.Flush.{
  Ctx, Flusher, meta_data_size, with_channel, with_context, channel_flush, flush_if_flushable,
  flush_done,
}
use otic.Pack.Inject.{ts_handler, set_time, shift_time}
use otic.Codec.Sizes.{number_short}
use otic.Codec.Times.{flush_if_flushable-SameTable, flush_if_flushable-shrinks}

-- `ZSTD_COMPRESSBOUND`
abbrev pub compress_bound : ℕ → ℕ
compress_bound n = n + n / 256 + (if ltb n (2 ^ 17) then (2 ^ 17 - n) / 2048 else 0)

-- A flusher that takes everything, and what zstd promises: a source is compressed whenever the capacity
-- is not below the bound of its length.
pub record Taking {W : Type 0} (zs : Zstd) (flusher : Flusher W) : Type 0 where
  pub takes : (bytes : List ℕ) (w : W) → (flusher bytes w).0 ≡ true
  pub compressed : ℕ → List ℕ → List ℕ
  pub compresses :
      (capacity : ℕ) (source : List ℕ)
      → compress_bound (length source) ≤ capacity
      → (zs.compress capacity source ≡ some (compressed capacity source))
        × (length (compressed capacity source) ≤ capacity)

-- The longest buffer that is flushed, 300 bytes above a threshold that is 512 bytes before the end,
-- has its bound within the buffer's size.
pub bound_within :
    (n threshold size : ℕ)
    → n ≤ threshold + 300
    → threshold + 512 ≤ size
    → threshold ≤ 32256
    → compress_bound n ≤ size
bound_within n threshold size fits slack tight = ground arith

-- A buffer of a small channel, or one of a length that needs no flush.
abbrev pub Ample : ℕ → ℕ → Type 0
Ample threshold n = (threshold ≤ 32256) ⊎ (n ≤ threshold)

pub Ample-less :
    (threshold threshold' m n : ℕ)
    → threshold' ≡ threshold
    → m ≤ n
    → Ample threshold n
    → Ample threshold' m
Ample-less threshold threshold' m n same less (inl small) = inl (omega (arith, same, small))
Ample-less threshold threshold' m n same less (inr short) = inr (omega (arith, same, less, short))

-- Where such a buffer is flushed, it can be compressed.
pub bound_when_full :
    (n threshold size : ℕ)
    → Ample threshold n
    → n ≤ threshold + 300
    → threshold + 512 ≤ size
    → ltb threshold n ≡ true
    → compress_bound n ≤ size
bound_when_full n threshold size (inl small) fits slack full =
    bound_within n threshold size fits slack small
bound_when_full n threshold size (inr short) fits slack full = absurd (ground arith)

-- A channel whose buffer is at or below its threshold, 512 bytes before its end, in an open
-- container.
pub record IsOpen {W : Type 0} (ctx : Ctx W) : Type 0 where
  pub state : ctx.parent.state ≡ opened
  pub low : length ctx.channel.base.cache ≤ ctx.channel.threshold
  pub slack : ctx.channel.threshold + 512 ≤ ctx.channel.base.cache_size
  pub capacity : ctx.channel.base.cache_size < 2 ^ 32
  pub tight : Ample ctx.channel.threshold (length ctx.channel.base.cache + 11)

module _ {W : Type 0} (zs : Zstd) (flusher : Flusher W) (t : Taking zs flusher) (ctx : Ctx W)
    (state : ctx.parent.state ≡ opened) (capacity : ctx.channel.base.cache_size < 2 ^ 32) where
  -- A flush is taken.
  pub channel_flush-taken :
      (fits : compress_bound (length ctx.channel.base.cache) ≤ ctx.channel.base.cache_size)
      → ((channel_flush zs flusher ctx).0 ≡ true)
        × ((channel_flush zs flusher ctx).1.parent.state ≡ opened)
        × ((channel_flush zs flusher ctx).1.channel.base.cache_size ≡ ctx.channel.base.cache_size)
  unfolding channel_flush with_channel with_context flush_done
  channel_flush-taken fits =
      let c = ctx.channel in
      let (e, short) = t.compresses c.base.cache_size c.base.cache fits in
      let out = t.compressed c.base.cache_size c.base.cache in
      let meta = meta_data_size (meta_code payload) c.channel_id (length out) in
      let no_overflow : ltb (2 ^ 32 - 1) (length out) ≡ false = ground arith in
      rw (e, channel_flush)
        (rw
          (
            no_overflow,
            t.takes meta ctx.parent.context,
            t.takes out (flusher meta ctx.parent.context).1,
          )
          (refl, state, refl))

  pub flush_if_flushable-taken :
      (ltb ctx.channel.threshold (length ctx.channel.base.cache) ≡ true
        → compress_bound (length ctx.channel.base.cache) ≤ ctx.channel.base.cache_size)
      → ((flush_if_flushable zs flusher ctx).parent.state ≡ opened)
        × ((flush_if_flushable zs flusher ctx).channel.base.cache_size
            ≡ ctx.channel.base.cache_size)
  unfolding flush_if_flushable
  flush_if_flushable-taken when_full =
      elim (Bool-cases (ltb ctx.channel.threshold (length ctx.channel.base.cache))) [
        | inl full ↦
            let flushed = channel_flush-taken (when_full full) in rw full (flushed.1, flushed.2)
        | inr below ↦ rw below (state, refl)
      ]

-- The answer of a handler or of an injection at a time: true, with the container open, the channel at
-- that time and its buffer no longer than some limit.
pub record Took {W : Type 0} (result : Bool × Ctx W) (ticks limit : ℕ) : Type 0 where
  pub short : length result.1.channel.base.cache ≤ limit
  pub answer : result.0 ≡ true
  pub state : result.1.parent.state ≡ opened
  pub now : result.1.channel.base.timestamp_current ≡ ticks

-- The time is not before the last one, if there was one.
abbrev pub InOrder : {W : Type 0} → Ctx W → ℕ → Type 0
InOrder ctx ticks =
    ctx.channel.base.timestamp_current ≢ ts_null → ctx.channel.base.timestamp_current ≤ ticks

module _ {W : Type 0} (zs : Zstd) (fl : Floating) (flusher : Flusher W) (t : Taking zs flusher)
    (ctx : Ctx W) (o : IsOpen ctx) where
  abbrev c : Packing.Channel
  c = ctx.channel

  -- What is flushed after a record of at most eleven bytes.
  timed-Took :
      (c' : Packing.Channel) (b : ℕ) (bs : List ℕ) (ticks : ℕ)
      → c'.base.cache ≡ c.base.cache ++ b ∷ bs
      → length bs ≤ 10
      → c'.base.cache_size ≡ c.base.cache_size
      → c'.base.timestamp_current ≡ ticks
      → c'.threshold ≡ c.threshold
      → Took
          (true, flush_if_flushable zs flusher (with_channel ctx c'))
          ticks
          (length c.base.cache + 11)
  unfolding with_channel
  timed-Took c' b bs ticks written short size now same =
      let longer : length c'.base.cache ≤ length c.base.cache + 11 =
        omega (arith, ap length written, length-append c.base.cache (b ∷ bs), short) in
      let flushed =
        flush_if_flushable-taken zs flusher t (with_channel ctx c') o.state
          (omega (arith, size, o.capacity))
          (bound_when_full (length c'.base.cache) c'.threshold c'.base.cache_size
            (Ample-less c.threshold c'.threshold (length c'.base.cache) (length c.base.cache + 11)
              same longer o.tight)
            (omega (arith, longer, o.low, same)) (omega (arith, o.slack, size, same))) in
      record {
        short =
            omega (
              arith,
              flush_if_flushable-shrinks zs flusher (with_channel ctx c') flushed.0,
              longer,
            );
        answer = refl;
        state = flushed.0;
        now = (flush_if_flushable-SameTable zs flusher (with_channel ctx c') flushed.0).now ∙ now;
      }

  -- A time in order is taken.
  pub ts_handler-Took :
      (ts : ℕ)
      → to_ticks fl ts < ts_null
      → InOrder ctx (to_ticks fl ts)
      → Took (ts_handler zs fl flusher ctx ts) (to_ticks fl ts) (length c.base.cache + 11)
  unfolding ts_handler set_time shift_time type_code
  ts_handler-Took ts small ordered =
      let ticks = to_ticks fl ts in
      elim (Bool-cases (c.base.timestamp_current == ticks)) [
        | inl same ↦
            rw same
              (record { short = omega arith; answer = refl; state = o.state; now = ground arith })
        | inr differs ↦ elim (Bool-cases (c.base.timestamp_current == ts_null)) [
          | inl unset ↦
              rw (differs, unset)
                (timed-Took _ 213 (encode_unsigned ticks) ticks (simp append_assoc)
                  (number_short ticks (omega arith)) refl refl refl)
          | inr set ↦
              let after : c.base.timestamp_current ≤ ticks = ordered (ground arith) in
              let in_order : ltb ticks c.base.timestamp_current ≡ false = ground arith in
              rw (differs, set, in_order)
                (timed-Took _ 214 (encode_unsigned (ticks - c.base.timestamp_current)) ticks
                  (simp append_assoc)
                  (number_short (ticks - c.base.timestamp_current) (omega arith)) refl refl refl)
        ]
      ]
