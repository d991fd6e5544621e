-- ===== src/Pack/Flush/Outcome.antt =====
-- When a flush succeeds, and what it leaves behind.
use otic.Prelude.{
  ℕ, ◌-◌, ◌^◌, ◌<◌, Bool, true, false, some, List, length, ltb, ◌≡◌, ◌⊎◌, inl, inr, refl, ap, ◌∙◌,
  arith, Bool-cases, Option-cases,
}
use otic.Base.{Zstd}
use otic.Base.Types.{on_error, payload, meta_code, buffer_overflow, zstd, flush_failed}
use otic.Pack.Channel.{set_error}
use otic.Pack.Flush.{
  Ctx, Flusher, meta_data_size, channel_flush, flush_fail, flush_done, with_channel, with_context,
  parent_error,
}

module _ {W : Type 0} (zs : Zstd) (flusher : Flusher W) (ctx : Ctx W) where
  -- The compressor gave a block of 32 bits' length, and the flusher took its header and the block.
  pub record Flushed : Type 0 where
    pub out : List ℕ
    pub middle : W
    pub last : W
    pub compressed : zs.compress ctx.channel.base.cache_size ctx.channel.base.cache ≡ some out
    pub short : length out < 2 ^ 32
    pub header :
        flusher
          (meta_data_size (meta_code payload) ctx.channel.channel_id (length out))
          ctx.parent.context
        ≡ (true, middle)
    pub block : flusher out middle ≡ (true, last)
    pub result :
        channel_flush zs flusher ctx
        ≡ (true, with_channel (with_context ctx last) (flush_done ctx.channel))

  -- A flush that failed: both states say so, and the buffer still holds its bytes.
  pub record NotFlushed : Type 0 where
    pub answer : (channel_flush zs flusher ctx).0 ≡ false
    pub state : (channel_flush zs flusher ctx).1.channel.base.state ≡ on_error
    pub parent_state : (channel_flush zs flusher ctx).1.parent.state ≡ on_error
    pub kept : (channel_flush zs flusher ctx).1.channel.base.cache ≡ ctx.channel.base.cache

  flush_fail-NotFlushed :
      (ctx' : Ctx W)
      → channel_flush zs flusher ctx ≡ flush_fail ctx'
      → ctx'.channel.base.cache ≡ ctx.channel.base.cache
      → NotFlushed
  unfolding flush_fail
  flush_fail-NotFlushed ctx' e same = record {
    answer = ap (λ (r : Bool × Ctx W). r.0) e;
    state = ap (λ (r : Bool × Ctx W). r.1.channel.base.state) e;
    parent_state = ap (λ (r : Bool × Ctx W). r.1.parent.state) e;
    kept = ap (λ (r : Bool × Ctx W). r.1.channel.base.cache) e ∙ same;
  }

  abbrev capacity : ℕ
  capacity = ctx.channel.base.cache_size

  module _ (out : List ℕ) (compressed : zs.compress capacity ctx.channel.base.cache ≡ some out)
      (short : ltb (2 ^ 32 - 1) (length out) ≡ false) where
    abbrev meta : List ℕ
    meta = meta_data_size (meta_code payload) ctx.channel.channel_id (length out)

    abbrev one : Bool × W
    one = flusher meta ctx.parent.context

    abbrev two : Bool × W
    two = flusher out one.1

    sends : Flushed ⊎ NotFlushed
    unfolding channel_flush
    sends = elim (Bool-cases one.0) [
      | inl sent ↦ elim (Bool-cases two.0) [
        | inl taken ↦ inl (record {
          out = out;
          middle = one.1;
          last = two.1;
          compressed = compressed;
          short = ground arith;
          header = λ i. (sent i, one.1);
          block = λ i. (taken i, two.1);
          result = rw (compressed, channel_flush) (rw (short, sent, taken));
        })
        | inr refused ↦ inr (
            flush_fail-NotFlushed
              (with_channel (with_context ctx two.1) (set_error ctx.channel flush_failed))
              (rw (compressed, channel_flush) (rw (short, sent, refused))) refl)
      ]
      | inr refused ↦ inr (
          flush_fail-NotFlushed
            (with_channel (with_context ctx one.1) (set_error ctx.channel flush_failed))
            (rw (compressed, channel_flush) (rw (short, refused))) refl)
    ]

  -- Every flush either compressed the buffer, had its header of type, channel and 32-bit length
  -- and then its block taken by the flusher, answers true and leaves an empty buffer; or answers
  -- false, sets the states of the channel and of the container to the error state and keeps the
  -- buffer.
  pub channel_flush_cases : Flushed ⊎ NotFlushed
  unfolding channel_flush
  channel_flush_cases = elim (Option-cases (zs.compress capacity ctx.channel.base.cache)) [
    | inl p ↦ inr (
        flush_fail-NotFlushed (with_channel ctx (set_error ctx.channel zstd))
          (rw (p, channel_flush)) refl)
    | inr (out, p) ↦ elim (Bool-cases (ltb (2 ^ 32 - 1) (length out))) [
      | inl q ↦ inr (
          flush_fail-NotFlushed (parent_error ctx buffer_overflow) (rw (p, channel_flush) (rw q))
            refl)
      | inr q ↦ sends out p q
    ]
  ]
