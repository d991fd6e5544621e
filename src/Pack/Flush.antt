-- ===== src/Pack/Flush.antt =====
-- The flush of a packing channel: compression, the two writes and the ways to fail.
pub mod Outcome
use otic.Prelude.{
  ℕ, ◌-◌, ◌^◌, Bool, true, false, none, some, List, [], ◌∷◌, length, ltb, if◌then◌else◌,
}
use otic.Prelude.Bytes.{le_bytes}
use otic.Base.{Base, Zstd, increment}
use otic.Base.Types.{
  OticError, OticState, on_error, buffer_overflow, zstd, flush_failed, payload, meta_code,
}
use otic.Pack.Channel.{Channel, Stats, set_error, set_state}

-- The part of `otic_pack_t` that a channel uses, through `info.parent`.
pub record Parent (W : Type 0) : Type 0 where
  pub error : OticError
  pub state : OticState
  pub context : W

-- A channel with its parent. `context` is what the flusher's `data` points to.
pub record Ctx (W : Type 0) : Type 0 where
  pub channel : Channel
  pub parent : Parent W

-- `otic_meta_data_size_t`, a packed struct: type, channel, and a size of four bytes.
unfoldable pub meta_data_size : ℕ → ℕ → ℕ → List ℕ
meta_data_size type id size = type ∷ id ∷ le_bytes 4 size

-- The flusher is given the bytes, and answers whether it took them.
abbrev pub Flusher : Type 0 → Type 0
Flusher W = List ℕ → W → Bool × W

module _ {W : Type 0} where
  unfoldable pub with_channel : Ctx W → Channel → Ctx W
  with_channel ctx c = record ctx { channel = c }

  unfoldable pub with_context : Ctx W → W → Ctx W
  with_context ctx w = record ctx { parent = record (ctx.parent) { context = w } }

  unfoldable pub parent_error : Ctx W → OticError → Ctx W
  parent_error ctx e = record ctx { parent = record (ctx.parent) { error = e } }

  unfoldable pub parent_state : Ctx W → OticState → Ctx W
  parent_state ctx s = record ctx { parent = record (ctx.parent) { state = s } }

-- `fail:` of `otic_pack_channel_flush`
unfoldable pub flush_fail : {W : Type 0} → Ctx W → Bool × Ctx W
unfolding with_channel parent_state set_state
flush_fail ctx = (false, parent_state (with_channel ctx (set_state ctx.channel on_error)) on_error)

-- The buffer is empty again.
unfoldable pub flush_done : Channel → Channel
flush_done c = record c {
  base = record (c.base) { cache = [] };
  stats = record (c.stats) { blocks_written = increment c.stats.blocks_written };
}

module _ {W : Type 0} (zs : Zstd) (flusher : Flusher W) where
  -- `otic_pack_channel_flush`: compress the buffer, then write its header and the result.
  unfoldable pub channel_flush : Ctx W → Bool × Ctx W
  unfolding flush_fail flush_done with_channel with_context parent_error set_error meta_data_size
  channel_flush ctx =
      let c = ctx.channel in
      elim (zs.compress c.base.cache_size c.base.cache) [
        | none ↦ flush_fail (with_channel ctx (set_error c zstd))
        | some out ↦
            if ltb (2 ^ 32 - 1) (length out)
            then flush_fail (parent_error ctx buffer_overflow)
            else let meta = meta_data_size (meta_code payload) c.channel_id (length out) in
              let (sent, w1) = flusher meta ctx.parent.context in
              let (taken, w2) = flusher out w1 in
              if sent
              then if taken
                then (true, with_channel (with_context ctx w2) (flush_done c))
                else flush_fail (with_channel (with_context ctx w2) (set_error c flush_failed))
              else flush_fail (with_channel (with_context ctx w1) (set_error c flush_failed))
      ]

  -- `otic_pack_flush_if_flushable`: the result of the flush is not used.
  unfoldable pub flush_if_flushable : Ctx W → Ctx W
  unfolding channel_flush
  flush_if_flushable ctx =
      let c = ctx.channel in
      if ltb c.threshold (length c.base.cache) then (channel_flush ctx).1 else ctx
