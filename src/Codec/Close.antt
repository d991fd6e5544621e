-- ===== src/Codec/Close.antt =====
-- The end of a channel: the record with the number of rows, the last flush, and what a reader of
-- the file has then.
use otic.Prelude.{
  ℕ, ◌≤◌, ◌∷◌, ◌++◌, length, length-append, append_assoc, ==_refl, ◌≡◌, refl, sym, ap, ◌∙◌, arith,
  inl, inr, Option-cases,
}
use otic.Base.{Floating, Zstd}
use otic.Base.Types.{opened, type_code}
use otic.Leb128.{encode_unsigned}
use otic.Pack.Channel as Packing
use otic.Pack.Channel.{write_type, write_long}
use otic.Pack.Flush.{Ctx, Flusher, Parent, channel_flush, with_channel, with_context, flush_done}
use otic.Pack.Flush.Outcome.{channel_flush_cases}
use otic.Pack.Container.{Pack, channel_close, find_channel}
use otic.Unpack.Channel as Unpacking
use otic.Codec.Reads.{Reads, Reads-one, Reads-append}
use otic.Codec.Headers.{eof_record, checked}
use otic.Codec.Sizes.{number_short}
use otic.Codec.Following.{Flushes, Following, opened≢on_error}

module _ {W : Type 0} (zs : Zstd) (fl : Floating) (flusher : Flusher W) (version : ℕ)
    (Holds : ℕ → ℕ → W → Unpacking.Channel → Type 0) (flushes : Flushes zs fl flusher version Holds)
    (ctx : Ctx W) {u : Unpacking.Channel} (f : Following zs fl flusher version Holds ctx u)
    (low : length ctx.channel.base.cache ≤ ctx.channel.threshold) where
  abbrev c : Packing.Channel
  c = ctx.channel

  -- The channel with the record of its end.
  abbrev pub ended : Packing.Channel
  ended = record c {
    base = record (c.base) { cache = c.base.cache ++ (216 ∷ encode_unsigned c.base.row_counter) };
  }

  -- The reader counted as many rows, so the record changes nothing.
  checked_same : checked fl version u c.base.row_counter ≡ u
  checked_same = rw (f.sync.counters, ==_refl c.base.row_counter) refl

  -- The record of the row count leaves the reader as it is, where it would set an error otherwise.
  last_read : Reads fl version u (216 ∷ encode_unsigned c.base.row_counter) u
  last_read = rw checked_same at (
      Reads-one fl version {v = checked fl version u c.base.row_counter} 216
        (encode_unsigned c.base.row_counter)
        (eof_record fl version u c.base.row_counter f.sync.rows_fit))

  pub ended-Following : Following zs fl flusher version Holds (record ctx { channel = ended }) u
  ended-Following =
      let count = c.base.row_counter in
      record {
        before = f.before;
        holds = f.holds;
        reads = Reads-append fl version (216 ∷ encode_unsigned count) f.reads last_read;
        sync = record {
          table = f.sync.table;
          counters = f.sync.counters;
          times = f.sync.times;
          time_fits = f.sync.time_fits;
          unfiltered = f.sync.unfiltered;
          room = f.sync.room;
          rows_fit = f.sync.rows_fit;
          size = f.sync.size;
          id = f.sync.id;
        };
        fits = omega (
          arith,
          length-append c.base.cache (216 ∷ encode_unsigned count),
          number_short count f.sync.rows_fit,
          low,
        );
        slack = f.slack;
        capacity = f.capacity;
      }

  pub closed_parent :
      (pack : Pack W)
      → pack.parent ≡ ctx.parent
      → (channel_close zs flusher pack c).1.parent
        ≡ (channel_flush zs flusher (record ctx { channel = ended })).1.parent
  unfolding channel_close write_type write_long type_code
  closed_parent pack same = elim (Option-cases (find_channel pack.channels c.channel_id)) [
    | inl absent ↦ rw (absent, channel_close, same) (rw append_assoc refl)
    | inr (c', found) ↦ rw (found, channel_close, same) (rw append_assoc refl)
  ]

  closed-Holds :
      (pack : Pack W)
      → pack.parent ≡ ctx.parent
      → (channel_close zs flusher pack c).1.parent.state ≡ opened
      → Holds c.channel_id c.base.cache_size (channel_close zs flusher pack c).1.parent.context u
  closed-Holds pack same well =
      elim (channel_flush_cases zs flusher (record ctx { channel = ended })) [
        | inr failed ↦ absurd (
            opened≢on_error (
              sym well
              ∙ ap (λ (p : Parent W). p.state) (closed_parent pack same)
              ∙ failed.parent_state))
        | inl sent ↦
            let e = ended-Following in
            rw (closed_parent pack same, sent.result)
              (unfold with_channel with_context flush_done in
                flushes c.channel_id c.base.cache_size ended.base.cache sent.out ctx.parent.context
                  sent.middle sent.last e.before u sent.compressed sent.short sent.header sent.block
                  (omega (arith, e.fits, e.slack)) e.holds e.reads e.sync.size e.sync.id)
      ]

  -- Where the reader of the output is behind a channel whose buffer is at or below its threshold,
  -- and closing the channel leaves the container open: closing leaves the container as a flush of
  -- the buffer does to which the record of the end with the channel's number of rows was
  -- appended; the reader behind the channel has counted as many rows, and reads this record
  -- without a change; and the output holds everything up to this reader.
  pub channel_close-Holds :
      (pack : Pack W)
      → pack.parent ≡ ctx.parent
      → (channel_close zs flusher pack c).1.parent.state ≡ opened
      → Holds c.channel_id c.base.cache_size (channel_close zs flusher pack c).1.parent.context u
        × ((channel_close zs flusher pack c).1.parent
            ≡ (channel_flush zs flusher (record ctx {
              channel = record c {
                base = record (c.base) {
                  cache = c.base.cache ++ (216 ∷ encode_unsigned c.base.row_counter);
                };
              };
            })).1.parent)
        × Reads fl version u (216 ∷ encode_unsigned c.base.row_counter) u
        × (u.base.row_counter ≡ c.base.row_counter)
  channel_close-Holds pack same well =
      (closed-Holds pack same well, closed_parent pack same, last_read, f.sync.counters)
