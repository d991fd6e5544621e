-- ===== src/Codec/Accept/Whole.antt =====
-- A whole file whose injections are all taken: no answer of a call has to be assumed.
use otic.Prelude.{
  ℕ, ◌+◌, ◌/◌, ◌⊎◌, inl, inr, length-append, ◌-◌, ◌^◌, ◌≤◌, ◌<◌, true, List, [], ◌∷◌, length, All,
  ◌≡◌, refl, ap, ◌∙◌, arith,
}
use otic.Base.{Floating, Zstd, base_init}
use otic.Base.Types.{ChannelType, opened}
use otic.Pack.Channel.{LeftOver}
use otic.Pack.Flush.{Ctx, Flusher, Parent}
use otic.Pack.Container as Packer
use otic.Pack.Container.{Pack, channel_close}
use otic.Unpack.Channel.{Channel}
use otic.Unpack.Container as Reader
use otic.Codec.Session.{Injection, IsInjection, Accepted, Accepted-Session, empty-GivenUnits}
use otic.Codec.File.{ZstdLaws, to_file}
use otic.Codec.Following.{Flushes, Following}
use otic.Codec.Holds.{Holds, file-Flushes}
use otic.Codec.Begin.{header, new_reader, begin-Following}
use otic.Codec.Close.{ended, ended-Following, closed_parent}
use otic.Codec.RoundTrip.{Delivered, closing, new_ctx, file_round_trip}
use otic.Leb128.{encode_unsigned}
use otic.Codec.Sizes.{number_short}
use otic.Codec.Accept.{Taking, Ample, channel_flush-taken, bound_within, compress_bound}
use otic.Codec.Accept.Session.{run, cost, Chronological, FitsIn, run-Accepted, first-Begins}

module _ {W : Type 0} (zs : Zstd) (fl : Floating) (flusher : Flusher W) (version : ℕ)
    (Holds : ℕ → ℕ → W → Channel → Type 0) (flushes : Flushes zs fl flusher version Holds)
    (taking : Taking zs flusher) where
  -- Closing a channel with the reader behind it leaves the container open.
  pub channel_close-taken :
      (ctx : Ctx W) {u : Channel} (f : Following zs fl flusher version Holds ctx u)
      → length ctx.channel.base.cache ≤ ctx.channel.threshold
      → ((n : ℕ)
          → n ≤ length ctx.channel.base.cache + 11
          → compress_bound n ≤ ctx.channel.base.cache_size)
      → ctx.parent.state ≡ opened
      → (pack : Pack W) → pack.parent ≡ ctx.parent
      → (channel_close zs flusher pack ctx.channel).1.parent.state ≡ opened
  channel_close-taken ctx f low bounded state pack same =
      let last = record ctx { channel = ended zs fl flusher version Holds flushes ctx f low } in
      let e = ended-Following zs fl flusher version Holds flushes ctx f low in
      let flushed = channel_flush-taken zs flusher taking last state e.capacity (
        bounded (length last.channel.base.cache) (
          omega (
            arith,
            length-append ctx.channel.base.cache
                (216 ∷ encode_unsigned ctx.channel.base.row_counter),
            number_short ctx.channel.base.row_counter f.sync.rows_fit,
          ))) in
      ap (λ (p : Parent W). p.state)
        (closed_parent zs fl flusher version Holds flushes ctx f low pack same)
      ∙ flushed.1

-- A small channel, or one that holds what the injections take with room for its compression.
abbrev pub HasRoom : ℕ → List Injection → Type 0
HasRoom size js = (size ≤ 2 ^ 15) ⊎ (cost js + cost js / 256 + 600 ≤ size)

HasRoom-Ample :
    (size : ℕ) (js : List Injection) → HasRoom size js → Ample (size - 512) (0 + cost js)
HasRoom-Ample size js (inl small) = inl (omega (arith, small))
HasRoom-Ample size js (inr ample) = inr (omega (arith, ample))

bound_in_room :
    (n total size : ℕ) → n ≤ total + 11 → total + total / 256 + 600 ≤ size → compress_bound n ≤ size
bound_in_room n total size h room = ground arith

-- The last buffer of a run.
last_bound :
    (size used capacity n : ℕ) (js : List Injection)
    → HasRoom size js
    → 512 ≤ size
    → size ≤ capacity
    → used ≤ size - 512
    → used ≤ cost js
    → n ≤ used + 11
    → compress_bound n ≤ capacity
last_bound size used capacity n js (inl small) large fits low spent h =
    bound_within n (size - 512) capacity (omega (arith, h, low)) (omega (arith, large, fits))
      (omega (arith, small))
last_bound size used capacity n js (inr ample) large fits low spent h =
    let within = bound_in_room n (cost js) size (omega (arith, h, spent)) ample in
    omega (arith, within, fits)

module _ (zs : Zstd) (fl : Floating) (left_over : LeftOver) (left_read : ℕ) (type : ChannelType)
    (id size features : ℕ) where
  abbrev NewHolds : ℕ → ℕ → List ℕ → Channel → Type 0
  NewHolds =
      Holds zs fl 2 (new_reader fl left_over left_read type id size features)
        (header fl left_over left_read type id size features)

  -- The container and its file after the injections and the closing of the channel.
  abbrev pub packed : List Injection → Parent (List ℕ)
  packed js =
      closing zs fl left_over left_read type id size features
        (run zs fl to_file (new_ctx zs fl left_over left_read type id size features) js)

  -- Every injection answers true and leaves the container open.
  pub file-Accepted :
      (laws : ZstdLaws zs) (taking : Taking zs to_file) (js : List Injection)
      → left_over.stale ≡ []
      → 512 ≤ size
      → size < 2 ^ 32
      → HasRoom size js
      → All (IsInjection fl) js
      → All (FitsIn (size - 512)) js
      → Chronological fl js
      → length js < 2 ^ 16
      → let start = new_ctx zs fl left_over left_read type id size features in
        Accepted zs fl to_file true start js (run zs fl to_file start js)
        × ((run zs fl to_file start js).parent.state ≡ opened)
        × (length (run zs fl to_file start js).channel.base.cache ≤ cost js)
  unfolding Packer.channel_init Reader.channel_init base_init
  file-Accepted laws taking js zero_behind large small spacious ok fit order room =
      let flushes =
        file-Flushes zs fl 2 (new_reader fl left_over left_read type id size features)
          (header fl left_over left_read type id size features) laws in
      let begin = begin-Following fl left_over left_read type id size features zs large small in
      let start = new_ctx zs fl left_over left_read type id size features in
      let threshold : start.channel.threshold ≡ size - 512 = omega arith in
      let (answers, state, spent) =
        run-Accepted zs fl to_file 2 NewHolds flushes taking refl start js begin refl zero_behind
          (rw threshold (HasRoom-Ample size js spacious)) (omega arith) ok (rw threshold fit)
          (first-Begins zs fl to_file 2 NewHolds flushes taking refl start js order refl)
          (omega (arith, room)) in
      (answers, state, omega (arith, spent))

  -- For a compressor that keeps the laws of zstd and compresses every source for whose length
  -- ZSTD_compressBound is within the capacity, on a file with one channel of at least 512 and
  -- fewer than 2^32 bytes, which either has at most 32768 bytes or has room for what the
  -- injections take, 311 bytes and the text for each, a 256th of it and 600 bytes more, and with
  -- fewer than 65536 injections of valid values in the order of their times, each with a name and
  -- a unit of at most 254 bytes together and a text that is no longer than the channel's size
  -- less 512: the container is open to the end, and a reader of the file gets a row for every
  -- injection, in their order, each with its time, name and value, and the unit of this injection
  -- or of an earlier one of the same name. The byte behind the memory of a sensor's first text is
  -- zero, where the source stores it without its terminator.
  pub file_delivers :
      (laws : ZstdLaws zs) (taking : Taking zs to_file) (js : List Injection)
      → left_over.stale ≡ []
      → 512 ≤ size
      → size < 2 ^ 32
      → HasRoom size js
      → All (IsInjection fl) js
      → All (FitsIn (size - 512)) js
      → Chronological fl js
      → length js < 2 ^ 16
      → ((packed js).state ≡ opened)
        × Delivered zs fl left_over left_read type id size features (packed js).context js
  unfolding Packer.channel_init Reader.channel_init base_init
  file_delivers laws taking js zero_behind large small spacious ok fit order room =
      let flushes =
        file-Flushes zs fl 2 (new_reader fl left_over left_read type id size features)
          (header fl left_over left_read type id size features) laws in
      let begin = begin-Following fl left_over left_read type id size features zs large small in
      let start = new_ctx zs fl left_over left_read type id size features in
      let (answers, state, spent) =
        file-Accepted laws taking js zero_behind large small spacious ok fit order room in
      let s =
        Accepted-Session zs fl to_file 2 NewHolds flushes true refl [] answers (empty-GivenUnits [])
          begin zero_behind (omega arith) ok (omega (arith, room)) in
      let end = run zs fl to_file start js in
      let pack : Pack (List ℕ) = record { channels = end.channel ∷ []; parent = end.parent } in
      let closes =
        channel_close-taken zs fl to_file 2 NewHolds flushes taking end s.following s.low
          (λ n h.
            let at_start : start.channel.threshold ≡ size - 512 = omega arith in
            last_bound size (length end.channel.base.cache) end.channel.base.cache_size n js
              spacious large (omega (arith, s.following.slack, s.threshold, at_start, large))
              (omega (arith, s.low, s.threshold, at_start)) spent h)
          state pack refl in
      (
        closes,
        file_round_trip zs fl left_over left_read type id size features laws true js end zero_behind
            large small ok room answers closes,
      )
