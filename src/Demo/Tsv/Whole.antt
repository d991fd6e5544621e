-- ===== src/Demo/Tsv/Whole.antt =====
-- A table that is converted, and what a reader of the file gets.
use otic.Prelude.{
  ℕ, suc, ◌+◌, ◌-◌, ◌/◌, inr, ◌^◌, ◌≤◌, ◌<◌, Bool, true, false, if◌then◌else◌, ◌>>=◌, Option, some,
  List, [], ◌∷◌, map, length, All, ==_refl, ◌≡◌, refl, ap, ◌∙◌, arith,
}
use otic.Base.{Floating, Zstd}
use otic.Base.Types.{sensor, opened, closed}
use otic.Pack.Flush.{Ctx, Parent, Flusher}
use otic.Pack.Channel.{Channel, LeftOver}
use otic.Pack.Container as Packer
use otic.Pack.Container.{Pack, default_size, find_channel, channel_close}
use otic.Utility.Format.{Format, format_init}
use otic.Codec.Session.{IsInjection, Accepted}
use otic.Codec.File.{ZstdLaws, to_file}
use otic.Codec.Accept.{Taking}
use otic.Codec.Accept.Session.{run, cost, Chronological, FitsIn}
use otic.Codec.Accept.Whole.{file-Accepted, file_delivers}
use otic.Codec.RoundTrip.{Delivered, closing, new_ctx, file_round_trip}
use otic.Demo.Tsv.Compress.{Progress, read_size, compress_chunks, compress}
use otic.Demo.Tsv.Columns.{TableLine, IsLine, table_text, line_injection}
use otic.Demo.Tsv.Lines.{Ends, compress_chunks-Accepted}

-- Closing a container with one channel is closing the channel.
close-alone :
    {W : Type 0} (zs : Zstd) (flusher : Flusher W) (c : Channel) (p : Parent W)
    → let pack : Pack W = record { channels = c ∷ []; parent = p } in
      (Packer.close zs flusher pack).1.parent
      ≡ record ((channel_close zs flusher pack c).1.parent) { state = closed }
unfolding Packer.close Packer.close_channels channel_close find_channel
close-alone zs flusher c p = rw (channel_close, ==_refl c.channel_id) refl

module _ (zs : Zstd) (fl : Floating) (left_over : LeftOver) (left_read : ℕ)
    (strtod : List ℕ → ℕ) where
  abbrev start : Ctx (List ℕ)
  start = new_ctx zs fl left_over left_read sensor 1 default_size 0

  -- What the conversion leaves: the container is closed, and a reader of its file has the rows.
  pub record Converted (pack : Pack (List ℕ)) (ls : List TableLine) : Type 0 where
    pub parent : Parent (List ℕ)
    pub converts :
        compress zs fl to_file true strtod left_over pack [] (table_text ls) ≡ some (true, parent)
    pub closes : parent.state ≡ closed
    pub delivers :
        Delivered zs fl left_over left_read sensor 1 default_size 0 parent.context
          (map (line_injection strtod) ls)

  loops-compress :
      (pack : Pack (List ℕ)) (table : List ℕ) (end : Ctx (List ℕ))
      → Ends zs fl to_file true strtod end (
          compress_chunks zs fl to_file true strtod
            (suc (length table))
            start
            (record { delimiter = 9; size = 5; parsed = 0; content = [] })
            table)
      → compress zs fl to_file true strtod left_over pack [] table
        ≡ some (
          true,
          record (closing zs fl left_over left_read sensor 1 default_size 0 end) { state = closed },
        )
  unfolding compress Packer.init Packer.define_channel Packer.announcement Packer.send
      Packer.find_channel format_init
  loops-compress pack table end e =
      ap after e.ends
      ∙ ap (λ (p : Parent (List ℕ)). some (true, p)) (close-alone zs to_file end.channel end.parent)
    where
      after : Option (Progress (List ℕ)) → Option (Bool × Parent (List ℕ))
      after o = o >>= λ (p : Progress (List ℕ)).
          let end : Pack (List ℕ) = record {
            channels = p.ctx.channel ∷ [];
            parent = p.ctx.parent;
          } in
          if p.good
          then some (true, (Packer.close zs to_file end).1.parent)
          else some (false, p.ctx.parent)

  -- The conversion when all injections are known to be taken.
  answers-Converted :
      (laws : ZstdLaws zs) (pack : Pack (List ℕ)) (ls : List TableLine) (end : Ctx (List ℕ))
      → left_over.stale ≡ []
      → All IsLine ls
      → length (table_text ls) ≤ read_size
      → All (IsInjection fl) (map (line_injection strtod) ls)
      → length (map (line_injection strtod) ls) < 2 ^ 16
      → Accepted zs fl to_file true start (map (line_injection strtod) ls) end
      → (closing zs fl left_over left_read sensor 1 default_size 0 end).state ≡ opened
      → Converted pack ls
  answers-Converted laws pack ls end zero_behind lines short ok room answers closes =
      let js = map (line_injection strtod) ls in
      let f : Format = record { delimiter = 9; size = 5; parsed = 0; content = [] } in
      let loops =
        compress_chunks-Accepted zs fl to_file true strtod ls (suc (length (table_text ls))) start
          end f lines (record { tab = refl; five = refl }) (omega arith) short answers in
      record {
        parent = record (closing zs fl left_over left_read sensor 1 default_size 0 end) {
          state = closed;
        };
        converts = loops-compress pack (table_text ls) end loops;
        closes = refl;
        delivers =
            file_round_trip zs fl left_over left_read sensor 1 default_size 0 laws true js end
              zero_behind (omega arith) (omega arith) ok room answers closes;
      }

  -- For a compressor that keeps the laws of zstd and compresses every source for whose length
  -- ZSTD_compressBound is within the capacity, and a table of at most 1047552 characters and
  -- fewer than 65536 lines, each of five columns without tabs and newlines and with a name, where
  -- the injections that are chosen for the lines have valid values, are in the order of their
  -- times, have names and units of at most 254 bytes together and texts no longer than the
  -- buffer's threshold, and take with room for their compression no more than the default buffer
  -- of 1638400 bytes, 311 bytes and the text for each: the conversion of the table comes to its
  -- end without a failure and closes the container, and a reader of the file gets a row for every
  -- line, in their order, each with its time, name and value, and the unit of this line or of an
  -- earlier one of the same name. The byte behind the memory of a sensor's first text is zero,
  -- where the source stores it without its terminator.
  pub compress-Converted :
      (laws : ZstdLaws zs) (taking : Taking zs to_file) (pack : Pack (List ℕ)) (ls : List TableLine)
      → left_over.stale ≡ []
      → All IsLine ls
      → length (table_text ls) ≤ read_size
      → All (IsInjection fl) (map (line_injection strtod) ls)
      → All (FitsIn (default_size - 512)) (map (line_injection strtod) ls)
      → Chronological fl (map (line_injection strtod) ls)
      → length (map (line_injection strtod) ls) < 2 ^ 16
      → (let bytes = cost (map (line_injection strtod) ls) in
          bytes + bytes / 256 + 600 ≤ default_size)
      → Converted pack ls
  compress-Converted laws taking pack ls zero_behind lines short ok fit order room spacious =
      let js = map (line_injection strtod) ls in
      let (answers, state, spent) =
        file-Accepted zs fl left_over left_read sensor 1 default_size 0 laws taking js zero_behind
          (omega arith) (omega arith) (inr spacious) ok fit order room in
      let (closes, delivered) =
        file_delivers zs fl left_over left_read sensor 1 default_size 0 laws taking js zero_behind
          (omega arith) (omega arith) (inr spacious) ok fit order room in
      answers-Converted laws pack ls (run zs fl to_file start js) zero_behind lines short ok room
        answers closes
