-- ===== src/Codec/RoundTrip.antt =====
-- A whole file: everything that was injected into its channel is what a reader of it delivers.
use otic.Prelude.{
  ℕ, ◌^◌, ◌≤◌, ◌<◌, Bool, true, some, List, [], ◌∷◌, length, append-nil, All, ◌≡◌, refl, arith,
}
use mathlib.Core.Path.{subst}
use otic.Base.{Floating, Zstd, base_init}
use otic.Base.Types.{ChannelType, opened}
use otic.Pack.Channel.{LeftOver}
use otic.Pack.Flush.{Ctx, Parent}
use otic.Pack.Container as Packer
use otic.Pack.Container.{Pack, channel_close}
use otic.Unpack.Channel.{Channel}
use otic.Unpack.Container as Reader
use otic.Unpack.Container.{Unpack, find_channel}
use otic.Codec.Reads.{at}
use otic.Codec.Session.{
  Injection, IsInjection, AllShow, Accepted, Accepted-Session, empty-GivenUnits,
}
use otic.Codec.File.{ZstdLaws, to_file, from_file, on, Parses}
use otic.Codec.Holds.{Holds, file-Flushes}
use otic.Codec.Begin.{header, new_channel, new_reader, reader_opens, begin-Following}
use otic.Codec.Close.{channel_close-Holds}

module _ (zs : Zstd) (fl : Floating) (left_over : LeftOver) (left_read : ℕ) (type : ChannelType)
    (id size features : ℕ) where
  -- What a reader of the file does: it opens the file, its channel is defined, every call of
  -- `otic_unpack_parse` succeeds until the file is used up, and the rows of the channel show the
  -- injections in their order.
  pub record Delivered (file : List ℕ) (js : List Injection) : Type 0 where
    pub opening : Unpack (List ℕ)
    pub defined : Unpack (List ℕ)
    pub last : Unpack (List ℕ)
    pub channel : Channel
    pub opens : Reader.init from_file file ≡ some (true, opening)
    pub defines : Reader.define_channel true fl left_read opening id ≡ (true, defined)
    pub parses : Parses zs fl defined last
    pub all : last.context ≡ []
    pub found : find_channel last.channels id ≡ some channel
    pub shown : AllShow fl [] js channel.rows

  abbrev NewHolds : ℕ → ℕ → List ℕ → Channel → Type 0
  NewHolds =
      Holds zs fl 2 (new_reader fl left_over left_read type id size features)
        (header fl left_over left_read type id size features)

  held-Delivered :
      {file : List ℕ} {u : Channel} {js : List Injection} {bucket : ℕ}
      → NewHolds id bucket file u
      → AllShow fl [] js u.rows
      → Delivered file js
  held-Delivered {u = u} h shown =
      let start = new_reader fl left_over left_read type id size features in
      let opened' = reader_opens fl left_over left_read type id size features h.body in
      record {
        opening = record (on start h.body) { channels = [] };
        defined = on start h.body;
        last = on h.last [];
        channel = at u [];
        opens = rw h.behind opened'.0;
        defines = opened'.1;
        parses = rw append-nil at (h.parses []);
        all = refl;
        found = h.found;
        shown = shown;
      }

  -- The container with this channel alone, and what closing the channel leaves of it.
  abbrev pub closing : Ctx (List ℕ) → Parent (List ℕ)
  closing ctx =
      let pack : Pack (List ℕ) = record { channels = ctx.channel ∷ []; parent = ctx.parent } in
      (channel_close zs to_file pack ctx.channel).1.parent

  abbrev pub new_ctx : Ctx (List ℕ)
  new_ctx = new_channel fl left_over left_read type id size features

  -- For a compressor that keeps the laws of zstd, a new container on a file with one channel of
  -- 512 bytes or more, and fewer than 65536 injections of valid values that all answer true,
  -- where closing the channel leaves the container open: a reader opens the file, its channel is
  -- defined, every call of otic_unpack_parse succeeds until the file is used up, and the rows of
  -- the channel show the injections in their order, each with its time, name and value, and the
  -- unit of this injection or of an earlier one of the same name. The byte behind the memory of a
  -- sensor's first text is zero, where the source stores it without its terminator.
  pub file_round_trip :
      (laws : ZstdLaws zs) (memory : Bool) (js : List Injection) (ctx : Ctx (List ℕ))
      → left_over.stale ≡ []
      → 512 ≤ size
      → size < 2 ^ 32
      → All (IsInjection fl) js
      → length js < 2 ^ 16
      → Accepted zs fl to_file memory new_ctx js ctx
      → (closing ctx).state ≡ opened
      → Delivered (closing ctx).context js
  unfolding Packer.channel_init Reader.channel_init base_init
  file_round_trip laws memory js ctx zero_behind large small ok room run well =
      let flushes =
        file-Flushes zs fl 2 (new_reader fl left_over left_read type id size features)
          (header fl left_over left_read type id size features) laws in
      let begin = begin-Following fl left_over left_read type id size features zs large small in
      let s =
        Accepted-Session zs fl to_file 2 NewHolds flushes memory refl [] run (empty-GivenUnits [])
          begin zero_behind (omega arith) ok (omega (arith, room)) in
      let pack : Pack (List ℕ) = record { channels = ctx.channel ∷ []; parent = ctx.parent } in
      let held =
        channel_close-Holds zs fl to_file 2 NewHolds flushes ctx s.following s.low pack refl well in
      held-Delivered {u = s.reader}
        (subst (λ (n : ℕ). NewHolds n ctx.channel.base.cache_size (closing ctx).context s.reader)
          s.id held.0)
        (rw s.delivered s.shown)
