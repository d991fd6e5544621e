-- ===== src/Codec/Holds.antt =====
-- The file as the output of a packer: what it holds for the reader of a channel, and that every
-- flush keeps it so.
use otic.Prelude.{
  ℕ, ◌^◌, ◌≤◌, ◌<◌, Bool, some, List, [], ◌++◌, length, append_assoc, ◌≡◌, refl, ap, ◌∙◌, arith,
}
use mathlib.Core.Path.{subst}
use otic.Base.{Floating, Zstd}
use otic.Base.Types.{payload, meta_code}
use otic.Pack.Flush.{meta_data_size}
use otic.Unpack.Channel.{Channel}
use otic.Unpack.Block.{parse_block}
use otic.Unpack.Container.{Unpack, find_channel, set_channel}
use otic.Codec.Reads.{at, Reads, parse_block-Reads}
use otic.Codec.Following.{Flushes}
use otic.Codec.File.{
  ZstdLaws, Parses, Parses-append, stop, more, on, to_file, step-payload, find-update,
}

module _ (zs : Zstd) (fl : Floating) (version : ℕ) (start : Unpack (List ℕ)) (header : List ℕ) where
  -- A reader that starts behind the header of the file, whatever follows the file, gets over it,
  -- and its channel is then `u`.
  pub record Holds (id size : ℕ) (file : List ℕ) (u : Channel) : Type 0 where
    pub body : List ℕ
    pub behind : file ≡ header ++ body
    pub last : Unpack (List ℕ)
    pub parses : (rest : List ℕ) → Parses zs fl (on start (body ++ rest)) (on last rest)
    pub found : find_channel last.channels id ≡ some (at u [])
    pub sized : u.base.cache_size ≡ size
    pub named : u.channel_id ≡ id
    pub same_version : last.version ≡ version

  module _ (laws : ZstdLaws zs) where
    appended-Holds :
        (id capacity : ℕ) (cache out file : List ℕ) (u0 u : Channel)
        → zs.compress capacity cache ≡ some out
        → length out < 2 ^ 32
        → length cache ≤ capacity
        → Holds id capacity file u0
        → Reads fl version u0 cache u
        → u.base.cache_size ≡ capacity
        → u.channel_id ≡ id
        → Holds id capacity ((file ++ meta_data_size (meta_code payload) id (length out)) ++ out) u
    unfolding set_channel
    appended-Holds id capacity cache out file u0 u compressed short fits h reads sized named =
        let parsed : parse_block fl h.last.version (at u0 cache) ≡ some (at u []) =
          rw h.same_version (parse_block-Reads fl version reads) in
        let restored : zs.decompress u0.base.cache_size out ≡ some cache =
          laws.restores capacity u0.base.cache_size cache out compressed
            (omega (arith, fits, h.sized)) in
        let room : length out ≤ u0.base.cache_size =
          omega (arith, laws.bounded capacity cache out compressed, h.sized) in
        let meta = meta_data_size (meta_code payload) id (length out) in
        record {
          body = (h.body ++ meta) ++ out;
          behind =
              rw
                (
                  h.behind,
                  append_assoc header h.body meta,
                  append_assoc header (h.body ++ meta) out,
                )
                refl;
          last = set_channel h.last id (at u []);
          parses = λ rest.
              rw (append_assoc (h.body ++ meta) out rest, append_assoc h.body meta (out ++ rest))
                (Parses-append zs fl (h.parses (meta ++ (out ++ rest))) (
                  more
                    (step-payload zs fl h.last id (at u0 []) h.found h.named out cache short room
                      restored parsed rest)
                    stop));
          found = find-update h.last.channels id (at u []) h.found named;
          sized = sized;
          named = named;
          same_version = h.same_version;
        }

    -- A file that the flusher appends to is an output that holds what is flushed to it: where
    -- successful calls of otic_unpack_parse, from behind the header, use up a file and leave its
    -- channel as a reader, and the records of a block lead from this reader to another, then
    -- successful calls also use up the file with the block's header and its compressed block
    -- appended, and leave the channel as that other reader.
    pub file-Flushes : Flushes zs fl to_file version Holds
    file-Flushes id capacity cache out w w1 w2 u0 u compressed short header block fits h reads sized
          named =
        let e1 : w ++ meta_data_size (meta_code payload) id (length out) ≡ w1 =
          ap (λ (r : Bool × List ℕ). r.1) header in
        let e2 : w1 ++ out ≡ w2 = ap (λ (r : Bool × List ℕ). r.1) block in
        subst (λ (w' : List ℕ). Holds id capacity w' u) (ap (λ (t : List ℕ). t ++ out) e1 ∙ e2)
          (appended-Holds id capacity cache out w u0 u compressed short fits h reads sized named)
