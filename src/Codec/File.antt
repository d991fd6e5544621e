-- ===== src/Codec/File.antt =====
-- A file between the packer and the reader: the flusher appends to it, and the fetcher takes from
-- its front.
use otic.Prelude.{
  ℕ, ◌^◌, ◌≤◌, ◌<◌, Bool, true, false, Option, none, some, List, [], ◌∷◌, ◌++◌, length, append-nil,
  ltb, ◌>>=◌, ◌==◌, ==_refl, ◌≡◌, refl, sym, ap, ◌∙◌, arith, inl, inr, Bool-cases,
}
use otic.Prelude.Bytes.{le_bytes, le_read, le_read-le_bytes, length-le_bytes}
use otic.Base.{Floating, Zstd}
use otic.Base.Types.{payload, meta_code}
use otic.Pack.Flush.{Flusher, meta_data_size}
use otic.Unpack.Channel.{Channel}
use otic.Unpack.Read.{split}
use otic.Unpack.Block.{parse_block}
use otic.Unpack.Container.{Unpack, Fetcher, find_channel, update_channel, set_channel}
use otic.Unpack.Parse.{
  parse, parse_header, parse_meta, meta_of_code, fetch_size, fetch_or_fail, read_data, after_fetch,
  after_decompress, with_data,
}
use otic.Codec.Reads.{at}
use otic.Codec.Records.{split-append}

-- What the code relies on of the zstd library: a result fits the capacity that was given, and it
-- decompresses to its source wherever the source fits.
pub record ZstdLaws (zs : Zstd) : Type 0 where
  pub bounded :
      (capacity : ℕ) (source out : List ℕ)
      → zs.compress capacity source ≡ some out
      → length out ≤ capacity
  pub restores :
      (capacity capacity' : ℕ) (source out : List ℕ)
      → zs.compress capacity source ≡ some out
      → length source ≤ capacity'
      → zs.decompress capacity' out ≡ some source

abbrev pub to_file : Flusher (List ℕ)
to_file bytes file = (true, file ++ bytes)

abbrev taken : List ℕ → Option (List ℕ × List ℕ) → Option (List ℕ) × List ℕ
taken file none = (none, file)
taken file (some (front, back)) = (some front, back)

unfoldable pub from_file : Fetcher (List ℕ)
from_file n file = taken file (split n file)

pub from_file-append :
    (bytes rest : List ℕ) (n : ℕ)
    → length bytes ≡ n
    → from_file n (bytes ++ rest) ≡ (some bytes, rest)
unfolding from_file
from_file-append bytes rest n e = rw (sym e, split-append bytes rest) refl

-- The reader with another file in front of it.
abbrev pub on : Unpack (List ℕ) → List ℕ → Unpack (List ℕ)
on up file = record up { context = file }

pub find-update :
    (cs : List Channel) (id : ℕ) (c : Channel) {c0 : Channel}
    → find_channel cs id ≡ some c0
    → c.channel_id ≡ id
    → find_channel (update_channel cs id c) id ≡ some c
unfolding find_channel update_channel
find-update [] id c h same = cc
find-update (c' ∷ cs) id c {c0} h same = elim (Bool-cases (c'.channel_id == id)) [
  | inl p ↦ rw (p, find_channel, same, ==_refl id) refl
  | inr p ↦ rw (p, find_channel, p) (find-update cs id c {c0 = c0} (rw p at h) same)
]

module _ (zs : Zstd) (fl : Floating) where
  abbrev pub step : Unpack (List ℕ) → Option (Bool × Unpack (List ℕ))
  step up = parse zs fl from_file none true up

  -- Calls of `otic_unpack_parse` that all succeed.
  pub data Parses : Unpack (List ℕ) → Unpack (List ℕ) → Type 0 where
    stop : {up : Unpack (List ℕ)} → Parses up up
    more :
        {up up1 up2 : Unpack (List ℕ)} → step up ≡ some (true, up1) → Parses up1 up2 → Parses up up2

  pub Parses-append :
      {up up1 up2 : Unpack (List ℕ)} → Parses up up1 → Parses up1 up2 → Parses up up2
  Parses-append stop p = p
  Parses-append (more t p) q = more t (Parses-append p q)

  pub step-meta :
      (up : Unpack (List ℕ)) (type id : ℕ) (rest : List ℕ)
      → step (on up (type ∷ id ∷ rest))
        ≡ parse_meta zs fl from_file none true
            (meta_of_code type)
            (find_channel up.channels id)
            (on up rest)
  unfolding parse from_file split with_data after_fetch parse_header
  step-meta up type id rest = refl

  pub fetch_or_fail-file :
      (up : Unpack (List ℕ)) (bytes rest : List ℕ) (n : ℕ)
      (next : List ℕ → Unpack (List ℕ) → Option (Bool × Unpack (List ℕ)))
      → length bytes ≡ n
      → fetch_or_fail zs fl from_file none n (on up (bytes ++ rest)) next ≡ next bytes (on up rest)
  unfolding fetch_or_fail with_data after_fetch
  fetch_or_fail-file up bytes rest n next e = rw (from_file-append bytes rest n e) refl

  pub fetch_size-file :
      (up : Unpack (List ℕ)) (size : ℕ) (rest : List ℕ)
      (next : ℕ → Unpack (List ℕ) → Option (Bool × Unpack (List ℕ)))
      → size < 2 ^ 32
      → fetch_size zs fl from_file none (on up (le_bytes 4 size ++ rest)) next
        ≡ next size (on up rest)
  unfolding fetch_size
  fetch_size-file up size rest next h =
      let whole : le_read 4 (le_bytes 4 size) ≡ some (size, []) =
        ap (le_read 4) (sym (append-nil (le_bytes 4 size))) ∙ le_read-le_bytes 4 size [] h in
      fetch_or_fail-file up (le_bytes 4 size) rest 4
        (λ bytes up1. le_read 4 bytes >>= λ (size, rest). next size up1) (length-le_bytes 4 size)
      ∙ rw whole refl

  -- A block of data for a channel that is read.
  module _ (up : Unpack (List ℕ)) (id : ℕ) (u : Channel)
      (found : find_channel up.channels id ≡ some u) (same : u.channel_id ≡ id)
      (out records : List ℕ) (short : length out < 2 ^ 32) (room : length out ≤ u.base.cache_size)
      (restored : zs.decompress u.base.cache_size out ≡ some records) {u' : Channel}
      (parsed : parse_block fl up.version (at u records) ≡ some u') where
    records_read :
        (rest : List ℕ)
        → after_decompress zs fl from_file none (some records) (on up rest) u
          ≡ some (true, set_channel (on up rest) id u')
    unfolding after_decompress
    records_read rest = rw (parsed, same) refl

    read_data-block :
        (rest : List ℕ)
        → read_data zs fl from_file none (on up (out ++ rest)) u (length out)
          ≡ some (true, set_channel (on up rest) id u')
    unfolding read_data with_data after_fetch
    read_data-block rest =
        let fits : ltb u.base.cache_size (length out) ≡ false = ground arith in
        rw (fits, from_file-append out rest (length out) refl) (rw restored (records_read rest))

    pub step-payload :
        (rest : List ℕ)
        → step (on up (meta_data_size (meta_code payload) id (length out) ++ (out ++ rest)))
          ≡ some (true, set_channel (on up rest) id u')
    unfolding parse_meta meta_data_size meta_code meta_of_code
    step-payload rest =
        step-meta up 4 id (le_bytes 4 (length out) ++ (out ++ rest))
        ∙ rw found (
            fetch_size-file up (length out) (out ++ rest)
              (λ size up1. read_data zs fl from_file none up1 u size) short
            ∙ read_data-block rest)
