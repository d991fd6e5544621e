-- ===== src/Codec/Begin.antt =====
-- The beginning of a file: a container with one channel, and the reader of what they announce.
use otic.Prelude.{
  ℕ, ◌+◌, ◌^◌, ◌≤◌, ◌<◌, true, false, none, some, List, [], ◌∷◌, ◌++◌, ◌==◌, ==_refl, bytes_eq_refl,
  ◌≡◌, refl, ap, ◌∙◌, arith,
}
use otic.Prelude.Bytes.{le_bytes, le_read}
use otic.Unpack.Read.{split}
use otic.Base.{Floating, Zstd, base_init}
use otic.Base.Types.{ChannelType, no_error, opened, meta_code}
use otic.Pack.Channel.{LeftOver}
use otic.Pack.Flush.{Ctx}
use otic.Pack.Container as Packer
use otic.Pack.Container.{Pack, announcement, channel_type_code}
use otic.Unpack.Channel.{Channel}
use otic.Unpack.Container as Reader
use otic.Unpack.Container.{Unpack, set_channel, find_channel, update_channel}
use otic.Unpack.Parse.{resize, parse_meta, meta_of_code}
use otic.Pack.Entries.{find_name}
use otic.Codec.Reads
use otic.Codec.Following.{Following}
use otic.Codec.File.{
  to_file, from_file, on, Parses, more, stop, step-meta, fetch_or_fail-file, fetch_size-file, step,
}
use otic.Codec.Holds.{Holds}

module _ (fl : Floating) (left_over : LeftOver) (left_read : ℕ) (type : ChannelType)
    (id size features : ℕ) where
  -- `otic_header_t` of a new file.
  abbrev pub header : List ℕ
  header = 79 ∷ 169 ∷ 70 ∷ 53 ∷ features ∷ 2 ∷ []

  -- The container and its channel, once they have written their headers.
  abbrev pub new_channel : Ctx (List ℕ)
  new_channel = record {
    channel = Packer.channel_init fl left_over id type size;
    parent = record {
      error = no_error;
      state = opened;
      context = header ++ announcement type id size;
    };
  }

  -- The reader behind the header, with its channel defined.
  abbrev pub new_reader : Unpack (List ℕ)
  new_reader = record {
    channels = Reader.channel_init fl id left_read ∷ [];
    state = opened;
    error = no_error;
    version = 2;
    context = [];
  }

  -- Its channel behind the announcement.
  abbrev pub announced : Channel
  announced =
      let c = Reader.channel_init fl id left_read in
      record c {
        base = record (c.base) { cache_size = size };
        channel_type = channel_type_code type;
        out_size = size;
      }

  -- The container opens its file and defines the channel.
  pub opens :
      (pack : Pack (List ℕ))
      → (id == 0) ≡ false
      → (size == 0) ≡ false
      → Packer.define_channel to_file true fl left_over
          (Packer.init pack (some to_file) features []).1
          type
          id
          size
        ≡ (true, record { channels = new_channel.channel ∷ []; parent = new_channel.parent })
  unfolding Packer.define_channel Packer.init Packer.send
  opens pack named sized = rw (sized, Packer.define_channel) (rw named refl)

  pub reader_opens :
      (rest : List ℕ)
      → (Reader.init from_file (header ++ rest)
          ≡ some (true, record (on new_reader rest) { channels = [] }))
        × (Reader.define_channel true fl left_read
              (record (on new_reader rest) { channels = [] })
              id
            ≡ (true, on new_reader rest))
  unfolding Reader.init Reader.check_header Reader.define_channel from_file split
  reader_opens rest = (rw (bytes_eq_refl Reader.magic) refl, refl)

  module _ (zs : Zstd) where
    -- The four records of the announcement, for a reader that has one channel.
    module _ (c : Channel) (rest : List ℕ) where
      abbrev single : Channel → Unpack (List ℕ)
      single c' = record (on new_reader rest) { channels = c' ∷ [] }

      only : c.channel_id ≡ id → find_channel (c ∷ []) id ≡ some c
      unfolding find_channel
      only same = rw (same, ==_refl id) refl

      updated : (c' : Channel) → set_channel (single c) c.channel_id c' ≡ single c'
      unfolding set_channel update_channel
      updated c' = rw (==_refl c.channel_id) refl

      step_define :
          c.channel_id ≡ id
          → step zs fl (on (single c) (0 ∷ id ∷ rest))
            ≡ some (true, single (record c { base = record (c.base) { state = opened } }))
      unfolding parse_meta meta_of_code
      step_define same = step-meta zs fl (single c) 0 id rest ∙ rw (only same) (rw updated refl)

      step_type :
          (t : ℕ)
          → c.channel_id ≡ id
          → step zs fl (on (single c) (1 ∷ id ∷ t ∷ rest))
            ≡ some (true, single (record c { channel_type = t }))
      unfolding parse_meta meta_of_code le_read
      step_type t same =
          step-meta zs fl (single c) 1 id (t ∷ rest)
          ∙ rw (only same) (
              fetch_or_fail-file zs fl (single c) (t ∷ []) rest 1 _ refl
              ∙ rw (updated (record c { channel_type = t + 0 })) (
                  ap (λ (n : ℕ). some (true, single (record c { channel_type = n })))
                    (omega arith)))

      step_method :
          (m : ℕ)
          → c.channel_id ≡ id
          → step zs fl (on (single c) (2 ∷ id ∷ m ∷ rest)) ≡ some (true, single c)
      unfolding parse_meta meta_of_code
      step_method m same =
          step-meta zs fl (single c) 2 id (m ∷ rest)
          ∙ fetch_or_fail-file zs fl (single c) (m ∷ []) rest 1 (λ bytes up1. some (true, up1)) refl

      step_size :
          size < 2 ^ 32
          → c.channel_id ≡ id
          → step zs fl (on (single c) (3 ∷ id ∷ (le_bytes 4 size ++ rest)))
            ≡ some (
              true,
              single (record c { base = record (c.base) { cache_size = size }; out_size = size }),
            )
      unfolding parse_meta meta_of_code resize
      step_size h same =
          step-meta zs fl (single c) 3 id (le_bytes 4 size ++ rest)
          ∙ rw (only same) (
              fetch_size-file zs fl (single c) size rest
                (λ size up1. resize zs fl from_file none true up1 c size) h
              ∙ rw updated refl)

    reads_announcement :
        (rest : List ℕ)
        → size < 2 ^ 32
        → Parses zs fl
            (on new_reader (announcement type id size ++ rest))
            (on (record new_reader { channels = announced ∷ [] }) rest)
    unfolding announcement meta_code Reader.channel_init
    reads_announcement rest h =
        let c = Reader.channel_init fl id left_read in
        let chunk = 3 ∷ id ∷ (le_bytes 4 size ++ rest) in
        let method = 2 ∷ id ∷ 0 ∷ chunk in
        let t = channel_type_code type in
        let typed : Channel = record c { channel_type = t } in
        more (step_define c (1 ∷ id ∷ t ∷ method) refl) (
          more (step_type c method t refl)
            (more (step_method typed chunk 0 refl) (more (step_size typed rest h refl) stop)))

    -- The reader of the announcement is behind the channel.
    pub begin-Following :
        512 ≤ size
        → size < 2 ^ 32
        → Following zs fl to_file 2 (Holds zs fl 2 new_reader header) new_channel announced
    unfolding Packer.channel_init Reader.channel_init base_init find_name
    begin-Following large h = record {
      before = announced;
      holds = record {
        body = announcement type id size;
        behind = refl;
        last = record new_reader { channels = announced ∷ [] };
        parses = λ rest. reads_announcement rest h;
        found = only announced [] refl;
        sized = refl;
        named = refl;
        same_version = refl;
      };
      reads = Reads.none;
      sync = record {
        table = record { known = λ n e found. cc; below = λ k. tt; count = refl };
        counters = refl;
        times = λ set. absurd (set refl);
        time_fits = omega arith;
        unfiltered = refl;
        room = omega arith;
        rows_fit = omega arith;
        size = refl;
        id = refl;
      };
      fits = omega arith;
      slack = omega (arith, large, h);
      capacity = h;
    }

    -- The first calls of both sides, the packer's on a container in any state.
    pub record Begun (pack : Pack (List ℕ)) : Type 0 where
      pub starts : (Packer.init pack (some to_file) features []).0 ≡ true
      pub defines :
          Packer.define_channel to_file true fl left_over
            (Packer.init pack (some to_file) features []).1
            type
            id
            size
          ≡ (true, record { channels = new_channel.channel ∷ []; parent = new_channel.parent })
      pub reader_starts :
          Reader.init from_file new_channel.parent.context
          ≡ some (true, record (on new_reader (announcement type id size)) { channels = [] })
      pub reader_defines :
          Reader.define_channel true fl left_read
            (record (on new_reader (announcement type id size)) { channels = [] })
            id
          ≡ (true, on new_reader (announcement type id size))
      pub reads :
          Parses zs fl
            (on new_reader (announcement type id size))
            (on (record new_reader { channels = announced ∷ [] }) [])
      pub following :
          Following zs fl to_file 2 (Holds zs fl 2 new_reader header) new_channel announced
