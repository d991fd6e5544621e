-- ===== src/Codec/Generate.antt =====
-- The generator of the reader on the blocks of a file, beside `otic_unpack_parse`.
use otic.Prelude.{
  ℕ, zero, suc, ◌+◌, ◌^◌, ◌≤◌, ◌<◌, Bool, true, false, Option, none, some, List, [], ◌∷◌, ◌++◌,
  length, append-nil, ltb, ◌>>=◌, ◌==◌, ==_refl, ◌≡◌, refl, sym, ap, ◌∙◌, arith, inl, inr,
  Bool-cases, Option-cases,
}
use otic.Prelude.Bytes.{le_bytes, le_read, le_read-le_bytes, length-le_bytes}
use otic.Base.{Floating, Zstd}
use otic.Base.Types.{payload, meta_code}
use otic.Pack.Flush.{meta_data_size}
use otic.Unpack.Channel.{Channel}
use otic.Unpack.Read.{split}
use otic.Unpack.Block.{parse_block}
use otic.Unpack.Container.{Unpack, find_channel, update_channel, set_channel}
use otic.Unpack.Parse.{meta_of_code}
use otic.Unpack.Generate.{
  Generator, Line, Round, returns, Ending, answers, get_line, after_line, with_unpack, fetched,
  after_fetch, fetch_or_stop, fetch_size, first_line, next_block, round_meta, round_header,
  next_round, get_next, after_round, from_line, current_line, generate,
}
use otic.Unpack.Generate.Lines.{Lines, last, more, Apart, parse_block-Lines, get_line-Kept}
use otic.Unpack.Generate.Rounds.{Source}
use otic.Codec.Reads.{at}
use otic.Codec.File.{from_file, from_file-append, on, step, step-payload, find-update}

update-update :
    (cs : List Channel) (id : ℕ) (a b : Channel)
    → a.channel_id ≡ id
    → update_channel (update_channel cs id a) id b ≡ update_channel cs id b
unfolding update_channel
update-update [] id a b same = refl
update-update (c ∷ cs) id a b same = elim (Bool-cases (c.channel_id == id)) [
  | inl p ↦ rw (p, update_channel, same, ==_refl id) refl
  | inr p ↦ rw (p, update_channel, p, update-update cs id a b same) refl
]

split_takes :
    (n : ℕ) (w front back : List ℕ) → split n w ≡ some (front, back) → length back + n ≡ length w
unfolding split
split_takes zero w front back e = let same : w ≡ back = cc in omega (arith, ap length same)
split_takes (suc n) [] front back e = cc
split_takes (suc n) (b ∷ bs) front back e = elim (Option-cases (split n bs)) [
  | inl p ↦ absurd (ground (arith, rw p at e))
  | inr ((f, k), p) ↦
      let e1 : Path (Option (List ℕ × List ℕ)) (some (b ∷ f, k)) (some (front, back)) = rw p at e in
      let same : k ≡ back = cc in omega (arith, split_takes n bs f k p, ap length same)
]

pub file_takes :
    (n : ℕ) (w bytes w' : List ℕ) → from_file n w ≡ (some bytes, w') → length w' + n ≤ length w
unfolding from_file
file_takes n w bytes w' e = elim (Option-cases (split n w)) [
  | inl p ↦ absurd (ground (arith, rw p at e))
  | inr ((f, k), p) ↦
      let e1 : Path (Option (List ℕ) × List ℕ) (some f, k) (some bytes, w') = rw p at e in
      let same : k ≡ w' = cc in omega (arith, split_takes n w f k p, ap length same)
]

pub file_fails : (n : ℕ) (w w' : List ℕ) → from_file n w ≡ (none, w') → length w' ≤ length w
unfolding from_file
file_fails n w w' e = elim (Option-cases (split n w)) [
  | inl p ↦
      let e1 : Path (Option (List ℕ) × List ℕ) (none, w) (none, w') = rw p at e in
      let same : w ≡ w' = cc in omega (arith, ap length same)
  | inr ((f, k), p) ↦ absurd (ground (arith, rw p at e))
]

-- A file gets shorter with every fetch.
abbrev pub file_source : Source from_file none
file_source = record {
  left = length;
  takes = file_takes;
  fails = file_fails;
  skips = λ seek e n w. cc;
}

module _ (zs : Zstd) (fl : Floating) (old : Channel → ℕ → List ℕ) (memory : Bool) where
  abbrev pub FileGenerator : Type 0
  FileGenerator = Generator (List ℕ)

  abbrev pub call : ℕ → FileGenerator → Ending zs fl from_file none old
  call fuel g = generate zs fl from_file none old memory fuel g

  -- Calls of `otic_unpack_generate`, each with fuel for one round of its loop, whatever they answer.
  pub data Calls : FileGenerator → FileGenerator → Type 0 where
    done : {g : FileGenerator} → Calls g g
    again_with :
        {g g1 g2 : FileGenerator} (answer : Bool)
        → call 1 g ≡ answers answer g1
        → Calls g1 g2
        → Calls g g2

  -- The generator between two blocks, and within the block of a channel.
  abbrev pub between : (ℕ → ℕ) → Unpack (List ℕ) → FileGenerator
  between room up = record { unpack = up; current = none; room = room }

  abbrev within : (ℕ → ℕ) → ℕ → Unpack (List ℕ) → FileGenerator
  within room id up = record { unpack = up; current = some id; room = room }

  abbrev with_channels : Unpack (List ℕ) → List Channel → Unpack (List ℕ)
  with_channels up cs = record up { channels = cs }

  -- The lines of the current channel, one with each call.
  Lines-Calls :
      (room : ℕ → ℕ) (id : ℕ) (up : Unpack (List ℕ)) (cs : List Channel) {c c' : Channel}
      → find_channel cs id ≡ some c
      → c.channel_id ≡ id
      → Lines fl up.version c c'
      → Calls
          (within room id (with_channels up cs))
          (between room (with_channels up (update_channel cs id c')))
  unfolding generate current_line from_line after_line set_channel
  Lines-Calls room id up cs found same (last l e ended) =
      again_with l.answer (rw (found, e, ended) refl) done
  Lines-Calls room id up cs {c} {c'} found same (more l e going rest) =
      let kept = get_line-Kept fl up.version c l e in
      let next =
        Lines-Calls room id up (update_channel cs id l.channel)
          (find-update cs id l.channel found (kept.id ∙ same)) (kept.id ∙ same) rest in
      again_with l.answer (rw (found, e, going) refl)
        (rw (update-update cs id l.channel c' (kept.id ∙ same)) at next)

  round-meta :
      (room : ℕ → ℕ) (up : Unpack (List ℕ)) (type id : ℕ) (rest : List ℕ)
      → next_round zs fl from_file none old memory (between room (on up (type ∷ id ∷ rest)))
        ≡ round_meta zs fl from_file none old memory
            (meta_of_code type)
            (find_channel up.channels id)
            (between room (on up rest))
  unfolding next_round from_file split fetched with_unpack after_fetch round_header
  round-meta room up type id rest = refl

  fetch-file :
      (g : FileGenerator) (bytes rest : List ℕ) (n : ℕ)
      (next : List ℕ → FileGenerator → Option (Round (List ℕ)))
      → length bytes ≡ n
      → fetch_or_stop zs fl from_file none old n (with_unpack g (on g.unpack (bytes ++ rest))) next
        ≡ next bytes (with_unpack g (on g.unpack rest))
  unfolding fetch_or_stop fetched with_unpack after_fetch
  fetch-file g bytes rest n next e = rw (from_file-append bytes rest n e) refl

  fetch_size-file :
      (g : FileGenerator) (size : ℕ) (rest : List ℕ)
      (next : ℕ → FileGenerator → Option (Round (List ℕ)))
      → size < 2 ^ 32
      → fetch_size zs fl from_file none old
          (with_unpack g (on g.unpack (le_bytes 4 size ++ rest)))
          next
        ≡ next size (with_unpack g (on g.unpack rest))
  unfolding fetch_size
  fetch_size-file g size rest next h =
      let whole : le_read 4 (le_bytes 4 size) ≡ some (size, []) =
        ap (le_read 4) (sym (append-nil (le_bytes 4 size))) ∙ le_read-le_bytes 4 size [] h in
      fetch-file g (le_bytes 4 size) rest 4
        (λ bytes g1. le_read 4 bytes >>= λ (size, rest). next size g1) (length-le_bytes 4 size)
      ∙ rw whole refl

  -- A block of data for a channel that is read.
  module _ (room : ℕ → ℕ) (up : Unpack (List ℕ)) (id : ℕ) (u : Channel)
      (found : find_channel up.channels id ≡ some u) (same : u.channel_id ≡ id)
      (out records : List ℕ) (short : length out < 2 ^ 32) (fits : length out ≤ room id)
      (restored : zs.decompress u.base.cache_size out ≡ some records) where
    block-round :
        (rest : List ℕ) (l : Line)
        → get_line fl up.version (at u records) ≡ some l
        → next_block zs fl from_file none old (between room (on up (out ++ rest))) u (length out)
          ≡ some (returns l.answer (after_line (between room (on up rest)) id l))
    unfolding next_block first_line fetched with_unpack after_fetch
    block-round rest l e =
        let large_enough : ltb (room u.channel_id) (length out) ≡ false =
          ground (arith, fits, ap room same) in
        rw (large_enough, from_file-append out rest (length out) refl)
          (rw restored (rw (e, same) refl))

    payload-round :
        (rest : List ℕ) (l : Line)
        → get_line fl up.version (at u records) ≡ some l
        → next_round zs fl from_file none old memory (
            between room
              (on up (meta_data_size (meta_code payload) id (length out) ++ (out ++ rest))))
          ≡ some (returns l.answer (after_line (between room (on up rest)) id l))
    unfolding round_meta meta_data_size meta_code meta_of_code with_unpack
    payload-round rest l e =
        round-meta room up 4 id (le_bytes 4 (length out) ++ (out ++ rest))
        ∙ rw found (
            fetch_size-file (between room up) (length out) (out ++ rest)
              (λ size g1. next_block zs fl from_file none old g1 u size) short
            ∙ block-round rest l e)

    first-call :
        (rest : List ℕ) (l : Line)
        → get_line fl up.version (at u records) ≡ some l
        → call 1 (
            between room
              (on up (meta_data_size (meta_code payload) id (length out) ++ (out ++ rest))))
          ≡ answers l.answer (after_line (between room (on up rest)) id l)
    unfolding generate get_next after_round
    first-call rest l e = rw (payload-round rest l e) refl

    block-Calls :
        (rest : List ℕ) {u' : Channel}
        → Lines fl up.version (at u records) u'
        → Calls
            (between room
              (on up (meta_data_size (meta_code payload) id (length out) ++ (out ++ rest))))
            (between room (set_channel (on up rest) id u'))
    unfolding after_line set_channel
    block-Calls rest (last l e ended) = again_with l.answer (first-call rest l e) (rw ended done)
    block-Calls rest {u'} (more l e going others) =
        let kept = get_line-Kept fl up.version (at u records) l e in
        let others_called =
          Lines-Calls room id (on up rest) (update_channel up.channels id l.channel)
            (find-update up.channels id l.channel found (kept.id ∙ same)) (kept.id ∙ same) others in
        again_with l.answer (first-call rest l e) (
          rw going
            (rw (update-update up.channels id l.channel u' (kept.id ∙ same)) at others_called))

    -- For a reader with a channel of the block's id whose buffers hold the block, a block that
    -- decompresses to its records and in which a record that is no small integer follows every
    -- small integer, and which the block parser reads to its end: one call of otic_unpack_parse
    -- succeeds, and repeated calls of otic_unpack_generate come to the end of the block, and both
    -- leave the same reader.
    pub generate-parse :
        (rest : List ℕ) {u' : Channel}
        → length out ≤ u.base.cache_size
        → Apart fl up.version (at u records)
        → parse_block fl up.version (at u records) ≡ some u'
        → (step zs fl (on up (meta_data_size (meta_code payload) id (length out) ++ (out ++ rest)))
            ≡ some (true, set_channel (on up rest) id u'))
          × Calls
              (between room
                (on up (meta_data_size (meta_code payload) id (length out) ++ (out ++ rest))))
              (between room (set_channel (on up rest) id u'))
    generate-parse rest {u'} buffer apart parsed = (
      step-payload zs fl up id u found same out records short buffer restored parsed rest,
      block-Calls rest (parse_block-Lines fl up.version (at u records) u' apart parsed),
    )
