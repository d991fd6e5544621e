-- ===== src/Unpack/Generate/Rounds.antt =====
-- The loop of `otic_unpack_getNext` on a source that has an end.
use otic.Prelude.{
  ℕ, zero, suc, ◌+◌, ◌≤◌, ◌<◌, Bool, true, false, Option, none, some, List, [], ◌∷◌, ltb, ◌≡◌, ◌≢◌,
  refl, arith, inl, inr, Bool-cases, Option-cases, OfSome, OfSome-bind,
}
use otic.Prelude.Bytes.{le_read}
use otic.Base.{Floating, Zstd}
use otic.Base.Types
use otic.Unpack.Channel.{Channel}
use otic.Unpack.Container.{Fetcher, find_channel, set_channel}
use otic.Unpack.Parse.{meta_of_code}
use otic.Unpack.Generate.{
  Generator, Round, again, returns, Ending, no_fuel, get_line, with_unpack, fetched, after_fetch,
  stop, skip_block, new_cache, fetch_or_stop, fetch_size, first_line, next_block, round_meta,
  round_header, next_round, get_next, after_round,
}

-- A source of which every fetch that succeeds takes as many bytes as it gives, and nothing puts bytes
-- back.
pub record Source {F : Type 0} (fetcher : Fetcher F) (seeker : Option (ℕ → F → F)) : Type 0 where
  pub left : F → ℕ
  pub takes :
      (n : ℕ) (w : F) (bytes : List ℕ) (w' : F)
      → fetcher n w ≡ (some bytes, w')
      → left w' + n ≤ left w
  pub fails : (n : ℕ) (w w' : F) → fetcher n w ≡ (none, w') → left w' ≤ left w
  pub skips : (seek : ℕ → F → F) → seeker ≡ some seek → (n : ℕ) (w : F) → left (seek n w) ≤ left w

module _ {F : Type 0} (zs : Zstd) (fl : Floating) (fetcher : Fetcher F)
    (seeker : Option (ℕ → F → F)) (old : Channel → ℕ → List ℕ)
    (source : Source fetcher seeker) where
  abbrev rest_of : Generator F → ℕ
  rest_of g = source.left g.unpack.context

  -- A round that goes on has left less than `n` bytes.
  abbrev Within : ℕ → Round F → Type 0
  Within n (again g) = rest_of g < n
  Within n (returns answer g) = Unit {0}

  abbrev Leaves : ℕ → Option (Round F) → Type 0
  Leaves n = OfSome (Within n)

  after_fetch-Leaves :
      (n k : ℕ) (g : Generator F) (otherwise : Generator F → Option (Round F))
      (next : List ℕ → Generator F → Option (Round F))
      → ((g1 : Generator F) → rest_of g1 ≤ rest_of g → Leaves n (otherwise g1))
      → ((bytes : List ℕ) (g1 : Generator F)
          → rest_of g1 + k ≤ rest_of g
          → Leaves n (next bytes g1))
      → Leaves n
          (after_fetch zs fl fetcher seeker old (fetcher k g.unpack.context) g otherwise next)
  unfolding after_fetch fetched with_unpack
  after_fetch-Leaves n k g otherwise next h h1 = by_result (fetcher k g.unpack.context) refl
    where
      by_result :
          (r : Option (List ℕ) × F)
          → fetcher k g.unpack.context ≡ r
          → Leaves n (after_fetch zs fl fetcher seeker old r g otherwise next)
      by_result (none, w) e = h _ (source.fails k g.unpack.context w e)
      by_result (some bytes, w) e = h1 bytes _ (source.takes k g.unpack.context bytes w e)

  fetch_or_stop-Leaves :
      (n k : ℕ) (g : Generator F) (next : List ℕ → Generator F → Option (Round F))
      → ((bytes : List ℕ) (g1 : Generator F)
          → rest_of g1 + k ≤ rest_of g
          → Leaves n (next bytes g1))
      → Leaves n (fetch_or_stop zs fl fetcher seeker old k g next)
  unfolding fetch_or_stop stop
  fetch_or_stop-Leaves n k g next h = after_fetch-Leaves n k g _ next (λ g1 le. tt) h

  fetch_size-Leaves :
      (n : ℕ) (g : Generator F) (next : ℕ → Generator F → Option (Round F))
      → ((size : ℕ) (g1 : Generator F) → rest_of g1 ≤ rest_of g → Leaves n (next size g1))
      → Leaves n (fetch_size zs fl fetcher seeker old g next)
  unfolding fetch_size
  fetch_size-Leaves n g next h = fetch_or_stop-Leaves n 4 g _ (λ bytes g1 le.
      OfSome-bind (λ r. Unit {0}) _ (le_read 4 bytes) _ (any_result (le_read 4 bytes))
        (λ r u. h r.0 g1 (omega (arith, le))))
    where
      any_result : (m : Option (ℕ × List ℕ)) → OfSome (λ r. Unit {0}) m
      any_result none = tt
      any_result (some r) = tt

  -- The block of a channel always ends the loop.
  line-Leaves :
      (n : ℕ) (m : Option (List ℕ)) (g : Generator F) (c : Channel)
      → Leaves n (first_line zs fl fetcher seeker old m g c)
  unfolding first_line stop
  line-Leaves n none g c = tt
  line-Leaves n (some records) g c =
      elim (Option-cases (get_line fl g.unpack.version (record c { top = records }))) [
        | inl p ↦ rw p tt
        | inr (l, p) ↦ rw p tt
      ]

  block-Leaves :
      (n : ℕ) (g : Generator F) (c : Channel) (size : ℕ)
      → Leaves n (next_block zs fl fetcher seeker old g c size)
  unfolding next_block
  block-Leaves n g c size = elim (Bool-cases (ltb (g.room c.channel_id) size)) [
    | inl p ↦ rw p tt
    | inr p ↦ rw p (
        after_fetch-Leaves n size g _ _
          (λ g1 le. line-Leaves n (zs.decompress c.base.cache_size (old c size)) g1 c)
          (λ bytes g1 le. line-Leaves n (zs.decompress c.base.cache_size bytes) g1 c))
  ]

  skip-Leaves :
      (n : ℕ) (g : Generator F) (size : ℕ)
      → rest_of g < n
      → Leaves n (skip_block zs fl fetcher seeker old g size)
  unfolding skip_block fetched with_unpack
  skip-Leaves n g size h = elim (Option-cases seeker) [
    | inr (seek, p) ↦ rw p (omega (arith, h, source.skips seek p size g.unpack.context))
    | inl p ↦ rw p (by_result (fetcher size g.unpack.context) refl)
  ]
    where
      by_result :
          (r : Option (List ℕ) × F) → fetcher size g.unpack.context ≡ r → source.left r.1 < n
      by_result (none, w) e = omega (arith, h, source.fails size g.unpack.context w e)
      by_result (some bytes, w) e = omega (arith, h, source.takes size g.unpack.context bytes w e)

  cache-Leaves :
      (n : ℕ) (memory : Bool) (g : Generator F) (c : Channel) (size : ℕ)
      → rest_of g < n
      → Leaves n (new_cache zs fl fetcher seeker old memory g c size)
  unfolding new_cache stop
  cache-Leaves n true g c size h = h
  cache-Leaves n false g c size h = tt

  meta-Leaves :
      (n : ℕ) (memory : Bool) (type : Option Types.MetaType) (channel : Option Channel)
      (g : Generator F)
      → rest_of g < n
      → Leaves n (round_meta zs fl fetcher seeker old memory type channel g)
  unfolding round_meta with_unpack set_channel stop
  meta-Leaves n memory (some Types.channel_define) (some c) g h = h
  meta-Leaves n memory (some Types.channel_define) none g h = h
  meta-Leaves n memory (some Types.payload) (some c) g h =
      fetch_size-Leaves n g _ (λ size g1 le. block-Leaves n g1 c size)
  meta-Leaves n memory (some Types.payload) none g h =
      fetch_size-Leaves n g _ (λ size g1 le. skip-Leaves n g1 size (omega (arith, le, h)))
  meta-Leaves n memory (some Types.compression_method) channel g h =
      fetch_or_stop-Leaves n 1 g _ (λ bytes g1 le. omega (arith, le, h))
  meta-Leaves n memory (some Types.channel_type) (some c) g h =
      fetch_or_stop-Leaves n 1 g _ (λ bytes g1 le. elim (Option-cases (le_read 1 bytes)) [
        | inl p ↦ rw p tt
        | inr (r, p) ↦ rw p tt
      ])
  meta-Leaves n memory (some Types.channel_type) none g h =
      fetch_or_stop-Leaves n 1 g _ (λ bytes g1 le. tt)
  meta-Leaves n memory (some Types.chunk_size) (some c) g h =
      fetch_size-Leaves n g _ (λ size g1 le. cache-Leaves n memory g1 c size (omega (arith, le, h)))
  meta-Leaves n memory (some Types.chunk_size) none g h = fetch_size-Leaves n g _ (λ size g1 le. tt)
  meta-Leaves n memory none channel g h = tt

  header-Leaves :
      (n : ℕ) (memory : Bool) (bytes : List ℕ) (g : Generator F)
      → rest_of g < n
      → Leaves n (round_header zs fl fetcher seeker old memory bytes g)
  unfolding round_header
  header-Leaves n memory (type ∷ id ∷ []) g h =
      meta-Leaves n memory (meta_of_code type) (find_channel g.unpack.channels id) g h
  header-Leaves n memory [] g h = tt
  header-Leaves n memory (a ∷ []) g h = tt
  header-Leaves n memory (a ∷ b ∷ c ∷ more) g h = tt

  -- A round that goes on took two bytes at least.
  round-Leaves :
      (memory : Bool) (g : Generator F) (n : ℕ)
      → rest_of g ≤ n
      → Leaves n (next_round zs fl fetcher seeker old memory g)
  unfolding next_round
  round-Leaves memory g n h =
      after_fetch-Leaves n 2 g _ (round_header zs fl fetcher seeker old memory) (λ g1 le. tt)
        (λ bytes g1 le. header-Leaves n memory bytes g1 (omega (arith, le, h)))

  ends_after :
      (n : ℕ) (m : Option (Round F)) (rest : Generator F → Ending zs fl fetcher seeker old)
      → Leaves n m
      → ((g1 : Generator F) → rest_of g1 < n → rest g1 ≢ no_fuel)
      → after_round zs fl fetcher seeker old m rest ≢ no_fuel
  unfolding after_round
  ends_after n none rest l next = λ e. cc
  ends_after n (some (again g1)) rest l next = next g1 l
  ends_after n (some (returns answer g1)) rest l next = λ e. cc

  -- For a source in which a fetch that succeeds takes as many bytes as it gives, the loop of
  -- otic_unpack_getNext ends in at most one round more than there are bytes left.
  pub get_next-ends :
      (memory : Bool) (fuel : ℕ) (g : Generator F)
      → source.left g.unpack.context < fuel
      → get_next zs fl fetcher seeker old memory fuel g ≢ no_fuel
  unfolding get_next
  get_next-ends memory zero g h = absurd (omega arith)
  get_next-ends memory (suc fuel) g h =
      ends_after (rest_of g) (next_round zs fl fetcher seeker old memory g)
        (get_next zs fl fetcher seeker old memory fuel)
        (round-Leaves memory g (rest_of g) (omega arith))
        (λ g1 l. get_next-ends memory fuel g1 (omega (arith, l, h)))
