-- ===== src/Codec/Puts.antt =====
-- Each value that is put into a channel in step with its reader: what its branches have in common.
pub mod Known
pub mod New
use otic.Prelude.{
  ℕ, zero, suc, ◌+◌, ◌%◌, ◌^◌, ◌≤◌, ◌<◌, Bool, true, false, not, ◌&&◌, Option, none, some, List, [],
  ◌∷◌, length, get_elem?, append_assoc, All, IsChar, ltb, ◌≡◌, ◌⊎◌, inl, inr, refl, arith, ◌==◌,
  Bool-cases,
}
use otic.Base.{Floating}
use otic.Base.Types.{type_code}
use otic.Base.Oval.{Oval, unset}
use otic.Leb128.{encode_unsigned}
use otic.Pack.Channel as Packing
use otic.Pack.Entries.{hash_function, has_index, entry_insert}
use otic.Pack.Put.{Outcome, done, failed, write_unmodified, check_size, check_entry, ignore_entry}
use otic.Unpack.Channel as Unpacking
use otic.Codec.Records.{unmodified_record}
use otic.Codec.Sizes.{one_short}
use otic.Codec.Table.{find}
use otic.Codec.Matches
use otic.Codec.Insert.{pushed, insert_pushed, insert_refused}
use otic.Codec.Headers.{new_entry, assigned}
use otic.Codec.Sync.{Sync, Delivers, ReadsAs, deliver_unmodified, shown_unfiltered, found_new}

-- A put delivers its value, or fails with nothing written and no sensor changed.
abbrev pub PutSpec :
    Floating → ℕ → Packing.Channel → Unpacking.Channel → List ℕ → List ℕ → Oval → Outcome → Type 0
PutSpec fl version c u name unit v (done c') = Delivers fl version c c' u name unit v
PutSpec fl version c u name unit v (failed c') =
    (c'.base.cache ≡ c.base.cache) × (c'.buckets ≡ c.buckets) × (c'.total_entries ≡ c.total_entries)

-- A channel in step with its reader, a name that is a C string, and an index for one sensor more.
pub record Ready (fl : Floating) (c : Packing.Channel) (u : Unpacking.Channel) (name : List ℕ)
    : Type 0 where
  pub sync : Sync fl c u
  pub chars : All IsChar name
  pub space : suc c.total_entries < 2 ^ 16

get_elem?-lt {ℓ} :
    {A : Type ℓ} (xs : List A) (i : ℕ) {x : A} → get_elem? xs i ≡ some x → i < length xs
get_elem?-lt [] i h = cc
get_elem?-lt (y ∷ xs) zero h = omega arith
get_elem?-lt (y ∷ xs) (suc i) h = omega (arith, get_elem?-lt xs i h)

module _ (fl : Floating) (version : ℕ) {c : Packing.Channel} {u : Unpacking.Channel} {name : List ℕ}
    (r : Ready fl c u name) (unit : List ℕ) where
  module _ {e : Packing.Entry} (found : find c.buckets name ≡ some e) where
    abbrev pub known : Matches.Known u.entries name e
    known = r.sync.table.known name e found

    pub index_small : e.index < 2 ^ 32
    index_small =
        omega
          (arith, get_elem?-lt u.entries e.index known.at_index, r.sync.table.count, r.sync.room)

    pub shown_known : (known.entry.ignore && not (length u.to_fetch == 0)) ≡ false
    shown_known = shown_unfiltered known.entry.ignore u.to_fetch r.sync.unfiltered

    pub unmodified_case :
        (v : Oval)
        → ReadsAs v e.last_value
        → Delivers fl version c (write_unmodified c e.index) u name unit v
    unfolding write_unmodified type_code
    unmodified_case v same =
        deliver_unmodified fl version r.sync (write_unmodified c e.index) name unit found 212
          (encode_unsigned e.index) v (simp append_assoc)
          (omega (arith, one_short e.index index_small)) (refl, refl, refl) refl refl same
          (unmodified_record u e.index known.entry known.at_index shown_known fl version
            index_small)

  module _ (absent : find c.buckets name ≡ none) where
    free : has_index (c.buckets (hash_function name)) c.total_entries ≡ false
    free =
        Matches.no_index r.sync.table
          (record { index = 0; name = []; unit = []; value = unset; ignore = false })
          (c.buckets (hash_function name)) (r.sync.table.below (hash_function name))

    -- The branch of a new sensor, where the insertion is tested.
    pub new_checked :
        (memory : Bool) (o : Option Packing.Channel) (v : Oval)
        (rest : Packing.Channel → Packing.Channel)
        → o ≡ entry_insert memory c name unit c.total_entries v
        → (length name + length unit + 1 ≤ 255
            → Delivers fl version c (rest (pushed c name unit c.total_entries v)) u name unit v)
        → PutSpec fl version c u name unit v (check_size c name unit (check_entry c o rest))
    unfolding check_size check_entry
    new_checked memory o v rest inserted delivers =
        elim (Bool-cases (ltb 255 (length name + length unit + 1))) [
          | inl p ↦ rw p (refl, refl, refl)
          | inr p ↦
              rw (p, inserted)
                (elim (Bool-cases memory) [
                  | inl q ↦
                      rw (q, insert_pushed c name unit c.total_entries v free)
                        (delivers (ground arith))
                  | inr q ↦
                      rw (q, insert_refused c name unit c.total_entries v free) (refl, refl, refl)
                ])
        ]

    -- The same, where it is not tested: without memory the sensor has no entry.
    pub new_ignored :
        (memory : Bool) (o : Option Packing.Channel) (v : Oval)
        (rest : Packing.Channel → Packing.Channel)
        → o ≡ entry_insert memory c name unit c.total_entries v
        → (length name + length unit + 1 ≤ 255
            → Delivers fl version c (rest (pushed c name unit c.total_entries v)) u name unit v)
        → (length name + length unit + 1 ≤ 255 → Delivers fl version c (rest c) u name unit v)
        → PutSpec fl version c u name unit v (check_size c name unit (ignore_entry c o rest))
    unfolding check_size ignore_entry
    new_ignored memory o v rest inserted delivers without =
        elim (Bool-cases (ltb 255 (length name + length unit + 1))) [
          | inl p ↦ rw p (refl, refl, refl)
          | inr p ↦
              rw (p, inserted)
                (elim (Bool-cases memory) [
                  | inl q ↦
                      rw (q, insert_pushed c name unit c.total_entries v free)
                        (delivers (ground arith))
                  | inr q ↦
                      rw (q, insert_refused c name unit c.total_entries v free)
                        (without (ground arith))
                ])
        ]

    pub free_index : has_index (c.buckets (hash_function name)) c.total_entries ≡ false
    free_index = free

    pub total_small : c.total_entries < 2 ^ 32
    total_small = omega (arith, r.space)

    pub next_total : (c.total_entries + 1) % 2 ^ 16 ≡ suc c.total_entries
    next_total = omega (arith, r.space)

    pub shown_new : ((new_entry u name unit).ignore && not (length u.to_fetch == 0)) ≡ false
    shown_new = shown_unfiltered (new_entry u name unit).ignore u.to_fetch r.sync.unfiltered

    pub found_fresh :
        (fits : length name + length unit + 1 ≤ 255)
        → get_elem? (assigned u name unit).entries c.total_entries ≡ some (new_entry u name unit)
    found_fresh fits = found_new fl version r.sync c name unit absent r.chars fits r.space
