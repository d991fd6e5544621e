-- ===== src/Codec/Deliver.antt =====
-- Every value that can be injected is delivered: the branches of each put together. Whether the buffer
-- has room for the bytes is not asked here, but where the puts are used.
use otic.Prelude.{
  ℕ, ◌^◌, ◌<◌, Bool, false, none, List, [], length, ◌==◌, ◌≡◌, inl, inr, Option-cases,
  if◌then◌else◌,
}
use otic.Base.{Floating}
use otic.Base.Oval.{null, bool_true, bool_false, int_neg, int_pos, double, string}
use otic.Leb128.{IsU64}
use otic.Pack.Channel as Packing
use otic.Pack.Put.{put_bool, put_i_neg, put_i, put_d, put_s, put_n}
use otic.Unpack.Channel as Unpacking
use otic.Codec.Table.{find}
use otic.Codec.Puts.{Ready, PutSpec}
use otic.Codec.Puts.Known
use otic.Codec.Puts.New

module _ (fl : Floating) (version : ℕ) {c : Packing.Channel} {u : Unpacking.Channel} {name : List ℕ}
    (r : Ready fl c u name) (memory : Bool) (unit : List ℕ) where
  -- For a channel in step with its reader and a name that is a C string, the put of a truth value
  -- either fails and leaves the buffer and the sensors as they were, or appends bytes that the
  -- block parser reads as one row with this name and value, and the two tables of sensors stay in
  -- step.
  pub put_bool-PutSpec :
      (value : Bool)
      → PutSpec fl version c u name unit
          (if value then bool_true else bool_false)
          (put_bool memory c name unit value)
  put_bool-PutSpec value = elim (Option-cases (find c.buckets name)) [
    | inl absent ↦ New.put_bool_new fl version r memory unit absent value
    | inr (e, found) ↦ Known.put_bool_known fl version r memory unit found value
  ]

  -- For a channel in step with its reader and a name that is a C string, and an integer of 64
  -- bits, of 32 for a name that is new, the put of a negative integer either fails and leaves the
  -- buffer and the sensors as they were, or appends bytes that the block parser reads as one row
  -- with this name and value, and the two tables of sensors stay in step.
  pub put_i_neg-PutSpec :
      (value : ℕ)
      → IsU64 value
      → (find c.buckets name ≡ none → value < 2 ^ 32)
      → PutSpec fl version c u name unit (int_neg value) (put_i_neg memory c name unit value)
  put_i_neg-PutSpec value h low = elim (Option-cases (find c.buckets name)) [
    | inl absent ↦ New.put_i_neg_new fl version r memory unit absent value (low absent)
    | inr (e, found) ↦ Known.put_i_neg_known fl version r memory unit found value h
  ]

  -- For a channel in step with its reader and a name that is a C string, and an integer of 64
  -- bits, of 32 for a name that is new, the put of a positive integer either fails and leaves the
  -- buffer and the sensors as they were, or appends bytes that the block parser reads as one row
  -- with this name and value, and the two tables of sensors stay in step.
  pub put_i-PutSpec :
      (value : ℕ)
      → IsU64 value
      → (find c.buckets name ≡ none → value < 2 ^ 32)
      → PutSpec fl version c u name unit (int_pos value) (put_i memory c name unit value)
  put_i-PutSpec value h low = elim (Option-cases (find c.buckets name)) [
    | inl absent ↦ New.put_i_new fl version r memory unit absent value (low absent)
    | inr (e, found) ↦ Known.put_i_known fl version r memory unit found value h
  ]

  -- For a channel in step with its reader and a name that is a C string, and a pattern of 64
  -- bits, the put of a double either fails and leaves the buffer and the sensors as they were, or
  -- appends bytes that the block parser reads as one row with this name and value, and the two
  -- tables of sensors stay in step.
  pub put_d-PutSpec :
      (value : ℕ)
      → IsU64 value
      → PutSpec fl version c u name unit (double value) (put_d memory c name unit value)
  put_d-PutSpec value h = elim (Option-cases (find c.buckets name)) [
    | inl absent ↦ New.put_d_new fl version r memory unit absent value h
    | inr (e, found) ↦ Known.put_d_known fl version r memory unit found value h
  ]

  -- For a channel in step with its reader and a name that is a C string, a text whose length has
  -- 64 bits, a format that is not of version 1, and a zero behind a new text, the put of a text either fails and leaves the
  -- buffer and the sensors as they were, or appends bytes that the block parser reads as one row
  -- with this name and value, and the two tables of sensors stay in step.
  pub put_s-PutSpec :
      (value : List ℕ)
      → c.stale ≡ []
      → (version == 1) ≡ false
      → IsU64 (length value)
      → PutSpec fl version c u name unit (string value) (put_s memory c name unit value)
  put_s-PutSpec value zero_behind hv h = elim (Option-cases (find c.buckets name)) [
    | inl absent ↦ New.put_s_new fl version r memory unit absent value zero_behind hv h
    | inr (e, found) ↦ Known.put_s_known fl version r memory unit found value hv h
  ]

  -- For a channel in step with its reader and a name that is a C string, the put of null either
  -- fails and leaves the buffer and the sensors as they were, or appends bytes that the block
  -- parser reads as one row with this name and value, and the two tables of sensors stay in step.
  pub put_n-PutSpec : PutSpec fl version c u name unit null (put_n memory c name unit)
  put_n-PutSpec = elim (Option-cases (find c.buckets name)) [
    | inl absent ↦ New.put_n_new fl version r memory unit absent
    | inr (e, found) ↦ Known.put_n_known fl version r memory unit found
  ]
