-- ===== src/Pack/Entries.antt =====
-- The table of a channel's sensors: a hash of the name selects a chain.
use otic.Prelude.{
  ℕ, ◌%◌, ◌^◌, Bool, true, false, Option, none, some, List, [], ◌∷◌, ◌++◌, ◌==◌, if◌then◌else◌,
  bytes_eq,
}
use mathlib.Core.Option
use otic.Base.{hash_loop}
use otic.Base.Oval.{
  Oval, null, bool_true, bool_false, rawbuffer, unset, int_neg, int_pos, double, string,
}
use otic.Pack.Channel.{Channel, Entry}

-- `OTIC_PACK_CACHE_SIZE`
abbrev pub pack_cache_size : ℕ
pack_cache_size = 255

-- `otic_pack_hashFunction`
unfoldable pub hash_function : List ℕ → ℕ
hash_function ptr = hash_loop 0 ptr % pack_cache_size

-- The first entry of a chain whose name is `o`. The comparison ends at the terminator of the
-- name, before the unit.
unfoldable pub find_name : List Entry → List ℕ → Option Entry
find_name [] o = none
find_name (ptr ∷ next) o = if bytes_eq ptr.name o then some ptr else find_name next o

-- `otic_pack_entry_find`
unfoldable pub entry_find : Channel → List ℕ → Option Entry
entry_find channel o = find_name (channel.buckets (hash_function o)) o

abbrev pub set_bucket : (ℕ → List Entry) → ℕ → List Entry → ℕ → List Entry
set_bucket buckets k chain j = if k == j then chain else buckets j

-- An assignment to `lastValue` through a pointer that the search of the chain gave.
unfoldable pub store_name : List Entry → List ℕ → Oval → List Entry
store_name [] o v = []
store_name (ptr ∷ next) o v =
    if bytes_eq ptr.name o then record ptr { last_value = v } ∷ next else ptr ∷ store_name next o v

unfoldable pub entry_store : Channel → List ℕ → Oval → Channel
entry_store channel o v =
    let k = hash_function o in
    record channel { buckets = set_bucket channel.buckets k (store_name (channel.buckets k) o v) }

unfoldable pub has_index : List Entry → ℕ → Bool
has_index [] index = false
has_index (ptr ∷ next) index = if ptr.index == index then true else has_index next index

unfoldable pub store_index : List Entry → ℕ → Oval → List Entry
store_index [] index v = []
store_index (ptr ∷ next) index v =
    if ptr.index == index
    then record ptr { last_value = v } ∷ next
    else ptr ∷ store_index next index v

-- `otic_pack_entry_insert_routine`: the entry of that index in the chain of `o`, or a new one at
-- its head, where `memory` tells whether the allocation of the entry succeeds. The result is the
-- channel in which the entry that the C function returns is the first with that index.
unfoldable pub entry_insert_routine : Bool → Channel → List ℕ → List ℕ → ℕ → Option Channel
entry_insert_routine memory channel o unit index =
    let k = hash_function o in
    let chain = channel.buckets k in
    let entry : Entry = record { index = index; name = o; unit = unit; last_value = unset } in
    if has_index chain index
    then some channel
    else if memory
    then some (record channel { buckets = set_bucket channel.buckets k (entry ∷ chain) })
    else none

-- The insertion with its assignment to `lastValue`.
unfoldable pub entry_insert : Bool → Channel → List ℕ → List ℕ → ℕ → Oval → Option Channel
unfolding entry_insert_routine
entry_insert memory channel o unit index v =
    let k = hash_function o in
    Option.map
      (λ (c : Channel). record c {
        buckets = set_bucket c.buckets k (store_index (c.buckets k) index v);
      })
      (entry_insert_routine memory channel o unit index)

module _ (memory : Bool) (channel : Channel) (o unit : List ℕ) (index : ℕ) where
  unfoldable pub entry_insert_bool : Bool → Option Channel
  unfolding entry_insert
  entry_insert_bool value =
      entry_insert memory channel o unit index (if value then bool_true else bool_false)

  -- The parameter of the C function is a `uint32_t`.
  unfoldable pub entry_insert_u : ℕ → Option Channel
  unfolding entry_insert
  entry_insert_u value = entry_insert memory channel o unit index (int_pos (value % 2 ^ 32))

  unfoldable pub entry_insert_un : ℕ → Option Channel
  unfolding entry_insert
  entry_insert_un value = entry_insert memory channel o unit index (int_neg (value % 2 ^ 32))

  unfoldable pub entry_insert_d : ℕ → Option Channel
  unfolding entry_insert
  entry_insert_d value = entry_insert memory channel o unit index (double value)

  -- The text is copied without its terminator, so what is compared later goes on behind it.
  unfoldable pub entry_insert_s : List ℕ → Option Channel
  unfolding entry_insert
  entry_insert_s value = entry_insert memory channel o unit index (string (value ++ channel.stale))

  unfoldable pub entry_insert_n : Option Channel
  unfolding entry_insert
  entry_insert_n = entry_insert memory channel o unit index null

  unfoldable pub entry_insert_b : Option Channel
  unfolding entry_insert
  entry_insert_b = entry_insert memory channel o unit index rawbuffer
