-- ===== src/Unpack/Channel.antt =====
-- The unpacking channel (`oticUnpackChannel_t`), its sensors, and the rows that it delivers.
use otic.Prelude.{
  ℕ, ◌%◌, ◌^◌, Bool, true, false, not, ◌&&◌, Option, some, List, [], ◌∷◌, ◌++◌, length, get_elem?,
  set, ◌==◌, if◌then◌else◌, ◌>>=◌,
}
use otic.Base.{Base, hash_loop, increment}
use otic.Base.Oval.{Oval}
use otic.Leb128.{decode_unsigned}

-- `oticUnpackEntry_t`
pub record Entry : Type 0 where
  pub index : ℕ
  pub name : List ℕ
  pub unit : List ℕ
  pub value : Oval
  pub ignore : Bool

-- One call of the channel's flusher: the time (a pattern of `double`), name, unit and value.
pub record Row : Type 0 where
  pub time : ℕ
  pub name : List ℕ
  pub unit : List ℕ
  pub value : Oval

-- `top` holds the bytes of `out` that are still to be read, from the pointer `top` to the end of
-- the block, and `entries` the used part of the table `cache`, which has `totalEntries` members.
-- `rows` are the flusher's calls so far. `out_size` is the size of `out`.
pub record Channel : Type 0 where
  pub base : Base
  pub top : List ℕ
  pub entries : List Entry
  pub allocation_left : ℕ
  pub cache_allocated : ℕ
  pub entry_index : ℕ
  pub ts : ℕ
  pub rows : List Row
  pub channel_id : ℕ
  pub channel_type : ℕ
  pub to_fetch : List ℕ
  pub time_start : ℕ
  pub out_size : ℕ

-- `otic_unpack_hashFunction`
unfoldable pub hash_function : List ℕ → ℕ
hash_function ptr = hash_loop 0 ptr

unfoldable pub member : ℕ → List ℕ → Bool
member h [] = false
member h (x ∷ xs) = if h == x then true else member h xs

-- `isFetchable`
unfoldable pub is_fetchable : Channel → List ℕ → Bool
unfolding hash_function
is_fetchable channel value = member (hash_function value) channel.to_fetch

-- `flush_if_flushable`: the current entry is delivered unless a filter is set and excludes it.
-- `none` is an index outside the table.
unfoldable pub flush_if_flushable : Channel → Option Channel
flush_if_flushable c = get_elem? c.entries c.entry_index >>= λ (e : Entry).
    let row : Row = record { time = c.ts; name = e.name; unit = e.unit; value = e.value } in
    some (
      if e.ignore && not (length c.to_fetch == 0)
      then c
      else record c { rows = c.rows ++ (row ∷ []) })

-- `++channel->base.rowCounter`
unfoldable pub count_row : Channel → Channel
count_row c = record c { base = record (c.base) { row_counter = increment c.base.row_counter } }

-- The end of a reader: the row is delivered and counted.
unfoldable pub deliver : Channel → Option Channel
unfolding flush_if_flushable count_row
deliver c = flush_if_flushable c >>= λ (c1 : Channel). some (count_row c1)

-- An assignment to `currentEntry->value`.
unfoldable pub store_value : Channel → Oval → Option Channel
store_value c v = get_elem? c.entries c.entry_index >>= λ (e : Entry).
    some (record c { entries = set c.entries c.entry_index (record e { value = v }) })

-- A number at `top`.
unfoldable pub read_number : Channel → Option (ℕ × Channel)
read_number c = decode_unsigned c.top >>= λ (v, rest). some (v, record c { top = rest })

-- The number that selects the current entry. It is decoded into a `uint32_t` and the padding
-- behind it.
unfoldable pub read_index : Channel → Option Channel
unfolding read_number
read_index c = read_number c >>= λ (v, c1). some (record c1 { entry_index = v % 2 ^ 32 })
