-- ===== src/Codec/Table.antt =====
-- The packer's table of sensors against the reader's: every sensor that the packer finds stands
-- at its index in the reader's table, with the same name, unit and value.
use mathlib.Core.Option
use otic.Prelude.{
  ℕ, Option, some, List, [], ◌∷◌, if◌then◌else◌, bytes_eq, bytes_eq_refl, bytes_eq→eq, ◌≡◌, arith,
}
use otic.Base.Oval.{Oval}
use otic.Pack.Channel as Packing
use otic.Pack.Entries.{hash_function, find_name, set_bucket, store_name}

abbrev pub Buckets : Type 0
Buckets = ℕ → List Packing.Entry

-- `otic_pack_entry_find`, on the table alone.
abbrev pub find : Buckets → List ℕ → Option Packing.Entry
find b o = find_name (b (hash_function o)) o

abbrev pub with_last : Oval → Packing.Entry → Packing.Entry
with_last v e = record e { last_value = v }

find_name-store_name :
    (l : List Packing.Entry) (o n : List ℕ) (v : Oval)
    → find_name (store_name l o v) n
      ≡ (if bytes_eq o n then Option.map (with_last v) (find_name l o) else find_name l n)
unfolding find_name store_name
find_name-store_name [] o n v = ground arith
find_name-store_name (e ∷ l) o n v = ground (
  arith,
  find_name-store_name l o n v,
  bytes_eq→eq e.name o,
  bytes_eq→eq e.name n,
  bytes_eq→eq o n,
  bytes_eq_refl o,
)

abbrev pub store : Buckets → List ℕ → Oval → Buckets
store b o v = set_bucket b (hash_function o) (store_name (b (hash_function o)) o v)

pub find-store :
    (b : Buckets) (o n : List ℕ) (v : Oval)
    → find (store b o v) n
      ≡ (if bytes_eq o n then Option.map (with_last v) (find b o) else find b n)
find-store b o n v =
    ground (arith, find_name-store_name (b (hash_function o)) o n v, bytes_eq→eq o n)

abbrev pub push : Buckets → Packing.Entry → Buckets
push b e = set_bucket b (hash_function e.name) (e ∷ b (hash_function e.name))

pub find-push :
    (b : Buckets) (e : Packing.Entry) (n : List ℕ)
    → find (push b e) n ≡ (if bytes_eq e.name n then some e else find b n)
unfolding find_name
find-push b e n = ground (arith, bytes_eq→eq e.name n)
