-- ===== src/Codec/Insert.antt =====
-- The insertion of a sensor whose index is not in its chain.
use mathlib.Core.Path.{fun_ext}
use otic.Prelude.{ℕ, Bool, true, false, none, some, List, ◌∷◌, ==_refl, ◌≡◌, ap, ◌∙◌, arith, ◌>>=◌}
use otic.Base.Oval.{Oval, unset}
use otic.Pack.Channel as Packing
use otic.Pack.Entries.{hash_function, set_bucket, has_index, store_index, entry_insert}
use otic.Codec.Table.{Buckets, push}

abbrev pub pushed : Packing.Channel → List ℕ → List ℕ → ℕ → Oval → Packing.Channel
pushed c o unit index v = record c {
  buckets = push c.buckets (record { index = index; name = o; unit = unit; last_value = v });
}

set_bucket_twice :
    (b : Buckets) (k : ℕ) (f : List Packing.Entry → List Packing.Entry) (l : List Packing.Entry)
    → set_bucket (set_bucket b k l) k (f (set_bucket b k l k)) ≡ set_bucket b k (f l)
set_bucket_twice b k f l = fun_ext λ j. ground (arith, ==_refl k)

module _ (c : Packing.Channel) (o unit : List ℕ) (index : ℕ) (v : Oval)
    (free : has_index (c.buckets (hash_function o)) index ≡ false) where
  pub insert_pushed : entry_insert true c o unit index v ≡ some (pushed c o unit index v)
  unfolding entry_insert store_index
  insert_pushed =
      let k = hash_function o in
      let entry : Packing.Entry = record {
        index = index;
        name = o;
        unit = unit;
        last_value = unset;
      } in
      rw free (
        ap (λ (b : Buckets). some (record c { buckets = b }))
          (set_bucket_twice c.buckets k (λ (l : List Packing.Entry). store_index l index v)
              (entry ∷ c.buckets k)
            ∙ rw (==_refl index)))

  pub insert_refused : entry_insert false c o unit index v ≡ none
  unfolding entry_insert
  insert_refused = rw free

  -- A second insertion finds the entry of the first.
  pub insert_again :
      (memory : Bool)
      → entry_insert memory (pushed c o unit index v) o unit index v
        ≡ some (pushed c o unit index v)
  unfolding entry_insert has_index store_index
  insert_again memory =
      let k = hash_function o in
      let entry : Packing.Entry = record { index = index; name = o; unit = unit; last_value = v } in
      let again =
        set_bucket_twice c.buckets k (λ (l : List Packing.Entry). store_index l index v)
          (entry ∷ c.buckets k) in
      rw (==_refl k, ==_refl index)
        (ap (λ (b : Buckets). some (record c { buckets = b })) (again ∙ rw (==_refl index)))

pub insert_twice :
    (memory : Bool) (c : Packing.Channel) (o unit : List ℕ) (v : Oval)
    → has_index (c.buckets (hash_function o)) c.total_entries ≡ false
    → (entry_insert memory c o unit c.total_entries v >>= λ (c1 : Packing.Channel).
        entry_insert memory c1 o unit c1.total_entries v)
      ≡ entry_insert memory c o unit c.total_entries v
insert_twice true c o unit v free =
    rw (insert_pushed c o unit c.total_entries v free)
      (insert_again c o unit c.total_entries v free true)
insert_twice false c o unit v free = rw (insert_refused c o unit c.total_entries v free)
