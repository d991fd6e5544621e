-- ===== src/Codec/Matches.antt =====
-- What keeps the two tables of sensors in step: a new value, and a new sensor.
use mathlib.Core.Path.{subst}
use otic.Prelude.{
  ℕ, zero, suc, ◌<◌, false, some, List, [], ◌∷◌, ◌++◌, length, length-append, get_elem?, set, All,
  ◌==◌, bytes_eq, bytes_eq_refl, bytes_eq→eq, ◌≡◌, ◌≢◌, refl, sym, ap, ◌∙◌, arith, Bool-cases, inl,
  inr,
}
use otic.Base.Oval.{Oval}
use otic.Pack.Channel as Packing
use otic.Pack.Entries.{hash_function, store_name, has_index}
use otic.Unpack.Channel as Unpacking
use otic.Codec.Records.{with_value, get_elem?-set_self}
use otic.Codec.Table.{Buckets, find, with_last, store, find-store, push, find-push}

-- The reader's entry for a sensor that the packer knows.
pub record Known (entries : List Unpacking.Entry) (n : List ℕ) (e : Packing.Entry) : Type 0 where
  pub entry : Unpacking.Entry
  pub at_index : get_elem? entries e.index ≡ some entry
  pub same_name : entry.name ≡ n
  pub same_unit : entry.unit ≡ e.unit
  pub same_value : entry.value ≡ e.last_value

pub record Matches (b : Buckets) (total : ℕ) (entries : List Unpacking.Entry) : Type 0 where
  pub known : (n : List ℕ) (e : Packing.Entry) → find b n ≡ some e → Known entries n e
  pub below : (k : ℕ) → All (λ (e : Packing.Entry). e.index < total) (b k)
  pub count : total ≡ length entries

get_elem?-set_ne {ℓ} :
    {A : Type ℓ} (xs : List A) (i j : ℕ) (y : A) → i ≢ j → get_elem? (set xs i y) j ≡ get_elem? xs j
get_elem?-set_ne [] i j y h = refl
get_elem?-set_ne (x ∷ xs) zero zero y h = absurd (h refl)
get_elem?-set_ne (x ∷ xs) zero (suc j) y h = refl
get_elem?-set_ne (x ∷ xs) (suc i) zero y h = refl
get_elem?-set_ne (x ∷ xs) (suc i) (suc j) y h = get_elem?-set_ne xs i j y (λ p. h (ap suc p))

length-set {ℓ} : {A : Type ℓ} (xs : List A) (i : ℕ) (y : A) → length (set xs i y) ≡ length xs
length-set [] i y = refl
length-set (x ∷ xs) zero y = refl
length-set (x ∷ xs) (suc i) y = ap suc (length-set xs i y)

some_injective {ℓ} : {A : Type ℓ} {x y : A} → some x ≡ some y → x ≡ y
some_injective h = cc

below-store_name :
    (total : ℕ) (l : List Packing.Entry) (o : List ℕ) (v : Oval)
    → All (λ (e : Packing.Entry). e.index < total) l
    → All (λ (e : Packing.Entry). e.index < total) (store_name l o v)
unfolding store_name
below-store_name total [] o v h = tt
below-store_name total (e ∷ l) o v (he, h) = elim (Bool-cases (bytes_eq e.name o)) [
  | inl p ↦ rw p (he, h)
  | inr p ↦ rw p (he, below-store_name total l o v h)
]

-- A new value for a known sensor, on both sides.
module _ {b : Buckets} {total : ℕ} {entries : List Unpacking.Entry} (m : Matches b total entries)
    (o : List ℕ) (v : Oval) {e : Packing.Entry} (found : find b o ≡ some e) where
  abbrev own : Known entries o e
  own = m.known o e found

  abbrev updated : List Unpacking.Entry
  updated = set entries e.index (with_value own.entry v)

  known-self : (n : List ℕ) → o ≡ n → Known updated n (with_last v e)
  known-self n p = record {
    entry = with_value own.entry v;
    at_index = get_elem?-set_self entries e.index own.entry (with_value own.entry v) own.at_index;
    same_name = own.same_name ∙ p;
    same_unit = own.same_unit;
    same_value = refl;
  }

  indices_differ :
      (n : List ℕ) (e' : Packing.Entry)
      → bytes_eq o n ≡ false
      → Known entries n e'
      → e.index ≢ e'.index
  indices_differ n e' apart k p =
      let one = sym own.at_index ∙ ap (get_elem? entries) p ∙ k.at_index in
      let names : o ≡ n =
        sym own.same_name
        ∙ ap (λ (r : Unpacking.Entry). r.name) (some_injective one)
        ∙ k.same_name in
      cc (ap (bytes_eq o) names, bytes_eq_refl o)

  known-other :
      (n : List ℕ) (e' : Packing.Entry)
      → bytes_eq o n ≡ false
      → Known entries n e'
      → Known updated n e'
  known-other n e' apart k = record {
    entry = k.entry;
    at_index =
        get_elem?-set_ne entries e.index e'.index _ (indices_differ n e' apart k) ∙ k.at_index;
    same_name = k.same_name;
    same_unit = k.same_unit;
    same_value = k.same_value;
  }

  known-store :
      (n : List ℕ) (e' : Packing.Entry) → find (store b o v) n ≡ some e' → Known updated n e'
  known-store n e' h = elim (Bool-cases (bytes_eq o n)) [
    | inl p ↦
        subst (Known updated n) (some_injective (sym (rw (p, found) at (find-store b o n v)) ∙ h))
          (known-self n (bytes_eq→eq o n p))
    | inr p ↦ known-other n e' p (m.known n e' (sym (rw p at (find-store b o n v)) ∙ h))
  ]

  pub store-Matches : Matches (store b o v) total updated
  store-Matches = record {
    known = known-store;
    below = λ k. elim (Bool-cases (hash_function o == k)) [
      | inl p ↦ rw p (below-store_name total _ o v (m.below (hash_function o)))
      | inr p ↦ rw p (m.below k)
    ];
    count = m.count ∙ sym (length-set entries e.index _);
  }

get_elem?-append {ℓ} :
    {A : Type ℓ} (xs ys : List A) (i : ℕ) {x : A}
    → get_elem? xs i ≡ some x
    → get_elem? (xs ++ ys) i ≡ some x
get_elem?-append [] ys i h = cc
get_elem?-append (z ∷ xs) ys zero h = h
get_elem?-append (z ∷ xs) ys (suc i) h = get_elem?-append xs ys i h

pub get_elem?-append_last {ℓ} :
    {A : Type ℓ} (xs : List A) (y : A) → get_elem? (xs ++ y ∷ []) (length xs) ≡ some y
get_elem?-append_last [] y = refl
get_elem?-append_last (x ∷ xs) y = get_elem?-append_last xs y

pub set-append_last {ℓ} :
    {A : Type ℓ} (xs : List A) (y z : A) → set (xs ++ y ∷ []) (length xs) z ≡ xs ++ z ∷ []
set-append_last [] y z = refl
set-append_last (x ∷ xs) y z = ap (λ (t : List _). x ∷ t) (set-append_last xs y z)

All-below_more :
    (total : ℕ) (l : List Packing.Entry)
    → All (λ (e : Packing.Entry). e.index < total) l
    → All (λ (e : Packing.Entry). e.index < suc total) l
All-below_more total [] h = tt
All-below_more total (e ∷ l) (he, h) = (omega arith, All-below_more total l h)

-- A new sensor, with or without an entry on the packer's side.
module _ {b : Buckets} {total : ℕ} {entries : List Unpacking.Entry} (m : Matches b total entries)
    (r : Unpacking.Entry) where
  Known-append :
      (n : List ℕ) (e : Packing.Entry) → Known entries n e → Known (entries ++ r ∷ []) n e
  Known-append n e k = record {
    entry = k.entry;
    at_index = get_elem?-append entries (r ∷ []) e.index k.at_index;
    same_name = k.same_name;
    same_unit = k.same_unit;
    same_value = k.same_value;
  }

  grown : suc total ≡ length (entries ++ r ∷ [])
  grown = omega (arith, length-append entries (r ∷ []), m.count)

  pub grow-Matches : Matches b (suc total) (entries ++ r ∷ [])
  grow-Matches = record {
    known = λ n e h. Known-append n e (m.known n e h);
    below = λ k. All-below_more total _ (m.below k);
    count = grown;
  }

  pub push-Matches :
      (e : Packing.Entry)
      → e.index ≡ total
      → r.name ≡ e.name
      → r.unit ≡ e.unit
      → r.value ≡ e.last_value
      → Matches (push b e) (suc total) (entries ++ r ∷ [])
  push-Matches e at_end name unit value = record {
    known = λ n e' h. elim (Bool-cases (bytes_eq e.name n)) [
      | inl p ↦
          subst (Known (entries ++ r ∷ []) n) (some_injective (sym (rw p at (find-push b e n)) ∙ h))
            (record {
              entry = r;
              at_index =
                  ap (get_elem? (entries ++ r ∷ [])) (at_end ∙ m.count)
                  ∙ get_elem?-append_last entries r;
              same_name = name ∙ bytes_eq→eq e.name n p;
              same_unit = unit;
              same_value = value;
            })
      | inr p ↦ Known-append n e' (m.known n e' (sym (rw p at (find-push b e n)) ∙ h))
    ];
    below = λ k. elim (Bool-cases (hash_function e.name == k)) [
      | inl p ↦ rw p (omega arith, All-below_more total _ (m.below (hash_function e.name)))
      | inr p ↦ rw p (All-below_more total _ (m.below k))
    ];
    count = grown;
  }

  -- No chain has an entry of the next index.
  pub no_index :
      (l : List Packing.Entry)
      → All (λ (e : Packing.Entry). e.index < total) l
      → has_index l total ≡ false
  unfolding has_index
  no_index [] h = refl
  no_index (e ∷ l) (he, h) = ground (arith, no_index l h)
