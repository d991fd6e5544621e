-- ===== src/Codec/Units.antt =====
-- The units of the sensors in the packer's table.
use otic.Prelude.{
  Bool, ℕ, Option, none, some, List, bytes_eq, bytes_eq→eq, ◌≡◌, ◌⊎◌, inl, inr, refl, sym, ap, ◌∙◌,
  arith, Bool-cases, Option-cases, if◌then◌else◌,
}
use mathlib.Core.Option
use otic.Base.Oval.{Oval}
use otic.Pack.Channel as Packing
use otic.Codec.Table.{Buckets, find, store, push, with_last, find-store, find-push}

-- Every sensor of a table was in the one before with this unit, or is the one that was named, with the
-- unit that was given.
abbrev pub UnitsFrom : Buckets → Buckets → List ℕ → List ℕ → Type 0
UnitsFrom b b' name unit =
    (n : List ℕ) (e' : Packing.Entry)
    → find b' n ≡ some e'
    → ((e : Packing.Entry) × (find b n ≡ some e) × (e'.unit ≡ e.unit))
      ⊎ ((n ≡ name) × (e'.unit ≡ unit))

unit_of_some : List ℕ → Option Packing.Entry → List ℕ
unit_of_some none_unit none = none_unit
unit_of_some none_unit (some e) = e.unit

same_unit : (e e' : Packing.Entry) → some e ≡ some e' → e'.unit ≡ e.unit
unfolding unit_of_some
same_unit e e' h = ap (unit_of_some e.unit) (sym h)

pub kept-UnitsFrom : (b : Buckets) (name unit : List ℕ) → UnitsFrom b b name unit
kept-UnitsFrom b name unit n e' h = inl (e', h, refl)

-- What is found where the names are compared.
stored-find :
    (b : Buckets) (name n : List ℕ) (w : Oval) {t : Bool}
    → bytes_eq name n ≡ t
    → find (store b name w) n ≡ (if t then Option.map (with_last w) (find b name) else find b n)
stored-find b name n w p =
    find-store b name n w
    ∙ ap (λ (t : Bool). if t then Option.map (with_last w) (find b name) else find b n) p

pushed-find :
    (b : Buckets) (e : Packing.Entry) (n : List ℕ) {t : Bool}
    → bytes_eq e.name n ≡ t
    → find (push b e) n ≡ (if t then some e else find b n)
pushed-find b e n p = find-push b e n ∙ ap (λ (t : Bool). if t then some e else find b n) p

pub store-UnitsFrom :
    (b : Buckets) (name unit : List ℕ) (w : Oval) → UnitsFrom b (store b name w) name unit
store-UnitsFrom b name unit w n e' h = elim (Bool-cases (bytes_eq name n)) [
  | inr p ↦ let h1 : find b n ≡ some e' = sym (stored-find b name n w p) ∙ h in inl (e', h1, refl)
  | inl p ↦
      let h1 : Option.map (with_last w) (find b name) ≡ some e' =
        sym (stored-find b name n w p) ∙ h in
      let same : name ≡ n = bytes_eq→eq name n p in
      elim (Option-cases (find b name)) [
        | inl absent ↦ absurd (ground (arith, absent, h1))
        | inr (e, found) ↦
            let h2 : some (with_last w e) ≡ some e' =
              sym (ap (λ (o : Option Packing.Entry). Option.map (with_last w) o) found) ∙ h1 in
            inl
              (e, ap (λ (x : List ℕ). find b x) (sym same) ∙ found, same_unit (with_last w e) e' h2)
      ]
]

pub push-UnitsFrom : (b : Buckets) (e : Packing.Entry) → UnitsFrom b (push b e) e.name e.unit
push-UnitsFrom b e n e' h = elim (Bool-cases (bytes_eq e.name n)) [
  | inr p ↦ let h1 : find b n ≡ some e' = sym (pushed-find b e n p) ∙ h in inl (e', h1, refl)
  | inl p ↦
      let h1 : some e ≡ some e' = sym (pushed-find b e n p) ∙ h in
      inr (sym (bytes_eq→eq e.name n p), same_unit e e' h1)
]
