-- ===== src/Unpack/Kept/Arrays.antt =====
-- The bytes behind an array are some of those before it.
use otic.Prelude.{
  ℕ, zero, suc, ◌%◌, ◌^◌, ◌≤◌, Bool, true, false, Option, none, some, List, [], ◌∷◌, length, arith,
  ◌>>=◌, OfSome, OfSome-bind,
}
use otic.Prelude.Bytes.{le_read}
use otic.Base.Types.{OticType, type_of_code}
use otic.Base.Oval.{Oval, cons, int_neg, int_pos, double, float}
use otic.Leb128.{decode_unsigned}
use otic.Unpack.Read.{split}
use otic.Unpack.Array.{
  Answer, element, short_text, scalar, read_array, read_elements, read_element, nulls,
}
use otic.Unpack.Kept.{split_shorter, le_read_shorter, decode_shorter}

abbrev pub Behind : {A : Type 0} → List ℕ → Answer A → Type 0
Behind bs = OfSome (λ r. length r.2 ≤ length bs)

element_shorter :
    (build : ℕ → Oval) (bs : List ℕ) (m : Option (ℕ × List ℕ))
    → OfSome (λ (r : ℕ × List ℕ). length r.1 ≤ length bs) m
    → Behind bs (element build m)
element_shorter build bs none h = tt
element_shorter build bs (some r) h = h

short_text_shorter : (bs : List ℕ) → Behind bs (short_text bs)
unfolding short_text
short_text_shorter [] = tt
short_text_shorter (n ∷ bs) =
    OfSome-bind _ _ (split n bs) _ (split_shorter n bs) (λ r h. omega (arith, h))

float_shorter : (bs : List ℕ) → Behind bs (le_read 8 bs >>= λ _. element float (le_read 4 bs))
float_shorter bs =
    OfSome-bind _ _ (le_read 8 bs) _ (le_read_shorter 8 bs)
      (λ r h. element_shorter float bs (le_read 4 bs) (le_read_shorter 4 bs))

scalar_shorter : (t : Option OticType) (bs : List ℕ) → Behind bs (scalar t bs)
unfolding scalar
scalar_shorter (some OticType.int_pos) bs =
    element_shorter int_pos bs (decode_unsigned bs) (decode_shorter bs)
scalar_shorter (some OticType.int_neg) bs =
    element_shorter int_neg bs (decode_unsigned bs) (decode_shorter bs)
scalar_shorter (some OticType.double) bs =
    element_shorter double bs (le_read 8 bs) (le_read_shorter 8 bs)
scalar_shorter (some OticType.float) bs = float_shorter bs
scalar_shorter (some OticType.string) bs = short_text_shorter bs
scalar_shorter _ bs = omega arith

-- The three readers with the same fuel.
record Shorter (fuel : ℕ) : Type 0 where
  arrays : (bs : List ℕ) → Behind bs (read_array fuel bs)
  elements : (n : ℕ) (bs : List ℕ) → Behind bs (read_elements fuel n bs)
  one : (t : Option OticType) (bs : List ℕ) → Behind bs (read_element fuel t bs)

-- What is behind a later place is behind an earlier one.
Behind-le :
    {A : Type 0} (bs cs : List ℕ) (m : Answer A) → length cs ≤ length bs → Behind cs m → Behind bs m
Behind-le bs cs none le h = tt
Behind-le bs cs (some r) le h = omega (arith, le, h)

module _ (fuel : ℕ) (h : Shorter fuel) where
  array_next : (bs : List ℕ) → Behind bs (read_array (suc fuel) bs)
  unfolding read_array
  array_next bs =
      OfSome-bind _ _ (decode_unsigned bs) _ (decode_shorter bs)
        (λ r le. Behind-le bs r.1 _ le (h.elements (r.0 % 2 ^ 32) r.1))

  -- The other elements, behind one that was read well or not.
  others :
      (n : ℕ) (bs rest : List ℕ) (good : Bool) (v : Oval)
      → length rest ≤ length bs
      → Behind bs (elim good [
        | true ↦ read_elements fuel n rest >>= λ (good', vs, rest'). some (good', cons v vs, rest')
        | false ↦ some (false, cons v (nulls n), rest)
      ])
  others n bs rest true v le =
      OfSome-bind _ _ (read_elements fuel n rest) _ (h.elements n rest)
        (λ r le'. omega (arith, le, le'))
  others n bs rest false v le = le

  elements_next : (n : ℕ) (bs : List ℕ) → Behind bs (read_elements (suc fuel) n bs)
  unfolding read_array
  elements_next zero bs = omega arith
  elements_next (suc n) [] = tt
  elements_next (suc n) (b ∷ bs) =
      OfSome-bind _ _ (read_element fuel (type_of_code b) bs) _ (h.one (type_of_code b) bs)
        (λ r le. others n (b ∷ bs) r.2 r.0 r.1 (omega (arith, le)))

  one_next : (t : Option OticType) (bs : List ℕ) → Behind bs (read_element (suc fuel) t bs)
  unfolding read_array
  one_next (some OticType.array) bs =
      OfSome-bind _ _ (read_array fuel bs) _ (h.arrays bs) (λ r le. le)
  one_next t bs = scalar_shorter t bs

no_elements : (n : ℕ) (bs : List ℕ) → Behind bs (read_elements zero n bs)
unfolding read_array
no_elements zero bs = omega arith
no_elements (suc n) bs = tt

all-Shorter : (fuel : ℕ) → Shorter fuel
unfolding read_array
all-Shorter zero = record { arrays = λ bs. tt; elements = no_elements; one = λ t bs. tt }
all-Shorter (suc fuel) =
    let h = all-Shorter fuel in
    record { arrays = array_next fuel h; elements = elements_next fuel h; one = one_next fuel h }

pub array_shorter : (fuel : ℕ) (bs : List ℕ) → Behind bs (read_array fuel bs)
array_shorter fuel = (all-Shorter fuel).arrays
