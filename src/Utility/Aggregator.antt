-- ===== src/Utility/Aggregator.antt =====
-- src/utility/aggregator.c: one value out of many.
pub mod Extremes
pub mod Runs
use otic.Prelude.{
  ℕ, ◌+◌, ◌-◌, ◌%◌, ◌^◌, Bool, true, false, Option, none, some, List, [], ◌∷◌, ◌==◌, if◌then◌else◌,
  ◌>>=◌,
}
use otic.Base.{Floating, increment}
use otic.Base.Oval.{Oval, null, int_neg, int_pos, double, double_eq}
use otic.Base.Double.{double_lt, dbl_max, dbl_min}

-- `otic_aggregType_e`
pub data AggregType : Type 0 where
  no_type min max avg first last sum count : AggregType

-- The types that an aggregator gives to its own value.
pub data ValueType : Type 0 where
  type_null type_int_pos type_double : ValueType

-- `otic_aggreg_t`. Its `value` is an `oval_t`: FIRST and LAST copy whole values, which `copied`
-- holds, and the others use its type and the 64 bits of `lval` or `dval`. Which functions `insert` and
-- `get` point to is what `pointers` says, and nothing where they are null.
pub record Aggreg : Type 0 where
  pub type : AggregType
  pub copied : Oval
  pub value_type : ValueType
  pub word : ℕ
  pub counter : ℕ
  pub pointers : Option AggregType

-- `otic_oval_setn`
abbrev set_null : Aggreg → Aggreg
set_null a = record a { copied = null; value_type = type_null }

-- `otic_aggreg_init`. The type NULL has no case, and sets the type alone.
unfoldable pub init : Aggreg → AggregType → Aggreg
init a no_type = record a { type = no_type }
init a min = record a { type = min; value_type = type_double; pointers = some min; word = dbl_max }
init a max = record a { type = max; value_type = type_double; pointers = some max; word = dbl_min }
init a avg = record a {
  type = avg;
  value_type = type_null;
  pointers = some avg;
  word = 0;
  counter = 0;
}
init a first = record a {
  type = first;
  counter = 0;
  copied = null;
  value_type = type_null;
  pointers = some first;
}
init a last = record a { type = last; pointers = some last }
init a sum = record a { type = sum; value_type = type_null; pointers = some sum; word = 0 }
init a count = record a { type = count; value_type = type_int_pos; pointers = some count; word = 0 }

-- `otic_aggreg_reset`
unfoldable pub reset : Aggreg → Aggreg
reset a = reset_by a.type (set_null a)
  where
    reset_by : AggregType → Aggreg → Aggreg
    reset_by min b = record b { word = dbl_max }
    reset_by max b = record b { word = dbl_min }
    reset_by avg b = record b { word = 0; counter = 0 }
    reset_by first b = record b { counter = 0 }
    reset_by sum b = record b { word = 0 }
    reset_by count b = record b { word = 0 }
    reset_by _ b = b

-- `otic_aggreg_close`
unfoldable pub close : Aggreg → Aggreg
close a = record (set_null a) { type = no_type; counter = 0; pointers = none }

-- `add` is `x + y` on `double`.
module _ (fl : Floating) (add : ℕ → ℕ → ℕ) where
  -- A number as a `double`. The negation of a `uint64_t` is one.
  unfoldable pub number : Oval → Option ℕ
  number (int_pos n) = some (fl.of_u64 n)
  number (int_neg n) = some (fl.of_u64 ((2 ^ 64 - n) % 2 ^ 64))
  number (double w) = some w
  number _ = none

  unfoldable pub with_number : Option ℕ → Aggreg → (ℕ → Aggreg) → Aggreg
  with_number none a next = a
  with_number (some x) a next = next x

  unfoldable pub insert_min : Aggreg → Oval → Aggreg
  unfolding number with_number double_lt
  insert_min a v =
      with_number (number v) a (λ x. if double_lt x a.word then record a { word = x } else a)

  unfoldable pub insert_max : Aggreg → Oval → Aggreg
  unfolding number with_number double_lt
  insert_max a v =
      with_number (number v) a (λ x. if double_lt a.word x then record a { word = x } else a)

  unfoldable pub insert_avg : Aggreg → Oval → Aggreg
  unfolding number with_number
  insert_avg a v =
      with_number (number v) a
        (λ x. record a { word = add a.word x; counter = increment a.counter })

  unfoldable pub insert_first : Aggreg → Oval → Aggreg
  insert_first a v = if a.counter == 1 then a else record a { counter = 1; copied = v }

  unfoldable pub insert_last : Aggreg → Oval → Aggreg
  insert_last a v = record a { copied = v }

  unfoldable pub insert_sum : Aggreg → Oval → Aggreg
  unfolding number with_number
  insert_sum a v =
      with_number (number v) a (λ x. record a { word = add a.word x; value_type = type_double })

  unfoldable pub insert_count : Aggreg → Oval → Aggreg
  insert_count a v = record a { word = increment a.word }

  -- A value of the aggregator's own.
  unfoldable pub own_value : ValueType → ℕ → Oval
  own_value type_null w = null
  own_value type_int_pos w = int_pos w
  own_value type_double w = double w

  unfoldable pub get_min : Aggreg → Oval
  unfolding own_value double_eq
  get_min a = own_value (if double_eq a.word dbl_max then type_null else type_double) a.word

  unfoldable pub get_max : Aggreg → Oval
  unfolding own_value double_eq
  get_max a = own_value (if double_eq a.word dbl_min then type_null else type_double) a.word

  unfoldable pub get_avg : Aggreg → Oval
  get_avg a = if a.counter == 0 then null else double (fl.div a.word (fl.of_u64 a.counter))

  unfoldable pub get_own : Aggreg → Oval
  unfolding own_value
  get_own a = own_value a.value_type a.word

  -- A call through `insert`, and one through `get`. A null pointer is not called, which is `none`.
  unfoldable pub insert : Aggreg → Oval → Option Aggreg
  unfolding insert_min insert_max insert_avg insert_first insert_last insert_sum insert_count
  insert a v = elim a.pointers [
    | some min ↦ some (insert_min a v)
    | some max ↦ some (insert_max a v)
    | some avg ↦ some (insert_avg a v)
    | some first ↦ some (insert_first a v)
    | some last ↦ some (insert_last a v)
    | some sum ↦ some (insert_sum a v)
    | some count ↦ some (insert_count a v)
    | _ ↦ none
  ]

  unfoldable pub get : Aggreg → Option Oval
  unfolding get_min get_max get_avg get_own
  get a = elim a.pointers [
    | some min ↦ some (get_min a)
    | some max ↦ some (get_max a)
    | some avg ↦ some (get_avg a)
    | some first ↦ some a.copied
    | some last ↦ some a.copied
    | some sum ↦ some (get_own a)
    | some count ↦ some (get_own a)
    | _ ↦ none
  ]

  -- Values that are inserted one after the other.
  unfoldable pub insert_all : Aggreg → List Oval → Option Aggreg
  unfolding insert
  insert_all a [] = some a
  insert_all a (v ∷ vs) = insert a v >>= λ (b : Aggreg). insert_all b vs
