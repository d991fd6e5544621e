-- ===== src/Pack/Array.antt =====
-- Arrays in the writer, src/core/pack.c: `write_array`, and the entry of a sensor of arrays.
use otic.Prelude.{ℕ, suc, Bool, Option, List, ltb, if◌then◌else◌}
use otic.Base.Types.{OticType, small_int_limit}
use otic.Base.Oval.{
  Oval, Elements, nil, cons, bool_true, bool_false, int_neg, int_pos, float, double, string, array,
}
use otic.Pack.Channel.{
  Channel, write_byte, write_type, write_long, write_double, write_float, write_string,
}
use otic.Pack.Entries.{entry_insert}

-- `size` of an array.
abbrev pub size_of : Elements → ℕ
size_of nil = 0
size_of (cons v vs) = suc (size_of vs)

-- `write_array`, of which `write_elements` is the loop. An element whose type has no case, as null,
-- writes nothing. `to_float` is the conversion of a `double` to a `float`. The values have no objects.
module _ (to_float : ℕ → ℕ) where
  unfoldable mutual
    pub write_elements : Channel → Elements → Channel
    write_elements c nil = c
    write_elements c (cons v vs) = write_elements (write_element c v) vs

    pub write_element : Channel → Oval → Channel
    write_element c (int_pos n) =
        if ltb n small_int_limit
        then write_byte c n
        else write_long (write_type c OticType.int_pos) n
    write_element c (int_neg n) = write_long (write_type c OticType.int_neg) n
    write_element c (double w) = write_double (write_type c OticType.double) w
    write_element c (float w) = write_float (write_type c OticType.float) (to_float w)
    write_element c (string s) = write_string (write_type c OticType.string) s
    write_element c (array vs) =
        write_elements (write_long (write_type c OticType.array) (size_of vs)) vs
    write_element c bool_true = write_type c OticType.bool_true
    write_element c bool_false = write_type c OticType.bool_false
    write_element c _ = c

  unfoldable pub write_array : Channel → Elements → Channel
  unfolding write_elements write_long
  write_array c vs = write_elements (write_long c (size_of vs)) vs

-- `otic_pack_entry_insert_array`: the entry is an array without elements, as its memory was cleared.
unfoldable pub entry_insert_array : Bool → Channel → List ℕ → List ℕ → ℕ → Option Channel
unfolding entry_insert
entry_insert_array memory c name unit index = entry_insert memory c name unit index (array nil)
