-- ===== src/Codec/Accept/Puts.antt =====
-- Puts that are not refused: there is memory for an entry, and the name and the unit fit the byte
-- that holds their length.
use otic.Prelude.{
  ℕ, ◌+◌, ◌%◌, ◌^◌, ◌≤◌, Bool, true, false, Option, some, List, ◌++◌, length, ltb, ◌≡◌, refl, arith,
  inl, inr, Bool-cases, Option-cases, if◌then◌else◌,
}
use otic.Base.Types.{OticType, small_int_limit, type_eq}
use otic.Base.Oval.{Oval, null, bool_true, bool_false, int_neg, int_pos, double, string, get_type}
use otic.Pack.Channel.{Channel}
use otic.Pack.Entries.{
  hash_function, has_index, entry_find, entry_insert_routine, entry_insert, entry_insert_bool,
  entry_insert_u, entry_insert_un, entry_insert_d, entry_insert_s, entry_insert_n,
}
use otic.Pack.Put.{
  Outcome, done, failed, put_bool, put_i_neg, put_i, put_d, put_s, put_n, check_size, check_entry,
  ignore_entry, same_int_neg, same_int_pos, same_double, same_string,
}

abbrev pub IsDone : Outcome → Type 0
IsDone (done c) = Unit {0}
IsDone (failed c) = ⊥

-- With memory an entry is always inserted.
inserted :
    (c : Channel) (name unit : List ℕ) (index : ℕ) (v : Oval)
    → (c' : Channel) × (entry_insert true c name unit index v ≡ some c')
unfolding entry_insert entry_insert_routine
inserted c name unit index v =
    elim (Bool-cases (has_index (c.buckets (hash_function name)) index)) [
      | inl p ↦ rw p (_, refl)
      | inr p ↦ rw p (_, refl)
    ]

-- Both branches of a test that write.
either : (b : Bool) (x y : Channel) → IsDone (if b then done x else done y)
either true x y = tt
either false x y = tt

module _ (c : Channel) (name unit : List ℕ) (fits : length name + length unit + 1 ≤ 255) where
  checked_entry :
      (o : Option Channel) (rest : Channel → Channel) (c' : Channel)
      → o ≡ some c'
      → IsDone (check_size c name unit (check_entry c o rest))
  unfolding check_size check_entry
  checked_entry o rest c' e =
      let size : ltb 255 (length name + length unit + 1) ≡ false = ground arith in rw (size, e) tt

  ignored_entry :
      (o : Option Channel) (rest : Channel → Channel) (c' : Channel)
      → o ≡ some c'
      → IsDone (check_size c name unit (ignore_entry c o rest))
  unfolding check_size ignore_entry
  ignored_entry o rest c' e =
      let size : ltb 255 (length name + length unit + 1) ≡ false = ground arith in rw (size, e) tt

  pub put_bool-IsDone : (value : Bool) → IsDone (put_bool true c name unit value)
  unfolding put_bool entry_insert_bool
  put_bool-IsDone value =
      let (c', e) =
        inserted c name unit c.total_entries (if value then bool_true else bool_false) in
      elim (Option-cases (entry_find c name)) [
        | inl absent ↦ rw (absent, put_bool) (checked_entry _ _ c' e)
        | inr (old, found) ↦
            rw (found, put_bool)
              (either
                (type_eq (get_type old.last_value)
                  (if value then OticType.bool_true else OticType.bool_false))
                _ _)
      ]

  pub put_i_neg-IsDone : (value : ℕ) → IsDone (put_i_neg true c name unit value)
  unfolding put_i_neg entry_insert_un
  put_i_neg-IsDone value =
      let (c', e) = inserted c name unit c.total_entries (int_neg (value % 2 ^ 32)) in
      elim (Option-cases (entry_find c name)) [
        | inl absent ↦ rw (absent, put_i_neg) (checked_entry _ _ c' e)
        | inr (old, found) ↦ rw (found, put_i_neg) (either (same_int_neg old.last_value value) _ _)
      ]

  pub put_d-IsDone : (value : ℕ) → IsDone (put_d true c name unit value)
  unfolding put_d entry_insert_d
  put_d-IsDone value =
      let (c', e) = inserted c name unit c.total_entries (double value) in
      elim (Option-cases (entry_find c name)) [
        | inl absent ↦ rw (absent, put_d) (ignored_entry _ _ c' e)
        | inr (old, found) ↦ rw (found, put_d) (either (same_double old.last_value value) _ _)
      ]

  pub put_s-IsDone : (value : List ℕ) → IsDone (put_s true c name unit value)
  unfolding put_s entry_insert_s
  put_s-IsDone value =
      let (c', e) = inserted c name unit c.total_entries (string (value ++ c.stale)) in
      elim (Option-cases (entry_find c name)) [
        | inl absent ↦ rw (absent, put_s) (ignored_entry _ _ c' e)
        | inr (old, found) ↦ rw (found, put_s) (either (same_string old.last_value value) _ _)
      ]

  pub put_i-IsDone : (value : ℕ) → IsDone (put_i true c name unit value)
  unfolding put_i entry_insert_u
  put_i-IsDone value =
      let (c', e) = inserted c name unit c.total_entries (int_pos (value % 2 ^ 32)) in
      elim (Option-cases (entry_find c name)) [
        | inl absent ↦ rw (absent, put_i) (checked_entry _ _ c' e)
        | inr (old, found) ↦ elim (Bool-cases (same_int_pos old.last_value value)) [
          | inl p ↦ rw (found, put_i) (rw p tt)
          | inr p ↦ rw (found, put_i) (rw p (either (ltb value small_int_limit) _ _))
        ]
      ]

  pub put_n-IsDone : IsDone (put_n true c name unit)
  unfolding put_n entry_insert_n
  put_n-IsDone =
      let (c1, e1) = inserted c name unit c.total_entries null in
      let (c2, e2) = inserted c1 name unit c1.total_entries null in
      elim (Option-cases (entry_find c name)) [
        | inl absent ↦ rw (absent, put_n) (checked_entry _ _ c2 (rw e1 e2))
        | inr (old, found) ↦
            rw (found, put_n) (either (type_eq (get_type old.last_value) OticType.null) _ _)
      ]
