-- ===== src/Codec/Puts/New.antt =====
-- Puts for a sensor that has no value: its name and its first value.
use otic.Prelude.{
  ℕ, suc, ◌+◌, ◌%◌, ◌^◌, ◌≤◌, ◌<◌, Bool, true, false, not, ◌&&◌, none, some, get_elem?, List, [],
  ◌∷◌, ◌++◌, append-nil, length, append_assoc, ltb, ◌==◌, ◌≡◌, ◌∙◌, refl, ap, arith, Bool-cases,
  inl, inr, if◌then◌else◌,
}
use otic.Prelude.Bytes.{le_bytes}
use otic.Base.{Floating}
use otic.Base.Types.{type_code, small_int_limit}
use otic.Base.Oval.{Oval, null, bool_true, bool_false, int_neg, int_pos, double, string}
use otic.Leb128.{IsU64, encode_unsigned}
use otic.Pack.Channel as Packing
use otic.Pack.Entries.{
  entry_insert, entry_insert_bool, entry_insert_u, entry_insert_un, entry_insert_d, entry_insert_s,
  entry_insert_n,
}
use otic.Pack.Put.{
  put_bool, put_i_neg, put_i, put_d, put_s, put_n, define_bool, define_i_neg, define_i, define_d,
  define_s, define_n,
}
use otic.Unpack.Channel as Unpacking
use otic.Codec.Reads.{OneRecord}
use otic.Codec.Records.{
  delivered, with_value, null_record, true_record, false_record, smallint_record, intpos_record,
  intneg_record, double_record, string_record,
}
use otic.Codec.Sizes.{text_size, one_short, two_short, double_short, text_short}
use otic.Codec.Table.{find}
use otic.Codec.Insert.{pushed, insert_twice}
use otic.Codec.Headers.{new_entry, assigned}
use otic.Codec.Sync.{Delivers, deliver_pushed, deliver_unpushed}
use otic.Codec.Puts.{
  Ready, PutSpec, new_checked, new_ignored, total_small, next_total, shown_new, found_fresh,
  free_index,
}

byte_small : (n : ℕ) → ltb n small_int_limit ≡ true → n % 256 ≡ n
byte_small n h = ground arith

low_word : (n : ℕ) → n < 2 ^ 32 → n % 2 ^ 32 ≡ n
low_word n h = omega arith

module _ (fl : Floating) (version : ℕ) {c : Packing.Channel} {u : Unpacking.Channel} {name : List ℕ}
    (r : Ready fl c u name) (memory : Bool) (unit : List ℕ)
    (absent : find c.buckets name ≡ none) where
  abbrev t : ℕ
  t = c.total_entries

  small : t < 2 ^ 32
  small = total_small fl version r unit absent

  next : (t + 1) % 2 ^ 16 ≡ suc t
  next = next_total fl version r unit absent

  -- The channel after the insertion.
  abbrev inserted : Oval → Packing.Channel
  inserted v = pushed c name unit t v

  module _ (fits : length name + length unit + 1 ≤ 255) where
    abbrev reader : Unpacking.Channel
    reader = assigned u name unit

    abbrev entry : Unpacking.Entry
    entry = new_entry u name unit

    found : get_elem? reader.entries t ≡ some entry
    found = found_fresh fl version r unit absent fits

    shown : (entry.ignore && not (length u.to_fetch == 0)) ≡ false
    shown = shown_new fl version r unit absent

    -- What a definition of the sensor writes, once its entry is in the table.
    first :
        (c' : Packing.Channel) (b : ℕ) (bs : List ℕ) (v : Oval)
        → c'.base ≡ record (c.base) {
          cache =
              c.base.cache
              ++ ((215 ∷ ((length name + length unit + 1) % 256) ∷ (name ++ 0 ∷ unit)) ++ b ∷ bs);
        }
        → length bs ≤ 20 + text_size v
        → (c'.channel_id ≡ c.channel_id) × (c'.threshold ≡ c.threshold) × (c'.stale ≡ c.stale)
        → c'.buckets ≡ (inserted v).buckets
        → c'.total_entries ≡ (t + 1) % 2 ^ 16
        → OneRecord fl version reader b bs (delivered reader t (with_value entry v))
        → Delivers fl version c c' u name unit v
    first c' b bs v written short same_id stored total record_read =
        deliver_pushed fl version r.sync c' name unit absent r.chars fits r.space b bs v written
          short same_id stored (total ∙ next) record_read

    -- The same without an entry.
    first_unknown :
        (c' : Packing.Channel) (b : ℕ) (bs : List ℕ) (v : Oval)
        → c'.base ≡ record (c.base) {
          cache =
              c.base.cache
              ++ ((215 ∷ ((length name + length unit + 1) % 256) ∷ (name ++ 0 ∷ unit)) ++ b ∷ bs);
        }
        → length bs ≤ 20 + text_size v
        → (c'.channel_id ≡ c.channel_id) × (c'.threshold ≡ c.threshold) × (c'.stale ≡ c.stale)
        → c'.buckets ≡ c.buckets
        → c'.total_entries ≡ (t + 1) % 2 ^ 16
        → OneRecord fl version reader b bs (delivered reader t (with_value entry v))
        → Delivers fl version c c' u name unit v
    first_unknown c' b bs v written short same_id kept total record_read =
        deliver_unpushed fl version r.sync c' name unit absent r.chars fits r.space b bs v written
          short same_id kept (total ∙ next) record_read

    defined_bool :
        (value : Bool)
        → let v = if value then bool_true else bool_false in
          Delivers fl version c (define_bool name unit value (inserted v)) u name unit v
    unfolding define_bool type_code
    defined_bool true =
        first _ 209 (encode_unsigned t) bool_true (simp append_assoc)
          (omega (arith, one_short t small)) (refl, refl, refl) refl refl
          (true_record reader t entry found shown fl version small)
    defined_bool false =
        first _ 210 (encode_unsigned t) bool_false (simp append_assoc)
          (omega (arith, one_short t small)) (refl, refl, refl) refl refl
          (false_record reader t entry found shown fl version small)

    defined_i_neg :
        (value : ℕ)
        → IsU64 value
        → Delivers fl version c
            (define_i_neg name unit value (inserted (int_neg value)))
            u
            name
            unit
            (int_neg value)
    unfolding define_i_neg type_code
    defined_i_neg value h =
        first _ 202 (encode_unsigned t ++ encode_unsigned value) (int_neg value) (simp append_assoc)
          (two_short t small value h) (refl, refl, refl) refl refl
          (intneg_record reader t entry found shown fl version small value h)

    defined_i :
        (value : ℕ)
        → IsU64 value
        → Delivers fl version c
            (define_i name unit value (inserted (int_pos value)))
            u
            name
            unit
            (int_pos value)
    unfolding define_i type_code
    defined_i value h = elim (Bool-cases (ltb value small_int_limit)) [
      | inl q ↦
          rw (q, define_i)
            (first _ value (encode_unsigned t) (int_pos value)
              (rw (byte_small value q) (simp append_assoc)) (omega (arith, one_short t small))
              (refl, refl, refl) refl refl
              (smallint_record reader t entry found shown fl version small value q))
      | inr q ↦
          rw (q, define_i)
            (first _ 203 (encode_unsigned t ++ encode_unsigned value) (int_pos value)
              (simp append_assoc) (two_short t small value h) (refl, refl, refl) refl refl
              (intpos_record reader t entry found shown fl version small value h))
    ]

    double_first :
        (value : ℕ)
        → IsU64 value
        → OneRecord fl version reader 205
            (encode_unsigned t ++ le_bytes 8 value)
            (delivered reader t (with_value entry (double value)))
    double_first value h = double_record reader t entry found shown fl version small value h

    defined_d :
        (value : ℕ)
        → IsU64 value
        → Delivers fl version c
            (define_d name unit value (inserted (double value)))
            u
            name
            unit
            (double value)
    unfolding define_d type_code
    defined_d value h =
        first _ 205 (encode_unsigned t ++ le_bytes 8 value) (double value) (simp append_assoc)
          (double_short t small value) (refl, refl, refl) refl refl (double_first value h)

    unknown_d :
        (value : ℕ)
        → IsU64 value
        → Delivers fl version c (define_d name unit value c) u name unit (double value)
    unfolding define_d type_code
    unknown_d value h =
        first_unknown _ 205 (encode_unsigned t ++ le_bytes 8 value) (double value)
          (simp append_assoc) (double_short t small value) (refl, refl, refl) refl refl
          (double_first value h)

    module _ (value : List ℕ) (hv : (version == 1) ≡ false) (h : IsU64 (length value)) where
      abbrev text : List ℕ
      text = encode_unsigned t ++ (encode_unsigned (length value) ++ value)

      text_first :
          OneRecord fl version reader 206 text
            (delivered reader t (with_value entry (string value)))
      text_first = string_record reader t entry found shown fl version small value hv h

      defined_s :
          Delivers fl version c
            (define_s name unit value (inserted (string value)))
            u
            name
            unit
            (string value)
      unfolding define_s type_code
      defined_s =
          first _ 206 text (string value) (simp append_assoc) (text_short t small value h)
            (refl, refl, refl) refl refl text_first

      unknown_s : Delivers fl version c (define_s name unit value c) u name unit (string value)
      unfolding define_s type_code
      unknown_s =
          first_unknown _ 206 text (string value) (simp append_assoc) (text_short t small value h)
            (refl, refl, refl) refl refl text_first

    defined_n : Delivers fl version c (define_n name unit (inserted null)) u name unit null
    unfolding define_n type_code
    defined_n =
        first _ 201 (encode_unsigned t) null (simp append_assoc) (omega (arith, one_short t small))
          (refl, refl, refl) refl refl (null_record reader t entry found shown fl version small)

  pub put_bool_new :
      (value : Bool)
      → PutSpec fl version c u name unit
          (if value then bool_true else bool_false)
          (put_bool memory c name unit value)
  unfolding put_bool
  put_bool_new value =
      rw (absent, put_bool)
        (new_checked fl version r unit absent memory (entry_insert_bool memory c name unit t value)
          (if value then bool_true else bool_false) (define_bool name unit value)
          (unfold entry_insert_bool in refl) (λ fits. defined_bool fits value))

  -- Of an integer the entry keeps 32 bits.
  pub put_i_neg_new :
      (value : ℕ)
      → value < 2 ^ 32
      → PutSpec fl version c u name unit (int_neg value) (put_i_neg memory c name unit value)
  unfolding put_i_neg
  put_i_neg_new value h =
      rw (absent, put_i_neg)
        (new_checked fl version r unit absent memory (entry_insert_un memory c name unit t value)
          (int_neg value) (define_i_neg name unit value)
          (unfold entry_insert_un in
            ap (λ (n : ℕ). entry_insert memory c name unit t (int_neg n)) (low_word value h))
          (λ fits. defined_i_neg fits value (omega arith)))

  pub put_i_new :
      (value : ℕ)
      → value < 2 ^ 32
      → PutSpec fl version c u name unit (int_pos value) (put_i memory c name unit value)
  unfolding put_i
  put_i_new value h =
      rw (absent, put_i)
        (new_checked fl version r unit absent memory (entry_insert_u memory c name unit t value)
          (int_pos value) (define_i name unit value)
          (unfold entry_insert_u in
            ap (λ (n : ℕ). entry_insert memory c name unit t (int_pos n)) (low_word value h))
          (λ fits. defined_i fits value (omega arith)))

  pub put_d_new :
      (value : ℕ)
      → IsU64 value
      → PutSpec fl version c u name unit (double value) (put_d memory c name unit value)
  unfolding put_d
  put_d_new value h =
      rw (absent, put_d)
        (new_ignored fl version r unit absent memory (entry_insert_d memory c name unit t value)
          (double value) (define_d name unit value) (unfold entry_insert_d in refl)
          (λ fits. defined_d fits value h) (λ fits. unknown_d fits value h))

  pub put_s_new :
      (value : List ℕ)
      → c.stale ≡ []
      → (version == 1) ≡ false
      → IsU64 (length value)
      → PutSpec fl version c u name unit (string value) (put_s memory c name unit value)
  unfolding put_s
  put_s_new value zero_behind hv h =
      rw (absent, put_s)
        (new_ignored fl version r unit absent memory (entry_insert_s memory c name unit t value)
          (string value) (define_s name unit value)
          (unfold entry_insert_s in
            ap (λ (s : List ℕ). entry_insert memory c name unit t (string s))
              (ap (λ (s : List ℕ). value ++ s) zero_behind ∙ append-nil value))
          (λ fits. defined_s fits value hv h) (λ fits. unknown_s fits value hv h))

  pub put_n_new : PutSpec fl version c u name unit null (put_n memory c name unit)
  unfolding put_n
  put_n_new =
      rw (absent, put_n)
        (new_checked fl version r unit absent memory _ null (define_n name unit)
          (unfold entry_insert_n in
            insert_twice memory c name unit null (free_index fl version r unit absent))
          (λ fits. defined_n fits))
