-- ===== src/Codec/Puts/Known.antt =====
-- Puts for a sensor that has a value already: the record of the new value, or of its repetition.
use otic.Prelude.{
  ℕ, ◌%◌, ◌^◌, ◌<◌, Bool, true, false, not, ◌&&◌, some, List, ◌++◌, length, append_assoc, ltb, ◌≡◌,
  inl, inr, refl, arith, Bool-cases, bytes_eq→eq, if◌then◌else◌, ap, ◌==◌,
}
use otic.Base.{Floating}
use otic.Base.Types.{OticType, type_code, type_eq, small_int_limit}
use otic.Base.Oval.{Oval, null, bool_true, bool_false, int_neg, int_pos, double, string, get_type}
use otic.Prelude.Bytes.{le_bytes}
use otic.Leb128.{IsU64, encode_unsigned}
use otic.Pack.Channel as Packing
use otic.Pack.Put.{
  put_bool, put_i_neg, put_i, put_d, put_s, put_n, write_unmodified, same_int_neg, same_int_pos,
  same_double, same_string,
}
use otic.Unpack.Channel as Unpacking
use otic.Codec.Records.{
  null_record, true_record, false_record, smallint_record, intpos_record, intneg_record,
  double_record, string_record,
}
use otic.Codec.Sizes.{one_short, two_short, double_short, text_short}
use otic.Codec.Table.{find}
use otic.Codec.Matches.{Known}
use otic.Codec.Sync.{Delivers, ReadsAs, deliver_known}
use otic.Codec.Puts.{Ready, PutSpec, known, index_small, shown_known, unmodified_case}

-- The value that a test found unchanged is read as the one injected.
same_int_neg_eq : (v : Oval) (n : ℕ) → same_int_neg v n ≡ true → v ≡ int_neg n
same_int_neg_eq (int_neg m) n h = ground arith
same_int_neg_eq v n h = cc

same_int_pos_eq : (v : Oval) (n : ℕ) → same_int_pos v n ≡ true → v ≡ int_pos n
same_int_pos_eq (int_pos m) n h = ground arith
same_int_pos_eq v n h = cc

same_double-ReadsAs : (v : Oval) (w : ℕ) → same_double v w ≡ true → ReadsAs (double w) v
same_double-ReadsAs (double x) w h = inr (w, x, refl, refl, h)
same_double-ReadsAs null w h = cc
same_double-ReadsAs v w h = cc

same_string_eq : (v : Oval) (s : List ℕ) → same_string v s ≡ true → v ≡ string s
same_string_eq (string t) s h = ap string (bytes_eq→eq t s h)
same_string_eq v s h = cc

type_null_eq : (v : Oval) → type_eq (get_type v) OticType.null ≡ true → v ≡ null
unfolding type_eq get_type type_code
type_null_eq null h = refl
type_null_eq v h = cc

type_true_eq : (v : Oval) → type_eq (get_type v) OticType.bool_true ≡ true → v ≡ bool_true
unfolding type_eq get_type type_code
type_true_eq bool_true h = refl
type_true_eq v h = cc

type_false_eq : (v : Oval) → type_eq (get_type v) OticType.bool_false ≡ true → v ≡ bool_false
unfolding type_eq get_type type_code
type_false_eq bool_false h = refl
type_false_eq v h = cc

byte_small : (n : ℕ) → ltb n small_int_limit ≡ true → n % 256 ≡ n
byte_small n h = ground arith

module _ (fl : Floating) (version : ℕ) {c : Packing.Channel} {u : Unpacking.Channel} {name : List ℕ}
    (r : Ready fl c u name) (memory : Bool) (unit : List ℕ) {e : Packing.Entry}
    (found : find c.buckets name ≡ some e) where
  abbrev k : Known u.entries name e
  k = known fl version r unit found

  small : e.index < 2 ^ 32
  small = index_small fl version r unit found

  shown : (k.entry.ignore && not (length u.to_fetch == 0)) ≡ false
  shown = shown_known fl version r unit found

  unmodified :
      (v : Oval)
      → ReadsAs v e.last_value
      → Delivers fl version c (write_unmodified c e.index) u name unit v
  unmodified v same = unmodified_case fl version r unit found v same

  pub put_i_neg_known :
      (value : ℕ)
      → IsU64 value
      → PutSpec fl version c u name unit (int_neg value) (put_i_neg memory c name unit value)
  unfolding put_i_neg type_code
  put_i_neg_known value h =
      rw (found, put_i_neg)
        (elim (Bool-cases (same_int_neg e.last_value value)) [
          | inl p ↦ rw p (unmodified (int_neg value) (inl (same_int_neg_eq e.last_value value p)))
          | inr p ↦ rw p (
              deliver_known fl version r.sync _ name unit found 202
                (encode_unsigned e.index ++ encode_unsigned value) (int_neg value) (int_neg value)
                (simp append_assoc) (two_short e.index small value h) (refl, refl, refl) refl refl
                (inl refl)
                (intneg_record u e.index k.entry k.at_index shown fl version small value h))
        ])

  pub put_i_known :
      (value : ℕ)
      → IsU64 value
      → PutSpec fl version c u name unit (int_pos value) (put_i memory c name unit value)
  unfolding put_i type_code
  put_i_known value h =
      rw (found, put_i)
        (elim (Bool-cases (same_int_pos e.last_value value)) [
          | inl p ↦ rw p (unmodified (int_pos value) (inl (same_int_pos_eq e.last_value value p)))
          | inr p ↦ rw p (elim (Bool-cases (ltb value small_int_limit)) [
            | inl q ↦ rw q (
                deliver_known fl version r.sync _ name unit found value (encode_unsigned e.index)
                  (int_pos value) (int_pos value) (rw (byte_small value q) (simp append_assoc))
                  (omega (arith, one_short e.index small)) (refl, refl, refl) refl refl (inl refl)
                  (smallint_record u e.index k.entry k.at_index shown fl version small value q))
            | inr q ↦ rw q (
                deliver_known fl version r.sync _ name unit found 203
                  (encode_unsigned e.index ++ encode_unsigned value) (int_pos value) (int_pos value)
                  (simp append_assoc) (two_short e.index small value h) (refl, refl, refl) refl refl
                  (inl refl)
                  (intpos_record u e.index k.entry k.at_index shown fl version small value h))
          ])
        ])

  pub put_d_known :
      (value : ℕ)
      → IsU64 value
      → PutSpec fl version c u name unit (double value) (put_d memory c name unit value)
  unfolding put_d type_code
  put_d_known value h =
      rw (found, put_d)
        (elim (Bool-cases (same_double e.last_value value)) [
          | inl p ↦ rw p (unmodified (double value) (same_double-ReadsAs e.last_value value p))
          | inr p ↦ rw p (
              deliver_known fl version r.sync _ name unit found 205
                (encode_unsigned e.index ++ le_bytes 8 value) (double value) (double value)
                (simp append_assoc) (double_short e.index small value) (refl, refl, refl) refl refl
                (inl refl)
                (double_record u e.index k.entry k.at_index shown fl version small value h))
        ])

  pub put_s_known :
      (value : List ℕ)
      → (version == 1) ≡ false
      → IsU64 (length value)
      → PutSpec fl version c u name unit (string value) (put_s memory c name unit value)
  unfolding put_s type_code
  put_s_known value hv h =
      rw (found, put_s)
        (elim (Bool-cases (same_string e.last_value value)) [
          | inl p ↦ rw p (unmodified (string value) (inl (same_string_eq e.last_value value p)))
          | inr p ↦ rw p (
              deliver_known fl version r.sync _ name unit found 206
                (encode_unsigned e.index ++ (encode_unsigned (length value) ++ value))
                (string value) (string value) (simp append_assoc) (text_short e.index small value h)
                (refl, refl, refl) refl refl (inl refl)
                (string_record u e.index k.entry k.at_index shown fl version small value hv h))
        ])

  pub put_n_known : PutSpec fl version c u name unit null (put_n memory c name unit)
  unfolding put_n type_code
  put_n_known =
      rw (found, put_n)
        (elim (Bool-cases (type_eq (get_type e.last_value) OticType.null)) [
          | inl p ↦ rw p (unmodified null (inl (type_null_eq e.last_value p)))
          | inr p ↦ rw p (
              deliver_known fl version r.sync _ name unit found 201 (encode_unsigned e.index) null
                null (simp append_assoc) (omega (arith, one_short e.index small)) (refl, refl, refl)
                refl refl (inl refl)
                (null_record u e.index k.entry k.at_index shown fl version small))
        ])

  pub put_bool_known :
      (value : Bool)
      → PutSpec fl version c u name unit
          (if value then bool_true else bool_false)
          (put_bool memory c name unit value)
  unfolding put_bool type_code
  put_bool_known true =
      rw (found, put_bool)
        (elim (Bool-cases (type_eq (get_type e.last_value) OticType.bool_true)) [
          | inl p ↦ rw p (unmodified bool_true (inl (type_true_eq e.last_value p)))
          | inr p ↦ rw p (
              deliver_known fl version r.sync _ name unit found 209 (encode_unsigned e.index)
                bool_true bool_true (simp append_assoc) (omega (arith, one_short e.index small))
                (refl, refl, refl) refl refl (inl refl)
                (true_record u e.index k.entry k.at_index shown fl version small))
        ])
  put_bool_known false =
      rw (found, put_bool)
        (elim (Bool-cases (type_eq (get_type e.last_value) OticType.bool_false)) [
          | inl p ↦ rw p (unmodified bool_false (inl (type_false_eq e.last_value p)))
          | inr p ↦ rw p (
              deliver_known fl version r.sync _ name unit found 210 (encode_unsigned e.index)
                bool_false bool_false (simp append_assoc) (omega (arith, one_short e.index small))
                (refl, refl, refl) refl refl (inl refl)
                (false_record u e.index k.entry k.at_index shown fl version small))
        ])
