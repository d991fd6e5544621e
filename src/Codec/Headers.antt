-- ===== src/Codec/Headers.antt =====
-- The records that carry no row: the names of sensors, the times, and the end of the data.
use otic.Prelude.{
  ℕ, ◌+◌, ◌-◌, ◌%◌, ◌^◌, ◌≤◌, not, some, List, [], ◌∷◌, ◌++◌, length, length-append, All, IsChar,
  ◌==◌, if◌then◌else◌, ◌≡◌, refl, arith, Bool-cases, inl, inr,
}
use otic.Base.{Floating, of_ticks, ts_null}
use otic.Base.Types.{type_of_code, row_count_mismatch, on_error}
use otic.Base.Oval.{unset, double_eq}
use otic.Leb128.{IsU64, encode_unsigned}
use otic.Leb128.Decode.{decode-encode}
use otic.Unpack.Channel.{Channel, Entry, is_fetchable}
use otic.Unpack.Read.{
  split, split_terminator, reserve_size, read_name_assign, read_set_timestamp, read_shift_timestamp,
  read_eof,
}
use otic.Unpack.Block.{parse_record}
use otic.Codec.Reads.{OneRecord}
use otic.Codec.Records.{split-append}

split_terminator-append :
    (name unit : List ℕ) → All IsChar name → split_terminator (name ++ 0 ∷ unit) ≡ some (name, unit)
unfolding split_terminator
split_terminator-append [] unit h = refl
split_terminator-append (c ∷ name) unit (hc, h) =
    ground (arith, split_terminator-append name unit h)

-- The table with one more sensor, which has no value yet.
abbrev pub new_entry : Channel → List ℕ → List ℕ → Entry
new_entry u name' unit' = record {
  index = length u.entries;
  name = name';
  unit = unit';
  value = unset;
  ignore = not (is_fetchable u name');
}

abbrev pub assigned : Channel → List ℕ → List ℕ → Channel
assigned u name unit =
    let full = u.allocation_left == 0 in
    record u {
      entries = u.entries ++ (new_entry u name unit ∷ []);
      allocation_left = (if full then reserve_size else u.allocation_left) - 1;
      cache_allocated = if full then u.cache_allocated + reserve_size else u.cache_allocated;
    }

module _ (fl : Floating) (version : ℕ) (u : Channel) where
  pub name_record :
      (name unit : List ℕ)
      → All IsChar name
      → length name + length unit + 1 ≤ 255
      → OneRecord fl version u 215
          (((length name + length unit + 1) % 256) ∷ (name ++ 0 ∷ unit))
          (assigned u name unit)
  unfolding parse_record type_of_code read_name_assign split is_fetchable
  name_record name unit chars fits rest =
      let size : (length name + length unit + 1) % 256 ≡ length (name ++ 0 ∷ unit) =
        omega (arith, length-append name (0 ∷ unit)) in
      rw (size, split-append (name ++ 0 ∷ unit) rest, split_terminator-append name unit chars)

  -- The channel at another time.
  abbrev pub timed : ℕ → Channel
  timed t = record u {
    base = record (u.base) { timestamp_start = t; timestamp_current = t };
    ts = of_ticks fl t;
    time_start = if double_eq u.time_start (fl.of_u64 ts_null) then of_ticks fl t else u.time_start;
  }

  abbrev pub shifted : ℕ → Channel
  shifted d =
      let now = (u.base.timestamp_current + d) % 2 ^ 64 in
      record u { base = record (u.base) { timestamp_current = now }; ts = of_ticks fl now }

  pub set_time_record : (t : ℕ) → IsU64 t → OneRecord fl version u 213 (encode_unsigned t) (timed t)
  unfolding parse_record type_of_code read_set_timestamp
  set_time_record t h rest = rw (decode-encode t rest h)

  pub shift_time_record :
      (d : ℕ) → IsU64 d → OneRecord fl version u 214 (encode_unsigned d) (shifted d)
  unfolding parse_record type_of_code read_shift_timestamp
  shift_time_record d h rest = rw (decode-encode d rest h)

  abbrev pub checked : ℕ → Channel
  checked n =
      if n == u.base.row_counter
      then u
      else record u { base = record (u.base) { error = row_count_mismatch; state = on_error } }

  pub eof_record : (n : ℕ) → IsU64 n → OneRecord fl version u 216 (encode_unsigned n) (checked n)
  unfolding parse_record type_of_code read_eof
  eof_record n h rest =
      rw (decode-encode n rest h)
        (elim (Bool-cases (n == u.base.row_counter)) [ inl p ↦ rw p | inr p ↦ rw p ])
