-- ===== src/Codec/Sync.antt =====
-- The packing channel and the reader of its bytes in step, and what one injected value does to
-- both.
use otic.Prelude.{
  ℕ, suc, ◌+◌, ◌%◌, ◌^◌, ◌≤◌, ◌<◌, Bool, true, false, not, ◌&&◌, Option, none, some, List, [], ◌∷◌,
  ◌++◌, length, length-append, get_elem?, All, IsChar, ◌≡◌, ◌≢◌, ◌⊎◌, inl, refl, ap, arith, ◌==◌,
}
use otic.Base.{Floating, increment, of_ticks, ts_null}
use otic.Base.Oval.{Oval, double, double_eq}
use otic.Pack.Channel as Packing
use otic.Unpack.Channel as Unpacking
use otic.Codec.Sizes.{text_size}
use otic.Codec.Reads.{OneRecord, Reads, Reads-one, Reads-append}
use otic.Codec.Records.{delivered, with_value, set_same}
use otic.Codec.Table.{Buckets, find, store, push}
use otic.Codec.Units.{UnitsFrom, kept-UnitsFrom, store-UnitsFrom, push-UnitsFrom}
use otic.Codec.Matches.{
  Matches, Known, store-Matches, grow-Matches, push-Matches, set-append_last, get_elem?-append_last,
}
use otic.Codec.Headers.{assigned, new_entry, name_record}

pub record Sync (fl : Floating) (c : Packing.Channel) (u : Unpacking.Channel) : Type 0 where
  pub table : Matches c.buckets c.total_entries u.entries
  pub counters : u.base.row_counter ≡ c.base.row_counter
  pub times :
      c.base.timestamp_current ≢ ts_null
      → (u.base.timestamp_current ≡ c.base.timestamp_current)
        × (u.ts ≡ of_ticks fl c.base.timestamp_current)
  pub time_fits : c.base.timestamp_current < 2 ^ 64
  pub unfiltered : u.to_fetch ≡ []
  pub room : c.total_entries < 2 ^ 16
  pub rows_fit : c.base.row_counter < 2 ^ 64
  pub size : u.base.cache_size ≡ c.base.cache_size
  pub id : u.channel_id ≡ c.channel_id

pub shown_unfiltered :
    (ignore : Bool) (to_fetch : List ℕ)
    → to_fetch ≡ []
    → (ignore && not (length to_fetch == 0)) ≡ false
shown_unfiltered true l h = rw h
shown_unfiltered false l h = refl

-- The unit that goes with a name: that of its first injection.
abbrev unit_or : List ℕ → Option Packing.Entry → List ℕ
unit_or unit none = unit
unit_or unit (some e) = e.unit

pub unit_of : Buckets → List ℕ → List ℕ → List ℕ
unit_of b name unit = unit_or unit (find b name)

pub unit_of-known :
    (b : Buckets) (name unit : List ℕ) {e : Packing.Entry}
    → find b name ≡ some e
    → unit_of b name unit ≡ e.unit
unfolding unit_of
unit_of-known b name unit h = ap (unit_or unit) h

pub unit_of-absent :
    (b : Buckets) (name unit : List ℕ) → find b name ≡ none → unit_of b name unit ≡ unit
unfolding unit_of
unit_of-absent b name unit h = ap (unit_or unit) h

-- The value that is read for an injected one: the same, or a `double` that is equal to it.
abbrev pub ReadsAs : Oval → Oval → Type 0
ReadsAs v w =
    (w ≡ v) ⊎ ((x : ℕ) × (y : ℕ) × (v ≡ double x) × (w ≡ double y) × (double_eq y x ≡ true))

-- The reader delivers one row for what the packer wrote, and the tables stay in step.
pub record Delivers (fl : Floating) (version : ℕ) (c c' : Packing.Channel) (u : Unpacking.Channel)
    (name unit : List ℕ) (v : Oval) : Type 0 where
  pub bytes : List ℕ
  pub reader : Unpacking.Channel
  pub value : Oval
  pub same_id : c'.channel_id ≡ c.channel_id
  pub same_threshold : c'.threshold ≡ c.threshold
  pub same_stale : c'.stale ≡ c.stale
  pub grows : c'.total_entries ≤ suc c.total_entries
  pub short : length bytes ≤ 300 + text_size v
  pub same_size : reader.base.cache_size ≡ u.base.cache_size
  pub same_reader : reader.channel_id ≡ u.channel_id
  pub written : c'.base ≡ record (c.base) { cache = c.base.cache ++ bytes }
  pub reads : Reads fl version u bytes reader
  pub one_row :
      reader.rows
      ≡ u.rows
        ++ (record { time = u.ts; name = name; unit = unit_of c.buckets name unit; value = value }
            ∷ [])
  pub same_value : ReadsAs v value
  pub units : UnitsFrom c.buckets c'.buckets name unit
  pub table : Matches c'.buckets c'.total_entries reader.entries
  pub room : c'.total_entries < 2 ^ 16
  pub counted : reader.base.row_counter ≡ increment u.base.row_counter
  pub same_time : reader.base.timestamp_current ≡ u.base.timestamp_current
  pub same_ts : reader.ts ≡ u.ts
  pub same_filter : reader.to_fetch ≡ u.to_fetch

module _ (fl : Floating) (version : ℕ) {c : Packing.Channel} {u : Unpacking.Channel}
    (s : Sync fl c u) (c' : Packing.Channel) (name unit : List ℕ) where
  -- A sensor that has a value already.
  module _ {e : Packing.Entry} (found : find c.buckets name ≡ some e) where
    abbrev pub entry_of : Known u.entries name e
    entry_of = s.table.known name e found

    pub deliver_known :
        (b : ℕ) (bs : List ℕ) (v w : Oval)
        → c'.base ≡ record (c.base) { cache = c.base.cache ++ b ∷ bs }
        → length bs ≤ 20 + text_size v
        → (c'.channel_id ≡ c.channel_id) × (c'.threshold ≡ c.threshold) × (c'.stale ≡ c.stale)
        → c'.buckets ≡ store c.buckets name w
        → c'.total_entries ≡ c.total_entries
        → ReadsAs v w
        → OneRecord fl version u b bs (delivered u e.index (with_value entry_of.entry w))
        → Delivers fl version c c' u name unit v
    deliver_known b bs v w written short same_id stored total same record_read = record {
      bytes = b ∷ bs;
      reader = delivered u e.index (with_value entry_of.entry w);
      value = w;
      same_id = same_id.0;
      same_threshold = same_id.1;
      same_stale = same_id.2;
      same_size = refl;
      same_reader = refl;
      short = omega (arith, short);
      written = written;
      reads = Reads-one fl version b bs record_read;
      one_row =
          rw (unit_of-known c.buckets name unit found, entry_of.same_name, entry_of.same_unit);
      same_value = same;
      units = rw stored (store-UnitsFrom c.buckets name unit w);
      table = rw (stored, total) (store-Matches s.table name w found);
      room = omega (arith, s.room, total);
      grows = omega (arith, total);
      counted = refl;
      same_time = refl;
      same_ts = refl;
      same_filter = refl;
    }

    pub deliver_unmodified :
        (b : ℕ) (bs : List ℕ) (v : Oval)
        → c'.base ≡ record (c.base) { cache = c.base.cache ++ b ∷ bs }
        → length bs ≤ 20 + text_size v
        → (c'.channel_id ≡ c.channel_id) × (c'.threshold ≡ c.threshold) × (c'.stale ≡ c.stale)
        → c'.buckets ≡ c.buckets
        → c'.total_entries ≡ c.total_entries
        → ReadsAs v e.last_value
        → OneRecord fl version u b bs (delivered u e.index entry_of.entry)
        → Delivers fl version c c' u name unit v
    deliver_unmodified b bs v written short same_id kept total same record_read = record {
      bytes = b ∷ bs;
      reader = delivered u e.index entry_of.entry;
      value = e.last_value;
      same_id = same_id.0;
      same_threshold = same_id.1;
      same_stale = same_id.2;
      same_size = refl;
      same_reader = refl;
      short = omega (arith, short);
      written = written;
      reads = Reads-one fl version b bs record_read;
      one_row = rw (
        unit_of-known c.buckets name unit found,
        entry_of.same_name,
        entry_of.same_unit,
        entry_of.same_value,
      );
      same_value = same;
      units = rw kept (kept-UnitsFrom c.buckets name unit);
      table = rw (kept, total, set_same u.entries e.index entry_of.entry entry_of.at_index) s.table;
      room = omega (arith, s.room, total);
      grows = omega (arith, total);
      counted = refl;
      same_time = refl;
      same_ts = refl;
      same_filter = refl;
    }

  -- A sensor that has none: its name is written before its value.
  module _ (absent : find c.buckets name ≡ none) (chars : All IsChar name)
      (fits : length name + length unit + 1 ≤ 255) (space : suc c.total_entries < 2 ^ 16) where
    abbrev pub name_bytes : List ℕ
    name_bytes = 215 ∷ ((length name + length unit + 1) % 256) ∷ (name ++ 0 ∷ unit)

    abbrev pub fresh : Oval → Unpacking.Entry
    fresh w = with_value (new_entry u name unit) w

    abbrev pub reader_new : Oval → Unpacking.Channel
    reader_new w = delivered (assigned u name unit) c.total_entries (fresh w)

    -- The new entry is the one that the record of the value selects.
    pub found_new :
        get_elem? (assigned u name unit).entries c.total_entries ≡ some (new_entry u name unit)
    found_new = rw s.table.count (get_elem?-append_last u.entries (new_entry u name unit))

    entries_new : (w : Oval) → (reader_new w).entries ≡ u.entries ++ fresh w ∷ []
    entries_new w = rw s.table.count (set-append_last u.entries (new_entry u name unit) (fresh w))

    deliver_new :
        (b : ℕ) (bs : List ℕ) (v : Oval)
        → c'.base ≡ record (c.base) { cache = c.base.cache ++ (name_bytes ++ b ∷ bs) }
        → length bs ≤ 20 + text_size v
        → (c'.channel_id ≡ c.channel_id) × (c'.threshold ≡ c.threshold) × (c'.stale ≡ c.stale)
        → UnitsFrom c.buckets c'.buckets name unit
        → Matches c'.buckets (suc c.total_entries) (u.entries ++ fresh v ∷ [])
        → c'.total_entries ≡ suc c.total_entries
        → OneRecord fl version (assigned u name unit) b bs (reader_new v)
        → Delivers fl version c c' u name unit v
    deliver_new b bs v written short same_id units' table' total record_read = record {
      bytes = name_bytes ++ b ∷ bs;
      reader = reader_new v;
      value = v;
      same_id = same_id.0;
      same_threshold = same_id.1;
      same_stale = same_id.2;
      same_size = refl;
      same_reader = refl;
      short =
          omega
            (arith, short, fits, length-append name (0 ∷ unit), length-append name_bytes (b ∷ bs));
      written = written;
      reads =
          Reads-append fl version (b ∷ bs)
            (Reads-one fl version 215 (((length name + length unit + 1) % 256) ∷ (name ++ 0 ∷ unit))
              (name_record fl version u name unit chars fits))
            (Reads-one fl version b bs record_read);
      one_row = rw (unit_of-absent c.buckets name unit absent);
      same_value = inl refl;
      units = units';
      table = rw (total, entries_new v) table';
      room = omega (arith, total);
      grows = omega (arith, total);
      counted = refl;
      same_time = refl;
      same_ts = refl;
      same_filter = refl;
    }

    pub deliver_pushed :
        (b : ℕ) (bs : List ℕ) (v : Oval)
        → c'.base ≡ record (c.base) { cache = c.base.cache ++ (name_bytes ++ b ∷ bs) }
        → length bs ≤ 20 + text_size v
        → (c'.channel_id ≡ c.channel_id) × (c'.threshold ≡ c.threshold) × (c'.stale ≡ c.stale)
        → c'.buckets
          ≡ push c.buckets
              (record { index = c.total_entries; name = name; unit = unit; last_value = v })
        → c'.total_entries ≡ suc c.total_entries
        → OneRecord fl version (assigned u name unit) b bs (reader_new v)
        → Delivers fl version c c' u name unit v
    deliver_pushed b bs v written short same_id pushed total record_read =
        deliver_new b bs v written short same_id
          (rw pushed (
            push-UnitsFrom c.buckets
              (record { index = c.total_entries; name = name; unit = unit; last_value = v })))
          (rw pushed (
            push-Matches s.table (fresh v)
              (record { index = c.total_entries; name = name; unit = unit; last_value = v }) refl
              refl refl refl))
          total record_read

    -- Where the entry could not be allocated and the code goes on, the sensor stays unknown.
    pub deliver_unpushed :
        (b : ℕ) (bs : List ℕ) (v : Oval)
        → c'.base ≡ record (c.base) { cache = c.base.cache ++ (name_bytes ++ b ∷ bs) }
        → length bs ≤ 20 + text_size v
        → (c'.channel_id ≡ c.channel_id) × (c'.threshold ≡ c.threshold) × (c'.stale ≡ c.stale)
        → c'.buckets ≡ c.buckets
        → c'.total_entries ≡ suc c.total_entries
        → OneRecord fl version (assigned u name unit) b bs (reader_new v)
        → Delivers fl version c c' u name unit v
    deliver_unpushed b bs v written short same_id kept total record_read =
        deliver_new b bs v written short same_id (rw kept (kept-UnitsFrom c.buckets name unit))
          (rw kept (grow-Matches s.table (fresh v))) total record_read
