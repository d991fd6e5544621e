-- ===== src/Demo/Tsv/Columns.antt =====
-- A line of a table, and the injection that `compress` makes of it.
use otic.Prelude.{
  ℕ, false, ◌||◌, Option, none, some, List, [], ◌∷◌, ◌++◌, append-nil, length, All, ltb, ◌==◌, ◌≡◌,
  ◌≢◌, refl, sym, ap, ◌∙◌, arith, if◌then◌else◌,
}
use otic.Utility.Format.{
  newline, Column, Format, Scan, begins_empty, scan, overwrite, format_parse, column_text,
}
use otic.Codec.Session.{Injection}
use otic.Demo.Tsv.{value_of, injection_of}

-- The five columns of a line, as they are meant to be.
pub record TableLine : Type 0 where
  pub time : List ℕ
  pub sensor : List ℕ
  pub skipped : List ℕ
  pub unit : List ℕ
  pub value : List ℕ

abbrev pub Plain : List ℕ → Type 0
Plain = All (λ c. (c ≢ 9) × (c ≢ newline))

-- Texts without a tab or a newline, and a name.
pub record IsLine (l : TableLine) : Type 0 where
  pub time : Plain l.time
  pub sensor : Plain l.sensor
  pub named : l.sensor ≢ []
  pub skipped : Plain l.skipped
  pub unit : Plain l.unit
  pub value : Plain l.value

-- The line in front of what follows.
abbrev pub line_text : TableLine → List ℕ → List ℕ
line_text l rest =
    l.time ++ 9 ∷ (l.sensor ++ 9 ∷ (l.skipped ++ 9 ∷ (l.unit ++ 9 ∷ (l.value ++ newline ∷ rest))))

abbrev pub table_text : List TableLine → List ℕ
table_text [] = []
table_text (l ∷ ls) = line_text l (table_text ls)

-- A text that is empty is a null pointer.
abbrev pub column_of : List ℕ → Column
column_of [] = none
column_of (c ∷ text) = some (c ∷ text)

abbrev pub line_injection : (List ℕ → ℕ) → TableLine → Injection
line_injection strtod l = record {
  ts = strtod l.time;
  name = l.sensor;
  unit = l.unit;
  value = value_of strtod (column_of l.value);
}

-- The column that begins behind a delimiter.
abbrev column_at : List ℕ → Column
column_at line = if begins_empty 9 line then none else some (scan 9 line).column

scan_column :
    (text rest : List ℕ)
    → Plain text
    → scan 9 (text ++ 9 ∷ rest) ≡ record {
      column = text;
      others = column_at rest ∷ (scan 9 rest).others;
      behind = (scan 9 rest).behind;
    }
unfolding scan
scan_column [] rest h = refl
scan_column (c ∷ text) rest ((tab, line), h) =
    let no_line : (c == newline) ≡ false = ground arith in
    let no_tab : (c == 9) ≡ false = ground arith in
    rw (no_line, no_tab, scan_column text rest h) refl

scan_end :
    (text rest : List ℕ)
    → Plain text
    → scan 9 (text ++ newline ∷ rest) ≡ record { column = text; others = []; behind = some rest }
unfolding scan
scan_end [] rest h = refl
scan_end (c ∷ text) rest ((tab, line), h) =
    let no_line : (c == newline) ≡ false = ground arith in
    let no_tab : (c == 9) ≡ false = ground arith in rw (no_line, no_tab, scan_end text rest h) refl

column_at-column : (text rest : List ℕ) → Plain text → column_at (text ++ 9 ∷ rest) ≡ column_of text
unfolding begins_empty
column_at-column [] rest h = refl
column_at-column (c ∷ text) rest ((tab, line), h) =
    let begins : (c == 9 || c == newline) ≡ false = ground arith in
    rw begins (ap (λ (s : Scan). some s.column) (scan_column (c ∷ text) rest ((tab, line), h)))

column_at-end :
    (text rest : List ℕ) → Plain text → column_at (text ++ newline ∷ rest) ≡ column_of text
unfolding begins_empty
column_at-end [] rest h = refl
column_at-end (c ∷ text) rest ((tab, line), h) =
    let begins : (c == 9 || c == newline) ≡ false = ground arith in
    rw begins (ap (λ (s : Scan). some s.column) (scan_end (c ∷ text) rest ((tab, line), h)))

abbrev columns_of : TableLine → List Column
columns_of l =
    some l.time
    ∷ column_of l.sensor
    ∷ column_of l.skipped
    ∷ column_of l.unit
    ∷ column_of l.value
    ∷ []

scan-line :
    (l : TableLine) (rest : List ℕ) (h : IsLine l)
    → (some (scan 9 (line_text l rest)).column ∷ (scan 9 (line_text l rest)).others ≡ columns_of l)
      × ((scan 9 (line_text l rest)).behind ≡ some rest)
scan-line l rest h =
    let t4 = l.value ++ newline ∷ rest in
    let t3 = l.unit ++ 9 ∷ t4 in
    let t2 = l.skipped ++ 9 ∷ t3 in
    let t1 = l.sensor ++ 9 ∷ t2 in
    rw
      (
        scan_column l.time t1 h.time,
        column_at-column l.sensor t2 h.sensor,
        scan_column l.sensor t2 h.sensor,
        column_at-column l.skipped t3 h.skipped,
        scan_column l.skipped t3 h.skipped,
        column_at-column l.unit t4 h.unit,
        scan_column l.unit t4 h.unit,
        column_at-end l.value rest h.value,
        scan_end l.value rest h.value,
      )
      (refl, refl)

column_text-column_of : (text : List ℕ) → column_text (column_of text) ≡ text
unfolding column_text
column_text-column_of [] = refl
column_text-column_of (c ∷ text) = refl

named_column : (text : List ℕ) → text ≢ [] → column_of text ≡ some text
named_column [] h = absurd (h refl)
named_column (c ∷ text) h = refl

injection_of-line :
    (strtod : List ℕ → ℕ) (l : TableLine) (more : List Column)
    → IsLine l
    → injection_of strtod (columns_of l ++ more) ≡ some (line_injection strtod l)
unfolding injection_of
injection_of-line strtod l more h =
    rw (named_column l.sensor h.named, injection_of, column_text-column_of l.unit) refl

overwrite-front : (cs old : List Column) → (more : List Column) × (overwrite cs old ≡ cs ++ more)
unfolding overwrite
overwrite-front [] old = (old, refl)
overwrite-front (c ∷ cs) [] = ([], ap (λ (x : List Column). c ∷ x) (sym (append-nil cs)))
overwrite-front (c ∷ cs) (o ∷ old) =
    let (more, e) = overwrite-front cs old in (more, ap (λ (x : List Column). c ∷ x) e)

-- A format for five columns between tabs.
pub record IsTabbed (f : Format) : Type 0 where
  pub tab : f.delimiter ≡ 9
  pub five : f.size ≡ 5

-- The end of `format_parse`, behind its loop.
abbrev store_columns : Format → List Column → Option (List ℕ) → Option (Format × Option (List ℕ))
store_columns f columns behind =
    if ltb f.size (length columns)
    then none
    else some (record f { parsed = length columns; content = overwrite columns f.content }, behind)

-- What the parsing of a line leaves.
pub record LineRead (strtod : List ℕ → ℕ) (f : Format) (l : TableLine) (rest : List ℕ)
    : Type 0 where
  pub after : Format
  pub parses : format_parse f (line_text l rest) ≡ some (after, some rest)
  pub tabbed : IsTabbed after
  pub injects : injection_of strtod after.content ≡ some (line_injection strtod l)

pub line-LineRead :
    (strtod : List ℕ → ℕ) (f : Format) (l : TableLine) (rest : List ℕ)
    → IsTabbed f
    → IsLine l
    → LineRead strtod f l rest
unfolding format_parse
line-LineRead strtod f l rest t h =
    let (columns, behind) = scan-line l rest h in
    let (more, e) = overwrite-front (columns_of l) f.content in
    record {
      after = record f { parsed = 5; content = overwrite (columns_of l) f.content };
      parses =
          ap
            (λ (d : ℕ).
              let s = scan d (line_text l rest) in
              store_columns f (some s.column ∷ s.others) s.behind)
            t.tab
          ∙ (λ i. store_columns f (columns i) (behind i))
          ∙ rw t.five refl;
      tabbed = record { tab = t.tab; five = t.five };
      injects = rw e (injection_of-line strtod l more h);
    }
