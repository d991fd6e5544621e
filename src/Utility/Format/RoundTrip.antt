-- ===== src/Utility/Format/RoundTrip.antt =====
-- A line that is parsed and written again.
use otic.Prelude.{
  ℕ, suc, ◌<◌, Bool, true, false, Option, none, some, List, [], ◌∷◌, ◌++◌, length, All, ltb, ◌==◌,
  ◌≡◌, ◌≢◌, refl, sym, ap, ◌∙◌, arith, inl, inr, Bool-cases, Option-cases, if◌then◌else◌,
}
use otic.Utility.Format.{
  newline, Column, Format, Scan, begins_empty, scan, overwrite, format_parse, column_text,
  join_columns, first_columns, format_write,
}

-- How often a character occurs.
unfoldable pub occurrences : ℕ → List ℕ → ℕ
occurrences d [] = 0
occurrences d (c ∷ line) = if c == d then suc (occurrences d line) else occurrences d line

module _ (d : ℕ) (more : List ℕ) where
  abbrev whole : List ℕ → List ℕ
  whole line = line ++ newline ∷ more

  abbrev NoNewline : List ℕ → Type 0
  NoNewline = All (λ c. c ≢ newline)

  -- What the scan of a line has found.
  record Scanned (line : List ℕ) (s : Scan) : Type 0 where
    joined : join_columns d (some s.column ∷ s.others) ≡ some line
    number : length s.others ≡ occurrences d line
    rest : s.behind ≡ some more
    empty : begins_empty d (whole line) ≡ true → s.column ≡ []

  first_alone : (cs : List Column) → first_columns (length cs) cs ≡ some cs
  unfolding first_columns
  first_alone [] = refl
  first_alone (c ∷ cs) = rw (first_alone cs) refl

  null_column : (cs : List Column) → join_columns d (none ∷ cs) ≡ join_columns d (some [] ∷ cs)
  unfolding join_columns column_text
  null_column [] = refl
  null_column (c ∷ cs) = refl

  one_more :
      (c : ℕ) (column line : List ℕ) (cs : List Column)
      → join_columns d (some column ∷ cs) ≡ some line
      → join_columns d (some (c ∷ column) ∷ cs) ≡ some (c ∷ line)
  unfolding join_columns column_text
  one_more c column line [] h =
      ap (λ (o : Option (List ℕ)). elim o [ none ↦ none | some t ↦ some (c ∷ t) ]) h
  one_more c column line (e ∷ cs) h = elim (Option-cases (join_columns d (e ∷ cs))) [
    | inl p ↦ absurd (ground (arith, rw p at h))
    | inr (text, p) ↦
        let h1 : Path (Option (List ℕ)) (some (column ++ d ∷ text)) (some line) = rw p at h in
        rw p (ap (λ (o : Option (List ℕ)). elim o [ none ↦ none | some t ↦ some (c ∷ t) ]) h1)
  ]

  one_delimiter :
      (c : Column) (cs : List Column) (line : List ℕ)
      → join_columns d (c ∷ cs) ≡ some line
      → join_columns d (some [] ∷ c ∷ cs) ≡ some (d ∷ line)
  unfolding join_columns column_text
  one_delimiter c cs line h = rw h refl

  scanned : (line : List ℕ) → NoNewline line → Scanned line (scan d (whole line))
  unfolding scan begins_empty occurrences join_columns column_text
  scanned [] h = record { joined = refl; number = refl; rest = refl; empty = λ e. refl }
  scanned (c ∷ line) (hc, h) =
      let s = scanned line h in
      let found = scan d (whole line) in
      let inner : (c == newline) ≡ false = ground arith in
      elim (Bool-cases (c == d)) [
        | inr p ↦
            rw (inner, p)
              (record {
                joined = one_more c found.column line found.others s.joined;
                number = rw p s.number;
                rest = s.rest;
                empty = λ e. let e1 : Path Bool false true = rw (p, inner) at e in absurd cc;
              })
        | inl p ↦
            let same : c ≡ d = ground arith in
            elim (Bool-cases (begins_empty d (whole line))) [
              | inl q ↦
                  let null_first : join_columns d (none ∷ found.others) ≡ some line =
                    null_column found.others
                    ∙ ap (λ (t : List ℕ). join_columns d (some t ∷ found.others)) (sym (s.empty q))
                    ∙ s.joined in
                  rw (inner, p, q)
                    (record {
                      joined =
                          one_delimiter none found.others line null_first
                          ∙ ap (λ (x : ℕ). some (x ∷ line)) (sym same);
                      number = rw p (ap (λ (n : ℕ). suc n) s.number);
                      rest = s.rest;
                      empty = λ e. refl;
                    })
              | inr q ↦
                  rw (inner, p, q)
                    (record {
                      joined =
                          one_delimiter (some found.column) found.others line s.joined
                          ∙ ap (λ (x : ℕ). some (x ∷ line)) (sym same);
                      number = rw p (ap (λ (n : ℕ). suc n) s.number);
                      rest = s.rest;
                      empty = λ e. refl;
                    })
            ]
      ]

  first-overwrite : (cs old : List Column) → first_columns (length cs) (overwrite cs old) ≡ some cs
  unfolding first_columns overwrite
  first-overwrite [] old = refl
  first-overwrite (c ∷ cs) [] = rw (first_alone cs) refl
  first-overwrite (c ∷ cs) (o ∷ old) = rw (first-overwrite cs old) refl

-- What `format_parse` makes of a line.
pub record Parsed (f : Format) (line more : List ℕ) : Type 0 where
  pub after : Format
  pub parses : format_parse f (line ++ newline ∷ more) ≡ some (after, some more)
  pub number : after.parsed ≡ suc (occurrences f.delimiter line)
  pub writes : format_write after ≡ some line

-- For a line without a newline in it, whose delimiters are fewer than the columns that there is
-- room for, and any text behind its newline: format_parse answers with the text behind the line,
-- counts one column more than there are delimiters, and format_write gives the line back, empty
-- columns included.
pub format_parse-Parsed :
    (f : Format) (line more : List ℕ)
    → All (λ c. c ≢ newline) line
    → occurrences f.delimiter line < f.size
    → Parsed f line more
unfolding format_parse format_write
format_parse-Parsed f line more h room =
    let d = f.delimiter in
    let s = scanned d more line h in
    let found = scan d (line ++ newline ∷ more) in
    let columns : List Column = some found.column ∷ found.others in
    let enough : ltb f.size (length columns) ≡ false = ground (arith, s.number) in
    record {
      after = record f { parsed = length columns; content = overwrite columns f.content };
      parses = rw (enough, s.rest) refl;
      number = ap (λ (n : ℕ). suc n) s.number;
      writes = rw (format_write, first-overwrite d more columns f.content) s.joined;
    }
