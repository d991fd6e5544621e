-- ===== src/Utility/Format.antt =====
-- src/utility/format.c: the columns of a line of text.
pub mod RoundTrip
use otic.Prelude.{
  ℕ, zero, suc, ◌+◌, ◌-◌, ◌≤◌, ◌<◌, Bool, true, false, ◌||◌, Option, none, some, List, [], ◌∷◌,
  ◌++◌, length, append_assoc, All, ltb, ◌==◌, ◌≡◌, ◌≢◌, refl, sym, ap, ◌∙◌, arith, inl, inr,
  Bool-cases, if◌then◌else◌,
}

-- `\n`
abbrev pub newline : ℕ
newline = 10

-- A column is a pointer into the line, of which it has the characters up to the zero that ends them; it
-- is null where there are none.
abbrev pub Column : Type 0
Column = Option (List ℕ)

-- `format_t`: `size` is the number of columns that `content` has room for, of which the list has those
-- that were ever set, and `parsed` the number of columns of the last line.
pub record Format : Type 0 where
  pub delimiter : ℕ
  pub size : ℕ
  pub parsed : ℕ
  pub content : List Column

-- `format_init` with `malloc` as `memory` says; what the memory held is not kept.
unfoldable pub format_init : Bool → ℕ → ℕ → Option Format
format_init memory delimiter' columns =
    if memory
    then some (record { delimiter = delimiter'; size = columns; parsed = 0; content = [] })
    else none

-- Whether a column that begins here is empty: `*(line + 1)` is a delimiter or the end of the line.
unfoldable pub begins_empty : ℕ → List ℕ → Bool
begins_empty d [] = false
begins_empty d (c ∷ line) = c == d || c == newline

-- What the loop finds from here on: the rest of the column, the columns behind it, and the text
-- behind the line. There is none behind the terminator.
pub record Scan : Type 0 where
  pub column : List ℕ
  pub others : List Column
  pub behind : Option (List ℕ)

unfoldable pub scan : ℕ → List ℕ → Scan
unfolding begins_empty
scan d [] = record { column = []; others = []; behind = none }
scan d (c ∷ line) =
    let s = scan d line in
    let next : Column = if begins_empty d line then none else some s.column in
    if c == newline
    then record { column = []; others = []; behind = some line }
    else if c == d
    then record { column = []; others = next ∷ s.others; behind = s.behind }
    else record s { column = c ∷ s.column }

-- The columns of a line over those that were there.
unfoldable pub overwrite : List Column → List Column → List Column
overwrite [] old = old
overwrite (c ∷ cs) [] = c ∷ cs
overwrite (c ∷ cs) (o ∷ old) = c ∷ overwrite cs old

-- `format_parse`. More columns than there is room for are written behind the end of `content`, which
-- is `none`.
unfoldable pub format_parse : Format → List ℕ → Option (Format × Option (List ℕ))
unfolding scan overwrite
format_parse f line =
    let s = scan f.delimiter line in
    let columns = some s.column ∷ s.others in
    if ltb f.size (length columns)
    then none
    else some
        (record f { parsed = length columns; content = overwrite columns f.content }, s.behind)

-- `sprintf("%s")` of a column.
unfoldable pub column_text : Column → List ℕ
column_text none = []
column_text (some text) = text

-- `format_write`: every column but the last is followed by a delimiter. Without columns, the bound of
-- the loop wraps, and it reads outside `content`.
unfoldable pub join_columns : ℕ → List Column → Option (List ℕ)
unfolding column_text
join_columns d [] = none
join_columns d (c ∷ []) = some (column_text c)
join_columns d (c ∷ e ∷ cs) = elim (join_columns d (e ∷ cs)) [
  | none ↦ none
  | some text ↦ some (column_text c ++ d ∷ text)
]

unfoldable pub first_columns : ℕ → List Column → Option (List Column)
first_columns zero cs = some []
first_columns (suc n) [] = none
first_columns (suc n) (c ∷ cs) = elim (first_columns n cs) [
  | none ↦ none
  | some front ↦ some (c ∷ front)
]

unfoldable pub format_write : Format → Option (List ℕ)
unfolding join_columns first_columns
format_write f = elim (first_columns f.parsed f.content) [
  | none ↦ none
  | some columns ↦ join_columns f.delimiter columns
]

-- `format_reset`
unfoldable pub format_reset : Format → Format
format_reset f = record f { content = nulls f.size }
  where
    nulls : ℕ → List Column
    nulls zero = []
    nulls (suc n) = none ∷ nulls n

-- `format_chunker_t`: the chunk from `ptr_current` on.
pub record Chunker : Type 0 where
  pub format : Format
  pub current : List ℕ
  pub chunk_size : ℕ

-- `format_chunker_set`
unfoldable pub chunker_set : Chunker → List ℕ → ℕ → Chunker
chunker_set k chunk n = record k { current = chunk; chunk_size = n }

-- `format_chunker_parse`, which leaves `ptr_current` where it is.
unfoldable pub chunker_parse : Chunker → Option (Chunker × Option (List ℕ))
unfolding format_parse
chunker_parse k = elim (format_parse k.format k.current) [
  | none ↦ none
  | some (f, rest) ↦ some (record k { format = f }, rest)
]
