-- ===== src/Demo/Tsv/Lines.antt =====
-- The lines of a table, one after the other.
use otic.Prelude.{
  ℕ, zero, suc, ◌≤◌, ◌<◌, Bool, true, Option, some, List, [], ◌∷◌, ◌++◌, map, length, length-append,
  All, ◌≡◌, ◌≢◌, refl, ◌∙◌, arith,
}
use otic.Base.{Floating, Zstd}
use otic.Base.Types.{opened}
use otic.Pack.Flush.{Ctx, Flusher}
use otic.Utility.Format.{Format, format_parse}
use otic.Codec.Session.{Injection, Accepted, finished, accepted, inject_one}
use otic.Demo.Tsv.{injection_of}
use otic.Demo.Tsv.Compress.{
  Progress, read_size, fread, scan_rest, next_chunk, compress_lines, compress_chunks,
}
use otic.Demo.Tsv.Columns.{
  TableLine, IsLine, IsTabbed, line_text, table_text, line_injection, line-LineRead,
}

longer : (xs ys : List ℕ) (n : ℕ) → n < length ys → n < length (xs ++ ys)
longer xs ys n h = omega (arith, length-append xs ys)

line_longer : (l : TableLine) (rest : List ℕ) → length rest < length (line_text l rest)
line_longer l rest =
    let n = length rest in
    longer l.time _ n (
      below _ n (
        longer l.sensor _ n (
          below _ n (
            longer l.skipped _ n
              (below _ n (longer l.unit _ n (below _ n (longer l.value _ n (omega arith)))))))))
  where
    below : (ys : List ℕ) (n : ℕ) → n < length ys → n < length (9 ∷ ys)
    below ys n h = omega arith

length-table_text : (ls : List TableLine) → length ls ≤ length (table_text ls)
length-table_text [] = omega arith
length-table_text (l ∷ ls) = omega (arith, length-table_text ls, line_longer l (table_text ls))

not_empty : {n : ℕ} (xs : List ℕ) → n < length xs → xs ≢ []
not_empty {n = n} xs h e = let z : n < length {A = ℕ} [] = rw e at h in absurd (omega arith)

fread-all : (n : ℕ) (file : List ℕ) → length file ≤ n → fread n file ≡ (file, [])
unfolding fread
fread-all zero [] h = refl
fread-all zero (c ∷ file) h = absurd (omega arith)
fread-all (suc n) [] h = refl
fread-all (suc n) (c ∷ file) h = rw (fread-all n file (omega arith)) refl

-- A short table is one chunk.
next_chunk-short : (file : List ℕ) → length file ≤ read_size → next_chunk file ≡ some (file, [])
unfolding next_chunk scan_rest
next_chunk-short file h = rw (fread-all read_size file h) refl

module _ {W : Type 0} (zs : Zstd) (fl : Floating) (flusher : Flusher W) (memory : Bool)
    (strtod : List ℕ → ℕ) where
  one_line :
      (fuel : ℕ) (ctx : Ctx W) (f f' : Format) (chunk rest : List ℕ) (j : Injection)
      → chunk ≢ []
      → format_parse f chunk ≡ some (f', some rest)
      → injection_of strtod f'.content ≡ some j
      → (inject_one zs fl flusher memory ctx j).1.parent.state ≡ opened
      → compress_lines zs fl flusher memory strtod (suc fuel) ctx f chunk
        ≡ compress_lines zs fl flusher memory strtod fuel
            (inject_one zs fl flusher memory ctx j).1
            f'
            rest
  unfolding compress_lines
  one_line fuel ctx f f' [] rest j h p i s = absurd (h refl)
  one_line fuel ctx f f' (c ∷ chunk) rest j h p i s = rw (compress_lines, p, i, s) refl

  -- The end of the loop over the lines.
  pub record Ends (ctx' : Ctx W) (o : Option (Progress W)) : Type 0 where
    pub format : Format
    pub tabbed : IsTabbed format
    pub ends : o ≡ some (record { good = true; ctx = ctx'; format = format })

  pub compress_lines-Accepted :
      (ls : List TableLine) (fuel : ℕ) (ctx ctx' : Ctx W) (f : Format)
      → All IsLine ls
      → IsTabbed f
      → length ls < fuel
      → Accepted zs fl flusher memory ctx (map (line_injection strtod) ls) ctx'
      → Ends ctx' (compress_lines zs fl flusher memory strtod fuel ctx f (table_text ls))
  unfolding compress_lines
  compress_lines-Accepted ls zero ctx ctx' f h t room a = absurd (omega arith)
  compress_lines-Accepted [] (suc fuel) ctx ctx' f h t room finished = record {
    format = f;
    tabbed = t;
    ends = refl;
  }
  compress_lines-Accepted (l ∷ ls) (suc fuel) ctx ctx' f (hl, h) t room
        (accepted j answer state a) =
      let rest = table_text ls in
      let r = line-LineRead strtod f l rest t hl in
      let e =
        compress_lines-Accepted ls fuel (inject_one zs fl flusher memory ctx j).1 ctx' r.after h
          r.tabbed (omega arith) a in
      record {
        format = e.format;
        tabbed = e.tabbed;
        ends =
            one_line fuel ctx f r.after (line_text l rest) rest j
              (not_empty (line_text l rest) (line_longer l rest)) r.parses r.injects state
            ∙ e.ends;
      }

  one_round :
      (fuel : ℕ) (ctx ctx' : Ctx W) (f f' : Format) (table chunk rest : List ℕ)
      → table ≢ []
      → next_chunk table ≡ some (chunk, rest)
      → compress_lines zs fl flusher memory strtod (suc (length chunk)) ctx f chunk
        ≡ some (record { good = true; ctx = ctx'; format = f' })
      → compress_chunks zs fl flusher memory strtod (suc fuel) ctx f table
        ≡ compress_chunks zs fl flusher memory strtod fuel ctx' f' rest
  unfolding compress_chunks
  one_round fuel ctx ctx' f f' [] chunk rest h n e = absurd (h refl)
  one_round fuel ctx ctx' f f' (c ∷ table) chunk rest h n e = rw (compress_chunks, n, e) refl

  one_chunk :
      (fuel : ℕ) (ctx ctx' : Ctx W) (f : Format) (table : List ℕ)
      → length table < fuel
      → length table ≤ read_size
      → Ends ctx' (compress_lines zs fl flusher memory strtod (suc (length table)) ctx f table)
      → Ends ctx' (compress_chunks zs fl flusher memory strtod fuel ctx f table)
  unfolding compress_chunks compress_lines
  one_chunk zero ctx ctx' f table room short e = absurd (omega arith)
  one_chunk (suc fuel) ctx ctx' f [] room short e = e
  one_chunk (suc zero) ctx ctx' f (c ∷ table) room short e = absurd (omega arith)
  one_chunk (suc (suc fuel)) ctx ctx' f (c ∷ table) room short e = record {
    format = e.format;
    tabbed = e.tabbed;
    ends =
        one_round (suc fuel) ctx ctx' f e.format (c ∷ table) (c ∷ table) []
          (not_empty {n = 0} (c ∷ table) (omega arith)) (next_chunk-short (c ∷ table) short) e.ends;
  }

  pub compress_chunks-Accepted :
      (ls : List TableLine) (fuel : ℕ) (ctx ctx' : Ctx W) (f : Format)
      → All IsLine ls
      → IsTabbed f
      → length (table_text ls) < fuel
      → length (table_text ls) ≤ read_size
      → Accepted zs fl flusher memory ctx (map (line_injection strtod) ls) ctx'
      → Ends ctx' (compress_chunks zs fl flusher memory strtod fuel ctx f (table_text ls))
  compress_chunks-Accepted ls fuel ctx ctx' f h t room short a =
      one_chunk fuel ctx ctx' f (table_text ls) room short (
        compress_lines-Accepted ls (suc (length (table_text ls))) ctx ctx' f h t
          (omega (arith, length-table_text ls)) a)
