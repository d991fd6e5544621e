-- ===== src/Codec/Reads.antt =====
-- Runs of the block parser: a derivation for each sequence of records, whatever bytes follow.
use otic.Prelude.{
  ℕ, zero, suc, ◌≤◌, Option, some, List, [], ◌∷◌, ◌++◌, length, length-append, append_assoc,
  append-nil, ◌≡◌, refl, sym, ap, ◌∙◌, arith, ◌>>=◌,
}
use otic.Base.{Floating}
use otic.Unpack.Channel.{Channel}
use otic.Unpack.Block.{parse_record, parse_loop, parse_block}

-- The channel with other bytes to read.
abbrev pub at : Channel → List ℕ → Channel
at u bytes = record u { top = bytes }

module _ (fl : Floating) (version : ℕ) where
  -- One record, of the byte `b` and the bytes `bs`, takes `u` to `v`.
  abbrev pub OneRecord : Channel → ℕ → List ℕ → Channel → Type 0
  OneRecord u b bs v = (rest : List ℕ) → parse_record fl version u b (bs ++ rest) ≡ some (at v rest)

  pub data Reads : Channel → List ℕ → Channel → Type 0 where
    none : {u : Channel} → Reads u [] u
    next :
        {u v w : Channel} {all : List ℕ} (b : ℕ) (bs more : List ℕ)
        → OneRecord u b bs v
        → Reads v more w
        → all ≡ b ∷ (bs ++ more)
        → Reads u all w

  pub Reads-one : {u v : Channel} (b : ℕ) (bs : List ℕ) → OneRecord u b bs v → Reads u (b ∷ bs) v
  Reads-one b bs h = next b bs [] h none (sym (ap (λ (t : List ℕ). b ∷ t) (append-nil bs)))

  pub Reads-append :
      {u v w : Channel} {xs : List ℕ} (ys : List ℕ)
      → Reads u xs v
      → Reads v ys w
      → Reads u (xs ++ ys) w
  Reads-append ys none r = r
  Reads-append ys (next b bs more h rest e) r =
      next b bs (more ++ ys) h (Reads-append ys rest r)
        (rw e (ap (λ (t : List ℕ). b ∷ t) (append_assoc bs more ys)))

  -- The parser follows a derivation to its end, in as many rounds as there are bytes.
  parse_loop-Reads :
      {u w : Channel} {all : List ℕ} (n : ℕ)
      → Reads u all w
      → length all ≤ n
      → parse_loop fl version n all (at u all) ≡ some (at w [])
  unfolding parse_loop parse_record
  parse_loop-Reads zero none h = refl
  parse_loop-Reads (suc n) none h = refl
  parse_loop-Reads zero (next b bs more step rest e) h = absurd (omega (arith, ap length e))
  parse_loop-Reads (suc n) (next {v = v} b bs more step rest e) h = rw e (
      ap (λ (m : Option Channel). m >>= λ (c : Channel). parse_loop fl version n c.top c)
        (step more)
      ∙ parse_loop-Reads n rest (omega (arith, ap length e, length-append bs more)))

  pub parse_block-Reads :
      {u w : Channel} {all : List ℕ}
      → Reads u all w
      → parse_block fl version (at u all) ≡ some (at w [])
  unfolding parse_block
  parse_block-Reads {all = all} r = parse_loop-Reads (length all) r (omega arith)
