-- ===== src/Unpack/Generate/Lines.antt =====
-- The lines that the generator gives for a block, and the block parser.
use otic.Prelude.{
  ℕ, zero, suc, true, false, some, List, [], ◌∷◌, length, ltb, ◌≡◌, refl, sym, ◌∙◌, arith, inl, inr,
  Option-cases, Bool-cases, ap, OfSome, OfSome-bind, OfSome-elim,
}
use otic.Base.{Floating}
use otic.Base.Types.{small_int_limit, type_of_code}
use otic.Unpack.Channel.{Channel}
use otic.Unpack.Block.{parse_record, parse_loop, parse_block, dispatch}
use otic.Unpack.Read.{read_smallint}
use otic.Unpack.Kept.{Kept, Kept-refl, moved}
use otic.Unpack.Kept.Records.{dispatch-Kept, smallint-Kept}
use otic.Unpack.Generate.{Line, answer_of, line_switch, line_at, get_line}

module _ (fl : Floating) (version : ℕ) where
  -- Calls of `otic_unpack_getLine` on a channel until one clears `current`.
  pub data Lines : Channel → Channel → Type 0 where
    last :
        {c : Channel} (l : Line)
        → get_line fl version c ≡ some l
        → l.ended ≡ true
        → Lines c l.channel
    more :
        {c c' : Channel} (l : Line)
        → get_line fl version c ≡ some l
        → l.ended ≡ false
        → Lines l.channel c'
        → Lines c c'

  -- A block in which a record that is no small integer follows every small integer.
  pub data Apart : Channel → Type 0 where
    nothing : {c : Channel} → c.top ≡ [] → Apart c
    large :
        {c : Channel} (b : ℕ) (rest : List ℕ)
        → c.top ≡ b ∷ rest
        → ltb b small_int_limit ≡ false
        → ((c1 : Channel) → parse_record fl version c b rest ≡ some c1 → Apart c1)
        → Apart c
    small :
        {c : Channel} (b : ℕ) (rest : List ℕ)
        → c.top ≡ b ∷ rest
        → ltb b small_int_limit ≡ true
        → (b2 : ℕ) (rest2 : List ℕ) → ltb b2 small_int_limit ≡ false
        → ((c1 : Channel) → parse_record fl version c b rest ≡ some c1 → c1.top ≡ b2 ∷ rest2)
        → ((c1 c2 : Channel)
            → parse_record fl version c b rest ≡ some c1
            → parse_record fl version c1 b2 rest2 ≡ some c2
            → Apart c2)
        → Apart c

  end_line : (c : Channel) → c.top ≡ [] → Lines c c
  unfolding get_line line_at
  end_line c e = last (record { answer = true; ended = true; channel = c }) (rw e refl) refl

  switch_line :
      (c c1 : Channel) (b : ℕ) (rest : List ℕ)
      → ltb b small_int_limit ≡ false
      → parse_record fl version c b rest ≡ some c1
      → line_switch fl version c (b ∷ rest)
        ≡ some (record { answer = answer_of (type_of_code b); ended = false; channel = c1 })
  unfolding line_switch parse_record
  switch_line c c1 b rest h e = rw (rw h at e) refl

  large_line :
      (c c1 : Channel) (b : ℕ) (rest : List ℕ)
      → c.top ≡ b ∷ rest
      → ltb b small_int_limit ≡ false
      → parse_record fl version c b rest ≡ some c1
      → get_line fl version c
        ≡ some (record { answer = answer_of (type_of_code b); ended = false; channel = c1 })
  unfolding get_line line_at
  large_line c c1 b rest top h e = rw (top, h) (switch_line c c1 b rest h e)

  small_line :
      (c c1 c2 : Channel) (b b2 : ℕ) (rest rest2 : List ℕ)
      → c.top ≡ b ∷ rest
      → ltb b small_int_limit ≡ true
      → parse_record fl version c b rest ≡ some c1
      → c1.top ≡ b2 ∷ rest2
      → ltb b2 small_int_limit ≡ false
      → parse_record fl version c1 b2 rest2 ≡ some c2
      → get_line fl version c
        ≡ some (record { answer = answer_of (type_of_code b2); ended = false; channel = c2 })
  unfolding get_line line_at parse_record
  small_line c c1 c2 b b2 rest rest2 top h e top1 h1 e1 =
      rw (top, h) (rw (rw h at e) (rw top1 (fold_switch h1 e1)))
    where
      fold_switch :
          ltb b2 small_int_limit ≡ false
          → parse_record fl version c1 b2 rest2 ≡ some c2
          → line_switch fl version c1 (b2 ∷ rest2)
            ≡ some (record { answer = answer_of (type_of_code b2); ended = false; channel = c2 })
      fold_switch = switch_line c1 c2 b2 rest2

  -- A round of the parser that has come through, and the rounds behind it.
  first_round :
      (fuel : ℕ) (c c' : Channel) (b : ℕ) (rest : List ℕ)
      → parse_loop fl version fuel (b ∷ rest) c ≡ some c'
      → (c1 : Channel) × (n : ℕ) × (parse_record fl version c b rest ≡ some c1)
        × (parse_loop fl version n c1.top c1 ≡ some c')
  unfolding parse_loop
  first_round zero c c' b rest h = absurd cc
  first_round (suc fuel) c c' b rest h = elim (Option-cases (parse_record fl version c b rest)) [
    | inl p ↦ absurd (ground (arith, rw p at h))
    | inr (c1, p) ↦ (c1, fuel, p, rw p at h)
  ]

  loop_ends : (fuel : ℕ) (c c' : Channel) → parse_loop fl version fuel [] c ≡ some c' → c ≡ c'
  unfolding parse_loop
  loop_ends zero c c' h = cc
  loop_ends (suc fuel) c c' h = cc

  loop-Lines :
      (fuel : ℕ) (t : List ℕ) (c c' : Channel)
      → c.top ≡ t
      → Apart c
      → parse_loop fl version fuel t c ≡ some c'
      → Lines c c'
  loop-Lines fuel t c c' same (nothing e) h =
      rw (← loop_ends fuel c c' (rw (sym same ∙ e) at h)) (end_line c e)
  loop-Lines fuel t c c' same (large b rest top big next) h =
      let (c1, n, e, more_rounds) = first_round fuel c c' b rest (rw (sym same ∙ top) at h) in
      more _ (large_line c c1 b rest top big e) refl
        (loop-Lines n c1.top c1 c' refl (next c1 e) more_rounds)
  loop-Lines fuel t c c' same (small b rest top low b2 rest2 big second next) h =
      let (c1, n, e, rounds1) = first_round fuel c c' b rest (rw (sym same ∙ top) at h) in
      let (c2, n2, e2, rounds2) = second_round n c1 c' b2 rest2 c1.top rounds1 (second c1 e) in
      more _ (small_line c c1 c2 b b2 rest rest2 top low e (second c1 e) big e2) refl
        (loop-Lines n2 c2.top c2 c' refl (next c1 c2 e e2) rounds2)
    where
      second_round :
          (n : ℕ) (c1 c' : Channel) (b2 : ℕ) (rest2 t1 : List ℕ)
          → parse_loop fl version n t1 c1 ≡ some c'
          → t1 ≡ b2 ∷ rest2
          → (c2 : Channel) × (n2 : ℕ) × (parse_record fl version c1 b2 rest2 ≡ some c2)
            × (parse_loop fl version n2 c2.top c2 ≡ some c')
      second_round n c1 c' b2 rest2 t1 h e = first_round n c1 c' b2 rest2 (rw e at h)

  pub parse_block-Lines :
      (c c' : Channel) → Apart c → parse_block fl version c ≡ some c' → Lines c c'
  unfolding parse_block
  parse_block-Lines c c' apart = loop-Lines (length c.top) c.top c c' refl apart

  switch-Kept :
      (c c1 : Channel) (t : List ℕ)
      → c1.top ≡ t
      → Kept c c1
      → OfSome (λ (l : Line). Kept c l.channel) (line_switch fl version c1 t)
  unfolding line_switch
  switch-Kept c c1 [] top k = tt
  switch-Kept c c1 (b ∷ rest) top k =
      OfSome-bind _ _ (dispatch fl version (type_of_code b) (record c1 { top = rest })) _
        (dispatch-Kept c fl version (type_of_code b) (record c1 { top = rest })
          (moved c c1 rest k (omega (arith, ap length top))))
        (λ c2 k2. k2)

  line-Kept :
      (c : Channel) (t : List ℕ)
      → c.top ≡ t
      → OfSome (λ (l : Line). Kept c l.channel) (line_at fl version c t)
  unfolding line_at
  line-Kept c [] top = Kept-refl c
  line-Kept c (b ∷ rest) top = elim (Bool-cases (ltb b small_int_limit)) [
    | inl p ↦ rw p (
        OfSome-bind _ _ (read_smallint (record c { top = rest }) b) _
          (smallint-Kept c b (record c { top = rest })
            (moved c c rest (Kept-refl c) (omega (arith, ap length top))))
          (λ c1 k. switch-Kept c c1 c1.top refl k))
    | inr p ↦ rw p (switch-Kept c c (b ∷ rest) top (Kept-refl c))
  ]

  -- A line keeps what every record keeps.
  pub get_line-Kept : (c : Channel) (l : Line) → get_line fl version c ≡ some l → Kept c l.channel
  unfolding get_line
  get_line-Kept c l e = OfSome-elim _ (line_at fl version c c.top) l e (line-Kept c c.top refl)
