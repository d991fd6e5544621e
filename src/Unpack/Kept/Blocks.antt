-- ===== src/Unpack/Kept/Blocks.antt =====
-- The block parser on whatever bytes: it comes to the end of the block.
use otic.Prelude.{
  ℕ, zero, suc, some, List, [], ◌∷◌, ◌++◌, append_assoc, length, ◌≡◌, refl, ap, ◌∙◌, arith, inl,
  inr, Option-cases, OfSome-elim,
}
use otic.Base.{Floating}
use otic.Unpack.Channel.{Channel, Row}
use otic.Unpack.Block.{parse_record, parse_loop, parse_block}
use otic.Unpack.Kept.{Kept, Kept-refl}
use otic.Unpack.Kept.Records.{parse_record-Kept}

pub Kept-trans : {c c1 c2 : Channel} → Kept c c1 → Kept c1 c2 → Kept c c2
Kept-trans {c} {c1} {c2} k l = record {
  id = l.id ∙ k.id;
  size = l.size ∙ k.size;
  new_rows = k.new_rows ++ l.new_rows;
  rows =
      l.rows
      ∙ ap (λ (rs : List Row). rs ++ l.new_rows) k.rows
      ∙ append_assoc c.rows k.new_rows l.new_rows;
  shorter = omega (arith, l.shorter, k.shorter);
}

module _ (fl : Floating) (version : ℕ) where
  -- One record of a block that begins at `top`.
  record-Kept :
      (c c1 : Channel) (b : ℕ) (rest : List ℕ)
      → parse_record fl version c b rest ≡ some c1
      → Kept (record c { top = rest }) c1
  record-Kept c c1 b rest e =
      OfSome-elim _ (parse_record fl version c b rest) c1 e (parse_record-Kept fl version c b rest)

  pub one-Kept :
      (c c1 : Channel) (b : ℕ) (rest : List ℕ)
      → c.top ≡ b ∷ rest
      → parse_record fl version c b rest ≡ some c1
      → Kept c c1
  one-Kept c c1 b rest top e =
      let k = record-Kept c c1 b rest e in
      record {
        id = k.id;
        size = k.size;
        new_rows = k.new_rows;
        rows = k.rows;
        shorter = omega (arith, k.shorter, ap length top);
      }

  loop-Kept :
      (fuel : ℕ) (t : List ℕ) (c c' : Channel)
      → c.top ≡ t
      → parse_loop fl version fuel t c ≡ some c'
      → Kept c c' × (c'.top ≡ [])
  unfolding parse_loop
  loop-Kept zero [] c c' same h = let e : c ≡ c' = cc in rw (← e) (Kept-refl c, same)
  loop-Kept (suc fuel) [] c c' same h = let e : c ≡ c' = cc in rw (← e) (Kept-refl c, same)
  loop-Kept zero (b ∷ rest) c c' same h = absurd cc
  loop-Kept (suc fuel) (b ∷ rest) c c' same h =
      elim (Option-cases (parse_record fl version c b rest)) [
        | inl p ↦ absurd (ground (arith, rw p at h))
        | inr (c1, p) ↦
            let (k, ended) = loop-Kept fuel c1.top c1 c' refl (rw p at h) in
            (Kept-trans (one-Kept c c1 b rest same p) k, ended)
      ]

  -- Whatever the bytes of a block are, where the block parser reads no memory outside it, it
  -- comes to the end of the block, keeps the id and the buffer size of the channel, and adds rows
  -- behind those that were delivered before.
  pub parse_block-Kept :
      (c c' : Channel) → parse_block fl version c ≡ some c' → Kept c c' × (c'.top ≡ [])
  unfolding parse_block
  parse_block-Kept c c' = loop-Kept (length c.top) c.top c c' refl
