-- ===== src/Utility/Aggregator/Runs.antt =====
-- The aggregators of the first and the last value, the number of values and the mean.
use otic.Prelude.{
  ℕ, suc, ◌+◌, ◌%◌, ◌^◌, ◌<◌, false, none, some, List, [], ◌∷◌, length, ◌==◌, ◌≡◌, refl, ap, ◌∙◌,
  arith, inl, inr, Option-cases, ◌≤◌,
}
use otic.Base.{Floating, increment}
use otic.Base.Oval.{Oval, null, int_pos, double}
use otic.Utility.Aggregator.{
  Aggreg, first, last, count, avg, init, number, with_number, insert_first, insert_last,
  insert_count, insert_avg, insert, insert_all, get, get_own, get_avg, own_value,
}

module _ (fl : Floating) (add : ℕ → ℕ → ℕ) where
  -- What `get` gives after values were inserted.
  abbrev pub Gives : Aggreg → List Oval → Oval → Type 0
  Gives a vs r = (b : Aggreg) × (insert_all fl add a vs ≡ some b) × (get fl add b ≡ some r)

  -- The numbers among the values.
  abbrev pub numbers : List Oval → List ℕ
  numbers [] = []
  numbers (v ∷ vs) = elim (number fl add v) [ some x ↦ x ∷ numbers vs | none ↦ numbers vs ]

  abbrev pub total : ℕ → List ℕ → ℕ
  total w [] = w
  total w (x ∷ xs) = total (add w x) xs

  abbrev pub final : Oval → List Oval → Oval
  final v [] = v
  final v (w ∷ ws) = final w ws

  first_kept :
      (a : Aggreg) (vs : List Oval)
      → insert_all fl add (record a { pointers = some first; counter = 1 }) vs
        ≡ some (record a { pointers = some first; counter = 1 })
  unfolding insert_all insert insert_first
  first_kept a [] = refl
  first_kept a (v ∷ vs) = first_kept a vs

  last_kept :
      (a : Aggreg) (vs : List Oval) (v : Oval)
      → insert_all fl add (record a { pointers = some last; copied = v }) vs
        ≡ some (record a { pointers = some last; copied = final v vs })
  unfolding insert_all insert insert_last
  last_kept a [] v = refl
  last_kept a (w ∷ ws) v = last_kept a ws w

  counted :
      (a : Aggreg) (vs : List Oval) (n : ℕ)
      → n < 2 ^ 64
      → insert_all fl add (record a { pointers = some count; word = n }) vs
        ≡ some (record a { pointers = some count; word = (n + length vs) % 2 ^ 64 })
  unfolding insert_all insert insert_count
  counted a [] n h = let same : (n + 0) % 2 ^ 64 ≡ n = omega (arith, h) in rw same refl
  counted a (v ∷ vs) n h =
      let same : ((n + 1) % 2 ^ 64 + length vs) % 2 ^ 64 ≡ (n + suc (length vs)) % 2 ^ 64 =
        omega arith in
      counted a vs (increment n) (omega arith) ∙ rw same refl

  averaged :
      (a : Aggreg) (vs : List Oval) (w n : ℕ)
      → n < 2 ^ 64
      → insert_all fl add (record a { pointers = some avg; word = w; counter = n }) vs
        ≡ some (record a {
          pointers = some avg;
          word = total w (numbers vs);
          counter = (n + length (numbers vs)) % 2 ^ 64;
        })
  unfolding insert_all insert insert_avg with_number
  averaged a [] w n h = let same : (n + 0) % 2 ^ 64 ≡ n = omega (arith, h) in rw same refl
  averaged a (v ∷ vs) w n h = elim (Option-cases (number fl add v)) [
    | inl p ↦ rw (p, insert_avg, numbers) (averaged a vs w n h)
    | inr (x, p) ↦
        let same : ((n + 1) % 2 ^ 64 + length (numbers vs)) % 2 ^ 64
            ≡ (n + suc (length (numbers vs))) % 2 ^ 64 =
          omega arith in
        rw (p, insert_avg, numbers)
          (averaged a vs (add w x) (increment n) (omega arith) ∙ rw same refl)
  ]

  -- No number has no mean.
  abbrev pub mean : List ℕ → Oval
  mean [] = null
  mean (x ∷ xs) = double (fl.div (total 0 (x ∷ xs)) (fl.of_u64 (length (x ∷ xs))))

  length-numbers : (vs : List Oval) → length (numbers vs) ≤ length vs
  length-numbers [] = omega arith
  length-numbers (v ∷ vs) = elim (Option-cases (number fl add v)) [
    | inl p ↦ rw (p, length, numbers) (omega (arith, length-numbers vs))
    | inr (x, p) ↦ rw (p, length, numbers) (omega (arith, length-numbers vs))
  ]

  get_avg-mean :
      (a : Aggreg) (xs : List ℕ)
      → length xs < 2 ^ 64
      → get_avg fl add (record a { word = total 0 xs; counter = (0 + length xs) % 2 ^ 64 })
        ≡ mean xs
  unfolding get_avg
  get_avg-mean a [] h = refl
  get_avg-mean a (x ∷ xs) h =
      let whole : (0 + length (x ∷ xs)) % 2 ^ 64 ≡ length (x ∷ xs) = omega (arith, h) in
      let some' : (length (x ∷ xs) == 0) ≡ false = ground arith in rw whole (rw some' refl)

  -- For one value or more, and fewer than 2^64, that are inserted into a new aggregator: FIRST
  -- answers the first of them, LAST the last, COUNT their number, and AVG the sum of the numbers
  -- among them divided by how many these are, or null if there are none.
  pub runs :
      (a : Aggreg) (v : Oval) (vs : List Oval)
      → length (v ∷ vs) < 2 ^ 64
      → Gives (init a first) (v ∷ vs) v
        × Gives (init a last) (v ∷ vs) (final v vs)
        × Gives (init a count) (v ∷ vs) (int_pos (length (v ∷ vs)))
        × Gives (init a avg) (v ∷ vs) (mean (numbers (v ∷ vs)))
  unfolding init insert_all insert insert_first insert_last insert_count get get_own own_value
  runs a v vs h =
      let whole : (1 + length vs) % 2 ^ 64 ≡ length (v ∷ vs) = omega (arith, h) in
      (
        (_, first_kept (record (init a first) { copied = v }) vs, refl),
        (_, last_kept (init a last) vs v, refl),
        (_, counted (init a count) vs 1 (omega arith), ap (λ (n : ℕ). some (int_pos n)) whole),
        (
          _,
          averaged (init a avg) (v ∷ vs) 0 0 (omega arith),
          ap (λ (r : Oval). some r)
              (get_avg-mean (init a avg) (numbers (v ∷ vs))
                (omega (arith, h, length-numbers (v ∷ vs)))),
        ),
      )
