-- ===== src/Utility/Aggregator/Extremes.antt =====
-- The least and the greatest of the numbers that were inserted.
use otic.Prelude.{
  ℕ, Bool, true, false, Option, none, some, List, [], ◌∷◌, All, ◌⊎◌, inl, inr, ◌≡◌, refl, sym, ap,
  ◌∙◌, Bool-cases, if◌then◌else◌,
}
use otic.Base.{Floating}
use otic.Base.Oval.{Oval, null, double, double_eq}
use otic.Base.Double.{double_lt, double_lt_trans, double_lt_irrefl, dbl_max, dbl_min}
use otic.Utility.Aggregator.{
  Aggreg, min, max, init, number, with_number, insert_min, insert_max, insert, insert_all, get,
  get_min, get_max, own_value, type_null, type_double,
}

module _ (fl : Floating) (add : ℕ → ℕ → ℕ) where
  -- A number among the values.
  abbrev pub Among : ℕ → List Oval → Type 0
  Among x [] = ⊥
  Among x (v ∷ vs) = (number fl add v ≡ some x) ⊎ Among x vs

  -- `lt x y` says that `x` is better than `y`.
  module _ (lt : ℕ → ℕ → Bool) where
    -- No number of the values is better than this.
    abbrev pub Best : ℕ → List Oval → Type 0
    Best w = All (λ v. (x : ℕ) → number fl add v ≡ some x → lt x w ≡ false)

    better : ℕ → Option ℕ → ℕ
    better w none = w
    better w (some x) = if lt x w then x else w

    best : ℕ → List Oval → ℕ
    unfolding better
    best w [] = w
    best w (v ∷ vs) = best (better w (number fl add v)) vs

    module _ (irrefl : (a : ℕ) → lt a a ≡ false)
        (trans : (a b c : ℕ) → lt a b ≡ true → lt b c ≡ true → lt a c ≡ true) where
      better_keeps : (y w : ℕ) (m : Option ℕ) → lt y w ≡ false → lt y (better w m) ≡ false
      unfolding better
      better_keeps y w none h = h
      better_keeps y w (some x) h = elim (Bool-cases (lt x w)) [
        | inr p ↦ rw p h
        | inl p ↦ rw p (elim (Bool-cases (lt y x)) [
          | inr q ↦ q
          | inl q ↦ let less : lt y w ≡ true = trans y x w q p in absurd cc
        ])
      ]

      best_keeps : (y w : ℕ) (vs : List Oval) → lt y w ≡ false → lt y (best w vs) ≡ false
      unfolding best
      best_keeps y w [] h = h
      best_keeps y w (v ∷ vs) h =
          best_keeps y (better w (number fl add v)) vs (better_keeps y w (number fl add v) h)

      better_first : (x w : ℕ) (m : Option ℕ) → m ≡ some x → lt x (better w m) ≡ false
      unfolding better
      better_first x w m e =
          rw e (elim (Bool-cases (lt x w)) [ inl p ↦ rw p (irrefl x) | inr p ↦ rw p p ])

      best-Best : (w : ℕ) (vs : List Oval) → Best (best w vs) vs
      unfolding best
      best-Best w [] = tt
      best-Best w (v ∷ vs) =
          let next = better w (number fl add v) in
          (λ x e. best_keeps x next vs (better_first x w (number fl add v) e), best-Best next vs)

    better_cases : (w : ℕ) (m : Option ℕ) → (better w m ≡ w) ⊎ (m ≡ some (better w m))
    unfolding better
    better_cases w none = inl refl
    better_cases w (some x) = elim (Bool-cases (lt x w)) [
      | inl p ↦ rw p (inr refl)
      | inr p ↦ rw p (inl refl)
    ]

    best-Among : (w : ℕ) (vs : List Oval) → (best w vs ≡ w) ⊎ Among (best w vs) vs
    unfolding best
    best-Among w [] = inl refl
    best-Among w (v ∷ vs) =
        let next = better w (number fl add v) in
        elim (best-Among next vs) [
          | inr later ↦ inr (inr later)
          | inl e ↦ elim (better_cases w (number fl add v)) [
            | inl kept ↦ inl (e ∙ kept)
            | inr taken ↦ inr (inl (taken ∙ ap (λ (x : ℕ). some x) (sym e)))
          ]
        ]

  -- What `get` gives for the best number `w`, where `none'` stands for no number.
  abbrev pub shown : ℕ → ℕ → Oval
  shown none' w = if double_eq w none' then null else double w

  -- An aggregator that has seen the values `vs`: it gives the best of them, which none is better than.
  pub record Extreme (lt : ℕ → ℕ → Bool) (none' : ℕ) (a : Aggreg) (vs : List Oval) : Type 0 where
    pub after : Aggreg
    pub inserted : insert_all fl add a vs ≡ some after
    pub word : ℕ
    pub answer : get fl add after ≡ some (shown none' word)
    pub best : Best lt word vs
    pub among : (word ≡ none') ⊎ Among word vs

  one_min :
      (a : Aggreg) (v : Oval)
      → insert_min fl add a v ≡ record a { word = better double_lt a.word (number fl add v) }
  unfolding insert_min with_number better
  one_min a v = by_number (number fl add v)
    where
      by_number :
          (m : Option ℕ)
          → with_number fl add m a (λ x. if double_lt x a.word then record a { word = x } else a)
            ≡ record a { word = better double_lt a.word m }
      by_number none = refl
      by_number (some x) = elim (Bool-cases (double_lt x a.word)) [
        | inl p ↦ rw p refl
        | inr p ↦ rw p refl
      ]

  abbrev pub greater : ℕ → ℕ → Bool
  greater x y = double_lt y x

  one_max :
      (a : Aggreg) (v : Oval)
      → insert_max fl add a v ≡ record a { word = better greater a.word (number fl add v) }
  unfolding insert_max with_number better
  one_max a v = by_number (number fl add v)
    where
      by_number :
          (m : Option ℕ)
          → with_number fl add m a (λ x. if double_lt a.word x then record a { word = x } else a)
            ≡ record a { word = better greater a.word m }
      by_number none = refl
      by_number (some x) = elim (Bool-cases (double_lt a.word x)) [
        | inl p ↦ rw p refl
        | inr p ↦ rw p refl
      ]

  all_min :
      (a : Aggreg) (vs : List Oval)
      → insert_all fl add (record a { pointers = some min }) vs
        ≡ some (record a { word = best double_lt a.word vs; pointers = some min })
  unfolding insert_all insert best
  all_min a [] = refl
  all_min a (v ∷ vs) =
      rw (one_min (record a { pointers = some min }) v)
        (all_min (record a { word = better double_lt a.word (number fl add v) }) vs)

  all_max :
      (a : Aggreg) (vs : List Oval)
      → insert_all fl add (record a { pointers = some max }) vs
        ≡ some (record a { word = best greater a.word vs; pointers = some max })
  unfolding insert_all insert best
  all_max a [] = refl
  all_max a (v ∷ vs) =
      rw (one_max (record a { pointers = some max }) v)
        (all_max (record a { word = better greater a.word (number fl add v) }) vs)

  own_lem :
      (b : Bool) (w : ℕ)
      → own_value fl add (if b then type_null else type_double) w ≡ (if b then null else double w)
  unfolding own_value
  own_lem true w = refl
  own_lem false w = refl

  min-Extreme : (a : Aggreg) (vs : List Oval) → Extreme double_lt dbl_max (init a min) vs
  unfolding init get get_min
  min-Extreme a vs =
      let w = best double_lt dbl_max vs in
      record {
        after = record (init a min) { word = w };
        inserted = all_min (init a min) vs;
        word = w;
        answer = ap (λ (v : Oval). some v) (own_lem (double_eq w dbl_max) w);
        best = best-Best double_lt double_lt_irrefl double_lt_trans dbl_max vs;
        among = best-Among double_lt dbl_max vs;
      }

  max-Extreme : (a : Aggreg) (vs : List Oval) → Extreme greater dbl_min (init a max) vs
  unfolding init get get_max
  max-Extreme a vs =
      let w = best greater dbl_min vs in
      record {
        after = record (init a max) { word = w };
        inserted = all_max (init a max) vs;
        word = w;
        answer = ap (λ (v : Oval). some v) (own_lem (double_eq w dbl_min) w);
        best =
            best-Best greater double_lt_irrefl (λ x y z h k. double_lt_trans z y x k h) dbl_min vs;
        among = best-Among greater dbl_min vs;
      }

  -- Whatever values are inserted into an aggregator of the type MIN, it takes them all and its
  -- answer is one of the numbers among them, as the code converts them, that none of them is less
  -- than, or null where it is still DBL_MAX; and for the type MAX, one that none of them is
  -- greater than, or null where it is still DBL_MIN.
  pub extremes :
      (a : Aggreg) (vs : List Oval)
      → Extreme double_lt dbl_max (init a min) vs × Extreme greater dbl_min (init a max) vs
  extremes a vs = (min-Extreme a vs, max-Extreme a vs)
