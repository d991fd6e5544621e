-- ===== src/Unpack/Channels.antt =====
-- The list of the reader's channels: ids that differ, and channels that are found until they are
-- closed.
use otic.Prelude.{
  ℕ, Bool, true, none, some, List, [], ◌∷◌, ◌==◌, ==_refl, ◌≡◌, ◌⊎◌, refl, sym, arith, inl, inr,
  Bool-cases, Option-cases,
}
use otic.Base.{Floating}
use otic.Base.Types.{opened, on_error, closed, OticState}
use otic.Unpack.Channel.{Channel}
use otic.Unpack.Container.{
  Unpack, find_channel, remove_channel, channel_init, define_channel, close_channel, channel_close,
  close_channels, close, fail_with,
}

-- No two channels have the same id.
abbrev pub Distinct : List Channel → Type 0
Distinct [] = Unit {0}
Distinct (c ∷ cs) = (find_channel cs c.channel_id ≡ none) × Distinct cs

remove-absent :
    (cs : List Channel) (id other : ℕ)
    → find_channel cs other ≡ none
    → find_channel (remove_channel cs id) other ≡ none
unfolding find_channel remove_channel
remove-absent [] id other h = refl
remove-absent (c ∷ cs) id other h = ground (arith, remove-absent cs id other)

remove-Distinct : (cs : List Channel) (id : ℕ) → Distinct cs → Distinct (remove_channel cs id)
unfolding find_channel remove_channel
remove-Distinct [] id d = tt
remove-Distinct (c ∷ cs) id (absent, d) = elim (Bool-cases (c.channel_id == id)) [
  | inl p ↦ rw p d
  | inr p ↦ rw p (remove-absent cs id c.channel_id absent, remove-Distinct cs id d)
]

≡_of_== : (a b : ℕ) → (a == b) ≡ true → a ≡ b
≡_of_== a b h = ground arith

remove-gone :
    (cs : List Channel) (id : ℕ) → Distinct cs → find_channel (remove_channel cs id) id ≡ none
unfolding find_channel remove_channel
remove-gone [] id d = refl
remove-gone (c ∷ cs) id (absent, d) = elim (Bool-cases (c.channel_id == id)) [
  | inl p ↦ rw p (rw (sym (≡_of_== c.channel_id id p)) absent)
  | inr p ↦ rw (p, find_channel) (rw p (remove-gone cs id d))
]

state_cases : (s : OticState) → (s ≡ opened) ⊎ (s ≡ on_error) ⊎ (s ≡ closed)
state_cases opened = inl refl
state_cases on_error = inr (inl refl)
state_cases closed = inr (inr refl)

module _ {F : Type 0} where
  -- Defining a channel of a reader in which no two channels share an id keeps this so, whatever
  -- the answer, and where it answers true, looking the id up finds the new channel.
  pub define_channel-Distinct :
      (memory : Bool) (fl : Floating) (left_over : ℕ) (up : Unpack F) (id : ℕ)
      → Distinct up.channels
      → Distinct (define_channel memory fl left_over up id).1.channels
        × ((define_channel memory fl left_over up id).0 ≡ true
            → find_channel (define_channel memory fl left_over up id).1.channels id
              ≡ some (channel_init fl id left_over))
  unfolding define_channel fail_with find_channel channel_init
  define_channel-Distinct memory fl left_over up id d = elim (state_cases up.state) [
    | inr (inl p) ↦ rw (p, define_channel) (d, λ ok. cc)
    | inr (inr p) ↦ rw (p, define_channel) (d, λ ok. cc)
    | inl p ↦ elim (Option-cases (find_channel up.channels id)) [
      | inr (c, found) ↦ rw (p, found, define_channel) (d, λ ok. cc)
      | inl absent ↦ elim (Bool-cases memory) [
        | inl m ↦ rw (p, absent, m, define_channel) ((absent, d), λ ok. rw (==_refl id) refl)
        | inr m ↦ rw (p, absent, m, define_channel) (d, λ ok. cc)
      ]
    ]
  ]

  -- Closing a channel of a reader in which no two channels share an id keeps this so, and the id
  -- is not found any more.
  pub close_channel-Distinct :
      (up : Unpack F) (id : ℕ)
      → Distinct up.channels
      → Distinct (close_channel up id).1.channels
        × (find_channel (close_channel up id).1.channels id ≡ none)
  unfolding close_channel fail_with
  close_channel-Distinct up id d = elim (Option-cases (find_channel up.channels id)) [
    | inl absent ↦ rw (absent, close_channel) (d, absent)
    | inr (c, found) ↦
        rw (found, close_channel) (remove-Distinct up.channels id d, remove-gone up.channels id d)
  ]

  channel_close_first :
      (c : Channel) (cs : List Channel) (up : Unpack F)
      → channel_close (record up { channels = c ∷ cs }) c ≡ (true, record up { channels = cs })
  unfolding channel_close find_channel remove_channel
  channel_close_first c cs up =
      let found : find_channel (c ∷ cs) c.channel_id ≡ some c = rw (==_refl c.channel_id) refl in
      rw (found, channel_close) (rw (==_refl c.channel_id) refl)

  close_channels_lem :
      (cs : List Channel) (up : Unpack F)
      → close_channels cs (record up { channels = cs })
        ≡ (true, record up { channels = []; state = closed })
  unfolding close_channels
  close_channels_lem [] up = refl
  close_channels_lem (c ∷ cs) up =
      rw (channel_close_first c cs up, close_channels) (close_channels_lem cs up)

  -- Closing a reader answers true and leaves it closed and without channels, since every channel
  -- of the loop is found in the list it is taken out of.
  pub close_all : (up : Unpack F) → close up ≡ (true, record up { channels = []; state = closed })
  unfolding close
  close_all up = close_channels_lem up.channels up
