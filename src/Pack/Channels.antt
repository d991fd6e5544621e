-- ===== src/Pack/Channels.antt =====
-- The list of the packer's channels: ids that differ, and the ways to close them.
use otic.Prelude.{
  ℕ, Bool, true, false, none, some, List, [], ◌∷◌, ◌==◌, ==_refl, ◌≡◌, ◌⊎◌, refl, inl, inr,
  Bool-cases, Option-cases, if◌then◌else◌,
}
use otic.Base.{Floating, Zstd}
use otic.Base.Types.{OticState, ChannelType, opened, on_error, closed}
use otic.Pack.Channel.{Channel, LeftOver}
use otic.Pack.Flush.{Flusher, Parent}
use otic.Pack.Container.{
  Pack, find_channel, remove_channel, channel_init, define_channel, channel_close, close_channels,
  close, fail_with, send, default_size,
}

-- No two channels have the same id, and none has the id of the container itself.
abbrev pub Distinct : List Channel → Type 0
Distinct [] = Unit {0}
Distinct (c ∷ cs) =
    ((c.channel_id == 0) ≡ false) × (find_channel cs c.channel_id ≡ none) × Distinct cs

state_cases : (s : OticState) → (s ≡ opened) ⊎ (s ≡ on_error) ⊎ (s ≡ closed)
state_cases opened = inl refl
state_cases on_error = inr (inl refl)
state_cases closed = inr (inr refl)

some_injective {ℓ} : {A : Type ℓ} {x y : A} → some x ≡ some y → x ≡ y
some_injective h = cc

module _ {W : Type 0} where
  -- Defining a channel of a container in which no two channels share an id and none has the id 0
  -- keeps this so, whatever the answer, and where it answers true, looking the id up finds the
  -- new channel, with the default size for a size of 0.
  pub pack_define-Distinct :
      (flusher : Flusher W) (memory : Bool) (fl : Floating) (left_over : LeftOver) (pack : Pack W)
      (type : ChannelType) (id size : ℕ)
      → Distinct pack.channels
      → Distinct (define_channel flusher memory fl left_over pack type id size).1.channels
        × ((define_channel flusher memory fl left_over pack type id size).0 ≡ true
            → find_channel
                (define_channel flusher memory fl left_over pack type id size).1.channels
                id
              ≡ some (channel_init fl left_over id type (if size == 0 then default_size else size)))
  unfolding define_channel fail_with find_channel channel_init send
  pack_define-Distinct flusher memory fl left_over pack type id size d =
      elim (state_cases pack.parent.state) [
        | inr (inl p) ↦ rw (p, define_channel) (d, λ ok. cc)
        | inr (inr p) ↦ rw (p, define_channel) (d, λ ok. cc)
        | inl p ↦ elim (Bool-cases (id == 0)) [
          | inl z ↦ rw (p, define_channel) (rw z (d, λ ok. cc))
          | inr z ↦ elim (Option-cases (find_channel pack.channels id)) [
            | inr (c, found) ↦ rw (p, define_channel) (rw (z, found) (d, λ ok. cc))
            | inl absent ↦ elim (Bool-cases memory) [
              | inl m ↦
                  rw (p, define_channel)
                    (rw (z, absent, m) ((z, absent, d), λ ok. rw (==_refl id) refl))
              | inr m ↦ rw (p, define_channel) (rw (z, absent, m) (d, λ ok. cc))
            ]
          ]
        ]
      ]

  module _ (zs : Zstd) (flusher : Flusher W) where
    close_first :
        (c : Channel) (cs : List Channel) (parent : Parent W)
        → (parent' : Parent W) × (channel_close zs flusher
              (record { channels = c ∷ cs; parent = parent })
              c
            ≡ (true, record { channels = cs; parent = parent' }))
    unfolding channel_close find_channel remove_channel
    close_first c cs parent =
        let found : find_channel (c ∷ cs) c.channel_id ≡ some c = rw (==_refl c.channel_id) refl in
        let pack : Pack W = record { channels = c ∷ cs; parent = parent } in
        (
          (channel_close zs flusher pack c).1.parent,
          rw (found, channel_close) (rw (==_refl c.channel_id) refl),
        )

    close_channels_lem :
        (cs : List Channel) (parent : Parent W)
        → (close_channels zs flusher cs (record { channels = cs; parent = parent })).0 ≡ true
          × ((close_channels zs flusher cs (record { channels = cs; parent = parent })).1.channels
              ≡ [])
          × ((close_channels zs flusher cs
                (record { channels = cs; parent = parent })).1.parent.state
              ≡ closed)
    unfolding close_channels
    close_channels_lem [] parent = (refl, refl, refl)
    close_channels_lem (c ∷ cs) parent =
        let (parent', e) = close_first c cs parent in
        rw (e, close_channels) (close_channels_lem cs parent')

    -- Closing a container answers true and leaves it closed and without channels, whether or not
    -- the flusher took the last blocks.
    pub pack_close_all :
        (pack : Pack W)
        → ((close zs flusher pack).0 ≡ true)
          × ((close zs flusher pack).1.channels ≡ [])
          × ((close zs flusher pack).1.parent.state ≡ closed)
    unfolding close
    pack_close_all pack = close_channels_lem pack.channels pack.parent
