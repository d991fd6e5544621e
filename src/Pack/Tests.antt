-- ===== src/Pack/Tests.antt =====
-- The theorems on the packer's channels at a container with one of them.
use otic.Prelude.{
  ℕ, ◌*◌, ◌/◌, Bool, true, false, some, List, [], ◌∷◌, ◌==◌, if◌then◌else◌, ◌≡◌, refl,
}
use otic.Base.{Floating, Zstd}
use otic.Base.Types.{sensor, opened, closed, on_error, no_error, invalid_argument}
use otic.Pack.Flush.{Flusher}
use otic.Pack.Container.{
  Pack, find_channel, channel_init, define_channel, close_channel, close_loop, close, default_size,
}
use otic.Pack.Channel.{cleared}
use otic.Pack.Channels.{Distinct, pack_define-Distinct, pack_close_all}

abbrev whole_numbers : Floating
whole_numbers = record { of_u64 = λ n. n; to_u64 = λ x. x; mul = λ x y. x * y; div = λ x y. x / y }

abbrev stored : Zstd
stored = record { compress = λ capacity s. some s; decompress = λ capacity s. some s }

abbrev refuse : Flusher (List ℕ)
refuse bytes file = (false, file)

abbrev one_channel : Pack (List ℕ)
one_channel = record {
  channels = channel_init whole_numbers cleared 1 sensor 2048 ∷ [];
  parent = record { error = no_error; state = opened; context = [] };
}

one_Distinct : Distinct one_channel.channels
unfolding channel_init find_channel
one_Distinct = (refl, refl, tt)

pack_define-Distinct_example :
    Distinct (define_channel refuse true whole_numbers cleared one_channel sensor 2 0).1.channels
    × ((define_channel refuse true whole_numbers cleared one_channel sensor 2 0).0 ≡ true
        → find_channel
            (define_channel refuse true whole_numbers cleared one_channel sensor 2 0).1.channels
            2
          ≡ some (channel_init whole_numbers cleared 2 sensor (if 0 == 0 then default_size else 0)))
pack_define-Distinct_example =
    pack_define-Distinct refuse true whole_numbers cleared one_channel sensor 2 0 one_Distinct

abbrev refused : Bool × Pack (List ℕ)
refused = (
  false,
  record one_channel {
    parent = record { error = invalid_argument; state = on_error; context = [] };
  },
)

close_unknown : close_channel one_channel 7 ≡ some refused
unfolding close_channel close_loop channel_init
close_unknown = refl

pack_close_all_example :
    ((close stored refuse one_channel).0 ≡ true)
    × ((close stored refuse one_channel).1.channels ≡ [])
    × ((close stored refuse one_channel).1.parent.state ≡ closed)
pack_close_all_example = pack_close_all stored refuse one_channel
