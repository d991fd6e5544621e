-- ===== src/Unpack/Tests.antt =====
-- The theorems on the reader's channels at a container with two of them.
use otic.Prelude.{ℕ, ◌*◌, ◌/◌, true, some, none, List, [], ◌∷◌, ◌≡◌, refl}
use otic.Base.{Floating}
use otic.Base.Types.{opened, closed, no_error}
use otic.Unpack.Container.{Unpack, find_channel, channel_init, define_channel, close_channel, close}
use otic.Unpack.Channels.{Distinct, define_channel-Distinct, close_channel-Distinct, close_all}

abbrev whole_numbers : Floating
whole_numbers = record { of_u64 = λ n. n; to_u64 = λ x. x; mul = λ x y. x * y; div = λ x y. x / y }

abbrev two_channels : Unpack (List ℕ)
two_channels = record {
  channels = channel_init whole_numbers 2 0 ∷ channel_init whole_numbers 1 0 ∷ [];
  state = opened;
  error = no_error;
  version = 2;
  context = [];
}

two_Distinct : Distinct two_channels.channels
unfolding channel_init find_channel
two_Distinct = (refl, (refl, tt))

define_channel-Distinct_example :
    Distinct (define_channel true whole_numbers 0 two_channels 3).1.channels
    × ((define_channel true whole_numbers 0 two_channels 3).0 ≡ true
        → find_channel (define_channel true whole_numbers 0 two_channels 3).1.channels 3
          ≡ some (channel_init whole_numbers 3 0))
define_channel-Distinct_example =
    define_channel-Distinct true whole_numbers 0 two_channels 3 two_Distinct

close_channel-Distinct_example :
    Distinct (close_channel two_channels 1).1.channels
    × (find_channel (close_channel two_channels 1).1.channels 1 ≡ none)
close_channel-Distinct_example = close_channel-Distinct two_channels 1 two_Distinct

close_all_example :
    close two_channels ≡ (true, record two_channels { channels = []; state = closed })
close_all_example = close_all two_channels
