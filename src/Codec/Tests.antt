-- ===== src/Codec/Tests.antt =====
-- A container with one channel that is packed and read, and the theorems at this example.
use otic.Prelude.{
  ℕ, inl, ◌-◌, ◌*◌, ◌/◌, true, none, some, List, [], ◌∷◌, codes, length, ltb, bytes_eq, All,
  if◌then◌else◌, ◌≡◌, refl, arith,
}
use otic.Base.{Floating, Zstd, base_init}
use otic.Base.Types.{sensor, opened}
use otic.Pack.Flush.{Ctx}
use otic.Pack.Channel.{cleared}
use otic.Leb128.{encode_unsigned}
use otic.Base.{to_ticks, hash_loop}
use otic.Pack.Entries.{find_name, hash_function, has_index, store_index}
use otic.Pack.Container as Packer
use otic.Codec.File.{ZstdLaws, to_file}
use otic.Codec.Session.{
  Injection, positive, IsInjection, Accepted, accepted, finished, inject_one, inject_value,
}
use otic.Codec.Accept.{Taking}
use otic.Codec.Accept.Session.{FitsIn, Chronological}
use otic.Codec.Accept.Whole.{packed, file_delivers}
use otic.Codec.RoundTrip.{Delivered, new_ctx, closing, file_round_trip}

abbrev pub whole_numbers : Floating
whole_numbers = record { of_u64 = λ n. n; to_u64 = λ x. x; mul = λ x y. x * y; div = λ x y. x / y }

-- A compressor that stores its source.
abbrev pub stored : Zstd
stored = record {
  compress = λ capacity s. if ltb capacity (length s) then none else some s;
  decompress = λ capacity s. if ltb capacity (length s) then none else some s;
}

pub stored-laws : ZstdLaws stored
stored-laws = record {
  bounded = λ capacity source out h. ground arith;
  restores = λ capacity capacity' source out h fits. ground arith;
}

abbrev pub sample : List Injection
sample =
    record { ts = 5; name = codes "a"; unit = codes "b"; value = positive 300 }
    ∷ record { ts = 6; name = codes "a"; unit = codes "b"; value = positive 300 }
    ∷ []

abbrev pub at_start : Ctx (List ℕ)
at_start = new_ctx stored whole_numbers cleared 0 sensor 1 2048 0

abbrev pub inject_sample : Ctx (List ℕ) → List Injection → Ctx (List ℕ)
inject_sample ctx [] = ctx
inject_sample ctx (j ∷ js) = inject_sample (inject_one stored whole_numbers to_file true ctx j).1 js

abbrev pub at_end : Ctx (List ℕ)
at_end = inject_sample at_start sample

pub sample-Accepted : Accepted stored whole_numbers to_file true at_start sample at_end
unfolding inject_value Packer.channel_init base_init find_name encode_unsigned has_index
    hash_function hash_loop store_index bytes_eq
sample-Accepted = accepted _ refl refl (accepted _ refl refl finished)

pub sample_ok : All (IsInjection whole_numbers) sample
unfolding to_ticks
sample_ok = ((omega arith, omega arith, omega arith), ((omega arith, omega arith, omega arith), tt))

pub sample_closes : (closing stored whole_numbers cleared 0 sensor 1 2048 0 at_end).state ≡ opened
unfolding Packer.channel_close inject_value Packer.channel_init base_init find_name encode_unsigned
    has_index hash_function hash_loop store_index bytes_eq
sample_closes = refl

file_round_trip_example :
    Delivered stored whole_numbers cleared 0 sensor 1 2048 0
      (closing stored whole_numbers cleared 0 sensor 1 2048 0 at_end).context
      sample
file_round_trip_example =
    file_round_trip stored whole_numbers cleared 0 sensor 1 2048 0 stored-laws true sample at_end
      refl (omega arith) (omega arith) sample_ok (omega arith) sample-Accepted sample_closes

pub stored-Taking : Taking stored to_file
stored-Taking = record {
  takes = λ bytes w. refl;
  compressed = λ capacity source. source;
  compresses = λ capacity source fits. ground arith;
}

sample-fits : All (FitsIn (2048 - 512)) sample
sample-fits = ((omega arith, omega arith), ((omega arith, omega arith), tt))

sample-Chronological : Chronological whole_numbers sample
unfolding to_ticks
sample-Chronological = (omega arith, tt)

file_delivers_example :
    ((packed stored whole_numbers cleared 0 sensor 1 2048 0 sample).state ≡ opened)
    × Delivered stored whole_numbers cleared 0 sensor 1 2048 0
        (packed stored whole_numbers cleared 0 sensor 1 2048 0 sample).context
        sample
file_delivers_example =
    file_delivers stored whole_numbers cleared 0 sensor 1 2048 0 stored-laws stored-Taking sample
      refl (omega arith) (omega arith) (inl (omega arith)) sample_ok sample-fits
      sample-Chronological (omega arith)
