-- ===== src/Codec/Reading.antt =====
-- The theorems on reading whatever bytes, and on the generator, at a block with a name, a small
-- integer and a null.
use otic.Prelude.{ℕ, true, Option, some, none, List, [], ◌∷◌, ◌++◌, length, ◌≡◌, ◌≢◌, refl, arith}
use otic.Prelude.Bytes.{le_bytes}
use otic.Base.{base_init}
use otic.Base.Types.{opened, no_error, payload, meta_code, type_of_code}
use otic.Leb128.{decode_unsigned}
use otic.Pack.Flush.{meta_data_size}
use otic.Unpack.Channel as Reader
use otic.Unpack.Channel.{Channel, hash_function}
use otic.Unpack.Read.{
  split, read_set_timestamp, read_name_assign, split_terminator, read_smallint, read_null,
}
use otic.Unpack.Block.{parse_record, parse_block}
use otic.Unpack.Container.{Unpack, channel_init, find_channel, set_channel}
use otic.Unpack.Generate.{get_next, no_fuel}
use otic.Unpack.Generate.Lines.{Lines, Apart, nothing, large, small, parse_block-Lines}
use otic.Unpack.Generate.Rounds.{get_next-ends}
use otic.Unpack.Kept.{Kept}
use otic.Unpack.Kept.Blocks.{parse_block-Kept}
use otic.Base.Oval.{Elements, nil, cons, int_pos, string, array, bool_true, double}
use otic.Codec.Arrays.{AllPlain, array_bytes, elements_bytes}
use otic.Leb128.{encode_unsigned}
use otic.Prelude.Bytes.{le_bytes}
use otic.Pack.Container as Packer
use otic.Codec.Arrays.Read.{Written, write_array-Written}
use otic.Codec.Tests.{whole_numbers, stored, at_start}
use otic.Codec.File.{from_file, on, step}
use otic.Codec.Generate.{Calls, between, generate-parse, file_source}

abbrev records : List ℕ
records = 213 ∷ 5 ∷ 215 ∷ 3 ∷ 97 ∷ 0 ∷ 98 ∷ 7 ∷ 0 ∷ 201 ∷ 0 ∷ []

abbrev new_channel : Channel
new_channel = channel_init whole_numbers 1 0

abbrev block : Channel
block = record new_channel { top = records }

abbrev or_block : Option Channel → Channel
or_block none = block
or_block (some c) = c

abbrev block_end : Channel
block_end = or_block (parse_block whole_numbers 2 block)

parses : parse_block whole_numbers 2 block ≡ some block_end
unfolding parse_block channel_init base_init decode_unsigned parse_record type_of_code
    read_set_timestamp read_name_assign split split_terminator read_smallint Reader.member read_null
parses = refl

parse_block-Kept_example : Kept block block_end × (block_end.top ≡ [])
parse_block-Kept_example = parse_block-Kept whole_numbers 2 block block_end parses

-- What holds of the channel that a record gives.
sure :
    (P : Channel → Type 0) (o : Option Channel) (c c1 : Channel)
    → o ≡ some c
    → P c
    → o ≡ some c1
    → P c1
sure P o c c1 e h e1 = let same : c ≡ c1 = cc in rw (← same) h

block-Apart : Apart whole_numbers 2 block
unfolding parse_block channel_init base_init decode_unsigned parse_record type_of_code
    read_set_timestamp read_name_assign split split_terminator read_smallint Reader.member read_null
block-Apart = large 213 (5 ∷ 215 ∷ 3 ∷ 97 ∷ 0 ∷ 98 ∷ 7 ∷ 0 ∷ 201 ∷ 0 ∷ []) refl refl (λ c1.
    sure (Apart whole_numbers 2) _ _ c1 refl (
      large 215 (3 ∷ 97 ∷ 0 ∷ 98 ∷ 7 ∷ 0 ∷ 201 ∷ 0 ∷ []) refl refl (λ c2.
        sure (Apart whole_numbers 2) _ _ c2 refl (
          small 7 (0 ∷ 201 ∷ 0 ∷ []) refl refl 201 (0 ∷ []) refl
            (λ c3. sure (λ c. c.top ≡ 201 ∷ 0 ∷ []) _ _ c3 refl refl)
            (λ c3 c4.
              sure
                (λ c.
                  parse_record whole_numbers 2 c 201 (0 ∷ []) ≡ some c4 → Apart whole_numbers 2 c4)
                _ _ c3 refl (sure (Apart whole_numbers 2) _ _ c4 refl (nothing refl)))))))

parse_block-Lines_example : Lines whole_numbers 2 block block_end
parse_block-Lines_example = parse_block-Lines whole_numbers 2 block block_end block-Apart parses

abbrev two_readers : Unpack (List ℕ)
two_readers = record {
  channels = new_channel ∷ [];
  state = opened;
  error = no_error;
  version = 2;
  context = [];
}

abbrev stale : Channel → ℕ → List ℕ
stale c n = []

abbrev file : List ℕ
file = meta_data_size (meta_code payload) 1 (length records) ++ (records ++ [])

generate-parse_example :
    (step stored whole_numbers (on two_readers file)
      ≡ some (true, set_channel (on two_readers []) 1 block_end))
    × Calls stored whole_numbers stale true
        (between stored whole_numbers stale true (λ id. 4096) (on two_readers file))
        (between stored whole_numbers stale true
          (λ id. 4096)
          (set_channel (on two_readers []) 1 block_end))
unfolding channel_init find_channel base_init
generate-parse_example =
    generate-parse stored whole_numbers stale true (λ id. 4096) two_readers 1 new_channel refl refl
      records records (omega arith) (omega arith) refl [] (omega arith) block-Apart parses

get_next-ends_example :
    get_next stored whole_numbers from_file none stale true 20
      (between stored whole_numbers stale true (λ id. 4096) (on two_readers file))
    ≢ no_fuel
unfolding meta_data_size le_bytes
get_next-ends_example =
    get_next-ends stored whole_numbers from_file none stale file_source true 20
      (between stored whole_numbers stale true (λ id. 4096) (on two_readers file)) (omega arith)

abbrev sample_array : Elements
sample_array =
    cons (int_pos 300)
      (cons (string (97 ∷ [])) (cons (array (cons bool_true nil)) (cons (double 12) nil)))

write_array_example : Written (λ w. w) at_start.channel sample_array
unfolding AllPlain array_bytes elements_bytes encode_unsigned Packer.channel_init base_init le_bytes
write_array_example =
    write_array-Written (λ w. w) at_start.channel sample_array (omega arith)
      ((omega arith, omega arith), (omega arith, ((omega arith, (tt, tt)), (omega arith, tt))))
      (omega arith)
