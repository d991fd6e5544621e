-- ===== src/Codec/Examples.antt =====
-- The theorems on one channel and its reader, at a container that has just been opened.
use otic.Prelude.{ℕ, true, List, [], ◌∷◌, codes, ◌⊎◌, refl, arith, ◌++◌, ◌≡◌}
use otic.Prelude.Bytes.{le_bytes}
use otic.Base.{to_ticks, base_init, hash_loop}
use otic.Base.Types.{sensor}
use otic.Base.Oval.{null, bool_true, int_neg, int_pos, double, string}
use otic.Leb128.{encode_unsigned}
use otic.Pack.Entries.{find_name, hash_function, has_index, store_index}
use otic.Pack.Inject.{ts_handler, inject_bool, inject_i_neg, inject_i, inject_d, inject_n, inject_s}
use otic.Pack.Container as Packer
use otic.Unpack.Channel as Unpacking
use otic.Unpack.Container as Reader
use otic.Codec.Tests.{
  whole_numbers, stored, stored-laws, at_start, at_end, sample, sample-Accepted, sample_ok,
}
use otic.Pack.Channel.{cleared}
use otic.Pack.Flush.{channel_flush}
use otic.Codec.Reads.{Reads}
use otic.Codec.Begin.{new_reader, header, announced, begin-Following}
use otic.Codec.Holds.{Holds, file-Flushes}
use otic.Codec.Following.{Following, Flushes}
use otic.Codec.Puts.{Ready}
use otic.Codec.File.{to_file}
use otic.Codec.Times.{InTime, ts_handler-InTime}
use otic.Codec.Inject.{Injected}
use otic.Codec.Injections.{
  Injectable, inject_bool-Injected, inject_i_neg-Injected, inject_i-Injected, inject_d-Injected,
  inject_n-Injected, inject_s-Injected,
}
use otic.Codec.Close.{channel_close-Holds}
use otic.Pack.Flush.Outcome.{Flushed, NotFlushed, channel_flush_cases}
use otic.Codec.Session.{Session, Accepted-Session, empty-GivenUnits}

abbrev start_reader : Reader.Unpack (List ℕ)
start_reader = new_reader whole_numbers cleared 0 sensor 1 2048 0

abbrev start_header : List ℕ
start_header = header whole_numbers cleared 0 sensor 1 2048 0

abbrev reader : Unpacking.Channel
reader = announced whole_numbers cleared 0 sensor 1 2048 0

abbrev FileHolds : ℕ → ℕ → List ℕ → Unpacking.Channel → Type 0
FileHolds = Holds stored whole_numbers 2 start_reader start_header

file-Flushes_example : Flushes stored whole_numbers to_file 2 FileHolds
file-Flushes_example = file-Flushes stored whole_numbers 2 start_reader start_header stored-laws

flushes : Flushes stored whole_numbers to_file 2 FileHolds
flushes = file-Flushes stored whole_numbers 2 start_reader start_header stored-laws

abbrev alone : Packer.Pack (List ℕ)
alone = record { channels = at_start.channel ∷ []; parent = at_start.parent }

behind : Following stored whole_numbers to_file 2 FileHolds at_start reader
behind = begin-Following whole_numbers cleared 0 sensor 1 2048 0 stored (omega arith) (omega arith)

ready : Ready whole_numbers at_start.channel reader (codes "a")
unfolding Packer.channel_init
ready = record { sync = behind.sync; chars = omega arith; space = omega arith }

ts_handler_example :
    InTime stored whole_numbers to_file 2 FileHolds flushes at_start
      (ts_handler stored whole_numbers to_file at_start 5).1
      reader
      5
unfolding ts_handler Packer.channel_init base_init to_ticks encode_unsigned
ts_handler_example =
    ts_handler-InTime stored whole_numbers to_file 2 FileHolds flushes at_start behind (omega arith)
      5 (omega arith) refl refl

injectable : Injectable whole_numbers at_start 5 (codes "a")
unfolding Packer.channel_init base_init to_ticks
injectable = record {
  small = omega arith;
  chars = omega arith;
  low = omega arith;
  space = omega arith;
}

inject_i_example :
    Injected stored whole_numbers to_file 2 FileHolds flushes at_start
      (inject_i stored whole_numbers to_file true at_start 5 (codes "a") (codes "b") 300).1
      reader
      5
      (codes "a")
      (codes "b")
      (int_pos 300)
unfolding inject_i Packer.channel_init base_init find_name encode_unsigned has_index hash_function
    hash_loop store_index
inject_i_example =
    inject_i-Injected stored whole_numbers to_file 2 FileHolds flushes true at_start behind 5
      (codes "a") (codes "b") injectable 300 (omega arith) (λ absent. omega arith) refl refl

inject_i_neg_example :
    Injected stored whole_numbers to_file 2 FileHolds flushes at_start
      (inject_i_neg stored whole_numbers to_file true at_start 5 (codes "a") (codes "b") 7).1
      reader
      5
      (codes "a")
      (codes "b")
      (int_neg 7)
unfolding inject_i_neg Packer.channel_init base_init find_name encode_unsigned has_index
    hash_function hash_loop store_index
inject_i_neg_example =
    inject_i_neg-Injected stored whole_numbers to_file 2 FileHolds flushes true at_start behind 5
      (codes "a") (codes "b") injectable 7 (omega arith) (λ absent. omega arith) refl refl

inject_bool_example :
    Injected stored whole_numbers to_file 2 FileHolds flushes at_start
      (inject_bool stored whole_numbers to_file true at_start 5 (codes "a") (codes "b") true).1
      reader
      5
      (codes "a")
      (codes "b")
      bool_true
unfolding inject_bool Packer.channel_init base_init find_name encode_unsigned has_index
    hash_function hash_loop store_index
inject_bool_example =
    inject_bool-Injected stored whole_numbers to_file 2 FileHolds flushes true at_start behind 5
      (codes "a") (codes "b") injectable true refl refl

inject_d_example :
    Injected stored whole_numbers to_file 2 FileHolds flushes at_start
      (inject_d stored whole_numbers to_file true at_start 5 (codes "a") (codes "b") 12).1
      reader
      5
      (codes "a")
      (codes "b")
      (double 12)
unfolding inject_d Packer.channel_init base_init find_name encode_unsigned has_index hash_function
    hash_loop store_index le_bytes
inject_d_example =
    inject_d-Injected stored whole_numbers to_file 2 FileHolds flushes true at_start behind 5
      (codes "a") (codes "b") injectable 12 (omega arith) refl refl

inject_s_example :
    Injected stored whole_numbers to_file 2 FileHolds flushes at_start
      (inject_s stored whole_numbers to_file true at_start 5 (codes "a") (codes "b") (codes "on")).1
      reader
      5
      (codes "a")
      (codes "b")
      (string (codes "on"))
unfolding inject_s Packer.channel_init base_init find_name encode_unsigned has_index hash_function
    hash_loop store_index
inject_s_example =
    inject_s-Injected stored whole_numbers to_file 2 FileHolds flushes true at_start behind 5
      (codes "a") (codes "b") injectable (codes "on") refl refl (omega arith) refl refl

inject_n_example :
    Injected stored whole_numbers to_file 2 FileHolds flushes at_start
      (inject_n stored whole_numbers to_file true at_start 5 (codes "a") (codes "b")).1
      reader
      5
      (codes "a")
      (codes "b")
      null
unfolding inject_n Packer.channel_init base_init find_name encode_unsigned has_index hash_function
    hash_loop store_index
inject_n_example =
    inject_n-Injected stored whole_numbers to_file 2 FileHolds flushes true at_start behind 5
      (codes "a") (codes "b") injectable refl refl

Accepted-Session_example :
    Session stored whole_numbers to_file 2 FileHolds flushes true refl [] at_start at_end reader
      sample
unfolding Packer.channel_init base_init
Accepted-Session_example =
    Accepted-Session stored whole_numbers to_file 2 FileHolds flushes true refl [] sample-Accepted
      (empty-GivenUnits []) behind refl (omega arith) sample_ok (omega arith)

channel_close_example :
    FileHolds 1 2048
      (Packer.channel_close stored to_file alone at_start.channel).1.parent.context
      reader
    × ((Packer.channel_close stored to_file alone at_start.channel).1.parent
        ≡ (channel_flush stored to_file (record at_start {
          channel = record (at_start.channel) {
            base = record (at_start.channel.base) {
              cache =
                  at_start.channel.base.cache
                  ++ (216 ∷ encode_unsigned at_start.channel.base.row_counter);
            };
          };
        })).1.parent)
    × Reads whole_numbers 2 reader (216 ∷ encode_unsigned at_start.channel.base.row_counter) reader
    × (reader.base.row_counter ≡ at_start.channel.base.row_counter)
unfolding Packer.channel_close Packer.channel_init base_init encode_unsigned
channel_close_example =
    channel_close-Holds stored whole_numbers to_file 2 FileHolds flushes at_start behind
      (omega arith) alone refl refl

channel_flush_example : Flushed stored to_file at_start ⊎ NotFlushed stored to_file at_start
channel_flush_example = channel_flush_cases stored to_file at_start
