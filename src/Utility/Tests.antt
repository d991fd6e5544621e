-- ===== src/Utility/Tests.antt =====
-- The theorems on the utilities at small examples.
use otic.Prelude.{ℕ, ◌*◌, ◌/◌, ◌+◌, ◌^◌, none, List, [], ◌∷◌, refl, arith}
use otic.Base.{Floating, to_ticks}
use otic.Base.Oval.{is_nan, null, int_pos, double, string, Oval}
use otic.Base.Double.{double_lt, dbl_max, dbl_min}
use otic.Utility.TimeSeries as Series
use otic.Utility.TimeSeries.{
  TimeSeries, Frame, Reachable, started, incremented, shifted, Reachable-Frame,
}
use otic.Utility.Format.{Format}
use otic.Utility.Format.RoundTrip.{Parsed, occurrences, format_parse-Parsed}
use otic.Utility.Aggregator as Aggregator
use otic.Utility.Aggregator.{Aggreg}
use otic.Utility.Aggregator.Extremes.{Extreme, extremes, greater}
use otic.Utility.Aggregator.Runs.{Gives, runs, mean, numbers}

-- Numbers are cut to their upper eight bits.
abbrev coarse : Floating
coarse = record { of_u64 = λ n. n; to_u64 = λ x. x / 2 ^ 56; mul = λ x y. x; div = λ x y. x }

abbrev blank : TimeSeries
blank = record {
  fill_empty = 0;
  sample_interval = 0;
  current_frame_start = 0;
  current_frame_end = 0;
  start_ts = 0;
  end_ts = 0;
  error = Series.no_error;
}

abbrev one : ℕ
one = 0x3ff0000000000000

abbrev series : TimeSeries
series = (Series.init coarse blank one (2 * one) 0 one).1

Reachable-Frame_example : Frame 1 (Series.increment (Series.shift coarse series one).1)
unfolding Series.init Series.shift Series.increment to_ticks double_lt is_nan
Reachable-Frame_example =
    Reachable-Frame coarse (incremented (shifted one (started blank one (2 * one) 0 one refl)))
      (omega arith)

abbrev blank_aggreg : Aggreg
blank_aggreg = record {
  type = Aggregator.no_type;
  copied = null;
  value_type = Aggregator.type_null;
  word = 0;
  counter = 0;
  pointers = none;
}

abbrev values : List Oval
values = int_pos 5 ∷ string (1 ∷ []) ∷ double one ∷ []

abbrev add : ℕ → ℕ → ℕ
add x y = x + y

extremes_example :
    Extreme coarse add double_lt dbl_max (Aggregator.init blank_aggreg Aggregator.min) values
    × Extreme coarse add
        (greater coarse add)
        dbl_min
        (Aggregator.init blank_aggreg Aggregator.max)
        values
extremes_example = extremes coarse add blank_aggreg values

runs_example :
    Gives coarse add (Aggregator.init blank_aggreg Aggregator.first) (null ∷ values) null
    × Gives coarse add (Aggregator.init blank_aggreg Aggregator.last) (null ∷ values) (double one)
    × Gives coarse add (Aggregator.init blank_aggreg Aggregator.count) (null ∷ values) (int_pos 4)
    × Gives coarse add
        (Aggregator.init blank_aggreg Aggregator.avg)
        (null ∷ values)
        (mean coarse add (numbers coarse add (null ∷ values)))
runs_example = runs coarse add blank_aggreg null values (omega arith)

abbrev tabs : Format
tabs = record { delimiter = 9; size = 4; parsed = 0; content = [] }

abbrev line : List ℕ
line = 97 ∷ 9 ∷ 9 ∷ 98 ∷ []

format_parse_example : Parsed tabs line (99 ∷ [])
unfolding occurrences
format_parse_example =
    format_parse-Parsed tabs line (99 ∷ []) (cc, (cc, (cc, (cc, tt)))) (omega arith)
