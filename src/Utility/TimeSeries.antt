-- ===== src/Utility/TimeSeries.antt =====
-- src/utility/timeSerie.c: the frames of a time series.
use otic.Prelude.{
  ℕ, suc, ◌+◌, ◌-◌, ◌*◌, ◌%◌, ◌^◌, ◌<◌, ◌≤◌, Bool, true, false, ◌||◌, not, ltb, ◌==◌, if◌then◌else◌,
  ◌≡◌, ◌≢◌, refl, ap, arith, inl, inr, Bool-cases,
}
use otic.Base.{Floating, to_ticks, of_ticks}
use otic.Base.Double.{double_lt, shortest_interval}

-- `timeSerie_error_e`
pub data Error : Type 0 where
  no_error not_in_chronological_order : Error

-- `timeSerie_t`, its times in ticks.
pub record TimeSeries : Type 0 where
  pub fill_empty : ℕ
  pub sample_interval : ℕ
  pub current_frame_start : ℕ
  pub current_frame_end : ℕ
  pub start_ts : ℕ
  pub end_ts : ℕ
  pub error : Error

-- `otic_timeserie_init`. Where it answers 0, only the interval is set.
unfoldable pub init : Floating → TimeSeries → ℕ → ℕ → ℕ → ℕ → Bool × TimeSeries
unfolding to_ticks double_lt
init fl ts start' end' fill interval =
    let none' = double_lt interval shortest_interval in
    let ticks = if none' then 0 else to_ticks fl interval in
    let first = to_ticks fl start' in
    if none'
    then (if fill == 1 then (false, record ts { sample_interval = 0 }) else (true, started 0 first))
    else (true, started ticks first)
  where
    started : ℕ → ℕ → TimeSeries
    started n first = record {
      fill_empty = fill;
      sample_interval = n;
      current_frame_start = first;
      current_frame_end = (first + n + (2 ^ 64 - 1)) % 2 ^ 64;
      start_ts = first;
      end_ts = to_ticks fl end';
      error = no_error;
    }

-- `otic_timeserie_increment`
unfoldable pub increment : TimeSeries → TimeSeries
increment ts =
    let next = (ts.current_frame_start + ts.sample_interval) % 2 ^ 64 in
    if ts.sample_interval == 0 then ts else record ts {
      current_frame_start = next;
      current_frame_end = (next + ts.sample_interval + (2 ^ 64 - 1)) % 2 ^ 64;
    }

-- `otic_timeserie_shift`
unfoldable pub shift : Floating → TimeSeries → ℕ → Bool × TimeSeries
unfolding to_ticks increment
shift fl ts timestamp =
    let ticks = to_ticks fl timestamp in
    if ltb ticks ts.start_ts || not (ltb ticks ts.end_ts)
    then (false, ts)
    else if ts.sample_interval == 0
    then (true, ts)
    else if ltb ts.current_frame_start ticks
    then (false, record ts { error = not_in_chronological_order })
    else if ltb ts.current_frame_end ticks
    then (true, increment ts)
    else (false, ts)

-- `otic_timeserie_fillNull`
unfoldable pub fill_null : Floating → TimeSeries → ℕ → Bool
unfolding to_ticks
fill_null fl ts timestamp = ltb ts.current_frame_end (to_ticks fl timestamp)

-- `otic_timeserie_getStart`
unfoldable pub get_start : Floating → TimeSeries → ℕ
unfolding of_ticks
get_start fl ts = of_ticks fl ts.current_frame_start

-- A series after `otic_timeserie_init` and any calls of `otic_timeserie_increment`, which are counted,
-- and `otic_timeserie_shift`.
pub data Reachable (fl : Floating) : ℕ → TimeSeries → Type 0 where
  started :
      (ts : TimeSeries) (start' end' fill interval : ℕ)
      → (init fl ts start' end' fill interval).0 ≡ true
      → Reachable fl 0 (init fl ts start' end' fill interval).1
  incremented : {n : ℕ} {ts : TimeSeries} → Reachable fl n ts → Reachable fl (suc n) (increment ts)
  shifted :
      {n : ℕ} {ts : TimeSeries} (timestamp : ℕ)
      → Reachable fl n ts
      → Reachable fl n (shift fl ts timestamp).1

-- The current frame is the `n`th behind the first, as long as the interval is.
pub record Frame (n : ℕ) (ts : TimeSeries) : Type 0 where
  pub begins : ts.current_frame_start ≡ ts.start_ts + n * ts.sample_interval
  pub ends :
      ts.sample_interval ≢ 0
      → ts.current_frame_end + 1 ≡ ts.current_frame_start + ts.sample_interval

-- The frames up to the `n`th end before the clock does.
abbrev pub InRange : ℕ → TimeSeries → Type 0
InRange n ts = ts.start_ts + suc n * ts.sample_interval < 2 ^ 64

init-Frame :
    (fl : Floating) (ts : TimeSeries) (start' end' fill interval : ℕ)
    → (init fl ts start' end' fill interval).0 ≡ true
    → InRange 0 (init fl ts start' end' fill interval).1
    → Frame 0 (init fl ts start' end' fill interval).1
unfolding init
init-Frame fl ts start' end' fill interval =
    elim (Bool-cases (double_lt interval shortest_interval)) [
      | inl p ↦ elim (Bool-cases (fill == 1)) [
        | inl q ↦ rw (p, q) (λ ok range. absurd cc)
        | inr q ↦
            rw (p, q) (λ ok range. record { begins = omega arith; ends = λ set. absurd (set refl) })
      ]
      | inr p ↦
          rw p
            (λ ok range. record { begins = omega arith; ends = λ set. omega (arith, range, set) })
    ]

increment-Frame :
    (n : ℕ) (ts : TimeSeries)
    → (InRange n ts → Frame n ts)
    → InRange (suc n) (increment ts)
    → Frame (suc n) (increment ts)
unfolding increment
increment-Frame n ts h = elim (Bool-cases (ts.sample_interval == 0)) [
  | inl p ↦ rw p (λ range.
      let i = ts.sample_interval in
      let none' : i ≡ 0 = ground arith in
      let one_product = ap (λ (x : ℕ). n * x) none' in
      let f = h (omega (arith, range, none', one_product)) in
      record { begins = omega (arith, f.begins, none', one_product); ends = f.ends })
  | inr p ↦ rw p (λ range.
      let f = h (omega (arith, range)) in
      record {
        begins = omega (arith, range, f.begins);
        ends = λ set. omega (arith, range, f.begins, set);
      })
]

shift-Frame :
    (fl : Floating) (n : ℕ) (ts : TimeSeries) (timestamp : ℕ)
    → (InRange n ts → Frame n ts)
    → InRange n (shift fl ts timestamp).1
    → Frame n (shift fl ts timestamp).1
unfolding shift increment
shift-Frame fl n ts timestamp h =
    let t = to_ticks fl timestamp in
    elim (Bool-cases (ltb t ts.start_ts || not (ltb t ts.end_ts))) [
      | inl p ↦ rw p h
      | inr p ↦ elim (Bool-cases (ts.sample_interval == 0)) [
        | inl q ↦ rw (p, q) h
        | inr q ↦ elim (Bool-cases (ltb ts.current_frame_start t)) [
          | inl r ↦
              rw (p, q, r) (λ range. let f = h range in record { begins = f.begins; ends = f.ends })
          | inr r ↦ elim (Bool-cases (ltb ts.current_frame_end t)) [
            | inr s ↦ rw (p, q, r, s) h
            | inl s ↦
                rw (p, q, r, s)
                  (λ range.
                    let f = h range in
                    let set : ts.sample_interval ≢ 0 = ground arith in
                    let late : ts.current_frame_end < t = ground arith in
                    let early : t ≤ ts.current_frame_start = ground arith in
                    let length' = f.ends set in absurd (omega (arith, length', late, early, set)))
          ]
        ]
      ]
    ]

-- After otic_timeserie_init has answered 1 and any calls of otic_timeserie_increment and
-- otic_timeserie_shift, where no frame reaches 2^64, the current frame is as many intervals
-- behind the start as there were calls of increment, and it is as long as the interval: a call of
-- shift never moves it.
pub Reachable-Frame :
    (fl : Floating) {n : ℕ} {ts : TimeSeries} → Reachable fl n ts → InRange n ts → Frame n ts
Reachable-Frame fl (started ts start' end' fill interval ok) =
    init-Frame fl ts start' end' fill interval ok
Reachable-Frame fl (incremented {n} {ts} r) = increment-Frame n ts (Reachable-Frame fl r)
Reachable-Frame fl (shifted {n} {ts} timestamp r) =
    shift-Frame fl n ts timestamp (Reachable-Frame fl r)
