-- ===== src/Pack/Inject.antt =====
-- The timestamps, and the public `otic_pack_channel_inject_*`.
use otic.Prelude.{ℕ, ◌+◌, ◌-◌, ◌%◌, ◌^◌, Bool, true, false, List, length, ltb, ◌==◌, if◌then◌else◌}
use otic.Base.{Floating, Zstd, increment, ts_null, to_ticks}
use otic.Base.Types.{OticType, OticState, on_error, closed, invalid_timestamp, buffer_overflow}
use otic.Base.Oval.{double_eq}
use otic.Pack.Channel.{Channel, Stats, write_type, write_long, set_error, set_state}
use otic.Pack.Put.{Outcome, done, failed, put_bool, put_i_neg, put_i, put_d, put_s, put_n, put_b}
use otic.Pack.Flush.{Ctx, Flusher, with_channel, channel_flush, flush_if_flushable}

-- The record that sets the first time, and the one that moves to a later.
unfoldable pub set_time : Floating → Channel → ℕ → ℕ → Channel
unfolding write_type write_long
set_time fl c ts ticks =
    let b = record (c.base) { timestamp_start = ticks; timestamp_current = ticks } in
    let c1 = write_long (write_type (record c { base = b }) OticType.set_timestamp) ticks in
    record c1 {
      time_start = if double_eq c1.time_start (fl.of_u64 ts_null) then ts else c1.time_start;
      stats = record (c1.stats) { time_sets = increment c1.stats.time_sets };
    }

unfoldable pub shift_time : Channel → ℕ → ℕ → Channel
unfolding write_type write_long
shift_time c ts ticks =
    let c1 =
      write_long (write_type c OticType.shift_timestamp) (ticks - c.base.timestamp_current) in
    record c1 {
      base = record (c1.base) { timestamp_current = ticks };
      time_end = ts;
      stats = record (c1.stats) { time_shifts = increment c1.stats.time_shifts };
    }

-- `fail:` of the injections, which leave different states.
unfoldable pub inject_fail : {W : Type 0} → OticState → Ctx W → Bool × Ctx W
unfolding with_channel set_state
inject_fail s ctx = (false, with_channel ctx (set_state ctx.channel s))

-- `++channel->base.rowCounter` and a counter of the statistics.
unfoldable pub count_row : Channel → (Stats → Stats) → Channel
count_row c count = record c {
  base = record (c.base) { row_counter = increment c.base.row_counter };
  stats = count c.stats;
}

abbrev pub count_bool : Stats → Stats
count_bool s = record s { type_bool = increment s.type_bool }

abbrev pub count_integer : Stats → Stats
count_integer s = record s { type_integer = increment s.type_integer }

abbrev pub count_double : Stats → Stats
count_double s = record s { type_double = increment s.type_double }

abbrev pub count_string : Stats → Stats
count_string s = record s { type_string = increment s.type_string }

abbrev pub count_null : Stats → Stats
count_null s = record s { type_null = increment s.type_null }

abbrev pub count_nothing : Stats → Stats
count_nothing s = s

module _ {W : Type 0} (zs : Zstd) (fl : Floating) (flusher : Flusher W) where
  -- `otic_ts_handler`, in a build without `ENABLE_FULL_CHECKS`. A time is a pattern of `double`.
  unfoldable pub ts_handler : Ctx W → ℕ → Bool × Ctx W
  unfolding set_time shift_time with_channel set_error flush_if_flushable to_ticks
  ts_handler ctx ts =
      let c = ctx.channel in
      let ticks = to_ticks fl ts in
      if c.base.timestamp_current == ticks
      then (true, ctx)
      else if c.base.timestamp_current == ts_null
      then (true, flush_if_flushable zs flusher (with_channel ctx (set_time fl c ts ticks)))
      else if ltb ticks c.base.timestamp_current
      then (false, with_channel ctx (set_error c invalid_timestamp))
      else (true, flush_if_flushable zs flusher (with_channel ctx (shift_time c ts ticks)))

  -- The end of an injection: the row is counted, and the buffer flushed if it is full.
  unfoldable pub finish : OticState → (Stats → Stats) → Ctx W → Outcome → Bool × Ctx W
  unfolding inject_fail count_row with_channel flush_if_flushable
  finish on_fail count ctx (failed c) = inject_fail on_fail (with_channel ctx c)
  finish on_fail count ctx (done c) =
      (true, flush_if_flushable zs flusher (with_channel ctx (count_row c count)))

  -- An injection: the timestamp, what is written, the end.
  unfoldable pub inject :
      OticState → (Stats → Stats) → (Channel → Outcome) → Ctx W → ℕ → Bool × Ctx W
  unfolding ts_handler finish inject_fail
  inject on_fail count put ctx ts =
      let (in_order, ctx1) = ts_handler ctx ts in
      if in_order then finish on_fail count ctx1 (put ctx1.channel) else inject_fail on_fail ctx1

  module _ (memory : Bool) (ctx : Ctx W) (ts : ℕ) (name unit : List ℕ) where
    unfoldable pub inject_bool : Bool → Bool × Ctx W
    unfolding inject put_bool
    inject_bool value = inject closed count_bool (λ c. put_bool memory c name unit value) ctx ts

    unfoldable pub inject_i_neg : ℕ → Bool × Ctx W
    unfolding inject put_i_neg
    inject_i_neg value =
        inject closed count_integer (λ c. put_i_neg memory c name unit value) ctx ts

    unfoldable pub inject_i : ℕ → Bool × Ctx W
    unfolding inject put_i
    inject_i value = inject on_error count_integer (λ c. put_i memory c name unit value) ctx ts

    unfoldable pub inject_d : ℕ → Bool × Ctx W
    unfolding inject put_d
    inject_d value = inject on_error count_double (λ c. put_d memory c name unit value) ctx ts

    unfoldable pub inject_n : Bool × Ctx W
    unfolding inject put_n
    inject_n = inject closed count_null (λ c. put_n memory c name unit) ctx ts

    unfoldable pub inject_b : List ℕ → Bool × Ctx W
    unfolding inject put_b
    inject_b buffer = inject on_error count_nothing (λ c. put_b memory c name unit buffer) ctx ts

  -- The room that a text needs in the buffer: it has to fit an empty one, and a flush makes room
  -- where it does not fit now. The difference of pointers is compared as a `size_t`.
  unfoldable pub make_room : Ctx W → List ℕ → Bool × Ctx W
  unfolding with_channel set_error channel_flush
  make_room ctx value =
      let c = ctx.channel in
      let room = (c.threshold + 2 ^ 64 - length c.base.cache) % 2 ^ 64 in
      if ltb c.threshold (length value)
      then (false, with_channel ctx (set_error c buffer_overflow))
      else if ltb room (length value)
      then channel_flush zs flusher ctx
      else (true, ctx)

  unfoldable pub inject_s : Bool → Ctx W → ℕ → List ℕ → List ℕ → List ℕ → Bool × Ctx W
  unfolding ts_handler make_room finish inject_fail put_s
  inject_s memory ctx ts name unit value =
      let (in_order, ctx1) = ts_handler ctx ts in
      let (fits, ctx2) = make_room ctx1 value in
      if in_order
      then if fits
        then finish on_error count_string ctx2 (put_s memory ctx2.channel name unit value)
        else inject_fail on_error ctx2
      else inject_fail on_error ctx1
