-- ===== src/Codec/Accept/Session.antt =====
-- Sequences of injections in the order of their times are all taken, and what a reader of the file
-- has then.
use otic.Prelude.{
  ℕ, ◌+◌, ◌^◌, ◌≤◌, ◌<◌, true, false, List, [], ◌∷◌, length, ◌==◌, All, ◌≡◌, ◌∙◌, refl, arith,
  if◌then◌else◌,
}
use otic.Base.{Floating, Zstd, to_ticks, ts_null}
use otic.Base.Types.{OticState, opened, on_error, closed}
use otic.Base.Oval.{Oval, bool_true, bool_false, null, int_neg, int_pos, double, string}
use otic.Leb128.{IsU64}
use otic.Pack.Flush.{Ctx, Flusher}
use otic.Pack.Channel as Packing
use otic.Pack.Channel.{Stats}
use otic.Pack.Put.{Outcome, put_bool, put_i_neg, put_i, put_d, put_n, put_s}
use otic.Pack.Inject.{
  ts_handler, make_room, inject, inject_bool, inject_i_neg, inject_i, inject_d, inject_n, inject_s,
  count_string, count_bool, count_integer, count_double, count_null,
}
use otic.Unpack.Channel.{Channel}
use otic.Codec.Deliver.{
  put_bool-PutSpec, put_i_neg-PutSpec, put_i-PutSpec, put_d-PutSpec, put_n-PutSpec, put_s-PutSpec,
}
use otic.Codec.Following.{Flushes, Following}
use otic.Codec.Puts.{Ready, PutSpec}
use otic.Codec.Sizes.{text_size}
use otic.Codec.Injections.{Injectable, plain, make_room-InTime, make_room-space}
use otic.Codec.Session.{
  Value, boolean, positive, negative, real, text, nothing, IsValue, oval_of, Injection, IsInjection,
  Accepted, finished, accepted, inject_value, inject_one, inject_value-Injected,
}
use otic.Codec.Accept.{Taking, InOrder, Took, Ample, Ample-less}
use otic.Codec.Accept.Inject.{timely, in_time, ready, room-Took, finish-Took, inject-Took}
use otic.Codec.Accept.Puts.{
  IsDone, put_bool-IsDone, put_i_neg-IsDone, put_i-IsDone, put_d-IsDone, put_n-IsDone, put_s-IsDone,
}

-- A name and a unit of at most 254 bytes, and a text that the buffer holds below its threshold.
abbrev pub Fits : ℕ → List ℕ → List ℕ → Value → Type 0
Fits threshold name unit (text s) = (length name + length unit + 1 ≤ 255) × (length s ≤ threshold)
Fits threshold name unit v = (length name + length unit + 1 ≤ 255) × (0 ≤ threshold)

Fits-name :
    (threshold : ℕ) (name unit : List ℕ) (v : Value)
    → Fits threshold name unit v
    → length name + length unit + 1 ≤ 255
Fits-name threshold name unit (text s) h = h.0
Fits-name threshold name unit v h = h.0

-- The channel after injections whose answers nobody looks at.
module _ {W : Type 0} (zs : Zstd) (fl : Floating) (flusher : Flusher W) where
  unfoldable pub run : Ctx W → List Injection → Ctx W
  unfolding inject_value
  run ctx [] = ctx
  run ctx (j ∷ js) = run (inject_one zs fl flusher true ctx j).1 js

-- The bytes that injections take at most.
abbrev pub cost : List Injection → ℕ
cost [] = 0
cost (j ∷ js) = 311 + text_size (oval_of j.value) + cost js

-- Times that are not before the one before them.
abbrev pub Later : Floating → ℕ → List Injection → Type 0
Later fl now [] = Unit {0}
Later fl now (j ∷ js) = (now ≤ to_ticks fl j.ts) × Later fl (to_ticks fl j.ts) js

abbrev pub Chronological : Floating → List Injection → Type 0
Chronological fl [] = Unit {0}
Chronological fl (j ∷ js) = Later fl (to_ticks fl j.ts) js

abbrev pub FitsIn : ℕ → Injection → Type 0
FitsIn threshold j = Fits threshold j.name j.unit j.value

module _ {W : Type 0} (zs : Zstd) (fl : Floating) (flusher : Flusher W) (version : ℕ)
    (Holds : ℕ → ℕ → W → Channel → Type 0) (flushes : Flushes zs fl flusher version Holds)
    (taking : Taking zs flusher) (current : (version == 1) ≡ false) where
  abbrev Behind : Ctx W → Channel → Type 0
  Behind = Following zs fl flusher version Holds

  module _ (ctx : Ctx W) {u : Channel} (ts : ℕ) (name unit : List ℕ) (f : Behind ctx u)
      (state : ctx.parent.state ≡ opened) (i : Injectable fl ctx ts name)
      (order : InOrder ctx (to_ticks fl ts)) (zero_behind : ctx.channel.stale ≡ []) where
    abbrev ticks : ℕ
    ticks = to_ticks fl ts

    -- The longest buffer that the injection can leave.
    abbrev pub limit : Oval → ℕ
    limit v = length ctx.channel.base.cache + 311 + text_size v

    inject_s-Took :
        (value : List ℕ)
        → length name + length unit + 1 ≤ 255
        → length value ≤ ctx.channel.threshold
        → IsU64 (length value)
        → Ample ctx.channel.threshold (limit (string value))
        → Took (inject_s zs fl flusher true ctx ts name unit value) ticks (limit (string value))
    unfolding inject_s
    inject_s-Took value short fits h tight =
        let v = string value in
        let timely_s =
          timely zs fl flusher version Holds flushes taking ctx ts name unit v tight f state i
            order in
        let in_time_s =
          in_time zs fl flusher version Holds flushes taking ctx ts name unit v tight f state i
            order in
        let room =
          room-Took zs fl flusher version Holds flushes taking ctx ts name unit v tight f state i
            order value fits refl in
        let ctx1 = (ts_handler zs fl flusher ctx ts).1 in
        let ctx2 = (make_room zs fl flusher ctx1 value).1 in
        let t =
          make_room-InTime zs fl flusher version Holds flushes true ctx f ts name unit i ctx1 value
            in_time_s room.answer room.state in
        rw (timely_s.answer, room.answer)
          (finish-Took zs fl flusher version Holds flushes taking ctx ts name unit v tight ctx2 t
            (put_s true ctx2.channel name unit value) on_error count_string room.state room.now
            room.short
            (make_room-space zs fl flusher version Holds flushes true ctx f ts name unit i ctx1
              value in_time_s room.answer room.state)
            (put_s-IsDone ctx2.channel name unit short value)
            (put_s-PutSpec fl version
              (record { sync = t.following.sync; chars = i.chars; space = rw t.total i.space }) true
              unit value (t.stale ∙ zero_behind) current h))

    taken :
        (v : Oval) (on_fail : OticState) (count : Stats → Stats) (put : Packing.Channel → Outcome)
        → text_size v ≡ 0
        → ((c : Packing.Channel) → IsDone (put c))
        → ((c : Packing.Channel) (r : Channel)
            → Ready fl c r name
            → PutSpec fl version c r name unit v (put c))
        → Ample ctx.channel.threshold (limit v)
        → Took (inject zs fl flusher on_fail count put ctx ts) ticks (limit v)
    taken v on_fail count put no_text yes_done spec tight =
        inject-Took zs fl flusher version Holds flushes taking ctx ts name unit v tight f state i
          order on_fail count put no_text (yes_done _)
          (spec _ _ (
            ready zs fl flusher version Holds flushes taking ctx ts name unit v tight f state i
              order))

    -- An injection in order, whose name and value fit, is taken.
    pub inject_value-Took :
        (v : Value)
        → IsValue v
        → Fits ctx.channel.threshold name unit v
        → Ample ctx.channel.threshold (limit (oval_of v))
        → Took (inject_value zs fl flusher true ctx ts name unit v) ticks (limit (oval_of v))
    unfolding inject_value inject_bool inject_i inject_i_neg inject_d inject_n
    inject_value-Took (boolean b) h fits tight =
        taken (if b then bool_true else bool_false) closed count_bool
          (λ c. put_bool true c name unit b) (plain b) (λ c. put_bool-IsDone c name unit fits.0 b)
          (λ c _ r. put_bool-PutSpec fl version r true unit b) tight
    inject_value-Took (positive n) h fits tight =
        taken (int_pos n) on_error count_integer (λ c. put_i true c name unit n) refl
          (λ c. put_i-IsDone c name unit fits.0 n)
          (λ c _ r. put_i-PutSpec fl version r true unit n (omega arith) (λ new. h)) tight
    inject_value-Took (negative n) h fits tight =
        taken (int_neg n) closed count_integer (λ c. put_i_neg true c name unit n) refl
          (λ c. put_i_neg-IsDone c name unit fits.0 n)
          (λ c _ r. put_i_neg-PutSpec fl version r true unit n (omega arith) (λ new. h)) tight
    inject_value-Took (real w) h fits tight =
        taken (double w) on_error count_double (λ c. put_d true c name unit w) refl
          (λ c. put_d-IsDone c name unit fits.0 w)
          (λ c _ r. put_d-PutSpec fl version r true unit w h) tight
    inject_value-Took (text s) h fits tight = inject_s-Took s fits.0 fits.1 h tight
    inject_value-Took nothing h fits tight =
        taken null closed count_null (λ c. put_n true c name unit) refl
          (λ c. put_n-IsDone c name unit fits.0) (λ c _ r. put_n-PutSpec fl version r true unit)
          tight

  abbrev pub Begins : Ctx W → List Injection → Type 0
  Begins ctx [] = Unit {0}
  Begins ctx (j ∷ js) = InOrder ctx (to_ticks fl j.ts) × Later fl (to_ticks fl j.ts) js

  Later-Begins :
      (ctx : Ctx W) (now : ℕ) (js : List Injection)
      → ctx.channel.base.timestamp_current ≡ now
      → Later fl now js
      → Begins ctx js
  Later-Begins ctx now [] e h = tt
  Later-Begins ctx now (j ∷ js) e h = (λ set. omega (arith, e, h.0), h.1)

  -- At a channel without a time any time is in order.
  pub first-Begins :
      (ctx : Ctx W) (js : List Injection)
      → Chronological fl js
      → ctx.channel.base.timestamp_current ≡ ts_null
      → Begins ctx js
  first-Begins ctx [] h e = tt
  first-Begins ctx (j ∷ js) h e = (λ set. absurd (set e), h)

  -- A run in a small channel, or one that needs no flush.
  pub run-Accepted :
      (ctx : Ctx W) {u : Channel} (js : List Injection)
      → Behind ctx u
      → ctx.parent.state ≡ opened
      → ctx.channel.stale ≡ []
      → Ample ctx.channel.threshold (length ctx.channel.base.cache + cost js)
      → length ctx.channel.base.cache ≤ ctx.channel.threshold
      → All (IsInjection fl) js
      → All (FitsIn ctx.channel.threshold) js
      → Begins ctx js
      → ctx.channel.total_entries + length js < 2 ^ 16
      → Accepted zs fl flusher true ctx js (run zs fl flusher ctx js)
        × ((run zs fl flusher ctx js).parent.state ≡ opened)
        × (length (run zs fl flusher ctx js).channel.base.cache
            ≤ length ctx.channel.base.cache + cost js)
  unfolding run
  run-Accepted ctx [] f state zero_behind tight low ok fit order room =
      (finished, state, omega arith)
  run-Accepted ctx (j ∷ js) f state zero_behind tight low ((small, chars, value), ok) (fits, fit)
        order room =
      let i : Injectable fl ctx j.ts j.name = record {
        small = small;
        chars = chars;
        low = low;
        space = omega (arith, room);
      } in
      let size = text_size (oval_of j.value) in
      let took =
        inject_value-Took ctx j.ts j.name j.unit f state i order.0 zero_behind j.value value fits (
          Ample-less ctx.channel.threshold ctx.channel.threshold
            (length ctx.channel.base.cache + 311 + size)
            (length ctx.channel.base.cache + cost (j ∷ js)) refl (omega arith) tight) in
      let next = (inject_one zs fl flusher true ctx j).1 in
      let done =
        inject_value-Injected zs fl flusher version Holds flushes true current ctx f j.ts j.name
          j.unit j.value zero_behind i value took.answer took.state in
      let rest =
        run-Accepted next js done.following took.state (done.stale ∙ zero_behind)
          (Ample-less ctx.channel.threshold next.channel.threshold
            (length next.channel.base.cache + cost js)
            (length ctx.channel.base.cache + cost (j ∷ js)) done.threshold
            (omega (arith, took.short)) tight)
          done.low ok (rw done.threshold fit)
          (Later-Begins next (to_ticks fl j.ts) js took.now order.1)
          (omega (arith, done.grows, room)) in
      (accepted j took.answer took.state rest.0, rest.1, omega (arith, rest.2, took.short))
