-- ===== src/Codec/Session.antt =====
-- Sequences of injections into one channel, and the rows that a reader gets for them.
use otic.Prelude.{
  ℕ, ◌+◌, ◌^◌, ◌≤◌, ◌<◌, Bool, true, false, Option-cases, ◌⊎◌, inl, inr, some, List, [], ◌∷◌, ◌++◌,
  length, append_assoc, append-nil, ◌==◌, All, IsChar, ◌≡◌, refl, sym, ap, ◌∙◌, arith,
  if◌then◌else◌,
}
use otic.Base.{Floating, Zstd, of_ticks, to_ticks, ts_null}
use otic.Base.Types.{opened}
use otic.Base.Oval.{Oval, null, bool_true, bool_false, int_neg, int_pos, double, string}
use otic.Leb128.{IsU64}
use otic.Pack.Flush.{Ctx, Flusher}
use otic.Pack.Inject.{inject_bool, inject_i_neg, inject_i, inject_d, inject_n, inject_s}
use otic.Unpack.Channel.{Channel, Row}
use otic.Pack.Channel as Packing
use otic.Pack.Entries.{find_name}
use otic.Codec.Table.{Buckets, find}
use otic.Codec.Units.{UnitsFrom}
use otic.Codec.Sync.{ReadsAs, unit_of, unit_of-known, unit_of-absent}
use otic.Codec.Following.{Flushes, Following}
use otic.Codec.Inject.{Injected}
use otic.Codec.Injections.{
  Injectable, inject_bool-Injected, inject_i_neg-Injected, inject_i-Injected, inject_d-Injected,
  inject_n-Injected, inject_s-Injected,
}

-- One call of the injections: `otic_pack_channel_inject_bool`, `_i`, `_i_neg`, `_d`, `_s`, `_n`.
pub data Value : Type 0 where
  boolean : Bool → Value
  positive negative real : ℕ → Value
  text : List ℕ → Value
  nothing : Value

pub record Injection : Type 0 where
  pub ts : ℕ
  pub name : List ℕ
  pub unit : List ℕ
  pub value : Value

abbrev pub oval_of : Value → Oval
oval_of (boolean b) = if b then bool_true else bool_false
oval_of (positive n) = int_pos n
oval_of (negative n) = int_neg n
oval_of (real w) = double w
oval_of (text s) = string s
oval_of nothing = null

-- The values that come through: integers of 32 bits, and a `double` and a length of 64.
abbrev pub IsValue : Value → Type 0
IsValue (boolean b) = 0 ≤ 0
IsValue (positive n) = n < 2 ^ 32
IsValue (negative n) = n < 2 ^ 32
IsValue (real w) = IsU64 w
IsValue (text s) = IsU64 (length s)
IsValue nothing = 0 ≤ 0

-- A time before the last that the format has, a name that is a C string, a value as above.
abbrev pub IsInjection : Floating → Injection → Type 0
IsInjection fl j = (to_ticks fl j.ts < ts_null) × All IsChar j.name × IsValue j.value

-- A row that shows an injection: its time in ticks, its name and its value.
abbrev pub Shows : Floating → Injection → Row → Type 0
Shows fl j r =
    (r.time ≡ of_ticks fl (to_ticks fl j.ts))
    × (r.name ≡ j.name)
    × ReadsAs (oval_of j.value) r.value

-- The unit was given with an injection of this name.
abbrev pub Given : List Injection → List ℕ → List ℕ → Type 0
Given [] name unit = ⊥
Given (k ∷ ks) name unit = ((name ≡ k.name) × (unit ≡ k.unit)) ⊎ Given ks name unit

-- Rows that show injections one by one, each with the unit of its injection or of one of the same name
-- before it; the injections that were before the first come last to first.
pub data AllShow (fl : Floating) : List Injection → List Injection → List Row → Type 0 where
  no_rows : {before : List Injection} → AllShow fl before [] []
  one_more :
      {before js : List Injection} {rs : List Row} (j : Injection) (r : Row)
      → Shows fl j r
      → Given (j ∷ before) j.name r.unit
      → AllShow fl (j ∷ before) js rs
      → AllShow fl before (j ∷ js) (r ∷ rs)

-- A table in which every sensor has a unit that was given with its name.
abbrev pub GivenUnits : List Injection → Buckets → Type 0
GivenUnits before b = (n : List ℕ) (e : Packing.Entry) → find b n ≡ some e → Given before n e.unit

pub empty-GivenUnits : (before : List Injection) → GivenUnits before (λ k. [])
unfolding find_name
empty-GivenUnits before n e found = absurd cc

unit_of-Given :
    (before : List Injection) (b : Buckets) (j : Injection)
    → GivenUnits before b
    → Given (j ∷ before) j.name (unit_of b j.name j.unit)
unit_of-Given before b j h = elim (Option-cases (find b j.name)) [
  | inl absent ↦ inl (refl, unit_of-absent b j.name j.unit absent)
  | inr (e, found) ↦ inr (rw (unit_of-known b j.name j.unit found) (h j.name e found))
]

next-GivenUnits :
    (before : List Injection) (b b' : Buckets) (j : Injection)
    → GivenUnits before b
    → UnitsFrom b b' j.name j.unit
    → GivenUnits (j ∷ before) b'
next-GivenUnits before b b' j h from n e' found = elim (from n e' found) [
  | inl (e, at, same) ↦ inr (rw same (h n e at))
  | inr (named, same) ↦ inl (named, same)
]

module _ {W : Type 0} (zs : Zstd) (fl : Floating) (flusher : Flusher W) (memory : Bool) where
  unfoldable pub inject_value : Ctx W → ℕ → List ℕ → List ℕ → Value → Bool × Ctx W
  unfolding inject_bool inject_i inject_i_neg inject_d inject_s inject_n
  inject_value ctx ts name unit (boolean b) = inject_bool zs fl flusher memory ctx ts name unit b
  inject_value ctx ts name unit (positive n) = inject_i zs fl flusher memory ctx ts name unit n
  inject_value ctx ts name unit (negative n) = inject_i_neg zs fl flusher memory ctx ts name unit n
  inject_value ctx ts name unit (real w) = inject_d zs fl flusher memory ctx ts name unit w
  inject_value ctx ts name unit (text s) = inject_s zs fl flusher memory ctx ts name unit s
  inject_value ctx ts name unit nothing = inject_n zs fl flusher memory ctx ts name unit

  abbrev pub inject_one : Ctx W → Injection → Bool × Ctx W
  inject_one ctx j = inject_value ctx j.ts j.name j.unit j.value

  -- Injections that all answer true, from one channel to the other, with the container open.
  pub data Accepted : Ctx W → List Injection → Ctx W → Type 0 where
    finished : {ctx : Ctx W} → Accepted ctx [] ctx
    accepted :
        {ctx ctx' : Ctx W} (j : Injection) {js : List Injection}
        → (inject_one ctx j).0 ≡ true
        → (inject_one ctx j).1.parent.state ≡ opened
        → Accepted (inject_one ctx j).1 js ctx'
        → Accepted ctx (j ∷ js) ctx'

module _ {W : Type 0} (zs : Zstd) (fl : Floating) (flusher : Flusher W) (version : ℕ)
    (Holds : ℕ → ℕ → W → Channel → Type 0) (flushes : Flushes zs fl flusher version Holds)
    (memory : Bool) (current : (version == 1) ≡ false) where
  abbrev Behind : Ctx W → Channel → Type 0
  Behind = Following zs fl flusher version Holds

  pub inject_value-Injected :
      (ctx : Ctx W) {u : Channel} (f : Behind ctx u) (ts : ℕ) (name unit : List ℕ) (v : Value)
      → ctx.channel.stale ≡ []
      → Injectable fl ctx ts name
      → IsValue v
      → (inject_value zs fl flusher memory ctx ts name unit v).0 ≡ true
      → (inject_value zs fl flusher memory ctx ts name unit v).1.parent.state ≡ opened
      → Injected zs fl flusher version Holds flushes ctx
          (inject_value zs fl flusher memory ctx ts name unit v).1
          u
          ts
          name
          unit
          (oval_of v)
  unfolding inject_value
  inject_value-Injected ctx f ts name unit (boolean b) zero_behind i h =
      inject_bool-Injected zs fl flusher version Holds flushes memory ctx f ts name unit i b
  inject_value-Injected ctx f ts name unit (positive n) zero_behind i h =
      inject_i-Injected zs fl flusher version Holds flushes memory ctx f ts name unit i n
        (omega arith) (λ new. h)
  inject_value-Injected ctx f ts name unit (negative n) zero_behind i h =
      inject_i_neg-Injected zs fl flusher version Holds flushes memory ctx f ts name unit i n
        (omega arith) (λ new. h)
  inject_value-Injected ctx f ts name unit (real w) zero_behind i h =
      inject_d-Injected zs fl flusher version Holds flushes memory ctx f ts name unit i w h
  inject_value-Injected ctx f ts name unit (text s) zero_behind i h =
      inject_s-Injected zs fl flusher version Holds flushes memory ctx f ts name unit i s
        zero_behind current h
  inject_value-Injected ctx f ts name unit nothing zero_behind i h =
      inject_n-Injected zs fl flusher version Holds flushes memory ctx f ts name unit i

  -- The reader behind a channel after a sequence of injections.
  pub record Session (before : List Injection) (ctx ctx' : Ctx W) (u : Channel)
      (js : List Injection) : Type 0 where
    pub reader : Channel
    pub following : Behind ctx' reader
    pub low : length ctx'.channel.base.cache ≤ ctx'.channel.threshold
    pub id : ctx'.channel.channel_id ≡ ctx.channel.channel_id
    pub threshold : ctx'.channel.threshold ≡ ctx.channel.threshold
    pub rows : List Row
    pub delivered : reader.rows ≡ u.rows ++ rows
    pub shown : AllShow fl before js rows

  -- For any output that holds what is flushed to it, and a channel whose sensors have units that
  -- were given with their names before, a sequence of injections of valid values that all answer
  -- true and leave the container open takes the reader behind the channel to a reader behind the
  -- new channel, whose new rows show the injections one by one in their order, each with its
  -- time, name and value, and the unit of this injection or of an earlier one of the same name.
  -- The byte behind the memory of a sensor's first text is zero, where the source stores it
  -- without its terminator.
  pub Accepted-Session :
      (before : List Injection) {ctx ctx' : Ctx W} {u : Channel} {js : List Injection}
      → Accepted zs fl flusher memory ctx js ctx'
      → GivenUnits before ctx.channel.buckets
      → Behind ctx u
      → ctx.channel.stale ≡ []
      → length ctx.channel.base.cache ≤ ctx.channel.threshold
      → All (IsInjection fl) js
      → ctx.channel.total_entries + length js < 2 ^ 16
      → Session before ctx ctx' u js
  Accepted-Session before {u = u} finished known f zero_behind low ok room = record {
    reader = u;
    following = f;
    low = low;
    id = refl;
    threshold = refl;
    rows = [];
    delivered = sym (append-nil u.rows);
    shown = no_rows;
  }
  Accepted-Session before {ctx = ctx} {u = u} (accepted j {js} answer well more) known f zero_behind
        low ((small, chars, value), ok) room =
      let i =
        inject_value-Injected ctx f j.ts j.name j.unit j.value zero_behind
          (record { small = small; chars = chars; low = low; space = omega (arith, room) }) value
          answer well in
      let next = (inject_one zs fl flusher memory ctx j).1 in
      let rest =
        Accepted-Session (j ∷ before) more
          (next-GivenUnits before ctx.channel.buckets next.channel.buckets j known i.units)
          i.following (i.stale ∙ zero_behind) i.low ok (omega (arith, i.grows, room)) in
      let r : Row = record {
        time = of_ticks fl (to_ticks fl j.ts);
        name = j.name;
        unit = unit_of ctx.channel.buckets j.name j.unit;
        value = i.value;
      } in
      record {
        reader = rest.reader;
        following = rest.following;
        low = rest.low;
        id = rest.id ∙ i.id;
        threshold = rest.threshold ∙ i.threshold;
        rows = r ∷ rest.rows;
        delivered =
            rest.delivered
            ∙ ap (λ (t : List Row). t ++ rest.rows) i.rows
            ∙ append_assoc u.rows (r ∷ []) rest.rows;
        shown =
            one_more j r (refl, refl, i.same_value)
              (unit_of-Given before ctx.channel.buckets j known) rest.shown;
      }
