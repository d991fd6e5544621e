-- ===== src/Demo/Tsv/Fuel.antt =====
-- The loops of `compress` end: a round takes a character at least.
use otic.Prelude.{ℕ, ◌<◌, Bool, true, Option, none, some, List, length}
use otic.Base.{Floating, Zstd}
use otic.Pack.Flush.{Ctx, Flusher}
use otic.Utility.Format.{Format}
use otic.Demo.Tsv.Compress.{Progress, compress_lines}

abbrev Shorter : List ℕ → List ℕ → Type 0
Shorter line rest = length rest < length line

module _ {W : Type 0} (zs : Zstd) (fl : Floating) (flusher : Flusher W) (memory : Bool)
    (strtod : List ℕ → ℕ) where
  abbrev loop : ℕ → Ctx W → Format → List ℕ → Option (Progress W)
  loop = compress_lines zs fl flusher memory strtod

  -- What follows a line.
  abbrev after : ℕ → Ctx W → Format → Option (List ℕ) → Option (Progress W)
  after k next f' none = some (record { good = true; ctx = next; format = f' })
  after k next f' (some rest) = loop k next f' rest
