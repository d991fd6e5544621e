-- ===== src/Demo/Tsv/Compress.antt =====
-- demo/tsvParser/tsvParser.c: `compress`, on a table that was opened and a file that the container
-- appends to. No character of the table is zero.
use otic.Prelude.{
  ℕ, zero, suc, Bool, true, false, Option, none, some, List, [], ◌∷◌, ◌++◌, length, ltb, ◌==◌,
  ◌>>=◌, if◌then◌else◌,
}
use otic.Base.{Floating, Zstd}
use otic.Base.Types.{sensor, on_error}
use otic.Pack.Channel.{LeftOver}
use otic.Pack.Flush.{Ctx, Flusher, Parent}
use otic.Pack.Container as Packer
use otic.Pack.Container.{Pack}
use otic.Utility.Format.{Format, format_init, format_parse, newline}
use otic.Codec.Session.{inject_value, inject_one}
use otic.Demo.Tsv.{skip_space, injection_of}

-- `READ_BUFFERSIZE`, and what `fread` is asked for of it.
abbrev pub read_buffersize : ℕ
read_buffersize = 1048576

abbrev pub read_size : ℕ
read_size = 1047552

-- `fread`, and the line that `fscanf("%[^\n]")` reads behind it.
unfoldable pub fread : ℕ → List ℕ → List ℕ × List ℕ
fread zero file = ([], file)
fread (suc n) [] = ([], [])
fread (suc n) (c ∷ file) = let (front, rest) = fread n file in (c ∷ front, rest)

unfoldable pub scan_line : List ℕ → List ℕ × List ℕ
scan_line [] = ([], [])
scan_line (c ∷ file) =
    let (line, rest) = scan_line file in if c == newline then ([], c ∷ file) else (c ∷ line, rest)

-- What one round of the outer loop reads, and the file behind it. The `\n` of the format skips
-- blanks of every kind; where there is no text before the end of the line, nothing is scanned, and the
-- newline alone is taken. A line that does not fit the buffer with its zero is written behind it, which
-- is `none`.
unfoldable pub scan_rest : List ℕ → List ℕ → Option (List ℕ × List ℕ)
unfolding scan_line skip_space
scan_rest front [] = some (front, [])
scan_rest front (c ∷ file) =
    let (line, rest) = scan_line (c ∷ file) in
    let chunk = front ++ line in
    if c == newline
    then some (front, file)
    else if ltb (length chunk) read_buffersize
    then some (chunk, skip_space rest)
    else none

unfoldable pub next_chunk : List ℕ → Option (List ℕ × List ℕ)
unfolding fread scan_rest
next_chunk file = let (front, rest) = fread read_size file in scan_rest front rest

-- `goto fail` of the loops, or their end.
pub record Progress (W : Type 0) : Type 0 where
  pub good : Bool
  pub ctx : Ctx W
  pub format : Format

module _ {W : Type 0} (zs : Zstd) (fl : Floating) (flusher : Flusher W) (memory : Bool)
    (strtod : List ℕ → ℕ) where
  -- The inner loop, a line of the chunk with each round. The answer of an injection is not looked at, only
  -- the state of the container. Behind the terminator of a chunk there is no other line.
  unfoldable pub compress_lines : ℕ → Ctx W → Format → List ℕ → Option (Progress W)
  unfolding format_parse injection_of inject_value
  compress_lines zero ctx f chunk = none
  compress_lines (suc fuel) ctx f [] = some (record { good = true; ctx = ctx; format = f })
  compress_lines (suc fuel) ctx f (c ∷ chunk) = elim (format_parse f (c ∷ chunk)) [
    | none ↦ none
    | some (f', behind) ↦ elim (injection_of strtod f'.content) [
      | none ↦ none
      | some j ↦
          let next = (inject_one zs fl flusher memory ctx j).1 in
          elim next.parent.state [
            | on_error ↦ some (record { good = false; ctx = next; format = f' })
            | _ ↦ elim behind [
              | none ↦ some (record { good = true; ctx = next; format = f' })
              | some rest ↦ compress_lines fuel next f' rest
            ]
          ]
    ]
  ]

  -- The outer loop, a chunk with each round.
  unfoldable pub compress_chunks : ℕ → Ctx W → Format → List ℕ → Option (Progress W)
  compress_chunks zero ctx f file = none
  compress_chunks (suc fuel) ctx f [] = some (record { good = true; ctx = ctx; format = f })
  compress_chunks (suc fuel) ctx f (c ∷ file) = elim (next_chunk (c ∷ file)) [
    | none ↦ none
    | some (chunk, rest) ↦ elim (compress_lines (suc (length chunk)) ctx f chunk) [
      | none ↦ none
      | some p ↦ elim p.good [ true ↦ compress_chunks fuel p.ctx p.format rest | false ↦ some p ]
    ]
  ]

  -- `compress`: the container and its one channel, the loops, and the end. `left_over` is what the
  -- memory of the channel held. The source answers 0 on every path; the truth value is false where it
  -- goes to `fail`.
  unfoldable pub compress : LeftOver → Pack W → W → List ℕ → Option (Bool × Parent W)
  unfolding Packer.init Packer.define_channel Packer.close format_init
  compress left_over pack file table =
      let (started, pack1) = Packer.init pack (some flusher) 0 file in
      let (defined, pack2) = Packer.define_channel flusher memory fl left_over pack1 sensor 1 0 in
      if started
      then elim pack2.channels [
        | [] ↦ some (false, pack2.parent)
        | channel ∷ others ↦
            if defined
            then elim (format_init memory 9 5) [
              | none ↦ some (false, pack2.parent)
              | some f ↦
                  compress_chunks (suc (length table))
                    (record { channel = channel; parent = pack2.parent }) f table
                  >>= λ (p : Progress W).
                      let end : Pack W = record {
                        channels = p.ctx.channel ∷ others;
                        parent = p.ctx.parent;
                      } in
                      if p.good
                      then some (true, (Packer.close zs flusher end).1.parent)
                      else some (false, p.ctx.parent)
            ]
            else some (false, pack2.parent)
      ]
      else some (false, pack1.parent)
