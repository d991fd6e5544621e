-- ===== src/Prelude/Bytes.antt =====
-- Little-endian byte order, the order in which the program copies a number or a packed struct.
use Prim.Native.Nat.{ℕ, zero, suc, ◌+◌, ◌*◌, ◌/◌, ◌%◌, ◌^◌, ◌<◌}
use mathlib.Core.Path.{◌≡◌, refl}
use mathlib.Core.Option.{Option, none, some}
use mathlib.Core.List.{List, [], ◌∷◌, ◌++◌}
use native.Mathlib.Omega.{arith}
use native.Mathlib.Nat.{pow-suc}
use otic.Prelude.Lists.{length}

-- The `k` bytes of a number, as `memcpy` of the object writes them.
unfoldable pub le_bytes : ℕ → ℕ → List ℕ
le_bytes zero v = []
le_bytes (suc k) v = (v % 256) ∷ le_bytes k (v / 256)

-- `memcpy` of `k` bytes into an object: its value and the bytes that are left, or `none` if the
-- source holds fewer.
unfoldable pub le_read : ℕ → List ℕ → Option (ℕ × List ℕ)
le_read zero bs = some (0, bs)
le_read (suc k) [] = none
le_read (suc k) (b ∷ bs) = elim (le_read k bs) [
  | none ↦ none
  | some (v, rest) ↦ some (b + 256 * v, rest)
]

pub length-le_bytes : (k v : ℕ) → length (le_bytes k v) ≡ k
unfolding le_bytes
length-le_bytes zero v = refl
length-le_bytes (suc k) v = omega (arith, length-le_bytes k (v / 256))

pub le_read-le_bytes :
    (k v : ℕ) (rest : List ℕ) → v < 256 ^ k → le_read k (le_bytes k v ++ rest) ≡ some (v, rest)
unfolding le_bytes le_read
le_read-le_bytes zero v rest h = ground arith
le_read-le_bytes (suc k) v rest h =
    ground (arith, pow-suc 256 k, le_read-le_bytes k (v / 256) rest (omega (arith, pow-suc 256 k)))
