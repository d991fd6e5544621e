-- ===== src/Prelude/Partial.antt =====
-- What holds of the result of a partial computation, wherever there is one.
use mathlib.Core.Path.{◌≡◌}
use mathlib.Core.Option.{Option, none, some}
use otic.Prelude.Tests.{◌>>=◌}

module _ {ℓ κ} {A : Type ℓ} where
  abbrev pub OfSome : (A → Type κ) → Option A → Type κ
  OfSome P none = Unit {κ}
  OfSome P (some a) = P a

  pub OfSome-elim : (P : A → Type κ) (o : Option A) (a : A) → o ≡ some a → OfSome P o → P a
  OfSome-elim P o a e h = rw e at h

module _ {ℓ ℓ' κ} {A : Type ℓ} {B : Type ℓ'} where
  pub OfSome-bind :
      (P : A → Type κ) (Q : B → Type κ) (o : Option A) (f : A → Option B)
      → OfSome P o
      → ((a : A) → P a → OfSome Q (f a))
      → OfSome Q (o >>= f)
  OfSome-bind P Q none f h next = tt
  OfSome-bind P Q (some a) f h next = next a h
