-- ===== src/Prelude/Compare.antt =====
-- The `Compare` template parameter of the queues: a functional object that orders priorities.
use mathlib.Core.Path.{◌≡◌}
use mathlib.Core.Bool.{Bool, true, false}
use Prim.Native.Nat.{ℕ}
use native.Mathlib.Omega.{arith}
use dasynq.Prelude.Tests.{ltb}
use dasynq.Prelude.Int.{ℤ, ltb_ℤ}

-- The named requirement Compare of the C++ standard library, a strict weak order.
pub record Compare {ℓ} (P : Type ℓ) : Type ℓ where
  pub lt : P → P → Bool
  pub asymm : (a b : P) → lt a b ≡ true → lt b a ≡ false
  -- `lt b a ≡ false` reads "a is not after b"
  pub le_trans : (a b c : P) → lt b a ≡ false → lt c b ≡ false → lt c a ≡ false

pub ltb-asymm : (a b : ℕ) → ltb a b ≡ true → ltb b a ≡ false
ltb-asymm a b e = ground arith

pub ltb-le_trans : (a b c : ℕ) → ltb b a ≡ false → ltb c b ≡ false → ltb c a ≡ false
ltb-le_trans a b c e f = ground arith

-- std::less on numbers
abbrev pub by_number : Compare ℕ
by_number = record { lt = ltb; asymm = ltb-asymm; le_trans = ltb-le_trans }

pub ltb_ℤ-asymm : (a b : ℤ) → ltb_ℤ a b ≡ true → ltb_ℤ b a ≡ false
ltb_ℤ-asymm a b e = ground arith

pub ltb_ℤ-le_trans : (a b c : ℤ) → ltb_ℤ b a ≡ false → ltb_ℤ c b ≡ false → ltb_ℤ c a ≡ false
ltb_ℤ-le_trans a b c e f = ground arith

-- std::less<int>
abbrev pub int_compare : Compare ℤ
int_compare = record { lt = ltb_ℤ; asymm = ltb_ℤ-asymm; le_trans = ltb_ℤ-le_trans }
