-- ===== src/Prelude/Memory.antt =====
-- Memory as a function of the address. A write changes one cell; a cell that nothing wrote holds
-- an arbitrary value.
use Prim.Native.Nat.{ℕ, zero, suc, ◌+◌, ◌<◌, ◌≤◌}
use mathlib.Core.Path.{◌≡◌, refl, ◌∙◌}
use mathlib.Core.Logic.{inl, inr}
use mathlib.Core.Bool.{false}
use native.Mathlib.Omega.{arith}
use dasynq.Prelude.Tests.{◌==◌, if◌then◌else◌, Bool-cases}

module _ {ℓ} {A : Type ℓ} where
  abbrev pub write : (ℕ → A) → ℕ → A → ℕ → A
  write m a v b = if b == a then v else m b

  -- for (i = start; n rounds; i++) to[i] = from[i]
  unfoldable pub copy_loop : ℕ → ℕ → (ℕ → A) → (ℕ → A) → ℕ → A
  copy_loop zero i from to = to
  copy_loop (suc n) i from to = copy_loop n (i + 1) from (write to i (from i))

  copy_loop-below : (n i : ℕ) (from to : ℕ → A) (b : ℕ) → b < i → copy_loop n i from to b ≡ to b
  unfolding copy_loop
  copy_loop-below zero i from to b h = refl
  copy_loop-below (suc n) i from to b h =
      let other : (b == i) ≡ false = ground arith in
      copy_loop-below n (i + 1) from (write to i (from i)) b (omega arith) ∙ rw other

  pub copy_loop-inside :
      (n i : ℕ) (from to : ℕ → A) (b : ℕ) → i ≤ b → b < i + n → copy_loop n i from to b ≡ from b
  unfolding copy_loop
  copy_loop-inside zero i from to b h k = absurd (omega arith)
  copy_loop-inside (suc n) i from to b h k = elim (Bool-cases (b == i)) [
    | inl e ↦
        let at : b ≡ i = ground arith in
        copy_loop-below n (i + 1) from (write to i (from i)) b (omega arith) ∙ rw (e, at)
    | inr e ↦
        let past : i + 1 ≤ b = ground arith in
        copy_loop-inside n (i + 1) from (write to i (from i)) b past (omega arith)
  ]
