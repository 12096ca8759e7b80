-- ===== src/Prelude/Maps.antt =====
-- Functions of a number that are changed at one place.
use Prim.Native.Nat.{ℕ}
use mathlib.Core.Path.{◌≡◌}
use mathlib.Core.Logic.{◌≢◌}
use native.Mathlib.Omega.{arith}
use modelwrap.Prelude.Tests.{◌==◌, if◌then◌else◌}

module _ {ℓ} {A : Type ℓ} where
  abbrev pub assign : (ℕ → A) → ℕ → A → ℕ → A
  assign f k a j = if j == k then a else f j

  pub assign_self : (f : ℕ → A) (k : ℕ) (a : A) → assign f k a k ≡ a
  assign_self f k a = ground arith

  pub assign_other : (f : ℕ → A) (k j : ℕ) (a : A) → j ≢ k → assign f k a j ≡ f j
  assign_other f k j a ne = ground arith
