-- ===== src/Prelude/Updates.antt =====
-- A function on indices that is changed at one of them.
use Prim.Native.Nat.{ℕ}
use mathlib.Core.Path.{◌≡◌, refl}
use mathlib.Core.Logic.{◌≢◌}
use mathlib.Core.Bool.{true, false}
use native.Mathlib.Omega.{arith}
use kxo.Prelude.Tests.{◌==◌, if◌then◌else◌}

module _ {ℓ} {A : Type ℓ} where
  abbrev pub put : (ℕ → A) → ℕ → A → ℕ → A
  put f i a j = if j == i then a else f j

  pub put_self : (f : ℕ → A) (i : ℕ) (a : A) → put f i a i ≡ a
  put_self f i a = let e : (i == i) ≡ true = ground arith in rw e refl

  pub put_other : (f : ℕ → A) (i j : ℕ) (a : A) → j ≢ i → put f i a j ≡ f j
  put_other f i j a ne = let e : (j == i) ≡ false = ground (arith, ne) in rw e refl
