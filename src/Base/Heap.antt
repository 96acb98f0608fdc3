-- ===== src/Base/Heap.antt =====
-- A store of objects by address, for the objects that several parts of the program point to.
use Prim.Native.Nat.{ℕ}
use mathlib.Core.Path.{◌≡◌, fun_ext}
use mathlib.Core.Logic.{◌≢◌}
use native.Mathlib.Omega.{arith}
use woongkie_talkie.Base.Tests.{eqb, eqb_iff, if◌then◌else◌}

module _ {ℓ} {A : Type ℓ} where
  abbrev pub update : (ℕ → A) → ℕ → A → ℕ → A
  update h i a j = if eqb i j then a else h j

  pub update_self : (h : ℕ → A) (i : ℕ) (a : A) → update h i a i ≡ a
  update_self h i a = ground arith

  pub update_ne : (h : ℕ → A) (i j : ℕ) (a : A) → i ≢ j → update h i a j ≡ h j
  update_ne h i j a e = ground arith

  pub update_same : (h : ℕ → A) (i : ℕ) → update h i (h i) ≡ h
  update_same h i = fun_ext λ j. ground (arith, eqb_iff i j)
