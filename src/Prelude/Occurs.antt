-- ===== src/Prelude/Occurs.antt =====
-- How often a number stands in a list, and elements that lie evenly in a block.
use Prim.Native.Nat.{ℕ, zero, suc, ◌+◌, ◌*◌, ◌≤◌, ◌<◌}
use mathlib.Core.Path.{◌≡◌, refl}
use mathlib.Core.Logic.{inl, inr}
use mathlib.Core.List.{List, [], ◌∷◌, ◌++◌}
use native.Mathlib.Omega.{arith}
use dpu_offload_service.Prelude.Tests.{◌==◌, if◌then◌else◌, Bool-cases}
use dpu_offload_service.Prelude.Lists.{length}

abbrev pub occurs : ℕ → List ℕ → ℕ
occurs p [] = 0
occurs p (x ∷ xs) = (if x == p then 1 else 0) + occurs p xs

pub occurs-append : (p : ℕ) (xs ys : List ℕ) → occurs p (xs ++ ys) ≡ occurs p xs + occurs p ys
occurs-append p [] ys = omega arith
occurs-append p (x ∷ xs) ys = omega (arith, occurs-append p xs ys)

-- `e + idx * sz, …`, `n` of them.
unfoldable pub addresses : ℕ → ℕ → ℕ → ℕ → List ℕ
addresses sz e idx zero = []
addresses sz e idx (suc n) = (e + idx * sz) ∷ addresses sz e (idx + 1) n

pub length-addresses : (sz e idx n : ℕ) → length (addresses sz e idx n) ≡ n
unfolding addresses
length-addresses sz e idx zero = refl
length-addresses sz e idx (suc n) = omega (arith, length-addresses sz e (idx + 1) n)

module _ (sz e p : ℕ) where
  -- What is listed lies in the block.
  pub addresses_bounds :
      (idx n : ℕ)
      → 0 < occurs p (addresses sz e idx n)
      → (e + idx * sz ≤ p) × (p + sz ≤ e + (idx + n) * sz)
  unfolding addresses
  addresses_bounds idx zero h = absurd (omega arith)
  addresses_bounds idx (suc n) h = elim (Bool-cases (e + idx * sz == p)) [
    | inl here ↦ grind (arith, here)
    | inr later ↦ grind (arith, addresses_bounds (idx + 1) n)
  ]

  -- Elements of some size are distinct.
  pub addresses-distinct : (idx n : ℕ) → 0 < sz → occurs p (addresses sz e idx n) ≤ 1
  unfolding addresses
  addresses-distinct idx zero h = omega arith
  addresses-distinct idx (suc n) h = elim (Bool-cases (e + idx * sz == p)) [
    | inl here ↦ grind (arith, here, addresses_bounds (idx + 1) n)
    | inr later ↦ grind (arith, addresses-distinct (idx + 1) n h)
  ]
