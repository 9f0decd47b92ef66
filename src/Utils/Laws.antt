-- ===== src/Utils/Laws.antt =====
-- What the small decisions amount to.
use dpu_offload_service.Prelude.{
  ℕ, zero, suc, ◌+◌, ◌-◌, ◌*◌, ◌/◌, ◌≤◌, ◌<◌, ◌≡◌, ◌∙◌, false, arith, ltb, if◌then◌else◌,
}
use native.Mathlib.Nat.{zero-mul, suc-mul, mod-lt, div-add-mod}
use dpu_offload_service.Utils.{get_num_connecting_ranks}

-- The sum of `f` below `n`.
unfoldable pub sum : (ℕ → ℕ) → ℕ → ℕ
sum f zero = 0
sum f (suc n) = sum f n + f n

shares : ℕ → ℕ → ℕ → ℕ
shares base rest i = if ltb i rest then base + 1 else base

sum-shares :
    (base rest n : ℕ) → sum (shares base rest) n ≡ n * base + (if ltb n rest then n else rest)
unfolding sum shares
sum-shares base rest zero = ground (arith, zero-mul base)
sum-shares base rest (suc n) = ground (arith, sum-shares base rest n, suc-mul n base)

-- All local ranks of a DPU with at least one service process connect to one of them: the numbers of
-- connecting ranks add up to the number of local ranks.
pub get_num_connecting_ranks-sum :
    (num n_local_ranks : ℕ)
    → 0 < num
    → sum (get_num_connecting_ranks num n_local_ranks) num ≡ n_local_ranks
unfolding get_num_connecting_ranks shares
get_num_connecting_ranks-sum num n pos =
    let base = n / num in
    let split = div-add-mod n num in
    let small = mod-lt n pos in
    let rest : ℕ = n - num * base in
    let over : ltb num rest ≡ false = ground (arith, split, small) in
    let total : num * base + rest ≡ n = omega (arith, split) in
    (sum-shares base rest num ∙ rw over) ∙ total

-- No service process gets two ranks more than another.
pub get_num_connecting_ranks-even :
    (num n_local_ranks i j : ℕ)
    → get_num_connecting_ranks num n_local_ranks i
      ≤ get_num_connecting_ranks num n_local_ranks j + 1
unfolding get_num_connecting_ranks
get_num_connecting_ranks-even num n i j = ground arith
