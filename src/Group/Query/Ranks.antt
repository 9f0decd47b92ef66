-- ===== src/Group/Query/Ranks.antt =====
-- The loop of `get_rank_idx_by_group_host_idx`: the index of a marked rank among the marked ones.
use dpu_offload_service.Prelude.{
  ℕ, zero, suc, ◌+◌, ◌≤◌, ◌<◌, ◌≡◌, refl, ◌∙◌, ◌^◌, inl, inr, true, false, arith, ◌==◌,
  if◌then◌else◌, Bool-cases,
}
use dpu_offload_service.Prelude.Count.{count_from, count_from-on, count_from-off}
use dpu_offload_service.Prelude.Result.{ok}
use dpu_offload_service.Size.{uint64_max}
use dpu_offload_service.Bitset.{Bitset}
use dpu_offload_service.Bitset.Laws.{has, room, test-has, test_int-eq}
use dpu_offload_service.Group.{Engine}
use dpu_offload_service.Group.Tables.Walk.{count_from-zero}
use dpu_offload_service.Group.Query.{index_of_rank}

-- `rank_index` once `c` ranks were met.
abbrev pub index : ℕ → ℕ
index zero = uint64_max
index (suc c) = c

next_index :
    (c : ℕ) → c < uint64_max → (if index c == uint64_max then 0 else index c + 1) ≡ index (c + 1)
next_index zero h = refl
next_index (suc c) h =
    let e : (c == uint64_max) ≡ false = ground arith in
    let q : suc c + 1 ≡ suc (suc c) = omega arith in rw (e, q) (omega arith)

-- From bit `i` on, the loop stops at rank `i + k` and has then met the marked ranks up to there.
pub index_of_rank-count :
    (engine : Engine) (b : Bitset) (k left i c : ℕ)
    → k < left
    → i + left ≤ room b
    → c + left ≤ uint64_max
    → i + left ≤ 2 ^ 31
    → index_of_rank engine b (i + k) left i (index c)
      ≡ ok (index (c + count_from (has b) i (suc k)))
unfolding index_of_rank
index_of_rank-count engine b k zero i c h inside small low = absurd (omega arith)
index_of_rank-count engine b zero (suc left) i c h inside small low =
    let q : i + 0 ≡ i = omega arith in
    let hit : (i == i) ≡ true = ground arith in
    let here = test_int-eq b i (omega (arith, low)) ∙ test-has b i (omega (arith, inside)) in
    let nothing : count_from (has b) (i + 1) 0 ≡ 0 = count_from-zero (has b) (i + 1) in
    elim (Bool-cases (has b i)) [
      | inl marked ↦
          let more : c + count_from (has b) i (suc 0) ≡ c + 1 =
            omega (arith, count_from-on (has b) i 0 marked, nothing) in
          rw (q, here, marked, hit, next_index c (omega (arith, small)), more)
      | inr off ↦
          let same : c + count_from (has b) i (suc 0) ≡ c =
            omega (arith, count_from-off (has b) i 0 off, nothing) in
          rw (q, here, off, hit, same)
    ]
index_of_rank-count engine b (suc k) (suc left) i c h inside small low =
    let q : i + suc k ≡ i + 1 + k = omega arith in
    let miss : (i == i + suc k) ≡ false = ground arith in
    let here = test_int-eq b i (omega (arith, low)) ∙ test-has b i (omega (arith, inside)) in
    elim (Bool-cases (has b i)) [
      | inl marked ↦
          let more : c + count_from (has b) i (suc (suc k))
              ≡ c + 1 + count_from (has b) (i + 1) (suc k) =
            omega (arith, count_from-on (has b) i (suc k) marked) in
          let ih =
            index_of_rank-count engine b k left (i + 1) (c + 1) (omega arith)
              (omega (arith, inside)) (omega (arith, small)) (omega (arith, low)) in
          let ih' = rw (← q) at ih in
          rw (here, marked, miss, next_index c (omega (arith, small)), more) ih'
      | inr off ↦
          let same : c + count_from (has b) i (suc (suc k))
              ≡ c + count_from (has b) (i + 1) (suc k) =
            omega (arith, count_from-off (has b) i (suc k) off) in
          let ih =
            index_of_rank-count engine b k left (i + 1) c (omega arith) (omega (arith, inside))
              (omega (arith, small)) (omega (arith, low)) in
          let ih' = rw (← q) at ih in rw (here, off, miss, same) ih'
    ]
