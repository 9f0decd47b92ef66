-- ===== src/Utils/Ranges.antt =====
-- How a service process finds the entries of its ranks that it sends: find_range_local_ranks and
-- send_local_rank_group_cache of src/dpu_offload_utils.c. The array of ranks is the list of its
-- entries; past its end nothing is ever found. The events and the sends succeed.
pub mod Laws
use dpu_offload_service.Prelude.{
  ℕ, zero, suc, ◌+◌, Bool, true, false, ◌&&◌, Option, none, some, List, [], ◌∷◌, ◌==◌, ltb,
  if◌then◌else◌,
}
use dpu_offload_service.Prelude.Result.{bind}

-- What is read of a `peer_cache_entry_t`: `is_valid` is whether its group rank is not INVALID_RANK,
-- `sp` the first of its `shadow_service_procs`.
pub record RankEntry : Type 0 where
  pub is_set : Bool
  pub is_valid : Bool
  pub sp : ℕ

-- What find_range_local_ranks writes, and the entries from `cur_idx` on.
pub record Range : Type 0 where
  pub range_start : ℕ
  pub num : ℕ
  pub cur_idx : ℕ
  pub rest : List RankEntry

-- The variables `found_begining` and `*range_start` are one option.
abbrev pub finish : Option ℕ → ℕ → ℕ → List RankEntry → Option Range
finish found count idx rest = elim found [
  | none ↦ none
  | some start ↦ some (record { range_start = start; num = count; cur_idx = idx; rest = rest })
]

-- The condition of the loop does not hold.
abbrev pub is_full : Option ℕ → ℕ → ℕ → Bool
is_full found sent total = elim found [ none ↦ false | some start ↦ sent == total ]

abbrev pub begins : ℕ → Option ℕ → RankEntry → ℕ → Option ℕ
begins local_id found e idx = elim found [
  | none ↦ if e.sp == local_id then some idx else none
  | some start ↦ some start
]

abbrev pub breaks : Option ℕ → RankEntry → ℕ → Bool
breaks found e idx = elim found [ none ↦ false | some start ↦ ltb start idx && e.is_valid ]

abbrev pub count_one : ℕ → Option ℕ → RankEntry → ℕ → ℕ
count_one local_id found e count = elim found [
  | none ↦ count
  | some start ↦ if e.sp == local_id then count + 1 else count
]

-- The loop of find_range_local_ranks over the entries from `idx` on.
unfoldable pub find_range : ℕ → ℕ → ℕ → Option ℕ → ℕ → List RankEntry → ℕ → Option Range
find_range local_id total cur found count [] idx =
    if is_full found (cur + count) total then finish found count idx [] else none
find_range local_id total cur found count (e ∷ es) idx = elim (is_full found (cur + count) total) [
  | true ↦ finish found count idx (e ∷ es)
  | false ↦ elim e.is_set [
    | false ↦ find_range local_id total cur found count es (idx + 1)
    | true ↦ elim (breaks (begins local_id found e idx) e idx) [
      | true ↦ finish (begins local_id found e idx) count idx (e ∷ es)
      | false ↦
          find_range local_id total cur (begins local_id found e idx)
            (count_one local_id (begins local_id found e idx) e count) es (idx + 1)
    ]
  ]
]

-- find_range_local_ranks
abbrev pub find_range_local_ranks : ℕ → ℕ → ℕ → List RankEntry → ℕ → Option Range
find_range_local_ranks local_id total cur es idx = find_range local_id total cur none 0 es idx

-- The loop of send_local_rank_group_cache, on fuel: the first rank and the number of entries of each
-- message. `none`: a range is not found, or the fuel is used up.
unfoldable pub send_local_ranks : ℕ → ℕ → ℕ → ℕ → List RankEntry → ℕ → Option (List (ℕ × ℕ))
send_local_ranks local_id total zero count es idx = if ltb count total then none else some []
send_local_ranks local_id total (suc fuel) count es idx = elim (ltb count total) [
  | false ↦ some []
  | true ↦ bind (find_range_local_ranks local_id total count es idx) λ r.
      bind (send_local_ranks local_id total fuel (count + r.num) r.rest r.cur_idx)
        λ sent. some ((r.range_start, r.num) ∷ sent)
]
