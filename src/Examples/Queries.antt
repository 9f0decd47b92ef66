-- ===== src/Examples/Queries.antt =====
-- The theorems on the queries, on the group of four ranks.
use dpu_offload_service.Prelude.{
  ℕ, ◌≡◌, refl, not, ◌||◌, some, [], ◌∷◌, arith, get_elem?, if◌then◌else◌, ltb,
}
use dpu_offload_service.Prelude.Count.{count}
use dpu_offload_service.Prelude.Result.{ok, err, fault}
use dpu_offload_service.Size.{uint64_max}
use dpu_offload_service.Bitset.Laws.{has}
use dpu_offload_service.Hash.{lookup}
use dpu_offload_service.Group.{GroupCache}
use dpu_offload_service.Group.Tables.Entries.{marked_in}
use dpu_offload_service.Group.Query.{
  get_num_ranks_for_group_sp, get_rank_idx_by_group_host_idx, get_local_sp_id_by_group,
  get_sp_group_gid,
}
use dpu_offload_service.Group.Query.Hosts.{
  get_rank_idx_by_group_host_idx-count, get_rank_idx_by_group_host_idx-place,
}
use dpu_offload_service.Group.Query.Sps.{
  ranks_or_fault, get_num_ranks_for_group_sp-nth, get_sp_group_gid-count,
}
use dpu_offload_service.Group.Query.LocalIds.{
  get_local_sp_id_by_group-place, get_local_sp_id_by_group-out,
}
use dpu_offload_service.Examples.Data.{
  engine1, host42, topology1, topology1-IsReady, host42-IsHostAt, topology1-IsApart, peer1, unset,
  group_of,
}

get_rank_idx_by_group_host_idx-count_example :
    get_rank_idx_by_group_host_idx engine1 4 topology1 0 3
    ≡ (if has (2 ∷ []) 3 then ok (count (has (2 ∷ [])) 3) else err (some uint64_max))
get_rank_idx_by_group_host_idx-count_example =
    get_rank_idx_by_group_host_idx-count engine1 4 topology1 0 42 host42 topology1-IsReady
      host42-IsHostAt 3 (omega arith) (omega arith)

get_rank_idx_by_group_host_idx-place_example :
    (idx : ℕ) × (get_rank_idx_by_group_host_idx engine1 4 topology1 0 1 ≡ ok idx)
    × (get_elem? (marked_in (2 ∷ [])) idx ≡ some 1)
unfolding has
get_rank_idx_by_group_host_idx-place_example =
    get_rank_idx_by_group_host_idx-place engine1 4 topology1 0 42 host42 topology1-IsReady
      host42-IsHostAt 1 (omega arith) (omega arith) refl

get_num_ranks_for_group_sp-nth_example :
    get_num_ranks_for_group_sp engine1 topology1 0 ≡ ranks_or_fault (lookup 0 topology1.sps_hash)
get_num_ranks_for_group_sp-nth_example =
    get_num_ranks_for_group_sp-nth engine1 4 topology1 topology1-IsReady 0 0 (omega arith) refl

abbrev complete_group : GroupCache
complete_group = group_of 4 (unset ∷ peer1 ∷ unset ∷ unset ∷ []) topology1

get_sp_group_gid-count_example : get_sp_group_gid engine1 complete_group 0 ≡ (
    if ltb 1 0 || not (has (1 ∷ []) 0) then err (some uint64_max) else ok (count (has (1 ∷ [])) 0))
get_sp_group_gid-count_example =
    get_sp_group_gid-count engine1 4 topology1 topology1-IsReady complete_group (1 ∷ []) 0 refl refl
      refl refl (omega arith) (omega arith)

get_local_sp_id_by_group-place_example :
    get_local_sp_id_by_group engine1 topology1 (count (has (1 ∷ [])) 0)
    ≡ ok (count (has (1 ∷ [])) 0)
unfolding has
get_local_sp_id_by_group-place_example =
    get_local_sp_id_by_group-place engine1 4 topology1 0 42 host42 topology1-IsReady host42-IsHostAt
      (1 ∷ []) 0 refl topology1-IsApart refl refl (omega arith) (omega arith)

get_local_sp_id_by_group-out_example : get_local_sp_id_by_group engine1 topology1 1 ≡ fault
unfolding lookup
get_local_sp_id_by_group-out_example =
    get_local_sp_id_by_group-out engine1 4 topology1 topology1-IsReady (1 ∷ []) refl (omega arith)
      refl
