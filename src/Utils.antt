-- ===== src/Utils.antt =====
-- Small decisions of src/dpu_offload_utils.c and src/dpu_offload_event_channels.c.
pub mod Laws
pub mod Ranges
pub mod Pack
use dpu_offload_service.Prelude.Result.{Result, ok, check}
use dpu_offload_service.Prelude.{
  ℕ, zero, suc, ◌+◌, ◌-◌, ◌*◌, ◌/◌, Bool, true, false, not, ◌&&◌, ◌||◌, ◌==◌, ltb, if◌then◌else◌,
}

-- get_num_connecting_ranks: how many of the local ranks connect to the service process `sp_lid` of the
-- DPU. The numbers are those of the configuration, and the subtraction does not wrap.
unfoldable pub get_num_connecting_ranks : ℕ → ℕ → ℕ → ℕ
get_num_connecting_ranks num_service_procs_per_dpu n_local_ranks sp_lid =
    let base = n_local_ranks / num_service_procs_per_dpu in
    let rest = n_local_ranks - num_service_procs_per_dpu * base in
    if ltb sp_lid rest then base + 1 else base

-- is_group_ready: `num` is `persistent.num`, `entries` is `num_local_entries` and `populated` is
-- `n_local_ranks_populated`.
unfoldable pub is_group_ready : ℕ → ℕ → ℕ → ℕ → Result Bool
is_group_ready num entries populated recvd_seq_num =
    if num == 0
    then check ((recvd_seq_num == 0) || (populated == 0)) (ok true)
    else ok (not (((num == recvd_seq_num + 1) && (entries == 0)) || not (num == recvd_seq_num)))
