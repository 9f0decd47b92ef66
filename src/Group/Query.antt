-- ===== src/Group/Query.antt =====
-- The queries on a group's lookup tables (src/dpu_offload_group_cache.c) that go by the index of a
-- host or of a service process. Each makes the tables first, if they are not there (`prepare`).
pub mod Ranks
pub mod Hosts
pub mod Sps
pub mod LocalIds
use dpu_offload_service.Prelude.{
  ℕ, zero, suc, ◌+◌, Bool, true, false, not, ◌&&◌, ◌||◌, Option, none, some, List, [], ◌∷◌, ◌==◌,
  ltb, leb, if◌then◌else◌, get_elem?,
}
use dpu_offload_service.Prelude.Result.{Result, ◌>>=◌, need, ok, err, fault}
use dpu_offload_service.Size.{uint64_max}
use dpu_offload_service.Bitset.{Bitset, test, test_int}
use dpu_offload_service.Hash.{lookup}
use dpu_offload_service.Group.{SpData, HostData, Topology, Engine, Peer, GroupCache}
use dpu_offload_service.Group.Tables.{prepare}

-- UINT32_MAX, which `get_rank_idx_by_group_sp_id` writes.
abbrev pub uint32_max : ℕ
uint32_max = 4294967295

module _ (engine : Engine) where
  -- MIMOSA_GET_HOST_FROM_GROUP_CACHE and GET_GROUP_HOST_HASH_ENTRY, with their asserts.
  unfoldable pub host_at : Topology → ℕ → Result HostData
  host_at t host_idx = need t.hosts >>= λ hosts. need (get_elem? hosts host_idx) >>= λ i.
      need (get_elem? engine.host_uids i) >>= λ uid. need (lookup uid t.hosts_hash)

  -- MIMOSA_GET_SP_FROM_GROUP_CACHE and GET_GROUP_SP_HASH_ENTRY, with their asserts.
  unfoldable pub sp_at : Topology → ℕ → Result SpData
  sp_at t sp_gp_gid = need t.sps >>= λ sps. need (get_elem? sps sp_gp_gid) >>= λ i.
      need (get_elem? engine.sp_gids i) >>= λ gid. need (lookup gid t.sps_hash)

  -- `host_data->sps[n]`
  unfoldable pub nth_sp : Topology → HostData → ℕ → Result SpData
  nth_sp t d n =
      need d.sps >>= λ sps. need (get_elem? sps n) >>= λ gid. need (lookup gid t.sps_hash)

  -- The loop of `get_global_sp_id_by_group`.
  unfoldable pub find_local_sp : List ℕ → ℕ → ℕ → Result ℕ
  find_local_sp sps zero i = err none
  find_local_sp sps (suc left) i =
      let rest = find_local_sp sps left (i + 1) in
      need (get_elem? sps i) >>= λ p. need (get_elem? engine.sp_gids p) >>= λ gid.
      if gid == engine.local_global_id then ok gid else rest

  -- get_global_sp_id_by_group, which reads the table as it is.
  unfoldable pub get_global_sp_id_by_group : Topology → Result ℕ
  unfolding find_local_sp
  get_global_sp_id_by_group t =
      if not engine.on_dpu
      then err none
      else if t.n_sps == 0
      then err none
      else (need t.sps >>= λ sps. find_local_sp sps t.n_sps 0)

  -- The loop of `get_host_idx_by_group`.
  unfoldable pub find_local_host : List ℕ → ℕ → ℕ → Result ℕ
  find_local_host hosts zero i = err none
  find_local_host hosts (suc left) i =
      let rest = find_local_host hosts left (i + 1) in
      need (get_elem? hosts i) >>= λ p. need (get_elem? engine.host_uids p) >>= λ uid.
      if uid == engine.local_host_uid then ok i else rest

  unfoldable pub get_host_idx_by_group : Topology → Result ℕ
  unfolding find_local_host
  get_host_idx_by_group t0 =
      prepare t0 >>= λ t. need t.hosts >>= λ hosts. find_local_host hosts t.n_hosts 0

  unfoldable pub get_num_sps_by_group_host_idx : Topology → ℕ → Result ℕ
  unfolding host_at
  get_num_sps_by_group_host_idx t0 host_idx =
      prepare t0 >>= λ t. host_at t host_idx >>= λ d. ok d.num_sps

  unfoldable pub get_num_ranks_for_group_sp : Topology → ℕ → Result ℕ
  unfolding sp_at
  get_num_ranks_for_group_sp t0 sp_gp_gid =
      prepare t0 >>= λ t. sp_at t sp_gp_gid >>= λ d. ok d.n_ranks

  unfoldable pub get_num_ranks_for_group_host_local_sp : Topology → ℕ → ℕ → Result ℕ
  unfolding host_at nth_sp
  get_num_ranks_for_group_host_local_sp t0 host_idx local_host_sp_id = prepare t0 >>= λ t.
      host_at t host_idx >>= λ d.
      if leb d.num_sps local_host_sp_id
      then err none
      else (nth_sp t d local_host_sp_id >>= λ s. ok s.n_ranks)

  unfoldable pub get_num_ranks_for_group_host_idx : Topology → ℕ → Result ℕ
  unfolding host_at
  get_num_ranks_for_group_host_idx t0 host_idx =
      prepare t0 >>= λ t. host_at t host_idx >>= λ d. ok d.num_ranks

  -- The loop of `get_rank_idx_by_group_host_idx`: `found` is `rank_index`, at first SIZE_MAX.
  unfoldable pub index_of_rank : Bitset → ℕ → ℕ → ℕ → ℕ → Result ℕ
  index_of_rank b rank zero i found = ok found
  index_of_rank b rank (suc left) i found = need (test_int b i) >>= λ marked.
      let found' = if marked then (if found == uint64_max then 0 else found + 1) else found in
      let rest = index_of_rank b rank left (i + 1) found' in if i == rank then ok found' else rest

  unfoldable pub get_rank_idx_by_group_host_idx : ℕ → Topology → ℕ → ℕ → Result ℕ
  unfolding host_at index_of_rank
  get_rank_idx_by_group_host_idx group_size t0 host_idx rank = prepare t0 >>= λ t.
      host_at t host_idx >>= λ d. need (test d.ranks_bitset rank) >>= λ marked.
      if not marked
      then err (some uint64_max)
      else index_of_rank d.ranks_bitset rank group_size 0 uint64_max

  -- The loop of `get_rank_idx_by_group_sp_id`.
  unfoldable pub find_rank : List Peer → List ℕ → ℕ → ℕ → ℕ → Result ℕ
  find_rank peers ranks rank zero i = err (some uint32_max)
  find_rank peers ranks rank (suc left) i =
      let rest = find_rank peers ranks rank left (i + 1) in
      need (get_elem? ranks i) >>= λ p.
      need (get_elem? peers p) >>= λ peer. if peer.group_rank == rank then ok i else rest

  unfoldable pub get_rank_idx_by_group_sp_id : List Peer → Topology → ℕ → ℕ → Result ℕ
  unfolding sp_at find_rank
  get_rank_idx_by_group_sp_id peers t0 sp_gp_gid rank = prepare t0 >>= λ t.
      sp_at t sp_gp_gid >>= λ d. need d.ranks >>= λ ranks. find_rank peers ranks rank d.n_ranks 0

  unfoldable pub get_all_sps_by_group_host_idx : Topology → ℕ → Result (Option (List ℕ) × ℕ)
  unfolding host_at
  get_all_sps_by_group_host_idx t0 host_idx =
      prepare t0 >>= λ t. host_at t host_idx >>= λ d. ok (d.sps, d.num_sps)

  unfoldable pub get_all_hosts_by_group : Topology → Result (Option (List ℕ) × ℕ)
  get_all_hosts_by_group t0 = prepare t0 >>= λ t. ok (t.hosts, t.n_hosts)

  unfoldable pub get_all_ranks_by_group_sp_gid : Topology → ℕ → Result (Option (List ℕ) × ℕ)
  unfolding sp_at
  get_all_ranks_by_group_sp_gid t0 sp_group_gid =
      prepare t0 >>= λ t. sp_at t sp_group_gid >>= λ d. ok (d.ranks, d.n_ranks)

  unfoldable pub get_all_ranks_by_group_sp_lid : Topology → ℕ → ℕ → Result (Option (List ℕ) × ℕ)
  unfolding host_at nth_sp
  get_all_ranks_by_group_sp_lid t0 host_idx sp_group_lid = prepare t0 >>= λ t.
      host_at t host_idx >>= λ d. nth_sp t d sp_group_lid >>= λ s. ok (s.ranks, s.n_ranks)

  unfoldable pub get_nth_sp_by_group_host_idx : Topology → ℕ → ℕ → Result ℕ
  unfolding host_at nth_sp
  get_nth_sp_by_group_host_idx t0 host_idx n = prepare t0 >>= λ t. host_at t host_idx >>= λ d.
      if leb d.num_sps n then err none else (nth_sp t d n >>= λ s. ok s.gid)

  -- The loop of `get_local_sp_id_by_group`: the index of the set bit with `sp_gp_guid` set ones before
  -- it, or the number of service processes.
  unfoldable pub find_nth : Bitset → ℕ → ℕ → ℕ → ℕ → Result ℕ
  find_nth b sp_gp_guid zero seen idx = ok idx
  find_nth b sp_gp_guid (suc left) seen idx = need (test b idx) >>= λ marked.
      if marked && (seen == sp_gp_guid)
      then ok idx
      else find_nth b sp_gp_guid left (if marked then seen + 1 else seen) (idx + 1)

  unfoldable pub get_local_sp_id_by_group : Topology → ℕ → Result ℕ
  unfolding find_nth
  get_local_sp_id_by_group t0 sp_gp_guid = prepare t0 >>= λ t.
      if ltb t.n_sps sp_gp_guid
      then err (some uint64_max)
      else (need t.sps_bitset >>= λ b. find_nth b sp_gp_guid engine.num_service_procs 0 0 >>= λ idx.
          need (lookup idx t.sps_hash) >>= λ d. ok d.lid)

  -- The loop of `get_sp_group_gid`.
  unfoldable pub count_sps : Bitset → ℕ → ℕ → ℕ → Result ℕ
  count_sps b zero idx seen = ok seen
  count_sps b (suc left) idx seen =
      need (test b idx) >>= λ marked. count_sps b left (idx + 1) (if marked then seen + 1 else seen)

  -- group_cache_populated
  abbrev pub group_cache_populated : GroupCache → Bool
  group_cache_populated gp = (gp.global_revokes == 0) && (gp.group_size == gp.num_local_entries)

  -- get_sp_group_gid, as built without NDEBUG.
  unfoldable pub get_sp_group_gid : GroupCache → ℕ → Result ℕ
  unfolding count_sps
  get_sp_group_gid gp sp_gid = prepare gp.topology >>= λ t.
      need_table t.sps (group_cache_populated gp) (
        need t.sps_bitset >>= λ b. need (test_int b sp_gid) >>= λ marked.
        if ltb t.n_sps sp_gid || not marked then err (some uint64_max) else count_sps b sp_gid 0 0)
    where
      need_table : Option (List ℕ) → Bool → Result ℕ → Result ℕ
      need_table none complete r = err none
      need_table (some sps) complete r = if complete then r else err none
