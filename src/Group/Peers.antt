-- ===== src/Group/Peers.antt =====
-- The queries on the array of ranks of a group (src/dpu_offload_group_cache.c). A dynamic array that a
-- query fills is the list of what it stores, in order; it grows as needed.
pub mod Laws
use dpu_offload_service.Prelude.{
  ℕ, zero, suc, ◌+◌, Bool, true, false, not, Option, none, some, List, [], ◌∷◌, ◌++◌, ◌==◌,
  if◌then◌else◌, get_elem?,
}
use dpu_offload_service.Prelude.Result.{Result, ◌>>=◌, need, check, ok, err, fault}
use dpu_offload_service.Size.{uint64_max}
use dpu_offload_service.Bitset.{test}
use dpu_offload_service.Hash.{Hash, lookup}
use dpu_offload_service.Group.{SpData, Topology, Engine, Peer, GroupCache}
use dpu_offload_service.Group.Tables.{prepare}

-- The loop of `get_group_ranks_on_host`.
unfoldable pub ranks_on_host : List Peer → ℕ → ℕ → ℕ → Result (List ℕ)
ranks_on_host peers host_id zero i = ok []
ranks_on_host peers host_id (suc left) i =
    let rest = ranks_on_host peers host_id left (i + 1) in
    need (get_elem? peers i) >>= λ peer.
    rest >>= λ found. ok (if peer.host_info == host_id then i ∷ found else found)

unfoldable pub get_group_ranks_on_host : GroupCache → ℕ → Result (List ℕ)
unfolding ranks_on_host
get_group_ranks_on_host gp host_id =
    prepare gp.topology >>= λ t. ranks_on_host gp.ranks host_id gp.group_size 0

-- The loops of `get_group_local_sps`.
unfoldable pub local_sps : List Peer → ℕ → ℕ → ℕ → Result (List ℕ)
local_sps peers host_id zero i = ok []
local_sps peers host_id (suc left) i =
    let rest = local_sps peers host_id left (i + 1) in
    need (get_elem? peers i) >>= λ peer. rest >>= λ found.
    ok (if peer.host_info == host_id then peer.shadow_service_procs ++ found else found)

unfoldable pub get_group_local_sps : Engine → GroupCache → Result (List ℕ)
unfolding local_sps
get_group_local_sps engine gp =
    if not engine.on_dpu
    then ok []
    else check (not (engine.host_id == uint64_max))
        (prepare gp.topology >>= λ t. local_sps gp.ranks engine.host_id gp.group_size 0)

-- get_group_rank_host, with `is_in_cache`.
unfoldable pub get_group_rank_host : GroupCache → ℕ → Result ℕ
get_group_rank_host gp rank = need (get_elem? gp.ranks rank) >>= λ peer.
    if peer.is_set then ok peer.host_info else err (some uint64_max)

unfoldable pub get_group_rank_sps : GroupCache → ℕ → Result (Option (List ℕ) × ℕ)
unfolding get_group_rank_host
get_group_rank_sps gp rank = prepare gp.topology >>= λ t. get_group_rank_host gp rank >>= λ host_id.
    need (lookup host_id t.hosts_hash) >>= λ host_info. ok (host_info.sps, host_info.num_sps)

-- An error is the answer `false`.
abbrev pub or_false : Result ℕ → (ℕ → Result Bool) → Result Bool
or_false (ok h) f = f h
or_false (err e) f = ok false
or_false fault f = fault

unfoldable pub on_same_host : GroupCache → ℕ → ℕ → Result Bool
unfolding get_group_rank_host
on_same_host gp rank1 rank2 =
    or_false (get_group_rank_host gp rank1)
      λ host1. or_false (get_group_rank_host gp rank2) λ host2. ok (host1 == host2)

-- The loop of `on_same_sp`.
unfoldable pub shares_sp : Hash SpData → ℕ → List ℕ → Result Bool
shares_sp sps rank2 [] = ok false
shares_sp sps rank2 (g ∷ gs) =
    let rest = shares_sp sps rank2 gs in
    need (lookup g sps) >>= λ d.
    need (test d.ranks_bitset rank2) >>= λ marked. if marked then ok true else rest

unfoldable pub on_same_sp : GroupCache → ℕ → ℕ → Result Bool
unfolding shares_sp
on_same_sp gp rank1 rank2 = prepare gp.topology >>= λ t.
    need (get_elem? gp.ranks rank1) >>= λ peer. shares_sp t.sps_hash rank2 peer.shadow_service_procs
