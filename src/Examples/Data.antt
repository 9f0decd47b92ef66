-- ===== src/Examples/Data.antt =====
-- A configuration with one host and two service processes, and a group of four ranks in which rank 1
-- was attached to service process 0 on that host.
use dpu_offload_service.Prelude.{
  ℕ, ◌≡◌, refl, sym, ◌∙◌, true, false, none, some, List, [], ◌∷◌, arith,
}
use dpu_offload_service.Prelude.Count.{bits_from}
use dpu_offload_service.Size.{uint64_max}
use dpu_offload_service.Bitset.{create, set_bit}
use dpu_offload_service.Bitset.Laws.{has}
use dpu_offload_service.Hash.{lookup, put}
use dpu_offload_service.Group.{SpData, HostData, Topology, Engine, Peer, GroupCache}
use dpu_offload_service.Group.Update.{no_topology, update_topology_data}
use dpu_offload_service.Group.Update.Invariant.{IsConfig}
use dpu_offload_service.Group.Update.Step.{
  IsConsistent, no_topology-IsConsistent, update_topology_data-Attached,
}
use dpu_offload_service.Group.Tables.Entries.{IsApart}
use dpu_offload_service.Group.Query.Hosts.{IsReady, IsHostAt}

abbrev pub engine1 : Engine
engine1 = record {
  on_dpu = true;
  num_service_procs = 2;
  sp_gids = 0 ∷ 1 ∷ [];
  num_hosts = 1;
  host_uids = 42 ∷ [];
  host_lookup_table = (42, 0) ∷ [];
  local_global_id = 0;
  local_host_uid = 42;
  host_id = 42;
}

pub engine1-IsConfig : IsConfig engine1
unfolding lookup
engine1-IsConfig = record {
  in_range = λ h i e. ground arith;
  injective = λ h j i p q. ground arith;
}

abbrev pub sp0 : SpData
sp0 = record {
  n_ranks = 1;
  gid = 0;
  lid = uint64_max;
  host_uid = 42;
  gp_uid = 7;
  ranks_bitset = 2 ∷ [];
  ranks = none;
}

abbrev pub host42 : HostData
host42 = record {
  config_idx = 0;
  uid = 42;
  num_sps = 1;
  num_ranks = 1;
  sps_bitset = 1 ∷ [];
  sps = none;
  ranks_bitset = 2 ∷ [];
}

abbrev pub topology1 : Topology
topology1 = record {
  sps_hash = (0, sp0) ∷ [];
  sps_bitset = some (1 ∷ []);
  sps = none;
  n_sps = 1;
  hosts_hash = (42, host42) ∷ [];
  hosts_bitset = some (1 ∷ []);
  hosts = none;
  n_hosts = 1;
  lookup_tables_populated = false;
}

pub topology1-made : update_topology_data engine1 7 4 no_topology 1 0 42 ≡ some topology1
unfolding update_topology_data lookup create set_bit put
topology1-made = refl

pub topology1-IsConsistent : IsConsistent engine1 4 topology1
unfolding lookup
topology1-IsConsistent =
    let (t, e, c, a) =
      update_topology_data-Attached engine1 7 4 engine1-IsConfig no_topology 1 0 42 0
        (no_topology-IsConsistent engine1 4) (omega arith) (omega arith) refl refl refl in
    let q : some t ≡ some topology1 = sym e ∙ topology1-made in
    let q' : t ≡ topology1 = cc in rw (← q') c

pub topology1-IsReady : IsReady engine1 4 topology1
topology1-IsReady = record {
  consistent = topology1-IsConsistent;
  fresh = refl;
  some_sp = omega arith;
  some_host = omega arith;
}

pub host42-IsHostAt : IsHostAt engine1 topology1 0 42 host42
unfolding lookup bits_from has
host42-IsHostAt = record {
  hosts = 1 ∷ [];
  hosts_eq = refl;
  config_index = 0;
  listed = refl;
  uid_eq = refl;
  entry = refl;
}

pub topology1-IsApart : IsApart topology1.hosts_hash
unfolding lookup
topology1-IsApart h j k d e p q on on' = ground arith

abbrev pub peer1 : Peer
peer1 = record {
  is_set = true;
  group_rank = 1;
  group_seq_num = 1;
  host_info = 42;
  shadow_service_procs = 0 ∷ [];
}

abbrev pub unset : Peer
unset = record {
  is_set = false;
  group_rank = 0;
  group_seq_num = 0;
  host_info = 0;
  shadow_service_procs = [];
}

-- The group with the topology above; `num_local_entries` is a parameter, so that a complete group can
-- be made of it.
abbrev pub group_of : ℕ → List Peer → Topology → GroupCache
group_of entries ranks t = record {
  group_uid = 7;
  group_size = 4;
  num = 1;
  n_local_ranks = 1;
  num_local_entries = entries;
  global_revokes = 0;
  ranks = ranks;
  topology = t;
}

abbrev pub group1 : GroupCache
group1 = group_of 1 (unset ∷ peer1 ∷ unset ∷ unset ∷ []) topology1
