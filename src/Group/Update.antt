-- ===== src/Group/Update.antt =====
-- `update_topology_data`: a rank of a group is attached to a service process and to a host.
pub mod Invariant
pub mod Sps
pub mod Hosts
pub mod Step
pub mod Faults
use dpu_offload_service.Prelude.{
  ℕ, ◌+◌, Bool, true, false, not, Option, none, some, [], if◌then◌else◌,
}
use dpu_offload_service.Prelude.Result.{bind}
use dpu_offload_service.Size.{uint64_max}
use dpu_offload_service.Bitset.{Bitset, create, set_bit, test}
use dpu_offload_service.Hash.{lookup, put}
use dpu_offload_service.Group.{SpData, HostData, Topology, Engine}

-- BASIC_INIT_GROUP_CACHE, for these fields, and the empty hashes of INIT_GROUP_CACHE.
abbrev pub no_topology : Topology
no_topology = record {
  sps_hash = [];
  sps_bitset = none;
  sps = none;
  n_sps = 0;
  hosts_hash = [];
  hosts_bitset = none;
  hosts = none;
  n_hosts = 0;
  lookup_tables_populated = false;
}

-- The entry of a host with its first rank and SP: RESET_HOST_CACHE_DATA and what is set then.
abbrev pub first_sp : ℕ → ℕ → Bitset → Bitset → HostData
first_sp host_uid host_idx sps ranks = record {
  config_idx = host_idx;
  uid = host_uid;
  num_sps = 1;
  num_ranks = 1;
  sps_bitset = sps;
  sps = none;
  ranks_bitset = ranks;
}

-- The SP is marked on a known host, unless it is already.
unfoldable pub mark_sp : HostData → ℕ → Option HostData
mark_sp d sp_gid = bind (test d.sps_bitset sp_gid) λ known.
    if known
    then some d
    else bind (set_bit d.sps_bitset sp_gid)
        λ sps'. some (record d { num_sps = d.num_sps + 1; sps_bitset = sps' })

module _ (engine : Engine) (gp_uid group_size : ℕ) where
  -- The entry of a service process with its first rank: RESET_SP_CACHE_DATA and what is set then.
  abbrev pub first_rank : ℕ → ℕ → Bitset → SpData
  first_rank sp_gid host_uid ranks = record {
    n_ranks = 1;
    gid = sp_gid;
    lid = uint64_max;
    host_uid = host_uid;
    gp_uid = gp_uid;
    ranks_bitset = ranks;
    ranks = none;
  }

  -- The SP is not in the hash yet.
  unfoldable pub new_sp : Topology → ℕ → ℕ → ℕ → Option Topology
  new_sp t group_rank sp_gid host_uid = bind (create none group_size) λ ranks.
      bind (create t.sps_bitset group_size) λ sps. bind (set_bit sps sp_gid) λ sps'.
        bind (set_bit ranks group_rank) λ ranks'. some (record t {
          n_sps = t.n_sps + 1;
          sps_bitset = some sps';
          sps_hash = put sp_gid (first_rank sp_gid host_uid ranks') t.sps_hash;
        })

  -- The SP is already in the hash.
  unfoldable pub known_sp : Topology → ℕ → ℕ → SpData → Option Topology
  known_sp t group_rank sp_gid d = bind (set_bit d.ranks_bitset group_rank) λ ranks'.
      some (record t {
        sps_hash =
            put sp_gid (record d { n_ranks = d.n_ranks + 1; ranks_bitset = ranks' }) t.sps_hash;
      })

  -- The first half of the function.
  unfoldable pub add_sp : Topology → ℕ → ℕ → ℕ → Option Topology
  unfolding new_sp known_sp
  add_sp t group_rank sp_gid host_uid = elim (lookup sp_gid t.sps_hash) [
    | none ↦ new_sp t group_rank sp_gid host_uid
    | some d ↦ known_sp t group_rank sp_gid d
  ]

  -- The host is not in the hash yet; `LOOKUP_HOST_CONFIG_IDX` must know it.
  unfoldable pub new_host : Topology → ℕ → ℕ → ℕ → Option Topology
  new_host t group_rank sp_gid host_uid = bind (create none group_size) λ sps.
      bind (set_bit sps sp_gid) λ sps'. bind (create none group_size) λ ranks.
        bind (lookup host_uid engine.host_lookup_table) λ host_idx.
          bind (create t.hosts_bitset engine.num_hosts) λ hosts.
            bind (set_bit hosts host_idx) λ hosts'. bind (set_bit ranks group_rank) λ ranks'.
              some (record t {
                n_hosts = t.n_hosts + 1;
                hosts_bitset = some hosts';
                hosts_hash = put host_uid (first_sp host_uid host_idx sps' ranks') t.hosts_hash;
              })

  -- The host is already in the hash.
  unfoldable pub known_host : Topology → ℕ → ℕ → ℕ → HostData → Option Topology
  unfolding mark_sp
  known_host t group_rank sp_gid host_uid d =
      bind (mark_sp (record d { num_ranks = d.num_ranks + 1 }) sp_gid) λ d'.
        bind (set_bit d'.ranks_bitset group_rank) λ ranks'. some (record t {
          hosts_hash = put host_uid (record d' { ranks_bitset = ranks' }) t.hosts_hash;
        })

  -- The second half of the function.
  unfoldable pub add_host : Topology → ℕ → ℕ → ℕ → Option Topology
  unfolding new_host known_host
  add_host t group_rank sp_gid host_uid = elim (lookup host_uid t.hosts_hash) [
    | none ↦ new_host t group_rank sp_gid host_uid
    | some d ↦ known_host t group_rank sp_gid host_uid d
  ]

  -- `update_topology_data`, which returns DO_SUCCESS wherever it returns; `none` is a fault.
  unfoldable pub update_topology_data : Topology → ℕ → ℕ → ℕ → Option Topology
  unfolding add_sp add_host
  update_topology_data t group_rank sp_gid host_uid =
      bind (add_sp t group_rank sp_gid host_uid) λ t'. add_host t' group_rank sp_gid host_uid
