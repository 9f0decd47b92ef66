-- ===== src/Group.antt =====
-- The group cache: include/dpu_offload_types.h (`group_cache_t` and what it holds) and
-- src/dpu_offload_group_cache.c.
pub mod Update
pub mod Tables
pub mod Query
pub mod Peers
pub mod Receive
pub mod Revoke
pub mod Life
use dpu_offload_service.Prelude.{ℕ, Bool, Option, List}
use dpu_offload_service.Bitset.{Bitset}
use dpu_offload_service.Hash.{Hash}

-- `sp_cache_data_t`: a service process in a group. `ranks` points into the group's rank array, so it
-- is a list of indices; `none` where it was not populated yet.
pub record SpData : Type 0 where
  pub n_ranks : ℕ
  pub gid : ℕ
  pub lid : ℕ
  pub host_uid : ℕ
  pub gp_uid : ℕ
  pub ranks_bitset : Bitset
  pub ranks : Option (List ℕ)

-- `host_cache_data_t`: a host in a group. `sps` points to entries of the group's SP hash, so it is a
-- list of keys; `none` is NULL.
pub record HostData : Type 0 where
  pub config_idx : ℕ
  pub uid : ℕ
  pub num_sps : ℕ
  pub num_ranks : ℕ
  pub sps_bitset : Bitset
  pub sps : Option (List ℕ)
  pub ranks_bitset : Bitset

-- The fields of `group_cache_t` that hold the topology of a group. `sps` points into the engine's list
-- of service processes and `hosts` into the configuration's list of hosts: lists of indices.
pub record Topology : Type 0 where
  pub sps_hash : Hash SpData
  pub sps_bitset : Option Bitset
  pub sps : Option (List ℕ)
  pub n_sps : ℕ
  pub hosts_hash : Hash HostData
  pub hosts_bitset : Option Bitset
  pub hosts : Option (List ℕ)
  pub n_hosts : ℕ
  pub lookup_tables_populated : Bool

-- What the topology code reads of the engine and its configuration. `sp_gids` holds
-- `service_proc.global_id` for each element of the list of service processes, `host_uids` the `uid` of
-- each element of `hosts_config`, and `host_lookup_table` the index of a host in it.
pub record Engine : Type 0 where
  pub on_dpu : Bool
  pub num_service_procs : ℕ
  pub sp_gids : List ℕ
  pub num_hosts : ℕ
  pub host_uids : List ℕ
  pub host_lookup_table : Hash ℕ
  pub local_global_id : ℕ
  pub local_host_uid : ℕ
  pub host_id : ℕ

-- `peer_cache_entry_t`: what the queries read of a rank's entry. `shadow_service_procs` holds as many
-- ids as `num_shadow_service_procs` says.
pub record Peer : Type 0 where
  pub is_set : Bool
  pub group_rank : ℕ
  pub group_seq_num : ℕ
  pub host_info : ℕ
  pub shadow_service_procs : List ℕ

-- `group_cache_t`: a group's id, size and counters, its array of ranks, and its topology. `num` is
-- `persistent.num`, `global_revokes` is `revokes.global`.
pub record GroupCache : Type 0 where
  pub group_uid : ℕ
  pub group_size : ℕ
  pub num : ℕ
  pub n_local_ranks : ℕ
  pub num_local_entries : ℕ
  pub global_revokes : ℕ
  pub ranks : List Peer
  pub topology : Topology
