-- ===== src/Group/Tables.antt =====
-- The lookup tables of a group (src/dpu_offload_group_cache.c): `populate_sp_ranks`,
-- `populate_host_sps` and `do_populate_group_cache_lookup_table`. A table of pointers is the list of
-- the indices or keys of what it points to. Each loop walks a bitset from its first bit until it has
-- met as many set bits as the counter says; beyond the bitset the read faults, so that the number of
-- bits in it is enough fuel.
pub mod Walk
pub mod Lids
pub mod Entries
pub mod Populated
use dpu_offload_service.Prelude.{
  ℕ, zero, suc, ◌+◌, Bool, true, false, not, Option, none, some, List, [], ◌∷◌, ◌==◌, if◌then◌else◌,
  get_elem?,
}
use dpu_offload_service.Prelude.Result.{Result, bind, assert, need, ok}
use dpu_offload_service.Bitset.{Bitset, test}
use dpu_offload_service.Bitset.Laws.{room}
use dpu_offload_service.Hash.{Hash, lookup, put, size}
use dpu_offload_service.Group.{SpData, HostData, Topology}

-- `while (n < need) { if (TEST(b, i)) { table[n] = element(n, i); n++; } i++; }`: the elements that
-- are still to be stored.
unfoldable pub collect : (ℕ → ℕ → ℕ) → Bitset → ℕ → ℕ → ℕ → ℕ → Option (List ℕ)
collect element b fuel zero n i = some []
collect element b zero (suc left) n i = none
collect element b (suc fuel) (suc left) n i = bind (test b i) (λ marked. elim marked [
  | true ↦ bind (collect element b fuel left (n + 1) (i + 1)) (λ rest. some (element n i ∷ rest))
  | false ↦ collect element b fuel (suc left) n (i + 1)
])

-- The loop of `populate_host_sps`, which also numbers the service processes that it meets.
unfoldable pub number_sps : Bitset → ℕ → ℕ → ℕ → ℕ → Hash SpData → Option (Hash SpData × List ℕ)
number_sps b fuel zero n i sps = some (sps, [])
number_sps b zero (suc left) n i sps = none
number_sps b (suc fuel) (suc left) n i sps = bind (test b i) (λ marked. elim marked [
  | true ↦ bind (lookup i sps) λ d.
      bind (number_sps b fuel left (n + 1) (i + 1) (put i (record d { lid = n }) sps))
        λ r. some (r.0, i ∷ r.1)
  | false ↦ number_sps b fuel (suc left) n (i + 1) sps
])

-- populate_sp_ranks
unfoldable pub populate_sp_ranks : SpData → Option SpData
populate_sp_ranks d = assert (not (d.n_ranks == 0)) (
    bind (collect (λ n i. i) d.ranks_bitset (room d.ranks_bitset) d.n_ranks 0 0)
      (λ l. some (record d { ranks = some l })))

-- populate_host_sps
unfoldable pub populate_host_sps : Hash SpData → HostData → Option (Hash SpData × HostData)
unfolding number_sps
populate_host_sps sps d = assert (not (d.num_sps == 0)) (
    bind (number_sps d.sps_bitset (room d.sps_bitset) d.num_sps 0 0 sps)
      (λ r. some (r.0, record d { sps = some r.1 })))

-- `kh_foreach` over the service processes.
unfoldable pub walk_sps : Hash SpData → Option (Hash SpData)
unfolding populate_sp_ranks
walk_sps [] = some []
walk_sps ((k, d) ∷ m) =
    bind (populate_sp_ranks d) (λ d'. bind (walk_sps m) (λ m'. some ((k, d') ∷ m')))

-- `kh_foreach` over the hosts.
unfoldable pub walk_hosts : Hash HostData → Hash SpData → Option (Hash SpData × Hash HostData)
unfolding populate_host_sps
walk_hosts [] sps = some (sps, [])
walk_hosts ((k, d) ∷ m) sps =
    bind (populate_host_sps sps d) λ r. bind (walk_hosts m r.0) λ q. some (q.0, (k, r.1) ∷ q.1)

-- What `do_populate_group_cache_lookup_table` does if the tables are not there yet. The element that is
-- stored for the `n`-th service process is the `n`-th one of the engine's list, not the `i`-th one.
unfoldable pub populate_all : Topology → Option Topology
unfolding collect walk_sps walk_hosts
populate_all t = assert (not (t.n_sps == 0)) (
    bind t.sps_bitset λ sps_bits.
      bind (collect (λ n i. n) sps_bits (room sps_bits) t.n_sps 0 0) λ sps.
        assert (size t.sps_hash == t.n_sps) (
          bind (walk_sps t.sps_hash) λ sps_hash'. assert (not (t.n_hosts == 0)) (
            bind t.hosts_bitset λ host_bits.
              bind (collect (λ n i. i) host_bits (room host_bits) t.n_hosts 0 0) λ hosts.
                bind (walk_hosts t.hosts_hash sps_hash') λ r. some (record t {
                  sps = some sps;
                  hosts = some hosts;
                  sps_hash = r.0;
                  hosts_hash = r.1;
                  lookup_tables_populated = true;
                }))))

-- do_populate_group_cache_lookup_table, which returns DO_SUCCESS wherever it returns.
unfoldable pub do_populate_group_cache_lookup_table : Topology → Option Topology
unfolding populate_all
do_populate_group_cache_lookup_table t =
    if t.lookup_tables_populated then some t else populate_all t

-- The call with which a query starts: the tables that it reads.
unfoldable pub prepare : Topology → Result Topology
prepare t =
    if t.lookup_tables_populated then ok t else need (do_populate_group_cache_lookup_table t)
