-- ===== src/Group/Update/Invariant.antt =====
-- What a topology shows, and when its counters and bitsets agree.
use dpu_offload_service.Prelude.{ℕ, ◌≤◌, ◌<◌, ◌≡◌, Bool, true, false, Option, none, some}
use dpu_offload_service.Prelude.Count.{count}
use dpu_offload_service.Bitset.{Bitset}
use dpu_offload_service.Bitset.Laws.{IsBytes, has, room}
use dpu_offload_service.Hash.{lookup, Distinct, size}
use dpu_offload_service.Group.{SpData, HostData, Topology, Engine}

-- How many bits are set.
abbrev pub popcount : Bitset → ℕ
popcount b = count (has b) (room b)

-- A bitset that may not be there yet.
abbrev pub bit : Option Bitset → ℕ → Bool
bit none i = false
bit (some b) i = has b i

abbrev pub is_some : {V : Type 0} → Option V → Bool
is_some none = false
is_some (some v) = true

abbrev pub rank_on_sp : Option SpData → ℕ → Bool
rank_on_sp none r = false
rank_on_sp (some d) r = has d.ranks_bitset r

abbrev pub rank_on_host : Option HostData → ℕ → Bool
rank_on_host none r = false
rank_on_host (some d) r = has d.ranks_bitset r

abbrev pub sp_on_host : Option HostData → ℕ → Bool
sp_on_host none g = false
sp_on_host (some d) g = has d.sps_bitset g

-- Is rank `r` attached to SP `g`; does it run on host `h`; is SP `g` used on host `h`.
abbrev pub on_sp : Topology → ℕ → ℕ → Bool
on_sp t g r = rank_on_sp (lookup g t.sps_hash) r

abbrev pub on_host : Topology → ℕ → ℕ → Bool
on_host t h r = rank_on_host (lookup h t.hosts_hash) r

abbrev pub uses_sp : Topology → ℕ → ℕ → Bool
uses_sp t h g = sp_on_host (lookup h t.hosts_hash) g

-- A bitset of the group: bytes, and room for every rank.
pub record IsGroupBitset (group_size : ℕ) (b : Bitset) : Type 0 where
  pub bytes : IsBytes b
  pub roomy : group_size ≤ room b

-- The entry of a service process counts the ranks that its bitset marks.
pub record SpCounts (group_size : ℕ) (g : ℕ) (d : SpData) : Type 0 where
  pub ranks_ok : IsGroupBitset group_size d.ranks_bitset
  pub n_ranks_eq : d.n_ranks ≡ popcount d.ranks_bitset
  pub gid_eq : d.gid ≡ g
  pub used : 0 < d.n_ranks

-- The entry of a host counts the ranks and the service processes that its bitsets mark.
pub record HostCounts (group_size : ℕ) (h : ℕ) (d : HostData) : Type 0 where
  pub ranks_ok : IsGroupBitset group_size d.ranks_bitset
  pub sps_ok : IsGroupBitset group_size d.sps_bitset
  pub num_ranks_eq : d.num_ranks ≡ popcount d.ranks_bitset
  pub num_sps_eq : d.num_sps ≡ popcount d.sps_bitset
  pub uid_eq : d.uid ≡ h
  pub used : 0 < d.num_sps

-- An optional bitset with room for `size`, and the counter beside it.
abbrev pub Counted : ℕ → Option Bitset → ℕ → Type 0
Counted size none n = n ≡ 0
Counted size (some b) n = IsGroupBitset size b × (n ≡ popcount b)

-- The half of the invariant on service processes.
pub record SpsAgree (group_size : ℕ) (t : Topology) : Type 0 where
  pub entries : (g : ℕ) (d : SpData) → lookup g t.sps_hash ≡ some d → SpCounts group_size g d
  pub counted : Counted group_size t.sps_bitset t.n_sps
  pub marks : (g : ℕ) → bit t.sps_bitset g ≡ is_some (lookup g t.sps_hash)
  pub tidy : Distinct t.sps_hash
  pub sized : size t.sps_hash ≡ t.n_sps

-- The half on hosts: a host of the configuration is marked exactly if it has an entry.
pub record HostsAgree (engine : Engine) (group_size : ℕ) (t : Topology) : Type 0 where
  pub entries : (h : ℕ) (d : HostData) → lookup h t.hosts_hash ≡ some d → HostCounts group_size h d
  pub counted : Counted engine.num_hosts t.hosts_bitset t.n_hosts
  pub marks :
      (h i : ℕ)
      → lookup h engine.host_lookup_table ≡ some i
      → bit t.hosts_bitset i ≡ is_some (lookup h t.hosts_hash)
  pub tidy : Distinct t.hosts_hash

-- What the configuration guarantees: an index in range, and another index for another host.
pub record IsConfig (engine : Engine) : Type 0 where
  pub in_range : (h i : ℕ) → lookup h engine.host_lookup_table ≡ some i → i < engine.num_hosts
  pub injective :
      (h j i : ℕ)
      → lookup h engine.host_lookup_table ≡ some i
      → lookup j engine.host_lookup_table ≡ some i
      → h ≡ j
