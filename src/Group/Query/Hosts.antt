-- ===== src/Group/Query/Hosts.antt =====
-- The queries that go by the index of a host, on a topology whose tables are not made yet.
use dpu_offload_service.Prelude.{
  ℕ, suc, ◌≤◌, ◌<◌, ◌≡◌, ◌^◌, sym, ◌∙◌, inl, inr, true, false, some, arith, if◌then◌else◌,
  Bool-cases, length, get_elem?, ap,
}
use native.Mathlib.Nat.{zero-add}
use dpu_offload_service.Prelude.Count.{
  count_from, count, count_from-last, get_elem?-bits_from, length-bits_from,
}
use dpu_offload_service.Prelude.Result.{ok, err}
use dpu_offload_service.Size.{uint64_max}
use dpu_offload_service.Bitset.{Bitset}
use dpu_offload_service.Bitset.Laws.{has, room, test-has}
use dpu_offload_service.Hash.{lookup}
use dpu_offload_service.Group.{HostData, Topology, Engine}
use dpu_offload_service.Group.Update.Invariant.{popcount}
use dpu_offload_service.Group.Update.Step.{IsConsistent}
use dpu_offload_service.Group.Tables.{prepare}
use dpu_offload_service.Group.Tables.Entries.{marked_in, with_sps}
use dpu_offload_service.Group.Tables.Populated.{Populated, do_populate-Populated}
use dpu_offload_service.Group.Query.{
  host_at, index_of_rank, get_num_sps_by_group_host_idx, get_num_ranks_for_group_host_idx,
  get_rank_idx_by_group_host_idx, get_all_sps_by_group_host_idx,
}
use dpu_offload_service.Group.Query.Ranks.{index_of_rank-count}

-- A consistent topology whose tables can be made, and are not there yet.
pub record IsReady (engine : Engine) (gs : ℕ) (t : Topology) : Type 0 where
  pub consistent : IsConsistent engine gs t
  pub fresh : t.lookup_tables_populated ≡ false
  pub some_sp : 0 < t.n_sps
  pub some_host : 0 < t.n_hosts

-- The host with entry `d` is the `host_idx`-th one, by configuration index, that is in the group.
pub record IsHostAt (engine : Engine) (t : Topology) (host_idx h : ℕ) (d : HostData) : Type 0 where
  pub hosts : Bitset
  pub hosts_eq : t.hosts_bitset ≡ some hosts
  pub config_index : ℕ
  pub listed : get_elem? (marked_in hosts) host_idx ≡ some config_index
  pub uid_eq : get_elem? engine.host_uids config_index ≡ some h
  pub entry : lookup h t.hosts_hash ≡ some d

pub prepare-Populated :
    (engine : Engine) (gs : ℕ) (t : Topology)
    → IsReady engine gs t
    → (t' : Topology) × (prepare t ≡ ok t') × Populated t t'
unfolding prepare
prepare-Populated engine gs t r =
    let (t', e, p) = do_populate-Populated engine gs t r.consistent r.fresh r.some_sp r.some_host in
    (t', rw (e, r.fresh), p)

module _ (engine : Engine) (gs : ℕ) (t : Topology) (host_idx h : ℕ) (d : HostData)
    (ready : IsReady engine gs t) (at_idx : IsHostAt engine t host_idx h d) where
  pub host_at-with_sps :
      (t' : Topology) → Populated t t' → host_at engine t' host_idx ≡ ok (with_sps d)
  unfolding host_at
  host_at-with_sps t' p = rw (
    p.hosts_eq at_idx.hosts at_idx.hosts_eq,
    at_idx.listed,
    at_idx.uid_eq,
    p.host_entries h,
    at_idx.entry,
  )

  -- For a host at an index, on a consistent topology whose tables are not made yet: the number of its
  -- ranks in the group is the number of ranks that its bitset marks.
  pub get_num_ranks_for_group_host_idx-popcount :
      get_num_ranks_for_group_host_idx engine t host_idx ≡ ok (popcount d.ranks_bitset)
  unfolding get_num_ranks_for_group_host_idx
  get_num_ranks_for_group_host_idx-popcount =
      let (t', e, p) = prepare-Populated engine gs t ready in
      let counts = ready.consistent.hosts_agree.entries h d at_idx.entry in
      rw (e, host_at-with_sps t' p) (ap ok counts.num_ranks_eq)

  -- For a host at an index, on a consistent topology whose tables are not made yet: the list of its
  -- service processes in the group is that of the bits set in its bitset, in increasing order,
  -- and the number that comes with it is the list's length; `get_num_sps_by_group_host_idx` gives it too.
  pub get_all_sps_by_group_host_idx-marked :
      (get_all_sps_by_group_host_idx engine t host_idx
        ≡ ok (some (marked_in d.sps_bitset), length (marked_in d.sps_bitset)))
      × (get_num_sps_by_group_host_idx engine t host_idx ≡ ok (length (marked_in d.sps_bitset)))
  unfolding get_all_sps_by_group_host_idx get_num_sps_by_group_host_idx
  get_all_sps_by_group_host_idx-marked =
      let (t', e, p) = prepare-Populated engine gs t ready in
      let counts = ready.consistent.hosts_agree.entries h d at_idx.entry in
      let n_eq : d.num_sps ≡ length (marked_in d.sps_bitset) =
        counts.num_sps_eq ∙ sym (length-bits_from (has d.sps_bitset) 0 (room d.sps_bitset)) in
      (rw (e, host_at-with_sps t' p, n_eq), rw (e, host_at-with_sps t' p) (ap ok n_eq))

  found_at :
      (b : Bitset) (rank : ℕ)
      → rank < gs
      → gs ≤ 2 ^ 31
      → gs ≤ room b
      → has b rank ≡ true
      → index_of_rank engine b rank gs 0 uint64_max ≡ ok (count (has b) rank)
  found_at b rank below small wide on =
      let walk =
        index_of_rank-count engine b rank gs 0 0 below (omega arith) (omega arith) (omega arith) in
      let up : count_from (has b) 0 (suc rank) ≡ suc (count (has b) rank) =
        count_from-last (has b) 0 rank (rw zero-add on) in
      rw (zero-add rank, zero-add (count_from (has b) 0 (suc rank)), up) at walk

  -- For a host at an index, on a consistent topology whose tables are not made yet: a rank below the
  -- group's size that is not on the host gets an error and UINT64_MAX; one that is gets the
  -- number of ranks below it on the host. The group's size is at most 2 ^ 31.
  pub get_rank_idx_by_group_host_idx-count :
      (rank : ℕ)
      → rank < gs
      → gs ≤ 2 ^ 31
      → get_rank_idx_by_group_host_idx engine gs t host_idx rank ≡ (
          if has d.ranks_bitset rank
          then ok (count (has d.ranks_bitset) rank)
          else err (some uint64_max))
  unfolding get_rank_idx_by_group_host_idx
  get_rank_idx_by_group_host_idx-count rank below small =
      let (t', e, p) = prepare-Populated engine gs t ready in
      let counts = ready.consistent.hosts_agree.entries h d at_idx.entry in
      let wide = counts.ranks_ok.roomy in
      let known = test-has d.ranks_bitset rank (omega (arith, wide)) in
      elim (Bool-cases (has d.ranks_bitset rank)) [
        | inr off ↦ rw (e, host_at-with_sps t' p, known, off)
        | inl on ↦
            rw (e, host_at-with_sps t' p, known, on)
              (found_at d.ranks_bitset rank below small wide on)
      ]

  -- For a host at an index, on a consistent topology whose tables are not made yet, in a group whose
  -- size is at most 2 ^ 31: what a rank on the host gets is its place in the ordered list of the host's
  -- ranks.
  pub get_rank_idx_by_group_host_idx-place :
      (rank : ℕ)
      → rank < gs
      → gs ≤ 2 ^ 31
      → has d.ranks_bitset rank ≡ true
      → (idx : ℕ) × (get_rank_idx_by_group_host_idx engine gs t host_idx rank ≡ ok idx)
        × (get_elem? (marked_in d.ranks_bitset) idx ≡ some rank)
  get_rank_idx_by_group_host_idx-place rank below small on =
      let counts = ready.consistent.hosts_agree.entries h d at_idx.entry in
      let wide = counts.ranks_ok.roomy in
      let place =
        get_elem?-bits_from (has d.ranks_bitset) 0 (room d.ranks_bitset) rank (omega (arith, wide))
          (rw zero-add on) in
      (
        count (has d.ranks_bitset) rank,
        get_rank_idx_by_group_host_idx-count rank below small ∙ rw on,
        rw zero-add at place,
      )
