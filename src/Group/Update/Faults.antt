-- ===== src/Group/Update/Faults.antt =====
-- `update_topology_data` outside of its intended inputs: a large global SP id, and a rank with a second
-- service process.
use dpu_offload_service.Prelude.{ℕ, ◌+◌, ◌≤◌, ◌<◌, ◌≡◌, true, false, none, some, arith}
use dpu_offload_service.Bitset.Laws.{has, room, set_bit-Wrote, set_bit-past, create-Fresh}
use dpu_offload_service.Hash.{lookup, put, lookup-put}
use dpu_offload_service.Group.{HostData, Topology, Engine}
use dpu_offload_service.Group.Update.{
  no_topology, new_sp, add_sp, known_host, add_host, update_topology_data,
}
use dpu_offload_service.Group.Update.Invariant.{
  popcount, on_sp, IsGroupBitset, HostCounts, IsConfig, HostsAgree,
}
use dpu_offload_service.Group.Update.Sps.{add_sp-SpStep, popcount-again}
use dpu_offload_service.Group.Update.Hosts.{mark_sp-HostCounts}
use dpu_offload_service.Group.Update.Step.{IsConsistent, SpStep-HostsAgree}

module _ (engine : Engine) (gp_uid gs : ℕ) (r g h : ℕ) where
  -- The first entry of a group of `gs` ranks, by an SP whose global id is at least `gs + 8`, writes
  -- out of the group's SP bitset, whatever the configuration says.
  pub update_topology_data-past :
      0 < gs → gs + 8 ≤ g → update_topology_data engine gp_uid gs no_topology r g h ≡ none
  unfolding update_topology_data add_sp new_sp lookup
  update_topology_data-past pos past =
      let (b, e, f) = create-Fresh gs pos in rw (e, set_bit-past b g (omega (arith, f.tight)))

module _ (engine : Engine) (gp_uid gs : ℕ) (config : IsConfig engine) (r g h : ℕ) where
  overcount :
      (t : Topology) (d : HostData)
      → HostCounts gs h d
      → r < gs
      → g < gs
      → HostsAgree engine gs t
      → lookup h t.hosts_hash ≡ some d
      → has d.ranks_bitset r ≡ true
      → (t' : Topology) × (d' : HostData) × (add_host engine gp_uid gs t r g h ≡ some t')
        × (lookup h t'.hosts_hash ≡ some d')
        × (d'.num_ranks ≡ popcount d'.ranks_bitset + 1)
  unfolding add_host known_host
  overcount t d c r_in g_in a present already =
      let (d', e1, ok1, count1, bits1, same_ranks, n_ranks, same_uid, more) =
        mark_sp-HostCounts engine gp_uid gs t r g h config a r_in g_in
          (record d { num_ranks = d.num_ranks + 1 }) c.sps_ok c.num_sps_eq in
      let ranks_ok' : IsGroupBitset gs d'.ranks_bitset = rw same_ranks c.ranks_ok in
      let inside : r < room d'.ranks_bitset = omega (arith, ranks_ok'.roomy) in
      let (ranks', e2, w2) = set_bit-Wrote d'.ranks_bitset r ranks_ok'.bytes inside in
      let already' : has d'.ranks_bitset r ≡ true = rw same_ranks already in
      let count2 = popcount-again ranks_ok' inside w2 already' in
      let same_pop : popcount d'.ranks_bitset ≡ popcount d.ranks_bitset = rw same_ranks in
      let d'' : HostData = record d' { ranks_bitset = ranks' } in
      (
        record t { hosts_hash = put h d'' t.hosts_hash },
        d'',
        rw (present, add_host) (rw (e1, e2)),
        rw (lookup-put h h d'' t.hosts_hash) (ground arith),
        omega (arith, count2, n_ranks, same_pop, c.num_ranks_eq),
      )

  -- On a consistent topology, a rank of the group that is on the host already and is now attached to
  -- another SP with a global id below the group's size is counted again: the entry
  -- of the host then claims one rank more than its bitset marks.
  pub update_topology_data-overcounts :
      (t : Topology)
      → IsConsistent engine gs t
      → r < gs
      → g < gs
      → on_sp t g r ≡ false
      → (d : HostData) → lookup h t.hosts_hash ≡ some d
      → has d.ranks_bitset r ≡ true
      → (t' : Topology) × (d' : HostData) × (update_topology_data engine gp_uid gs t r g h
          ≡ some t')
        × (lookup h t'.hosts_hash ≡ some d')
        × (d'.num_ranks ≡ popcount d'.ranks_bitset + 1)
  unfolding update_topology_data
  update_topology_data-overcounts t c r_in g_in apart d present already =
      let (t1, e1, s1) = add_sp-SpStep engine gp_uid gs t r g h c.sps_agree r_in g_in apart in
      let agree = SpStep-HostsAgree engine gs t r g c.hosts_agree t1 s1 in
      let (t2, d', e2, found, over) =
        overcount t1 d (c.hosts_agree.entries h d present) r_in g_in agree
          (rw s1.same_hosts present) already in
      (t2, d', rw (e1, e2), found, over)
