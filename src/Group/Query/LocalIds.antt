-- ===== src/Group/Query/LocalIds.antt =====
-- The local ids of service processes (`get_local_sp_id_by_group`).
use dpu_offload_service.Prelude.{
  ℕ, zero, suc, ◌+◌, ◌≤◌, ◌<◌, ◌≡◌, refl, inl, inr, true, false, Option, none, some, arith, ◌==◌,
  ltb, Bool-cases, ap,
}
use native.Mathlib.Nat.{zero-add}
use dpu_offload_service.Prelude.Count.{
  count_from, count, count_from_mono, count_from-on, count_from-off,
}
use dpu_offload_service.Prelude.Result.{ok, fault}
use dpu_offload_service.Bitset.{Bitset}
use dpu_offload_service.Bitset.Laws.{has, room, test-has}
use dpu_offload_service.Hash.{lookup}
use dpu_offload_service.Group.{HostData, SpData, Topology, Engine}
use dpu_offload_service.Group.Tables.Walk.{count_from-zero}
use dpu_offload_service.Group.Tables.Lids.{relid, is_some-some}
use dpu_offload_service.Group.Tables.Entries.{IsApart}
use dpu_offload_service.Group.Query.{find_nth, get_local_sp_id_by_group}
use dpu_offload_service.Group.Query.Hosts.{IsReady, IsHostAt, prepare-Populated}

relid-absent : (o : Option SpData) → relid 0 o ≡ relid 0 none → o ≡ none
relid-absent none e = refl
relid-absent (some s) e = absurd cc

module _ (engine : Engine) (gs : ℕ) (t : Topology) (ready : IsReady engine gs t) where
  -- A search for more set bits than there are ends behind the last service process.
  find_nth-end :
      (b : Bitset) (guid left seen i : ℕ)
      → i + left ≤ room b
      → seen + count_from (has b) i left ≤ guid
      → find_nth engine b guid left seen i ≡ ok (i + left)
  unfolding find_nth
  find_nth-end b guid zero seen i inside e = ap ok (omega arith)
  find_nth-end b guid (suc left) seen i inside e =
      let here = test-has b i (omega (arith, inside)) in
      let q : i + suc left ≡ i + 1 + left = omega arith in
      elim (Bool-cases (has b i)) [
        | inl marked ↦
            let up = count_from-on (has b) i left marked in
            let miss : (seen == guid) ≡ false = ground (arith, up) in
            rw (here, marked, miss, q)
              (find_nth-end b guid left (seen + 1) (i + 1) (omega (arith, inside))
                (omega (arith, e, up)))
        | inr off ↦
            let same = count_from-off (has b) i left off in
            rw (here, off, q)
              (find_nth-end b guid left seen (i + 1) (omega (arith, inside))
                (omega (arith, e, same)))
      ]

  -- On a consistent topology whose tables are not made yet, where the bitset covers all service
  -- processes and the number of service processes is no id of one in the group: the first id that is
  -- out of range, the number of service processes of the group, passes the guard and then faults.
  pub get_local_sp_id_by_group-out :
      (b : Bitset)
      → t.sps_bitset ≡ some b
      → engine.num_service_procs ≤ room b
      → lookup engine.num_service_procs t.sps_hash ≡ none
      → get_local_sp_id_by_group engine t t.n_sps ≡ fault
  unfolding get_local_sp_id_by_group
  get_local_sp_id_by_group-out b b_eq inside absent =
      let (t', e, p) = prepare-Populated engine gs t ready in
      let counted = rw b_eq at ready.consistent.sps_agree.counted in
      let up = count_from_mono (has b) 0 engine.num_service_procs (room b) inside in
      let ends =
        find_nth-end b t.n_sps engine.num_service_procs 0 0 (omega (arith, inside))
          (omega (arith, up, counted.1)) in
      let ends' = rw zero-add at ends in
      let low : ltb t.n_sps t.n_sps ≡ false = ground arith in
      let gone =
        relid-absent (lookup engine.num_service_procs t'.sps_hash)
          (rw absent at (p.sp_entries engine.num_service_procs)) in
      rw (e, p.same_n_sps, low, p.same_sps, b_eq, ends', gone)

module _ (engine : Engine) (gs : ℕ) (t : Topology) (host_idx h : ℕ) (d : HostData)
    (ready : IsReady engine gs t) (at_idx : IsHostAt engine t host_idx h d) where
  -- The search for the set bit with `guid` set ones before it.
  find_nth-place :
      (b : Bitset) (guid k left seen i : ℕ)
      → k < left
      → i + left ≤ room b
      → has b (i + k) ≡ true
      → guid ≡ seen + count_from (has b) i k
      → find_nth engine b guid left seen i ≡ ok (i + k)
  unfolding find_nth
  find_nth-place b guid k zero seen i h inside on e = absurd (omega arith)
  find_nth-place b guid zero (suc left) seen i h inside on e =
      let q : i + 0 ≡ i = omega arith in
      let on' : has b i ≡ true = rw q at on in
      let here = test-has b i (omega (arith, inside)) in
      let e' : guid ≡ seen = omega (arith, e, count_from-zero (has b) i) in
      let hit : (seen == guid) ≡ true = ground arith in rw (here, on', hit, q)
  find_nth-place b guid (suc k) (suc left) seen i h inside on e =
      let q : i + suc k ≡ i + 1 + k = omega arith in
      let here = test-has b i (omega (arith, inside)) in
      let on' : has b (i + 1 + k) ≡ true = rw q at on in
      elim (Bool-cases (has b i)) [
        | inl marked ↦
            let e' : guid ≡ seen + 1 + count_from (has b) (i + 1) k =
              omega (arith, e, count_from-on (has b) i k marked) in
            let miss : (seen == guid) ≡ false = ground arith in
            rw (here, marked, miss, q)
              (find_nth-place b guid k left (seen + 1) (i + 1) (omega arith) (omega (arith, inside))
                on' e')
        | inr off ↦
            let e' : guid ≡ seen + count_from (has b) (i + 1) k =
              omega (arith, e, count_from-off (has b) i k off) in
            rw (here, off, q)
              (find_nth-place b guid k left seen (i + 1) (omega arith) (omega (arith, inside)) on'
                e')
      ]

  -- For a host at an index, on a consistent topology whose tables are not made yet and in which no
  -- service process serves two hosts, where the bitset covers all service processes: the local id of a service process of the host, asked for by
  -- the number of service processes of the group below it, is the number of those on its host below it.
  pub get_local_sp_id_by_group-place :
      (b : Bitset) (k : ℕ)
      → t.sps_bitset ≡ some b
      → IsApart t.hosts_hash
      → has b k ≡ true
      → has d.sps_bitset k ≡ true
      → k < engine.num_service_procs
      → engine.num_service_procs ≤ room b
      → get_local_sp_id_by_group engine t (count (has b) k) ≡ ok (count (has d.sps_bitset) k)
  unfolding get_local_sp_id_by_group
  get_local_sp_id_by_group-place b k b_eq apart in_group on_host below inside =
      let (t', e, p) = prepare-Populated engine gs t ready in
      let found =
        find_nth-place b (count (has b) k) k engine.num_service_procs 0 0 below
          (omega (arith, inside)) (rw zero-add in_group) (omega arith) in
      let found' = rw (zero-add k) at found in
      let known = ready.consistent.sps_known h k (rw at_idx.entry on_host) in
      let (s, present) = is_some-some (lookup k t.sps_hash) known in
      let entry = p.lids apart h k d at_idx.entry on_host in
      let counted = rw b_eq at ready.consistent.sps_agree.counted in
      let up = count_from_mono (has b) 0 k (room b) (omega (arith, inside)) in
      let small : count (has b) k ≤ t.n_sps = omega (arith, up, counted.1) in
      let low : ltb t.n_sps (count (has b) k) ≡ false = ground arith in
      rw (e, p.same_n_sps, low, p.same_sps, b_eq, found', entry, present)
