-- ===== src/Group/Peers/Laws.antt =====
-- What the queries on the array of ranks answer.
use dpu_offload_service.Prelude.{
  ℕ, zero, suc, ◌+◌, ◌≤◌, ◌<◌, ◌≡◌, refl, sym, ◌∙◌, inl, inr, Bool, true, false, ◌&&◌, ◌||◌, Option,
  none, some, List, [], ◌∷◌, arith, ◌==◌, Bool-cases, length, get_elem?, ap,
}
use dpu_offload_service.Prelude.Count.{bits, bits_from, bits_from-zero, bits_from-on, bits_from-off}
use dpu_offload_service.Prelude.Result.{ok}
use dpu_offload_service.Bitset.{Bitset}
use dpu_offload_service.Bitset.Laws.{has, test-has}
use dpu_offload_service.Hash.{lookup}
use dpu_offload_service.Group.{SpData, Topology, Engine, Peer, GroupCache}
use dpu_offload_service.Group.Update.Invariant.{on_sp, is_some}
use dpu_offload_service.Group.Tables.Lids.{relid, is_some-some}
use dpu_offload_service.Group.Tables.Entries.{with_ranks}
use dpu_offload_service.Group.Tables.Populated.{Populated}
use dpu_offload_service.Group.Query.Hosts.{IsReady, prepare-Populated}
use dpu_offload_service.Group.Peers.{
  ranks_on_host, get_group_ranks_on_host, on_same_host, shares_sp, on_same_sp,
}

-- Does the rank run on the host; a rank past the array does not.
abbrev pub runs_on : List Peer → ℕ → ℕ → Bool
runs_on peers host_id i = elim (get_elem? peers i) [
  | none ↦ false
  | some peer ↦ peer.host_info == host_id
]

in_range :
    (peers : List Peer) (i : ℕ) → i < length peers → (p : Peer) × (get_elem? peers i ≡ some p)
in_range [] i h = absurd (omega arith)
in_range (p ∷ peers) zero h = (p, refl)
in_range (p ∷ peers) (suc i) h = in_range peers i (omega arith)

ranks_on_host-bits :
    (peers : List Peer) (host_id left i : ℕ)
    → i + left ≤ length peers
    → ranks_on_host peers host_id left i ≡ ok (bits_from (runs_on peers host_id) i left)
unfolding ranks_on_host
ranks_on_host-bits peers host_id zero i h = ap ok (sym (bits_from-zero (runs_on peers host_id) i))
ranks_on_host-bits peers host_id (suc left) i h =
    let (p, e) = in_range peers i (omega arith) in
    let ih = ranks_on_host-bits peers host_id left (i + 1) (omega arith) in
    let r : runs_on peers host_id i ≡ (p.host_info == host_id) = rw (e, runs_on) in
    elim (Bool-cases (p.host_info == host_id)) [
      | inl same ↦ rw (e, ih, same, bits_from-on (runs_on peers host_id) i left (r ∙ same))
      | inr other ↦ rw (e, ih, other, bits_from-off (runs_on peers host_id) i left (r ∙ other))
    ]

-- In a group with a consistent topology whose tables are not made yet, and an array with an entry for
-- every rank: the ranks on a host are those whose entry names the host, in increasing order.
pub get_group_ranks_on_host-bits :
    (engine : Engine) (gp : GroupCache) (host_id : ℕ)
    → IsReady engine gp.group_size gp.topology
    → gp.group_size ≤ length gp.ranks
    → get_group_ranks_on_host gp host_id ≡ ok (bits (runs_on gp.ranks host_id) gp.group_size)
unfolding get_group_ranks_on_host
get_group_ranks_on_host-bits engine gp host_id ready wide =
    let (t', e, p) = prepare-Populated engine gp.group_size gp.topology ready in
    rw e (ranks_on_host-bits gp.ranks host_id gp.group_size 0 (omega arith))

-- For two ranks with an entry in the array: they are on the same host exactly if both are in the cache and their entries name the same host.
pub on_same_host-both :
    (gp : GroupCache) (rank1 rank2 : ℕ) (p1 p2 : Peer)
    → get_elem? gp.ranks rank1 ≡ some p1
    → get_elem? gp.ranks rank2 ≡ some p2
    → on_same_host gp rank1 rank2 ≡ ok (p1.is_set && (p2.is_set && (p1.host_info == p2.host_info)))
unfolding on_same_host
on_same_host-both gp rank1 rank2 p1 p2 e1 e2 = elim (Bool-cases p1.is_set) [
  | inr unset ↦ rw (e1, unset)
  | inl set1 ↦ elim (Bool-cases p2.is_set) [
    | inr unset ↦ rw (e1, e2, set1, unset)
    | inl set2 ↦ rw (e1, e2, set1, set2)
  ]
]

relid-bitset :
    (o : Option SpData) (s : SpData)
    → relid 0 o ≡ relid 0 (some s)
    → (s' : SpData) × (o ≡ some s') × (s'.ranks_bitset ≡ s.ranks_bitset)
relid-bitset none s e = absurd cc
relid-bitset (some s') s e = (s', refl, ap bitset_of e)
  where
    bitset_of : Option SpData → Bitset
    bitset_of none = []
    bitset_of (some s) = s.ranks_bitset

-- Does any of these service processes serve the rank.
abbrev pub any_serves : Topology → ℕ → List ℕ → Bool
any_serves t rank [] = false
any_serves t rank (g ∷ gs) = on_sp t g rank || any_serves t rank gs

abbrev pub AllKnown : Topology → List ℕ → Type 0
AllKnown t [] = Unit {0}
AllKnown t (g ∷ gs) = (is_some (lookup g t.sps_hash) ≡ true) × AllKnown t gs

-- In a group with a consistent topology whose tables are not made yet, where the service processes that
-- the first rank's entry names are known and the second rank is below the group's size: the ranks
-- share a service process exactly if one of those serves the second rank.
pub on_same_sp-any :
    (engine : Engine) (gp : GroupCache) (rank1 rank2 : ℕ) (p1 : Peer)
    → IsReady engine gp.group_size gp.topology
    → get_elem? gp.ranks rank1 ≡ some p1
    → AllKnown gp.topology p1.shadow_service_procs
    → rank2 < gp.group_size
    → on_same_sp gp rank1 rank2 ≡ ok (any_serves gp.topology rank2 p1.shadow_service_procs)
unfolding on_same_sp shares_sp
on_same_sp-any engine gp rank1 rank2 p1 ready e1 known below =
    let (t', e, p) = prepare-Populated engine gp.group_size gp.topology ready in
    rw (e, e1) (walk t' p p1.shadow_service_procs known)
  where
    walk :
        (t' : Topology)
        → Populated gp.topology t'
        → (gs : List ℕ) → AllKnown gp.topology gs
        → shares_sp t'.sps_hash rank2 gs ≡ ok (any_serves gp.topology rank2 gs)
    walk t' p [] known = refl
    walk t' p (g ∷ gs) known =
        let (d, present) = is_some-some (lookup g gp.topology.sps_hash) known.0 in
        let (d', q, same) =
          relid-bitset (lookup g t'.sps_hash) (with_ranks d) (rw present at (p.sp_entries g)) in
        let counts = ready.consistent.sps_agree.entries g d present in
        let here = test-has d.ranks_bitset rank2 (omega (arith, counts.ranks_ok.roomy)) in
        let rest = walk t' p gs known.1 in
        elim (Bool-cases (has d.ranks_bitset rank2)) [
          | inl on ↦ rw (q, same, here, present, on)
          | inr off ↦ rw (q, same, here, present, off, rest)
        ]
