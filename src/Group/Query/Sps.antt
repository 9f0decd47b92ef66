-- ===== src/Group/Query/Sps.antt =====
-- The queries that go by a service process, on a topology whose tables are not made yet.
use dpu_offload_service.Prelude.{
  ℕ, zero, suc, ◌+◌, ◌≤◌, ◌<◌, ◌≡◌, ◌^◌, refl, ◌∙◌, inl, inr, true, not, ◌||◌, Option, none, some,
  arith, ◌==◌, ltb, if◌then◌else◌, Bool-cases, Option-cases, get_elem?, ap,
}
use native.Mathlib.Nat.{zero-add}
use dpu_offload_service.Prelude.Count.{count_from, count, count_from-on, count_from-off}
use dpu_offload_service.Prelude.Result.{Result, ok, err, fault}
use dpu_offload_service.Size.{uint64_max}
use dpu_offload_service.Bitset.{Bitset}
use dpu_offload_service.Bitset.Laws.{has, room, test-has, test_int-eq}
use dpu_offload_service.Hash.{lookup}
use dpu_offload_service.Group.{SpData, Topology, Engine, GroupCache}
use dpu_offload_service.Group.Update.Invariant.{popcount}
use dpu_offload_service.Group.Tables.Walk.{upto, count_from-zero}
use dpu_offload_service.Group.Tables.Lids.{relid}
use dpu_offload_service.Group.Tables.Entries.{with_ranks}
use dpu_offload_service.Group.Tables.Populated.{Populated}
use dpu_offload_service.Group.Query.{sp_at, count_sps, get_num_ranks_for_group_sp, get_sp_group_gid}
use dpu_offload_service.Group.Query.Hosts.{IsReady, prepare-Populated}

get_elem?-upto : (n m i : ℕ) → i < m → get_elem? (upto n m) i ≡ some (n + i)
get_elem?-upto n zero i h = absurd (omega arith)
get_elem?-upto n (suc m) zero h = let e : n + 0 ≡ n = omega arith in rw e
get_elem?-upto n (suc m) (suc i) h =
    let e : n + suc i ≡ n + 1 + i = omega arith in rw e (get_elem?-upto (n + 1) m i (omega arith))

-- An entry with another local id has the same of everything else.
relid-fields :
    (o : Option SpData) (s : SpData)
    → relid 0 o ≡ relid 0 (some s)
    → (s' : SpData) × (o ≡ some s') × (s'.gid ≡ s.gid) × (s'.n_ranks ≡ s.n_ranks)
relid-fields none s e = absurd cc
relid-fields (some s') s e = (s', refl, ap gid_of e, ap ranks_of e)
  where
    gid_of : Option SpData → ℕ
    gid_of none = 0
    gid_of (some s) = s.gid

    ranks_of : Option SpData → ℕ
    ranks_of none = 0
    ranks_of (some s) = s.n_ranks

-- What a query answers for an entry that may not be there.
abbrev pub ranks_or_fault : Option SpData → Result ℕ
ranks_or_fault none = fault
ranks_or_fault (some s) = ok (popcount s.ranks_bitset)

-- An index past the end is an error.
abbrev pub ok_or_err : Option ℕ → Result ℕ
ok_or_err none = err none
ok_or_err (some k) = ok k

module _ (engine : Engine) (gs : ℕ) (t : Topology) (ready : IsReady engine gs t) where
  -- On a consistent topology whose tables are not made yet, for `n` below the number of its service
  -- processes: the number of ranks of the `n`-th one is answered for the `n`-th one of the
  -- engine's list: the number of ranks that its bitset marks, or a fault if it is not in the group.
  pub get_num_ranks_for_group_sp-nth :
      (n k : ℕ)
      → n < t.n_sps
      → get_elem? engine.sp_gids n ≡ some k
      → get_num_ranks_for_group_sp engine t n ≡ ranks_or_fault (lookup k t.sps_hash)
  unfolding get_num_ranks_for_group_sp sp_at
  get_num_ranks_for_group_sp-nth n k small gid =
      let (t', e, p) = prepare-Populated engine gs t ready in
      let place : get_elem? (upto 0 t.n_sps) n ≡ some n =
        get_elem?-upto 0 t.n_sps n small ∙ ap some (zero-add n) in
      rw (e, p.sps_eq, place, gid)
        (elim (Option-cases (lookup k t.sps_hash)) [
          | inl absent ↦
              let gone = relid-none (lookup k t'.sps_hash) (rw absent at (p.sp_entries k)) in
              rw (gone, absent)
          | inr (s, present) ↦
              let (s', q, g, r) =
                relid-fields (lookup k t'.sps_hash) (with_ranks s)
                  (rw present at (p.sp_entries k)) in
              let counts = ready.consistent.sps_agree.entries k s present in
              rw (q, present) (ap ok (r ∙ counts.n_ranks_eq))
        ])
    where
      relid-none : (o : Option SpData) → relid 0 o ≡ relid 0 none → o ≡ none
      relid-none none e = refl
      relid-none (some s) e = absurd cc

  -- What `count_sps` counts.
  count_sps-count :
      (b : Bitset) (left idx seen : ℕ)
      → idx + left ≤ room b
      → count_sps engine b left idx seen ≡ ok (seen + count_from (has b) idx left)
  unfolding count_sps
  count_sps-count b zero idx seen h = ap ok (omega (arith, count_from-zero (has b) idx))
  count_sps-count b (suc left) idx seen h =
      let here = test-has b idx (omega (arith, h)) in
      elim (Bool-cases (has b idx)) [
        | inl on ↦
            let more : seen + count_from (has b) idx (suc left)
                ≡ seen + 1 + count_from (has b) (idx + 1) left =
              omega (arith, count_from-on (has b) idx left on) in
            rw (here, on, more) (count_sps-count b left (idx + 1) (seen + 1) (omega (arith, h)))
        | inr off ↦
            let same : seen + count_from (has b) idx (suc left)
                ≡ seen + count_from (has b) (idx + 1) left =
              omega (arith, count_from-off (has b) idx left off) in
            rw (here, off, same) (count_sps-count b left (idx + 1) seen (omega (arith, h)))
      ]

  -- In a complete group that nobody revoked, with a consistent topology whose tables are not made yet,
  -- for a global id that fits the bitset and is below 2 ^ 31: the group's id of a service process is the number of service processes of the
  -- group with a smaller global id. A service process that is not in the group gets an error, and so
  -- does one whose global id is above the number of service processes in the group.
  pub get_sp_group_gid-count :
      (gp : GroupCache) (b : Bitset) (sp_gid : ℕ)
      → gp.topology ≡ t
      → gp.global_revokes ≡ 0
      → gp.group_size ≡ gp.num_local_entries
      → t.sps_bitset ≡ some b
      → sp_gid < room b
      → sp_gid < 2 ^ 31
      → get_sp_group_gid engine gp sp_gid ≡ (
          if ltb t.n_sps sp_gid || not (has b sp_gid)
          then err (some uint64_max)
          else ok (count (has b) sp_gid))
  unfolding get_sp_group_gid
  get_sp_group_gid-count gp b sp_gid of_t not_revoked full b_eq inside low =
      let (t', e, p) = prepare-Populated engine gs t ready in
      let counted : count_sps engine b sp_gid 0 0 ≡ ok (count (has b) sp_gid) =
        count_sps-count b sp_gid 0 0 (omega (arith, inside)) ∙ ap ok (zero-add _) in
      let revokes : (gp.global_revokes == 0) ≡ true = ground arith in
      let complete : (gp.group_size == gp.num_local_entries) ≡ true = ground arith in
      rw (
        of_t,
        e,
        revokes,
        complete,
        p.sps_eq,
        p.same_sps,
        b_eq,
        test_int-eq b sp_gid low ∙ test-has b sp_gid inside,
        p.same_n_sps,
        counted,
      )
