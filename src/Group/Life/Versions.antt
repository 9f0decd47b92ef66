-- ===== src/Group/Life/Versions.antt =====
-- A group that was revoked: what a query makes of it, and what the next message makes of it.
use dpu_offload_service.Prelude.{
  ℕ, ◌≤◌, ◌<◌, ◌≡◌, refl, ap, inl, inr, true, false, none, some, List, [], arith, ◌==◌, leb, ltb,
  Bool-cases, Option-cases, ◌⊎◌, length, get_elem?,
}
use dpu_offload_service.Prelude.Result.{ok, fault, >>=-ok}
use dpu_offload_service.Bitset.{Bitset, create}
use dpu_offload_service.Group.{Engine, Peer}
use dpu_offload_service.Group.Life.{
  Setup, GroupState, AddMsg, init_state, reset_state, get_group_cache, learn_group_size,
  group_populated, handle_waiting, handle_pending_entries, notify_revoke, add_group_rank,
  do_add_group_rank_recv_cb, revoke_group, revoke_group_cache,
}

-- A group that can be revoked: it is in use, with its ranks, and no entries wait.
pub record IsInUse (s : GroupState) : Type 0 where
  pub known : s.known ≡ true
  pub engine_set : s.engine_set ≡ true
  pub some_ranks : 0 < s.cache.group_size
  pub room : s.cache.group_size ≤ length s.cache.ranks
  pub none_wait : s.pending_recv_cache_entries ≡ []

-- A message that names the group and a rank, with a sequence number that is not behind.
pub record IsUsable (num : ℕ) (msg : AddMsg) (uid rank : ℕ) : Type 0 where
  pub names_group : msg.group_uid ≡ some uid
  pub names_rank : msg.group_rank ≡ some rank
  pub numbered : 0 < msg.group_seq_num
  pub not_behind : num ≤ msg.group_seq_num

pub get_group_cache-known :
    (s : GroupState) (n : ℕ) → s.known ≡ true → s.engine_set ≡ true → get_group_cache s n ≡ ok s
unfolding get_group_cache
get_group_cache-known s n a b = simp (a, b)

-- The state of a group that is created anew.
abbrev pub created : GroupState → ℕ → GroupState
created s n = record (init_state s n) { known = true; engine_set = true }

get_group_cache-created :
    (s : GroupState) (n : ℕ) → get_group_cache (reset_state s) n ≡ ok (created s n)
unfolding get_group_cache
get_group_cache-created s n = refl

-- The state once the size is learnt.
abbrev pub sized : GroupState → ℕ → Bitset → Bitset → Bitset → GroupState
sized s n sps hosts marks = record s {
  cache = record s.cache {
    group_size = n;
    topology = record s.cache.topology { sps_bitset = some sps; hosts_bitset = some hosts };
  };
  marks = some marks;
}

-- Learning the size leaves the ranks alone.
learn_group_size-cases :
    (engine : Engine) (s : GroupState) (n : ℕ)
    → (learn_group_size engine s n ≡ none)
      ⊎ ((s1 : GroupState) × (learn_group_size engine s n ≡ some s1)
          × (s1.cache.ranks ≡ s.cache.ranks))
unfolding learn_group_size
learn_group_size-cases engine s n = elim (Bool-cases (s.cache.group_size == 0)) [
  | inr known ↦ inr (s, rw known refl, refl)
  | inl unknown ↦ elim (Option-cases (create s.cache.topology.sps_bitset n)) [
    | inl a ↦ inl (rw (unknown, a) refl)
    | inr (sps, a) ↦ elim (Option-cases (create s.cache.topology.hosts_bitset engine.num_hosts)) [
      | inl b ↦ inl (rw (unknown, a, b) refl)
      | inr (hosts, b) ↦ elim (Option-cases (create s.marks n)) [
        | inl d ↦ inl (rw (unknown, a, b, d) refl)
        | inr (marks, d) ↦ inr (sized s n sps hosts marks, rw (unknown, a, b, d) refl, refl)
      ]
    ]
  ]
]

module _ (c : Setup) where
  revoke_group-run : (s : GroupState) → IsInUse s → revoke_group s ≡ ok (reset_state s)
  unfolding revoke_group
  revoke_group-run s i =
      let some_ranks : ltb 0 s.cache.group_size ≡ true = (let h = i.some_ranks in ground arith) in
      let room : leb s.cache.group_size (length s.cache.ranks) ≡ true =
        (let h = i.room in ground arith) in
      >>=-ok _ (get_group_cache-known s 0 i.known i.engine_set) (simp (some_ranks, room))

  revoke_group_cache-run :
      (s : GroupState) → IsInUse s → revoke_group_cache c s ≡ ok (notify_revoke c (reset_state s))
  unfolding revoke_group_cache handle_waiting
  revoke_group_cache-run s i = >>=-ok _ (revoke_group-run s i) (none_left s i.none_wait)
    where
      none_left :
          (s : GroupState)
          → s.pending_recv_cache_entries ≡ []
          → handle_pending_entries c (notify_revoke c (reset_state s))
            ≡ ok (notify_revoke c (reset_state s))
      none_left s e = simp (e, handle_waiting)

  -- A query without the size makes the group known with no room for ranks.
  group_populated-run : (s : GroupState) → group_populated (reset_state s) ≡ ok (created s 0, true)
  unfolding group_populated
  group_populated-run s = >>=-ok _ (get_group_cache-created s 0) refl

  add_rank-faults :
      (world : List Peer) (s : GroupState) (msg : AddMsg) (rank : ℕ)
      → add_group_rank c world (created s 0) msg rank ≡ fault
  unfolding add_group_rank
  add_rank-faults world s msg rank =
      elim (learn_group_size-cases c.engine (created s 0) msg.group_size) [
        | inl no_bitset ↦ rw no_bitset refl
        | inr (s1, e, same) ↦ rw (e, ap (λ ranks. get_elem? ranks rank) same) refl
      ]

  add_faults :
      (world : List Peer) (s : GroupState) (msg : AddMsg) (uid rank : ℕ)
      → IsUsable s.cache.num msg uid rank
      → do_add_group_rank_recv_cb c world
          (record { state = created s 0; pending_group_add_msgs = [] })
          msg
        ≡ fault
  unfolding do_add_group_rank_recv_cb
  add_faults world s msg uid rank m =
      let used : (msg.group_seq_num == 0) ≡ false = (let h = m.numbered in ground arith) in
      let fine : leb s.cache.num msg.group_seq_num ≡ true =
        (let h = m.not_behind in ground arith) in
      let found = get_group_cache-known (created s 0) msg.group_size refl refl in
      simp (used, m.names_group, m.names_rank, found, fine, add_rank-faults world s msg rank)

  -- A group in use, for which no entries wait, is revoked, and group_cache_populated is called before
  -- the first message of its next version: the revocation succeeds, the answer is that the group is
  -- populated, and every message that names the group and a rank, with a sequence number that is not 0
  -- and not behind, then reads outside of the group's array of ranks or fails an assert.
  pub query_after_revoke-faults :
      (s : GroupState)
      → IsInUse s
      → (s' : GroupState) × (s'' : GroupState) × (revoke_group_cache c s ≡ ok s')
        × (group_populated s' ≡ ok (s'', true))
        × ((world : List Peer) (msg : AddMsg) (uid rank : ℕ)
            → IsUsable s.cache.num msg uid rank
            → do_add_group_rank_recv_cb c world
                (record { state = s''; pending_group_add_msgs = [] })
                msg
              ≡ fault)
  unfolding do_add_group_rank_recv_cb
  query_after_revoke-faults s i =
      let n = notify_revoke c s in
      (
        reset_state n,
        created n 0,
        revoke_group_cache-run s i,
        group_populated-run n,
        λ world msg uid rank m. add_faults world n msg uid rank m,
      )
