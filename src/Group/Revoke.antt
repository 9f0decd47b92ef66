-- ===== src/Group/Revoke.antt =====
-- How a service process learns that a group is revoked: the handlers of revoke messages in
-- src/dpu_offload_event_channels.c, on the DPU, and HANDLE_PENDING_GROUP_REVOKE_MSGS_FROM_SPS of
-- include/dpu_offload_group_cache.h. The messages that a handler sends are its output: whether the
-- revoke is broadcast to the other service processes, and whether the final revoke goes to the ranks.
pub mod Laws
pub mod Pending
pub mod Send
pub mod Sent
use dpu_offload_service.Prelude.{
  ℕ, zero, suc, ◌+◌, Bool, true, false, not, ◌&&◌, ◌||◌, Option, none, some, List, [], ◌∷◌, ◌++◌,
  ◌==◌, leb, ltb, if◌then◌else◌, length,
}
use dpu_offload_service.Prelude.Result.{Result, ◌>>=◌, need, check, bind, assert, ok}
use dpu_offload_service.Bitset.{Bitset, create, set_bit, test}

-- `group_revoke_msg_from_sp_t`; `ranks` holds `num_ranks` marks.
pub record SpMsg : Type 0 where
  pub gp_seq_num : ℕ
  pub group_size : ℕ
  pub rank_start : ℕ
  pub ranks : List ℕ

-- The rank info of a `group_revoke_msg_from_rank_t`.
pub record RankMsg : Type 0 where
  pub group_seq_num : ℕ
  pub group_rank : ℕ

-- What the handlers use of a group cache: `num`, `posted` and the pending messages are fields of
-- `persistent`; `local`, `global` and `marks` are `revokes.local`, `revokes.global` and `revokes.ranks`.
pub record RevokeState : Type 0 where
  pub group_size : ℕ
  pub initialized : Bool
  pub num : ℕ
  pub posted : ℕ
  pub num_local_entries : ℕ
  pub n_local_ranks : ℕ
  pub n_local_ranks_populated : ℕ
  pub sp_ranks : ℕ
  pub local : ℕ
  pub global : ℕ
  pub marks : Option Bitset
  pub from_sps : List SpMsg
  pub from_ranks : List RankMsg

-- The loop over the ranks of a message from `idx` on: the new marks, and how many are new.
unfoldable pub mark_ranks : List ℕ → ℕ → Bitset → Option (Bitset × ℕ)
mark_ranks [] idx b = some (b, 0)
mark_ranks (r ∷ rs) idx b = bind (test b idx) λ marked.
    bind (if (r == 1) && not marked then set_bit b idx else some b) λ b'.
      bind (mark_ranks rs (idx + 1) b')
        λ q. some (q.0, (if (r == 1) && not marked then q.1 + 1 else q.1))

-- HANDLE_PENDING_GROUP_REVOKE_MSGS_FROM_SPS, one message.
unfoldable pub handle_pending_msg : RevokeState → SpMsg → Option RevokeState
unfolding mark_ranks
handle_pending_msg s msg = assert (msg.gp_seq_num == s.num) (
    bind (create s.marks s.group_size) λ b.
      bind (mark_ranks msg.ranks msg.rank_start b)
        λ q. some (record s { marks = some q.0; global = s.global + q.1 }))

-- The whole macro: the pending messages are handled in order and taken off the list.
unfoldable pub handle_msgs : RevokeState → List SpMsg → Option RevokeState
unfolding handle_pending_msg
handle_msgs s [] = some s
handle_msgs s (msg ∷ msgs) = bind (handle_pending_msg s msg) (λ s'. handle_msgs s' msgs)

unfoldable pub handle_pending_revokes : RevokeState → Option RevokeState
unfolding handle_msgs
handle_pending_revokes s = handle_msgs (record s { from_sps = [] }) s.from_sps

-- The test for the final revoke.
abbrev pub is_final : RevokeState → Bool
is_final s = (s.global == s.group_size) && ltb s.posted s.num

-- All local ranks of the service process revoked the group: broadcast, and what was pending.
unfoldable pub all_local : RevokeState → Result (RevokeState × Bool)
unfolding handle_pending_revokes
all_local s =
    if s.local == s.sp_ranks
    then (need (handle_pending_revokes s) >>= λ s'.
        check (leb s'.global s'.group_size) (ok (s', true)))
    else ok (s, false)

-- handle_revoke_group_rank_through_rank_info, for a message that names a group and a rank in its cache.
unfoldable pub handle_revoke_from_rank :
    RevokeState → RankMsg → Result (RevokeState × (Bool × Bool))
handle_revoke_from_rank s msg =
    check (s.initialized && (ltb 0 s.n_local_ranks && ltb 0 s.n_local_ranks_populated)) (
      check (leb s.global s.group_size && leb s.local s.n_local_ranks) (
        need s.marks >>= λ b. need (test b msg.group_rank) >>= λ marked. check (not marked) (
          if not (s.group_size == s.num_local_entries)
          then ok (record s { from_ranks = s.from_ranks ++ (msg ∷ []) }, (false, false))
          else check (msg.group_seq_num == s.num) (
              need (set_bit b msg.group_rank) >>= λ b'.
              let s' = record s { marks = some b'; local = s.local + 1; global = s.global + 1 } in
              check (leb s'.global s'.group_size) (
                check (ltb 0 s.sp_ranks && leb s.sp_ranks s.group_size)
                  (all_local s' >>= λ r. ok (r.0, (r.1, is_final r.0))))))))

-- Is a message from a service process put off.
abbrev pub is_early : RevokeState → Bool
is_early s =
    not s.initialized || (not (s.group_size == s.num_local_entries) || not (s.sp_ranks == s.local))

-- The asserts on the ranks of a message, which let the group's size pass as a rank.
abbrev pub are_in_range : SpMsg → ℕ → Bool
are_in_range msg group_size =
    (length msg.ranks == 0) || leb (msg.rank_start + length msg.ranks) (group_size + 1)

-- The group's size on the first message, as built without NDEBUG.
unfoldable pub learn_size : RevokeState → SpMsg → Result RevokeState
learn_size s msg =
    if s.group_size == 0
    then check ((s.sp_ranks == 0) && not (msg.group_size == 0))
        (ok (record s { group_size = msg.group_size }))
    else ok s

-- handle_revoke_group_rank_through_list_ranks on a DPU; the size of the group is known where it is
-- handled at once.
unfoldable pub handle_revoke_from_sp : RevokeState → SpMsg → Result (RevokeState × Bool)
unfolding learn_size mark_ranks
handle_revoke_from_sp s0 msg = check (leb s0.global s0.group_size) (
    learn_size s0 msg >>= λ s. check ((s.n_local_ranks == 0) || (msg.gp_seq_num == s.num)) (
      if is_early s
      then ok (record s { from_sps = s.from_sps ++ (msg ∷ []) }, false)
      else (need s.marks >>= λ b. check (are_in_range msg s.group_size) (
          need (mark_ranks msg.ranks msg.rank_start b) >>= λ q.
          let s' = record s { marks = some q.0; global = s.global + q.1 } in
          check (leb s'.global s'.group_size) (ok (s', ltb 0 q.1 && is_final s'))))))
