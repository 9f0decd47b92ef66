-- ===== src/Group/Life/Waiting.antt =====
-- Messages that reach a group while it is being revoked.
use dpu_offload_service.Prelude.{
  ℕ, ◌<◌, ◌≡◌, refl, sym, ap, ◌∙◌, inl, inr, Bool, true, false, List, [], ◌∷◌, ◌++◌, arith, ◌==◌,
  leb, ltb, Option-cases, ◌⊎◌,
}
use mathlib.Core.List.{append-nil, append_assoc}
use dpu_offload_service.Prelude.Result.{
  Result, ok, fault, check, ◌>>=◌, >>=-ok, Result-cases, map_result, and_then, printed,
}
use dpu_offload_service.Group.{Peer}
use dpu_offload_service.Group.Life.Versions.{IsUsable, get_group_cache-known}
use dpu_offload_service.Group.Life.Goes.{
  Goes, >>=-Goes, OurMessages, IsCalm, get_group_cache-Goes, handle_waiting-Goes,
  add_group_rank-Goes,
}
use dpu_offload_service.Group.Life.{
  Setup, GroupState, AddMsg, GroupLife, get_group_cache, notify_revoke, do_add_group_rank_recv_cb,
  revoke_group, revoke_group_cache, revoke_completes, add_waiting,
  handle_pending_group_cache_add_msgs, revoke_send_to_host_cb,
}

-- Receiving the messages of a list, one after the other, also after one that ends with an error.
unfoldable pub add_all : Setup → List Peer → GroupLife → List AddMsg → Result GroupLife
add_all c world l [] = ok l
add_all c world l (m ∷ ms) =
    printed (do_add_group_rank_recv_cb c world l m) >>= λ l'. add_all c world l' ms

-- Messages that each name the group and a rank and are not behind.
pub data AreUsable (num : ℕ) : List AddMsg → Type 0 where
  no_message : AreUsable num []
  a_message :
      (msg : AddMsg) (uid rank : ℕ) {msgs : List AddMsg}
      → IsUsable num msg uid rank
      → AreUsable num msgs
      → AreUsable num (msg ∷ msgs)

-- A calm group with no message that waits to add a rank.
record IsIdle (uid : ℕ) (l : GroupLife) : Type 0 where
  calm : IsCalm uid l.state
  none_wait : l.pending_group_add_msgs ≡ []

-- A message that is handled at once has one of two outcomes.
one_of :
    {uid : ℕ} {r : Result GroupLife} (l : GroupLife)
    → IsIdle uid l
    → (r ≡ ok l) ⊎ (r ≡ fault)
    → Goes (IsIdle uid) r
one_of l idle (inl e) = Goes.succeeds l e idle
one_of l idle (inr e) = Goes.faults e

abbrev alone : GroupState → GroupLife
alone s = record { state = s; pending_group_add_msgs = [] }

abbrev queue : List AddMsg → GroupLife → GroupLife
queue ps l = record l { pending_group_add_msgs = ps }

module _ (c : Setup) where
  -- A message for a group that is not being revoked leaves the messages that wait alone.
  add_group_rank_recv-pending :
      (uid : ℕ) (world : List Peer) (s : GroupState) (ps : List AddMsg) (msg : AddMsg)
      → IsCalm uid s
      → do_add_group_rank_recv_cb c world (record { state = s; pending_group_add_msgs = ps }) msg
        ≡ map_result (queue ps) (do_add_group_rank_recv_cb c world (alone s) msg)
  unfolding do_add_group_rank_recv_cb
  add_group_rank_recv-pending uid world s ps msg calm =
      elim (get_group_cache-Goes uid s msg.group_size calm) [
        | Goes.faults e ↦ ground arith
        | Goes.succeeds s1 e calm1 ↦ let z = calm1.same_group.0 in ground arith
      ]

  add_group_rank_recv-Goes :
      (uid : ℕ) (world : List Peer) (s : GroupState) (msg : AddMsg)
      → IsCalm uid s
      → Goes (IsIdle uid) (do_add_group_rank_recv_cb c world (alone s) msg)
  unfolding do_add_group_rank_recv_cb
  add_group_rank_recv-Goes uid world s msg calm =
      let idle : IsIdle uid (alone s) = record { calm = calm; none_wait = refl } in
      elim (Option-cases msg.group_rank) [
        | inl unnamed ↦ one_of (alone s) idle (ground arith)
        | inr (rank, named) ↦ elim (get_group_cache-Goes uid s msg.group_size calm) [
          | Goes.faults e ↦ one_of (alone s) idle (ground arith)
          | Goes.succeeds s1 e calm1 ↦
              let z = calm1.same_group.0 in
              elim (add_group_rank-Goes c uid world s1 msg rank calm1) [
                | Goes.faults e1 ↦ one_of (alone s) idle (ground arith)
                | Goes.succeeds s2 e1 calm2 ↦ elim (Option-cases msg.group_uid) [
                  | inl unnamed ↦ one_of (alone s) idle (ground arith)
                  | inr (g, named') ↦
                      one_of (alone s2) (record { calm = calm2; none_wait = refl }) (ground arith)
                ]
              ]
        ]
      ]

  -- A message for a group that is being revoked waits.
  add_group_rank_recv-waits :
      (world : List Peer) (s : GroupState) (ps : List AddMsg) (msg : AddMsg) (uid rank : ℕ)
      → s.known ≡ true
      → s.engine_set ≡ true
      → 0 < s.cache.global_revokes
      → IsUsable s.cache.num msg uid rank
      → do_add_group_rank_recv_cb c world (record { state = s; pending_group_add_msgs = ps }) msg
        ≡ ok (record { state = s; pending_group_add_msgs = ps ++ (msg ∷ []) })
  unfolding do_add_group_rank_recv_cb
  add_group_rank_recv-waits world s ps msg uid rank a b z m =
      let used : (msg.group_seq_num == 0) ≡ false = (let h = m.numbered in ground arith) in
      let fine : leb s.cache.num msg.group_seq_num ≡ true =
        (let h = m.not_behind in ground arith) in
      let revoking : ltb 0 s.cache.global_revokes ≡ true = ground arith in
      let found = get_group_cache-known s msg.group_size a b in
      simp (used, m.names_group, m.names_rank, found, fine, revoking)

  add_all-waits :
      (world : List Peer) (s : GroupState) (ps msgs : List AddMsg)
      → s.known ≡ true
      → s.engine_set ≡ true
      → 0 < s.cache.global_revokes
      → AreUsable s.cache.num msgs
      → add_all c world (record { state = s; pending_group_add_msgs = ps }) msgs
        ≡ ok (record { state = s; pending_group_add_msgs = ps ++ msgs })
  unfolding add_all
  add_all-waits world s ps [] a b z u =
      ap (λ qs. ok (record { state = s; pending_group_add_msgs = qs })) (sym (append-nil ps))
  add_all-waits world s ps (m ∷ ms) a b z (a_message _ uid rank u us) =
      >>=-ok _ (ap printed (add_group_rank_recv-waits world s ps m uid rank a b z u)) (
        add_all-waits world s (ps ++ (m ∷ [])) ms a b z us
        ∙ ap (λ qs. ok (record { state = s; pending_group_add_msgs = qs }))
            (append_assoc ps (m ∷ []) ms))

  abbrev queued : List AddMsg → Result GroupLife → Result GroupLife
  queued ps r = map_result (queue ps) r

  abbrev waiting_after : List Peer → List AddMsg → Result GroupLife → Result GroupLife
  waiting_after world ms r = and_then r (λ l. add_waiting c world l ms)

  abbrev all_after : List Peer → List AddMsg → Result GroupLife → Result GroupLife
  all_after world ms r = r >>= λ l. add_all c world l ms

  -- The messages that wait are handled as if they came in now.
  add_waiting-all :
      (uid : ℕ) (world : List Peer) (s : GroupState) (msgs : List AddMsg)
      → IsCalm uid s
      → printed (add_waiting c world (record { state = s; pending_group_add_msgs = msgs }) msgs)
        ≡ add_all c world (alone s) msgs
  unfolding add_waiting add_all
  add_waiting-all uid world s [] calm = refl
  add_waiting-all uid world s (m ∷ ms) calm =
      ap (λ r. printed (waiting_after world ms r))
        (add_group_rank_recv-pending uid world s ms m calm)
      ∙ elim (add_group_rank_recv-Goes uid world s m calm) [
        | Goes.faults run ↦ rw run refl
        | Goes.succeeds l run idle ↦
            ap (λ r. printed (waiting_after world ms (queued ms r))) run
            ∙ add_waiting-all uid world l.state ms idle.calm
            ∙ ap
                (λ ps. add_all c world (record { state = l.state; pending_group_add_msgs = ps }) ms)
                (sym idle.none_wait)
            ∙ sym (ap (λ r. all_after world ms (printed r)) run)
      ]

  revoke_group-Goes :
      (uid : ℕ) (s : GroupState)
      → s.cache.group_uid ≡ uid
      → OurMessages uid s.pending_recv_cache_entries
      → Goes (IsCalm uid) (revoke_group s)
  unfolding revoke_group get_group_cache
  revoke_group-Goes uid s same ours = elim (Result-cases (revoke_group s)) [
    | inl (s', e) ↦ Goes.succeeds s' e (record {
      same_group = (ground arith, ground arith);
      ours =
          (let w : s'.pending_recv_cache_entries ≡ s.pending_recv_cache_entries = ground arith in
            rw w ours);
    })
    | inr (inl (x, e)) ↦ absurd (ground arith)
    | inr (inr e) ↦ Goes.faults e
  ]

  revoke_completes-Goes :
      (uid : ℕ) (s : GroupState)
      → s.cache.group_uid ≡ uid
      → OurMessages uid s.pending_recv_cache_entries
      → Goes (IsCalm uid) (revoke_completes c s)
  unfolding revoke_completes revoke_group_cache
  revoke_completes-Goes uid s same ours =
      let s0 : GroupState = record s { revoke_sent_to_host = s.revoke_send_to_host_posted } in
      let cache : Goes (IsCalm uid) (revoke_group_cache c s0) =
        >>=-Goes _ (revoke_group-Goes uid s0 same ours) (λ s1 calm.
          handle_waiting-Goes c uid (notify_revoke c s1) s1.pending_recv_cache_entries calm.ours
            (record { same_group = calm.same_group; ours = calm.ours })) in
      elim cache [
        | Goes.faults e ↦ Goes.faults (ap engine_after e)
        | Goes.succeeds s1 e calm ↦
            Goes.succeeds (record s1 { engine_set = true }) (ap engine_after e)
              (record { same_group = calm.same_group; ours = calm.ours })
      ]
    where
      engine_after : Result GroupState → Result GroupState
      engine_after r = printed r >>= λ s1. ok (record s1 { engine_set = true })

  ends_with :
      (uid : ℕ) (world : List Peer) (msgs : List AddMsg) (b : Bool) (s : GroupState)
      → IsCalm uid s
      → printed
          (check b (add_waiting c world (record { state = s; pending_group_add_msgs = msgs }) msgs))
        ≡ all_after world msgs (printed (check b (ok (alone s))))
  ends_with uid world msgs false s calm = refl
  ends_with uid world msgs true s calm = add_waiting-all uid world s msgs calm

  -- The end of revoke_send_to_host_cb, with messages that wait.
  abbrev callback_after : List Peer → List AddMsg → Result GroupState → Result GroupLife
  callback_after world ps r = r >>= λ s. printed (
      handle_pending_group_cache_add_msgs c world
        (record { state = s; pending_group_add_msgs = ps }))

  ends :
      (uid : ℕ) (world : List Peer) (msgs : List AddMsg) (b : Bool) (r : Result GroupState)
      → Goes (IsCalm uid) r
      → check b (callback_after world msgs r)
        ≡ all_after world msgs (check b (callback_after world [] r))
  unfolding add_waiting
  ends uid world msgs false r g = refl
  ends uid world msgs true r (Goes.faults e) =
      ap (callback_after world msgs) e
      ∙ sym (ap (λ x. all_after world msgs (callback_after world [] x)) e)
  ends uid world msgs true r (Goes.succeeds s e calm) =
      ap (callback_after world msgs) e
      ∙ ends_with uid world msgs s.engine_set s calm
      ∙ sym (ap (λ x. all_after world msgs (callback_after world [] x)) e)

  -- A group that is known, has its engine set and for which only entries that name it wait. Messages
  -- that each name the group and a rank and are not behind, received while the group is being revoked,
  -- and then the end of the revocation: the outcome, faults included, is the one of the end of the
  -- revocation followed by the messages.
  pub revoke_send_to_host_cb-add_all :
      (world : List Peer) (s : GroupState) (msgs : List AddMsg)
      → s.known ≡ true
      → s.engine_set ≡ true
      → OurMessages s.cache.group_uid s.pending_recv_cache_entries
      → 0 < s.cache.global_revokes
      → AreUsable s.cache.num msgs
      → (add_all c world (record { state = s; pending_group_add_msgs = [] }) msgs >>= λ l.
          revoke_send_to_host_cb c world l)
        ≡ (revoke_send_to_host_cb c world (record { state = s; pending_group_add_msgs = [] })
            >>= λ l. add_all c world l msgs)
  unfolding revoke_send_to_host_cb
  revoke_send_to_host_cb-add_all world s msgs a b ours z u =
      >>=-ok _ (add_all-waits world s [] msgs a b z u) (
        ends s.cache.group_uid world msgs s.engine_set (revoke_completes c s)
          (revoke_completes-Goes s.cache.group_uid s refl ours))
