-- ===== src/Examples/Revokes.antt =====
-- The theorems on revokes, on a group of four ranks.
use dpu_offload_service.Prelude.{
  ℕ, ◌+◌, ◌≤◌, ◌≡◌, refl, sym, true, some, List, [], ◌∷◌, arith, ◌==◌, ltb, if◌then◌else◌, ◌&&◌,
  ◌||◌,
}
use dpu_offload_service.Prelude.Count.{count_from}
use dpu_offload_service.Prelude.Result.{ok}
use dpu_offload_service.Bitset.{Bitset, create, set_bit, test, slot, mask}
use dpu_offload_service.Bitset.Laws.{has, Fresh, create-Fresh}
use dpu_offload_service.Group.Update.Invariant.{popcount}
use dpu_offload_service.Group.Revoke.{
  SpMsg, RankMsg, RevokeState, mark_ranks, handle_msgs, is_final, handle_revoke_from_rank,
  handle_revoke_from_sp,
}
use dpu_offload_service.Group.Revoke.Laws.{
  IsMarks, Marked, mark_ranks-Marked, IsCounted, handle_revoke_from_sp-IsCounted,
}
use dpu_offload_service.Group.Revoke.Send.{send_local_revokes}
use dpu_offload_service.Group.Revoke.Sent.{send_local_revokes-received}
use dpu_offload_service.Group.Revoke.Pending.{
  Handled, IsRevocable, revoked_by, handle_revoke_from_rank-IsCounted,
}

zeros-Fresh : Fresh 4 (0 ∷ [])
unfolding create
zeros-Fresh =
    let (b, e, f) = create-Fresh 4 (omega arith) in
    let q : some b ≡ some (0 ∷ []) = sym e in let q' : b ≡ (0 ∷ []) = cc in rw (← q') f

zeros-IsMarks : IsMarks 4 (0 ∷ [])
zeros-IsMarks = record {
  group_bitset = record { bytes = zeros-Fresh.bytes; roomy = zeros-Fresh.roomy };
  inside = λ j le. zeros-Fresh.empty j;
}

abbrev waiting : SpMsg
waiting = record { gp_seq_num = 1; group_size = 4; rank_start = 2; ranks = 1 ∷ 1 ∷ [] }

-- A service process with `sp_ranks` ranks of the group, none of which revoked it.
abbrev fresh_state : ℕ → List SpMsg → RevokeState
fresh_state sp_ranks pending = record {
  group_size = 4;
  initialized = true;
  num = 1;
  posted = 0;
  num_local_entries = 4;
  n_local_ranks = 1;
  n_local_ranks_populated = 1;
  sp_ranks = sp_ranks;
  local = 0;
  global = 0;
  marks = some (0 ∷ []);
  from_sps = pending;
  from_ranks = [];
}

none_marked : 0 ≡ popcount (0 ∷ [])
unfolding has count_from
none_marked = refl

abbrev fresh_counted : (n : ℕ) (pending : List SpMsg) → IsCounted (fresh_state n pending)
fresh_counted n pending = record {
  bitset = 0 ∷ [];
  bitset_eq = refl;
  marks_ok = zeros-IsMarks;
  counted = none_marked;
}

abbrev from_rank_1 : RankMsg
from_rank_1 = record { group_seq_num = 1; group_rank = 1 }

from_rank_1-IsRevocable : IsRevocable (fresh_state 1 (waiting ∷ [])) from_rank_1 (0 ∷ [])
unfolding has
from_rank_1-IsRevocable = record {
  initialized = refl;
  some_local = omega arith;
  some_populated = omega arith;
  local_in = omega arith;
  complete = refl;
  seq = refl;
  rank_in = omega arith;
  not_yet = refl;
  some_sp_rank = omega arith;
  sp_ranks_in = omega arith;
}

handle_revoke_from_rank-IsCounted_example :
    (s' : RevokeState) × (handle_revoke_from_rank (fresh_state 1 (waiting ∷ [])) from_rank_1
      ≡ ok (s', (true, is_final s')))
    × (c' : IsCounted s') × ((j : ℕ)
        → has c'.bitset j
          ≡ ((if 1 == j then true else has (0 ∷ []) j) || revoked_by (waiting ∷ []) j))
    × (s'.local ≡ 1)
    × (1 ≤ s'.global)
    × (s'.group_size ≡ 4)
    × (s'.from_sps ≡ [])
handle_revoke_from_rank-IsCounted_example =
    handle_revoke_from_rank-IsCounted (fresh_state 1 (waiting ∷ [])) from_rank_1
      (fresh_counted 1 (waiting ∷ [])) from_rank_1-IsRevocable (refl, omega arith, tt)

handle_revoke_from_sp-IsCounted_example :
    (b' : Bitset) × (n : ℕ) × Marked 4 (0 ∷ []) (1 ∷ 1 ∷ []) 2 b' n
    × (handle_revoke_from_sp (fresh_state 0 []) waiting
        ≡ ok (
          record (fresh_state 0 []) { marks = some b'; global = 0 + n },
          ltb 0 n && ((0 + n == 4) && ltb 0 1),
        ))
    × IsCounted (record (fresh_state 0 []) { marks = some b'; global = 0 + n })
handle_revoke_from_sp-IsCounted_example =
    handle_revoke_from_sp-IsCounted (fresh_state 0 []) waiting (fresh_counted 0 []) refl
      (omega arith) refl (omega arith)

five-IsMarks : IsMarks 4 (5 ∷ [])
unfolding mark_ranks set_bit test slot mask
five-IsMarks =
    let (b, n, e, w) =
      mark_ranks-Marked 4 (1 ∷ 0 ∷ 1 ∷ []) 0 (0 ∷ []) zeros-IsMarks (omega arith) in
    let q : some (b, n) ≡ some (5 ∷ [], 2) = sym e in
    let q' : b ≡ (5 ∷ []) = cc in rw (← q') w.marks_ok

send_local_revokes-received_example :
    (msgs : List SpMsg) × (s' : RevokeState) × (send_local_revokes 4 1 (5 ∷ []) ≡ some msgs)
    × (handle_msgs (fresh_state 1 []) msgs ≡ some s')
    × (h : Handled (fresh_state 1 []) s') × ((j : ℕ)
        → has h.counted.bitset j ≡ (has (0 ∷ []) j || has (5 ∷ []) j))
send_local_revokes-received_example =
    send_local_revokes-received (5 ∷ []) (fresh_state 1 []) (omega arith) five-IsMarks
      (fresh_counted 1 [])
