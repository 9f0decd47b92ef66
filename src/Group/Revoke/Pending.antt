-- ===== src/Group/Revoke/Pending.antt =====
-- A revoke by a rank, and the messages of other service processes that waited for it.
use dpu_offload_service.Prelude.{
  ℕ, ◌+◌, ◌≤◌, ◌<◌, ◌≡◌, refl, ap, ◌∙◌, inl, inr, Bool, true, false, ◌||◌, some, List, [], ◌∷◌,
  arith, ◌==◌, leb, ltb, if◌then◌else◌, Bool-cases, length,
}
use dpu_offload_service.Prelude.Result.{ok}
use dpu_offload_service.Bitset.{Bitset, create, set_bit, test}
use dpu_offload_service.Bitset.Laws.{has, room, test-has, set_bit-Wrote}
use dpu_offload_service.Group.Update.Sps.{popcount-Wrote}
use dpu_offload_service.Group.Revoke.{
  SpMsg, RankMsg, RevokeState, handle_pending_msg, handle_msgs, handle_pending_revokes, is_final,
  all_local, handle_revoke_from_rank,
}
use dpu_offload_service.Group.Revoke.Laws.{
  revokes, or-false, or_assoc, IsMarks, IsCounted, mark_ranks-Marked, popcount-bounded,
}

-- Every message is of the group's version and stays below its size.
abbrev pub AllFit : ℕ → ℕ → List SpMsg → Type 0
AllFit num gs [] = Unit {0}
AllFit num gs (msg ∷ msgs) =
    (msg.gp_seq_num ≡ num) × (msg.rank_start + length msg.ranks ≤ gs) × AllFit num gs msgs

-- Does one of the messages revoke for rank `j`.
unfoldable pub revoked_by : List SpMsg → ℕ → Bool
revoked_by [] j = false
revoked_by (msg ∷ msgs) j = revokes msg.ranks msg.rank_start j || revoked_by msgs j

-- Only the marks and their number change.
pub record Handled (s s' : RevokeState) : Type 0 where
  pub counted : IsCounted s'
  pub grows : s.global ≤ s'.global
  pub same_size : s'.group_size ≡ s.group_size
  pub same_local : s'.local ≡ s.local
  pub same_pending : s'.from_sps ≡ s.from_sps

pub handle_msgs-shown :
    (msgs : List SpMsg) (s : RevokeState)
    → (c : IsCounted s) → AllFit s.num s.group_size msgs
    → (s' : RevokeState) × (handle_msgs s msgs ≡ some s')
      × (h : Handled s s') × ((j : ℕ)
          → has h.counted.bitset j ≡ (has c.bitset j || revoked_by msgs j))
unfolding handle_msgs handle_pending_msg create revoked_by
handle_msgs-shown [] s c fit = (
  s,
  refl,
  record {
    counted = c;
    grows = omega arith;
    same_size = refl;
    same_local = refl;
    same_pending = refl;
  },
  λ j. or-false (has c.bitset j),
)
handle_msgs-shown (msg ∷ msgs) s c fit =
    let (b, n, e, w) =
      mark_ranks-Marked s.group_size msg.ranks msg.rank_start c.bitset c.marks_ok fit.1 in
    let up = w.counted in
    let count = c.counted in
    let s1 : RevokeState = record s { marks = some b; global = s.global + n } in
    let c1 : IsCounted s1 = record {
      bitset = b;
      bitset_eq = refl;
      marks_ok = w.marks_ok;
      counted = omega (arith, up, count);
    } in
    let (s', run, h, shows) = handle_msgs-shown msgs s1 c1 fit.2 in
    let seq : (msg.gp_seq_num == s.num) ≡ true = let q = fit.0 in ground arith in
    (
      s',
      rw (seq, c.bitset_eq, e) run,
      record {
        counted = h.counted;
        grows = let g = h.grows in omega arith;
        same_size = h.same_size;
        same_local = h.same_local;
        same_pending = h.same_pending;
      },
      λ j.
          shows j
          ∙ rw (w.shows j)
              (or_assoc (has c.bitset j) (revokes msg.ranks msg.rank_start j) (revoked_by msgs j)),
    )

-- A rank of a complete group may revoke it: it did not yet, and the counters are in range.
pub record IsRevocable (s : RevokeState) (msg : RankMsg) (b : Bitset) : Type 0 where
  pub initialized : s.initialized ≡ true
  pub some_local : 0 < s.n_local_ranks
  pub some_populated : 0 < s.n_local_ranks_populated
  pub local_in : s.local ≤ s.n_local_ranks
  pub complete : s.group_size ≡ s.num_local_entries
  pub seq : msg.group_seq_num ≡ s.num
  pub rank_in : msg.group_rank < s.group_size
  pub not_yet : has b msg.group_rank ≡ false
  pub some_sp_rank : 0 < s.sp_ranks
  pub sp_ranks_in : s.sp_ranks ≤ s.group_size

-- Past the asserts, the rank is marked and counted.
handle_directly :
    (s s' : RevokeState) (msg : RankMsg) (b b' : Bitset) (broadcast : Bool)
    → s.marks ≡ some b
    → IsRevocable s msg b
    → test b msg.group_rank ≡ some (has b msg.group_rank)
    → set_bit b msg.group_rank ≡ some b'
    → s.global < s.group_size
    → all_local (record s { marks = some b'; local = s.local + 1; global = s.global + 1 })
      ≡ ok (s', broadcast)
    → handle_revoke_from_rank s msg ≡ ok (s', (broadcast, is_final s'))
unfolding handle_revoke_from_rank
handle_directly s s' msg b b' broadcast marks r here e low run =
    let a1 : ltb 0 s.n_local_ranks ≡ true = let q = r.some_local in ground arith in
    let a2 : ltb 0 s.n_local_ranks_populated ≡ true = let q = r.some_populated in ground arith in
    let a3 : leb s.global s.group_size ≡ true = ground arith in
    let a4 : leb s.local s.n_local_ranks ≡ true = let q = r.local_in in ground arith in
    let a5 : (s.group_size == s.num_local_entries) ≡ true = let q = r.complete in ground arith in
    let a6 : (msg.group_seq_num == s.num) ≡ true = let q = r.seq in ground arith in
    let a7 : leb (s.global + 1) s.group_size ≡ true = ground arith in
    let a8 : ltb 0 s.sp_ranks ≡ true = let q = r.some_sp_rank in ground arith in
    let a9 : leb s.sp_ranks s.group_size ≡ true = let q = r.sp_ranks_in in ground arith in
    rw (a1, a2, a3, a4, marks, here, r.not_yet, a5, a6, e, a7, a8, a9, run, r.initialized)

-- A rank of a complete group revokes it, and the messages that wait fit the group. The revoke is
-- broadcast and the waiting messages are handled exactly if it was the last local rank. Then exactly
-- the ranks are marked that were before, the rank itself and, if the messages are handled, those that
-- they revoke; the counter of all revokes is the number of marked ranks. The final revoke is sent
-- exactly if all ranks are marked then and it was not sent before.
pub handle_revoke_from_rank-IsCounted :
    (s : RevokeState) (msg : RankMsg)
    → (c : IsCounted s) → IsRevocable s msg c.bitset
    → AllFit s.num s.group_size s.from_sps
    → (s' : RevokeState) × (handle_revoke_from_rank s msg
        ≡ ok (s', (s.local + 1 == s.sp_ranks, is_final s')))
      × (c' : IsCounted s') × ((j : ℕ)
          → has c'.bitset j ≡ (
              (if msg.group_rank == j then true else has c.bitset j)
              || (if s.local + 1 == s.sp_ranks then revoked_by s.from_sps j else false)))
      × (s'.local ≡ s.local + 1)
      × (s.global + 1 ≤ s'.global)
      × (s'.group_size ≡ s.group_size)
      × (s'.from_sps ≡ (if s.local + 1 == s.sp_ranks then [] else s.from_sps))
unfolding all_local handle_pending_revokes
handle_revoke_from_rank-IsCounted s msg c r fit =
    let g = c.marks_ok.group_bitset in
    let inside : msg.group_rank < room c.bitset = let q = r.rank_in in omega (arith, g.roomy) in
    let here = test-has c.bitset msg.group_rank inside in
    let (b', e, w) = set_bit-Wrote c.bitset msg.group_rank g.bytes inside in
    let (g', up) = popcount-Wrote g inside w r.not_yet in
    let count = c.counted in
    let m' : IsMarks s.group_size b' = record {
      group_bitset = g';
      inside = λ j le. w.reads j ∙ past j le;
    } in
    let old = popcount-bounded s.group_size c.bitset c.marks_ok in
    let new = popcount-bounded s.group_size b' m' in
    let s1 : RevokeState = record s {
      marks = some b';
      local = s.local + 1;
      global = s.global + 1;
    } in
    let c1 : IsCounted s1 = record {
      bitset = b';
      bitset_eq = refl;
      marks_ok = m';
      counted = omega (arith, up, count);
    } in
    let low : s.global < s.group_size = omega (arith, up, count, new) in
    elim (Bool-cases (s.local + 1 == s.sp_ranks)) [
      | inr more ↦ (
        s1,
        handle_directly s s1 msg c.bitset b' false c.bitset_eq r here e low (rw more) ∙ rw more,
        c1,
        λ j.
            let still = w.reads j in
            let whole = or-false (if msg.group_rank == j then true else has c.bitset j) in
            rw more (still ∙ whole),
        refl,
        omega arith,
        refl,
        rw more,
      )
      | inl last ↦
          let (s', run, h, shows) =
            handle_msgs-shown s.from_sps (record s1 { from_sps = [] })
              (record {
                bitset = b';
                bitset_eq = refl;
                marks_ok = m';
                counted = omega (arith, up, count);
              })
              fit in
          let b2 = bounded s' h.counted in
          (
            s',
            handle_directly s s' msg c.bitset b' true c.bitset_eq r here e low (rw (last, run, b2))
                ∙ rw last,
            h.counted,
            λ j. rw last (shows j ∙ ap (λ t. t || revoked_by s.from_sps j) (w.reads j)),
            h.same_local,
            h.grows,
            h.same_size,
            h.same_pending ∙ rw last,
          )
    ]
  where
    past :
        (j : ℕ) → s.group_size ≤ j → (if msg.group_rank == j then true else has c.bitset j) ≡ false
    past j le =
        let q = r.rank_in in
        let miss : (msg.group_rank == j) ≡ false = ground arith in
        let m = c.marks_ok in rw miss (m.inside j le)

    bounded : (s' : RevokeState) → IsCounted s' → leb s'.global s'.group_size ≡ true
    bounded s' c' =
        let q = popcount-bounded s'.group_size c'.bitset c'.marks_ok in
        let k = c'.counted in ground arith
