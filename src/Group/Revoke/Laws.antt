-- ===== src/Group/Revoke/Laws.antt =====
-- The revokes that a service process counts are the ranks that it marks.
use dpu_offload_service.Prelude.{
  ℕ, ◌+◌, ◌≤◌, ◌<◌, ◌≡◌, refl, sym, ◌∙◌, inl, inr, Bool, true, false, not, ◌&&◌, ◌||◌, some, List,
  [], ◌∷◌, arith, ◌==◌, leb, ltb, if◌then◌else◌, Bool-cases, length,
}
use dpu_offload_service.Prelude.Count.{count_from_bounded}
use dpu_offload_service.Prelude.Result.{ok}
use dpu_offload_service.Bitset.{Bitset, set_bit}
use dpu_offload_service.Bitset.Laws.{has, room, test-has, set_bit-Wrote}
use dpu_offload_service.Group.Update.Invariant.{popcount, IsGroupBitset}
use dpu_offload_service.Group.Update.Sps.{popcount-Wrote}
use dpu_offload_service.Group.Revoke.{
  SpMsg, RevokeState, mark_ranks, is_early, are_in_range, learn_size, handle_revoke_from_sp,
}

-- A bitset of the group without marks past the group's size.
pub record IsMarks (gs : ℕ) (b : Bitset) : Type 0 where
  pub group_bitset : IsGroupBitset gs b
  pub inside : (j : ℕ) → gs ≤ j → has b j ≡ false

-- Does a message whose marks start at `idx` revoke for rank `j`.
abbrev pub revokes : List ℕ → ℕ → ℕ → Bool
revokes [] idx j = false
revokes (r ∷ rs) idx j = ((idx == j) && (r == 1)) || revokes rs (idx + 1) j

-- What marking does: as many bits more as it says, and the marks of the message beside the old ones.
pub record Marked (gs : ℕ) (b : Bitset) (rs : List ℕ) (idx : ℕ) (b' : Bitset) (n : ℕ) : Type 0 where
  pub marks_ok : IsMarks gs b'
  pub counted : popcount b' ≡ popcount b + n
  pub shows : (j : ℕ) → has b' j ≡ (has b j || revokes rs idx j)

skipped : (x y : Bool) → (x && not y) ≡ false → y ≡ (y || x)
skipped true true h = refl
skipped true false h = absurd cc
skipped false true h = refl
skipped false false h = refl

taken : (x y : Bool) → (x && not y) ≡ true → x ≡ true
taken true y h = refl
taken false y h = absurd cc

pub or-false : (x : Bool) → x ≡ (x || false)
or-false true = refl
or-false false = refl

pub or_assoc : (x y z : Bool) → ((x || y) || z) ≡ (x || (y || z))
or_assoc true y z = refl
or_assoc false y z = refl

or-true : (x : Bool) → true ≡ (x || true)
or-true true = refl
or-true false = refl

-- One mark.
mark_one :
    (gs : ℕ) (b : Bitset) (r idx : ℕ)
    → IsMarks gs b
    → idx < gs
    → (b' : Bitset) × ((if (r == 1) && not (has b idx) then set_bit b idx else some b) ≡ some b')
      × IsMarks gs b'
      × (popcount b' ≡ popcount b + (if (r == 1) && not (has b idx) then 1 else 0))
      × ((j : ℕ) → has b' j ≡ (has b j || ((idx == j) && (r == 1))))
mark_one gs b r idx m h = elim (Bool-cases ((r == 1) && not (has b idx))) [
  | inr skip ↦ (b, rw skip, m, rw skip (omega arith), λ j. same j skip)
  | inl go ↦
      let g = m.group_bitset in
      let off : has b idx ≡ false = ground arith in
      let inside : idx < room b = omega (arith, g.roomy) in
      let (b', e, w) = set_bit-Wrote b idx g.bytes inside in
      let (g', up) = popcount-Wrote g inside w off in
      (
        b',
        rw (go, e),
        record { group_bitset = g'; inside = λ j le. w.reads j ∙ past j le },
        rw go up,
        λ j. w.reads j ∙ sets j go,
      )
]
  where
    past : (j : ℕ) → gs ≤ j → (if idx == j then true else has b j) ≡ false
    past j le = let miss : (idx == j) ≡ false = ground arith in rw miss (m.inside j le)

    same :
        (j : ℕ)
        → ((r == 1) && not (has b idx)) ≡ false
        → has b j ≡ (has b j || ((idx == j) && (r == 1)))
    same j skip = elim (Bool-cases (idx == j)) [
      | inl here ↦
          let e : idx ≡ j = ground arith in
          rw here (let skip' = rw e at skip in skipped (r == 1) (has b j) skip')
      | inr there ↦ rw there (or-false (has b j))
    ]

    sets :
        (j : ℕ)
        → ((r == 1) && not (has b idx)) ≡ true
        → (if idx == j then true else has b j) ≡ (has b j || ((idx == j) && (r == 1)))
    sets j go =
        let one = taken (r == 1) (has b idx) go in
        elim (Bool-cases (idx == j)) [
          | inl here ↦ rw (here, one) (or-true (has b j))
          | inr there ↦ rw there (or-false (has b j))
        ]

-- Marking the ranks of a message that stays below the group's size succeeds.
pub mark_ranks-Marked :
    (gs : ℕ) (rs : List ℕ) (idx : ℕ) (b : Bitset)
    → IsMarks gs b
    → idx + length rs ≤ gs
    → (b' : Bitset) × (n : ℕ) × (mark_ranks rs idx b ≡ some (b', n)) × Marked gs b rs idx b' n
unfolding mark_ranks
mark_ranks-Marked gs [] idx b m h =
    (b, 0, refl, record { marks_ok = m; counted = omega arith; shows = λ j. or-false (has b j) })
mark_ranks-Marked gs (r ∷ rs) idx b m h =
    let here = test-has b idx (let g = m.group_bitset in omega (arith, g.roomy)) in
    let (b1, e1, m1, up, shows1) = mark_one gs b r idx m (omega arith) in
    let (b', n, e2, w) = mark_ranks-Marked gs rs (idx + 1) b1 m1 (omega arith) in
    (
      b',
      (if (r == 1) && not (has b idx) then n + 1 else n),
      rw (here, e1, e2),
      record {
        marks_ok = w.marks_ok;
        counted = total b' b1 n ((r == 1) && not (has b idx)) up w.counted;
        shows = λ j.
            w.shows j
            ∙ rw (shows1 j) (or_assoc (has b j) ((idx == j) && (r == 1)) (revokes rs (idx + 1) j));
      },
    )
  where
    total :
        (b' b1 : Bitset) (n : ℕ) (new : Bool)
        → popcount b1 ≡ popcount b + (if new then 1 else 0)
        → popcount b' ≡ popcount b1 + n
        → popcount b' ≡ popcount b + (if new then n + 1 else n)
    total b' b1 n true up c = omega (arith, up, c)
    total b' b1 n false up c = omega (arith, up, c)

-- The state of a group that is being revoked: the counter of revokes is the number of marked ranks.
pub record IsCounted (s : RevokeState) : Type 0 where
  pub bitset : Bitset
  pub bitset_eq : s.marks ≡ some bitset
  pub marks_ok : IsMarks s.group_size bitset
  pub counted : s.global ≡ popcount bitset

pub popcount-bounded : (gs : ℕ) (b : Bitset) → IsMarks gs b → popcount b ≤ gs
popcount-bounded gs b m =
    count_from_bounded (has b) 0 gs (room b) (λ j le. m.inside j (omega arith))

-- A message from another service process, of the version of a group with ranks and below its size,
-- that can be handled at once: the marks are those of the
-- message beside the old ones, the counter stays the number of marked ranks, and the final revoke is
-- sent exactly if the message brought a new rank, all ranks revoked the group and it was not sent.
pub handle_revoke_from_sp-IsCounted :
    (s : RevokeState) (msg : SpMsg)
    → (c : IsCounted s) → is_early s ≡ false
    → 0 < s.group_size
    → msg.gp_seq_num ≡ s.num
    → msg.rank_start + length msg.ranks ≤ s.group_size
    → (b' : Bitset) × (n : ℕ) × Marked s.group_size c.bitset msg.ranks msg.rank_start b' n
      × (handle_revoke_from_sp s msg
          ≡ ok (
            record s { marks = some b'; global = s.global + n },
            ltb 0 n && ((s.global + n == s.group_size) && ltb s.posted s.num),
          ))
      × IsCounted (record s { marks = some b'; global = s.global + n })
unfolding handle_revoke_from_sp learn_size
handle_revoke_from_sp-IsCounted s msg c late pos seq range =
    let (b', n, e, w) =
      mark_ranks-Marked s.group_size msg.ranks msg.rank_start c.bitset c.marks_ok range in
    let old = popcount-bounded s.group_size c.bitset c.marks_ok in
    let new = popcount-bounded s.group_size b' w.marks_ok in
    let up = w.counted in
    let count = c.counted in
    let bounded : leb s.global s.group_size ≡ true = ground arith in
    let sized : (s.group_size == 0) ≡ false = ground arith in
    let same_num : (msg.gp_seq_num == s.num) ≡ true = ground arith in
    let seq_ok : ((s.n_local_ranks == 0) || (msg.gp_seq_num == s.num)) ≡ true =
      rw same_num (sym (or-true (s.n_local_ranks == 0))) in
    let fits : leb (msg.rank_start + length msg.ranks) (s.group_size + 1) ≡ true = ground arith in
    let in_range : are_in_range msg s.group_size ≡ true =
      rw fits (sym (or-true (length msg.ranks == 0))) in
    let bounded' : leb (s.global + n) s.group_size ≡ true = ground arith in
    (
      b',
      n,
      w,
      rw (bounded, sized, seq_ok, late, c.bitset_eq, in_range, e, bounded'),
      record {
        bitset = b';
        bitset_eq = refl;
        marks_ok = w.marks_ok;
        counted = omega (arith, up, count);
      },
    )
