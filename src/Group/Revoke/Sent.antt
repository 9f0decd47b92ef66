-- ===== src/Group/Revoke/Sent.antt =====
-- The messages that a service process sends about a revoke say which ranks it marked.
use dpu_offload_service.Prelude.{
  ℕ, zero, suc, ◌+◌, ◌-◌, ◌≤◌, ◌<◌, ◌≡◌, refl, ap, ◌∙◌, inl, inr, Bool, true, false, ◌&&◌, ◌||◌,
  some, List, [], ◌∷◌, arith, ◌==◌, leb, ltb, if◌then◌else◌, Bool-cases, length,
}
use dpu_offload_service.Bitset.{Bitset}
use dpu_offload_service.Bitset.Laws.{has, room, test-has}
use dpu_offload_service.Group.Revoke.{SpMsg, RevokeState, handle_msgs}
use dpu_offload_service.Group.Revoke.Laws.{IsMarks, IsCounted, revokes}
use dpu_offload_service.Group.Revoke.Pending.{AllFit, Handled, revoked_by, handle_msgs-shown}
use dpu_offload_service.Group.Revoke.Send.{
  read_marks, num_to_send, send_revokes, send_local_revokes,
}

-- The marks from `lo` up to `hi`.
abbrev within : Bitset → ℕ → ℕ → ℕ → Bool
within b lo hi j = (leb lo j && ltb j hi) && has b j

-- The mark of one rank, where `y` is its bit and `x` that of `idx`.
one_mark :
    (idx n j : ℕ) (x y : Bool)
    → (idx ≡ j → x ≡ y)
    → (((idx == j) && ((if x then 1 else 0) == 1))
        || ((leb (idx + 1) j && ltb j (idx + 1 + n)) && y))
      ≡ ((leb idx j && ltb j (idx + suc n)) && y)
one_mark idx n j x y same = elim (Bool-cases (idx == j)) [
  | inl here ↦ let e = same (ground arith) in ground (arith, e)
  | inr there ↦ ground arith
]

first_mark :
    (b : Bitset) (idx n j : ℕ)
    → (((idx == j) && ((if has b idx then 1 else 0) == 1)) || within b (idx + 1) (idx + 1 + n) j)
      ≡ within b idx (idx + suc n) j
first_mark b idx n j = one_mark idx n j (has b idx) (has b j) (λ e. ap (has b) e)

read_marks-Read :
    (b : Bitset) (n idx : ℕ)
    → idx + n ≤ room b
    → (ranks : List ℕ) × (read_marks b n idx ≡ some ranks)
      × (length ranks ≡ n)
      × ((j : ℕ) → revokes ranks idx j ≡ within b idx (idx + n) j)
unfolding read_marks
read_marks-Read b zero idx h = ([], refl, refl, λ j. ground arith)
read_marks-Read b (suc n) idx h =
    let (ranks, run, len, shows) = read_marks-Read b n (idx + 1) (omega arith) in
    (
      (if has b idx then 1 else 0) ∷ ranks,
      rw (test-has b idx (omega arith), run) refl,
      omega (arith, len),
      λ j. rw (shows j) (first_mark b idx n j),
    )

joined :
    (b : Bitset) (lo mid hi j : ℕ)
    → lo ≤ mid
    → mid ≤ hi
    → (within b lo mid j || within b mid hi j) ≡ within b lo hi j
joined b lo mid hi j h h' = ground arith

send_revokes-sent :
    (gs num : ℕ) (b : Bitset) (fuel sent left : ℕ)
    → gs ≤ room b
    → sent + left ≡ gs
    → left ≤ fuel
    → (msgs : List SpMsg) × (send_revokes gs num b fuel sent left ≡ some msgs)
      × AllFit num gs msgs
      × ((j : ℕ) → revoked_by msgs j ≡ within b sent gs j)
unfolding send_revokes revoked_by
send_revokes-sent gs num b zero sent left roomy e h =
    let over : ltb sent gs ≡ false = ground arith in
    ([], rw (over, send_revokes) refl, tt, λ j. ground arith)
send_revokes-sent gs num b (suc fuel) sent left roomy e h = elim (Bool-cases (ltb sent gs)) [
  | inr over ↦ ([], rw (over, send_revokes) refl, tt, λ j. ground arith)
  | inl more ↦
      let n = num_to_send left in
      let fits : n ≤ left = ground arith in
      let some_sent : 0 < n = ground arith in
      let (ranks, read, len, shows) = read_marks-Read b n sent (omega arith) in
      let (msgs, run, fit, others) =
        send_revokes-sent gs num b fuel (sent + n) (left - n) roomy (omega arith) (omega arith) in
      (
        record { gp_seq_num = num; group_size = gs; rank_start = sent; ranks = ranks } ∷ msgs,
        rw (more, read, run, send_revokes) refl,
        (refl, omega (arith, len, fits, e), fit),
        λ j. rw (shows j, others j) (joined b sent (sent + n) gs j (omega arith) (omega arith)),
      )
]

all_marks : (gs : ℕ) (b : Bitset) (j : ℕ) → IsMarks gs b → within b 0 gs j ≡ has b j
all_marks gs b j m = elim (Bool-cases (ltb j gs)) [
  | inl below ↦ ground arith
  | inr past ↦ let off = m.inside j (ground arith) in ground (arith, off)
]

-- A service process sends the marks `b` of a group that has ranks, and another one, which counts its own marks of
-- the same version of the group, handles the messages. The loop that sends ends, within as many rounds
-- as the group has ranks, without an access outside of the bitset. The receiver handles all messages,
-- and has then marked exactly the ranks that it or the sender had marked, each counted once.
pub send_local_revokes-received :
    (b : Bitset) (s : RevokeState)
    → 0 < s.group_size
    → IsMarks s.group_size b
    → (c : IsCounted s)
    → (msgs : List SpMsg) × (s' : RevokeState) × (send_local_revokes s.group_size s.num b
        ≡ some msgs)
      × (handle_msgs s msgs ≡ some s')
      × (h : Handled s s') × ((j : ℕ) → has h.counted.bitset j ≡ (has c.bitset j || has b j))
send_local_revokes-received b s pos m c =
    let gs = s.group_size in
    let roomy : gs ≤ room b = m.group_bitset.roomy in
    let (msgs, sent, fit, told) =
      send_revokes-sent gs s.num b gs 0 gs roomy (omega arith) (omega arith) in
    let (s', run, h, shows) = handle_msgs-shown msgs s c fit in
    let known : ltb 0 gs ≡ true = ground arith in
    (
      msgs,
      s',
      rw known sent,
      run,
      h,
      λ j. shows j ∙ ap (λ (x : Bool). has c.bitset j || x) (told j ∙ all_marks gs b j m),
    )
