-- ===== src/Utils/Ranges/Laws.antt =====
-- Which entries a service process sends, and in which messages.
use dpu_offload_service.Prelude.{
  ℕ, zero, suc, ◌+◌, ◌≤◌, ◌<◌, ◌≡◌, refl, sym, ap, ◌∙◌, inl, inr, Bool, true, false, not, ◌&&◌,
  ◌||◌, Option, none, some, List, [], ◌∷◌, arith, ◌==◌, ltb, if◌then◌else◌, Bool-cases, length,
}
use mathlib.Core.Path.{subst}
use dpu_offload_service.Utils.Ranges.{
  RankEntry, is_full, begins, breaks, count_one, find_range, send_local_ranks,
}

-- The ranks of a service process, from `idx` on.
unfoldable pub local_ranks : ℕ → List RankEntry → ℕ → List ℕ
local_ranks local_id [] idx = []
local_ranks local_id (e ∷ es) idx =
    if e.is_set && (e.sp == local_id)
    then idx ∷ local_ranks local_id es (idx + 1)
    else local_ranks local_id es (idx + 1)

-- Every entry that is set has a rank.
unfoldable pub all_valid : List RankEntry → Bool
all_valid [] = true
all_valid (e ∷ es) = (not e.is_set || e.is_valid) && all_valid es

-- One message for each rank.
unfoldable pub one_by_one : List ℕ → List (ℕ × ℕ)
one_by_one [] = []
one_by_one (k ∷ ks) = (k, 1) ∷ one_by_one ks

-- A range of one entry, after which the ranks `ks` are left.
record Single (local_id total cur : ℕ) (found : Option ℕ) (count : ℕ) (es : List RankEntry)
    (idx k : ℕ) (ks : List ℕ) : Type 0 where
  cur_idx : ℕ
  rest : List RankEntry
  run :
      find_range local_id total cur found count es idx
      ≡ some (record { range_start = k; num = 1; cur_idx = cur_idx; rest = rest })
  left : local_ranks local_id rest cur_idx ≡ ks
  valid : all_valid rest ≡ true

done :
    (local_id total cur idx : ℕ)
    → cur + 1 + length (local_ranks local_id [] idx) ≡ total
    → (cur + 1 == total) ≡ true
unfolding local_ranks
done local_id total cur idx e = ground (arith, e)

module _ {local_id total cur : ℕ} {found found' : Option ℕ} {count count' idx k : ℕ}
    {ks : List ℕ} where
  -- One round of the loop.
  moved :
      (x : RankEntry) (xs : List RankEntry)
      → find_range local_id total cur found count (x ∷ xs) idx
        ≡ find_range local_id total cur found' count' xs (idx + 1)
      → Single local_id total cur found' count' xs (idx + 1) k ks
      → Single local_id total cur found count (x ∷ xs) idx k ks
  moved x xs same s = record {
    cur_idx = s.cur_idx;
    rest = s.rest;
    run = same ∙ s.run;
    left = s.left;
    valid = s.valid;
  }

module _ (local_id total cur : ℕ) (found : Option ℕ) (x : RankEntry) (xs : List RankEntry)
    (idx : ℕ) where
  round_unset :
      (count : ℕ)
      → is_full found (cur + count) total ≡ false
      → x.is_set ≡ false
      → find_range local_id total cur found count (x ∷ xs) idx
        ≡ find_range local_id total cur found count xs (idx + 1)
  unfolding find_range
  round_unset count more unset = rw (more, unset, find_range) refl

module _ (local_id total cur : ℕ) (x : RankEntry) (xs : List RankEntry) (idx : ℕ) where
  round_mine :
      x.is_set ≡ true
      → (x.sp == local_id) ≡ true
      → find_range local_id total cur none 0 (x ∷ xs) idx
        ≡ find_range local_id total cur (some idx) 1 xs (idx + 1)
  unfolding find_range
  round_mine set mine =
      let here : ltb idx idx ≡ false = ground arith in
      let begun : begins local_id none x idx ≡ some idx = rw mine refl in
      let counted : count_one local_id (some idx) x 0 ≡ 1 = rw mine refl in
      rw (set, begun, here, mine, find_range)
        (ap (λ (n : ℕ). find_range local_id total cur (some idx) n xs (idx + 1)) counted)

  round_other :
      x.is_set ≡ true
      → (x.sp == local_id) ≡ false
      → find_range local_id total cur none 0 (x ∷ xs) idx
        ≡ find_range local_id total cur none 0 xs (idx + 1)
  unfolding find_range
  round_other set other = simp (set, other, find_range, begins, count_one, breaks)

unset_lem :
    (local_id : ℕ) (x : RankEntry) (xs : List RankEntry) (idx : ℕ)
    → x.is_set ≡ false
    → local_ranks local_id (x ∷ xs) idx ≡ local_ranks local_id xs (idx + 1)
unfolding local_ranks
unset_lem local_id x xs idx unset = rw unset refl

mine_lem :
    (local_id : ℕ) (x : RankEntry) (xs : List RankEntry) (idx : ℕ)
    → x.is_set ≡ true
    → (x.sp == local_id) ≡ true
    → local_ranks local_id (x ∷ xs) idx ≡ idx ∷ local_ranks local_id xs (idx + 1)
unfolding local_ranks
mine_lem local_id x xs idx set mine = rw (set, mine, local_ranks) refl

other_lem :
    (local_id : ℕ) (x : RankEntry) (xs : List RankEntry) (idx : ℕ)
    → x.is_set ≡ true
    → (x.sp == local_id) ≡ false
    → local_ranks local_id (x ∷ xs) idx ≡ local_ranks local_id xs (idx + 1)
unfolding local_ranks
other_lem local_id x xs idx set other = rw (set, other, local_ranks) refl

valid_tail : (x : RankEntry) (xs : List RankEntry) → all_valid (x ∷ xs) ≡ true → all_valid xs ≡ true
unfolding all_valid
valid_tail x xs v = ground (arith, v)

valid_head :
    (x : RankEntry) (xs : List RankEntry)
    → all_valid (x ∷ xs) ≡ true
    → x.is_set ≡ true
    → x.is_valid ≡ true
unfolding all_valid
valid_head x xs v set = ground (arith, v, set)

-- After its first rank, a range ends at the next entry that is set.
find_range-Single :
    (local_id total cur k : ℕ) (es : List RankEntry) (idx : ℕ)
    → k < idx
    → all_valid es ≡ true
    → cur + 1 + length (local_ranks local_id es idx) ≡ total
    → Single local_id total cur (some k) 1 es idx k (local_ranks local_id es idx)
unfolding find_range
find_range-Single local_id total cur k [] idx h v e =
    let full : (cur + 1 == total) ≡ true = done local_id total cur idx e in
    record { cur_idx = idx; rest = []; run = rw full refl; left = refl; valid = v }
find_range-Single local_id total cur k (x ∷ xs) idx h v e = elim (Bool-cases (cur + 1 == total)) [
  | inl full ↦ record {
    cur_idx = idx;
    rest = x ∷ xs;
    run = rw (full, find_range) refl;
    left = refl;
    valid = v;
  }
  | inr more ↦ elim (Bool-cases x.is_set) [
    | inl set ↦
        let past : ltb k idx ≡ true = ground arith in
        record {
          cur_idx = idx;
          rest = x ∷ xs;
          run = simp (more, set, past, valid_head x xs v set, find_range);
          left = refl;
          valid = v;
        }
    | inr unset ↦
        let same = unset_lem local_id x xs idx unset in
        rw same (
          moved x xs (round_unset local_id total cur (some k) x xs idx 1 more unset) (
            find_range-Single local_id total cur k xs (idx + 1) (omega arith) (valid_tail x xs v)
              (rw (← same) e)))
  ]
]

no_ranks : {k : ℕ} {ks : List ℕ} (local_id idx : ℕ) → ¬ (local_ranks local_id [] idx ≡ k ∷ ks)
unfolding local_ranks
no_ranks local_id idx h = absurd (cc h)

-- The search from anywhere finds the first rank and stops there.
find_range_local_ranks-Single :
    (local_id total cur k : ℕ) (ks : List ℕ) (es : List RankEntry) (idx : ℕ)
    → all_valid es ≡ true
    → local_ranks local_id es idx ≡ k ∷ ks
    → cur + 1 + length ks ≡ total
    → Single local_id total cur none 0 es idx k ks
unfolding find_range
find_range_local_ranks-Single local_id total cur k ks [] idx v l e =
    absurd (no_ranks local_id idx l)
find_range_local_ranks-Single local_id total cur k ks (x ∷ xs) idx v l e =
    elim (Bool-cases x.is_set) [
      | inl set ↦ elim (Bool-cases (x.sp == local_id)) [
        | inl mine ↦
            let split = sym (mine_lem local_id x xs idx set mine) ∙ l in
            let first : idx ≡ k = cc split in
            let others : local_ranks local_id xs (idx + 1) ≡ ks = cc split in
            subst (λ (n : ℕ). Single local_id total cur none 0 (x ∷ xs) idx n ks) first
              (moved x xs (round_mine local_id total cur x xs idx set mine) (
                subst (λ (l : List ℕ). Single local_id total cur (some idx) 1 xs (idx + 1) idx l)
                  others
                  (find_range-Single local_id total cur idx xs (idx + 1) (omega arith)
                    (valid_tail x xs v) (rw others e))))
        | inr other ↦ moved x xs (round_other local_id total cur x xs idx set other) (
            find_range_local_ranks-Single local_id total cur k ks xs (idx + 1) (valid_tail x xs v)
              (sym (other_lem local_id x xs idx set other) ∙ l) e)
      ]
      | inr unset ↦ moved x xs (round_unset local_id total cur none x xs idx 0 refl unset) (
          find_range_local_ranks-Single local_id total cur k ks xs (idx + 1) (valid_tail x xs v)
            (sym (unset_lem local_id x xs idx unset) ∙ l) e)
    ]

module _ (local_id total count : ℕ) (es : List RankEntry) (idx : ℕ) where
  -- One message.
  send_one :
      (fuel k : ℕ) (ks : List ℕ)
      → count < total
      → (s : Single local_id total count none 0 es idx k ks)
      → send_local_ranks local_id total fuel (count + 1) s.rest s.cur_idx ≡ some (one_by_one ks)
      → send_local_ranks local_id total (suc fuel) count es idx ≡ some (one_by_one (k ∷ ks))
  unfolding send_local_ranks one_by_one
  send_one fuel k ks more s sent =
      let open_loop : ltb count total ≡ true = ground arith in
      rw (open_loop, s.run, sent, send_local_ranks) refl

  no_more :
      (fuel : ℕ)
      → ltb count total ≡ false
      → send_local_ranks local_id total fuel count es idx ≡ some []
  unfolding send_local_ranks
  no_more zero e = rw (e, send_local_ranks) refl
  no_more (suc fuel) e = rw (e, send_local_ranks) refl

send_ranks :
    (local_id total fuel count : ℕ) (ks : List ℕ) (es : List RankEntry) (idx : ℕ)
    → all_valid es ≡ true
    → local_ranks local_id es idx ≡ ks
    → count + length ks ≡ total
    → length ks ≤ fuel
    → send_local_ranks local_id total fuel count es idx ≡ some (one_by_one ks)
unfolding one_by_one
send_ranks local_id total fuel count [] es idx v l e h =
    no_more local_id total count es idx fuel (ground (arith, e))
send_ranks local_id total zero count (k ∷ ks) es idx v l e h = absurd (omega (arith, h))
send_ranks local_id total (suc fuel) count (k ∷ ks) es idx v l e h =
    let s = find_range_local_ranks-Single local_id total count k ks es idx v l (omega (arith, e)) in
    send_one local_id total count es idx fuel k ks (omega (arith, e)) s (
      send_ranks local_id total fuel (count + 1) ks s.rest s.cur_idx s.valid s.left
        (omega (arith, e)) (omega (arith, h)))

-- Where every entry of the group that is set has a rank, and the total is the number of ranks that the
-- service process has in it: enough fuel is given by that number, the loop ends, and it sends the
-- entries of exactly these ranks, in order, each once and each in a message of its own.
pub send_local_ranks-one_by_one :
    (local_id total fuel count : ℕ) (es : List RankEntry) (idx : ℕ)
    → all_valid es ≡ true
    → count + length (local_ranks local_id es idx) ≡ total
    → length (local_ranks local_id es idx) ≤ fuel
    → send_local_ranks local_id total fuel count es idx
      ≡ some (one_by_one (local_ranks local_id es idx))
send_local_ranks-one_by_one local_id total fuel count es idx v e h =
    send_ranks local_id total fuel count (local_ranks local_id es idx) es idx v refl e h
