-- ===== src/Group/Tables/Lids.antt =====
-- The loop of `populate_host_sps`: which local ids it gives to the service processes of a host.
use dpu_offload_service.Prelude.{
  ℕ, zero, suc, ◌≢◌, ◌+◌, ◌<◌, ◌≡◌, refl, ◌∙◌, inl, inr, true, false, Option, none, some, arith,
  ◌==◌, Bool-cases,
}
use native.Mathlib.Nat.{zero-add}
use dpu_offload_service.Prelude.Count.{
  count_from, bits_from, bits_from-on, bits_from-off, count_from-on, count_from-off,
}
use dpu_offload_service.Bitset.{Bitset}
use dpu_offload_service.Bitset.Laws.{has, room, test-has}
use dpu_offload_service.Hash.{
  Hash, lookup, put, lookup-put, size, Distinct, put-Distinct, size-put_known,
}
use dpu_offload_service.Group.{SpData}
use dpu_offload_service.Group.Update.Invariant.{is_some}
use dpu_offload_service.Group.Tables.{number_sps}
use dpu_offload_service.Group.Tables.Walk.{no_bits, count_from-zero}

-- The entry with another local id.
abbrev pub relid : ℕ → Option SpData → Option SpData
relid l none = none
relid l (some d) = some (record d { lid = l })

-- From bit `i` on, the set bits of `b` are numbered from `n`; nothing else changes.
pub record Numbered (b : Bitset) (fuel n i : ℕ) (sps sps' : Hash SpData) : Type 0 where
  pub lids :
      (j : ℕ)
      → j < fuel
      → has b (i + j) ≡ true
      → lookup (i + j) sps' ≡ relid (n + count_from (has b) i j) (lookup (i + j) sps)
  pub below : (k : ℕ) → k < i → lookup k sps' ≡ lookup k sps
  pub clear : (k : ℕ) → has b k ≡ false → lookup k sps' ≡ lookup k sps
  pub same : (k : ℕ) → relid 0 (lookup k sps') ≡ relid 0 (lookup k sps)
  pub sized : size sps' ≡ size sps
  pub tidy : Distinct sps → Distinct sps'

pub is_some-some : (o : Option SpData) → is_some o ≡ true → (d : SpData) × (o ≡ some d)
is_some-some none h = absurd cc
is_some-some (some d) h = (d, refl)

pub relid-some : (l : ℕ) (o : Option SpData) → is_some (relid l o) ≡ is_some o
relid-some l none = refl
relid-some l (some d) = refl

none_on :
    (b : Bitset) (fuel i j : ℕ)
    → 0 ≡ count_from (has b) i fuel
    → j < fuel
    → has b (i + j) ≡ true
    → ⊥
none_on b zero i j e h on = omega arith
none_on b (suc fuel) i zero e h on =
    let q : i + 0 ≡ i = omega arith in
    let on' : has b i ≡ true = rw q at on in omega (arith, e ∙ count_from-on (has b) i fuel on')
none_on b (suc fuel) i (suc j) e h on = elim (Bool-cases (has b i)) [
  | inl marked ↦ omega (arith, e ∙ count_from-on (has b) i fuel marked)
  | inr off ↦
      let q : i + suc j ≡ i + 1 + j = omega arith in
      none_on b fuel (i + 1) j (e ∙ count_from-off (has b) i fuel off) (omega arith) (rw q at on)
]

stays :
    (b : Bitset) (fuel n i : ℕ) (sps : Hash SpData)
    → 0 ≡ count_from (has b) i fuel
    → Numbered b fuel n i sps sps
stays b fuel n i sps e = record {
  lids = λ j h on. absurd (none_on b fuel i j e h on);
  below = λ k h. refl;
  clear = λ k h. refl;
  same = λ k. refl;
  sized = refl;
  tidy = λ d. d;
}

module _ (b : Bitset) (fuel n i : ℕ) (sps sps' : Hash SpData) where
  step_off :
      has b i ≡ false → Numbered b fuel n (i + 1) sps sps' → Numbered b (suc fuel) n i sps sps'
  step_off off s = record {
    lids = lids';
    below = λ k h. s.below k (omega arith);
    clear = s.clear;
    same = s.same;
    sized = s.sized;
    tidy = s.tidy;
  }
    where
      lids' :
          (j : ℕ)
          → j < suc fuel
          → has b (i + j) ≡ true
          → lookup (i + j) sps' ≡ relid (n + count_from (has b) i j) (lookup (i + j) sps)
      lids' zero h on =
          let q : i + 0 ≡ i = omega arith in let on' : has b i ≡ true = rw q at on in absurd cc
      lids' (suc j) h on =
          let q : i + suc j ≡ i + 1 + j = omega arith in
          rw (q, count_from-off (has b) i j off) (s.lids j (omega arith) (rw q at on))

  step_on :
      (d : SpData)
      → has b i ≡ true
      → lookup i sps ≡ some d
      → Numbered b fuel (n + 1) (i + 1) (put i (record d { lid = n }) sps) sps'
      → Numbered b (suc fuel) n i sps sps'
  step_on d on present s = record {
    lids = lids';
    below = λ k h. s.below k (omega arith) ∙ other k (omega arith);
    clear = λ k c. s.clear k c ∙ elim (Bool-cases (i == k)) [
      | inl here ↦ let q : i ≡ k = ground arith in absurd (let c' : has b i ≡ false = rw q c in cc)
      | inr there ↦ rw (lookup-put i k (record d { lid = n }) sps, there)
    ];
    same = λ k.
        s.same k
        ∙ rw (lookup-put i k (record d { lid = n }) sps) (elim (Bool-cases (i == k)) [
          | inl here ↦ let q : i ≡ k = ground arith in rw (here, ← q, present)
          | inr there ↦ rw there
        ]);
    sized = s.sized ∙ size-put_known i _ d sps present;
    tidy = λ t. s.tidy (put-Distinct i _ sps t);
  }
    where
      other : (k : ℕ) → i ≢ k → lookup k (put i (record d { lid = n }) sps) ≡ lookup k sps
      other k ne =
          let miss : (i == k) ≡ false = ground arith in
          rw (lookup-put i k (record d { lid = n }) sps, miss)

      lids' :
          (j : ℕ)
          → j < suc fuel
          → has b (i + j) ≡ true
          → lookup (i + j) sps' ≡ relid (n + count_from (has b) i j) (lookup (i + j) sps)
      lids' zero h on' =
          let q : i + 0 ≡ i = omega arith in
          let none_yet : n + count_from (has b) i 0 ≡ n =
            omega (arith, count_from-zero (has b) i) in
          let hit : (i == i) ≡ true = ground arith in
          rw (
            none_yet,
            q,
            present,
            s.below i (omega arith),
            lookup-put i i (record d { lid = n }) sps,
            hit,
          )
      lids' (suc j) h on' =
          let q : i + suc j ≡ i + 1 + j = omega arith in
          let nth : n + count_from (has b) i (suc j) ≡ n + 1 + count_from (has b) (i + 1) j =
            omega (arith, count_from-on (has b) i j on) in
          rw (q, nth, ← other (i + 1 + j) (λ e. omega arith)) (s.lids j (omega arith) (rw q at on'))

pub number_sps-Numbered :
    (b : Bitset) (fuel left n i : ℕ) (sps : Hash SpData)
    → i + fuel ≡ room b
    → left ≡ count_from (has b) i fuel
    → ((k : ℕ) → has b k ≡ true → is_some (lookup k sps) ≡ true)
    → (sps' : Hash SpData) × (number_sps b fuel left n i sps
        ≡ some (sps', bits_from (has b) i fuel))
      × Numbered b fuel n i sps sps'
unfolding number_sps
number_sps-Numbered b zero zero n i sps h e known =
    (sps, rw (no_bits (has b) i 0 e), stays b 0 n i sps e)
number_sps-Numbered b zero (suc left) n i sps h e known =
    absurd (omega (arith, e ∙ count_from-zero (has b) i))
number_sps-Numbered b (suc fuel) zero n i sps h e known =
    (sps, rw (no_bits (has b) i (suc fuel) e), stays b (suc fuel) n i sps e)
number_sps-Numbered b (suc fuel) (suc left) n i sps h e known =
    let here = test-has b i (omega (arith, h)) in
    elim (Bool-cases (has b i)) [
      | inl marked ↦
          let e' : left ≡ count_from (has b) (i + 1) fuel =
            omega (arith, e, count_from-on (has b) i fuel marked) in
          let (d, present) = is_some-some (lookup i sps) (known i marked) in
          let (sps', q, s) =
            number_sps-Numbered b fuel left (n + 1) (i + 1) (put i (record d { lid = n }) sps)
              (omega (arith, h)) e' (known_on i (record d { lid = n }) sps known) in
          (
            sps',
            rw (here, marked, present, q, bits_from-on (has b) i fuel marked),
            step_on b fuel n i sps sps' d marked present s,
          )
      | inr off ↦
          let e' : suc left ≡ count_from (has b) (i + 1) fuel =
            e ∙ count_from-off (has b) i fuel off in
          let (sps', q, s) =
            number_sps-Numbered b fuel (suc left) n (i + 1) sps (omega (arith, h)) e' known in
          (
            sps',
            rw (here, off, q, bits_from-off (has b) i fuel off),
            step_off b fuel n i sps sps' off s,
          )
    ]
  where
    known_on :
        (i : ℕ) (d : SpData) (sps : Hash SpData)
        → ((k : ℕ) → has b k ≡ true → is_some (lookup k sps) ≡ true)
        → (k : ℕ) → has b k ≡ true
        → is_some (lookup k (put i d sps)) ≡ true
    known_on i d sps known k on =
        rw (lookup-put i k d sps)
          (elim (Bool-cases (i == k)) [ inl here ↦ rw here | inr there ↦ rw there (known k on) ])

-- Numbering from the first bit on.
pub Numbered-count :
    (b : Bitset) (fuel : ℕ) (sps sps' : Hash SpData)
    → Numbered b fuel 0 0 sps sps'
    → (k : ℕ) → k < fuel
    → has b k ≡ true
    → lookup k sps' ≡ relid (count_from (has b) 0 k) (lookup k sps)
Numbered-count b fuel sps sps' s k h on =
    rw (zero-add k, zero-add (count_from (has b) 0 k)) at (s.lids k h (rw zero-add on))
