-- ===== src/Prelude/Count.antt =====
-- Boolean predicates on indices: how many of the first `n` hold, and which, in order.
use Prim.Native.Nat.{ℕ, zero, suc, ◌+◌, ◌≤◌, ◌<◌}
use mathlib.Core.Path.{◌≡◌, refl}
use mathlib.Core.Logic.{inl, inr}
use mathlib.Core.Bool.{Bool, true, false}
use mathlib.Core.Option.{some}
use mathlib.Core.List.{List, [], ◌∷◌}
use native.Mathlib.Omega.{arith}
use native.Mathlib.Nat.{zero-add}
use dpu_offload_service.Prelude.Tests.{◌==◌, if◌then◌else◌, Bool-cases}
use dpu_offload_service.Prelude.Lists.{length, get_elem?}

abbrev pub to_nat : Bool → ℕ
to_nat true = 1
to_nat false = 0

-- How many of `i, …, i + n - 1` satisfy `p`.
unfoldable pub count_from : (ℕ → Bool) → ℕ → ℕ → ℕ
count_from p i zero = 0
count_from p i (suc n) = to_nat (p i) + count_from p (i + 1) n

-- How many of `0, …, n - 1` satisfy `p`.
abbrev pub count : (ℕ → Bool) → ℕ → ℕ
count p n = count_from p 0 n

-- Those indices, in increasing order.
unfoldable pub bits_from : (ℕ → Bool) → ℕ → ℕ → List ℕ
bits_from p i zero = []
bits_from p i (suc n) = let rest = bits_from p (i + 1) n in if p i then i ∷ rest else rest

abbrev pub bits : (ℕ → Bool) → ℕ → List ℕ
bits p n = bits_from p 0 n

pub bits_from-zero : (p : ℕ → Bool) (i : ℕ) → bits_from p i 0 ≡ []
unfolding bits_from
bits_from-zero p i = refl

module _ (p : ℕ → Bool) (i n : ℕ) where
  pub bits_from-on : p i ≡ true → bits_from p i (suc n) ≡ i ∷ bits_from p (i + 1) n
  unfolding bits_from
  bits_from-on e = rw e

  pub bits_from-off : p i ≡ false → bits_from p i (suc n) ≡ bits_from p (i + 1) n
  unfolding bits_from
  bits_from-off e = rw e

  pub count_from-on : p i ≡ true → count_from p i (suc n) ≡ suc (count_from p (i + 1) n)
  unfolding count_from
  count_from-on e = ground arith

  pub count_from-off : p i ≡ false → count_from p i (suc n) ≡ count_from p (i + 1) n
  unfolding count_from
  count_from-off e = ground arith

-- `p` with the answer at `k` replaced.
abbrev pub mark : (ℕ → Bool) → ℕ → Bool → ℕ → Bool
mark p k b j = if k == j then b else p j

pub length-bits_from : (p : ℕ → Bool) (i n : ℕ) → length (bits_from p i n) ≡ count_from p i n
unfolding bits_from count_from
length-bits_from p i zero = refl
length-bits_from p i (suc n) = ground (arith, length-bits_from p (i + 1) n)

pub count_from-mark_below :
    (p : ℕ → Bool) (k : ℕ) (b : Bool) (i n : ℕ)
    → k < i
    → count_from (mark p k b) i n ≡ count_from p i n
unfolding count_from
count_from-mark_below p k b i zero h = refl
count_from-mark_below p k b i (suc n) h = ground (arith, count_from-mark_below p k b (i + 1) n)

pub count_from-mark_above :
    (p : ℕ → Bool) (k : ℕ) (b : Bool) (i n : ℕ)
    → i + n ≤ k
    → count_from (mark p k b) i n ≡ count_from p i n
unfolding count_from
count_from-mark_above p k b i zero h = refl
count_from-mark_above p k b i (suc n) h = ground (arith, count_from-mark_above p k b (i + 1) n)

-- Marking an index in range changes the count by the difference of the answers there.
pub count_from-mark :
    (p : ℕ → Bool) (k : ℕ) (b : Bool) (i n : ℕ)
    → i ≤ k
    → k < i + n
    → count_from (mark p k b) i n + to_nat (p k) ≡ count_from p i n + to_nat b
unfolding count_from
count_from-mark p k b i zero lo hi = absurd (omega arith)
count_from-mark p k b i (suc n) lo hi = elim (Bool-cases (k == i)) [
  | inl here ↦ ground (arith, count_from-mark_below p k b (i + 1) n)
  | inr later ↦ ground (arith, count_from-mark p k b (i + 1) n)
]

pub count_from_congr :
    (p q : ℕ → Bool) (i n : ℕ)
    → ((j : ℕ) → i ≤ j → j < i + n → p j ≡ q j)
    → count_from p i n ≡ count_from q i n
unfolding count_from
count_from_congr p q i zero h = refl
count_from_congr p q i (suc n) h =
    ground (arith, h i, count_from_congr p q (i + 1) n (λ j lo hi. h j (omega arith) (omega arith)))

pub bits_from_congr :
    (p q : ℕ → Bool) (i n : ℕ)
    → ((j : ℕ) → i ≤ j → j < i + n → p j ≡ q j)
    → bits_from p i n ≡ bits_from q i n
unfolding bits_from
bits_from_congr p q i zero h = refl
bits_from_congr p q i (suc n) h =
    ground (arith, h i, bits_from_congr p q (i + 1) n (λ j lo hi. h j (omega arith) (omega arith)))

pub count_from_none : (p : ℕ → Bool) (i n : ℕ) → ((j : ℕ) → p j ≡ false) → count_from p i n ≡ 0
unfolding count_from
count_from_none p i zero h = refl
count_from_none p i (suc n) h = ground (arith, h i, count_from_none p (i + 1) n h)

pub count_from-le : (p : ℕ → Bool) (i n : ℕ) → count_from p i n ≤ n
unfolding count_from
count_from-le p i zero = omega arith
count_from-le p i (suc n) = ground (arith, count_from-le p (i + 1) n)

get_elem?-cons {ℓ} :
    {A : Type ℓ} (x : A) (xs : List A) (n : ℕ) → get_elem? (x ∷ xs) (1 + n) ≡ get_elem? xs n
get_elem?-cons x xs n = let e : 1 + n ≡ suc n = omega arith in rw e

-- The index that satisfies `p` stands in the list behind as many as satisfy it below.
pub get_elem?-bits_from :
    (p : ℕ → Bool) (i n k : ℕ)
    → k < n
    → p (i + k) ≡ true
    → get_elem? (bits_from p i n) (count_from p i k) ≡ some (i + k)
unfolding bits_from count_from
get_elem?-bits_from p i zero k h e = absurd (omega arith)
get_elem?-bits_from p i (suc n) zero h e = let e' : p i ≡ true = ground arith in ground arith
get_elem?-bits_from p i (suc n) (suc k) h e =
    let shift : i + suc k ≡ i + 1 + k = omega arith in
    let ih = get_elem?-bits_from p (i + 1) n k (omega arith) (rw (← shift) e) in
    elim (Bool-cases (p i)) [
      | inl t ↦ rw (t, shift, get_elem?-cons) ih
      | inr f ↦ rw (f, shift, zero-add) ih
    ]

-- One more index at the end, which is counted.
pub count_from-last :
    (p : ℕ → Bool) (i n : ℕ) → p (i + n) ≡ true → count_from p i (suc n) ≡ suc (count_from p i n)
unfolding count_from
count_from-last p i zero e =
    let here : i + 0 ≡ i = omega arith in let e' : p i ≡ true = rw here at e in rw e'
count_from-last p i (suc n) e =
    let shift : i + suc n ≡ i + 1 + n = omega arith in
    omega (arith, count_from-last p (i + 1) n (rw shift at e))

-- What is listed satisfies the predicate.
pub bits_from_sound :
    (p : ℕ → Bool) (i n j k : ℕ) → get_elem? (bits_from p i n) j ≡ some k → p k ≡ true
unfolding bits_from
bits_from_sound p i zero j k e = absurd cc
bits_from_sound p i (suc n) j k e = elim (Bool-cases (p i)) [
  | inr off ↦ bits_from_sound p (i + 1) n j k (rw off at e)
  | inl on ↦ listed (bits_from_sound p (i + 1) n) on j (rw on at e)
]
  where
    listed :
        ((j k : ℕ) → get_elem? (bits_from p (i + 1) n) j ≡ some k → p k ≡ true)
        → p i ≡ true
        → (j : ℕ) → get_elem? (i ∷ bits_from p (i + 1) n) j ≡ some k
        → p k ≡ true
    listed rest on zero e = let q : i ≡ k = cc in rw (← q) on
    listed rest on (suc j) e = rest j k e

pub count_from_mono : (p : ℕ → Bool) (i k n : ℕ) → k ≤ n → count_from p i k ≤ count_from p i n
unfolding count_from
count_from_mono p i zero n h = omega arith
count_from_mono p i (suc k) zero h = absurd (omega arith)
count_from_mono p i (suc k) (suc n) h = omega (arith, count_from_mono p (i + 1) k n (omega arith))

-- Nothing is counted past a bound.
pub count_from_bounded :
    (p : ℕ → Bool) (i m n : ℕ) → ((j : ℕ) → i + m ≤ j → p j ≡ false) → count_from p i n ≤ m
unfolding count_from
count_from_bounded p i m zero h = omega arith
count_from_bounded p i zero (suc n) h =
    let off = h i (omega arith) in
    ground (arith, off, count_from_bounded p (i + 1) 0 n (λ j le. h j (omega arith)))
count_from_bounded p i (suc m) (suc n) h =
    ground (arith, count_from_bounded p (i + 1) m n (λ j le. h j (omega arith)))
