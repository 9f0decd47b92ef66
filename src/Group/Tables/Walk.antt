-- ===== src/Group/Tables/Walk.antt =====
-- The loops over a bitset: they end, and meet exactly the set bits, in increasing order.
use dpu_offload_service.Prelude.{
  ℕ, zero, suc, ◌+◌, ◌≡◌, refl, ◌∙◌, inl, inr, Bool, some, List, [], ◌∷◌, arith, Bool-cases, length,
}
use dpu_offload_service.Prelude.Count.{
  count_from, bits_from, bits_from-on, bits_from-off, count_from-on, count_from-off,
}
use dpu_offload_service.Bitset.{Bitset}
use dpu_offload_service.Bitset.Laws.{has, room, test-has}
use dpu_offload_service.Group.Tables.{collect}

-- What the loop stores for the indices that it meets.
abbrev pub elements : (ℕ → ℕ → ℕ) → ℕ → List ℕ → List ℕ
elements element n [] = []
elements element n (i ∷ l) = element n i ∷ elements element (n + 1) l

-- `0, 1, …`, as many as there are bits.
abbrev pub upto : ℕ → ℕ → List ℕ
upto n zero = []
upto n (suc m) = n ∷ upto (n + 1) m

pub elements-index : (n : ℕ) (l : List ℕ) → elements (λ m i. i) n l ≡ l
elements-index n [] = refl
elements-index n (i ∷ l) = rw (elements-index (n + 1) l)

pub elements-count : (n : ℕ) (l : List ℕ) → elements (λ m i. m) n l ≡ upto n (length l)
elements-count n [] = refl
elements-count n (i ∷ l) = rw (elements-count (n + 1) l)

pub no_bits : (p : ℕ → Bool) (i n : ℕ) → 0 ≡ count_from p i n → bits_from p i n ≡ []
unfolding count_from bits_from
no_bits p i zero e = refl
no_bits p i (suc n) e = elim (Bool-cases (p i)) [
  | inl marked ↦ absurd (ground arith)
  | inr clear ↦ rw (clear) (no_bits p (i + 1) n (ground arith))
]

pub count_from-zero : (p : ℕ → Bool) (i : ℕ) → count_from p i 0 ≡ 0
unfolding count_from
count_from-zero p i = refl

-- A walk that looks for as many bits as are set from `i` on finds exactly those.
pub collect-bits :
    (element : ℕ → ℕ → ℕ) (b : Bitset) (fuel left n i : ℕ)
    → i + fuel ≡ room b
    → left ≡ count_from (has b) i fuel
    → collect element b fuel left n i ≡ some (elements element n (bits_from (has b) i fuel))
unfolding collect
collect-bits element b zero zero n i h e = rw (no_bits (has b) i 0 e)
collect-bits element b zero (suc left) n i h e =
    absurd (omega (arith, e ∙ count_from-zero (has b) i))
collect-bits element b (suc fuel) zero n i h e = rw (no_bits (has b) i (suc fuel) e)
collect-bits element b (suc fuel) (suc left) n i h e =
    let here = test-has b i (omega (arith, h)) in
    elim (Bool-cases (has b i)) [
      | inl marked ↦
          let e' : left ≡ count_from (has b) (i + 1) fuel =
            omega (arith, e, count_from-on (has b) i fuel marked) in
          let rest = collect-bits element b fuel left (n + 1) (i + 1) (omega (arith, h)) e' in
          rw (here, marked, rest, bits_from-on (has b) i fuel marked)
      | inr clear ↦
          let e' : suc left ≡ count_from (has b) (i + 1) fuel =
            e ∙ count_from-off (has b) i fuel clear in
          let rest = collect-bits element b fuel (suc left) n (i + 1) (omega (arith, h)) e' in
          rw (here, clear, rest, bits_from-off (has b) i fuel clear)
    ]
