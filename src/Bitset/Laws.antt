-- ===== src/Bitset/Laws.antt =====
-- What the bitset macros do, read through one predicate on indices.
use Prim.Native.Nat.{bit_and, bit_or, bit_and-bitwise}
use dpu_offload_service.Prelude.{
  ℕ, zero, suc, ◌+◌, ◌-◌, ◌*◌, ◌/◌, ◌%◌, ◌^◌, ◌≤◌, ◌<◌, ◌≡◌, refl, ap, inl, inr, Bool, true, false,
  not, ◌&&◌, none, some, [], ◌∷◌, arith, ◌==◌, if◌then◌else◌, Bool-cases, ==_iff, length, get_elem?,
  get_or, set, replicate, length-set, length-replicate, ltb,
}
use dpu_offload_service.Prelude.Count.{mark}
use dpu_offload_service.Bitset.{
  Bitset, set_bit, clear_bit, test, test_int, nslots, alloc_bitset, create,
}
use dpu_offload_service.Size.{word}
use native.Mathlib.Nat.{mod-eq_of_lt}

-- Every slot is a byte.
abbrev pub IsBytes : Bitset → Type 0
IsBytes [] = Unit {0}
IsBytes (s ∷ b) = (s < 256) × IsBytes b

-- Bit `k` of a byte.
abbrev bit_of : ℕ → ℕ → Bool
bit_of s k = not (bit_and s (2 ^ k) == 0)

-- The bit at an index; past the end there is none.
unfoldable pub has : Bitset → ℕ → Bool
has b i = bit_of (get_or b (i / 8) 0) (i % 8)

-- Do all numbers below the bound pass the test?
every : (ℕ → Bool) → ℕ → Bool
every passes zero = true
every passes (suc bound) = every passes bound && passes bound

every_passes :
    (passes : ℕ → Bool) (bound : ℕ)
    → every passes bound ≡ true
    → (k : ℕ) → k < bound
    → passes k ≡ true
unfolding every
every_passes passes zero all k below = absurd (omega arith)
every_passes passes (suc bound) all k below =
    let both : (every passes bound ≡ true) × (passes bound ≡ true) = ground arith in
    elim (Bool-cases (k == bound)) [
      | inl last ↦ let e : k ≡ bound = ground arith in rw e both.1
      | inr earlier ↦ every_passes passes bound both.0 k (ground arith)
    ]

same : Bool → Bool → Bool
same true b = b
same false b = not b

same→eq : (a b : Bool) → same a b ≡ true → a ≡ b
unfolding same
same→eq true b h = ground arith
same→eq false b h = ground arith

abbrev set_ok : ℕ → ℕ → ℕ → Bool
set_ok s k j = same (bit_of (bit_or s (2 ^ k)) j) (if k == j then true else bit_of s j)

set_table : every (λ s. every (λ k. every (λ j. set_ok s k j) 8) 8) 256 ≡ true
unfolding every same
set_table = refl

abbrev clear_ok : ℕ → ℕ → ℕ → Bool
clear_ok s k j = same (bit_of (bit_and s (255 - 2 ^ k)) j) (if k == j then false else bit_of s j)

clear_table : every (λ s. every (λ k. every (λ j. clear_ok s k j) 8) 8) 256 ≡ true
unfolding every same
clear_table = refl

bit_of-bit_or :
    (s k j : ℕ)
    → s < 256
    → k < 8
    → j < 8
    → bit_of (bit_or s (2 ^ k)) j ≡ (if k == j then true else bit_of s j)
bit_of-bit_or s k j hs hk hj =
    same→eq _ _ (every_passes _ 8 (every_passes _ 8 (every_passes _ 256 set_table s hs) k hk) j hj)

bit_of-bit_and :
    (s k j : ℕ)
    → s < 256
    → k < 8
    → j < 8
    → bit_of (bit_and s (255 - 2 ^ k)) j ≡ (if k == j then false else bit_of s j)
bit_of-bit_and s k j hs hk hj =
    same→eq _ _
      (every_passes _ 8 (every_passes _ 8 (every_passes _ 256 clear_table s hs) k hk) j hj)

byte_table :
    every (λ s. every (λ k. ltb (bit_or s (2 ^ k)) 256 && ltb (bit_and s (255 - 2 ^ k)) 256) 8) 256
    ≡ true
unfolding every
byte_table = refl

bytes_stay :
    (s k : ℕ) → s < 256 → k < 8 → (bit_or s (2 ^ k) < 256) × (bit_and s (255 - 2 ^ k) < 256)
bytes_stay s k hs hk =
    let t = every_passes _ 8 (every_passes _ 256 byte_table s hs) k hk in ground (arith, t)

get_or-IsBytes : (b : Bitset) (i : ℕ) → IsBytes b → get_or b i 0 < 256
get_or-IsBytes [] i h = omega arith
get_or-IsBytes (s ∷ b) zero h = h.0
get_or-IsBytes (s ∷ b) (suc i) h = get_or-IsBytes b i h.1

set-IsBytes : (b : Bitset) (i v : ℕ) → v < 256 → IsBytes b → IsBytes (set b i v)
set-IsBytes [] i v hv h = tt
set-IsBytes (s ∷ b) zero v hv h = (hv, h.1)
set-IsBytes (s ∷ b) (suc i) v hv h = (h.0, set-IsBytes b i v hv h.1)

get_elem?-get_or : (b : Bitset) (i : ℕ) → i < length b → get_elem? b i ≡ some (get_or b i 0)
get_elem?-get_or [] i h = absurd (omega arith)
get_elem?-get_or (s ∷ b) zero h = refl
get_elem?-get_or (s ∷ b) (suc i) h = get_elem?-get_or b i (omega arith)

get_elem?-past : (b : Bitset) (i : ℕ) → length b ≤ i → get_elem? b i ≡ none
get_elem?-past [] i h = refl
get_elem?-past (s ∷ b) zero h = absurd (omega arith)
get_elem?-past (s ∷ b) (suc i) h = get_elem?-past b i (omega arith)

get_or-set :
    (b : Bitset) (i j v : ℕ)
    → i < length b
    → get_or (set b i v) j 0 ≡ (if i == j then v else get_or b j 0)
get_or-set [] i j v h = absurd (omega arith)
get_or-set (s ∷ b) zero zero v h = refl
get_or-set (s ∷ b) zero (suc j) v h = ground arith
get_or-set (s ∷ b) (suc i) zero v h = ground arith
get_or-set (s ∷ b) (suc i) (suc j) v h = ground (arith, get_or-set b i j v)

-- How many bits there is room for.
abbrev pub room : Bitset → ℕ
room b = 8 * length b

-- A test in the array reads the bit, and one outside of it is an access out of bounds.
pub test-has : (b : Bitset) (i : ℕ) → i < room b → test b i ≡ some (has b i)
unfolding test has
test-has b i h = rw (get_elem?-get_or b (i / 8) (omega arith))

pub test-past : (b : Bitset) (i : ℕ) → room b ≤ i → test b i ≡ none
unfolding test
test-past b i h = rw (get_elem?-past b (i / 8) (omega arith))

no_bits : (k : ℕ) → bit_of 0 k ≡ false
no_bits k = let e : bit_and 0 (2 ^ k) ≡ 0 = bit_and-bitwise 0 (2 ^ k) in rw e

pub has-past : (b : Bitset) (i : ℕ) → room b ≤ i → has b i ≡ false
unfolding has
has-past b i h = rw (get_or-past b (i / 8) (omega arith)) (no_bits (i % 8))
  where
    get_or-past : (b : Bitset) (i : ℕ) → length b ≤ i → get_or b i 0 ≡ 0
    get_or-past [] i h = refl
    get_or-past (s ∷ b) zero h = absurd (omega arith)
    get_or-past (s ∷ b) (suc i) h = get_or-past b i (omega arith)

-- What a write of one bit leaves behind.
pub record Wrote (b : Bitset) (i : ℕ) (v : Bool) (b' : Bitset) : Type 0 where
  pub bytes : IsBytes b'
  pub width : length b' ≡ length b
  pub reads : (j : ℕ) → has b' j ≡ mark (has b) i v j

index_ne : (i j : ℕ) → (i / 8 == j / 8) ≡ false → (i == j) ≡ false
index_ne i j h = ground arith

index_split : (i j : ℕ) → (i / 8 == j / 8) ≡ true → (i % 8 == j % 8) ≡ (i == j)
index_split i j h = ground arith

-- The one computation behind both writes: slot `i / 8` gets `v'`, whose bits are known.
write_bit :
    (b : Bitset) (i v' : ℕ) (v : Bool)
    → IsBytes b
    → i < room b
    → v' < 256
    → ((j : ℕ) → j < 8 → bit_of v' j ≡ (if i % 8 == j then v else bit_of (get_or b (i / 8) 0) j))
    → Wrote b i v (set b (i / 8) v')
unfolding has
write_bit b i v' v hb h hv known = record {
  bytes = set-IsBytes b (i / 8) v' hv hb;
  width = length-set b (i / 8) v';
  reads = λ j.
      rw (get_or-set b (i / 8) (j / 8) v' (omega arith)) (elim (Bool-cases (i / 8 == j / 8)) [
        | inl same_slot ↦
            rw (same_slot, known (j % 8) (omega arith), index_split i j same_slot)
              (let e : i / 8 ≡ j / 8 = (==_iff _ _).0 same_slot in rw e)
        | inr other ↦ rw (other, index_ne i j other)
      ]);
}

-- GROUP_CACHE_BITSET_SET inside an array of bytes sets that bit and no other.
pub set_bit-Wrote :
    (b : Bitset) (i : ℕ)
    → IsBytes b
    → i < room b
    → (b' : Bitset) × (set_bit b i ≡ some b') × Wrote b i true b'
unfolding set_bit
set_bit-Wrote b i hb h =
    let s = get_or b (i / 8) 0 in
    let hs = get_or-IsBytes b (i / 8) hb in
    (
      set b (i / 8) (bit_or s (2 ^ (i % 8))),
      rw (get_elem?-get_or b (i / 8) (omega arith)),
      write_bit b i _ true hb h (bytes_stay s (i % 8) hs (omega arith)).0
          (λ j hj. bit_of-bit_or s (i % 8) j hs (omega arith) hj),
    )

-- GROUP_CACHE_BITSET_CLEAR inside an array of bytes clears that bit and no other.
pub clear_bit-Wrote :
    (b : Bitset) (i : ℕ)
    → IsBytes b
    → i < room b
    → (b' : Bitset) × (clear_bit b i ≡ some b') × Wrote b i false b'
unfolding clear_bit
clear_bit-Wrote b i hb h =
    let s = get_or b (i / 8) 0 in
    let hs = get_or-IsBytes b (i / 8) hb in
    (
      set b (i / 8) (bit_and s (255 - 2 ^ (i % 8))),
      rw (get_elem?-get_or b (i / 8) (omega arith)),
      write_bit b i _ false hb h (bytes_stay s (i % 8) hs (omega arith)).1
          (λ j hj. bit_of-bit_and s (i % 8) j hs (omega arith) hj),
    )

replicate-zero : (n i : ℕ) → get_or {A = ℕ} (replicate n 0) i 0 ≡ 0
replicate-zero zero i = refl
replicate-zero (suc n) zero = refl
replicate-zero (suc n) (suc i) = replicate-zero n i

replicate-width : (n : ℕ) → length {A = ℕ} (replicate n 0) ≡ n
replicate-width n = length-replicate n 0

replicate-IsBytes : (n : ℕ) → IsBytes (replicate n 0)
replicate-IsBytes zero = tt
replicate-IsBytes (suc n) = (omega arith, replicate-IsBytes n)

-- Room for that many bits, and fewer than eight more, all clear.
pub record Fresh (size : ℕ) (b : Bitset) : Type 0 where
  pub bytes : IsBytes b
  pub roomy : size ≤ room b
  pub tight : room b < size + 8
  pub empty : (j : ℕ) → has b j ≡ false

-- GROUP_CACHE_BITSET_CREATE of a bitset that is not there, at a size above zero: it has room for that
-- many bits, and for fewer than eight more, all clear.
pub create-Fresh : (size : ℕ) → 0 < size → (b : Bitset) × (create none size ≡ some b) × Fresh size b
unfolding create has
create-Fresh size h =
    let n = (size + 8 - 1) / 8 in
    let e : (n == 0) ≡ false = ground arith in
    (
      replicate n 0,
      rw e,
      record {
        bytes = replicate-IsBytes n;
        roomy = omega (arith, replicate-width n);
        tight = omega (arith, replicate-width n);
        empty = λ j. rw (replicate-zero n (j / 8)) (no_bits (j % 8));
      },
    )

-- GROUP_CACHE_BITSET_CREATE of a bitset that is not there, at a size above 0 and below 2 ^ 64: below
-- 2 ^ 64 - 7 it asks for memory and leaves NULL if that is refused; else the bitset has room for that
-- many bits, and for fewer than eight more, all clear. From 2 ^ 64 - 7 on an assert fails.
pub alloc_bitset-Fresh :
    (allocates : ℕ → Bool) (size : ℕ)
    → 0 < size
    → size < word
    → (b : Bitset) × Fresh size b
      × (alloc_bitset allocates none size ≡ (
          if ltb (size + 7) word
          then some (if allocates (nslots size) then some b else none)
          else none))
unfolding alloc_bitset nslots has
alloc_bitset-Fresh allocates size h below =
    let n = (size + 8 - 1) / 8 in
    let fresh : Fresh size (replicate n 0) = record {
      bytes = replicate-IsBytes n;
      roomy = omega (arith, replicate-width n);
      tight = omega (arith, replicate-width n);
      empty = λ j. rw (replicate-zero n (j / 8)) (no_bits (j % 8));
    } in
    elim (Bool-cases (ltb (size + 7) word)) [
      | inl fits ↦
          let small : size + 8 - 1 < word = ground arith in
          let plain : (size + 8 - 1) % word ≡ size + 8 - 1 = mod-eq_of_lt small in
          let slots : nslots size ≡ n = ap (λ k. k / 8) plain in
          let some_slots : (n == 0) ≡ false = ground arith in
          (replicate n 0, fresh, rw (fits, slots, some_slots) refl)
      | inr wraps ↦
          let large : word ≤ size + 7 = ground arith in
          let slots : nslots size ≡ 0 = omega arith in
          (replicate n 0, fresh, rw (wraps, slots) refl)
    ]

-- The conversion to `int` changes no index below 2 ^ 31.
pub test_int-eq : (b : Bitset) (i : ℕ) → i < 2 ^ 31 → test_int b i ≡ test b i
unfolding test_int
test_int-eq b i h =
    let same : i % 2 ^ 32 ≡ i = mod-eq_of_lt (omega arith) in
    let small : ltb i (2 ^ 31) ≡ true = ground arith in rw (same, small) refl

-- GROUP_CACHE_BITSET_SET past the end writes out of the array.
pub set_bit-past : (b : Bitset) (i : ℕ) → room b ≤ i → set_bit b i ≡ none
unfolding set_bit
set_bit-past b i h = rw (get_elem?-past b (i / 8) (omega arith))
