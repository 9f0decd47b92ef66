-- ===== src/Size.antt =====
-- `size_t` and `uint64_t` arithmetic: it wraps at 2 ^ 64. The loops of include/dynamic_structs.h and
-- the counters of include/dpu_offload_types.h are written with it.
use dpu_offload_service.Prelude.{
  ℕ, ◌+◌, ◌-◌, ◌*◌, ◌%◌, ◌^◌, ◌<◌, ◌≤◌, ◌≡◌, inl, inr, true, false, Bool-cases, leb, leb→le, arith,
}
use native.Mathlib.Nat.{
  mod-eq_of_lt, mul-le-mul_right, le-mul_of_pos_right, mul_comm, le_of_mul-le-mul_right,
}

abbrev pub word : ℕ
word = 2 ^ 64

-- UINT64_MAX and SIZE_MAX
abbrev pub uint64_max : ℕ
uint64_max = 2 ^ 64 - 1

unfoldable pub add_size : ℕ → ℕ → ℕ
add_size a b = (a + b) % word

unfoldable pub mul_size : ℕ → ℕ → ℕ
mul_size a b = (a * b) % word

-- a - b
unfoldable pub sub_size : ℕ → ℕ → ℕ
sub_size a b = (a + (word - b % word)) % word

pub add_size-eq : (a b : ℕ) → a + b < word → add_size a b ≡ a + b
unfolding add_size
add_size-eq a b h = mod-eq_of_lt h

pub mul_size-eq : (a b : ℕ) → a * b < word → mul_size a b ≡ a * b
unfolding mul_size
mul_size-eq a b h = mod-eq_of_lt h

pub sub_size-eq : (a b : ℕ) → b ≤ a → a < word → sub_size a b ≡ a - b
unfolding sub_size
sub_size-eq a b h k = omega arith

-- A count whose elements fit in memory fits in a word itself, and so does any smaller count.
pub count-lt-word : (n m sz : ℕ) → 0 < sz → n ≤ m → m * sz < word → n < word
count-lt-word n m sz hs h k = omega (arith, le-mul_of_pos_right m hs, mul_comm m sz)

pub bytes-lt-word : (n m sz : ℕ) → n ≤ m → m * sz < word → n * sz < word
bytes-lt-word n m sz h k = omega (arith, mul-le-mul_right sz h)

-- A test on byte sizes is a test on counts, as long as no product wraps.
pub leb-mul_size :
    (a b sz : ℕ)
    → 0 < sz
    → a * sz < word
    → b * sz < word
    → leb (mul_size a sz) (mul_size b sz) ≡ leb a b
leb-mul_size a b sz h p q =
    rw (mul_size-eq a sz p, mul_size-eq b sz q)
      (elim (Bool-cases (leb a b)) [
        | inl t ↦ rw t (le→leb (a * sz) (b * sz) (mul-le-mul_right sz (leb→le a b t)))
        | inr f ↦
            rw f (not_leb (a * sz) (b * sz) (λ le. absurd (above f (le_of_mul-le-mul_right le h))))
      ])
  where
    above : leb a b ≡ false → a ≤ b → ⊥
    above f le = ground arith

    not_leb : (x y : ℕ) → (x ≤ y → ⊥) → leb x y ≡ false
    not_leb x y no_le = ground arith

    le→leb : (x y : ℕ) → x ≤ y → leb x y ≡ true
    le→leb x y le = ground arith
