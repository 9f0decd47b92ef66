-- ===== src/DynArray/Init.antt =====
-- DYN_ARRAY_GROW on an array that has an element initialiser.
use dpu_offload_service.Prelude.{
  ℕ, zero, suc, ◌+◌, ◌-◌, ◌*◌, ◌≤◌, ◌<◌, ◌≡◌, inl, inr, Bool, true, none, some, List, ◌++◌, arith,
  leb, length, length-append, length-set, length-replicate, get_elem?, set, take, replicate,
  Option-cases,
}
use dpu_offload_service.Size.{word, mul_size-eq, sub_size-eq, count-lt-word, bytes-lt-word}
use mathlib.Core.Path.{subst, sym}
use native.Mathlib.Nat.{mul-div_cancel}
use dpu_offload_service.DynArray.{DynArray, grow_target, cleared, init_new, init_if_set, grow}
use dpu_offload_service.DynArray.Grow.{Target, grow_target-total, take-length, get_elem?-past}

module _ {ℓ} {A : Type ℓ} (fn : A → A) (c : ℕ) where
  -- The last round touches an element that lies behind the memory.
  init_new-none :
      (m x : ℕ) (base : List A)
      → length base ≤ c + (c + x) + m
      → init_new fn c x (suc m) base ≡ none
  unfolding init_new
  init_new-none zero x base h = rw (get_elem?-past base (c + (c + x)) (omega arith))
  init_new-none (suc m) x base h = elim (Option-cases (get_elem? base (c + (c + x)))) [
    | inl past ↦ rw past
    | inr (e, here) ↦ rw here (
        init_new-none m (x + 1) (set base (c + (c + x)) (fn e))
          (omega (arith, length-set base (c + (c + x)) (fn e))))
  ]

-- An array with an initialiser that has to grow, where memory is available and no size wraps, is
-- accessed out of bounds, whatever it holds.
pub grow-init_faults {ℓ} :
    {A : Type ℓ} (z : A) (allocates : ℕ → Bool) (a : DynArray A) (idx : ℕ) (fn : A → A)
    → length a.base ≡ a.capacity
    → 0 < a.capacity
    → 0 < a.allocation_size
    → 0 < a.type_size
    → a.element_init_fn ≡ some fn
    → a.capacity ≤ idx
    → (idx + a.allocation_size) * a.type_size < word
    → ((bytes : ℕ) → allocates bytes ≡ true)
    → grow z allocates a idx ≡ none
unfolding grow cleared init_if_set
grow-init_faults {A = A} z allocates a idx fn full pos step sized has_fn le small mem =
    let (n, run, t) =
      grow_target-total (suc idx) a.type_size a.allocation_size idx a.capacity sized step
        (omega arith) small (omega arith) (omega arith) in
    finish n run t
  where
    finish :
        (n : ℕ)
        → grow_target (suc idx) a.type_size a.allocation_size idx a.capacity ≡ some n
        → Target a.capacity a.allocation_size idx n
        → grow z allocates a idx ≡ none
    finish n run t =
        let fits = bytes-lt-word n (idx + a.allocation_size) a.type_size t.near small in
        let n_word = count-lt-word n n a.type_size sized (omega arith) fits in
        let old : take a.capacity a.base ≡ a.base = rw (← full) (take-length a.base) in
        let leb_refl : leb n n ≡ true = ground arith in
        let rounds : n - a.capacity ≡ suc (n - a.capacity - 1) = omega (arith, t.above) in
        let fresh = a.base ++ replicate (n - a.capacity) z in
        let width : length fresh ≤ a.capacity + (a.capacity + 0) + (n - a.capacity - 1) = omega (
          arith,
          length-append a.base (replicate (n - a.capacity) z),
          length-replicate (n - a.capacity) z,
          t.above,
        ) in
        let crash : init_new fn a.capacity 0 (n - a.capacity) fresh ≡ none =
          subst (λ k. init_new fn a.capacity 0 k fresh ≡ none) (sym rounds)
            (init_new-none fn a.capacity (n - a.capacity - 1) 0 fresh width) in
        rw (
          run,
          mem,
          mul_size-eq n a.type_size fits,
          mul-div_cancel n sized,
          leb_refl,
          old,
          sub_size-eq n a.capacity (omega (arith, t.above)) n_word,
          has_fn,
          crash,
        )
