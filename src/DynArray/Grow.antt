-- ===== src/DynArray/Grow.antt =====
-- Growing a dynamic array: the loop ends, by how much it grows, and what the memory holds then.
use dpu_offload_service.Prelude.{
  ℕ, zero, suc, ◌+◌, ◌-◌, ◌*◌, ◌≤◌, ◌<◌, ◌≡◌, refl, ap, ◌∙◌, inl, inr, Bool, true, none, some, List,
  [], ◌∷◌, ◌++◌, arith, leb, Bool-cases, length, take, replicate, length-append, length-replicate,
  get_elem?,
}
use dpu_offload_service.Size.{
  word, add_size-eq, mul_size-eq, sub_size-eq, count-lt-word, bytes-lt-word, leb-mul_size,
}
use native.Mathlib.Nat.{mul-div_cancel}
use dpu_offload_service.DynArray.{DynArray, grow_target, cleared, init_if_set, grow}

-- Where the loop stops: above the index, by at most one step, and in whole steps.
pub record Target (c alloc size n : ℕ) : Type 0 where
  pub above : size < n
  pub near : n ≤ size + alloc
  pub steps : ℕ
  pub whole : n ≡ c + steps * alloc

-- With a fuel above the distance to go, a step above zero and no wrap-around, the loop of
-- DYN_ARRAY_GROW ends, at the first whole number of steps that is above the index.
pub grow_target-total :
    (fuel sz alloc size c : ℕ)
    → 0 < sz
    → 0 < alloc
    → c ≤ size + alloc
    → (size + alloc) * sz < word
    → suc size < c + fuel
    → 0 < fuel
    → (n : ℕ) × (grow_target fuel sz alloc size c ≡ some n) × Target c alloc size n
unfolding grow_target
grow_target-total zero sz alloc size c hsz ha hc small f pos = absurd (omega arith)
grow_target-total (suc fuel) sz alloc size c hsz ha hc small f pos =
    let small_c = bytes-lt-word c (size + alloc) sz hc small in
    let small_s = bytes-lt-word size (size + alloc) sz (omega arith) small in
    elim (Bool-cases (leb c size)) [
      | inr stop ↦ (
        c,
        rw (leb-mul_size c size sz hsz small_c small_s, stop),
        record { above = ground arith; near = hc; steps = 0; whole = omega arith },
      )
      | inl go ↦
          let le : c ≤ size = ground arith in
          let one_step = count-lt-word (c + alloc) (size + alloc) sz hsz (omega arith) small in
          let (n, run, t) =
            grow_target-total fuel sz alloc size (c + alloc) hsz ha (omega arith) small
              (omega arith) (omega arith) in
          (
            n,
            rw (leb-mul_size c size sz hsz small_c small_s, go, add_size-eq c alloc one_step) run,
            record {
              above = t.above;
              near = t.near;
              steps = suc t.steps;
              whole = grind (arith, t.whole);
            },
          )
    ]

module _ {ℓ} {A : Type ℓ} where
  pub take-length : (xs : List A) → take (length xs) xs ≡ xs
  take-length [] = refl
  take-length (x ∷ xs) = ap (◌∷◌ x) (take-length xs)

  pub get_elem?-append_left :
      (xs ys : List A) (i : ℕ) → i < length xs → get_elem? (xs ++ ys) i ≡ get_elem? xs i
  get_elem?-append_left [] ys i h = absurd (omega arith)
  get_elem?-append_left (x ∷ xs) ys zero h = refl
  get_elem?-append_left (x ∷ xs) ys (suc i) h = get_elem?-append_left xs ys i (omega arith)

  pub get_elem?-append_right :
      (xs ys : List A) (i : ℕ)
      → length xs ≤ i
      → get_elem? (xs ++ ys) i ≡ get_elem? ys (i - length xs)
  get_elem?-append_right [] ys i h = let e : i - 0 ≡ i = omega arith in rw e
  get_elem?-append_right (x ∷ xs) ys zero h = absurd (omega arith)
  get_elem?-append_right (x ∷ xs) ys (suc i) h =
      let e : suc i - suc (length xs) ≡ i - length xs = omega arith in
      rw e (get_elem?-append_right xs ys i (omega arith))

  pub get_elem?-replicate : (n i : ℕ) (a : A) → i < n → get_elem? (replicate n a) i ≡ some a
  get_elem?-replicate zero i a h = absurd (omega arith)
  get_elem?-replicate (suc n) zero a h = refl
  get_elem?-replicate (suc n) (suc i) a h = get_elem?-replicate n i a (omega arith)

  pub get_elem?-past : (xs : List A) (i : ℕ) → length xs ≤ i → get_elem? xs i ≡ none
  get_elem?-past [] i h = refl
  get_elem?-past (x ∷ xs) zero h = absurd (omega arith)
  get_elem?-past (x ∷ xs) (suc i) h = get_elem?-past xs i (omega arith)

-- The invariant of an array in use. `plain`: no initialiser is set, as DYN_ARRAY_ALLOC leaves it.
pub record IsValid {ℓ} {A : Type ℓ} (a : DynArray A) : Type ℓ where
  pub full : length a.base ≡ a.capacity
  pub some_room : 0 < a.capacity
  pub step : 0 < a.allocation_size
  pub sized : 0 < a.type_size
  pub small : a.capacity * a.type_size < word
  pub plain : a.element_init_fn ≡ none

-- What an access at `idx` may do to an array: keep it or grow it, with the old elements in place and
-- zeros behind them.
pub record Grown {ℓ} {A : Type ℓ} (z : A) (a : DynArray A) (idx : ℕ) (b : DynArray A) : Type ℓ where
  pub valid : IsValid b
  pub reaches : idx < b.capacity
  pub monotone : a.capacity ≤ b.capacity
  pub close : b.capacity ≤ a.capacity + idx + a.allocation_size
  pub keeps : (i : ℕ) → i < a.capacity → get_elem? b.base i ≡ get_elem? a.base i
  pub clears : (i : ℕ) → a.capacity ≤ i → i < b.capacity → get_elem? b.base i ≡ some z
  pub same_step : b.allocation_size ≡ a.allocation_size
  pub same_type : b.type_size ≡ a.type_size

module _ {ℓ} {A : Type ℓ} (z : A) (allocates : ℕ → Bool) where
  -- The array that DYN_ARRAY_GROW leaves, once its loop has found the new capacity.
  grow-run :
      (a : DynArray A) (idx n : ℕ)
      → IsValid a
      → a.capacity ≤ n
      → n * a.type_size < word
      → ((bytes : ℕ) → allocates bytes ≡ true)
      → grow_target (suc idx) a.type_size a.allocation_size idx a.capacity ≡ some n
      → grow z allocates a idx
        ≡ some (record a { base = a.base ++ replicate (n - a.capacity) z; capacity = n })
  unfolding grow cleared init_if_set
  grow-run a idx n v le small mem run =
      let n_word = count-lt-word n n a.type_size v.sized (omega arith) small in
      let old : take a.capacity a.base ≡ a.base = rw (← v.full) (take-length a.base) in
      let leb_refl : leb n n ≡ true = ground arith in
      rw (
        run,
        mem,
        mul_size-eq n a.type_size small,
        mul-div_cancel n v.sized,
        leb_refl,
        old,
        sub_size-eq n a.capacity le n_word,
        v.plain,
      )

  append-Grown :
      (a : DynArray A) (idx n : ℕ)
      → IsValid a
      → a.capacity ≤ idx
      → n * a.type_size < word
      → idx < n
      → n ≤ idx + a.allocation_size
      → Grown z a idx (record a { base = a.base ++ replicate (n - a.capacity) z; capacity = n })
  append-Grown a idx n v le small above near = record {
    valid = record {
      full = omega (
        arith,
        length-append a.base (replicate (n - a.capacity) z),
        length-replicate (n - a.capacity) z,
        v.full,
      );
      some_room = omega arith;
      step = v.step;
      sized = v.sized;
      small = small;
      plain = v.plain;
    };
    reaches = above;
    monotone = omega arith;
    close = omega arith;
    keeps = λ i h. get_elem?-append_left a.base _ i (omega (arith, v.full));
    clears = λ i lo hi.
        get_elem?-append_right a.base _ i (omega (arith, v.full))
        ∙ get_elem?-replicate (n - a.capacity) (i - length a.base) z (omega (arith, v.full));
    same_step = refl;
    same_type = refl;
  }

  -- DYN_ARRAY_GROW on a valid array, where memory is available and no byte size wraps: it ends, the
  -- index fits, the old elements stay and the new ones are zero.
  pub grow-Grown :
      (a : DynArray A) (idx : ℕ)
      → IsValid a
      → a.capacity ≤ idx
      → (idx + a.allocation_size) * a.type_size < word
      → ((bytes : ℕ) → allocates bytes ≡ true)
      → (b : DynArray A) × (grow z allocates a idx ≡ some b) × Grown z a idx b
  grow-Grown a idx v le small mem =
      let (n, run, t) =
        grow_target-total (suc idx) a.type_size a.allocation_size idx a.capacity v.sized v.step
          (omega arith) small (omega arith) (omega arith) in
      finish n run t
    where
      finish :
          (n : ℕ)
          → grow_target (suc idx) a.type_size a.allocation_size idx a.capacity ≡ some n
          → Target a.capacity a.allocation_size idx n
          → (b : DynArray A) × (grow z allocates a idx ≡ some b) × Grown z a idx b
      finish n run t =
          let fits = bytes-lt-word n (idx + a.allocation_size) a.type_size t.near small in
          (
            record a { base = a.base ++ replicate (n - a.capacity) z; capacity = n },
            grow-run a idx n v (omega (arith, t.above)) fits mem run,
            append-Grown a idx n v le fits t.above t.near,
          )
