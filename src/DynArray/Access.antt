-- ===== src/DynArray/Access.antt =====
-- Reads and writes of dynamic arrays against what they promise: an array without an end, zero
-- wherever nothing was written.
use dpu_offload_service.Prelude.{
  ℕ, zero, suc, ◌+◌, ◌*◌, ◌≤◌, ◌<◌, ◌≡◌, refl, sym, ◌∙◌, inl, inr, Bool, true, false, some, List,
  [], ◌∷◌, arith, leb, ltb, Bool-cases, length, get_elem?, get_or, set, length-set, if◌then◌else◌,
  ◌==◌,
}
use dpu_offload_service.Size.{word}
use dpu_offload_service.DynArray.{DynArray, get_elt, set_elt}
use dpu_offload_service.DynArray.Grow.{IsValid, Grown, grow-Grown}

module _ {ℓ} {A : Type ℓ} (z : A) where
  -- What is read at an index.
  abbrev pub view : DynArray A → ℕ → A
  view a i = get_or a.base i z

  get_or-get_elem? : (xs : List A) (i : ℕ) (x : A) → get_elem? xs i ≡ some x → get_or xs i z ≡ x
  get_or-get_elem? [] i x h = cc
  get_or-get_elem? (y ∷ xs) zero x h = cc
  get_or-get_elem? (y ∷ xs) (suc i) x h = get_or-get_elem? xs i x h

  get_or_congr :
      (xs ys : List A) (i : ℕ) → get_elem? xs i ≡ get_elem? ys i → get_or xs i z ≡ get_or ys i z
  get_or_congr [] [] i h = refl
  get_or_congr [] (y ∷ ys) zero h = cc
  get_or_congr [] (y ∷ ys) (suc i) h = get_or_congr [] ys i h
  get_or_congr (x ∷ xs) [] zero h = cc
  get_or_congr (x ∷ xs) [] (suc i) h = get_or_congr xs [] i h
  get_or_congr (x ∷ xs) (y ∷ ys) zero h = cc
  get_or_congr (x ∷ xs) (y ∷ ys) (suc i) h = get_or_congr xs ys i h

  get_or-past : (xs : List A) (i : ℕ) → length xs ≤ i → get_or xs i z ≡ z
  get_or-past [] i h = refl
  get_or-past (x ∷ xs) zero h = absurd (omega arith)
  get_or-past (x ∷ xs) (suc i) h = get_or-past xs i (omega arith)

  pub get_or-set :
      (xs : List A) (i j : ℕ) (v : A)
      → i < length xs
      → get_or (set xs i v) j z ≡ (if i == j then v else get_or xs j z)
  get_or-set [] i j v h = absurd (omega arith)
  get_or-set (x ∷ xs) zero zero v h = refl
  get_or-set (x ∷ xs) zero (suc j) v h = ground arith
  get_or-set (x ∷ xs) (suc i) zero v h = ground arith
  get_or-set (x ∷ xs) (suc i) (suc j) v h = ground (arith, get_or-set xs i j v)

  -- Growing does not show: old elements stay, and what is new is zero, as it was past the end.
  view-Grown :
      {a b : DynArray A} {idx : ℕ} → IsValid a → Grown z a idx b → (i : ℕ) → view b i ≡ view a i
  view-Grown {a} {b} v g i = elim (Bool-cases (ltb i a.capacity)) [
    | inl old ↦ get_or_congr b.base a.base i (g.keeps i (ground arith))
    | inr new ↦ elim (Bool-cases (ltb i b.capacity)) [
      | inl room ↦
          get_or-get_elem? b.base i z (g.clears i (ground arith) (ground arith))
          ∙ sym (get_or-past a.base i (let f = v.full in ground arith))
      | inr past ↦
          get_or-past b.base i (let f = g.valid.full in ground arith)
          ∙ sym (get_or-past a.base i (let f = v.full in ground arith))
    ]
  ]

  stay-Grown : (a : DynArray A) (idx : ℕ) → IsValid a → idx < a.capacity → Grown z a idx a
  stay-Grown a idx v h = record {
    valid = v;
    reaches = h;
    monotone = omega arith;
    close = omega arith;
    keeps = λ i p. refl;
    clears = λ i lo hi. absurd (omega arith);
    same_step = refl;
    same_type = refl;
  }

  module _ (allocates : ℕ → Bool) (mem : (bytes : ℕ) → allocates bytes ≡ true) where
    -- DYN_ARRAY_GET_ELT on a valid array whose memory does not run out or wrap: it succeeds, the
    -- index is in range of the array that results, which is valid and shows the same elements.
    pub get_elt-Grown :
        (a : DynArray A) (idx : ℕ)
        → IsValid a
        → (idx + a.allocation_size) * a.type_size < word
        → (b : DynArray A) × (get_elt z allocates a idx ≡ some b)
          × Grown z a idx b
          × ((i : ℕ) → view b i ≡ view a i)
    unfolding get_elt
    get_elt-Grown a idx v small =
        let used : (a.capacity == 0) ≡ false = let p = v.some_room in ground arith in
        elim (Bool-cases (leb a.capacity idx)) [
          | inl out ↦
              let (b, run, g) = grow-Grown z allocates a idx v (ground arith) small mem in
              (b, rw (used, out) run, g, view-Grown v g)
          | inr inside ↦ (a, rw (used, inside), stay-Grown a idx v (ground arith), λ i. refl)
        ]

    -- DYN_ARRAY_SET_ELT under the same conditions: it succeeds, the result is valid and covers the
    -- index, and it shows the new element there and what it showed before anywhere else.
    pub set_elt-view :
        (a : DynArray A) (idx : ℕ) (e : A)
        → IsValid a
        → (idx + a.allocation_size) * a.type_size < word
        → (b : DynArray A) × (set_elt z allocates a idx e ≡ some b)
          × IsValid b
          × (idx < b.capacity)
          × ((i : ℕ) → view b i ≡ (if idx == i then e else view a i))
          × (b.allocation_size ≡ a.allocation_size)
          × (b.type_size ≡ a.type_size)
    unfolding set_elt
    set_elt-view a idx e v small = elim (Bool-cases (leb a.capacity idx)) [
      | inl out ↦
          let (b, run, g) = grow-Grown z allocates a idx v (ground arith) small mem in
          write b g (rw (out, run) refl)
      | inr inside ↦ write a (stay-Grown a idx v (ground arith)) (rw inside)
    ]
      where
        write :
            (b : DynArray A)
            → Grown z a idx b
            → (if leb a.capacity idx
                then dpu_offload_service.DynArray.grow z allocates a idx
                else some a)
              ≡ some b
            → (b : DynArray A) × (set_elt z allocates a idx e ≡ some b)
              × IsValid b
              × (idx < b.capacity)
              × ((i : ℕ) → view b i ≡ (if idx == i then e else view a i))
              × (b.allocation_size ≡ a.allocation_size)
              × (b.type_size ≡ a.type_size)
        write b g run =
            let inside : idx < length b.base = omega (arith, g.valid.full, g.reaches) in
            let test : ltb idx (length b.base) ≡ true = ground arith in
            (
              record b { base = set b.base idx e },
              rw (run, test),
              record {
                full = length-set b.base idx e ∙ g.valid.full;
                some_room = g.valid.some_room;
                step = g.valid.step;
                sized = g.valid.sized;
                small = g.valid.small;
                plain = g.valid.plain;
              },
              g.reaches,
              λ i. rw (get_or-set b.base idx i e inside, view-Grown v g i),
              g.same_step,
              g.same_type,
            )
