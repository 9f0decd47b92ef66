-- ===== src/DynList/Grow.antt =====
-- GROW_DYN_LIST: the new block becomes elements of the pool, and they are free.
use dpu_offload_service.Prelude.{
  ℕ, zero, suc, ◌+◌, ◌*◌, ◌/◌, ◌≤◌, ◌<◌, ◌≡◌, refl, ap, ◌∙◌, inl, inr, true, Bool, Option, none,
  some, List, [], ◌∷◌, ◌++◌, take, length, get_elem?, set, arith, ltb, ltb→lt, ◌==◌, ◌⊎◌,
  Bool-cases,
}
use dpu_offload_service.Prelude.Occurs.{occurs, addresses, addresses_bounds, addresses-distinct}
use native.Mathlib.Nat.{mul-div_cancel, zero-add}
use dpu_offload_service.Size.{
  word, add_size, mul_size, sub_size, add_size-eq, mul_size-eq, sub_size-eq,
}
use dpu_offload_service.DynArray.{DynArray}
use dpu_offload_service.DynArray.Grow.{Grown}
use dpu_offload_service.DynArray.Access.{get_elt-Grown}
use dpu_offload_service.DynArray.Alloc.{set-IsValid}
use dpu_offload_service.Ucs.{UcsList}
use dpu_offload_service.SimpleList.{SimpleList, prepend}
use dpu_offload_service.SimpleList.Laws.{items-prepend, length-prepend}
use dpu_offload_service.DynList.{
  DynList, MemChunk, zero_chunk, add_elements, init_element, grow, add_block,
}
use dpu_offload_service.DynList.Pool.{IsPool, Grants, elements, free_items, owned-append}

module _ (u : UcsList) (sz : ℕ) where
  open u use {Head, items}

  -- What the loop of GROW_DYN_LIST does to the list.
  pub record Added (list list' : SimpleList Head) (buf idx n ptr ptr' : ℕ) : Type 0 where
    pub content :
        (p : ℕ)
        → occurs p (items list'.internal_list)
          ≡ occurs p (addresses sz buf idx n) + occurs p (items list.internal_list)
    pub longer : length (items list'.internal_list) ≡ n + length (items list.internal_list)
    pub counter : n + list.length < word → list'.length ≡ n + list.length
    pub same_last : n ≡ 0 → ptr' ≡ ptr
    pub last : 0 < n → ptr' + sz ≡ buf + (idx + n) * sz

module _ (sz : ℕ) where
  next_idx : (a idx n : ℕ) → a + (idx + 1 + n) * sz ≡ a + (idx + suc n) * sz
  next_idx a idx n = ap (λ k. a + k * sz) (omega arith)

  last_cases :
      (n buf idx ptr : ℕ)
      → (n ≡ 0 → ptr ≡ buf + idx * sz)
      → (0 < n → ptr + sz ≡ buf + (idx + 1 + n) * sz)
      → ptr + sz ≡ buf + (idx + suc n) * sz
  last_cases zero buf idx ptr e f = rw (e refl) (grind arith)
  last_cases (suc n) buf idx ptr e f = f (omega arith) ∙ next_idx buf idx (suc n)

module _ (u : UcsList) {E : Type 0} (sz : ℕ) (allocates : ℕ → Bool) where
  open u use {Head, items}

  -- Without a callback the elements hold what they held.
  add_elements_mem :
      (buf idx n : ℕ) (list : SimpleList Head) (mem : ℕ → E) (ptr q : ℕ)
      → (add_elements u sz allocates none buf idx n list mem ptr).1 q ≡ mem q
  unfolding add_elements init_element
  add_elements_mem buf idx zero list mem ptr q = refl
  add_elements_mem buf idx (suc n) list mem ptr q =
      add_elements_mem buf (idx + 1) n (prepend u list (buf + idx * sz))
        (init_element none (buf + idx * sz) mem) (buf + idx * sz) q

  add_elements-Added :
      (cb : Option (E → E)) (buf idx n : ℕ) (list : SimpleList Head) (mem : ℕ → E) (ptr : ℕ)
      → Added u sz list
          (add_elements u sz allocates cb buf idx n list mem ptr).0
          buf
          idx
          n
          ptr
          (add_elements u sz allocates cb buf idx n list mem ptr).2
  unfolding add_elements addresses
  add_elements-Added cb buf idx zero list mem ptr = record {
    content = λ p. omega arith;
    longer = omega arith;
    counter = λ h. omega arith;
    same_last = λ h. refl;
    last = λ h. absurd (omega arith);
  }
  add_elements-Added cb buf idx (suc n) list mem ptr =
      let a : ℕ = buf + idx * sz in
      let ih = add_elements-Added cb buf (idx + 1) n (prepend u list a) (init_element cb a mem) a in
      let front : items (prepend u list a).internal_list ≡ a ∷ items list.internal_list =
        items-prepend u list a in
      let count : n + list.length + 1 < word → (prepend u list a).length ≡ list.length + 1 =
        λ h. length-prepend u list a (omega arith) in
      record {
        content = λ p. omega (arith, ih.content p, ap (occurs p) front);
        longer = omega (arith, ih.longer, ap length front);
        counter =
            λ h. let c = count (omega arith) in omega (arith, c, ih.counter (omega (arith, c)));
        same_last = λ h. absurd (omega arith);
        last = λ h. last_cases sz n buf idx _ ih.same_last ih.last;
      }

module _ (sz : ℕ) where
  -- No element of a block lies outside of it.
  outside :
      (p buf n : ℕ)
      → 0 < sz
      → (p + sz ≤ buf) ⊎ (buf + n * sz ≤ p)
      → occurs p (addresses sz buf 0 n) ≡ 0
  outside p buf n sized h = elim (Bool-cases (ltb 0 (occurs p (addresses sz buf 0 n)))) [
    | inl there ↦
        let (lo, hi) = addresses_bounds sz buf p 0 n (ltb→lt _ _ there) in
        let hi' : p + sz ≤ buf + n * sz = rw zero-add at hi in absurd (omega arith)
    | inr none_there ↦ ground arith
  ]

  -- The last element ends where the block ends.
  block_end :
      (ptr buf n : ℕ)
      → ptr + sz ≡ buf + n * sz
      → buf + n * sz < word
      → (sub_size (add_size ptr sz) (add_size buf (mul_size n sz)) == 0) ≡ true
  block_end ptr buf n e h =
      rw
        (
          mul_size-eq n sz (omega arith),
          add_size-eq ptr sz (omega arith),
          add_size-eq buf (n * sz) h,
          e,
          sub_size-eq (buf + n * sz) (buf + n * sz) (omega arith) h,
        )
        (ground arith)

module _ {ℓ} {A : Type ℓ} where
  pub take-set_last :
      (xs : List A) (n : ℕ) (c : A)
      → n < length xs
      → take (suc n) (set xs n c) ≡ take n xs ++ (c ∷ [])
  take-set_last [] n c h = absurd (omega arith)
  take-set_last (x ∷ xs) zero c h = refl
  take-set_last (x ∷ xs) (suc n) c h = rw (take-set_last xs n c (omega arith))

  pub take_congr :
      (n : ℕ) (xs ys : List A)
      → ((i : ℕ) → i < n → get_elem? xs i ≡ get_elem? ys i)
      → take n xs ≡ take n ys
  take_congr zero xs ys h = refl
  take_congr (suc n) [] [] h = refl
  take_congr (suc n) [] (y ∷ ys) h = absurd (cc (h 0 (omega arith)))
  take_congr (suc n) (x ∷ xs) [] h = absurd (cc (h 0 (omega arith)))
  take_congr (suc n) (x ∷ xs) (y ∷ ys) h =
      let e : x ≡ y = cc (h 0 (omega arith)) in
      rw (e, take_congr n xs ys (λ i k. h (suc i) (omega arith)))

module _ (u : UcsList) {E : Type 0} (sz : ℕ) (sized : 0 < sz) where
  open u use {Head, items}

  pub record Supplied (l r : DynList Head E) (lent : List ℕ) : Type 0 where
    pub pool : IsPool u sz r lent
    pub some_free : 0 < length (free_items u sz r)
    pub same_size : r.allocation_size ≡ l.allocation_size
    pub same_cb : r.element_init_cb ≡ l.element_init_cb

  module _ (l : DynList Head E) (buf ptr : ℕ) (chunks : DynArray MemChunk) (list : SimpleList Head)
      (some_size : 0 < l.allocation_size) (m : Grants u sz l buf)
      (g : Grown zero_chunk l.mem_chunks l.num_mem_chunks chunks)
      (a : Added u sz l.list list buf 0 l.allocation_size 0 ptr) where
    abbrev new_chunk : MemChunk
    new_chunk = record { size = mul_size l.allocation_size sz; ptr = buf }

    abbrev grown : DynList Head E
    grown = add_block l chunks list (mul_size l.allocation_size sz) buf

    -- The blocks after the call: those before, and the new one.
    blocks :
        {lent : List ℕ}
        → IsPool u sz l lent
        → take grown.num_mem_chunks grown.mem_chunks.base
          ≡ take l.num_mem_chunks l.mem_chunks.base ++ (new_chunk ∷ [])
    unfolding add_block
    blocks v =
        let one_more : add_size l.num_mem_chunks 1 ≡ suc l.num_mem_chunks =
          add_size-eq l.num_mem_chunks 1 (omega (arith, m.array_room)) ∙ omega arith in
        rw
          (
            one_more,
            take-set_last chunks.base l.num_mem_chunks new_chunk
                (omega (arith, g.valid.full, g.reaches)),
          )
          (ap (λ t. t ++ (new_chunk ∷ []))
            (take_congr l.num_mem_chunks chunks.base l.mem_chunks.base
              (λ i h. g.keeps i (omega (arith, v.recorded)))))

    -- The elements after the call.
    elements-grown :
        {lent : List ℕ} (p : ℕ)
        → IsPool u sz l lent
        → occurs p (elements sz grown)
          ≡ occurs p (elements sz l) + occurs p (addresses sz buf 0 l.allocation_size)
    unfolding add_block
    elements-grown p v =
        let whole : mul_size l.allocation_size sz / sz ≡ l.allocation_size =
          rw (mul_size-eq l.allocation_size sz (omega (arith, m.fits)))
            (mul-div_cancel l.allocation_size sized) in
        rw (blocks v, owned-append, whole) refl

    at_most_once : {lent : List ℕ} (p : ℕ) → IsPool u sz l lent → occurs p (elements sz grown) ≤ 1
    at_most_once p v = elim (Bool-cases (ltb 0 (occurs p (elements sz l)))) [
      | inl old ↦
          let before : 0 < occurs p (elements sz l) = ground arith in
          omega (
            arith,
            elements-grown p v,
            v.once p,
            outside sz p buf l.allocation_size sized (m.apart p before),
          )
      | inr new ↦
          let before : occurs p (elements sz l) ≡ 0 = ground arith in
          omega (
            arith,
            elements-grown p v,
            before,
            addresses-distinct sz buf p 0 l.allocation_size sized,
          )
    ]

    counter_lem :
        {lent : List ℕ}
        → IsPool u sz l lent
        → (list.length ≡ l.list.length + l.allocation_size)
          × (l.list.length + l.allocation_size < word)
    counter_lem v =
        let fit : l.list.length + l.allocation_size < word =
          omega (arith, v.counted, v.total, m.room) in
        (omega (arith, fit, a.counter), fit)

    add_block-IsPool : {lent : List ℕ} → IsPool u sz l lent → IsPool u sz grown lent
    unfolding add_block
    add_block-IsPool v = record {
      owns = λ p. omega (arith, elements-grown p v, a.content p, v.owns p);
      once = λ p. at_most_once p v;
      counted = omega (arith, counter_lem v, a.longer, v.counted);
      total = omega (arith, add_size-eq l.capacity l.allocation_size m.room, a.longer, v.total);
      in_word = omega (arith, add_size-eq l.capacity l.allocation_size m.room, m.room);
      recorded =
          omega (arith, add_size-eq l.num_mem_chunks 1 (omega (arith, m.array_room)), g.reaches);
      array = set-IsValid g.valid l.num_mem_chunks new_chunk;
      array_step = g.same_step ∙ v.array_step;
      array_type = g.same_type ∙ v.array_type;
    }

    check_count :
        {lent : List ℕ}
        → IsPool u sz l lent
        → (list.length == add_size l.list.length l.allocation_size) ≡ true
    check_count v =
        let (counter, fit) = counter_lem v in
        rw (add_size-eq l.list.length l.allocation_size fit, counter) (ground arith)

    add_block-Supplied : {lent : List ℕ} → IsPool u sz l lent → Supplied l grown lent
    unfolding add_block
    add_block-Supplied v = record {
      pool = add_block-IsPool v;
      some_free = omega (arith, a.longer);
      same_size = refl;
      same_cb = refl;
    }

  module _ (allocates : ℕ → Bool) (mem_ok : (bytes : ℕ) → allocates bytes ≡ true) where
    -- GROW_DYN_LIST, when malloc grants the block: the call returns, and the list is a pool whose
    -- elements are free or lent as before, with new free ones.
    pub grow-Supplied :
        (l : DynList Head E) (lent : List ℕ) (buf : ℕ) (mem : ℕ → E)
        → 0 < l.allocation_size
        → IsPool u sz l lent
        → Grants u sz l buf
        → (r : DynList Head E × (ℕ → E)) × (grow u sz allocates (some buf) mem l ≡ some r)
          × Supplied l r.0 lent
          × (l.element_init_cb ≡ none → (q : ℕ) → r.1 q ≡ mem q)
    unfolding grow
    grow-Supplied l lent buf mem some_size v m =
        let (chunks, run, g, _) =
          get_elt-Grown zero_chunk allocates mem_ok l.mem_chunks l.num_mem_chunks v.array
            (rw (v.array_step, v.array_type) m.array_room) in
        let added =
          add_elements-Added u sz allocates l.element_init_cb buf 0 l.allocation_size l.list mem
            0 in
        let new =
          add_elements u sz allocates l.element_init_cb buf 0 l.allocation_size l.list mem 0 in
        let inside : ltb l.num_mem_chunks (length chunks.base) ≡ true =
          (let a = g.reaches in let b = g.valid.full in ground arith) in
        let count = check_count l buf new.2 chunks new.0 some_size m g added v in
        let close =
          block_end sz new.2 buf l.allocation_size (rw zero-add at (added.last some_size)) m.fits in
        (
          (add_block l chunks new.0 (mul_size l.allocation_size sz) buf, new.1),
          rw (run, inside, count, close) refl,
          add_block-Supplied l buf new.2 chunks new.0 some_size m g added v,
          λ e q. rw e (add_elements_mem u sz allocates buf 0 l.allocation_size l.list mem 0 q),
        )
