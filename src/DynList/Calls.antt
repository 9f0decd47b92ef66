-- ===== src/DynList/Calls.antt =====
-- DYN_LIST_ALLOC, DYN_LIST_GET and DYN_LIST_RETURN, each on a pool.
use dpu_offload_service.Prelude.{
  ℕ, suc, ◌+◌, ◌*◌, ◌≤◌, ◌<◌, ◌≡◌, refl, ap, ◌∙◌, ◌⊎◌, inl, inr, true, false, Bool, Option, none,
  some, List, [], ◌∷◌, ◌++◌, length, length-append, arith, ◌==◌, if◌then◌else◌, Bool-cases,
}
use dpu_offload_service.Prelude.Occurs.{occurs, occurs-append}
use dpu_offload_service.Size.{word}
use dpu_offload_service.DynArray.{DynArray}
use dpu_offload_service.DynArray.Grow.{IsValid}
use dpu_offload_service.DynArray.Alloc.{alloc-IsValid}
use dpu_offload_service.Ucs.{UcsList}
use dpu_offload_service.SimpleList.{SimpleList, is_empty, init, extract_first}
use dpu_offload_service.SimpleList.Laws.{
  items-prepend, length-prepend, extract_first_item, items-extract_first, length-extract_first,
}
use dpu_offload_service.DynList.{
  DynList, MemChunk, zero_chunk, chunk_type_size, default_mem_chunks, alloc, get, give_back,
}
use dpu_offload_service.DynList.Pool.{IsPool, Grants, free_items}
use dpu_offload_service.DynList.Grow.{grow-Supplied}

occurs_self :
    (p : ℕ) (lent r : List ℕ) {a b : ℕ}
    → a + occurs p lent ≡ b
    → b ≤ 1
    → a ≡ occurs p (p ∷ r)
    → occurs p lent ≡ 0
occurs_self p lent r h o e = ground arith

some_first : (xs : List ℕ) → 0 < length xs → (p : ℕ) × (r : List ℕ) × (xs ≡ p ∷ r)
some_first [] h = absurd (omega arith)
some_first (x ∷ xs) h = (x, xs, refl)

module _ {Head : Type 0} (l : SimpleList Head) where
  empty_lem : is_empty l ≡ true → (xs : List ℕ) → l.length ≡ length xs → length xs ≡ 0
  unfolding is_empty
  empty_lem e xs h = ground arith

  full_lem : is_empty l ≡ false → (xs : List ℕ) → l.length ≡ length xs → 0 < length xs
  unfolding is_empty
  full_lem e xs h = ground arith

module _ (u : UcsList) {E : Type 0} (sz : ℕ) where
  open u use {Head, items, items-head_init}

  -- What malloc answers when it is asked, that is when no element is free.
  abbrev pub Granted : DynList Head E → Option ℕ → Type 0
  Granted l answer = is_empty l.list ≡ true → (buf : ℕ) × (answer ≡ some buf) × Grants u sz l buf

  pub record Got (l r : DynList Head E) (lent : List ℕ) (p : ℕ) : Type 0 where
    pub pool : IsPool u sz r (p ∷ lent)
    pub not_lent : occurs p lent ≡ 0
    pub same_size : r.allocation_size ≡ l.allocation_size
    pub same_cb : r.element_init_cb ≡ l.element_init_cb
    -- Elements come from the free ones, with new ones only if there are none.
    pub source :
        ((q : ℕ)
          → occurs q (free_items u sz l) ≡ (if p == q then 1 else 0) + occurs q (free_items u sz r))
        ⊎ (length (free_items u sz l) ≡ 0)

  -- The first free element is handed out.
  take_first :
      (l : DynList Head E) (lent : List ℕ) (p : ℕ) (r : List ℕ)
      → IsPool u sz l lent
      → free_items u sz l ≡ p ∷ r
      → Got l (record l { list = (extract_first u l.list).1 }) lent p
  take_first l lent p r v e =
      let rest = items-extract_first u l.list p r e in
      let size : suc (length r) + length lent ≡ l.capacity = omega (arith, v.total, ap length e) in
      let counter =
        length-extract_first u l.list p r e (omega (arith, v.counted, ap length e))
          (omega (arith, v.counted, v.total, v.in_word)) in
      record {
        pool = record {
          owns = λ q. omega (arith, v.owns q, ap (occurs q) e, ap (occurs q) rest);
          once = v.once;
          counted = omega (arith, counter, v.counted, ap length e, ap length rest);
          total = omega (arith, size, ap length rest);
          in_word = v.in_word;
          recorded = v.recorded;
          array = v.array;
          array_step = v.array_step;
          array_type = v.array_type;
        };
        not_lent = occurs_self p lent r (v.owns p) (v.once p) (ap (occurs p) e);
        same_size = refl;
        same_cb = refl;
        source = inl (λ q. omega (arith, ap (occurs q) e, ap (occurs q) rest));
      }

  hand_over :
      (l : DynList Head E) (lent : List ℕ)
      → IsPool u sz l lent
      → 0 < length (free_items u sz l)
      → Got l (record l { list = (extract_first u l.list).1 }) lent (extract_first u l.list).0
  hand_over l lent v h =
      let (p, r, e) = some_first (free_items u sz l) h in
      rw (extract_first_item u l.list p r e) (take_first l lent p r v e)

  pub give_back-IsPool :
      (l : DynList Head E) (before after : List ℕ) (p : ℕ)
      → IsPool u sz l (before ++ (p ∷ after))
      → IsPool u sz (give_back u l p) (before ++ after)
  unfolding give_back
  give_back-IsPool l before after p v =
      let list = items-prepend u l.list p in
      let fewer = length-append before (p ∷ after) in
      let all = length-append before after in
      record {
        owns = λ q. omega (
          arith,
          v.owns q,
          ap (occurs q) list,
          occurs-append q before (p ∷ after),
          occurs-append q before after,
        );
        once = v.once;
        counted = omega (
          arith,
          length-prepend u l.list p (omega (arith, v.counted, v.total, v.in_word, fewer)),
          v.counted,
          ap length list,
        );
        total = omega (arith, v.total, fewer, all, ap length list);
        in_word = v.in_word;
        recorded = v.recorded;
        array = v.array;
        array_step = v.array_step;
        array_type = v.array_type;
      }

  -- The list before the first block is there.
  abbrev blank : Option (E → E) → ℕ → DynArray MemChunk → DynList Head E
  blank cb n chunks = record {
    capacity = 0;
    allocation_size = n;
    list = init u;
    element_init_cb = cb;
    num_mem_chunks = 0;
    mem_chunks = chunks;
  }

  module _ (cb : Option (E → E)) (n : ℕ) (chunks : DynArray MemChunk) where
    blank-IsPool :
        IsValid chunks
        → chunks.allocation_size ≡ default_mem_chunks
        → chunks.type_size ≡ chunk_type_size
        → IsPool u sz (blank cb n chunks) []
    unfolding init
    blank-IsPool v step type = record {
      owns = λ p. omega (arith, ap (occurs p) items-head_init);
      once = λ p. omega arith;
      counted = omega (arith, ap length items-head_init);
      total = omega (arith, ap length items-head_init);
      in_word = omega arith;
      recorded = omega arith;
      array = v;
      array_step = step;
      array_type = type;
    }

    blank-Grants : (buf : ℕ) → buf + n * sz < word → n < word → Grants u sz (blank cb n chunks) buf
    blank-Grants buf fits room = record {
      apart = λ p h. absurd (omega arith);
      fits = fits;
      room = omega arith;
      array_room = omega arith;
    }

  module _ (sized : 0 < sz) (allocates : ℕ → Bool)
      (mem_ok : (bytes : ℕ) → allocates bytes ≡ true) where
    -- DYN_LIST_GET when malloc grants what it is asked for: an element is handed out that no client
    -- has.
    pub get-Got :
        (l : DynList Head E) (lent : List ℕ) (answer : Option ℕ) (mem : ℕ → E)
        → 0 < l.allocation_size
        → IsPool u sz l lent
        → Granted l answer
        → (r : ℕ × DynList Head E × (ℕ → E)) × (get u sz allocates answer mem l ≡ some r)
          × Got l r.1 lent r.0
          × (l.element_init_cb ≡ none → (q : ℕ) → r.2 q ≡ mem q)
    unfolding get
    get-Got l lent answer mem some_size v granted = elim (Bool-cases (is_empty l.list)) [
      | inl empty ↦
          let (buf, e, m) = granted empty in
          let (r, run, s, kept) =
            grow-Supplied u sz sized allocates mem_ok l lent buf mem some_size v m in
          let got = hand_over r.0 lent s.pool s.some_free in
          (
            ((extract_first u r.0.list).0, record r.0 { list = (extract_first u r.0.list).1 }, r.1),
            rw (empty, e, run) refl,
            record {
              pool = got.pool;
              not_lent = got.not_lent;
              same_size = got.same_size ∙ s.same_size;
              same_cb = got.same_cb ∙ s.same_cb;
              source = inr (empty_lem l.list empty (free_items u sz l) v.counted);
            },
            kept,
          )
      | inr full ↦ (
        ((extract_first u l.list).0, record l { list = (extract_first u l.list).1 }, mem),
        rw full refl,
        hand_over l lent v (full_lem l.list full (free_items u sz l) v.counted),
        λ e q. refl,
      )
    ]

    -- DYN_LIST_ALLOC of a positive number of elements, if malloc grants the first block.
    pub alloc-IsPool :
        (cb : Option (E → E)) (n buf : ℕ) (mem : ℕ → E)
        → 0 < n
        → buf + n * sz < word
        → n < word
        → (r : DynList Head E × (ℕ → E)) × (alloc u sz allocates cb true (some buf) mem n
            ≡ some (some r))
          × IsPool u sz r.0 []
          × (r.0.allocation_size ≡ n)
    unfolding alloc
    alloc-IsPool cb n buf mem some_size fits room =
        let (chunks, run, v, step, type) =
          alloc-IsValid zero_chunk allocates mem_ok default_mem_chunks chunk_type_size (omega arith)
            (omega arith) (omega arith) in
        let (r, grown, s, _) =
          grow-Supplied u sz sized allocates mem_ok (blank cb n chunks) [] buf mem some_size
            (blank-IsPool cb n chunks v step type) (blank-Grants cb n chunks buf fits room) in
        (r, rw (run, grown) refl, s.pool, s.same_size)
