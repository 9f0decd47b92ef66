-- ===== src/DynList/Histories.antt =====
-- Dynamic lists over whole histories of calls, against what an allocator promises: it hands out what
-- nobody has, and takes back what was handed out.
use dpu_offload_service.Prelude.{
  ℕ, ◌+◌, ◌-◌, ◌*◌, ◌<◌, ◌≡◌, refl, ap, ◌⊎◌, inl, inr, true, false, Bool, Option, none, some, List,
  [], ◌∷◌, ◌++◌, length, arith, ◌==◌, if◌then◌else◌,
}
use dpu_offload_service.Prelude.Occurs.{occurs, occurs-append}
use dpu_offload_service.Size.{word, uint64_max, sub_size}
use dpu_offload_service.Ucs.{UcsList}
use dpu_offload_service.SimpleList.{SimpleList, is_empty, extract_first}
use dpu_offload_service.SimpleList.Laws.{items-prepend}
use dpu_offload_service.DynList.{DynList, grow, alloc, get, give_back}
use dpu_offload_service.DynList.Pool.{IsPool, free_items}
use dpu_offload_service.DynList.Calls.{Granted, Got, get-Got, give_back-IsPool, alloc-IsPool}

-- The abstract allocator: how often each element is free and how often it is lent.
pub record Stock : Type 0 where
  pub free : ℕ → ℕ
  pub lent : ℕ → ℕ

abbrev pub one : ℕ → ℕ → ℕ
one p q = if p == q then 1 else 0

-- What it may do: lend an element that is not lent, which is a free one unless none is free; and
-- take back one that is lent.
pub data Move (v w : Stock) : Type 0 where
  lend :
      (p : ℕ)
      → v.lent p ≡ 0
      → ((q : ℕ) → w.lent q ≡ one p q + v.lent q)
      → (((q : ℕ) → v.free q ≡ one p q + w.free q) ⊎ ((q : ℕ) → v.free q ≡ 0))
      → Move v w
  regain :
      (p : ℕ)
      → ((q : ℕ) → v.lent q ≡ one p q + w.lent q)
      → ((q : ℕ) → w.free q ≡ one p q + v.free q)
      → Move v w

from_source :
    (before : List ℕ) {new : ℕ → ℕ}
    → ((q : ℕ) → occurs q before ≡ new q) ⊎ (length before ≡ 0)
    → ((q : ℕ) → occurs q before ≡ new q) ⊎ ((q : ℕ) → occurs q before ≡ 0)
from_source before (inl same) = inl same
from_source [] (inr none_free) = inr (λ q. refl)
from_source (x ∷ before) (inr none_free) = absurd (omega arith)

module _ (u : UcsList) (E : Type 0) (sz : ℕ) (allocates : ℕ → Bool) where
  open u use {Head, items}

  -- A dynamic list, what its elements hold, and the elements that its clients have.
  pub record Use : Type 0 where
    pub list : DynList Head E
    pub mem : ℕ → E
    pub lent : List ℕ

  -- A client gets an element, malloc granting new memory if it is asked; or it returns one that it has.
  pub data Step : Use → Use → Type 0 where
    gets :
        (s : Use) (answer : Option ℕ) (r : ℕ × DynList Head E × (ℕ → E))
        → Granted u sz s.list answer
        → get u sz allocates answer s.mem s.list ≡ some r
        → Step s (record { list = r.1; mem = r.2; lent = r.0 ∷ s.lent })
    returns :
        (s : Use) (p : ℕ) (before after : List ℕ)
        → s.lent ≡ before ++ (p ∷ after)
        → Step s (record { list = give_back u s.list p; mem = s.mem; lent = before ++ after })

  pub data Reach (s : Use) : Use → Type 0 where
    here : Reach s s
    next : {t w : Use} → Reach s t → Step t w → Reach s w

  pub record Works (s : Use) : Type 0 where
    pub pool : IsPool u sz s.list s.lent
    pub step : 0 < s.list.allocation_size

  abbrev pub stock : Use → Stock
  stock s = record { free = λ q. occurs q (free_items u sz s.list); lent = λ q. occurs q s.lent }

  module _ (sized : 0 < sz) (mem_ok : (bytes : ℕ) → allocates bytes ≡ true) where
    got :
        (s : Use) (answer : Option ℕ) (r : ℕ × DynList Head E × (ℕ → E))
        → Works s
        → Granted u sz s.list answer
        → get u sz allocates answer s.mem s.list ≡ some r
        → Got u sz s.list r.1 s.lent r.0
    got s answer r w granted e =
        let (r', run, g, _) =
          get-Got u sz sized allocates mem_ok s.list s.lent answer s.mem w.step w.pool granted in
        let same : r' ≡ r = cc in rw (← same) g

    Step-Works : {s t : Use} → Step s t → Works s → Works t
    unfolding give_back
    Step-Works (gets s answer r granted e) w =
        let g = got s answer r w granted e in record { pool = g.pool; step = rw g.same_size w.step }
    Step-Works (returns s p before after e) w = record {
      pool = give_back-IsPool u sz s.list before after p (rw (← e) w.pool);
      step = w.step;
    }

    Reach-Works : {s t : Use} → Works s → Reach s t → Works t
    Reach-Works w here = w
    Reach-Works w (next r st) = Step-Works st (Reach-Works w r)

    -- Let a list be allocated for a positive number of elements of positive size, with enough memory,
    -- and then any clients get elements and return the ones they have, malloc granting memory when it
    -- is asked. Then every element of the blocks is free or lent, never both and never twice, the
    -- length counter is the number of free elements, and the capacity is that of free and lent ones.
    pub Reach-IsPool :
        (cb : Option (E → E)) (n buf : ℕ) (mem : ℕ → E) (r : DynList Head E × (ℕ → E)) {t : Use}
        → 0 < n
        → buf + n * sz < word
        → n < word
        → alloc u sz allocates cb true (some buf) mem n ≡ some (some r)
        → Reach (record { list = r.0; mem = r.1; lent = [] }) t
        → IsPool u sz t.list t.lent
    Reach-IsPool cb n buf mem r some_size fits room e path =
        let (r', run, v, step) =
          alloc-IsPool u sz sized allocates mem_ok cb n buf mem some_size fits room in
        let same : r' ≡ r = cc in
        let v' : IsPool u sz r.0 [] = rw (← same) v in
        let step' : r.0.allocation_size ≡ n = rw (← same) step in
        (Reach-Works (record { pool = v'; step = rw step' some_size }) path).pool

    -- Every call does what the abstract allocator may do: DYN_LIST_GET lends an element that nobody
    -- has, one of the free ones unless there are none, and DYN_LIST_RETURN takes one back.
    pub Step-Move : {s t : Use} → Works s → Step s t → Move (stock s) (stock t)
    unfolding give_back
    Step-Move w (gets s answer r granted e) =
        let g = got s answer r w granted e in
        lend r.0 g.not_lent (λ q. refl) (from_source (free_items u sz s.list) g.source)
    Step-Move w (returns s p before after e) =
        regain p
          (λ q. omega (
            arith,
            occurs-append q before (p ∷ after),
            occurs-append q before after,
            ap (occurs q) e,
          ))
          (λ q. ap (occurs q) (items-prepend u s.list.list p))

    -- A client can always go on: where malloc grants what it is asked for, there is a next step that
    -- hands out an element nobody has, and the list works as before.
    pub gets_element :
        (s : Use) (answer : Option ℕ)
        → Works s
        → Granted u sz s.list answer
        → (p : ℕ) × (t : Use) × Step s t × Works t × (t.lent ≡ p ∷ s.lent) × (occurs p s.lent ≡ 0)
    gets_element s answer w granted =
        let (r, run, g, _) =
          get-Got u sz sized allocates mem_ok s.list s.lent answer s.mem w.step w.pool granted in
        let step = gets s answer r granted run in
        (r.0, _, step, Step-Works step w, refl, g.not_lent)

  wraps : (l : SimpleList Head) → l.length ≡ 0 → (extract_first u l).1.length ≡ uint64_max
  unfolding extract_first sub_size
  wraps l e = rw e

  counts_down :
      (l : SimpleList Head) → l.length ≡ uint64_max → (extract_first u l).1.length ≡ uint64_max - 1
  unfolding extract_first sub_size
  counts_down l e = rw e

  empty_counter : (l : SimpleList Head) → l.length ≡ 0 → is_empty l ≡ true
  unfolding is_empty
  empty_counter l e = rw e

  full_counter : (l : SimpleList Head) → l.length ≡ uint64_max → is_empty l ≡ false
  unfolding is_empty
  full_counter l e = rw e

  module _ (l : DynList Head E) (mem : ℕ → E) where
    get-no_memory :
        is_empty l.list ≡ true
        → get u sz allocates none mem l
          ≡ some ((extract_first u l.list).0, record l { list = (extract_first u l.list).1 }, mem)
    unfolding get grow
    get-no_memory e = rw e

    get-full :
        (answer : Option ℕ)
        → is_empty l.list ≡ false
        → get u sz allocates answer mem l
          ≡ some ((extract_first u l.list).0, record l { list = (extract_first u l.list).1 }, mem)
    unfolding get
    get-full answer e = rw e

  -- DYN_LIST_GET of a list with no free element, when malloc has no memory: it takes an item from the
  -- empty UCX list, and the counter of free elements wraps to UINT64_MAX. The next DYN_LIST_GET takes
  -- the list for one that has elements and does not grow it, whatever malloc would answer.
  pub get_exhausted :
      (l : DynList Head E) (mem : ℕ → E) (answer : Option ℕ)
      → l.list.length ≡ 0
      → (r r' : ℕ × DynList Head E × (ℕ → E)) × (get u sz allocates none mem l ≡ some r)
        × (r.1.list.length ≡ uint64_max)
        × (get u sz allocates answer r.2 r.1 ≡ some r')
        × (r'.1.capacity ≡ l.capacity)
        × (r'.1.list.length ≡ uint64_max - 1)
  get_exhausted l mem answer e =
      let wrapped = wraps l.list e in
      let l' : DynList Head E = record l { list = (extract_first u l.list).1 } in
      (
        ((extract_first u l.list).0, l', mem),
        ((extract_first u l'.list).0, record l' { list = (extract_first u l'.list).1 }, mem),
        get-no_memory l mem (empty_counter l.list e),
        wrapped,
        get-full l' mem answer (full_counter l'.list wrapped),
        refl,
        counts_down l'.list wrapped,
      )
