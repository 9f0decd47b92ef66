-- ===== src/DynList/Pool.antt =====
-- What holds of a dynamic list between two calls, with the elements that its clients have, and what
-- malloc promises when the list grows.
use dpu_offload_service.Prelude.{
  ℕ, ◌+◌, ◌*◌, ◌/◌, ◌≤◌, ◌<◌, ◌≡◌, ◌⊎◌, List, [], ◌∷◌, ◌++◌, take, length, arith,
}
use dpu_offload_service.Prelude.Occurs.{occurs, occurs-append, addresses}
use dpu_offload_service.Size.{word}
use dpu_offload_service.DynArray.Grow.{IsValid}
use dpu_offload_service.Ucs.{UcsList}
use dpu_offload_service.DynList.{DynList, MemChunk, chunk_type_size, default_mem_chunks}

-- The elements of some blocks.
abbrev pub owned : ℕ → List MemChunk → List ℕ
owned sz [] = []
owned sz (c ∷ cs) = addresses sz c.ptr 0 (c.size / sz) ++ owned sz cs

-- The blocks of a list, and its elements, handed out or not.
abbrev pub elements : {Head E : Type 0} → ℕ → DynList Head E → List ℕ
elements sz l = owned sz (take l.num_mem_chunks l.mem_chunks.base)

pub owned-append :
    (sz p : ℕ) (cs : List MemChunk) (c : MemChunk)
    → occurs p (owned sz (cs ++ (c ∷ [])))
      ≡ occurs p (owned sz cs) + occurs p (addresses sz c.ptr 0 (c.size / sz))
owned-append sz p [] c = omega (arith, occurs-append p (addresses sz c.ptr 0 (c.size / sz)) [])
owned-append sz p (d ∷ cs) c = omega (
  arith,
  occurs-append p (addresses sz d.ptr 0 (d.size / sz)) (owned sz (cs ++ (c ∷ []))),
  occurs-append p (addresses sz d.ptr 0 (d.size / sz)) (owned sz cs),
  owned-append sz p cs c,
)

module _ (u : UcsList) {E : Type 0} (sz : ℕ) where
  open u use {Head, items}

  abbrev pub free_items : DynList Head E → List ℕ
  free_items l = items l.list.internal_list

  -- Every element of the blocks is free or lent, and once; the counters count.
  pub record IsPool (l : DynList Head E) (lent : List ℕ) : Type 0 where
    pub owns : (p : ℕ) → occurs p (free_items l) + occurs p lent ≡ occurs p (elements sz l)
    pub once : (p : ℕ) → occurs p (elements sz l) ≤ 1
    pub counted : l.list.length ≡ length (free_items l)
    pub total : length (free_items l) + length lent ≡ l.capacity
    pub in_word : l.capacity < word
    pub recorded : l.num_mem_chunks ≤ l.mem_chunks.capacity
    pub array : IsValid l.mem_chunks
    pub array_step : l.mem_chunks.allocation_size ≡ default_mem_chunks
    pub array_type : l.mem_chunks.type_size ≡ chunk_type_size

  -- malloc answers `buf`: the block overlaps no element that is there, and memory does not wrap.
  pub record Grants (l : DynList Head E) (buf : ℕ) : Type 0 where
    pub apart :
        (p : ℕ) → 0 < occurs p (elements sz l) → (p + sz ≤ buf) ⊎ (buf + l.allocation_size * sz ≤ p)
    pub fits : buf + l.allocation_size * sz < word
    pub room : l.capacity + l.allocation_size < word
    pub array_room : (l.num_mem_chunks + default_mem_chunks) * chunk_type_size < word
