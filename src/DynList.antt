-- ===== src/DynList.antt =====
-- The dynamic lists of include/dynamic_structs.h (`dyn_list_t`), macros GROW_DYN_LIST and DYN_LIST_*,
-- as they are without NDEBUG: a pool of elements that lie in blocks of memory.
-- An element is its address, and `ℕ → E` is what the elements hold. A call is given what malloc
-- answers: the address of the block, or `none` for NULL.
pub mod Pool
pub mod Grow
pub mod Calls
pub mod Histories
use dpu_offload_service.Prelude.{
  ℕ, zero, suc, ◌+◌, ◌*◌, ◌==◌, ltb, Bool, true, false, if◌then◌else◌, Option, none, some, length,
  set, get_elem?,
}
use dpu_offload_service.Prelude.Result.{bind, assert}
use dpu_offload_service.Size.{add_size, mul_size, sub_size}
use dpu_offload_service.DynArray.{DynArray}
use dpu_offload_service.DynArray
use dpu_offload_service.Ucs.{UcsList}
use dpu_offload_service.SimpleList.{SimpleList, is_empty, prepend, extract_first}
use dpu_offload_service.SimpleList

-- `mem_chunk_t`
pub record MemChunk : Type 0 where
  pub size : ℕ
  pub ptr : ℕ

abbrev pub zero_chunk : MemChunk
zero_chunk = record { size = 0; ptr = 0 }

-- sizeof(mem_chunk_t) and DEFAULT_MEM_CHUNKS
abbrev pub chunk_type_size : ℕ
chunk_type_size = 16

abbrev pub default_mem_chunks : ℕ
default_mem_chunks = 1024

-- `dyn_list_t`
pub record DynList (Head E : Type 0) : Type 0 where
  pub capacity : ℕ
  pub allocation_size : ℕ
  pub list : SimpleList Head
  pub element_init_cb : Option (E → E)
  pub num_mem_chunks : ℕ
  pub mem_chunks : DynArray MemChunk

-- The call of `element_init_cb`, if there is one, on the element at an address.
unfoldable pub init_element : {E : Type 0} → Option (E → E) → ℕ → (ℕ → E) → ℕ → E
init_element none p mem q = mem q
init_element (some cb) p mem q = if p == q then cb (mem p) else mem q

module _ {Head E : Type 0} where
  -- The block is written down, and counted in the capacity.
  unfoldable pub add_block :
      DynList Head E → DynArray MemChunk → SimpleList Head → ℕ → ℕ → DynList Head E
  add_block l chunks list chunk_size buf = record l {
    capacity = add_size l.capacity l.allocation_size;
    list = list;
    num_mem_chunks = add_size l.num_mem_chunks 1;
    mem_chunks = record chunks {
      base = set chunks.base l.num_mem_chunks (record { size = chunk_size; ptr = buf });
    };
  }

module _ (u : UcsList) {E : Type 0} (type_size : ℕ) (allocates : ℕ → Bool) where
  open u use {Head}

  -- The loop of GROW_DYN_LIST over the elements of the new block, from `idx` on: the list, what the
  -- elements hold and the last element.
  unfoldable pub add_elements :
      Option (E → E) → ℕ → ℕ → ℕ → SimpleList Head → (ℕ → E) → ℕ → SimpleList Head × (ℕ → E) × ℕ
  add_elements cb buf idx zero list mem ptr = (list, mem, ptr)
  add_elements cb buf idx (suc n) list mem ptr =
      add_elements cb buf (idx + 1) n (prepend u list (buf + idx * type_size))
        (init_element cb (buf + idx * type_size) mem) (buf + idx * type_size)

  -- GROW_DYN_LIST; the first argument is what malloc answers.
  unfoldable pub grow : Option ℕ → (ℕ → E) → DynList Head E → Option (DynList Head E × (ℕ → E))
  grow none mem l = some (l, mem)
  grow (some buf) mem l =
      let chunk_size : ℕ = mul_size l.allocation_size type_size in
      bind (DynArray.get_elt zero_chunk allocates l.mem_chunks l.num_mem_chunks) λ chunks.
        assert (ltb l.num_mem_chunks (length chunks.base)) (
          let (list, mem', ptr) =
            add_elements l.element_init_cb buf 0 l.allocation_size l.list mem 0 in
          assert (list.length == add_size l.list.length l.allocation_size) (
            assert (sub_size (add_size ptr type_size) (add_size buf chunk_size) == 0)
              (some (add_block l chunks list chunk_size buf, mem'))))

  -- DYN_LIST_ALLOC_WITH_INIT_CALLBACK, and DYN_LIST_ALLOC, which has no callback. `some none` is the
  -- NULL list: the malloc of the `dyn_list_t` failed, which the second argument says.
  unfoldable pub alloc :
      Option (E → E) → Bool → Option ℕ → (ℕ → E) → ℕ → Option (Option (DynList Head E × (ℕ → E)))
  alloc cb false answer mem num_elts_alloc = some none
  alloc cb true answer mem num_elts_alloc =
      bind (DynArray.alloc zero_chunk allocates default_mem_chunks chunk_type_size) λ chunks.
        bind
          (grow answer mem (record {
            capacity = 0;
            allocation_size = num_elts_alloc;
            list = SimpleList.init u;
            element_init_cb = cb;
            num_mem_chunks = 0;
            mem_chunks = chunks;
          }))
          λ r. some (some r)

  -- DYN_LIST_GET: the item, the list and what the elements hold.
  unfoldable pub get : Option ℕ → (ℕ → E) → DynList Head E → Option (ℕ × DynList Head E × (ℕ → E))
  get answer mem l =
      bind (if is_empty l.list then grow answer mem l else some (l, mem))
        λ r. let (p, rest) = extract_first u r.0.list in some (p, record r.0 { list = rest }, r.1)

module _ (u : UcsList) {E : Type 0} where
  -- DYN_LIST_RETURN
  unfoldable pub give_back : DynList u.Head E → ℕ → DynList u.Head E
  give_back l p = record l { list = prepend u l.list p }
