-- ===== src/DynArray.antt =====
-- The dynamic arrays of include/dynamic_structs.h (`dyn_array_t`), macros DYN_ARRAY_*.
-- The memory behind `base` is the list of the elements that fit in it. An element whose bytes are all
-- zero is `zero_elt`, and `allocates` says whether malloc or realloc of so many bytes succeeds.
pub mod Grow
pub mod Access
pub mod Init
pub mod Alloc
use dpu_offload_service.Prelude.{
  ℕ, zero, suc, ◌+◌, ◌-◌, ◌/◌, Bool, Option, none, some, List, ◌++◌, leb, ltb, ◌==◌, not,
  if◌then◌else◌, get_elem?, set, take, replicate, length,
}
use dpu_offload_service.Prelude.Result.{bind, assert}
use dpu_offload_service.Size.{add_size, mul_size, sub_size}

-- `dyn_array_t`
pub record DynArray {ℓ} (A : Type ℓ) : Type ℓ where
  pub base : List A
  pub capacity : ℕ
  pub allocation_size : ℕ
  pub type_size : ℕ
  pub element_init_fn : Option (A → A)

-- The loop of DYN_ARRAY_GROW that looks for the new capacity. `none`: the fuel ran out.
unfoldable pub grow_target : ℕ → ℕ → ℕ → ℕ → ℕ → Option ℕ
grow_target zero type_size allocation_size size new_num = none
grow_target (suc fuel) type_size allocation_size size new_num =
    let rest = grow_target fuel type_size allocation_size size (add_size new_num allocation_size) in
    if leb (mul_size new_num type_size) (mul_size size type_size) then rest else some new_num

-- What a block of `bytes` bytes holds after realloc and memset: the old elements, as far as there are
-- any, and zeros from `initial` to `new_num`. The memset must stay in the block.
unfoldable pub cleared {ℓ} : {A : Type ℓ} → A → List A → ℕ → ℕ → ℕ → Option (List A)
cleared zero_elt base initial new_num fits =
    assert (leb new_num fits)
      (some (take initial base ++ replicate (sub_size new_num initial) zero_elt))

-- The loop of DYN_ARRAY_GROW over the new elements: `_a` points to the first of them already, and is
-- indexed by `_initial_num_elts + _x` all the same.
unfoldable pub init_new {ℓ} : {A : Type ℓ} → (A → A) → ℕ → ℕ → ℕ → List A → Option (List A)
init_new fn initial x zero base = some base
init_new fn initial x (suc n) base =
    bind (get_elem? base (initial + (initial + x)))
      (λ e. init_new fn initial (x + 1) n (set base (initial + (initial + x)) (fn e)))

unfoldable pub init_if_set {ℓ} : {A : Type ℓ} → Option (A → A) → ℕ → ℕ → List A → Option (List A)
init_if_set none initial n base = some base
init_if_set (some fn) initial n base = init_new fn initial 0 n base

module _ {ℓ} {A : Type ℓ} (zero_elt : A) (allocates : ℕ → Bool) where
  -- DYN_ARRAY_ALLOC
  unfoldable pub alloc : ℕ → ℕ → Option (DynArray A)
  alloc num_elts type_size = assert (not (num_elts == 0)) (
      assert (allocates (mul_size num_elts type_size)) (
        assert (leb num_elts (mul_size num_elts type_size / type_size)) (
          some (record {
            base = replicate num_elts zero_elt;
            capacity = num_elts;
            allocation_size = num_elts;
            type_size = type_size;
            element_init_fn = none;
          }))))

  -- DYN_ARRAY_GROW: the fuel is one more than the index that has to fit (Grow.grow_target-total).
  unfoldable pub grow : DynArray A → ℕ → Option (DynArray A)
  grow a size =
      bind (grow_target (suc size) a.type_size a.allocation_size size a.capacity) λ new_num.
        assert (allocates (mul_size new_num a.type_size)) (
          bind
            (cleared zero_elt a.base a.capacity new_num
              (mul_size new_num a.type_size / a.type_size))
            λ fresh.
              bind (init_if_set a.element_init_fn a.capacity (sub_size new_num a.capacity) fresh)
                λ b. some (record a { base = b; capacity = new_num }))

  -- DYN_ARRAY_GET_ELT: the array, grown if need be, in which the pointer to element `idx` is valid.
  unfoldable pub get_elt : DynArray A → ℕ → Option (DynArray A)
  get_elt a idx = assert (not (a.capacity == 0)) (if leb a.capacity idx then grow a idx else some a)

  -- DYN_ARRAY_SET_ELT
  unfoldable pub set_elt : DynArray A → ℕ → A → Option (DynArray A)
  set_elt a idx elt =
      bind (if leb a.capacity idx then grow a idx else some a)
        λ a'. assert (ltb idx (length a'.base)) (some (record a' { base = set a'.base idx elt }))

-- DYN_ARRAY_FREE; the memory is given back.
unfoldable pub free {ℓ} : {A : Type ℓ} → DynArray A → DynArray A
free a =
    if ltb 0 a.capacity
    then record {
      base = List.[];
      capacity = 0;
      allocation_size = 0;
      type_size = 0;
      element_init_fn = none;
    }
    else a
