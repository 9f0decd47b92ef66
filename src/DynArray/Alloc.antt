-- ===== src/DynArray/Alloc.antt =====
-- DYN_ARRAY_ALLOC makes a valid array.
use dpu_offload_service.Prelude.{
  ℕ, ◌*◌, ◌/◌, ◌<◌, ◌≡◌, refl, Bool, true, false, some, length-replicate, length-set, set, ◌∙◌, leb,
  ◌==◌, arith,
}
use native.Mathlib.Nat.{mul-div_cancel}
use dpu_offload_service.Size.{word, mul_size, mul_size-eq}
use dpu_offload_service.DynArray
use dpu_offload_service.DynArray.{DynArray}
use dpu_offload_service.DynArray.Grow.{IsValid}

-- DYN_ARRAY_ALLOC where memory is available.
pub alloc-IsValid {ℓ} :
    {A : Type ℓ} (z : A) (allocates : ℕ → Bool)
    → ((bytes : ℕ) → allocates bytes ≡ true)
    → (n type_size : ℕ) → 0 < n
    → 0 < type_size
    → n * type_size < word
    → (a : DynArray A) × (DynArray.alloc z allocates n type_size ≡ some a)
      × IsValid a
      × (a.allocation_size ≡ n)
      × (a.type_size ≡ type_size)
unfolding DynArray.alloc
alloc-IsValid z allocates mem_ok n type_size some_elts sized small =
    let used : (n == 0) ≡ false = ground arith in
    let fits : leb n (mul_size n type_size / type_size) ≡ true =
      rw (mul_size-eq n type_size small, mul-div_cancel n sized) (ground arith) in
    (
      _,
      rw (used, mem_ok (mul_size n type_size), fits) refl,
      record {
        full = length-replicate n z;
        some_room = some_elts;
        step = some_elts;
        sized = sized;
        small = small;
        plain = refl;
      },
      refl,
      refl,
    )

-- A write leaves the array valid.
pub set-IsValid {ℓ} :
    {A : Type ℓ} {b : DynArray A}
    → IsValid b
    → (i : ℕ) (e : A) → IsValid (record b { base = set b.base i e })
set-IsValid {b = b} v i e = record {
  full = length-set b.base i e ∙ v.full;
  some_room = v.some_room;
  step = v.step;
  sized = v.sized;
  small = v.small;
  plain = v.plain;
}
