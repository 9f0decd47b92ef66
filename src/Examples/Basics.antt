-- ===== src/Examples/Basics.antt =====
-- The theorems on dynamic arrays, bitsets, tags and counts, on concrete inputs.
use dpu_offload_service.Prelude.{
  leb, ltb, ◌-◌, ℕ, ◌+◌, ◌/◌, ◌%◌, ◌^◌, ◌<◌, ◌≡◌, refl, Bool, true, false, none, some, List, [],
  ◌∷◌, arith, ◌==◌, if◌then◌else◌,
}
use dpu_offload_service.Size.{word}
use dpu_offload_service.Bitset.{Bitset, alloc_bitset, nslots}
use dpu_offload_service.Bitset.Laws.{Fresh, alloc_bitset-Fresh}
use dpu_offload_service.DynArray.{DynArray, grow, set_elt}
use dpu_offload_service.DynArray.Grow.{IsValid}
use dpu_offload_service.DynArray.Access.{view, set_elt-view}
use dpu_offload_service.DynArray.Init.{grow-init_faults}
use dpu_offload_service.Tag.{make_tag}
use dpu_offload_service.Tag.Fields.{make_tag-fields}
use dpu_offload_service.Utils.Ranges.{RankEntry, send_local_ranks}
use dpu_offload_service.Utils.Ranges.Laws.{
  local_ranks, all_valid, one_by_one, send_local_ranks-one_by_one,
}

abbrev up_to_two : ℕ → Bool
up_to_two slots = leb slots 2

alloc_bitset-Fresh_example :
    (b : Bitset) × Fresh 9 b
    × (alloc_bitset up_to_two none 9
        ≡ (if ltb (9 + 7) word then some (if up_to_two (nslots 9) then some b else none) else none))
alloc_bitset-Fresh_example = alloc_bitset-Fresh up_to_two 9 (omega arith) (omega arith)

-- The size at which the macro's number of slots wraps to 0, and two that are below.
alloc_bitset_wraps :
    (alloc_bitset up_to_two none (2 ^ 64 - 7) ≡ none)
    × (alloc_bitset up_to_two none 17 ≡ some none)
    × (alloc_bitset up_to_two none 16 ≡ some (some (0 ∷ 0 ∷ [])))
unfolding alloc_bitset nslots
alloc_bitset_wraps = (refl, refl, refl)

abbrev array2 : DynArray ℕ
array2 = record {
  base = 10 ∷ 11 ∷ [];
  capacity = 2;
  allocation_size = 2;
  type_size = 8;
  element_init_fn = none;
}

array2-IsValid : IsValid array2
array2-IsValid = record {
  full = refl;
  some_room = omega arith;
  step = omega arith;
  sized = omega arith;
  small = omega arith;
  plain = refl;
}

abbrev any_size : ℕ → Bool
any_size bytes = true

set_elt-view_example :
    (b : DynArray ℕ) × (set_elt 0 any_size array2 5 9 ≡ some b)
    × IsValid b
    × (5 < b.capacity)
    × ((i : ℕ) → view 0 b i ≡ (if 5 == i then 9 else view 0 array2 i))
    × (b.allocation_size ≡ 2)
    × (b.type_size ≡ 8)
set_elt-view_example =
    set_elt-view 0 any_size (λ bytes. refl) array2 5 9 array2-IsValid (omega arith)

abbrev with_init : DynArray ℕ
with_init = record array2 { element_init_fn = some (λ n. n + 1) }

grow-init_faults_example : grow 0 any_size with_init 3 ≡ none
grow-init_faults_example =
    grow-init_faults 0 any_size with_init 3 (λ n. n + 1) refl (omega arith) (omega arith)
      (omega arith) refl (omega arith) (omega arith) (λ bytes. refl)

make_tag-fields_example :
    (make_tag 5 3 9 1 2 / 2 ^ 46 % 2 ^ 16 ≡ 5)
    × (make_tag 5 3 9 1 2 / 2 ^ 43 % 2 ^ 3 ≡ 2)
    × (make_tag 5 3 9 1 2 / 2 ^ 40 % 2 ^ 3 ≡ 1)
    × (make_tag 5 3 9 1 2 / 2 ^ 16 % 2 ^ 24 ≡ 3)
    × (make_tag 5 3 9 1 2 % 2 ^ 16 ≡ 9)
    × (make_tag 5 3 9 1 2 < 2 ^ 62)
make_tag-fields_example =
    make_tag-fields 5 3 9 1 2 (omega arith) (omega arith) (omega arith) (omega arith) (omega arith)

abbrev rank_entries : List RankEntry
rank_entries =
    record { is_set = true; is_valid = true; sp = 7 }
    ∷ record { is_set = false; is_valid = false; sp = 0 }
    ∷ record { is_set = true; is_valid = true; sp = 4 }
    ∷ record { is_set = true; is_valid = true; sp = 4 }
    ∷ []

send_local_ranks-one_by_one_example :
    send_local_ranks 4 2 2 0 rank_entries 0 ≡ some (one_by_one (local_ranks 4 rank_entries 0))
unfolding local_ranks all_valid
send_local_ranks-one_by_one_example =
    send_local_ranks-one_by_one 4 2 2 0 rank_entries 0 refl refl (omega arith)
