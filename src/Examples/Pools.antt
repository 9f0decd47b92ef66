-- ===== src/Examples/Pools.antt =====
-- Dynamic lists at concrete inputs: two elements of 16 bytes at a time, the first two at 1000.
use dpu_offload_service.Prelude.{
  ℕ, ◌-◌, ◌≡◌, refl, Bool, true, none, some, List, [], ◌∷◌, set, replicate, arith,
}
use dpu_offload_service.Prelude.Occurs.{occurs}
use dpu_offload_service.Size.{add_size, mul_size, sub_size, uint64_max}
use dpu_offload_service.DynArray
use dpu_offload_service.Ucs.{plain_list}
use dpu_offload_service.SimpleList.{init, is_empty, prepend, extract_first}
use dpu_offload_service.DynList.{
  DynList, zero_chunk, add_elements, add_block, init_element, grow, alloc, get,
}
use dpu_offload_service.DynList.Pool.{IsPool}
use dpu_offload_service.DynList.Calls.{Granted}
use dpu_offload_service.DynList.Histories.{
  Use, Step, gets, here, next, Works, Move, stock, Reach-IsPool, Step-Move, gets_element,
  get_exhausted,
}

abbrev has_memory : ℕ → Bool
has_memory bytes = true

abbrev contents : ℕ → ℕ
contents q = 7

abbrev fresh_list : DynList (List ℕ) ℕ
fresh_list = record {
  capacity = 2;
  allocation_size = 2;
  list = record { internal_list = 1016 ∷ 1000 ∷ []; length = 2 };
  element_init_cb = none;
  num_mem_chunks = 1;
  mem_chunks = record {
    base = set (replicate 1024 zero_chunk) 0 (record { size = 32; ptr = 1000 });
    capacity = 1024;
    allocation_size = 1024;
    type_size = 16;
    element_init_fn = none;
  };
}

fresh_list_run :
    alloc plain_list 16 has_memory none true (some 1000) contents 2
    ≡ some (some (fresh_list, init_element none 1016 (init_element none 1000 contents)))
unfolding alloc grow add_elements add_block prepend init add_size mul_size sub_size DynArray.alloc
    DynArray.get_elt init_element
fresh_list_run = refl

abbrev fresh_use : Use plain_list ℕ 16 has_memory
fresh_use = record {
  list = fresh_list;
  mem = init_element none 1016 (init_element none 1000 contents);
  lent = [];
}

-- One element is lent, and one is free.
abbrev one_lent : Use plain_list ℕ 16 has_memory
one_lent = record {
  list = record fresh_list { list = record { internal_list = 1000 ∷ []; length = 1 } };
  mem = fresh_use.mem;
  lent = 1016 ∷ [];
}

first_get : Step plain_list ℕ 16 has_memory fresh_use one_lent
unfolding get is_empty extract_first sub_size
first_get = gets fresh_use none (1016, one_lent.list, one_lent.mem) (λ e. absurd cc) refl

Reach-IsPool_example : IsPool plain_list 16 one_lent.list one_lent.lent
Reach-IsPool_example =
    Reach-IsPool plain_list ℕ 16 has_memory (omega arith) (λ b. refl) none 2 1000 contents
      (fresh_list, fresh_use.mem) (omega arith) (omega arith) (omega arith) fresh_list_run
      (next here first_get)

fresh_use-Works : Works plain_list ℕ 16 has_memory fresh_use
fresh_use-Works = record {
  pool =
      Reach-IsPool plain_list ℕ 16 has_memory (omega arith) (λ b. refl) none 2 1000 contents
        (fresh_list, fresh_use.mem) (omega arith) (omega arith) (omega arith) fresh_list_run here;
  step = omega arith;
}

Step-Move_example :
    Move (stock plain_list ℕ 16 has_memory fresh_use) (stock plain_list ℕ 16 has_memory one_lent)
Step-Move_example =
    Step-Move plain_list ℕ 16 has_memory (omega arith) (λ b. refl) fresh_use-Works first_get

fresh_list-Granted : Granted plain_list 16 fresh_list none
unfolding is_empty
fresh_list-Granted = λ e. absurd cc

gets_element_example :
    (p : ℕ) × (t : Use plain_list ℕ 16 has_memory) × Step plain_list ℕ 16 has_memory fresh_use t
    × Works plain_list ℕ 16 has_memory t
    × (t.lent ≡ p ∷ [])
    × (occurs p [] ≡ 0)
gets_element_example =
    gets_element plain_list ℕ 16 has_memory (omega arith) (λ b. refl) fresh_use none fresh_use-Works
      fresh_list-Granted

-- Both elements are lent.
abbrev none_free : DynList (List ℕ) ℕ
none_free = record fresh_list { list = record { internal_list = []; length = 0 } }

get_exhausted_example :
    (r r' : ℕ × DynList (List ℕ) ℕ × (ℕ → ℕ)) × (get plain_list 16 has_memory none contents
        none_free
      ≡ some r)
    × (r.1.list.length ≡ uint64_max)
    × (get plain_list 16 has_memory (some 2000) r.2 r.1 ≡ some r')
    × (r'.1.capacity ≡ 2)
    × (r'.1.list.length ≡ uint64_max - 1)
get_exhausted_example = get_exhausted plain_list ℕ 16 has_memory none_free contents (some 2000) refl
