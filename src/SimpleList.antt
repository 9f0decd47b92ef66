-- ===== src/SimpleList.antt =====
-- The simple lists of include/dynamic_structs.h (`simple_list_t`), macros SIMPLE_LIST_*: a UCX list and
-- a counter of its items.
pub mod Laws
use dpu_offload_service.Prelude.{ℕ, Bool, true, false, ◌==◌, if◌then◌else◌}
use dpu_offload_service.Size.{add_size, sub_size}
use dpu_offload_service.Ucs.{UcsList}

-- `simple_list_t`
pub record SimpleList (Head : Type 0) : Type 0 where
  pub internal_list : Head
  pub length : ℕ

-- SIMPLE_LIST_IS_EMPTY
unfoldable pub is_empty : {Head : Type 0} → SimpleList Head → Bool
is_empty l = if l.length == 0 then true else false

module _ (u : UcsList) where
  open u use {Head, head_init, add_head, add_tail, extract_head}

  -- SIMPLE_LIST_INIT
  unfoldable pub init : SimpleList Head
  init = record { internal_list = head_init; length = 0 }

  -- SIMPLE_LIST_PREPEND
  unfoldable pub prepend : SimpleList Head → ℕ → SimpleList Head
  prepend l p = record { internal_list = add_head l.internal_list p; length = add_size l.length 1 }

  -- SIMPLE_LIST_APPEND
  unfoldable pub append : SimpleList Head → ℕ → SimpleList Head
  append l p = record { internal_list = add_tail l.internal_list p; length = add_size l.length 1 }

  -- SIMPLE_LIST_EXTRACT_HEAD: the counter goes down also when the list is empty.
  unfoldable pub extract_first : SimpleList Head → ℕ × SimpleList Head
  extract_first l =
      let (p, rest) = extract_head l.internal_list in
      (p, record { internal_list = rest; length = sub_size l.length 1 })
