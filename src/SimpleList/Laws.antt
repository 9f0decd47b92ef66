-- ===== src/SimpleList/Laws.antt =====
-- Simple lists against the lists that they stand for.
use dpu_offload_service.Prelude.{ℕ, ◌+◌, ◌-◌, ◌<◌, ◌≡◌, List, ◌∷◌, arith}
use dpu_offload_service.Size.{word, add_size-eq, sub_size-eq}
use dpu_offload_service.Ucs.{UcsList}
use dpu_offload_service.SimpleList.{SimpleList, prepend, extract_first}

module _ (u : UcsList) where
  open u use {Head, items, items-add_head, items-extract_head, extract_head_first}

  pub length-prepend :
      (l : SimpleList Head) (p : ℕ) → l.length + 1 < word → (prepend u l p).length ≡ l.length + 1
  unfolding prepend
  length-prepend l p h = add_size-eq l.length 1 h

  pub items-prepend :
      (l : SimpleList Head) (p : ℕ)
      → items (prepend u l p).internal_list ≡ p ∷ items l.internal_list
  unfolding prepend
  items-prepend l p = items-add_head l.internal_list p

  module _ (l : SimpleList Head) (p : ℕ) (r : List ℕ) (e : items l.internal_list ≡ p ∷ r) where
    pub extract_first_item : (extract_first u l).0 ≡ p
    unfolding extract_first
    extract_first_item = extract_head_first l.internal_list p r e

    pub items-extract_first : items (extract_first u l).1.internal_list ≡ r
    unfolding extract_first
    items-extract_first = items-extract_head l.internal_list p r e

    pub length-extract_first :
        0 < l.length → l.length < word → (extract_first u l).1.length ≡ l.length - 1
    unfolding extract_first
    length-extract_first h k = sub_size-eq l.length 1 (omega arith) k
