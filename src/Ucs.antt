-- ===== src/Ucs.antt =====
-- The linked lists of UCX (`ucs_list_link_t`), which the library uses and does not implement: a list
-- of the addresses of its items, with what the library relies on. What `ucs_list_extract_head` does on
-- an empty list is left open.
use dpu_offload_service.Prelude.{
  ℕ, ◌≡◌, refl, List, [], ◌∷◌, ◌++◌, ◌==◌, if◌then◌else◌, Bool, true, false, arith,
}
use dpu_offload_service.Prelude.Occurs.{occurs}

abbrev pub is_nil : List ℕ → Bool
is_nil [] = true
is_nil (x ∷ xs) = false

pub record UcsList : Type 1 where
  pub Head : Type 0
  -- The items from the head to the tail.
  pub items : Head → List ℕ
  -- ucs_list_head_init, ucs_list_add_head, ucs_list_add_tail, ucs_list_extract_head, ucs_list_del,
  -- ucs_list_is_empty
  pub head_init : Head
  pub add_head : Head → ℕ → Head
  pub add_tail : Head → ℕ → Head
  pub extract_head : Head → ℕ × Head
  pub del : Head → ℕ → Head
  pub no_item : Head → Bool
  pub items-head_init : items head_init ≡ []
  pub items-add_head : (h : Head) (p : ℕ) → items (add_head h p) ≡ p ∷ items h
  pub items-add_tail : (h : Head) (p : ℕ) → items (add_tail h p) ≡ items h ++ (p ∷ [])
  pub extract_head_first :
      (h : Head) (p : ℕ) (r : List ℕ) → items h ≡ p ∷ r → (extract_head h).0 ≡ p
  pub items-extract_head :
      (h : Head) (p : ℕ) (r : List ℕ) → items h ≡ p ∷ r → items (extract_head h).1 ≡ r
  pub items-del :
      (h : Head) (before after : List ℕ) (p : ℕ)
      → items h ≡ before ++ (p ∷ after)
      → occurs p before ≡ 0
      → occurs p after ≡ 0
      → items (del h p) ≡ before ++ after
  pub no_item_lem : (h : Head) → no_item h ≡ is_nil (items h)

-- Plain lists are such lists; an item that is extracted from an empty one is 0.
abbrev pub extracted : List ℕ → ℕ × List ℕ
extracted [] = (0, [])
extracted (p ∷ r) = (p, r)

pub extracted_first : (h : List ℕ) (p : ℕ) (r : List ℕ) → h ≡ p ∷ r → (extracted h).0 ≡ p
extracted_first [] p r e = cc
extracted_first (x ∷ h) p r e = cc

pub extracted_rest : (h : List ℕ) (p : ℕ) (r : List ℕ) → h ≡ p ∷ r → (extracted h).1 ≡ r
extracted_rest [] p r e = cc
extracted_rest (x ∷ h) p r e = cc

abbrev pub removed : List ℕ → ℕ → List ℕ
removed [] p = []
removed (x ∷ h) p = if x == p then h else x ∷ removed h p

pub removed_lem :
    (before after : List ℕ) (p : ℕ)
    → occurs p before ≡ 0
    → removed (before ++ (p ∷ after)) p ≡ before ++ after
removed_lem [] after p e = ground arith
removed_lem (x ∷ before) after p e = ground (arith, removed_lem before after p)

abbrev pub plain_list : UcsList
plain_list = record {
  Head = List ℕ;
  items = λ h. h;
  head_init = [];
  add_head = λ h p. p ∷ h;
  add_tail = λ h p. h ++ (p ∷ []);
  extract_head = extracted;
  del = removed;
  no_item = is_nil;
  items-head_init = refl;
  items-add_head = λ h p. refl;
  items-add_tail = λ h p. refl;
  extract_head_first = extracted_first;
  items-extract_head = extracted_rest;
  no_item_lem = λ h. refl;
  items-del = λ h before after p e b a. rw e (removed_lem before after p b);
}
