-- ===== src/Hash.antt =====
-- The hash tables of the library (khash), as association lists from numbers; the values are what the
-- stored pointers point to, since a key has one object. What is used of khash is that a value put
-- under a key is found there and nowhere else, and that a walk meets every entry once.
use dpu_offload_service.Prelude.{
  ℕ, ◌+◌, ◌≡◌, refl, inl, inr, false, Option, none, some, List, [], ◌∷◌, arith, ◌==◌, if◌then◌else◌,
  Bool-cases, length,
}

abbrev pub Hash : Type 0 → Type 0
Hash V = List (ℕ × V)

module _ {V : Type 0} where
  -- kh_get
  unfoldable pub lookup : ℕ → Hash V → Option V
  lookup k [] = none
  lookup k ((j, v) ∷ m) = if j == k then some v else lookup k m

  -- kh_put and the write through kh_value
  unfoldable pub put : ℕ → V → Hash V → Hash V
  put k v [] = (k, v) ∷ []
  put k v ((j, w) ∷ m) = if j == k then (k, v) ∷ m else (j, w) ∷ put k v m

  pub lookup-put :
      (k j : ℕ) (v : V) (m : Hash V)
      → lookup j (put k v m) ≡ (if k == j then some v else lookup j m)
  unfolding lookup put
  lookup-put k j v [] = refl
  lookup-put k j v ((i, w) ∷ m) = ground (arith, lookup-put k j v m)

  -- kh_size
  abbrev pub size : Hash V → ℕ
  size m = length m

  abbrev pub Distinct : Hash V → Type 0
  Distinct [] = Unit {0}
  Distinct ((k, v) ∷ m) = (lookup k m ≡ none) × Distinct m

  pub put-Distinct : (k : ℕ) (v : V) (m : Hash V) → Distinct m → Distinct (put k v m)
  unfolding lookup put
  put-Distinct k v [] d = (refl, tt)
  put-Distinct k v ((j, w) ∷ m) d = elim (Bool-cases (j == k)) [
    | inl same ↦ let e : j ≡ k = ground arith in rw same (rw e at d.0, d.1)
    | inr other ↦
        let other' : (k == j) ≡ false = ground arith in
        rw other (rw (lookup-put k j v m, other') d.0, put-Distinct k v m d.1)
  ]

  pub size-put_new :
      (k : ℕ) (v : V) (m : Hash V) → lookup k m ≡ none → size (put k v m) ≡ size m + 1
  unfolding lookup put
  size-put_new k v [] h = omega arith
  size-put_new k v ((j, w) ∷ m) h = ground (arith, size-put_new k v m)

  pub size-put_known :
      (k : ℕ) (v w : V) (m : Hash V) → lookup k m ≡ some w → size (put k v m) ≡ size m
  unfolding lookup put
  size-put_known k v w [] h = cc
  size-put_known k v w ((j, x) ∷ m) h = ground (arith, size-put_known k v w m)
