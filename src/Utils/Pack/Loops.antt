-- ===== src/Utils/Pack/Loops.antt =====
-- The loops of pack_data_sps and unpack_data_sps over the service processes.
use dpu_offload_service.Prelude.{
  ℕ, ◌*◌, ◌≤◌, ◌≡◌, refl, sym, ap, ap₂, ◌∙◌, Option, some, List, [], ◌∷◌, ◌++◌, arith, length, drop,
  length-append, length-drop,
}
use mathlib.Core.List.{append-nil, append_assoc}
use dpu_offload_service.Prelude.Result.{bind-some}
use dpu_offload_service.Utils.Pack.{RemoteSp, head_sp, tail_sps, write_each, read_each}
use dpu_offload_service.Utils.Pack.Memory.{write_at-append, drop-drop}

-- What a loop writes in all, where a part gives the bytes for each service process.
unfoldable pub flat : (RemoteSp → List ℕ) → List RemoteSp → List ℕ
flat part [] = []
flat part (sp ∷ sps) = part sp ++ flat part sps

-- Every service process satisfies a predicate.
pub data Every (P : RemoteSp → Type 0) : List RemoteSp → Type 0 where
  every_nil : Every P []
  every_cons : {sp : RemoteSp} {sps : List RemoteSp} → P sp → Every P sps → Every P (sp ∷ sps)

-- The service processes of a list correspond to the elements of an array.
pub data Match (P : RemoteSp → RemoteSp → Type 0) : List RemoteSp → List RemoteSp → Type 0 where
  match_nil : (array : List RemoteSp) → Match P [] array
  match_cons :
      {sp : RemoteSp} {sps : List RemoteSp} (array : List RemoteSp)
      → P sp (head_sp array)
      → Match P sps (tail_sps array)
      → Match P (sp ∷ sps) array

pub write_each-flat :
    (part : RemoteSp → Option (List ℕ)) (bytes : RemoteSp → List ℕ) (sps : List RemoteSp)
    (done free : List ℕ)
    → Every (λ sp. part sp ≡ some (bytes sp)) sps
    → length (flat bytes sps) ≤ length free
    → write_each part sps (done ++ free) (length done)
      ≡ some (
        (done ++ flat bytes sps) ++ drop (length (flat bytes sps)) free,
        length (done ++ flat bytes sps),
      )
unfolding write_each flat
write_each-flat part bytes [] done free e h = rw (append-nil done) refl
write_each-flat part bytes (sp ∷ sps) done free (Every.every_cons p e) h =
    let l1 = length-append (bytes sp) (flat bytes sps) in
    let l2 = length-append done (bytes sp) in
    let l3 = length-drop (length (bytes sp)) free in
    let fits : length (bytes sp) ≤ length free = omega arith in
    let fits' : length (flat bytes sps) ≤ length (drop (length (bytes sp)) free) = omega arith in
    let rest =
      write_each-flat part bytes sps (done ++ bytes sp) (drop (length (bytes sp)) free) e fits' in
    let joined : ((done ++ bytes sp) ++ flat bytes sps)
          ++ drop (length (flat bytes sps)) (drop (length (bytes sp)) free)
        ≡ (done ++ (bytes sp ++ flat bytes sps))
          ++ drop (length (bytes sp ++ flat bytes sps)) free =
      ap₂ (λ xs ys. xs ++ ys) (append_assoc done (bytes sp) (flat bytes sps))
        (drop-drop (length (flat bytes sps)) (length (bytes sp)) free
          ∙ ap (λ k. drop k free) (sym l1)) in
    bind-some _ p (
      bind-some _ (write_at-append done free (bytes sp) fits) (
        ap (λ k. write_each part sps ((done ++ bytes sp) ++ drop (length (bytes sp)) free) k)
          (sym l2)
        ∙ rest
        ∙ ap₂ (λ xs n. some (xs, n)) joined
            (ap length (append_assoc done (bytes sp) (flat bytes sps)))))

-- A loop that reads, where every step reads the part of its service process.
pub read_each-flat :
    {P Q : RemoteSp → RemoteSp → Type 0} (payload : List ℕ)
    (step : RemoteSp → ℕ → Option (RemoteSp × ℕ)) (bytes : RemoteSp → List ℕ)
    → ((a b : RemoteSp) (before after : List ℕ)
        → payload ≡ before ++ (bytes a ++ after)
        → P a b
        → (b' : RemoteSp) × (step b (length before) ≡ some (b', length (before ++ bytes a)))
          × Q a b')
    → (sps : List RemoteSp) (olds : List RemoteSp) (before after : List ℕ)
    → payload ≡ before ++ (flat bytes sps ++ after)
    → Match P sps olds
    → (news : List RemoteSp) × (read_each step (length sps) olds (length before)
        ≡ some (news, length (before ++ flat bytes sps)))
      × Match Q sps news
unfolding read_each flat
read_each-flat payload step bytes k [] olds before after e m =
    (olds, rw (append-nil before) refl, Match.match_nil olds)
read_each-flat payload step bytes k (a ∷ sps) olds before after e (Match.match_cons _ p ps) =
    let split : payload ≡ before ++ (bytes a ++ (flat bytes sps ++ after)) =
      e ∙ ap (λ xs. before ++ xs) (append_assoc (bytes a) (flat bytes sps) after) in
    let shifted : payload ≡ (before ++ bytes a) ++ (flat bytes sps ++ after) =
      split ∙ sym (append_assoc before (bytes a) (flat bytes sps ++ after)) in
    let (b, run, q) = k a (head_sp olds) before (flat bytes sps ++ after) split p in
    let (news, runs, qs) =
      read_each-flat payload step bytes k sps (tail_sps olds) (before ++ bytes a) after shifted
        ps in
    (
      b ∷ news,
      bind-some _ run (
          bind-some _ runs (
            ap (λ xs. some (b ∷ news, length xs))
              (append_assoc before (bytes a) (flat bytes sps)))),
      Match.match_cons (b ∷ news) q qs,
    )

-- A loop whose parts are all as long writes as often as long.
pub length-flat :
    (bytes : RemoteSp → List ℕ) (n : ℕ) (sps : List RemoteSp)
    → Every (λ sp. length (bytes sp) ≡ n) sps
    → length (flat bytes sps) ≡ length sps * n
unfolding flat
length-flat bytes n [] e = omega arith
length-flat bytes n (sp ∷ sps) (Every.every_cons p e) =
    let l = length-append (bytes sp) (flat bytes sps) in
    let k = length-flat bytes n sps e in omega arith

pub map-Every :
    {P Q : RemoteSp → Type 0} {sps : List RemoteSp}
    → ((sp : RemoteSp) → P sp → Q sp)
    → Every P sps
    → Every Q sps
map-Every k Every.every_nil = Every.every_nil
map-Every k (Every.every_cons {sp} p e) = Every.every_cons (k sp p) (map-Every k e)

pub Every-Match :
    {P : RemoteSp → Type 0} (sps array : List RemoteSp)
    → Every P sps
    → Match (λ sp b. P sp) sps array
Every-Match [] array Every.every_nil = Match.match_nil array
Every-Match (sp ∷ sps) array (Every.every_cons p e) =
    Match.match_cons array p (Every-Match sps (tail_sps array) e)
