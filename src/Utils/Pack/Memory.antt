-- ===== src/Utils/Pack/Memory.antt =====
-- Bytes that are written to memory and read again.
use dpu_offload_service.Prelude.{
  ℕ, zero, suc, ◌+◌, ◌^◌, ◌/◌, ◌≤◌, ◌<◌, ◌≡◌, refl, sym, ap, ap₂, ◌∙◌, some, List, [], ◌∷◌, ◌++◌,
  arith, length, drop,
}
use dpu_offload_service.Prelude.Result.{bind, bind-eq-some}
use dpu_offload_service.Utils.Pack.{bytes_of, number_of, write_at, read_at}

pub length-bytes_of : (w n : ℕ) → length (bytes_of w n) ≡ w
unfolding bytes_of
length-bytes_of zero n = refl
length-bytes_of (suc w) n = ap suc (length-bytes_of w (n / 256))

-- A number below 256 ^ w is read back from its w bytes.
pub number_of-bytes_of : (w n : ℕ) → n < 256 ^ w → number_of (bytes_of w n) ≡ n
unfolding bytes_of number_of
number_of-bytes_of zero n h = omega arith
number_of-bytes_of (suc w) n h =
    let below : n / 256 < 256 ^ w = omega arith in
    let back = number_of-bytes_of w (n / 256) below in omega arith

pub write_at-append :
    (done free bs : List ℕ)
    → length bs ≤ length free
    → write_at (done ++ free) (length done) bs ≡ some ((done ++ bs) ++ drop (length bs) free)
unfolding write_at
write_at-append [] free [] h = refl
write_at-append [] [] (b ∷ bs) h = absurd (omega arith)
write_at-append [] (x ∷ free) (b ∷ bs) h =
    ap (λ r. bind r λ rest. some (b ∷ rest)) (write_at-append [] free bs (omega arith))
write_at-append (d ∷ done) free bs h =
    ap (λ r. bind r λ rest. some (d ∷ rest)) (write_at-append done free bs h)

pub read_at-append :
    (before bs after : List ℕ)
    → read_at (before ++ (bs ++ after)) (length before) (length bs) ≡ some bs
unfolding read_at
read_at-append [] [] after = refl
read_at-append [] (b ∷ bs) after =
    ap (λ r. bind r λ rest. some (b ∷ rest)) (read_at-append [] bs after)
read_at-append (x ∷ before) bs after = read_at-append before bs after

pub drop-append : (xs ys : List ℕ) → drop (length xs) (xs ++ ys) ≡ ys
drop-append [] ys = refl
drop-append (x ∷ xs) ys = drop-append xs ys

pub drop-drop : (m n : ℕ) (xs : List ℕ) → drop m (drop n xs) ≡ drop (n + m) xs
drop-drop m zero xs = let e : m ≡ 0 + m = omega arith in ap (λ k. drop k xs) e
drop-drop zero (suc n) [] =
    let e : suc n ≡ suc n + 0 = omega arith in ap {A = ℕ} (λ k. drop {A = ℕ} k []) e
drop-drop (suc m) (suc n) [] =
    let e : suc (n + suc m) ≡ suc n + suc m = omega arith in ap (λ k. drop {A = ℕ} k []) e
drop-drop m (suc n) (x ∷ xs) =
    let e : suc (n + m) ≡ suc n + m = omega arith in drop-drop m n xs ∙ ap (λ k. drop k (x ∷ xs)) e

pub length-read_at :
    (buf : List ℕ) (offset n : ℕ) (bs : List ℕ) → read_at buf offset n ≡ some bs → length bs ≡ n
unfolding read_at
length-read_at buf zero zero bs h = let e : [] ≡ bs = cc in ap length (sym e)
length-read_at [] zero (suc n) bs h = absurd cc
length-read_at (x ∷ buf) zero (suc n) bs h =
    let (rest, r, e) = bind-eq-some (read_at buf zero n) (λ rest. some (x ∷ rest)) h in
    let e' : x ∷ rest ≡ bs = cc in ap length (sym e') ∙ ap suc (length-read_at buf zero n rest r)
length-read_at [] (suc offset) n bs h = absurd cc
length-read_at (x ∷ buf) (suc offset) n bs h = length-read_at buf offset n bs h

-- A read of a part of memory that stands at its offset.
pub read_at-part :
    (payload before bs after : List ℕ) (n : ℕ)
    → payload ≡ before ++ (bs ++ after)
    → length bs ≡ n
    → read_at payload (length before) n ≡ some bs
read_at-part payload before bs after n e l =
    ap₂ (λ xs k. read_at xs (length before) k) e (sym l) ∙ read_at-append before bs after
