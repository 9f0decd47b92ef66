-- ===== src/SmartBuffers/NewBucket.antt =====
-- A smart buffer from a new bucket.
use dpu_offload_service.Prelude.{
  ℕ, ◌+◌, ◌-◌, ◌*◌, ◌/◌, ◌<◌, ◌≡◌, ◌≢◌, refl, ap, ap₂, ◌∙◌, true, false, not, Option, none, some,
  List, [], ◌∷◌, ◌++◌, arith, ◌==◌, ltb, length, get_elem?, set,
}
use native.Mathlib.Nat.{mul-div_cancel}
use dpu_offload_service.Prelude.Result.{assert, bind-some}
use dpu_offload_service.Size.{mul_size, uint64_max, mul_size-eq, word}
use dpu_offload_service.SmartBuffers.{
  SmartChunk, SmartBucket, SmartBuffers, write_chunk, find_bucket, add_chunks, empty_bucket,
  with_bucket, bucket_of, new_max_size, new_bucket, take_chunk, get_at, buff_get,
}

get_elem?_end :
    (bs : List SmartBucket) (b : SmartBucket) → get_elem? (bs ++ (b ∷ [])) (length bs) ≡ some b
get_elem?_end [] b = refl
get_elem?_end (x ∷ bs) b = get_elem?_end bs b

set_end :
    (bs : List SmartBucket) (b v : SmartBucket)
    → set (bs ++ (b ∷ [])) (length bs) v ≡ bs ++ (v ∷ [])
set_end [] b v = refl
set_end (x ∷ bs) b v = ap (λ ys. x ∷ ys) (set_end bs b v)

-- The chunk with the n-th number of a block of chunks of a size.
abbrev chunk_at : ℕ → ℕ → ℕ → SmartChunk
chunk_at n base size = record { seq_num = n; base = base; size = size; in_use = false }

abbrev three : (ℕ → SmartChunk) → ℕ → ℕ → ℕ → ℕ → ℕ → ℕ → SmartChunk
three mem block m d0 d1 d2 =
    write_chunk
      (write_chunk (write_chunk mem d0 (chunk_at 0 block m)) d1 (chunk_at 1 (block + m) m)) d2
      (chunk_at 2 (block + m + m) m)

three_first :
    (mem : ℕ → SmartChunk) (block m d0 d1 d2 : ℕ)
    → d0 ≢ d1
    → d0 ≢ d2
    → three mem block m d0 d1 d2 d0 ≡ chunk_at 0 block m
three_first mem block m d0 d1 d2 apart apart' =
    let ne1 : (d1 == d0) ≡ false = ground arith in
    let ne2 : (d2 == d0) ≡ false = ground arith in
    let same : (d0 == d0) ≡ true = ground arith in rw (ne2, ne1, same) refl

three_third :
    (mem : ℕ → SmartChunk) (block m d0 d1 d2 : ℕ) (c : SmartChunk)
    → d0 ≢ d2
    → write_chunk (three mem block m d0 d1 d2) d0 c d2 ≡ chunk_at 2 (block + m + m) m
three_third mem block m d0 d1 d2 c apart =
    let ne : (d0 == d2) ≡ false = ground arith in
    let same : (d2 == d2) ≡ true = ground arith in rw (ne, same) refl

abbrev three_chunks : ℕ → ℕ → List ℕ → SmartBucket
three_chunks last_size m pool = record (empty_bucket 3 last_size m) {
  smart_chunks_seq_num = 3;
  pool = pool;
}

bucket_of-three :
    (block d0 d1 d2 : ℕ) (sys : SmartBuffers) (last_size m : ℕ)
    → bucket_of block (d0 ∷ d1 ∷ d2 ∷ []) sys last_size m 3
      ≡ some (
          with_bucket sys m
            (three_chunks last_size m (d0 ∷ d1 ∷ d2 ∷ []), three sys.chunks block m d0 d1 d2))
unfolding add_chunks
bucket_of-three block d0 d1 d2 sys last_size m = refl

new_bucket-three :
    (block d0 d1 d2 : ℕ) (sys : SmartBuffers) (sz last_size : ℕ)
    → get_elem? sys.bucket_sizes (length sys.buckets - 1) ≡ some last_size
    → 0 < new_max_size sz last_size
    → 2 * new_max_size sz last_size < word
    → new_bucket block (d0 ∷ d1 ∷ d2 ∷ []) sys sz
      ≡ some (
          with_bucket sys (new_max_size sz last_size) (
            three_chunks last_size (new_max_size sz last_size) (d0 ∷ d1 ∷ d2 ∷ []),
            three sys.chunks block (new_max_size sz last_size) d0 d1 d2,
          ))
unfolding new_bucket
new_bucket-three block d0 d1 d2 sys sz last_size last some_size fits =
    let m = new_max_size sz last_size in
    let size = mul_size-eq 2 m fits in
    let some_mem : ltb 0 (mul_size 2 m) ≡ true = ground arith in
    let count : mul_size 2 m / m + 1 ≡ 3 =
      ap (λ k. k / m + 1) size ∙ ap (λ k. k + 1) (mul-div_cancel 2 some_size) in
    let from = bucket_of block (d0 ∷ d1 ∷ d2 ∷ []) sys last_size m in
    bind-some _ last (
      ap₂ (λ t n. assert t (from n)) some_mem count
      ∙ bucket_of-three block d0 d1 d2 sys last_size m)

-- The first of the three chunks is taken.
abbrev first_taken : SmartBuffers → ℕ → ℕ → (ℕ → SmartChunk) → ℕ → ℕ → ℕ → SmartBuffers
first_taken sys last_size m mem d0 d1 d2 = record sys {
  buckets = sys.buckets ++ (three_chunks last_size m (d1 ∷ d2 ∷ []) ∷ []);
  bucket_sizes = sys.bucket_sizes ++ (m ∷ []);
  num_base_mem_chunks = sys.num_base_mem_chunks + 1;
  chunks = write_chunk mem d0 (record (mem d0) { in_use = true });
}

take_chunk-three :
    (block : ℕ) (descs : List ℕ) (sys : SmartBuffers) (last_size m : ℕ) (mem : ℕ → SmartChunk)
    (d0 d1 d2 : ℕ)
    → (mem d0).seq_num < uint64_max
    → take_chunk block descs
        (with_bucket sys m (three_chunks last_size m (d0 ∷ d1 ∷ d2 ∷ []), mem))
        (length sys.buckets)
      ≡ some (d0, first_taken sys last_size m mem d0 d1 d2)
unfolding take_chunk
take_chunk-three block descs sys last_size m mem d0 d1 d2 below =
    let b = three_chunks last_size m (d0 ∷ d1 ∷ d2 ∷ []) in
    let numbered : not ((mem d0).seq_num == uint64_max) ≡ true = ground arith in
    let put : List SmartBucket → Option (ℕ × SmartBuffers) =
      λ bs. some (d0, record (first_taken sys last_size m mem d0 d1 d2) { buckets = bs }) in
    bind-some _ (get_elem?_end sys.buckets b) (
      ap₂ (λ t bs. assert t (put bs)) numbered
        (set_end sys.buckets b (three_chunks last_size m (d1 ∷ d2 ∷ []))))

-- No bucket has the size, the new size m is above 0 and such that 2 * m is below 2 ^ 64, and the first
-- descriptor is neither the second nor the third: SMART_BUFF_GET makes a bucket with three chunks from
-- a block of memory of 2 * m bytes and gives the first one; the third one is in the pool of the new
-- bucket and begins where the block ends.
pub buff_get_past_block :
    (block d0 d1 d2 : ℕ) (sys : SmartBuffers) (sz last_size : ℕ)
    → find_bucket sys.buckets sz ≡ none
    → get_elem? sys.bucket_sizes (length sys.buckets - 1) ≡ some last_size
    → 0 < new_max_size sz last_size
    → 2 * new_max_size sz last_size < word
    → d0 ≢ d1
    → d0 ≢ d2
    → (sys' : SmartBuffers) × (b : SmartBucket) × (buff_get block (d0 ∷ d1 ∷ d2 ∷ []) sys sz
        ≡ some (d0, sys'))
      × (get_elem? sys'.buckets (length sys.buckets) ≡ some b)
      × (b.pool ≡ d1 ∷ d2 ∷ [])
      × (b.max_size ≡ new_max_size sz last_size)
      × ((sys'.chunks d2).base ≡ block + 2 * b.max_size)
unfolding buff_get
buff_get_past_block block d0 d1 d2 sys sz last_size none_found last some_size fits apart apart' =
    let descs = d0 ∷ d1 ∷ d2 ∷ [] in
    let m = new_max_size sz last_size in
    let mem = three sys.chunks block m d0 d1 d2 in
    let b = three_chunks last_size m (d1 ∷ d2 ∷ []) in
    let below : (mem d0).seq_num < uint64_max =
      (let e = ap (λ c. c.seq_num) (three_first sys.chunks block m d0 d1 d2 apart apart') in
        omega arith) in
    let third =
      ap (λ c. c.base)
        (three_third sys.chunks block m d0 d1 d2 (record (mem d0) { in_use = true }) apart') in
    let twice : block + m + m ≡ block + 2 * m = omega arith in
    (
      first_taken sys last_size m mem d0 d1 d2,
      b,
      ap (λ f. get_at block descs sys sz f) none_found
          ∙ bind-some _ (new_bucket-three block d0 d1 d2 sys sz last_size last some_size fits)
              (take_chunk-three block descs sys last_size m mem d0 d1 d2 below),
      get_elem?_end sys.buckets b,
      refl,
      refl,
      third ∙ twice,
    )
