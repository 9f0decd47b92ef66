-- ===== src/SmartBuffers/Calls.antt =====
-- A smart buffer that is taken from its bucket and returned.
use dpu_offload_service.Prelude.{
  ℕ, zero, suc, ◌+◌, ◌≤◌, ◌<◌, ◌≡◌, refl, sym, ap, ap₂, ◌∙◌, Bool, true, false, not, ◌&&◌, some,
  List, [], ◌∷◌, arith, ◌==◌, leb, if◌then◌else◌, get_elem?, set, Bool-cases, inl, inr,
}
use dpu_offload_service.Prelude.Result.{bind, assert, bind-some}
use dpu_offload_service.Size.{uint64_max}
use dpu_offload_service.SmartBuffers.{
  SmartChunk, SmartBucket, SmartBuffers, write_chunk, find_bucket, filled_bucket, num_blocks,
  take_first, take_chunk, get_new, get_at, buff_get, return_chunk, buff_return,
}

-- The bucket that is found has a range with the size in it.
find_bucket_range :
    (bs : List SmartBucket) (sz i : ℕ) (b : SmartBucket)
    → find_bucket bs sz ≡ some i
    → get_elem? bs i ≡ some b
    → sz ≤ b.max_size
unfolding find_bucket
find_bucket_range [] sz i b f g = absurd cc
find_bucket_range (x ∷ bs) sz zero b f g =
    let e : x ≡ b = cc in let l : sz ≤ x.max_size = ground arith in rw (← e) l
find_bucket_range (x ∷ bs) sz (suc i) b f g =
    let e : find_bucket bs sz ≡ some i = ground arith in find_bucket_range bs sz i b e g

-- The search reads the ranges alone.
find_bucket-set :
    (bs : List SmartBucket) (sz i : ℕ) (b : SmartBucket) (pool : List ℕ)
    → get_elem? bs i ≡ some b
    → find_bucket (set bs i (record b { pool = pool })) sz ≡ find_bucket bs sz
unfolding find_bucket
find_bucket-set [] sz i b pool g = absurd cc
find_bucket-set (x ∷ bs) sz zero b pool g = let e : x ≡ b = cc in rw (← e) refl
find_bucket-set (x ∷ bs) sz (suc i) b pool g =
    ap (λ r. if leb x.min_size sz && leb sz x.max_size then some 0 else bind r (λ i. some (i + 1)))
      (find_bucket-set bs sz i b pool g)

-- The search for a size finds a bucket whose first chunk is free and as large as the bucket's maximum;
-- the maximum and the sequence numbers are below 2 ^ 64 - 1.
pub record HasChunk (sys : SmartBuffers) (sz i : ℕ) (b : SmartBucket) (d : ℕ) (ds : List ℕ)
    : Type 0 where
  pub found : find_bucket sys.buckets sz ≡ some i
  pub bucket : get_elem? sys.buckets i ≡ some b
  pub pool : b.pool ≡ d ∷ ds
  pub bounded : b.max_size < uint64_max
  pub numbered : b.smart_chunks_seq_num < uint64_max
  pub chunk_numbered : (sys.chunks d).seq_num < uint64_max
  pub free : (sys.chunks d).in_use ≡ false
  pub sized : (sys.chunks d).size ≡ b.max_size

-- The system once the first chunk of a bucket is taken.
abbrev taken : SmartBuffers → ℕ → SmartBucket → ℕ → List ℕ → SmartBuffers
taken sys i b d ds = record sys {
  buckets = set sys.buckets i (record b { pool = ds });
  chunks = write_chunk sys.chunks d (record (sys.chunks d) { in_use = true });
}

take_chunk-taken :
    (block : ℕ) (descs : List ℕ) (sys : SmartBuffers) (sz i : ℕ) (b : SmartBucket) (d : ℕ)
    (ds : List ℕ)
    → HasChunk sys sz i b d ds
    → take_chunk block descs sys i ≡ some (d, taken sys i b d ds)
unfolding take_chunk
take_chunk-taken block descs sys sz i b d ds h =
    let n = sys.num_base_mem_chunks in
    let mem = sys.chunks in
    let numbered : not ((mem d).seq_num == uint64_max) ≡ true =
      (let q = h.chunk_numbered in ground arith) in
    bind-some _ h.bucket (
      bind-some _ (ap (λ p. filled_bucket block descs b mem p) h.pool) (
        ap (λ p. take_first sys i b (num_blocks n p) mem p) h.pool
        ∙ ap (λ t. assert t (some (d, taken sys i b d ds))) numbered))

buff_get-taken :
    (block : ℕ) (descs : List ℕ) (sys : SmartBuffers) (sz i : ℕ) (b : SmartBucket) (d : ℕ)
    (ds : List ℕ)
    → HasChunk sys sz i b d ds
    → buff_get block descs sys sz ≡ some (d, taken sys i b d ds)
unfolding buff_get
buff_get-taken block descs sys sz i b d ds h =
    let numbered : not (b.smart_chunks_seq_num == uint64_max) ≡ true =
      (let q = h.numbered in ground arith) in
    let bounded : (b.max_size == uint64_max) ≡ false = (let q = h.bounded in ground arith) in
    let take = take_chunk block descs sys i in
    ap (λ f. get_at block descs sys sz f) h.found
    ∙ bind-some _ h.bucket (
        ap₂ (λ t u. assert t (if u then get_new block descs sys sz else take)) numbered bounded
        ∙ take_chunk-taken block descs sys sz i b d ds h)

get_elem?-set_at :
    (bs : List SmartBucket) (i : ℕ) (b v : SmartBucket)
    → get_elem? bs i ≡ some b
    → get_elem? (set bs i v) i ≡ some v
get_elem?-set_at [] i b v g = absurd cc
get_elem?-set_at (x ∷ bs) zero b v g = refl
get_elem?-set_at (x ∷ bs) (suc i) b v g = get_elem?-set_at bs i b v g

-- A bucket that is changed and put back.
restore_bucket :
    (bs : List SmartBucket) (i : ℕ) (b v w : SmartBucket)
    → get_elem? bs i ≡ some b
    → w ≡ b
    → set (set bs i v) i w ≡ bs
restore_bucket [] i b v w g e = refl
restore_bucket (x ∷ bs) zero b v w g e = let q : w ≡ x = cc in ap (λ y. y ∷ bs) q
restore_bucket (x ∷ bs) (suc i) b v w g e = ap (λ ys. x ∷ ys) (restore_bucket bs i b v w g e)

write_chunk_self : (mem : ℕ → SmartChunk) (d : ℕ) (c : SmartChunk) → write_chunk mem d c d ≡ c
write_chunk_self mem d c = ground arith

-- A chunk that was free is free again.
write_chunk_back :
    (mem : ℕ → SmartChunk) (d : ℕ) (c : SmartChunk) (q : ℕ)
    → c ≡ mem d
    → write_chunk (write_chunk mem d (record (mem d) { in_use = true })) d c q ≡ mem q
write_chunk_back mem d c q e = elim (Bool-cases (d == q)) [
  | inr other ↦ rw other refl
  | inl same ↦
      let same_place : d ≡ q = ground arith in
      let moved : mem d ≡ mem q = ap mem same_place in
      let kept : c ≡ mem q = e ∙ moved in rw same kept
]

abbrev with_pool : SmartBucket → List ℕ → SmartBucket
with_pool b pool = record b { pool = pool }

abbrev with_use : Bool → SmartChunk → SmartChunk
with_use t c = record c { in_use = t }

-- The search for a size finds a bucket whose first chunk is free and as large as the bucket's maximum,
-- and the sequence numbers and the maximum are below 2 ^ 64 - 1: SMART_BUFF_GET gives the first chunk of
-- the pool, which is in use then and is at least as large as asked; SMART_BUFF_RETURN of that chunk with
-- the same size succeeds, and all buckets and all chunks are as before.
pub buff_return-buff_get :
    (block : ℕ) (descs : List ℕ) (sys : SmartBuffers) (sz i : ℕ) (b : SmartBucket) (d : ℕ)
    (ds : List ℕ)
    → HasChunk sys sz i b d ds
    → (sys' : SmartBuffers) × (sys'' : SmartBuffers) × (buff_get block descs sys sz
        ≡ some (d, sys'))
      × ((sys'.chunks d).in_use ≡ true)
      × (sz ≤ (sys'.chunks d).size)
      × (buff_return sys' sz d ≡ some sys'')
      × (sys''.buckets ≡ sys.buckets)
      × ((q : ℕ) → sys''.chunks q ≡ sys.chunks q)
unfolding buff_return
buff_return-buff_get block descs sys sz i b d ds h =
    let sys' = taken sys i b d ds in
    let b' : SmartBucket = record b { pool = ds } in
    let c = write_chunk_self sys.chunks d (record (sys.chunks d) { in_use = true }) in
    let used : (sys'.chunks d).in_use ≡ true = ap (λ x. x.in_use) c in
    let size : (sys'.chunks d).size ≡ (sys.chunks d).size = ap (λ x. x.size) c in
    let range = find_bucket_range sys.buckets sz i b h.found h.bucket in
    let found = find_bucket-set sys.buckets sz i b ds h.bucket ∙ h.found in
    let bucket = get_elem?-set_at sys.buckets i b b' h.bucket in
    let back : SmartBuffers = record sys' {
      buckets = set sys'.buckets i (record b { pool = d ∷ ds });
      chunks = write_chunk sys'.chunks d (record (sys'.chunks d) { in_use = false });
    } in
    (
      sys',
      back,
      buff_get-taken block descs sys sz i b d ds h,
      used,
      (let s = h.sized in omega arith),
      ap (λ t. assert t (return_chunk sys' sz d)) used
          ∙ bind-some _ found (bind-some _ bucket refl),
      restore_bucket sys.buckets i b b' (record b { pool = d ∷ ds }) h.bucket
          (ap (with_pool b) (sym h.pool)),
      λ q.
          write_chunk_back sys.chunks d (record (sys'.chunks d) { in_use = false }) q
            (ap (with_use false) c ∙ ap (λ t. with_use t (sys.chunks d)) (sym h.free)),
    )
