-- ===== src/SmartBuffers.antt =====
-- The smart buffers of include/dynamic_structs.h: SMART_BUFF_GET, SMART_BUFF_RETURN and
-- SMART_BUFFS_GROW_BUCKET, as they are without NDEBUG. A chunk is the address of its descriptor. A call
-- is given the block of memory that malloc or calloc grants and the descriptors that DYN_LIST_GET takes
-- from their pool. What the recycling of chunks uses is left out, and so are the initialisation and the
-- end of a system.
pub mod Calls
pub mod NewBucket
use dpu_offload_service.Prelude.{
  ℕ, zero, suc, ◌+◌, ◌-◌, ◌*◌, ◌/◌, Bool, true, false, not, ◌&&◌, Option, none, some, List, [], ◌∷◌,
  ◌++◌, ◌==◌, leb, ltb, if◌then◌else◌, length, get_elem?, set,
}
use dpu_offload_service.Prelude.Result.{bind, assert}
use dpu_offload_service.Size.{uint64_max, mul_size, add_size}

-- `smart_chunk_t`
pub record SmartChunk : Type 0 where
  pub seq_num : ℕ
  pub base : ℕ
  pub size : ℕ
  pub in_use : Bool

-- `smart_bucket_t`
pub record SmartBucket : Type 0 where
  pub initial_size : ℕ
  pub min_size : ℕ
  pub max_size : ℕ
  pub smart_chunks_seq_num : ℕ
  pub pool : List ℕ

-- `smart_buffers_t`: the first `num_buckets` buckets with their sizes, and how much memory the blocks
-- have.
pub record SmartBuffers : Type 0 where
  pub buckets : List SmartBucket
  pub bucket_sizes : List ℕ
  pub num_base_mem_chunks : ℕ
  pub chunks : ℕ → SmartChunk

abbrev pub write_chunk : (ℕ → SmartChunk) → ℕ → SmartChunk → ℕ → SmartChunk
write_chunk mem p c q = if p == q then c else mem q

-- The search for the bucket of a size.
unfoldable pub find_bucket : List SmartBucket → ℕ → Option ℕ
find_bucket [] sz = none
find_bucket (b ∷ bs) sz =
    let rest = find_bucket bs sz in
    if leb b.min_size sz && leb sz b.max_size then some 0 else bind rest (λ i. some (i + 1))

-- The loop that makes chunks for a bucket, from an address on.
unfoldable pub add_chunks :
    (List ℕ → ℕ → List ℕ)
    → ℕ
    → ℕ
    → List ℕ
    → SmartBucket
    → (ℕ → SmartChunk)
    → Option (SmartBucket × (ℕ → SmartChunk))
add_chunks place zero base descs b mem = some (b, mem)
add_chunks place (suc n) base [] b mem = none
add_chunks place (suc n) base (d ∷ descs) b mem =
    assert (not (b.smart_chunks_seq_num == uint64_max)) (
      add_chunks place n (base + b.max_size) descs
        (record b { smart_chunks_seq_num = b.smart_chunks_seq_num + 1; pool = place b.pool d })
        (write_chunk mem d (record {
          seq_num = b.smart_chunks_seq_num;
          base = base;
          size = b.max_size;
          in_use = false;
        })))

-- SIMPLE_LIST_PREPEND and SIMPLE_LIST_APPEND to a pool.
abbrev pub at_head : List ℕ → ℕ → List ℕ
at_head pool d = d ∷ pool

abbrev pub at_tail : List ℕ → ℕ → List ℕ
at_tail pool d = pool ++ (d ∷ [])

-- SMART_BUFFS_GROW_BUCKET
abbrev pub grow_bucket :
    ℕ → List ℕ → SmartBucket → (ℕ → SmartChunk) → Option (SmartBucket × (ℕ → SmartChunk))
grow_bucket block descs b mem =
    assert (ltb 0 b.initial_size) (add_chunks at_head b.initial_size block descs b mem)

-- The bucket grows if its pool is empty.
abbrev pub filled_bucket :
    ℕ → List ℕ → SmartBucket → (ℕ → SmartChunk) → List ℕ → Option (SmartBucket × (ℕ → SmartChunk))
filled_bucket block descs b mem [] = grow_bucket block descs b mem
filled_bucket block descs b mem (d ∷ ds) = some (b, mem)

-- How many blocks there are after that.
abbrev pub num_blocks : ℕ → List ℕ → ℕ
num_blocks n [] = n + 1
num_blocks n (d ∷ ds) = n

-- The first chunk of the pool is taken.
abbrev pub take_first :
    SmartBuffers → ℕ → SmartBucket → ℕ → (ℕ → SmartChunk) → List ℕ → Option (ℕ × SmartBuffers)
take_first sys i b blocks mem [] = none
take_first sys i b blocks mem (d ∷ ds) = assert (not ((mem d).seq_num == uint64_max)) (
    some (
      d,
      record sys {
        buckets = set sys.buckets i (record b { pool = ds });
        num_base_mem_chunks = blocks;
        chunks = write_chunk mem d (record (mem d) { in_use = true });
      },
    ))

-- The end of SMART_BUFF_GET.
unfoldable pub take_chunk : ℕ → List ℕ → SmartBuffers → ℕ → Option (ℕ × SmartBuffers)
take_chunk block descs sys i = bind (get_elem? sys.buckets i) λ b.
    bind (filled_bucket block descs b sys.chunks b.pool)
      λ r. take_first sys i r.0 (num_blocks sys.num_base_mem_chunks b.pool) r.1 r.0.pool

-- The size of a new bucket: the next size aligned on a page or twice the last size.
abbrev pub new_max_size : ℕ → ℕ → ℕ
new_max_size sz last_size =
    let aligned = mul_size (add_size (sz / 4096) 1) 4096 in
    if ltb aligned (mul_size last_size 2) then mul_size last_size 2 else aligned

-- A new bucket without chunks, of which it is to have `n`.
abbrev pub empty_bucket : ℕ → ℕ → ℕ → SmartBucket
empty_bucket n last_size max_size = record {
  initial_size = n;
  min_size = add_size last_size 1;
  max_size = max_size;
  smart_chunks_seq_num = 0;
  pool = [];
}

-- A new bucket is added, with its chunks.
abbrev pub with_bucket : SmartBuffers → ℕ → SmartBucket × (ℕ → SmartChunk) → SmartBuffers
with_bucket sys max_size r = record sys {
  buckets = sys.buckets ++ (r.0 ∷ []);
  bucket_sizes = sys.bucket_sizes ++ (max_size ∷ []);
  num_base_mem_chunks = sys.num_base_mem_chunks + 1;
  chunks = r.1;
}

-- A new bucket with `n` chunks.
abbrev pub bucket_of : ℕ → List ℕ → SmartBuffers → ℕ → ℕ → ℕ → Option SmartBuffers
bucket_of block descs sys last_size max_size n =
    bind (add_chunks at_tail n block descs (empty_bucket n last_size max_size) sys.chunks)
      λ r. some (with_bucket sys max_size r)

-- The branch of SMART_BUFF_GET that makes a new bucket.
unfoldable pub new_bucket : ℕ → List ℕ → SmartBuffers → ℕ → Option SmartBuffers
new_bucket block descs sys sz =
    bind (get_elem? sys.bucket_sizes (length sys.buckets - 1)) λ last_size.
      let max_size : ℕ = new_max_size sz last_size in
      let mem_size : ℕ = mul_size 2 max_size in
      assert (ltb 0 mem_size)
        (bucket_of block descs sys last_size max_size (mem_size / max_size + 1))

-- SMART_BUFF_GET from a new bucket.
abbrev pub get_new : ℕ → List ℕ → SmartBuffers → ℕ → Option (ℕ × SmartBuffers)
get_new block descs sys sz =
    bind (new_bucket block descs sys sz) λ sys'. take_chunk block descs sys' (length sys.buckets)

-- SMART_BUFF_GET from what the search found.
abbrev pub get_at : ℕ → List ℕ → SmartBuffers → ℕ → Option ℕ → Option (ℕ × SmartBuffers)
get_at block descs sys sz none = get_new block descs sys sz
get_at block descs sys sz (some i) = bind (get_elem? sys.buckets i) λ b.
    assert (not (b.smart_chunks_seq_num == uint64_max)) (
      if b.max_size == uint64_max then get_new block descs sys sz else take_chunk block descs sys i)

-- SMART_BUFF_GET: the chunk and the system.
unfoldable pub buff_get : ℕ → List ℕ → SmartBuffers → ℕ → Option (ℕ × SmartBuffers)
buff_get block descs sys sz = get_at block descs sys sz (find_bucket sys.buckets sz)

-- A chunk goes back to the bucket of its size.
abbrev pub return_chunk : SmartBuffers → ℕ → ℕ → Option SmartBuffers
return_chunk sys sz d = bind (find_bucket sys.buckets sz) λ i. bind (get_elem? sys.buckets i) λ b.
    some (record sys {
      buckets = set sys.buckets i (record b { pool = at_head b.pool d });
      chunks = write_chunk sys.chunks d (record (sys.chunks d) { in_use = false });
    })

-- SMART_BUFF_RETURN
unfoldable pub buff_return : SmartBuffers → ℕ → ℕ → Option SmartBuffers
buff_return sys sz d = assert (sys.chunks d).in_use (return_chunk sys sz d)
