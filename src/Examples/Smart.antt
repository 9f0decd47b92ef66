-- ===== src/Examples/Smart.antt =====
-- Smart buffers at concrete inputs: one bucket for sizes up to 64 with two free chunks.
use dpu_offload_service.Prelude.{
  ℕ, ◌+◌, ◌*◌, ◌≤◌, ◌≡◌, refl, true, false, some, none, [], ◌∷◌, arith, get_elem?,
}
use dpu_offload_service.Size.{add_size, mul_size}
use dpu_offload_service.SmartBuffers.{
  SmartBucket, SmartBuffers, find_bucket, buff_get, buff_return, new_max_size,
}
use dpu_offload_service.SmartBuffers.Calls.{HasChunk, buff_return-buff_get}
use dpu_offload_service.SmartBuffers.NewBucket.{buff_get_past_block}

abbrev bucket64 : SmartBucket
bucket64 = record {
  initial_size = 2;
  min_size = 0;
  max_size = 64;
  smart_chunks_seq_num = 2;
  pool = 100 ∷ 101 ∷ [];
}

abbrev smart_system : SmartBuffers
smart_system = record {
  buckets = bucket64 ∷ [];
  bucket_sizes = 64 ∷ [];
  num_base_mem_chunks = 1;
  chunks = λ q. record { seq_num = 0; base = 5000; size = 64; in_use = false };
}

smart_system-HasChunk : HasChunk smart_system 10 0 bucket64 100 (101 ∷ [])
unfolding find_bucket
smart_system-HasChunk = record {
  found = refl;
  bucket = refl;
  pool = refl;
  bounded = omega arith;
  numbered = omega arith;
  chunk_numbered = omega arith;
  free = refl;
  sized = refl;
}

buff_return-buff_get_example :
    (sys' : SmartBuffers) × (sys'' : SmartBuffers) × (buff_get 9000 [] smart_system 10
      ≡ some (100, sys'))
    × ((sys'.chunks 100).in_use ≡ true)
    × (10 ≤ (sys'.chunks 100).size)
    × (buff_return sys' 10 100 ≡ some sys'')
    × (sys''.buckets ≡ smart_system.buckets)
    × ((q : ℕ) → sys''.chunks q ≡ smart_system.chunks q)
buff_return-buff_get_example =
    buff_return-buff_get 9000 [] smart_system 10 0 bucket64 100 (101 ∷ []) smart_system-HasChunk

too_large : find_bucket smart_system.buckets 5000 ≡ none
unfolding find_bucket
too_large = refl

new_size : new_max_size 5000 64 ≡ 8192
unfolding add_size mul_size
new_size = refl

buff_get_past_block_example :
    (sys' : SmartBuffers) × (b : SmartBucket) × (buff_get 90000
        (200 ∷ 201 ∷ 202 ∷ [])
        smart_system
        5000
      ≡ some (200, sys'))
    × (get_elem? sys'.buckets 1 ≡ some b)
    × (b.pool ≡ 201 ∷ 202 ∷ [])
    × (b.max_size ≡ new_max_size 5000 64)
    × ((sys'.chunks 202).base ≡ 90000 + 2 * b.max_size)
buff_get_past_block_example =
    buff_get_past_block 90000 200 201 202 smart_system 5000 64 too_large refl
      (let e = new_size in omega arith) (let e = new_size in omega arith)
      (λ e. absurd (omega arith)) (λ e. absurd (omega arith))
