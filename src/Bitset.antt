-- ===== src/Bitset.antt =====
-- The bitsets of include/dpu_offload_types.h (`group_cache_bitset_t`): an array of `char`, bit `i`
-- in slot `i / CHAR_BIT`. A `char` is its eight bits, a number below 256.
pub mod Laws
use Prim.Native.Nat.{bit_and, bit_or}
use dpu_offload_service.Prelude.{
  ℕ, ◌+◌, ◌-◌, ◌/◌, ◌%◌, ◌^◌, Bool, true, false, not, Option, none, some, List, ◌==◌, get_elem?,
  set, replicate, ltb, if◌then◌else◌,
}
use dpu_offload_service.Size.{word}
use dpu_offload_service.Prelude.Result.{bind}

abbrev pub Bitset : Type 0
Bitset = List ℕ

abbrev pub char_bit : ℕ
char_bit = 8

-- GROUP_CACHE_BITSET_MASK
unfoldable pub mask : ℕ → ℕ
mask bit = 2 ^ (bit % char_bit)

-- GROUP_CACHE_BITSET_SLOT
unfoldable pub slot : ℕ → ℕ
slot bit = bit / char_bit

-- GROUP_CACHE_BITSET_SET; `none` is a write outside of the array.
unfoldable pub set_bit : Bitset → ℕ → Option Bitset
unfolding slot mask
set_bit b bit = bind (get_elem? b (slot bit)) (λ s. some (set b (slot bit) (bit_or s (mask bit))))

-- GROUP_CACHE_BITSET_CLEAR: the complement of the mask, cut to the eight bits that are stored.
unfoldable pub clear_bit : Bitset → ℕ → Option Bitset
unfolding slot mask
clear_bit b bit =
    bind (get_elem? b (slot bit)) (λ s. some (set b (slot bit) (bit_and s (255 - mask bit))))

-- GROUP_CACHE_BITSET_TEST; `none` is a read outside of the array.
unfoldable pub test : Bitset → ℕ → Option Bool
unfolding slot mask
test b bit = bind (get_elem? b (slot bit)) (λ s. some (not (bit_and s (mask bit) == 0)))

-- GROUP_CACHE_BITSET_TEST at an index that is converted to `int`, of 32 bits. An index that becomes
-- negative is `none`.
unfoldable pub test_int : Bitset → ℕ → Option Bool
test_int b bit = if ltb (bit % 2 ^ 32) (2 ^ 31) then test b (bit % 2 ^ 32) else none

-- GROUP_CACHE_BITSET_NSLOTS, on size_t.
unfoldable pub nslots : ℕ → ℕ
nslots size = ((size + char_bit - 1) % word) / char_bit

-- GROUP_CACHE_BITSET_CREATE, where the argument says which requests calloc grants: an existing bitset is
-- kept, and a new one must have a slot. A request that is refused leaves NULL.
unfoldable pub alloc_bitset : (ℕ → Bool) → Option Bitset → ℕ → Option (Option Bitset)
alloc_bitset allocates (some b) size = some (some b)
alloc_bitset allocates none size =
    if nslots size == 0
    then none
    else some (if allocates (nslots size) then some (replicate (nslots size) 0) else none)

-- GROUP_CACHE_BITSET_CREATE of a size for which `size + CHAR_BIT - 1` does not wrap, where calloc grants
-- the request.
unfoldable pub create : Option Bitset → ℕ → Option Bitset
create (some b) size = some b
create none size = if_slots ((size + char_bit - 1) / char_bit == 0)
  where
    if_slots : Bool → Option Bitset
    if_slots true = none
    if_slots false = some (replicate ((size + char_bit - 1) / char_bit) 0)
