-- ===== src/Tag.antt =====
-- The 64-bit message tags of src/dpu_offload_comms.h: the fields of MAKE_TAG behind two reserved bits.
mod Bits
pub mod Fields
use Prim.Native.Nat.{bit_or}
use dpu_offload_service.Prelude.{ℕ, ◌+◌, ◌-◌, ◌*◌, ◌%◌, ◌^◌, Option, some, leb}
use dpu_offload_service.Prelude.Result.{assert}
use dpu_offload_service.Size.{word, uint64_max}

abbrev pub scope_bits : ℕ
scope_bits = 3

abbrev pub scope_id_bits : ℕ
scope_id_bits = 3

abbrev pub tag_bits : ℕ
tag_bits = 16

abbrev pub sender_bits : ℕ
sender_bits = 24

abbrev pub id_bits : ℕ
id_bits = 16

abbrev pub tag_bits_offset : ℕ
tag_bits_offset = id_bits + sender_bits + scope_id_bits + scope_bits

abbrev pub scope_bits_offset : ℕ
scope_bits_offset = id_bits + sender_bits + scope_id_bits

abbrev pub scope_id_bits_offset : ℕ
scope_id_bits_offset = id_bits + sender_bits

abbrev pub sender_bits_offset : ℕ
sender_bits_offset = id_bits

-- OFFLOAD_MASK
abbrev pub mask : ℕ → ℕ
mask i = 2 ^ i - 1

-- `(uint64_t)x << k`
shift_left : ℕ → ℕ → ℕ
shift_left x k = (x * 2 ^ k) % word

-- MAKE_TAG, the operands of `|` in the order of the macro.
unfoldable pub make_tag : ℕ → ℕ → ℕ → ℕ → ℕ → ℕ
unfolding shift_left
make_tag tag rank id scope_id scope =
    bit_or
      (bit_or
        (bit_or (bit_or (shift_left tag tag_bits_offset) (shift_left rank sender_bits_offset))
          (shift_left scope scope_bits_offset))
        (shift_left scope_id scope_id_bits_offset))
      (shift_left id 0)

-- MAKE_RECV_TAG: the tag and its mask, past the asserts on three of the five fields.
unfoldable pub make_recv_tag : ℕ → ℕ → ℕ → ℕ → ℕ → Option (ℕ × ℕ)
unfolding make_tag
make_recv_tag tag src id scope_id scope = assert (leb tag (mask tag_bits)) (
    assert (leb src (mask sender_bits))
      (assert (leb id (mask id_bits)) (some (make_tag tag src id scope_id scope, uint64_max))))
