-- ===== src/Tag/Fields.antt =====
-- The fields can be read back from a tag.
use dpu_offload_service.Prelude.{ℕ, ◌+◌, ◌*◌, ◌/◌, ◌%◌, ◌^◌, ◌<◌, ◌≡◌, some, arith}
use dpu_offload_service.Size.{word, uint64_max}
use dpu_offload_service.Tag.Bits.{bit_or-field}
use dpu_offload_service.Tag.{
  tag_bits, sender_bits, id_bits, scope_bits, scope_id_bits, tag_bits_offset, scope_bits_offset,
  scope_id_bits_offset, sender_bits_offset, make_tag, make_recv_tag,
}

-- The tag as a number, when every field is in range.
make_tag-sum :
    (tag rank id scope_id scope : ℕ)
    → tag < 2 ^ tag_bits
    → rank < 2 ^ sender_bits
    → id < 2 ^ id_bits
    → scope_id < 2 ^ scope_id_bits
    → scope < 2 ^ scope_bits
    → make_tag tag rank id scope_id scope
      ≡ tag * 2 ^ 46 + scope * 2 ^ 43 + scope_id * 2 ^ 40 + rank * 2 ^ 16 + id
unfolding make_tag
make_tag-sum tag rank id scope_id scope ht hr hi hs hc =
    let t : (tag * 2 ^ 46) % word ≡ tag * 2 ^ 30 * 2 ^ 16 + 0 = omega arith in
    let r : (rank * 2 ^ 16) % word ≡ rank * 2 ^ 16 = omega arith in
    let c : (scope * 2 ^ 43) % word ≡ scope * 2 ^ 43 = omega arith in
    let s : (scope_id * 2 ^ 40) % word ≡ scope_id * 2 ^ 40 = omega arith in
    let i : (id * 2 ^ 0) % word ≡ id * 2 ^ 0 = omega arith in
    let above = tag * 2 ^ 30 + scope * 2 ^ 27 + scope_id * 2 ^ 24 + rank in
    let one = bit_or-field 16 30 tag rank 0 (omega arith) (omega arith) in
    let two = bit_or-field 43 3 tag scope (rank * 2 ^ 16) (omega arith) hc in
    let three = bit_or-field 40 3 (tag * 2 ^ 3 + scope) scope_id (rank * 2 ^ 16) (omega arith) hs in
    let four = bit_or-field 0 16 above id 0 (omega arith) hi in
    let to_two : tag * 2 ^ 30 * 2 ^ 16 + rank * 2 ^ 16 + 0 ≡ tag * 2 ^ 3 * 2 ^ 43 + rank * 2 ^ 16 =
      omega arith in
    let to_three : tag * 2 ^ 3 * 2 ^ 43 + scope * 2 ^ 43 + rank * 2 ^ 16
        ≡ (tag * 2 ^ 3 + scope) * 2 ^ 3 * 2 ^ 40 + rank * 2 ^ 16 =
      omega arith in
    let to_four : (tag * 2 ^ 3 + scope) * 2 ^ 3 * 2 ^ 40 + scope_id * 2 ^ 40 + rank * 2 ^ 16
        ≡ above * 2 ^ 16 * 2 ^ 0 + 0 =
      omega arith in
    rw (t, r, c, s, i, one, to_two, two, to_three, three, to_four, four) (omega arith)

-- MAKE_TAG is a record of its fields: with every field in range, each is read back at the offset and
-- the width that the layout gives it, and the two reserved bits are zero.
pub make_tag-fields :
    (tag rank id scope_id scope : ℕ)
    → tag < 2 ^ tag_bits
    → rank < 2 ^ sender_bits
    → id < 2 ^ id_bits
    → scope_id < 2 ^ scope_id_bits
    → scope < 2 ^ scope_bits
    → let t = make_tag tag rank id scope_id scope in
      (t / 2 ^ tag_bits_offset % 2 ^ tag_bits ≡ tag)
      × (t / 2 ^ scope_bits_offset % 2 ^ scope_bits ≡ scope)
      × (t / 2 ^ scope_id_bits_offset % 2 ^ scope_id_bits ≡ scope_id)
      × (t / 2 ^ sender_bits_offset % 2 ^ sender_bits ≡ rank)
      × (t % 2 ^ id_bits ≡ id)
      × (t < 2 ^ 62)
make_tag-fields tag rank id scope_id scope ht hr hi hs hc =
    rw (make_tag-sum tag rank id scope_id scope ht hr hi hs hc) (omega arith)

-- What passing the asserts means.
recv :
    (tag src id scope_id scope : ℕ) {t mask : ℕ}
    → make_recv_tag tag src id scope_id scope ≡ some (t, mask)
    → (tag < 2 ^ tag_bits)
      × (src < 2 ^ sender_bits)
      × (id < 2 ^ id_bits)
      × (make_tag tag src id scope_id scope ≡ t)
      × (mask ≡ uint64_max)
unfolding make_recv_tag
recv tag src id scope_id scope e = ground arith

-- Two receives that pass the asserts of MAKE_RECV_TAG, with scopes and scope ids in range, have the
-- same tag only if they agree in every field, and the mask compares the whole tag.
pub make_recv_tag-injective :
    (tag src id scope_id scope tag' src' id' scope_id' scope' : ℕ) {t mask mask' : ℕ}
    → scope_id < 2 ^ scope_id_bits
    → scope < 2 ^ scope_bits
    → scope_id' < 2 ^ scope_id_bits
    → scope' < 2 ^ scope_bits
    → make_recv_tag tag src id scope_id scope ≡ some (t, mask)
    → make_recv_tag tag' src' id' scope_id' scope' ≡ some (t, mask')
    → (tag ≡ tag')
      × (src ≡ src')
      × (id ≡ id')
      × (scope_id ≡ scope_id')
      × (scope ≡ scope')
      × (mask ≡ uint64_max)
make_recv_tag-injective tag src id scope_id scope tag' src' id' scope_id' scope' hs hc hs' hc' e
      e' =
    let (a, b, c, d, m) = recv tag src id scope_id scope e in
    let (a', b', c', d', m') = recv tag' src' id' scope_id' scope' e' in
    let x = make_tag-sum tag src id scope_id scope a b c hs hc in
    let x' = make_tag-sum tag' src' id' scope_id' scope' a' b' c' hs' hc' in
    omega (arith, x, x', d, d', m)
