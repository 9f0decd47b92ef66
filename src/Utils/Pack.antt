-- ===== src/Utils/Pack.antt =====
-- What a service process tells a host about all service processes: get_list_sps_packed_size,
-- pack_data_sps and unpack_data_sps of src/dpu_offload_utils.c. Memory is a list of bytes, a pointer
-- is the list of the bytes from there on, and an access out of bounds is `none`. A loop over the
-- dynamic array of service processes is a recursion over the list of its elements; the elements that
-- the array grows by are `blank_sp`. The memory that is asked for is granted. pack_data_sps is called on a
-- DPU that has not packed yet.
pub mod Memory
pub mod Loops
pub mod Parts
pub mod Roundtrip
use dpu_offload_service.Prelude.{
  ℕ, zero, suc, ◌+◌, ◌*◌, ◌/◌, ◌%◌, Bool, true, false, Option, none, some, List, [], ◌∷◌, ◌==◌, ltb,
  if◌then◌else◌, length, drop,
}
use dpu_offload_service.Prelude.Result.{bind, assert}

-- sizeof(uint64_t)
abbrev pub word_size : ℕ
word_size = 8

-- The bytes of a number, the lowest head_sp, and back.
unfoldable pub bytes_of : ℕ → ℕ → List ℕ
bytes_of zero n = []
bytes_of (suc w) n = (n % 256) ∷ bytes_of w (n / 256)

unfoldable pub number_of : List ℕ → ℕ
number_of [] = 0
number_of (b ∷ bs) = b + 256 * number_of bs

-- memcpy to an offset.
unfoldable pub write_at : List ℕ → ℕ → List ℕ → Option (List ℕ)
write_at buf zero [] = some buf
write_at [] zero (b ∷ bs) = none
write_at (x ∷ buf) zero (b ∷ bs) = bind (write_at buf zero bs) λ rest. some (b ∷ rest)
write_at [] (suc offset) bs = none
write_at (x ∷ buf) (suc offset) bs = bind (write_at buf offset bs) λ rest. some (x ∷ rest)

-- memcpy of `n` bytes from an offset.
unfoldable pub read_at : List ℕ → ℕ → ℕ → Option (List ℕ)
read_at buf zero zero = some []
read_at [] zero (suc n) = none
read_at (x ∷ buf) zero (suc n) = bind (read_at buf zero n) λ rest. some (x ∷ rest)
read_at [] (suc offset) n = none
read_at (x ∷ buf) (suc offset) n = read_at buf offset n

-- What the code uses of remote_service_proc_info_t: the address with its length, the bytes of
-- service_proc_t, and whether there is an endpoint.
pub record RemoteSp : Type 0 where
  pub addr : Option (List ℕ)
  pub addr_len : ℕ
  pub service_proc : List ℕ
  pub has_ep : Bool

-- A new element of the array, whose memory is zero.
abbrev pub blank_sp : RemoteSp
blank_sp = record { addr = none; addr_len = 0; service_proc = []; has_ep = false }

abbrev pub head_sp : List RemoteSp → RemoteSp
head_sp [] = blank_sp
head_sp (sp ∷ sps) = sp

abbrev pub tail_sps : List RemoteSp → List RemoteSp
tail_sps [] = []
tail_sps (sp ∷ sps) = sps

-- The bytes that an address has in the message.
abbrev pub addr_bytes : RemoteSp → Option (List ℕ)
addr_bytes sp = bind sp.addr λ a. read_at a 0 sp.addr_len

-- A loop that writes for each service process at a running offset.
unfoldable pub write_each :
    (RemoteSp → Option (List ℕ)) → List RemoteSp → List ℕ → ℕ → Option (List ℕ × ℕ)
write_each part [] buf offset = some (buf, offset)
write_each part (sp ∷ sps) buf offset =
    bind (part sp)
      λ bs. bind (write_at buf offset bs) λ buf'. write_each part sps buf' (offset + length bs)

-- A loop that reads for each of `n` service processes at a running offset.
unfoldable pub read_each :
    (RemoteSp → ℕ → Option (RemoteSp × ℕ)) → ℕ → List RemoteSp → ℕ → Option (List RemoteSp × ℕ)
read_each step zero sps offset = some (sps, offset)
read_each step (suc n) sps offset =
    bind (step (head_sp sps) offset)
      λ r. bind (read_each step n (tail_sps sps) r.1) λ q. some (r.0 ∷ q.0, q.1)

-- The loop over the lengths of the addresses in get_list_sps_packed_size.
unfoldable pub addrs_size : List RemoteSp → ℕ
addrs_size [] = 0
addrs_size (sp ∷ sps) = sp.addr_len + addrs_size sps

-- `sp_size` is sizeof(service_proc_t).
module _ (sp_size : ℕ) where
  -- get_list_sps_packed_size
  abbrev pub get_list_sps_packed_size : List RemoteSp → ℕ
  get_list_sps_packed_size sps =
      word_size + length sps * word_size + addrs_size sps + length sps * sp_size

  -- What the three loops write for a service process.
  abbrev pub size_part : RemoteSp → Option (List ℕ)
  size_part sp = assert (ltb 0 sp.addr_len) (some (bytes_of word_size sp.addr_len))

  abbrev pub info_part : RemoteSp → Option (List ℕ)
  info_part sp = read_at sp.service_proc 0 sp_size

  -- pack_data_sps into the memory that malloc gave: the message.
  unfoldable pub pack_data_sps : List RemoteSp → List ℕ → Option (List ℕ)
  pack_data_sps sps mem = bind (write_at mem 0 (bytes_of word_size (length sps))) λ buf.
      bind (write_each size_part sps buf word_size) λ sizes.
        bind (write_each addr_bytes sps sizes.0 sizes.1) λ addrs.
          bind (write_each info_part sps addrs.0 addrs.1)
            λ infos. assert (infos.1 == get_list_sps_packed_size sps) (some infos.0)

  -- What the three loops of unpack_data_sps do with an element of the array.
  abbrev pub size_step : List ℕ → RemoteSp → ℕ → Option (RemoteSp × ℕ)
  size_step payload sp offset =
      bind (read_at payload offset word_size)
        λ bs. some (record sp { addr_len = number_of bs; has_ep = false }, offset + word_size)

  abbrev pub addr_step : List ℕ → RemoteSp → ℕ → Option (RemoteSp × ℕ)
  addr_step payload sp offset =
      some (record sp { addr = some (drop offset payload) }, offset + sp.addr_len)

  abbrev pub info_step : List ℕ → RemoteSp → ℕ → Option (RemoteSp × ℕ)
  info_step payload sp offset =
      bind (read_at payload offset sp_size)
        λ bs. some (record sp { service_proc = bs }, offset + sp_size)

  -- unpack_data_sps: the number of service processes, which a host keeps, and their array.
  unfoldable pub unpack_data_sps : List RemoteSp → List ℕ → Option (ℕ × List RemoteSp)
  unpack_data_sps sps payload = bind (read_at payload 0 word_size) λ bs.
      let num_sps = number_of bs in
      bind (read_each (size_step payload) num_sps sps word_size) λ sizes.
        bind (read_each (addr_step payload) num_sps sizes.0 sizes.1) λ addrs.
          bind (read_each (info_step payload) num_sps addrs.0 addrs.1)
            λ infos. some (num_sps, infos.0)
