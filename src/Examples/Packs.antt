-- ===== src/Examples/Packs.antt =====
-- The message about service processes at concrete inputs: two of them, with a service_proc_t of two
-- bytes.
use dpu_offload_service.Prelude.{ℕ, ◌≡◌, refl, true, some, List, [], ◌∷◌, arith, replicate}
use dpu_offload_service.Utils.Pack.{
  RemoteSp, bytes_of, write_at, read_at, write_each, addrs_size, get_list_sps_packed_size,
  pack_data_sps, unpack_data_sps,
}
use dpu_offload_service.Utils.Pack.Loops.{Every, Match}
use dpu_offload_service.Utils.Pack.Parts.{IsPackable, Received}
use dpu_offload_service.Utils.Pack.Roundtrip.{unpack_data_sps-pack_data_sps}

abbrev sp_at : ℕ → ℕ → RemoteSp
sp_at a b = record {
  addr = some (a ∷ b ∷ 9 ∷ []);
  addr_len = 2;
  service_proc = b ∷ a ∷ [];
  has_ep = true;
}

sp_at-IsPackable : (a b : ℕ) → IsPackable 2 (sp_at a b)
unfolding read_at
sp_at-IsPackable a b = record {
  address = a ∷ b ∷ [];
  is_address = refl;
  some_address = omega arith;
  fits = omega arith;
  info = b ∷ a ∷ [];
  is_info = refl;
}

abbrev two_sps : List RemoteSp
two_sps = sp_at 10 11 ∷ sp_at 20 21 ∷ []

two_sps-IsPackable : Every (IsPackable 2) two_sps
two_sps-IsPackable =
    Every.every_cons (sp_at-IsPackable 10 11)
      (Every.every_cons (sp_at-IsPackable 20 21) Every.every_nil)

two_sps-size : 32 ≡ get_list_sps_packed_size 2 two_sps
unfolding addrs_size
two_sps-size = refl

unpack_data_sps-pack_data_sps_example :
    (message : List ℕ) × (pack_data_sps 2 two_sps (replicate 32 0) ≡ some message)
    × ((array : List RemoteSp)
        → (received : List RemoteSp) × (unpack_data_sps 2 array message ≡ some (2, received))
          × Match (Received 2) two_sps received)
unpack_data_sps-pack_data_sps_example =
    unpack_data_sps-pack_data_sps 2 two_sps (replicate 32 0) two_sps-IsPackable (omega arith)
      two_sps-size

-- The message, byte by byte.
packed :
    pack_data_sps 2 two_sps (replicate 32 0)
    ≡ some (
        2 ∷ 0 ∷ 0 ∷ 0 ∷ 0 ∷ 0 ∷ 0 ∷ 0 ∷ 2 ∷ 0 ∷ 0 ∷ 0 ∷ 0 ∷ 0 ∷ 0 ∷ 0 ∷ 2 ∷ 0 ∷ 0 ∷ 0 ∷ 0 ∷ 0 ∷ 0
        ∷ 0 ∷ 10 ∷ 11 ∷ 20 ∷ 21 ∷ 11 ∷ 10 ∷ 21 ∷ 20 ∷ [])
unfolding pack_data_sps write_at write_each bytes_of addrs_size read_at
packed = refl
