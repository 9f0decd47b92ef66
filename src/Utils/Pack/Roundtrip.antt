-- ===== src/Utils/Pack/Roundtrip.antt =====
-- What pack_data_sps wrote, unpack_data_sps reads.
use dpu_offload_service.Prelude.{
  ℕ, ◌^◌, ◌<◌, ◌≡◌, refl, sym, ap, ap₂, ◌∙◌, true, Option, some, List, [], ◌++◌, arith, ◌==◌,
  length, drop, length-append, length-drop,
}
use mathlib.Core.List.{append_assoc}
use dpu_offload_service.Prelude.Result.{bind-some, bind, assert}
use dpu_offload_service.Utils.Pack.{
  word_size, bytes_of, RemoteSp, addr_bytes, write_each, read_each, get_list_sps_packed_size,
  size_part, info_part, pack_data_sps, size_step, addr_step, info_step, unpack_data_sps,
}
use dpu_offload_service.Utils.Pack.Loops.{
  write_each-flat, read_each-flat, flat, Every, Match, length-flat, map-Every, Every-Match,
}
use dpu_offload_service.Utils.Pack.Parts.{
  IsPackable, Received, size_bytes, addr_bytes_of, info_bytes, size_step-reads, addr_step-reads,
  info_step-reads, size_part-bytes, addr_bytes-bytes, info_part-bytes, addrs_size-flat, length-info,
}
use dpu_offload_service.Utils.Pack.Memory.{
  length-bytes_of, number_of-bytes_of, write_at-append, read_at-part,
}

module _ (sp_size : ℕ) where
  abbrev header : List RemoteSp → List ℕ
  header sps = bytes_of word_size (length sps)

  abbrev before_addrs : List RemoteSp → List ℕ
  before_addrs sps = header sps ++ flat size_bytes sps

  abbrev before_infos : List RemoteSp → List ℕ
  before_infos sps = before_addrs sps ++ flat addr_bytes_of sps

  abbrev message_of : List RemoteSp → List ℕ
  message_of sps = before_infos sps ++ flat (info_bytes sp_size) sps

  length-message_of :
      (sps : List RemoteSp)
      → Every (IsPackable sp_size) sps
      → length (message_of sps) ≡ get_list_sps_packed_size sp_size sps
  length-message_of sps e = omega (
    arith,
    length-append (before_infos sps) (flat (info_bytes sp_size) sps),
    length-append (before_addrs sps) (flat addr_bytes_of sps),
    length-append (header sps) (flat size_bytes sps),
    length-bytes_of word_size (length sps),
    length-flat size_bytes word_size sps
        (map-Every (λ sp p. length-bytes_of word_size sp.addr_len) e),
    (addrs_size-flat sp_size) sps e,
    length-flat (info_bytes sp_size) sp_size sps (map-Every (length-info sp_size) e),
  )

  -- The loops of unpack_data_sps, from an offset.
  abbrev loops : List RemoteSp → List ℕ → ℕ → ℕ → Option (ℕ × List RemoteSp)
  loops array payload n offset =
      bind (read_each (size_step sp_size payload) n array offset) λ sizes.
        bind (read_each (addr_step sp_size payload) n sizes.0 sizes.1) λ addrs.
          bind (read_each (info_step sp_size payload) n addrs.0 addrs.1) λ infos. some (n, infos.0)

  unpack_data_sps-Received :
      (sps array : List RemoteSp) (rest : List ℕ)
      → Every (IsPackable sp_size) sps
      → length sps < 256 ^ word_size
      → (received : List RemoteSp) × (unpack_data_sps sp_size array (message_of sps ++ rest)
          ≡ some (length sps, received))
        × Match (Received sp_size) sps received
  unfolding unpack_data_sps
  unpack_data_sps-Received sps array rest e small =
      let m = message_of sps ++ rest in
      let infos : m ≡ before_infos sps ++ (flat (info_bytes sp_size) sps ++ rest) =
        append_assoc (before_infos sps) (flat (info_bytes sp_size) sps) rest in
      let addrs : m
          ≡ before_addrs sps
            ++ (flat addr_bytes_of sps ++ (flat (info_bytes sp_size) sps ++ rest)) =
        infos
        ∙ append_assoc (before_addrs sps) (flat addr_bytes_of sps)
            (flat (info_bytes sp_size) sps ++ rest) in
      let sizes : m
          ≡ header sps
            ++ (flat size_bytes sps
                ++ (flat addr_bytes_of sps ++ (flat (info_bytes sp_size) sps ++ rest))) =
        addrs
        ∙ append_assoc (header sps) (flat size_bytes sps)
            (flat addr_bytes_of sps ++ (flat (info_bytes sp_size) sps ++ rest)) in
      let l = length-bytes_of word_size (length sps) in
      let (s1, r1, m1) =
        read_each-flat m (size_step sp_size m) size_bytes ((size_step-reads sp_size) m) sps array
          (header sps) _ sizes (Every-Match sps array e) in
      let (s2, r2, m2) =
        read_each-flat m (addr_step sp_size m) addr_bytes_of ((addr_step-reads sp_size) m) sps s1
          (before_addrs sps) _ addrs m1 in
      let (s3, r3, m3) =
        read_each-flat m (info_step sp_size m) (info_bytes sp_size) ((info_step-reads sp_size) m)
          sps s2 (before_infos sps) _ infos m2 in
      let read = read_at-part m [] (header sps) _ word_size sizes l in
      (
        s3,
        bind-some _ read (
            ap₂ (λ n offset. loops array m n offset)
              (number_of-bytes_of word_size (length sps) small) (sym l)
            ∙ bind-some _ r1 (bind-some _ r2 (bind-some _ r3 refl))),
        m3,
      )

  -- The loops of pack_data_sps, from an offset.
  abbrev stores : List RemoteSp → List ℕ → ℕ → Option (List ℕ)
  stores sps buf offset = bind (write_each (size_part sp_size) sps buf offset) λ sizes.
      bind (write_each addr_bytes sps sizes.0 sizes.1) λ addrs.
        bind (write_each (info_part sp_size) sps addrs.0 addrs.1)
          λ infos. assert (infos.1 == get_list_sps_packed_size sp_size sps) (some infos.0)

  pack_data_sps-message_of :
      (sps : List RemoteSp) (mem : List ℕ)
      → Every (IsPackable sp_size) sps
      → length mem ≡ get_list_sps_packed_size sp_size sps
      → (rest : List ℕ) × (pack_data_sps sp_size sps mem ≡ some (message_of sps ++ rest))
  unfolding pack_data_sps
  pack_data_sps-message_of sps mem e room =
      let lh = length-bytes_of word_size (length sps) in
      let ls =
        length-flat size_bytes word_size sps
          (map-Every (λ sp p. length-bytes_of word_size sp.addr_len) e) in
      let la = (addrs_size-flat sp_size) sps e in
      let li = length-flat (info_bytes sp_size) sp_size sps (map-Every (length-info sp_size) e) in
      let f1 = drop (length (header sps)) mem in
      let f2 = drop (length (flat size_bytes sps)) f1 in
      let f3 = drop (length (flat addr_bytes_of sps)) f2 in
      let f4 = drop (length (flat (info_bytes sp_size) sps)) f3 in
      let d1 = length-drop (length (header sps)) mem in
      let d2 = length-drop (length (flat size_bytes sps)) f1 in
      let d3 = length-drop (length (flat addr_bytes_of sps)) f2 in
      let full : (length (message_of sps) == get_list_sps_packed_size sp_size sps) ≡ true =
        (let q = length-message_of sps e in ground arith) in
      let w0 = write_at-append [] mem (header sps) (omega arith) in
      let w1 =
        write_each-flat (size_part sp_size) size_bytes sps (header sps) f1
          (map-Every (size_part-bytes sp_size) e) (omega arith) in
      let w2 =
        write_each-flat addr_bytes addr_bytes_of sps (before_addrs sps) f2
          (map-Every (addr_bytes-bytes sp_size) e) (omega arith) in
      let w3 =
        write_each-flat (info_part sp_size) (info_bytes sp_size) sps (before_infos sps) f3
          (map-Every (info_part-bytes sp_size) e) (omega arith) in
      (
        f4,
        bind-some _ w0 (
            ap (λ offset. stores sps (header sps ++ f1) offset) (sym lh)
            ∙ bind-some _ w1 (
                bind-some _ w2
                  (bind-some _ w3 (ap (λ b. assert b (some (message_of sps ++ f4))) full)))),
      )

  -- The service processes of a list have addresses that can be read and whose lengths are not 0, and
  -- there are less than 2 ^ 64 of them with lengths below 2 ^ 64. Packed into memory of the size that
  -- was computed for them, they make a message within the bounds of that memory; the message, unpacked
  -- into any array of service processes, gives their number and makes the elements of the array agree
  -- with them in the length and the bytes of the address and in service_proc_t.
  pub unpack_data_sps-pack_data_sps :
      (sps : List RemoteSp) (mem : List ℕ)
      → Every (IsPackable sp_size) sps
      → length sps < 256 ^ word_size
      → length mem ≡ get_list_sps_packed_size sp_size sps
      → (message : List ℕ) × (pack_data_sps sp_size sps mem ≡ some message)
        × ((array : List RemoteSp)
            → (received : List RemoteSp) × (unpack_data_sps sp_size array message
                ≡ some (length sps, received))
              × Match (Received sp_size) sps received)
  unpack_data_sps-pack_data_sps sps mem e small room =
      let (rest, run) = pack_data_sps-message_of sps mem e room in
      (message_of sps ++ rest, run, λ array. unpack_data_sps-Received sps array rest e small)
