-- ===== src/Utils/Pack/Parts.antt =====
-- The part of the message that stands for one service process: what is written and read for it.
use dpu_offload_service.Prelude.{
  ℕ, ◌+◌, ◌^◌, ◌<◌, ◌≡◌, refl, sym, ap, ◌∙◌, true, false, Option, none, some, List, [], ◌∷◌, ◌++◌,
  arith, ltb, length, drop, length-append,
}
use dpu_offload_service.Prelude.Result.{bind-some, assert, bind-eq-some}
use dpu_offload_service.Utils.Pack.{
  word_size, bytes_of, number_of, read_at, RemoteSp, addr_bytes, addrs_size, size_part, info_part,
  size_step, addr_step, info_step,
}
use dpu_offload_service.Utils.Pack.Loops.{flat, Every}
use dpu_offload_service.Utils.Pack.Memory.{
  length-bytes_of, number_of-bytes_of, drop-append, read_at-part, length-read_at,
}

abbrev pub or_nil : Option (List ℕ) → List ℕ
or_nil none = []
or_nil (some xs) = xs

abbrev pub size_bytes : RemoteSp → List ℕ
size_bytes sp = bytes_of word_size sp.addr_len

abbrev pub addr_bytes_of : RemoteSp → List ℕ
addr_bytes_of sp = or_nil (addr_bytes sp)

module _ (sp_size : ℕ) where
  -- A service process whose address and service_proc_t can be read, with a length that fits.
  pub record IsPackable (sp : RemoteSp) : Type 0 where
    pub address : List ℕ
    pub is_address : addr_bytes sp ≡ some address
    pub some_address : 0 < sp.addr_len
    pub fits : sp.addr_len < 256 ^ word_size
    pub info : List ℕ
    pub is_info : read_at sp.service_proc 0 sp_size ≡ some info

  -- An element of the array after each of the three loops, beside the service process.
  abbrev pub Sized : RemoteSp → RemoteSp → Type 0
  Sized sp b = IsPackable sp × (b.addr_len ≡ sp.addr_len)

  abbrev pub Addressed : RemoteSp → RemoteSp → Type 0
  Addressed sp b = Sized sp b × (addr_bytes b ≡ addr_bytes sp)

  -- The same length and bytes of the address, and the same service_proc_t.
  abbrev pub Received : RemoteSp → RemoteSp → Type 0
  Received sp b =
      (b.addr_len ≡ sp.addr_len)
      × (addr_bytes b ≡ addr_bytes sp)
      × (some b.service_proc ≡ read_at sp.service_proc 0 sp_size)

  abbrev pub info_bytes : RemoteSp → List ℕ
  info_bytes sp = or_nil (read_at sp.service_proc 0 sp_size)

  pub size_step-reads :
      (payload : List ℕ) (sp b : RemoteSp) (before after : List ℕ)
      → payload ≡ before ++ (size_bytes sp ++ after)
      → IsPackable sp
      → (b' : RemoteSp) × (size_step sp_size payload b (length before)
          ≡ some (b', length (before ++ size_bytes sp)))
        × Sized sp b'
  size_step-reads payload sp b before after e p =
      let l = length-bytes_of word_size sp.addr_len in
      let n : length before + word_size ≡ length (before ++ size_bytes sp) =
        omega (arith, length-append before (size_bytes sp)) in
      let read = read_at-part payload before (size_bytes sp) after word_size e l in
      let b' : RemoteSp = record b { addr_len = number_of (size_bytes sp); has_ep = false } in
      (
        b',
        bind-some _ read (ap (λ k. some (b', k)) n),
        (p, number_of-bytes_of word_size sp.addr_len p.fits),
      )

  length-address : (sp : RemoteSp) → IsPackable sp → length (addr_bytes_of sp) ≡ sp.addr_len
  length-address sp p =
      let a : addr_bytes_of sp ≡ p.address = ap or_nil p.is_address in
      let (bs, _, r) = bind-eq-some sp.addr (λ a. read_at a 0 sp.addr_len) p.is_address in
      ap length a ∙ length-read_at bs 0 sp.addr_len p.address r

  pub length-info : (sp : RemoteSp) → IsPackable sp → length (info_bytes sp) ≡ sp_size
  length-info sp p =
      let i : info_bytes sp ≡ p.info = ap or_nil p.is_info in
      ap length i ∙ length-read_at sp.service_proc 0 sp_size p.info p.is_info

  pub addr_step-reads :
      (payload : List ℕ) (sp b : RemoteSp) (before after : List ℕ)
      → payload ≡ before ++ (addr_bytes_of sp ++ after)
      → Sized sp b
      → (b' : RemoteSp) × (addr_step sp_size payload b (length before)
          ≡ some (b', length (before ++ addr_bytes_of sp)))
        × Addressed sp b'
  addr_step-reads payload sp b before after e (p, same) =
      let a : addr_bytes_of sp ≡ p.address = ap or_nil p.is_address in
      let l : length (addr_bytes_of sp) ≡ sp.addr_len = length-address sp p in
      let there : drop (length before) payload ≡ addr_bytes_of sp ++ after =
        ap (λ xs. drop (length before) xs) e ∙ drop-append before (addr_bytes_of sp ++ after) in
      let n : length before + b.addr_len ≡ length (before ++ addr_bytes_of sp) =
        omega (arith, length-append before (addr_bytes_of sp)) in
      let b' : RemoteSp = record b { addr = some (drop (length before) payload) } in
      (
        b',
        ap (λ k. some (b', k)) n,
        (
          (p, same),
          read_at-part (drop (length before) payload) [] (addr_bytes_of sp) after b.addr_len there
                (l ∙ sym same)
              ∙ ap some a
              ∙ sym p.is_address,
        ),
      )

  pub info_step-reads :
      (payload : List ℕ) (sp b : RemoteSp) (before after : List ℕ)
      → payload ≡ before ++ (info_bytes sp ++ after)
      → Addressed sp b
      → (b' : RemoteSp) × (info_step sp_size payload b (length before)
          ≡ some (b', length (before ++ info_bytes sp)))
        × Received sp b'
  info_step-reads payload sp b before after e ((p, same), addr_same) =
      let i : info_bytes sp ≡ p.info = ap or_nil p.is_info in
      let l = length-info sp p in
      let n : length before + sp_size ≡ length (before ++ info_bytes sp) =
        omega (arith, length-append before (info_bytes sp)) in
      let read = read_at-part payload before (info_bytes sp) after sp_size e l in
      let b' : RemoteSp = record b { service_proc = info_bytes sp } in
      (
        b',
        bind-some _ read (ap (λ k. some (b', k)) n),
        (same, addr_same, ap some i ∙ sym p.is_info),
      )

  pub size_part-bytes :
      (sp : RemoteSp) → IsPackable sp → size_part sp_size sp ≡ some (size_bytes sp)
  size_part-bytes sp p =
      let some_address : ltb 0 sp.addr_len ≡ true = (let h = p.some_address in ground arith) in
      ap (λ b. assert b (some (size_bytes sp))) some_address

  pub addr_bytes-bytes : (sp : RemoteSp) → IsPackable sp → addr_bytes sp ≡ some (addr_bytes_of sp)
  addr_bytes-bytes sp p = p.is_address ∙ ap (λ r. some (or_nil r)) (sym p.is_address)

  pub info_part-bytes :
      (sp : RemoteSp) → IsPackable sp → info_part sp_size sp ≡ some (info_bytes sp)
  info_part-bytes sp p = p.is_info ∙ ap (λ r. some (or_nil r)) (sym p.is_info)

  pub addrs_size-flat :
      (sps : List RemoteSp)
      → Every IsPackable sps
      → length (flat addr_bytes_of sps) ≡ addrs_size sps
  unfolding flat addrs_size
  addrs_size-flat [] e = refl
  addrs_size-flat (sp ∷ sps) (Every.every_cons p e) = omega (
    arith,
    length-append (addr_bytes_of sp) (flat addr_bytes_of sps),
    addrs_size-flat sps e,
    length-address sp p,
  )
