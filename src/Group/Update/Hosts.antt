-- ===== src/Group/Update/Hosts.antt =====
-- The second half of `update_topology_data`: the host, its ranks and the service processes used on it.
use dpu_offload_service.Prelude.{
  ℕ, ◌+◌, ◌≤◌, ◌<◌, ◌≡◌, refl, sym, ◌∙◌, inl, inr, Bool, true, false, Option, none, some, arith,
  ◌==◌, if◌then◌else◌, Bool-cases, Option-cases,
}
use dpu_offload_service.Bitset.Laws.{has, room, set_bit-Wrote, create-Fresh, test-has}
use dpu_offload_service.Hash.{lookup, put, lookup-put, put-Distinct}
use dpu_offload_service.Group.{HostData, Topology, Engine}
use dpu_offload_service.Group.Update.{first_sp, mark_sp, new_host, known_host, add_host}
use dpu_offload_service.Group.Update.Invariant.{
  popcount, is_some, rank_on_host, sp_on_host, on_host, uses_sp, IsGroupBitset, HostCounts,
  HostsAgree, IsConfig,
}
use dpu_offload_service.Group.Update.Sps.{popcount-Wrote, Fresh-empty, create-Counted}

-- What the second half does: rank `r` runs on host `h`, SP `g` is used there, nothing else changes.
pub record HostStep (engine : Engine) (gs : ℕ) (t : Topology) (r g h : ℕ) (t' : Topology)
    : Type 0 where
  pub agree : HostsAgree engine gs t'
  pub shows_ranks :
      (j k : ℕ)
      → on_host t' j k
        ≡ (if h == j then (if r == k then true else on_host t j k) else on_host t j k)
  pub shows_sps :
      (j k : ℕ)
      → uses_sp t' j k
        ≡ (if h == j then (if g == k then true else uses_sp t j k) else uses_sp t j k)
  pub same_sps : t'.sps_hash ≡ t.sps_hash
  pub same_bitset : t'.sps_bitset ≡ t.sps_bitset
  pub same_count : t'.n_sps ≡ t.n_sps
  pub same_tables : t'.lookup_tables_populated ≡ t.lookup_tables_populated

put-entries :
    {engine : Engine} {gs : ℕ} (h : ℕ) (d : HostData) (t : Topology)
    → HostsAgree engine gs t
    → HostCounts gs h d
    → (j : ℕ) (e : HostData) → lookup j (put h d t.hosts_hash) ≡ some e
    → HostCounts gs j e
put-entries h d t a new j e found = elim (Bool-cases (h == j)) [
  | inl same ↦
      let eq : some d ≡ some e = sym (rw (lookup-put h j d t.hosts_hash, same)) ∙ found in
      let d_eq : d ≡ e = cc in let h_eq : h ≡ j = ground arith in rw (← d_eq, ← h_eq) new
  | inr other ↦ a.entries j e (sym (rw (lookup-put h j d t.hosts_hash, other)) ∙ found)
]

put-shows :
    (f : Option HostData → ℕ → Bool) (h i : ℕ) (d : HostData) (t : Topology)
    → ((k : ℕ) → f (some d) k ≡ (if i == k then true else f (lookup h t.hosts_hash) k))
    → (j k : ℕ)
    → f (lookup j (put h d t.hosts_hash)) k ≡ (
        if h == j
        then (if i == k then true else f (lookup j t.hosts_hash) k)
        else f (lookup j t.hosts_hash) k)
put-shows f h i d t reads j k = rw (lookup-put h j d t.hosts_hash) (elim (Bool-cases (h == j)) [
  | inl same ↦ let e : h ≡ j = ground arith in rw (same, ← e) (reads k)
  | inr other ↦ rw other
])

module _ (engine : Engine) (gp_uid gs : ℕ) (t : Topology) (r g h : ℕ) (config : IsConfig engine)
    (a : HostsAgree engine gs t) (r_in : r < gs) (g_in : g < gs) where
  new_host-HostStep :
      (i : ℕ)
      → lookup h engine.host_lookup_table ≡ some i
      → lookup h t.hosts_hash ≡ none
      → (t' : Topology) × (new_host engine gp_uid gs t r g h ≡ some t')
        × HostStep engine gs t r g h t'
  unfolding new_host
  new_host-HostStep i known absent =
      let i_in = config.in_range h i known in
      let (sps, e1, f1) = create-Fresh gs (omega arith) in
      let (ok1, zero1) = Fresh-empty f1 in
      let (sps', e2, w2) = set_bit-Wrote sps g ok1.bytes (omega (arith, ok1.roomy)) in
      let (ok2, count2) = popcount-Wrote ok1 (omega (arith, ok1.roomy)) w2 (f1.empty g) in
      let (hosts, e4, ok4, n_eq, host_bits) =
        create-Counted engine.num_hosts t.hosts_bitset t.n_hosts (omega (arith, i_in)) a.counted in
      let (hosts', e5, w5) = set_bit-Wrote hosts i ok4.bytes (omega (arith, ok4.roomy, i_in)) in
      let unmarked : has hosts i ≡ false = rw (host_bits i, a.marks h i known, absent) in
      let (ok5, count5) = popcount-Wrote ok4 (omega (arith, ok4.roomy, i_in)) w5 unmarked in
      let (ranks', e6, w6) = set_bit-Wrote sps r ok1.bytes (omega (arith, ok1.roomy)) in
      let (ok6, count6) = popcount-Wrote ok1 (omega (arith, ok1.roomy)) w6 (f1.empty r) in
      (
        record t {
          n_hosts = t.n_hosts + 1;
          hosts_bitset = some hosts';
          hosts_hash = put h (first_sp h i sps' ranks') t.hosts_hash;
        },
        rw (e1, e2, known, e4, e5, e6),
        record {
          agree = record {
            entries = put-entries {engine = engine} {gs = gs} h _ t a (record {
              ranks_ok = ok6;
              sps_ok = ok2;
              num_ranks_eq = omega (arith, count6, zero1);
              num_sps_eq = omega (arith, count2, zero1);
              uid_eq = refl;
              used = omega arith;
            });
            counted = (ok5, omega (arith, count5, n_eq));
            marks = λ j k q.
                rw (w5.reads k, lookup-put h j _ t.hosts_hash, host_bits k, a.marks j k q)
                  (new_mark i known absent (first_sp h i sps' ranks') j k q);
            tidy = put-Distinct h _ t.hosts_hash a.tidy;
          };
          shows_ranks = put-shows rank_on_host h r _ t (λ k. rw (w6.reads k, f1.empty k, absent));
          shows_sps = put-shows sp_on_host h g _ t (λ k. rw (w2.reads k, f1.empty k, absent));
          same_sps = refl;
          same_bitset = refl;
          same_count = refl;
          same_tables = refl;
        },
      )
    where
      new_mark :
          (i : ℕ)
          → lookup h engine.host_lookup_table ≡ some i
          → lookup h t.hosts_hash ≡ none
          → (d : HostData) (j k : ℕ) → lookup j engine.host_lookup_table ≡ some k
          → (if i == k then true else is_some (lookup j t.hosts_hash))
            ≡ is_some (if h == j then some d else lookup j t.hosts_hash)
      new_mark i known absent d j k q = elim (Bool-cases (h == j)) [
        | inl same ↦
            let e : h ≡ j = ground arith in
            let one : some i ≡ some k = sym known ∙ rw e q in
            let e' : i ≡ k = cc in let hit : (i == k) ≡ true = ground arith in rw (same, hit)
        | inr other ↦ let miss : (i == k) ≡ false = apart i known j k q other in rw (other, miss)
      ]
        where
          apart :
              (i : ℕ)
              → lookup h engine.host_lookup_table ≡ some i
              → (j k : ℕ) → lookup j engine.host_lookup_table ≡ some k
              → (h == j) ≡ false
              → (i == k) ≡ false
          apart i known j k q other = elim (Bool-cases (i == k)) [
            | inr miss ↦ miss
            | inl hit ↦
                let e : i ≡ k = ground arith in
                let same = config.injective h j i known (rw e q) in ground arith
          ]

  -- A known SP stays, an unknown one is marked and counted.
  pub mark_sp-HostCounts :
      (d : HostData)
      → IsGroupBitset gs d.sps_bitset
      → d.num_sps ≡ popcount d.sps_bitset
      → (d' : HostData) × (mark_sp d g ≡ some d')
        × IsGroupBitset gs d'.sps_bitset
        × (d'.num_sps ≡ popcount d'.sps_bitset)
        × ((k : ℕ) → has d'.sps_bitset k ≡ (if g == k then true else has d.sps_bitset k))
        × (d'.ranks_bitset ≡ d.ranks_bitset)
        × (d'.num_ranks ≡ d.num_ranks)
        × (d'.uid ≡ d.uid)
        × (d.num_sps ≤ d'.num_sps)
  unfolding mark_sp
  mark_sp-HostCounts d ok n_eq =
      let inside : g < room d.sps_bitset = omega (arith, ok.roomy) in
      let known = test-has d.sps_bitset g inside in
      elim (Bool-cases (has d.sps_bitset g)) [
        | inl yes_known ↦ (
          d,
          rw (known, yes_known),
          ok,
          n_eq,
          λ k. stays k yes_known,
          refl,
          refl,
          refl,
          omega arith,
        )
        | inr unknown ↦
            let (sps', e, w) = set_bit-Wrote d.sps_bitset g ok.bytes inside in
            let (ok', count') = popcount-Wrote ok inside w unknown in
            (
              record d { num_sps = d.num_sps + 1; sps_bitset = sps' },
              rw (known, unknown, e),
              ok',
              omega (arith, count', n_eq),
              w.reads,
              refl,
              refl,
              refl,
              omega arith,
            )
      ]
    where
      stays :
          (k : ℕ)
          → has d.sps_bitset g ≡ true
          → has d.sps_bitset k ≡ (if g == k then true else has d.sps_bitset k)
      stays k t = elim (Bool-cases (g == k)) [
        | inl same ↦ let e : g ≡ k = ground arith in rw (same, ← e) t
        | inr other ↦ rw other
      ]

  known_host-HostStep :
      (d : HostData)
      → lookup h t.hosts_hash ≡ some d
      → has d.ranks_bitset r ≡ false
      → (t' : Topology) × (known_host engine gp_uid gs t r g h d ≡ some t')
        × HostStep engine gs t r g h t'
  unfolding known_host
  known_host-HostStep d present clear =
      let c = a.entries h d present in
      let (d', e1, ok1, count1, bits1, same_ranks, n_ranks, same_uid, more) =
        mark_sp-HostCounts (record d { num_ranks = d.num_ranks + 1 }) c.sps_ok c.num_sps_eq in
      let ranks_ok' : IsGroupBitset gs d'.ranks_bitset = rw same_ranks c.ranks_ok in
      let inside : r < room d'.ranks_bitset = omega (arith, ranks_ok'.roomy) in
      let (ranks', e2, w2) = set_bit-Wrote d'.ranks_bitset r ranks_ok'.bytes inside in
      let clear' : has d'.ranks_bitset r ≡ false = rw same_ranks clear in
      let (ok2, count2) = popcount-Wrote ranks_ok' inside w2 clear' in
      let same_pop : popcount d'.ranks_bitset ≡ popcount d.ranks_bitset = rw same_ranks in
      (
        record t { hosts_hash = put h (record d' { ranks_bitset = ranks' }) t.hosts_hash },
        rw (e1, e2),
        record {
          agree = record {
            entries = put-entries {engine = engine} {gs = gs} h _ t a (record {
              ranks_ok = ok2;
              sps_ok = ok1;
              num_ranks_eq = omega (arith, count2, n_ranks, same_pop, c.num_ranks_eq);
              num_sps_eq = count1;
              uid_eq = same_uid ∙ c.uid_eq;
              used = omega (arith, more, c.used);
            });
            counted = a.counted;
            marks = λ j k q. rw (lookup-put h j _ t.hosts_hash, a.marks j k q) (again _ j);
            tidy = put-Distinct h _ t.hosts_hash a.tidy;
          };
          shows_ranks = put-shows rank_on_host h r _ t (λ k. rw (w2.reads k, same_ranks, present));
          shows_sps = put-shows sp_on_host h g _ t (λ k. rw (bits1 k, present));
          same_sps = refl;
          same_bitset = refl;
          same_count = refl;
          same_tables = refl;
        },
      )
    where
      again :
          (d' : HostData) (j : ℕ)
          → is_some (lookup j t.hosts_hash)
            ≡ is_some (if h == j then some d' else lookup j t.hosts_hash)
      again d' j = elim (Bool-cases (h == j)) [
        | inl same ↦ let e : h ≡ j = ground arith in rw (same, ← e, present)
        | inr other ↦ rw other
      ]

  -- The second half of `update_topology_data` on a rank that is not on the host yet.
  pub add_host-HostStep :
      (i : ℕ)
      → lookup h engine.host_lookup_table ≡ some i
      → on_host t h r ≡ false
      → (t' : Topology) × (add_host engine gp_uid gs t r g h ≡ some t')
        × HostStep engine gs t r g h t'
  unfolding add_host
  add_host-HostStep i known clear = elim (Option-cases (lookup h t.hosts_hash)) [
    | inl absent ↦
        let (t', e, s) = new_host-HostStep i known absent in (t', rw (absent, add_host) e, s)
    | inr (d, present) ↦
        let (t', e, s) = known_host-HostStep d present (rw present at clear) in
        (t', rw (present, add_host) e, s)
  ]
