-- ===== src/Group/Update/Sps.antt =====
-- The first half of `update_topology_data`: the service process and the ranks that it serves.
use dpu_offload_service.Prelude.{
  ℕ, ◌+◌, ◌<◌, ◌≡◌, refl, sym, ◌∙◌, inl, inr, true, false, Option, none, some, arith, ◌==◌,
  if◌then◌else◌, Bool-cases, Option-cases,
}
use dpu_offload_service.Prelude.Count.{mark, count_from-mark, count_from_congr, count_from_none}
use dpu_offload_service.Bitset.{Bitset, create}
use dpu_offload_service.Bitset.Laws.{has, room, Wrote, Fresh, set_bit-Wrote, create-Fresh}
use dpu_offload_service.Hash.{lookup, put, lookup-put, put-Distinct, size-put_new, size-put_known}
use dpu_offload_service.Group.{SpData, Topology, Engine}
use dpu_offload_service.Group.Update.{first_rank, new_sp, known_sp, add_sp}
use dpu_offload_service.Group.Update.Invariant.{
  popcount, bit, is_some, rank_on_sp, on_sp, IsGroupBitset, SpCounts, Counted, SpsAgree,
}

-- A group bitset with one more bit set is one, and its count goes up by one if the bit was clear.
pub popcount-Wrote :
    {gs : ℕ} {b b' : Bitset} {i : ℕ}
    → IsGroupBitset gs b
    → i < room b
    → Wrote b i true b'
    → has b i ≡ false
    → IsGroupBitset gs b' × (popcount b' ≡ popcount b + 1)
popcount-Wrote {gs} {b} {b'} {i} ok h w clear = (
  record { bytes = w.bytes; roomy = omega (arith, w.width, ok.roomy) },
  let same_room : room b' ≡ room b = omega (arith, w.width) in
      let congr =
        count_from_congr (has b') (mark (has b) i true) 0 (room b') (λ j lo hi. w.reads j) in
      let up = count_from-mark (has b) i true 0 (room b) (omega arith) (omega arith) in
      congr ∙ rw (same_room) (ground (arith, up, clear)),
)

-- Setting a bit that is set already keeps the count.
pub popcount-again :
    {gs : ℕ} {b b' : Bitset} {i : ℕ}
    → IsGroupBitset gs b
    → i < room b
    → Wrote b i true b'
    → has b i ≡ true
    → popcount b' ≡ popcount b
popcount-again {gs} {b} {b'} {i} ok h w present =
    let same_room : room b' ≡ room b = omega (arith, w.width) in
    let congr =
      count_from_congr (has b') (mark (has b) i true) 0 (room b') (λ j lo hi. w.reads j) in
    let up = count_from-mark (has b) i true 0 (room b) (omega arith) (omega arith) in
    congr ∙ rw (same_room) (ground (arith, up, present))

-- A new bitset of the group has no bit set.
pub Fresh-empty : {gs : ℕ} {b : Bitset} → Fresh gs b → IsGroupBitset gs b × (popcount b ≡ 0)
Fresh-empty {gs} {b} f =
    (record { bytes = f.bytes; roomy = f.roomy }, count_from_none (has b) 0 (room b) f.empty)

-- GROUP_CACHE_BITSET_CREATE on the optional bitset of a group: one with the same bits.
pub create-Counted :
    (gs : ℕ) (o : Option Bitset) (n : ℕ)
    → 0 < gs
    → Counted gs o n
    → (b : Bitset) × (create o gs ≡ some b)
      × IsGroupBitset gs b
      × (n ≡ popcount b)
      × ((j : ℕ) → has b j ≡ bit o j)
unfolding create
create-Counted gs none n pos c =
    let (b, e, f) = create-Fresh gs pos in
    (b, e, (Fresh-empty f).0, c ∙ sym (Fresh-empty f).1, f.empty)
create-Counted gs (some b) n pos c = (b, refl, c.0, c.1, λ j. refl)

-- What the first half does to a topology: rank `r` is now attached to SP `g`, and nothing else changes.
pub record SpStep (gs : ℕ) (t : Topology) (r g : ℕ) (t' : Topology) : Type 0 where
  pub agree : SpsAgree gs t'
  pub shows :
      (j k : ℕ)
      → on_sp t' j k ≡ (if g == j then (if r == k then true else on_sp t j k) else on_sp t j k)
  pub keeps :
      (k : ℕ)
      → is_some (lookup k t'.sps_hash) ≡ (if g == k then true else is_some (lookup k t.sps_hash))
  pub same_hosts : t'.hosts_hash ≡ t.hosts_hash
  pub same_bitset : t'.hosts_bitset ≡ t.hosts_bitset
  pub same_count : t'.n_hosts ≡ t.n_hosts
  pub same_tables : t'.lookup_tables_populated ≡ t.lookup_tables_populated

-- The entries after a write under one key: the written one, and the old ones.
put-entries :
    {gs : ℕ} (g : ℕ) (d : SpData) (t : Topology)
    → SpsAgree gs t
    → SpCounts gs g d
    → (j : ℕ) (e : SpData) → lookup j (put g d t.sps_hash) ≡ some e
    → SpCounts gs j e
put-entries {gs} g d t a new j e h = elim (Bool-cases (g == j)) [
  | inl same ↦
      let found : some d ≡ some e = sym (rw (lookup-put g j d t.sps_hash, same)) ∙ h in
      let d_eq : d ≡ e = cc in let g_eq : g ≡ j = ground arith in rw (← d_eq, ← g_eq) new
  | inr other ↦ a.entries j e (sym (rw (lookup-put g j d t.sps_hash, other)) ∙ h)
]

put-keeps :
    (g : ℕ) (d : SpData) (t : Topology) (k : ℕ)
    → is_some (lookup k (put g d t.sps_hash))
      ≡ (if g == k then true else is_some (lookup k t.sps_hash))
put-keeps g d t k =
    rw (lookup-put g k d t.sps_hash)
      (elim (Bool-cases (g == k)) [ inl same ↦ rw same | inr other ↦ rw other ])

put-shows :
    (g r : ℕ) (d : SpData) (t : Topology)
    → ((k : ℕ) → has d.ranks_bitset k ≡ (if r == k then true else on_sp t g k))
    → (j k : ℕ)
    → rank_on_sp (lookup j (put g d t.sps_hash)) k
      ≡ (if g == j then (if r == k then true else on_sp t j k) else on_sp t j k)
put-shows g r d t reads j k = rw (lookup-put g j d t.sps_hash) (elim (Bool-cases (g == j)) [
  | inl same ↦ let e : g ≡ j = ground arith in rw (same, ← e) (reads k)
  | inr other ↦ rw other
])

module _ (engine : Engine) (gp_uid gs : ℕ) (t : Topology) (r g host_uid : ℕ) (a : SpsAgree gs t)
    (r_in : r < gs) (g_in : g < gs) where
  new_sp-SpStep :
      lookup g t.sps_hash ≡ none
      → (t' : Topology) × (new_sp engine gp_uid gs t r g host_uid ≡ some t') × SpStep gs t r g t'
  unfolding new_sp
  new_sp-SpStep absent =
      let (ranks, e1, f) = create-Fresh gs (omega arith) in
      let (ok, zero_count) = Fresh-empty f in
      let (sps, e2, sps_ok, n_eq, sps_bits) =
        create-Counted gs t.sps_bitset t.n_sps (omega arith) a.counted in
      let (sps', e3, w3) = set_bit-Wrote sps g sps_ok.bytes (omega (arith, sps_ok.roomy)) in
      let (ranks', e4, w4) = set_bit-Wrote ranks r ok.bytes (omega (arith, ok.roomy)) in
      let (ok4, count4) = popcount-Wrote ok (omega (arith, ok.roomy)) w4 (f.empty r) in
      let unmarked : has sps g ≡ false = rw (sps_bits g, a.marks g, absent) in
      let (ok3, count3) = popcount-Wrote sps_ok (omega (arith, sps_ok.roomy)) w3 unmarked in
      (
        record t {
          n_sps = t.n_sps + 1;
          sps_bitset = some sps';
          sps_hash = put g (first_rank engine gp_uid gs g host_uid ranks') t.sps_hash;
        },
        rw (e1, e2, e3, e4),
        record {
          agree = record {
            entries = put-entries g _ t a (record {
              ranks_ok = ok4;
              n_ranks_eq = omega (arith, count4, zero_count);
              gid_eq = refl;
              used = omega arith;
            });
            counted = (ok3, omega (arith, count3, n_eq));
            marks = λ j.
                rw (w3.reads j, lookup-put g j _ t.sps_hash, sps_bits j, a.marks j) (ground arith);
            tidy = put-Distinct g _ t.sps_hash a.tidy;
            sized = omega (
              arith,
              size-put_new g (first_rank engine gp_uid gs g host_uid ranks') t.sps_hash absent,
              a.sized,
            );
          };
          shows = put-shows g r _ t (λ k. rw (w4.reads k, f.empty k, absent));
          keeps = put-keeps g _ t;
          same_hosts = refl;
          same_bitset = refl;
          same_count = refl;
          same_tables = refl;
        },
      )

  known_sp-SpStep :
      (d : SpData)
      → lookup g t.sps_hash ≡ some d
      → has d.ranks_bitset r ≡ false
      → (t' : Topology) × (known_sp engine gp_uid gs t r g d ≡ some t') × SpStep gs t r g t'
  unfolding known_sp
  known_sp-SpStep d present clear =
      let c = a.entries g d present in
      let (ranks', e4, w4) =
        set_bit-Wrote d.ranks_bitset r c.ranks_ok.bytes (omega (arith, c.ranks_ok.roomy)) in
      let (ok4, count4) = popcount-Wrote c.ranks_ok (omega (arith, c.ranks_ok.roomy)) w4 clear in
      (
        record t {
          sps_hash = put g (record d { n_ranks = d.n_ranks + 1; ranks_bitset = ranks' }) t.sps_hash;
        },
        rw e4,
        record {
          agree = record {
            entries = put-entries g _ t a (record {
              ranks_ok = ok4;
              n_ranks_eq = omega (arith, count4, c.n_ranks_eq);
              gid_eq = c.gid_eq;
              used = omega (arith, c.used);
            });
            counted = a.counted;
            marks = λ j. rw (lookup-put g j _ t.sps_hash, a.marks j) (again _ j);
            tidy = put-Distinct g _ t.sps_hash a.tidy;
            sized = size-put_known g _ d t.sps_hash present ∙ a.sized;
          };
          shows = put-shows g r _ t (λ k. rw (w4.reads k, present));
          keeps = put-keeps g _ t;
          same_hosts = refl;
          same_bitset = refl;
          same_count = refl;
          same_tables = refl;
        },
      )
    where
      again :
          (d' : SpData) (j : ℕ)
          → is_some (lookup j t.sps_hash)
            ≡ is_some (if g == j then some d' else lookup j t.sps_hash)
      again d' j = elim (Bool-cases (g == j)) [
        | inl same ↦ let e : g ≡ j = ground arith in rw (same, ← e, present)
        | inr other ↦ rw other
      ]

  -- The first half of `update_topology_data` on a rank that is not attached to the SP yet.
  pub add_sp-SpStep :
      on_sp t g r ≡ false
      → (t' : Topology) × (add_sp engine gp_uid gs t r g host_uid ≡ some t') × SpStep gs t r g t'
  unfolding add_sp
  add_sp-SpStep clear = elim (Option-cases (lookup g t.sps_hash)) [
    | inl absent ↦ let (t', e, s) = new_sp-SpStep absent in (t', rw (absent, add_sp) e, s)
    | inr (d, present) ↦
        let (t', e, s) = known_sp-SpStep d present (rw present at clear) in
        (t', rw (present, add_sp) e, s)
  ]
