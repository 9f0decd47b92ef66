-- ===== src/Group/Tables/Populated.antt =====
-- `do_populate_group_cache_lookup_table` on a consistent topology: it ends, and what its tables hold.
use dpu_offload_service.Prelude.{
  ℕ, ◌<◌, ◌≡◌, refl, sym, ◌∙◌, true, false, Option, none, some, arith, ◌==◌, length, ap,
}
use dpu_offload_service.Prelude.Count.{count, length-bits_from}
use dpu_offload_service.Bitset.{Bitset}
use dpu_offload_service.Bitset.Laws.{has, room}
use dpu_offload_service.Hash.{Hash, lookup, size}
use dpu_offload_service.Group.{SpData, HostData, Topology, Engine}
use dpu_offload_service.Group.Update.Invariant.{is_some, popcount, Counted}
use dpu_offload_service.Group.Update.Step.{IsConsistent}
use dpu_offload_service.Group.Tables.{collect, populate_all, do_populate_group_cache_lookup_table}
use dpu_offload_service.Group.Tables.Walk.{collect-bits, elements-index, elements-count, upto}
use dpu_offload_service.Group.Tables.Lids.{relid}
use dpu_offload_service.Group.Tables.Entries.{
  marked_in, with_ranks, with_sps, on_some, IsApart, IsListable, walk_sps-with_ranks,
  walk_hosts-Walked,
}

-- What the tables of `t'` hold, in terms of the topology `t` that they were made for. The table of
-- service processes is the same for every group with as many of them.
pub record Populated (t t' : Topology) : Type 0 where
  pub sps_eq : t'.sps ≡ some (upto 0 t.n_sps)
  pub hosts_eq : (b : Bitset) → t.hosts_bitset ≡ some b → t'.hosts ≡ some (marked_in b)
  pub sp_entries :
      (k : ℕ) → relid 0 (lookup k t'.sps_hash) ≡ relid 0 (on_some with_ranks (lookup k t.sps_hash))
  pub host_entries : (h : ℕ) → lookup h t'.hosts_hash ≡ on_some with_sps (lookup h t.hosts_hash)
  pub lids :
      IsApart t.hosts_hash
      → (h k : ℕ) (d : HostData) → lookup h t.hosts_hash ≡ some d
      → has d.sps_bitset k ≡ true
      → lookup k t'.sps_hash
        ≡ relid (count (has d.sps_bitset) k) (on_some with_ranks (lookup k t.sps_hash))
  pub same_sps : t'.sps_bitset ≡ t.sps_bitset
  pub same_n_sps : t'.n_sps ≡ t.n_sps
  pub same_hosts : t'.hosts_bitset ≡ t.hosts_bitset
  pub same_n_hosts : t'.n_hosts ≡ t.n_hosts
  pub populated : t'.lookup_tables_populated ≡ true

module _ (engine : Engine) (gs : ℕ) (t : Topology) (c : IsConsistent engine gs t) where
  bitset_of :
      (size : ℕ) (o : Option Bitset) (n : ℕ)
      → Counted size o n
      → 0 < n
      → (b : Bitset) × (o ≡ some b) × (n ≡ popcount b)
  bitset_of size none n counted pos = absurd (omega arith)
  bitset_of size (some b) n counted pos = (b, refl, counted.1)

  sps_table :
      (b : Bitset)
      → t.n_sps ≡ popcount b
      → collect (λ n i. n) b (room b) t.n_sps 0 0 ≡ some (upto 0 t.n_sps)
  sps_table b e =
      let found = collect-bits (λ n i. n) b (room b) t.n_sps 0 0 (omega arith) e in
      let long : length (marked_in b) ≡ t.n_sps = length-bits_from (has b) 0 (room b) ∙ sym e in
      found ∙ ap some (elements-count 0 (marked_in b) ∙ rw long)

  hosts_table :
      (b : Bitset)
      → t.n_hosts ≡ popcount b
      → collect (λ n i. i) b (room b) t.n_hosts 0 0 ≡ some (marked_in b)
  hosts_table b e =
      collect-bits (λ n i. i) b (room b) t.n_hosts 0 0 (omega arith) e
      ∙ ap some (elements-index 0 (marked_in b))

  listable :
      (sps : Hash SpData)
      → ((j : ℕ) → lookup j sps ≡ on_some with_ranks (lookup j t.sps_hash))
      → IsListable sps t.hosts_hash
  listable sps l h d found =
      let e = c.hosts_agree.entries h d found in
      (
        e.used,
        e.num_sps_eq,
        λ k on. rw (l k) (still (lookup k t.sps_hash) (c.sps_known h k (rw found on))),
      )
    where
      still : (o : Option SpData) → is_some o ≡ true → is_some (on_some with_ranks o) ≡ true
      still none e = e
      still (some d) e = refl

  -- On a consistent topology with a service process and a host, whose tables are not there yet, they
  -- are made: the loops end and nothing faults. The tables of the ranks of a service process, of the
  -- hosts and of the service processes of a host list the set bits in order; that of the service
  -- processes of the group is `0, 1, …`, as many as there are. If no service process serves two hosts,
  -- the local id of each is its place among those of its host.
  pub do_populate-Populated :
      t.lookup_tables_populated ≡ false
      → 0 < t.n_sps
      → 0 < t.n_hosts
      → (t' : Topology) × (do_populate_group_cache_lookup_table t ≡ some t') × Populated t t'
  unfolding do_populate_group_cache_lookup_table populate_all
  do_populate-Populated fresh some_sp some_host =
      let (sb, sb_eq, n_sps_eq) = bitset_of gs t.sps_bitset t.n_sps c.sps_agree.counted some_sp in
      let (hb, hb_eq, n_hosts_eq) =
        bitset_of engine.num_hosts t.hosts_bitset t.n_hosts c.hosts_agree.counted some_host in
      let sps_list = sps_table sb n_sps_eq in
      let hosts_list = hosts_table hb n_hosts_eq in
      let (sps, e1, l, sized, tidy) =
        walk_sps-with_ranks t.sps_hash c.sps_agree.tidy
          (λ k d f. let e = c.sps_agree.entries k d f in (e.used, e.n_ranks_eq)) in
      let (hosts, sps', e2, w) =
        walk_hosts-Walked t.hosts_hash sps c.hosts_agree.tidy (listable sps l) in
      let used_s : (t.n_sps == 0) ≡ false = ground arith in
      let used_h : (t.n_hosts == 0) ≡ false = ground arith in
      let all_there : (size t.sps_hash == t.n_sps) ≡ true = rw c.sps_agree.sized (ground arith) in
      (
        record t {
          sps = some (upto 0 t.n_sps);
          hosts = some (marked_in hb);
          sps_hash = sps';
          hosts_hash = hosts;
          lookup_tables_populated = true;
        },
        rw (fresh, used_s, sb_eq, sps_list, all_there, e1, used_h, hb_eq, hosts_list, e2),
        record {
          sps_eq = refl;
          hosts_eq =
              λ b e. let same : some hb ≡ some b = sym hb_eq ∙ e in let q : hb ≡ b = cc in rw q;
          sp_entries = λ k. w.same k ∙ rw (l k);
          host_entries = w.entries;
          lids = λ apart h k d found on. w.lids apart h k d found on ∙ rw (l k);
          same_sps = refl;
          same_n_sps = refl;
          same_hosts = refl;
          same_n_hosts = refl;
          populated = refl;
        },
      )
