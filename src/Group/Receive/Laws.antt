-- ===== src/Group/Receive/Laws.antt =====
-- What receiving a cache entry does to a consistent group.
use dpu_offload_service.Prelude.{
  ℕ, zero, suc, ◌+◌, ◌≤◌, ◌<◌, ◌≡◌, refl, sym, true, false, some, List, [], ◌∷◌, arith, ◌==◌,
  length, get_elem?, set, length-set, get_elem?-set_self,
}
use dpu_offload_service.Prelude.Count.{to_nat}
use dpu_offload_service.Prelude.Result.{ok}
use dpu_offload_service.Hash.{lookup}
use dpu_offload_service.Group.{Engine, Peer, GroupCache}
use dpu_offload_service.Group.Update.Invariant.{on_sp, on_host, IsConfig}
use dpu_offload_service.Group.Update.Step.{IsConsistent, Attached, update_topology_data-Attached}
use dpu_offload_service.Group.Receive.{
  Entry, next_num, attach, add_entry, receive_entry, receive_entries,
}

-- How many ranks are in the cache.
abbrev pub num_set : List Peer → ℕ
num_set [] = 0
num_set (p ∷ ps) = to_nat p.is_set + num_set ps

num_set-set :
    (ps : List Peer) (i : ℕ) (old new : Peer)
    → get_elem? ps i ≡ some old
    → old.is_set ≡ false
    → new.is_set ≡ true
    → num_set (set ps i new) ≡ num_set ps + 1
num_set-set [] i old new e o n = absurd cc
num_set-set (p ∷ ps) zero old new e o n =
    let q : p ≡ old = cc in let o' : p.is_set ≡ false = rw q o in rw (n, o') (omega arith)
num_set-set (p ∷ ps) (suc i) old new e o n = omega (arith, num_set-set ps i old new e o n)

-- A group whose counter is the number of ranks in its cache, on a consistent topology.
pub record IsGroup (engine : Engine) (gp : GroupCache) : Type 0 where
  pub consistent : IsConsistent engine gp.group_size gp.topology
  pub counted : gp.num_local_entries ≡ num_set gp.ranks
  pub wide : gp.group_size ≤ length gp.ranks

-- The entry of a rank of the group that is not in the cache yet: it names the group, the group's next
-- sequence number, one service process and a configured host.
pub record IsNews (engine : Engine) (gp : GroupCache) (e : Entry) (g i : ℕ) (old : Peer)
    : Type 0 where
  pub same_uid : e.group_uid ≡ gp.group_uid
  pub same_size : e.group_size ≡ gp.group_size
  pub in_array : get_elem? gp.ranks e.peer.group_rank ≡ some old
  pub not_set : old.is_set ≡ false
  pub no_shadow : old.shadow_service_procs ≡ []
  pub one_shadow : e.peer.shadow_service_procs ≡ g ∷ []
  pub next : e.peer.group_seq_num ≡ next_num gp
  pub used : 0 < e.peer.group_seq_num
  pub rank_in : e.peer.group_rank < gp.group_size
  pub sp_in : g < gp.group_size
  pub known : lookup e.peer.host_info engine.host_lookup_table ≡ some i
  pub off_sp : on_sp gp.topology g e.peer.group_rank ≡ false
  pub off_host : on_host gp.topology e.peer.host_info e.peer.group_rank ≡ false

-- The rank is in the cache of a group that is otherwise the same one.
pub record IsCached (gp : GroupCache) (rank : ℕ) (gp' : GroupCache) : Type 0 where
  pub peer : Peer
  pub in_array : get_elem? gp'.ranks rank ≡ some peer
  pub is_set_eq : peer.is_set ≡ true
  pub same_uid : gp'.group_uid ≡ gp.group_uid
  pub same_size : gp'.group_size ≡ gp.group_size

-- A new entry of a rank with one service process is added: the rank is in the cache, the counter goes
-- up by one and is still the number of ranks in the cache, the sequence number is the entry's, and exactly that rank, service
-- process and host are related anew in a topology that stays consistent.
pub receive_entry-IsGroup :
    (engine : Engine) (gp : GroupCache) (e : Entry) (g i : ℕ) (old : Peer)
    → IsConfig engine
    → IsGroup engine gp
    → IsNews engine gp e g i old
    → (gp' : GroupCache) × (receive_entry engine e.group_size gp e ≡ ok (gp', 1))
      × IsGroup engine gp'
      × (gp'.num_local_entries ≡ gp.num_local_entries + 1)
      × (gp'.num ≡ e.peer.group_seq_num)
      × Attached gp.topology e.peer.group_rank g e.peer.host_info gp'.topology
      × IsCached gp e.peer.group_rank gp'
unfolding receive_entry add_entry attach
receive_entry-IsGroup engine gp e g i old config group news =
    let (t, run, c, a) =
      update_topology_data-Attached engine gp.group_uid gp.group_size config gp.topology
        e.peer.group_rank g e.peer.host_info i group.consistent news.rank_in news.sp_in news.known
        news.off_sp news.off_host in
    let uid_ok : (e.group_uid == gp.group_uid) ≡ true = let q = news.same_uid in ground arith in
    let size_ok : (e.group_size == e.group_size) ≡ true = ==-refl e.group_size in
    let seq_used : (e.peer.group_seq_num == 0) ≡ false = let q = news.used in ground arith in
    let seq_ok : (e.peer.group_seq_num == next_num gp) ≡ true =
      let q = news.next in rw q (==-refl (next_num gp)) in
    let new : Peer = record (e.peer) { is_set = true; shadow_service_procs = g ∷ [] } in
    (
      record gp {
        num = next_num gp;
        num_local_entries = gp.num_local_entries + 1;
        ranks = set gp.ranks e.peer.group_rank new;
        topology = t;
      },
      rw (
        uid_ok, size_ok, news.in_array, news.not_set, seq_used, seq_ok, news.one_shadow,
        news.no_shadow, run,
      ),
      record {
        consistent = c;
        counted = omega (
          arith,
          num_set-set gp.ranks e.peer.group_rank old new news.in_array news.not_set refl,
          group.counted,
        );
        wide = omega (arith, length-set gp.ranks e.peer.group_rank new, group.wide);
      },
      refl,
      sym news.next,
      a,
      record {
        peer = new;
        in_array =
            get_elem?-set_self gp.ranks e.peer.group_rank new
              (let w = group.wide in let r = news.rank_in in omega arith);
        is_set_eq = refl;
        same_uid = refl;
        same_size = refl;
      },
    )
  where
    ==-refl : (n : ℕ) → (n == n) ≡ true
    ==-refl n = ground arith

-- An entry of a rank that is in the cache adds nothing.
receive_entry-IsCached :
    (engine : Engine) (gp gp' : GroupCache) (e : Entry)
    → e.group_uid ≡ gp.group_uid
    → IsCached gp e.peer.group_rank gp'
    → receive_entry engine e.group_size gp' e ≡ ok (gp', 0)
unfolding receive_entry
receive_entry-IsCached engine gp gp' e uid c =
    let uid_ok : (e.group_uid == gp'.group_uid) ≡ true =
      let p = c.same_uid in let q = uid in ground arith in
    let size_ok : (e.group_size == e.group_size) ≡ true = ground arith in
    rw (uid_ok, size_ok, c.in_array, c.is_set_eq)

-- A new entry of a rank with one service process that is sent twice has the effect of one.
pub receive_entries-twice :
    (engine : Engine) (gp : GroupCache) (e : Entry) (g i : ℕ) (old : Peer)
    → IsConfig engine
    → IsGroup engine gp
    → IsNews engine gp e g i old
    → receive_entries engine e.group_size gp (e ∷ e ∷ [])
      ≡ receive_entries engine e.group_size gp (e ∷ [])
unfolding receive_entries
receive_entries-twice engine gp e g i old config group news =
    let (gp', run, valid, count, num, att, cached) =
      receive_entry-IsGroup engine gp e g i old config group news in
    let again = receive_entry-IsCached engine gp gp' e news.same_uid cached in rw (run, again)
