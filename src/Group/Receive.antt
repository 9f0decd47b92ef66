-- ===== src/Group/Receive.antt =====
-- `handle_peer_cache_entries_recv` (src/dpu_offload_group_cache.c): cache entries that a service process
-- sent are added to the group's cache. The group cache is there already, with its size, and the array
-- of shadow service processes of an entry has room for 8 of them. The events that wait for an entry
-- and the send to the host are not modelled; whether the cache is sent to the host is.
pub mod Laws
use dpu_offload_service.Prelude.{
  ℕ, ◌+◌, Bool, true, false, not, ◌&&◌, Option, none, some, List, [], ◌∷◌, ◌++◌, ◌==◌, leb, ltb,
  if◌then◌else◌, length, get_elem?, set,
}
use dpu_offload_service.Prelude.Result.{
  Result, ◌>>=◌, need, check, bind, ok, err, keep_err, map_result,
}
use dpu_offload_service.Group.{Topology, Engine, Peer, GroupCache}
use dpu_offload_service.Group.Update.{update_topology_data}

-- A received cache entry, with the group that it names.
pub record Entry : Type 0 where
  pub peer : Peer
  pub group_uid : ℕ
  pub group_size : ℕ

-- MAX_SHADOW_SERVICE_PROCS
abbrev pub max_shadow_service_procs : ℕ
max_shadow_service_procs = 8

-- The sequence number of the group, once an entry is added: the first one makes a new version.
abbrev pub next_num : GroupCache → ℕ
next_num gp = if gp.num_local_entries == 0 then gp.num + 1 else gp.num

module _ (engine : Engine) where
  -- The loop over the service processes of an entry.
  unfoldable pub attach : ℕ → ℕ → ℕ → ℕ → List ℕ → Topology → Option Topology
  attach gp_uid group_size rank host [] t = some t
  attach gp_uid group_size rank host (g ∷ gs) t =
      bind (update_topology_data engine gp_uid group_size t rank g host)
        (λ t'. attach gp_uid group_size rank host gs t')

  -- What is done with an entry whose rank is not in the cache.
  unfoldable pub add_entry : GroupCache → Peer → Peer → Result GroupCache
  unfolding attach
  add_entry gp old p =
      let shadow = old.shadow_service_procs ++ p.shadow_service_procs in
      check (not (p.group_seq_num == 0)) (
        check (not (length p.shadow_service_procs == 0)) (
          check (p.group_seq_num == next_num gp) (
            check (leb (length shadow) max_shadow_service_procs) (
              need (
                attach gp.group_uid gp.group_size p.group_rank p.host_info p.shadow_service_procs
                  gp.topology)
              >>= λ t. ok (record gp {
                num = next_num gp;
                num_local_entries = gp.num_local_entries + 1;
                ranks =
                    set gp.ranks p.group_rank
                      (record p { is_set = true; shadow_service_procs = shadow });
                topology = t;
              })))))

  -- One round of the loop over the entries: the group, and how many entries it added. `size` is the
  -- group size of the first entry.
  unfoldable pub receive_entry : ℕ → GroupCache → Entry → Result (GroupCache × ℕ)
  unfolding add_entry
  receive_entry size gp e =
      if not (e.group_uid == gp.group_uid)
      then err none
      else check (e.group_size == size) (
          need (get_elem? gp.ranks e.peer.group_rank) >>= λ old.
          if old.is_set then ok (gp, 0) else (add_entry gp old e.peer >>= λ gp'. ok (gp', 1)))

  -- The loop over the entries. With an error goes the group as it is then.
  unfoldable pub receive_entries : ℕ → GroupCache → List Entry → Result (GroupCache × ℕ)
  receive_entries size gp [] = ok (gp, 0)
  receive_entries size gp (e ∷ es) =
      keep_err (gp, 0) (receive_entry size gp e)
        λ r. map_result (λ q. (q.0, r.1 + q.1)) (receive_entries size r.0 es)

  -- The group size of the first entry.
  abbrev pub first_size : List Entry → ℕ
  first_size [] = 0
  first_size (e ∷ es) = e.group_size

  -- Is the cache sent to the host after the loop.
  abbrev pub sends_to_host : ℕ → GroupCache → ℕ → Bool
  sends_to_host num_service_procs_per_dpu gp n_added =
      engine.on_dpu
      && (ltb 0 n_added
          && (ltb 0 gp.group_size
              && ((gp.num_local_entries == gp.group_size)
                  && not
                      ((num_service_procs_per_dpu == 1) && (gp.group_size == gp.n_local_ranks)))))

  -- handle_peer_cache_entries_recv
  unfoldable pub handle_peer_cache_entries_recv :
      ℕ → GroupCache → List Entry → Result (GroupCache × Bool)
  unfolding receive_entries
  handle_peer_cache_entries_recv num_service_procs_per_dpu gp entries =
      receive_entries (first_size entries) gp entries >>= λ r.
      ok (r.0, sends_to_host num_service_procs_per_dpu r.0 r.1)
