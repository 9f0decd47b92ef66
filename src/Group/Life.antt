-- ===== src/Group/Life.antt =====
-- The life of a group cache over several versions of the group: it is created by the first message
-- that names it (GET_GROUP_CACHE_INTERNAL and GET_GROUP_RANK_CACHE_ENTRY of
-- include/dpu_offload_types.h), ranks are added (do_add_group_rank_recv_cb and
-- peer_cache_entries_recv_cb of src/dpu_offload_event_channels.c), it is revoked
-- (revoke_group_cache of src/dpu_offload_group_cache.c, revoke_send_to_host_cb), and messages for the
-- next version wait until then. The group's entry in the hash of groups is there, every message is
-- for this group, which is not the group of all ranks, and all pools have elements.
pub mod Goes
pub mod Waiting
pub mod Versions
use dpu_offload_service.Prelude.{
  ℕ, ◌+◌, Bool, true, false, not, ◌&&◌, ◌||◌, Option, none, some, List, [], ◌∷◌, ◌++◌, ◌==◌, leb,
  ltb, if◌then◌else◌, length, get_elem?, set, replicate,
}
use dpu_offload_service.Prelude.Result.{
  Result, ◌>>=◌, need, check, bind, ok, err, fault, map_result, and_then, printed,
}
use dpu_offload_service.Size.{uint64_max}
use dpu_offload_service.Bitset.{Bitset, create}
use dpu_offload_service.Utils.{get_num_connecting_ranks, is_group_ready}
use dpu_offload_service.Group.{Topology, Engine, Peer, GroupCache}
use dpu_offload_service.Group.Update.{no_topology, update_topology_data}
use dpu_offload_service.Group.Receive.{Entry, next_num, receive_entries, sends_to_host}

-- What the configuration says beside `Engine`, the number of groups that the cache of the engine holds,
-- and whether there is a handler of revoke events.
pub record Setup : Type 0 where
  pub engine : Engine
  pub num_service_procs_per_dpu : ℕ
  pub local_id : ℕ
  pub num_groups : ℕ
  pub revoke_handler : Bool

-- The members of `group_cache_t` beside those of `GroupCache`. `known`: `group_uid` is not INT_MAX;
-- `engine_set`: `engine` is not NULL. The last three are outputs: how often the group cache was
-- broadcast and sent to the ranks, and how often the handler of revoke events was called, which does
-- not change the group cache.
pub record GroupState : Type 0 where
  pub cache : GroupCache
  pub known : Bool
  pub engine_set : Bool
  pub n_local_ranks_populated : ℕ
  pub sp_ranks : ℕ
  pub local_revokes : ℕ
  pub marks : Option Bitset
  pub revoke_send_to_host_posted : ℕ
  pub revoke_sent_to_host : ℕ
  pub pending_recv_cache_entries : List (List Entry)
  pub broadcasts : ℕ
  pub host_sends : ℕ
  pub revoke_events : ℕ

-- A message that adds a rank: the `rank_info_t`, `none` for INT_MAX, INVALID_RANK or a negative number,
-- and the ranks of the group among all ranks.
pub record AddMsg : Type 0 where
  pub group_uid : Option ℕ
  pub group_rank : Option ℕ
  pub group_size : ℕ
  pub group_seq_num : ℕ
  pub n_local_ranks : Option ℕ
  pub host_info : ℕ
  pub world_ranks : List ℕ

-- A group with the messages that wait to add ranks to it.
pub record GroupLife : Type 0 where
  pub state : GroupState
  pub pending_group_add_msgs : List AddMsg

-- A list without its first item.
abbrev pub behind : {A : Type 0} → List A → List A
behind [] = []
behind (x ∷ xs) = xs

-- INIT_PEER_CACHE_ENTRY
abbrev pub blank_peer : Peer
blank_peer = record {
  is_set = false;
  group_rank = uint64_max;
  group_seq_num = 0;
  host_info = uint64_max;
  shadow_service_procs = [];
}

-- BASIC_INIT_GROUP_CACHE, and an array of `n` ranks.
abbrev pub init_cache : GroupCache → ℕ → GroupCache
init_cache gp n = record gp {
  group_size = 0;
  n_local_ranks = 0;
  num_local_entries = 0;
  global_revokes = 0;
  ranks = replicate n blank_peer;
  topology = no_topology;
}

abbrev pub init_state : GroupState → ℕ → GroupState
init_state s n = record s {
  cache = init_cache s.cache n;
  engine_set = false;
  n_local_ranks_populated = 0;
  sp_ranks = 0;
  local_revokes = 0;
  marks = none;
}

-- GET_GROUP_CACHE_INTERNAL; GET_GROUP_CACHE is the call with the size 0.
unfoldable pub get_group_cache : GroupState → ℕ → Result GroupState
get_group_cache s size =
    let s1 : GroupState = if s.known then s else record (init_state s size) { known = true } in
    let s2 : GroupState =
      if not s1.engine_set && (s1.cache.num_local_entries == 0)
      then record s1 { engine_set = true }
      else s1 in
    check s2.engine_set (ok s2)

-- The part of GET_GROUP_RANK_CACHE_ENTRY that learns the size of the group.
unfoldable pub learn_group_size : Engine → GroupState → ℕ → Option GroupState
learn_group_size engine s size =
    if s.cache.group_size == 0
    then (bind (create s.cache.topology.sps_bitset size) λ sps.
        bind (create s.cache.topology.hosts_bitset engine.num_hosts) λ hosts.
          bind (create s.marks size) λ marks. some (record s {
            cache = record s.cache {
              group_size = size;
              topology = record s.cache.topology {
                sps_bitset = some sps;
                hosts_bitset = some hosts;
              };
            };
            marks = some marks;
          }))
    else some s

-- group_cache_populated
unfoldable pub group_populated : GroupState → Result (GroupState × Bool)
group_populated s = get_group_cache s 0 >>= λ s'.
    ok (s', (s'.cache.global_revokes == 0) && (s'.cache.group_size == s'.cache.num_local_entries))

-- RESET_GROUP_CACHE
abbrev pub reset_state : GroupState → GroupState
reset_state s = record (init_state s 0) { known = false }

-- revoke_group_cache, up to the pending entries.
unfoldable pub revoke_group : GroupState → Result GroupState
revoke_group s = get_group_cache s 0 >>= λ s1.
    check (ltb 0 s1.cache.group_size && leb s1.cache.group_size (length s1.cache.ranks))
      (ok (reset_state s1))

-- shadow_service_procs[0]: INIT_PEER_CACHE_ENTRY fills the array with UINT64_MAX.
abbrev pub first_sp_of : Peer → ℕ
first_sp_of peer = elim (get_elem? peer.shadow_service_procs 0) [ none ↦ uint64_max | some sp ↦ sp ]

-- rank_is_on_sp over the ranks of a message: how many of them the service process serves.
unfoldable pub count_on_sp : Engine → List Peer → List ℕ → Option ℕ
count_on_sp engine world [] = some 0
count_on_sp engine world (r ∷ rs) = bind (get_elem? world r) λ peer.
    bind (count_on_sp engine world rs)
      λ n. some (if first_sp_of peer == engine.local_global_id then n + 1 else n)

module _ (c : Setup) where
  -- The end of handle_peer_cache_entries_recv: the cache, and whether it is sent to the host.
  abbrev pub entries_done : GroupState → Result (GroupCache × ℕ) → Result GroupState
  entries_done s (ok r) = ok (record s {
    cache = r.0;
    host_sends =
        if sends_to_host c.engine c.num_service_procs_per_dpu r.0 r.1
        then s.host_sends + 1
        else s.host_sends;
  })
  entries_done s (err none) = err (some s)
  entries_done s (err (some r)) = err (some (record s { cache = r.0 }))
  entries_done s fault = fault

  -- handle_peer_cache_entries_recv, the group cache found or created.
  unfoldable pub handle_entries : GroupState → List Entry → Result GroupState
  handle_entries s [] = fault
  handle_entries s (e ∷ es) = get_group_cache s e.group_size >>= λ s1.
      need (learn_group_size c.engine s1 e.group_size) >>= λ s2.
      entries_done s2 (receive_entries c.engine e.group_size s2.cache (e ∷ es))

  -- HANDLE_PENDING_CACHE_ENTRIES over the messages that wait, the first taken off each time. After an
  -- error the rest still waits.
  unfoldable pub handle_waiting : GroupState → List (List Entry) → Result GroupState
  handle_waiting s [] = ok s
  handle_waiting s (m ∷ ms) =
      and_then
        (handle_entries
          (record s { pending_recv_cache_entries = behind s.pending_recv_cache_entries }) m)
        λ s'. handle_waiting s' ms

  abbrev pub handle_pending_entries : GroupState → Result GroupState
  handle_pending_entries s = handle_waiting s s.pending_recv_cache_entries

  -- peer_cache_entries_recv_cb
  unfoldable pub peer_cache_entries_recv_cb : GroupState → List Entry → Result GroupState
  peer_cache_entries_recv_cb s [] = fault
  peer_cache_entries_recv_cb s (e ∷ es) = get_group_cache s e.group_size >>= λ s1.
      check (leb s1.cache.num e.peer.group_seq_num) (
        is_group_ready s1.cache.num s1.cache.num_local_entries s1.n_local_ranks_populated
          e.peer.group_seq_num
        >>= λ ready.
            if ltb 0 s1.cache.global_revokes || not ready
            then ok (record s1 {
              pending_recv_cache_entries = s1.pending_recv_cache_entries ++ ((e ∷ es) ∷ []);
            })
            else handle_entries s1 (e ∷ es))

  -- GROUP_CACHE_EXCHANGE, with the ranks of the service process as the number of local ranks: is the
  -- group cache broadcast.
  abbrev pub exchanges : GroupState → Bool
  exchanges s =
      if c.num_groups == 1
      then ltb 0 s.cache.n_local_ranks
        && (s.n_local_ranks_populated
            == get_num_connecting_ranks c.num_service_procs_per_dpu s.sp_ranks c.local_id)
      else s.sp_ranks == s.n_local_ranks_populated

  -- The counter of the ranks that the service process serves, once a message came in.
  abbrev pub expected_ranks : List Peer → GroupState → AddMsg → Option ℕ
  expected_ranks world s msg =
      if s.sp_ranks == 0 then count_on_sp c.engine world msg.world_ranks else some s.sp_ranks

  -- The body of do_add_group_rank_recv_cb for a rank that is not in the cache.
  unfoldable pub add_rank : List Peer → GroupState → AddMsg → ℕ → Result GroupState
  add_rank world s msg rank =
      let gp = s.cache in
      let peer : Peer = record {
        is_set = true;
        group_rank = rank;
        group_seq_num = msg.group_seq_num;
        host_info = msg.host_info;
        shadow_service_procs = c.engine.local_global_id ∷ [];
      } in
      need (expected_ranks world s msg) >>= λ sp_ranks.
      need (
        update_topology_data c.engine gp.group_uid gp.group_size gp.topology rank
          c.engine.local_global_id c.engine.local_host_uid)
      >>= λ t. ok (record s {
        cache = record gp {
          num = next_num gp;
          n_local_ranks = elim msg.n_local_ranks [
            | none ↦ gp.n_local_ranks
            | some n ↦ if gp.n_local_ranks == 0 then n else gp.n_local_ranks
          ];
          num_local_entries = gp.num_local_entries + 1;
          ranks = set gp.ranks rank peer;
          topology = t;
        };
        n_local_ranks_populated = s.n_local_ranks_populated + 1;
        sp_ranks = sp_ranks;
      })

  -- do_add_group_rank_recv_cb for a group that is not being revoked.
  unfoldable pub add_group_rank : List Peer → GroupState → AddMsg → ℕ → Result GroupState
  add_group_rank world s msg rank = need (learn_group_size c.engine s msg.group_size) >>= λ s1.
      need (get_elem? s1.cache.ranks rank) >>= λ old.
      (if old.is_set then ok s1 else add_rank world s1 msg rank) >>= λ s2.
      and_then (handle_pending_entries s2) λ s3.
        ok (record s3 { broadcasts = if exchanges s3 then s3.broadcasts + 1 else s3.broadcasts })

  -- do_add_group_rank_recv_cb
  unfoldable pub do_add_group_rank_recv_cb : List Peer → GroupLife → AddMsg → Result GroupLife
  do_add_group_rank_recv_cb world l msg = check (not (msg.group_seq_num == 0)) (elim msg.group_uid [
    | none ↦ ok l
    | some uid ↦ elim msg.group_rank [
      | none ↦ ok l
      | some rank ↦ get_group_cache l.state msg.group_size >>= λ s.
          check (leb s.cache.num msg.group_seq_num) (
            if ltb 0 s.cache.global_revokes
            then ok (record {
              state = s;
              pending_group_add_msgs = l.pending_group_add_msgs ++ (msg ∷ []);
            })
            else map_result (λ s'. record l { state = s' }) (add_group_rank world s msg rank))
    ]
  ])

  -- handle_pending_group_cache_add_msgs over the messages that wait, the first taken off each time.
  -- After an error the rest still waits.
  unfoldable pub add_waiting : List Peer → GroupLife → List AddMsg → Result GroupLife
  add_waiting world l [] = ok l
  add_waiting world l (msg ∷ msgs) =
      and_then
        (do_add_group_rank_recv_cb world
          (record l { pending_group_add_msgs = behind l.pending_group_add_msgs }) msg)
        λ l'. add_waiting world l' msgs

  -- handle_pending_group_cache_add_msgs
  abbrev pub handle_pending_group_cache_add_msgs : List Peer → GroupLife → Result GroupLife
  handle_pending_group_cache_add_msgs world l =
      check l.state.engine_set (add_waiting world l l.pending_group_add_msgs)

  -- The call of the handler of MIMOSA_GROUP_REVOKE_EVENT_ID, if there is one. What it returns is
  -- printed at most.
  abbrev pub notify_revoke : GroupState → GroupState
  notify_revoke s = record s {
    revoke_events = if c.revoke_handler then s.revoke_events + 1 else s.revoke_events;
  }

  -- revoke_group_cache
  unfoldable pub revoke_group_cache : GroupState → Result GroupState
  revoke_group_cache s = revoke_group s >>= λ s1. handle_pending_entries (notify_revoke s1)

  -- revoke_send_to_host_cb, up to the pending messages that add ranks.
  unfoldable pub revoke_completes : GroupState → Result GroupState
  revoke_completes s =
      printed (revoke_group_cache (record s { revoke_sent_to_host = s.revoke_send_to_host_posted }))
      >>= λ s1. ok (record s1 { engine_set = true })

  -- revoke_send_to_host_cb
  unfoldable pub revoke_send_to_host_cb : List Peer → GroupLife → Result GroupLife
  revoke_send_to_host_cb world l = check l.state.engine_set (
      revoke_completes l.state >>= λ s.
      printed (handle_pending_group_cache_add_msgs world (record l { state = s })))
