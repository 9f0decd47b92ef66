-- ===== src/Examples/Lives.antt =====
-- The life of a group at concrete inputs: a group of two ranks that service process 0 serves.
use dpu_offload_service.Prelude.{ℕ, ◌≡◌, refl, true, some, List, [], ◌∷◌, arith}
use dpu_offload_service.Prelude.Result.{Result, ok, fault, ◌>>=◌}
use dpu_offload_service.Bitset.{create, set_bit, test}
use dpu_offload_service.Hash.{lookup, put}
use dpu_offload_service.Group.{Peer}
use dpu_offload_service.Group.Update.{no_topology, update_topology_data}
use dpu_offload_service.Group.Life.{
  Setup, GroupState, AddMsg, GroupLife, get_group_cache, group_populated, learn_group_size,
  handle_waiting, count_on_sp, add_rank, add_group_rank, do_add_group_rank_recv_cb, revoke_group,
  revoke_group_cache, revoke_completes, add_waiting, revoke_send_to_host_cb,
}
use dpu_offload_service.Group.Life.Versions.{IsInUse, IsUsable, query_after_revoke-faults}
use dpu_offload_service.Group.Life.Waiting.{AreUsable, add_all, revoke_send_to_host_cb-add_all}
use dpu_offload_service.Group.Life.Goes.{OurMessages}
use dpu_offload_service.Examples.Data.{engine1}

abbrev setup : Setup
setup = record {
  engine = engine1;
  num_service_procs_per_dpu = 1;
  local_id = 0;
  num_groups = 2;
  revoke_handler = true;
}

abbrev served : ℕ → Peer
served rank = record {
  is_set = true;
  group_rank = rank;
  group_seq_num = 1;
  host_info = 42;
  shadow_service_procs = 0 ∷ [];
}

-- The group of all ranks, of which two are served here.
abbrev world : List Peer
world = served 0 ∷ served 1 ∷ []

-- The first version of the group, complete, and the given number of revokes counted.
abbrev first_version : ℕ → GroupState
first_version revokes = record {
  cache = record {
    group_uid = 7;
    group_size = 2;
    num = 1;
    n_local_ranks = 2;
    num_local_entries = 2;
    global_revokes = revokes;
    ranks = world;
    topology = no_topology;
  };
  known = true;
  engine_set = true;
  n_local_ranks_populated = 2;
  sp_ranks = 2;
  local_revokes = 2;
  marks = some (3 ∷ []);
  revoke_send_to_host_posted = 1;
  revoke_sent_to_host = 0;
  pending_recv_cache_entries = [];
  broadcasts = 1;
  host_sends = 0;
  revoke_events = 0;
}

abbrev add_of : ℕ → AddMsg
add_of rank = record {
  group_uid = some 7;
  group_rank = some rank;
  group_size = 2;
  group_seq_num = 2;
  n_local_ranks = some 2;
  host_info = 42;
  world_ranks = 0 ∷ 1 ∷ [];
}

add_of-IsUsable : (rank : ℕ) → IsUsable 1 (add_of rank) 7 rank
add_of-IsUsable rank = record {
  names_group = refl;
  names_rank = refl;
  numbered = omega arith;
  not_behind = omega arith;
}

adds-AreUsable : AreUsable 1 (add_of 0 ∷ add_of 1 ∷ [])
adds-AreUsable =
    AreUsable.a_message (add_of 0) 7 0 (add_of-IsUsable 0)
      (AreUsable.a_message (add_of 1) 7 1 (add_of-IsUsable 1) AreUsable.no_message)

first_version-IsInUse : IsInUse (first_version 0)
first_version-IsInUse = record {
  known = refl;
  engine_set = refl;
  some_ranks = omega arith;
  room = omega arith;
  none_wait = refl;
}

query_after_revoke-faults_example :
    (s' : GroupState) × (s'' : GroupState) × (revoke_group_cache setup (first_version 0) ≡ ok s')
    × (group_populated s' ≡ ok (s'', true))
    × ((world : List Peer) (msg : AddMsg) (uid rank : ℕ)
        → IsUsable 1 msg uid rank
        → do_add_group_rank_recv_cb setup world
            (record { state = s''; pending_group_add_msgs = [] })
            msg
          ≡ fault)
query_after_revoke-faults_example =
    query_after_revoke-faults setup (first_version 0) first_version-IsInUse

revoke_send_to_host_cb-add_all_example :
    (add_all setup world
        (record { state = first_version 2; pending_group_add_msgs = [] })
        (add_of 0 ∷ add_of 1 ∷ [])
      >>= λ l. revoke_send_to_host_cb setup world l)
    ≡ (revoke_send_to_host_cb setup world
          (record { state = first_version 2; pending_group_add_msgs = [] })
        >>= λ l. add_all setup world l (add_of 0 ∷ add_of 1 ∷ []))
revoke_send_to_host_cb-add_all_example =
    revoke_send_to_host_cb-add_all setup world (first_version 2) (add_of 0 ∷ add_of 1 ∷ []) refl
      refl OurMessages.no_message (omega arith) adds-AreUsable

-- How many ranks the second version has, how often it was broadcast, and its number.
abbrev outcome : Result GroupLife → Result (ℕ × ℕ × ℕ)
outcome r = r >>= λ l. ok (l.state.cache.num_local_entries, l.state.broadcasts, l.state.cache.num)

-- Both messages come in while the group is being revoked, and then the callback.
second_version :
    outcome (
      add_all setup world
        (record { state = first_version 2; pending_group_add_msgs = [] })
        (add_of 0 ∷ add_of 1 ∷ [])
      >>= λ l. revoke_send_to_host_cb setup world l)
    ≡ ok (2, 2, 2)
unfolding add_all revoke_send_to_host_cb do_add_group_rank_recv_cb get_group_cache revoke_completes
    revoke_group_cache revoke_group handle_waiting add_waiting add_group_rank learn_group_size
    add_rank count_on_sp create update_topology_data lookup set_bit put test
second_version = refl
