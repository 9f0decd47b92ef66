-- ===== src/Examples/Groups.antt =====
-- The theorems on the topology of a group, on concrete inputs.
use dpu_offload_service.Prelude.{◌+◌, ◌≡◌, refl, none, some, [], ◌∷◌, arith}
use dpu_offload_service.Prelude.Result.{ok}
use dpu_offload_service.Bitset.Laws.{has}
use dpu_offload_service.Hash.{lookup}
use dpu_offload_service.Group.{HostData, Topology, GroupCache}
use dpu_offload_service.Group.Update.{no_topology, update_topology_data}
use dpu_offload_service.Group.Update.Invariant.{popcount}
use dpu_offload_service.Group.Update.Step.{
  IsConsistent, Attached, no_topology-IsConsistent, update_topology_data-Attached,
}
use dpu_offload_service.Group.Update.Faults.{
  update_topology_data-past, update_topology_data-overcounts,
}
use dpu_offload_service.Group.Tables.{do_populate_group_cache_lookup_table}
use dpu_offload_service.Group.Tables.Populated.{Populated, do_populate-Populated}
use dpu_offload_service.Group.Receive.{Entry, receive_entry, receive_entries}
use dpu_offload_service.Group.Receive.Laws.{
  IsGroup, IsNews, receive_entry-IsGroup, IsCached, receive_entries-twice,
}
use dpu_offload_service.Examples.Data.{
  engine1, engine1-IsConfig, host42, topology1, topology1-IsConsistent, peer1, unset, group_of,
}

update_topology_data-Attached_example :
    (t' : Topology) × (update_topology_data engine1 7 4 topology1 2 0 42 ≡ some t')
    × IsConsistent engine1 4 t'
    × Attached topology1 2 0 42 t'
unfolding lookup has
update_topology_data-Attached_example =
    update_topology_data-Attached engine1 7 4 engine1-IsConfig topology1 2 0 42 0
      topology1-IsConsistent (omega arith) (omega arith) refl refl refl

update_topology_data-past_example : update_topology_data engine1 7 4 no_topology 1 12 42 ≡ none
update_topology_data-past_example =
    update_topology_data-past engine1 7 4 1 12 42 (omega arith) (omega arith)

update_topology_data-overcounts_example :
    (t' : Topology) × (d' : HostData) × (update_topology_data engine1 7 4 topology1 1 1 42
      ≡ some t')
    × (lookup 42 t'.hosts_hash ≡ some d')
    × (d'.num_ranks ≡ popcount d'.ranks_bitset + 1)
unfolding lookup has
update_topology_data-overcounts_example =
    update_topology_data-overcounts engine1 7 4 engine1-IsConfig 1 1 42 topology1
      topology1-IsConsistent (omega arith) (omega arith) refl host42 refl refl

do_populate-Populated_example :
    (t' : Topology) × (do_populate_group_cache_lookup_table topology1 ≡ some t')
    × Populated topology1 t'
do_populate-Populated_example =
    do_populate-Populated engine1 4 topology1 topology1-IsConsistent refl (omega arith)
      (omega arith)

abbrev empty_group : GroupCache
empty_group = group_of 0 (unset ∷ unset ∷ unset ∷ unset ∷ []) no_topology

abbrev entry1 : Entry
entry1 = record { peer = record peer1 { group_seq_num = 2 }; group_uid = 7; group_size = 4 }

entry1-IsNews : IsNews engine1 empty_group entry1 0 0 unset
unfolding lookup
entry1-IsNews = record {
  same_uid = refl;
  same_size = refl;
  in_array = refl;
  not_set = refl;
  no_shadow = refl;
  one_shadow = refl;
  next = refl;
  used = omega arith;
  rank_in = omega arith;
  sp_in = omega arith;
  known = refl;
  off_sp = refl;
  off_host = refl;
}

empty_group-IsGroup : IsGroup engine1 empty_group
empty_group-IsGroup = record {
  consistent = no_topology-IsConsistent engine1 4;
  counted = refl;
  wide = omega arith;
}

receive_entry-IsGroup_example :
    (gp' : GroupCache) × (receive_entry engine1 4 empty_group entry1 ≡ ok (gp', 1))
    × IsGroup engine1 gp'
    × (gp'.num_local_entries ≡ 0 + 1)
    × (gp'.num ≡ 2)
    × Attached no_topology 1 0 42 gp'.topology
    × IsCached empty_group 1 gp'
receive_entry-IsGroup_example =
    receive_entry-IsGroup engine1 empty_group entry1 0 0 unset engine1-IsConfig empty_group-IsGroup
      entry1-IsNews

receive_entries-twice_example :
    receive_entries engine1 4 empty_group (entry1 ∷ entry1 ∷ [])
    ≡ receive_entries engine1 4 empty_group (entry1 ∷ [])
receive_entries-twice_example =
    receive_entries-twice engine1 empty_group entry1 0 0 unset engine1-IsConfig empty_group-IsGroup
      entry1-IsNews
