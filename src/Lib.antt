-- ===== src/Lib.antt =====
-- The core of the DPU offload service library: how a group (a communicator) is described to service
-- processes and hosts, and the data structures that this rests on.
--
-- The program. Service processes (SPs) run on DPUs and serve the ranks of hosts. For every group of
-- ranks a process keeps a group cache. A cache entry tells which rank runs on which host and which
-- SPs serve it; entries arrive from other SPs and are added to the cache, and each addition updates
-- the topology of the group: a hash of SPs, a hash of hosts, and bitsets with counters beside them.
-- Once the group is complete, tables are made from the bitsets, and the queries that the users of the
-- library call read the tables. Messages arrive as notifications: a type of notification has at most
-- one handler, and what arrives before its handler waits.
--
-- Which file models what.
--   Bitset.antt: the macros GROUP_CACHE_BITSET_* of include/dpu_offload_types.h. A bitset is a list
--     of bytes; a read or write outside of it is `none`. alloc_bitset is GROUP_CACHE_BITSET_CREATE with
--     what calloc answers, create its case of granted memory, which the other files use.
--   DynArray.antt: dyn_array_t and the DYN_ARRAY_* macros of include/dynamic_structs.h. The memory is a
--     list of elements; whether an allocation of a given number of bytes succeeds is a parameter. The
--     loop that looks for the new capacity takes the index plus one as fuel.
--   Ucs.antt: the linked lists of UCX, an interface that the lists below take as a parameter.
--   SimpleList.antt, DynList.antt: simple_list_t and dyn_list_t with their macros, of the same header.
--     Elements are addresses; what malloc answers is an argument of each call. DynList/Pool.antt says
--     what holds between calls, DynList/Histories.antt has the histories of calls.
--   SmartBuffers.antt: SMART_BUFF_GET, SMART_BUFF_RETURN and SMART_BUFFS_GROW_BUCKET of the same header,
--     pools as lists. The block that malloc grants and the descriptors from their pool are arguments.
--   Notifications.antt: handle_notif_msg of src/dpu_offload_comms.h, and the registration, update and
--     deregistration of handlers of src/dpu_offload_event_channels.c. The invocation of a callback is
--     part of the result of a call. Notifications/Histories.antt has the histories of calls.
--   Events.antt: event_get, event_return and event_completed of src/dpu_offload_event_channels.c, with
--     QUEUE_SUBEVENT and COMPLETE_EVENT of include/dpu_offload_event_channels.h, for the build with
--     active messages. What is freed or called is part of the result. Events/Histories.antt has the
--     histories of calls.
--   Events/Emit.antt: event_channel_emit, event_channel_emit_with_payload and what they call in the same
--     file, PROGRESS_EVENT_SEND and progress_econtext_sends of src/dpu_offload_comms.h, and
--     QUEUE_EVENT. What the n-th send answers is a parameter. Events/Emit/Progress.antt says what holds
--     of the ongoing events between calls.
--   Tag.antt: MAKE_TAG and MAKE_RECV_TAG of src/dpu_offload_comms.h.
--   Size.antt: arithmetic on size_t and uint64_t, which wraps.
--   Hash.antt: what the code uses of khash, as association lists.
--   Group.antt: sp_cache_data_t, host_cache_data_t, peer_cache_entry_t and group_cache_t of
--     include/dpu_offload_types.h. A pointer into an array is the index of the element, a pointer to
--     an entry of a hash its key.
--   Group/Update.antt: update_topology_data of src/dpu_offload_group_cache.c.
--   Group/Tables.antt: populate_sp_ranks, populate_host_sps and
--     do_populate_group_cache_lookup_table of the same file. The loops take the number of bits in the
--     bitset as fuel: one more round would read outside of it.
--   Group/Query.antt: the queries by the index of a host or of an SP, under their names.
--   Group/Peers.antt: the queries on the array of ranks, under their names.
--   Group/Receive.antt: handle_peer_cache_entries_recv.
--   Group/Life.antt: the versions of one group: GET_GROUP_CACHE_INTERNAL, GET_GROUP_RANK_CACHE_ENTRY,
--     INIT_GROUP_CACHE and RESET_GROUP_CACHE of include/dpu_offload_types.h, do_add_group_rank_recv_cb,
--     peer_cache_entries_recv_cb, handle_pending_group_cache_add_msgs and revoke_send_to_host_cb of
--     src/dpu_offload_event_channels.c, revoke_group_cache and group_cache_populated of
--     src/dpu_offload_group_cache.c. Broadcasts of the cache are counted, and so are the calls of the
--     handler of revoke events, which does not change the cache. An error keeps the state in which the
--     code leaves off, and an error that the code only prints ends nothing.
--   Group/Revoke.antt: handle_revoke_group_rank_through_rank_info and, on a DPU,
--     handle_revoke_group_rank_through_list_ranks of src/dpu_offload_event_channels.c, and
--     HANDLE_PENDING_GROUP_REVOKE_MSGS_FROM_SPS of include/dpu_offload_group_cache.h. What they send
--     is part of their result.
--   Group/Revoke/Send.antt: send_local_revoke_rank_group_cache of src/dpu_offload_utils.c. The loop over
--     messages takes the group's size as fuel: every message tells of a rank at least.
--   Utils.antt: get_num_connecting_ranks of src/dpu_offload_utils.c and is_group_ready of
--     src/dpu_offload_event_channels.c.
--   Utils/Ranges.antt: find_range_local_ranks and the loop of send_local_rank_group_cache of
--     src/dpu_offload_utils.c. The latter takes fuel: one round for each rank of the service process.
--   Utils/Pack.antt: get_list_sps_packed_size, pack_data_sps and unpack_data_sps of
--     src/dpu_offload_utils.c, on bytes. sizeof(service_proc_t) is a parameter.
--   Examples: concrete inputs for the theorems.
-- A function that returns a dpu_offload_status_t has a `Result` (Prelude/Result.antt): success, error,
-- or a fault, which is a failed assert, a NULL pointer that is read or an access out of bounds. The
-- asserts are those of a build without NDEBUG.
--
-- Not modelled: the network (UCX), the daemons, the exchange of messages at bootstrapping, memory
-- registration across GVMI, the parser of the configuration, the start and the end of event channels
-- and of smart buffer systems, the first entry of a group in the hash of groups, and what a host does
-- with a final revoke. What a configuration guarantees is the hypothesis IsConfig.
pub mod SmartBuffers
pub mod Events
pub mod Notifications
pub mod DynList
pub mod SimpleList
pub mod Ucs
pub mod Prelude
pub mod Bitset
pub mod Size
pub mod DynArray
pub mod Tag
pub mod Hash
pub mod Group
pub mod Utils
pub mod Examples
