-- ===== src/Examples/Events.antt =====
-- Events at concrete inputs: a pool of two events of 264 bytes, the first at 1000.
use dpu_offload_service.Prelude.{
  ℕ, ◌≡◌, refl, Bool, true, false, Option, none, some, List, [], ◌∷◌, set, replicate, inl, inr,
  Bool-cases, ◌==◌, if◌then◌else◌, arith,
}
use mathlib.Core.Path.{subst}
use dpu_offload_service.Prelude.Result.{ok}
use dpu_offload_service.Size.{add_size, mul_size, sub_size}
use dpu_offload_service.DynArray
use dpu_offload_service.Ucs.{plain_list}
use dpu_offload_service.SimpleList.{init, is_empty, prepend, extract_first}
use dpu_offload_service.DynList.{
  DynList, zero_chunk, add_elements, add_block, init_element, give_back,
}
use dpu_offload_service.DynList
use dpu_offload_service.DynList.Pool.{IsPool}
use dpu_offload_service.DynList.Histories.{Use, gets}
use dpu_offload_service.Notifications.{no_info}
use dpu_offload_service.Events.{
  Event, EventSystem, Effect, event_return, do_event_return, release_payload, event_completed,
}
use dpu_offload_service.Events.Returned.{IsSubevent, Counts}
use dpu_offload_service.Events.Sweep.{IsList}
use dpu_offload_service.Events.Completed.{Checked, event_completed-Checked}
use dpu_offload_service.Events.Histories.{Running, Step, here, next, returns, Reach-Counts}

abbrev pub has_room : ℕ → Bool
has_room bytes = true

-- An event that belongs to the system and is not sent.
abbrev pub idle_event : Event (List ℕ)
idle_event = record {
  seq_num = 0;
  complete = false;
  completion_cb = none;
  completion_cb_ctx = none;
  hdr_id = 0;
  hdr_type = 3;
  hdr_payload_size = 0;
  sender_type = 0;
  hdr_seq_num = 0;
  hdr_client_id = 0;
  hdr_server_id = 0;
  hdr_scope_id = 0;
  client_id = 0;
  server_id = 0;
  user_context = none;
  scope_id = 0;
  sub_events = [];
  sub_events_initialized = false;
  is_subevent = false;
  is_ongoing_event = false;
  was_posted = false;
  req = none;
  context = none;
  explicit_return = false;
  manage_payload_buf = false;
  payload = none;
  dest_ep = none;
  dest_id = 0;
  event_system = some 5;
  info = no_info;
}

abbrev idle_events : ℕ → Event (List ℕ)
idle_events q = idle_event

abbrev pub event_pool : List ℕ → ℕ → DynList (List ℕ) (Event (List ℕ))
event_pool free n = record {
  capacity = 2;
  allocation_size = 2;
  list = record { internal_list = free; length = n };
  element_init_cb = none;
  num_mem_chunks = 1;
  mem_chunks = record {
    base = set (replicate 1024 zero_chunk) 0 (record { size = 528; ptr = 1000 });
    capacity = 1024;
    allocation_size = 1024;
    type_size = 16;
    element_init_fn = none;
  };
}

abbrev pub events_now : ℕ → Event (List ℕ)
events_now = init_element none 1264 (init_element none 1000 idle_events)

event_pool_run :
    DynList.alloc plain_list 264 has_room none true (some 1000) idle_events 2
    ≡ some (some (event_pool (1264 ∷ 1000 ∷ []) 2, events_now))
unfolding DynList.alloc DynList.grow add_elements add_block prepend init add_size mul_size sub_size
    DynArray.alloc DynArray.get_elt init_element
event_pool_run = refl

abbrev pub pool_use : List ℕ → ℕ → List ℕ → Use plain_list (Event (List ℕ)) 264 has_room
pool_use free n lent = record { list = event_pool free n; mem = events_now; lent = lent }

pub take_meta :
    DynList.Histories.Step plain_list
      (Event (List ℕ))
      264
      has_room
      (pool_use (1264 ∷ 1000 ∷ []) 2 [])
      (pool_use (1000 ∷ []) 1 (1264 ∷ []))
unfolding DynList.get is_empty extract_first sub_size
take_meta =
    gets (pool_use (1264 ∷ 1000 ∷ []) 2 []) none (1264, event_pool (1000 ∷ []) 1, events_now)
      (λ e. absurd cc) refl

take_sub :
    DynList.Histories.Step plain_list
      (Event (List ℕ))
      264
      has_room
      (pool_use (1000 ∷ []) 1 (1264 ∷ []))
      (pool_use [] 0 (1000 ∷ 1264 ∷ []))
unfolding DynList.get is_empty extract_first sub_size
take_sub =
    gets (pool_use (1000 ∷ []) 1 (1264 ∷ [])) none (1000, event_pool [] 0, events_now)
      (λ e. absurd cc) refl

pub reached-IsPool :
    (t : Use plain_list (Event (List ℕ)) 264 has_room)
    → DynList.Histories.Reach plain_list
        (Event (List ℕ))
        264
        has_room
        (pool_use (1264 ∷ 1000 ∷ []) 2 [])
        t
    → IsPool plain_list 264 t.list t.lent
reached-IsPool t path =
    DynList.Histories.Reach-IsPool plain_list (Event (List ℕ)) 264 has_room (omega arith)
      (λ b. refl) none 2 1000 idle_events (event_pool (1264 ∷ 1000 ∷ []) 2, events_now)
      (omega arith) (omega arith) (omega arith) event_pool_run path

-- A meta event at 1264 with one sub-event at 1000, which is complete.
abbrev meta_events : Option ℕ → ℕ → Event (List ℕ)
meta_events req q =
    if 1264 == q
    then record idle_event { hdr_type = 32; sub_events_initialized = true; sub_events = 1000 ∷ [] }
    else record idle_event { is_subevent = true; complete = true; req = req }

abbrev meta_system : Option ℕ → EventSystem (List ℕ)
meta_system req = record {
  address = 5;
  scope_id = 0;
  econtext_type = 1;
  free_evs = event_pool [] 0;
  num_used_evs = 2;
  seq_num = 2;
  events = meta_events req;
}

meta_system-Counts : Counts plain_list (meta_system none) (1000 ∷ 1264 ∷ [])
meta_system-Counts = record {
  pool =
      reached-IsPool (pool_use [] 0 (1000 ∷ 1264 ∷ []))
        (DynList.Histories.next (DynList.Histories.next DynList.Histories.here take_meta) take_sub);
  used = refl;
}

sub_event-IsSubevent : IsSubevent plain_list (meta_events none 1000)
sub_event-IsSubevent = record {
  marked = refl;
  attached = refl;
  idle = refl;
  typed = refl;
  closed = refl;
}

meta_system-IsList : IsList plain_list 1264 [] (1000 ∷ []) (1000 ∷ 1264 ∷ []) (meta_system none)
meta_system-IsList = record {
  listed = refl;
  once = λ q. ground arith;
  proper = refl;
  sub = λ q h. elim (Bool-cases (1000 == q)) [
    | inl same ↦
        let at : 1000 ≡ q = ground arith in
        subst (λ (x : ℕ). IsSubevent plain_list (meta_events none x)) at sub_event-IsSubevent
    | inr other ↦ absurd (ground arith)
  ];
  out = λ q. ground arith;
}

event_completed-Checked_example :
    (answer : Bool) × (s' : EventSystem (List ℕ)) × (effects : List Effect) × (event_completed
        plain_list
        (meta_system none)
        1264
      ≡ ok (answer, s', effects))
    × Checked plain_list 1264 (1000 ∷ 1264 ∷ []) (meta_system none) s' answer
event_completed-Checked_example =
    event_completed-Checked plain_list (meta_system none) 1264 (1000 ∷ 1264 ∷ []) refl refl refl
      meta_system-IsList meta_system-Counts

abbrev no_buffer : ℕ → ℕ → Option ℕ → Option ℕ
no_buffer f pool args = none

abbrev has_buffer : ℕ → Option ℕ
has_buffer bytes = some 9000

abbrev now : Running plain_list has_room (λ b. refl) no_buffer has_buffer
now = record { sys = meta_system none; lent = 1000 ∷ 1264 ∷ [] }

abbrev after_return : EventSystem (List ℕ)
after_return = record (meta_system none) {
  events = λ q. if 1000 == q then meta_events none 1000 else meta_events none q;
  num_used_evs = 1;
  free_evs = event_pool (1000 ∷ []) 1;
}

return_first :
    Step plain_list has_room
      (λ b. refl)
      no_buffer
      has_buffer
      now
      (record { sys = after_return; lent = 1264 ∷ [] })
unfolding event_return do_event_return release_payload give_back prepend sub_size add_size
return_first = returns now 1000 [] (1264 ∷ []) after_return [] refl refl

Reach-Counts_example : Counts plain_list after_return (1264 ∷ [])
Reach-Counts_example =
    Reach-Counts plain_list has_room (λ b. refl) no_buffer has_buffer now meta_system-Counts
      (omega arith) (next here return_first)
