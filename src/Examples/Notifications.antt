-- ===== src/Examples/Notifications.antt =====
-- An event system at concrete inputs: a notification of type 1 arrives before its handler.
use dpu_offload_service.Prelude.{
  ℕ, ◌≡◌, refl, Bool, true, none, some, List, [], ◌∷◌, ◌++◌, set, replicate, map, arith,
}
use dpu_offload_service.Prelude.Result.{ok}
use dpu_offload_service.Size.{add_size, mul_size, sub_size}
use dpu_offload_service.DynArray
use dpu_offload_service.Ucs.{plain_list}
use dpu_offload_service.SimpleList.{init, is_empty, prepend, extract_first}
use dpu_offload_service.DynList.{DynList, zero_chunk, add_elements, add_block, init_element}
use dpu_offload_service.DynList
use dpu_offload_service.DynList.Pool.{IsPool}
use dpu_offload_service.DynList.Calls.{Granted}
use dpu_offload_service.DynList.Histories
use dpu_offload_service.Notifications.{
  EvSys, reset_entry, PendingNotif, Call, AmHeader, Econtext, no_info, new_pending, copy,
  callback_entry, keep_pending, handle_notif_msg, event_channel_register, deliver_pending, update,
  freed, pending_call,
}
use dpu_offload_service.Notifications.Pending.{call_message}
use dpu_offload_service.Notifications.Calls.{IsReady, waiting, Registered, register-Registered}
use dpu_offload_service.Notifications.Receive.{arriving}
use dpu_offload_service.Notifications.Histories.{
  History, receives, registers, Reach, here, next, start, of_type, tag, Reach-in_order,
  Reach-delivered,
}

abbrev plenty : ℕ → Bool
plenty bytes = true

abbrev header : AmHeader
header = record { id = 3; notif_type = 1; payload_size = 2; bytes = 3 ∷ 1 ∷ 2 ∷ [] }

abbrev pub context : Econtext
context = record { address = 40; ev_sys = some 5 }

abbrev raw_objects : ℕ → PendingNotif
raw_objects q = new_pending 0 header 0 0

abbrev objects_pool : DynList (List ℕ) PendingNotif
objects_pool = record {
  capacity = 2;
  allocation_size = 2;
  list = record { internal_list = 1072 ∷ 1000 ∷ []; length = 2 };
  element_init_cb = none;
  num_mem_chunks = 1;
  mem_chunks = record {
    base = set (replicate 1024 zero_chunk) 0 (record { size = 144; ptr = 1000 });
    capacity = 1024;
    allocation_size = 1024;
    type_size = 16;
    element_init_fn = none;
  };
}

abbrev objects_now : ℕ → PendingNotif
objects_now = init_element none 1072 (init_element none 1000 raw_objects)

objects_pool_run :
    DynList.alloc plain_list 72 plenty none true (some 1000) raw_objects 2
    ≡ some (some (objects_pool, objects_now))
unfolding DynList.alloc DynList.grow add_elements add_block prepend init add_size mul_size sub_size
    DynArray.alloc DynArray.get_elt init_element
objects_pool_run = refl

objects_pool-IsPool : IsPool plain_list 72 objects_pool []
objects_pool-IsPool =
    DynList.Histories.Reach-IsPool plain_list PendingNotif 72 plenty (omega arith) (λ b. refl) none
      2 1000 raw_objects (objects_pool, objects_now) (omega arith) (omega arith) (omega arith)
      objects_pool_run DynList.Histories.here

abbrev pub system : EvSys (List ℕ)
system = record {
  address = 5;
  notification_callbacks = record {
    base = reset_entry ∷ reset_entry ∷ [];
    capacity = 2;
    allocation_size = 2;
    type_size = 64;
    element_init_fn = none;
  };
  pending_notifications = [];
  free_pending_notifications = objects_pool;
  objects = objects_now;
}

system-IsReady : IsReady plain_list system []
system-IsReady = record {
  pool = objects_pool-IsPool;
  step = omega arith;
  plain = refl;
  waits = λ q. omega arith;
  array = record {
    full = refl;
    some_room = omega arith;
    step = omega arith;
    sized = omega arith;
    small = omega arith;
    plain = refl;
  };
}

register-Registered_example :
    (s' : EvSys (List ℕ)) × (calls : List Call) × (event_channel_register plain_list plenty
        (some system)
        1
        (some 9)
        none
      ≡ ok (s', calls))
    × Registered plain_list system s' 1 9
        (record { is_set = true; ev_sys = some 5; cb = some 9; info = no_info })
        calls
        []
register-Registered_example =
    register-Registered plain_list plenty (λ b. refl) system [] 1 9 none system-IsReady
      (omega arith) refl

-- The notification waits.
abbrev kept_system : EvSys (List ℕ)
kept_system = record system {
  pending_notifications = 1072 ∷ [];
  free_pending_notifications = record objects_pool {
    list = record { internal_list = 1000 ∷ []; length = 1 };
  };
  objects = update objects_now 1072 (record (new_pending 40 header 3 2) {
    payload = some (7 ∷ 8 ∷ []);
    header = some (3 ∷ 1 ∷ 2 ∷ []);
  });
}

kept_run :
    handle_notif_msg plain_list plenty system none context header 3 (some (7 ∷ 8 ∷ [])) 2
    ≡ ok (kept_system, [])
unfolding handle_notif_msg callback_entry keep_pending copy DynArray.get_elt DynList.get is_empty
    extract_first sub_size
kept_run = refl

-- A handler comes, and is told.
abbrev told_system : EvSys (List ℕ)
told_system = record kept_system {
  notification_callbacks = record system.notification_callbacks {
    base =
        reset_entry ∷ record { is_set = true; ev_sys = some 5; cb = some 9; info = no_info } ∷ [];
  };
  pending_notifications = [];
  objects = update kept_system.objects 1072 (freed (kept_system.objects 1072));
}

abbrev told_calls : List Call
told_calls = pending_call 9 (some 5) (kept_system.objects 1072) ∷ []

told_run :
    event_channel_register plain_list plenty (some kept_system) 1 (some 9) none
    ≡ ok (told_system, told_calls)
unfolding event_channel_register callback_entry deliver_pending DynArray.get_elt
told_run = refl

system-Granted : Granted plain_list 72 objects_pool none
unfolding is_empty
system-Granted = λ e. absurd cc

abbrev last_history : History plain_list plenty
last_history = record {
  sys = told_system;
  arrived = [] ++ tag 1 (arriving context header 3 (some (7 ∷ 8 ∷ [])) 2 ∷ []);
  told = ([] ++ []) ++ tag 1 (map call_message told_calls);
}

history_path : Reach plain_list plenty (start plain_list plenty system) last_history
history_path =
    next
      (next here (
        receives (start plain_list plenty system) none context header 3 (some (7 ∷ 8 ∷ [])) 2
          kept_system [] system-Granted (omega arith) kept_run))
      (registers _ 1 9 none told_system told_calls (omega arith) told_run)

Reach-in_order_example :
    of_type 1 last_history.arrived ≡ of_type 1 last_history.told ++ waiting plain_list told_system 1
Reach-in_order_example =
    Reach-in_order plain_list plenty (λ b. refl) system [] system-IsReady refl history_path 1

Reach-delivered_example : of_type 1 last_history.told ≡ of_type 1 last_history.arrived
Reach-delivered_example =
    Reach-delivered plain_list plenty (λ b. refl) system [] system-IsReady refl history_path 1 refl
