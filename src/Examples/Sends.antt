-- ===== src/Examples/Sends.antt =====
-- Sends at concrete inputs: a client with one event of its pool, at 1264.
use dpu_offload_service.Prelude.{ℕ, ◌≡◌, refl, true, some, List, [], ◌∷◌, arith}
use dpu_offload_service.Prelude.Result.{ok}
use dpu_offload_service.Prelude.Occurs.{occurs}
use dpu_offload_service.Ucs.{plain_list}
use dpu_offload_service.DynList
use dpu_offload_service.Events.{Event, Effect}
use dpu_offload_service.Events.Returned.{Counts}
use dpu_offload_service.Events.Emit.{
  Sent, posted, event_inprogress, Channel, notification_emit_cb, send_and_queue,
  progress_econtext_sends,
}
use dpu_offload_service.Events.Emit.Progress.{IsSending}
use dpu_offload_service.Events.Emit.Sweep.{Progressed, progress_econtext_sends-Progressed}
use dpu_offload_service.Events.Emit.Send.{CanSend, Outcome, send_and_queue-Outcome}
use dpu_offload_service.Events.Emit.Complete.{emit_completes}
use dpu_offload_service.Examples.Events.{
  idle_event, event_pool, pool_use, take_meta, reached-IsPool,
}
use dpu_offload_service.Examples.Notifications.{system, context}

-- UCX takes every send as a request.
abbrev slow_net : ℕ → Sent
slow_net n = posted 77

abbrev ready_event : Event (List ℕ)
ready_event = record idle_event { dest_ep = some 60; dest_id = 2 }

abbrev client : Channel (List ℕ)
client = record {
  sys = record {
    address = 5;
    scope_id = 0;
    econtext_type = 1;
    free_evs = event_pool (1000 ∷ []) 1;
    num_used_evs = 1;
    seq_num = 1;
    events = λ q. ready_event;
  };
  posted_sends = 0;
  ongoing_events = [];
  own_id = 2;
  client_server_id = 0;
  notifs = system;
  econtext = context;
  num_ev_sent = 0;
}

one_lent : Counts plain_list client.sys (1264 ∷ [])
one_lent = record {
  pool =
      reached-IsPool (pool_use (1000 ∷ []) 1 (1264 ∷ []))
        (DynList.Histories.next DynList.Histories.here take_meta);
  used = refl;
}

client-IsSending : IsSending plain_list client (1264 ∷ [])
client-IsSending = record {
  counts = one_lent;
  out = λ q. ground arith;
  each = λ q h. absurd (omega (arith, h));
  counted = refl;
}

client-CanSend : CanSend plain_list client 1264 (1264 ∷ [])
client-CanSend = record {
  sending = client-IsSending;
  ready = record {
    owner = 5;
    attached = refl;
    idle = refl;
    alone = refl;
    managed = refl;
    open_still = refl;
    typed = refl;
    plain = refl;
    destined = refl;
  };
  out = omega arith;
  not_listed = refl;
  ids = (2, 0);
  known = refl;
}

send_and_queue-Outcome_example : Outcome plain_list slow_net client 1264 (1264 ∷ []) (posted 77)
send_and_queue-Outcome_example =
    send_and_queue-Outcome plain_list slow_net client 1264 (1264 ∷ []) client-CanSend (posted 77)
      refl

emit_completes_example :
    (c1 : Channel (List ℕ)) × (c2 : Channel (List ℕ)) × (c3 : Channel (List ℕ)) × (told : List
      Effect)
    × (done : List Effect) × (lent' : List ℕ) × (send_and_queue plain_list slow_net client 1264
        ≡ ok (event_inprogress, c1, []))
    × (notification_emit_cb c1 1264 ≡ ok (c2, told))
    × (progress_econtext_sends plain_list slow_net c2 ≡ ok (c3, done))
    × IsSending plain_list c3 lent'
    × (occurs 1264 lent' ≡ 0)
    × (occurs 1264 c3.ongoing_events ≡ 0)
emit_completes_example =
    emit_completes plain_list slow_net client 1264 77 (1264 ∷ []) client-CanSend refl refl

-- The client with its event sent: UCX has told that the send is complete.
abbrev sent_client : Channel (List ℕ)
sent_client = record client {
  sys = record client.sys {
    events =
        λ q. record ready_event { complete = true; was_posted = true; is_ongoing_event = true };
  };
  posted_sends = 1;
  ongoing_events = 1264 ∷ [];
}

sent_client-IsSending : IsSending plain_list sent_client (1264 ∷ [])
sent_client-IsSending = record {
  counts = record { pool = one_lent.pool; used = refl };
  out = λ q. omega arith;
  each = λ q h. record {
    queued = refl;
    alone = refl;
    posted = refl;
    attached = refl;
    typed = refl;
    plain = refl;
    idle = refl;
  };
  counted = refl;
}

progress_econtext_sends-Progressed_example :
    (c' : Channel (List ℕ)) × (effects : List Effect) × (progress_econtext_sends plain_list slow_net
        sent_client
      ≡ ok (c', effects))
    × Progressed plain_list [] (1264 ∷ []) (1264 ∷ []) sent_client c'
progress_econtext_sends-Progressed_example =
    progress_econtext_sends-Progressed plain_list slow_net sent_client (1264 ∷ []) refl
      sent_client-IsSending
