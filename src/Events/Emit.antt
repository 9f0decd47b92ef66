-- ===== src/Events/Emit.antt =====
-- How events are sent: event_channel_emit and event_channel_emit_with_payload with what they call in
-- src/dpu_offload_event_channels.c, PROGRESS_EVENT_SEND and progress_econtext_sends of
-- src/dpu_offload_comms.h, and QUEUE_EVENT of include/dpu_offload_event_channels.h, as they are with
-- USE_AM_IMPLEM. UCX is a parameter: what the n-th call of ucp_am_send_nbx answers. Callbacks do not
-- send on the execution context that invokes them.
pub mod Progress
pub mod Sweep
pub mod Send
pub mod Complete
use dpu_offload_service.Prelude.{
  ℕ, zero, suc, ◌==◌, ltb, Bool, true, false, ◌&&◌, ◌||◌, not, if◌then◌else◌, Option, none, some,
  List, [], ◌∷◌, ◌++◌,
}
use mathlib.Core.Option
use dpu_offload_service.Prelude.Result.{Result, ok, err, fault, need, check, map_result, ◌>>=◌}
use dpu_offload_service.Size.{add_size, sub_size}
use dpu_offload_service.Ucs.{UcsList}
use dpu_offload_service.Notifications.{AmHeader, Call, Econtext, EvSys, is_null, handle_notif_msg}
use dpu_offload_service.Events.{
  Event, EventSystem, Effect, meta_event_type, write, complete_event, event_return, event_completed,
}

-- What ucp_am_send_nbx answers: a pointer that is an error, NULL, or a request.
pub data Sent : Type 0 where
  failed : ℕ → Sent
  done : Sent
  posted : ℕ → Sent

-- EVENT_DONE and EVENT_INPROGRESS
pub data EventStatus : Type 0 where
  event_done : EventStatus
  event_inprogress : EventStatus

abbrev pub is_done : EventStatus → Bool
is_done event_done = true
is_done event_inprogress = false

-- CONTEXT_CLIENT, CONTEXT_SERVER, CONTEXT_SELF
abbrev pub context_client : ℕ
context_client = 1

abbrev pub context_server : ℕ
context_server = 2

abbrev pub context_self : ℕ
context_self = 3

-- MAX_POSTED_SENDS
abbrev pub max_posted_sends : ℕ
max_posted_sends = 8

-- sizeof(am_header_t)
abbrev pub am_header_size : ℕ
am_header_size = 56

-- What sending uses of an `execution_context_t`: its event system, of which `posted_sends` and the
-- part for notifications are apart; its ongoing events; `own_id` is client->id or server->id and
-- `client_server_id` client->server_id. `num_ev_sent` is the variable of the file.
pub record Channel (Head : Type 0) : Type 0 where
  pub sys : EventSystem Head
  pub posted_sends : ℕ
  pub ongoing_events : Head
  pub own_id : ℕ
  pub client_server_id : ℕ
  pub notifs : EvSys Head
  pub econtext : Econtext
  pub num_ev_sent : ℕ

module _ {Head : Type 0} where
  abbrev pub event_at : Channel Head → ℕ → Event Head
  event_at c p = c.sys.events p

  abbrev pub write_event : Channel Head → ℕ → Event Head → Channel Head
  write_event c p e = record c { sys = write c.sys p e }

  -- ECONTEXT_ID
  abbrev pub econtext_id : Channel Head → ℕ
  econtext_id c =
      if (c.sys.econtext_type == context_client) || (c.sys.econtext_type == context_server)
      then c.own_id
      else 0

  -- CAN_POST
  abbrev pub can_post : Channel Head → Bool
  can_post c = ltb c.posted_sends max_posted_sends

  -- event_posted
  abbrev pub event_posted : Event Head → Bool
  event_posted e = not e.complete && (e.was_posted || not (is_null e.req))

  -- The client and the server in the switch of PREP_EVENT_FOR_EMIT.
  abbrev pub ids_for_emit : Channel Head → Event Head → Option (ℕ × ℕ)
  ids_for_emit c e =
      if c.sys.econtext_type == context_client
      then some (c.own_id, c.client_server_id)
      else if c.sys.econtext_type == context_server
      then some (e.dest_id, c.own_id)
      else if c.sys.econtext_type == context_self
      then some (0, 0)
      else none

  -- PREP_EVENT_FOR_EMIT and the assignment behind it.
  unfoldable pub prep_event_for_emit : Channel Head → ℕ → Result (Channel Head)
  prep_event_for_emit c p =
      let e = event_at c p in
      need e.event_system >>= λ _. elim (ids_for_emit c e) [
        | none ↦ err (some c)
        | some ids ↦ ok (
            write_event c p (record e {
              client_id = ids.0;
              server_id = ids.1;
              hdr_seq_num = e.seq_num;
              hdr_client_id = ids.0;
              hdr_server_id = ids.1;
              hdr_scope_id = e.scope_id;
            }))
      ]

  -- A posted send is not counted any longer.
  unfoldable pub drop_posted : Channel Head → ℕ → Result (Channel Head)
  drop_posted c p =
      if (event_at c p).was_posted
      then check (ltb 0 c.posted_sends) (
          ok (record (write_event c p (record (event_at c p) { was_posted = false })) {
            posted_sends = sub_size c.posted_sends 1;
          }))
      else ok c

  -- notification_emit_cb, for an event
  unfoldable pub notification_emit_cb : Channel Head → ℕ → Result (Channel Head × List Effect)
  notification_emit_cb c p =
      let (s, effects) = complete_event c.sys p in
      check (not (is_null (s.events p).event_system))
        (ok (record c { sys = write s p (record (s.events p) { req = none }) }, effects))

  -- do_am_send_event_msg
  unfoldable pub do_am_send_event_msg :
      (ℕ → Sent) → Channel Head → ℕ → Result (EventStatus × Channel Head)
  do_am_send_event_msg net c p =
      let e = event_at c p in
      let c' : Channel Head = record c { num_ev_sent = add_size c.num_ev_sent 1 } in
      check (not (is_null e.dest_ep)) (elim (net c.num_ev_sent) [
        | failed x ↦ err (some (event_inprogress, write_event c' p (record e { req = some x })))
        | done ↦ ok (event_done, write_event c' p (record e { req = none; complete = true }))
        | posted r ↦ ok (
          event_inprogress,
          record (write_event c' p (record e { req = some r; was_posted = true })) {
            posted_sends = add_size c.posted_sends 1;
          },
        )
      ])

module _ (u : UcsList) where
  open u use {Head, add_tail, del, items}

  -- QUEUE_EVENT
  unfoldable pub queue_event : Channel Head → ℕ → Result (Channel Head)
  queue_event c p =
      let e = event_at c p in
      if e.explicit_return || e.is_subevent
      then ok c
      else check (not e.is_ongoing_event) (
          ok (record (write_event c p (record e { is_ongoing_event = true })) {
            ongoing_events = add_tail c.ongoing_events p;
          }))

  -- event_return, whose error is passed on.
  unfoldable pub give_event_back : Channel Head → ℕ → Result (Channel Head × List Effect)
  give_event_back c p = elim (event_return u c.sys p) [
    | ok (s, effects) ↦ ok (record c { sys = s }, effects)
    | err e ↦ err (some (c, []))
    | fault ↦ fault
  ]

  abbrev pub after_returned :
      Channel Head
      → Result (Channel Head × List Effect)
      → Result (EventStatus × Channel Head × List Effect)
  after_returned c (ok r) = ok (event_done, r.0, r.1)
  after_returned c (err x) = err (some (event_done, c, []))
  after_returned c fault = fault

  -- What am_send_event_msg does once the message was given to UCX.
  unfoldable pub after_send :
      EventStatus → Channel Head → ℕ → Result (EventStatus × Channel Head × List Effect)
  after_send status c p =
      let e = event_at c p in
      if is_done status || is_null e.req
      then if e.explicit_return
        then (let (s, effects) = complete_event c.sys p in
            ok (event_inprogress, record c { sys = s }, effects))
        else check (not (is_null e.event_system)) (
            (if is_done status
              then ok c
              else check (ltb 0 c.posted_sends)
                  (ok (record c { posted_sends = sub_size c.posted_sends 1 })))
            >>= λ c'. after_returned c' (give_event_back c' p))
      else ok (status, c, [])

  abbrev pub after_am_send :
      ℕ → Result (EventStatus × Channel Head) → Result (EventStatus × Channel Head × List Effect)
  after_am_send p (ok r) = after_send r.0 r.1 p
  after_am_send p (err none) = err none
  after_am_send p (err (some r)) = err (some (r.0, r.1, []))
  after_am_send p fault = fault

  abbrev pub after_prep :
      (ℕ → Sent)
      → Channel Head
      → ℕ
      → Result (Channel Head)
      → Result (EventStatus × Channel Head × List Effect)
  after_prep net c p (ok c') = after_am_send p (do_am_send_event_msg net c' p)
  after_prep net c p (err x) = err (some (event_inprogress, c, []))
  after_prep net c p fault = fault

  -- am_send_event_msg. `err`: what PREP_EVENT_FOR_EMIT, the send or event_return fails with.
  unfoldable pub am_send_event_msg :
      (ℕ → Sent) → Channel Head → ℕ → Result (EventStatus × Channel Head × List Effect)
  am_send_event_msg net c p = after_prep net c p (prep_event_for_emit c p)

  -- What event_return answers is not looked at.
  abbrev pub kept_on_err :
      Channel Head → Result (Channel Head × List Effect) → Result (Channel Head × List Effect)
  kept_on_err c (ok r) = ok r
  kept_on_err c (err x) = ok (c, [])
  kept_on_err c fault = fault

  -- An event that is off the list of ongoing events goes back to its pool.
  abbrev pub leave : Channel Head → ℕ → Result (Channel Head × List Effect)
  leave c p = drop_posted c p >>= λ c'. kept_on_err c' (give_event_back c' p)

  abbrev pub take_off : Channel Head → ℕ → Channel Head
  take_off c p = record (write_event c p (record (event_at c p) { is_ongoing_event = false })) {
    ongoing_events = del c.ongoing_events p;
  }

  -- The second half of PROGRESS_EVENT_SEND.
  unfoldable pub finish_send : Channel Head → ℕ → Result (Channel Head × List Effect)
  finish_send c p =
      let c' = take_off c p in
      leave (write_event c' p (record (event_at c' p) { is_subevent = false })) p

  -- What happens to a meta event that is complete.
  unfoldable pub finish_meta : Channel Head → ℕ → Result (Channel Head × List Effect)
  finish_meta c p = check (event_at c p).is_ongoing_event (leave (take_off c p) p)

  -- A send that was put off.
  unfoldable pub try_send : (ℕ → Sent) → Channel Head → ℕ → Result (Channel Head)
  try_send net c p =
      if can_post c && not (event_posted (event_at c p))
      then elim (do_am_send_event_msg net c p) [
        | ok (status, c') ↦ ok c'
        | err none ↦ ok c
        | err (some (status, c')) ↦ ok c'
        | fault ↦ fault
      ]
      else ok c

  -- PROGRESS_EVENT_SEND
  unfoldable pub progress_event_send :
      (ℕ → Sent) → Channel Head → ℕ → Result (Channel Head × List Effect)
  progress_event_send net c p = event_completed u c.sys p >>= λ r.
      let c' : Channel Head = record c { sys = r.1 } in
      if r.0
      then (finish_send c' p >>= λ q. ok (q.0, r.2 ++ q.1))
      else (try_send net c' p >>= λ c''. ok (c'', r.2))

  -- One round of the loop of progress_econtext_sends.
  unfoldable pub progress_one : (ℕ → Sent) → Channel Head → ℕ → Result (Channel Head × List Effect)
  progress_one net c p = check (event_at c p).is_ongoing_event (
      if (event_at c p).hdr_type == meta_event_type
      then check (event_at c p).sub_events_initialized (
          event_completed u c.sys p >>= λ r.
          let c' : Channel Head = record c { sys = r.1 } in
          if r.0 then (finish_meta c' p >>= λ q. ok (q.0, r.2 ++ q.1)) else ok (c', r.2))
      else progress_event_send net c p)

  unfoldable pub progress_all :
      (ℕ → Sent) → Channel Head → List ℕ → List Effect → Result (Channel Head × List Effect)
  progress_all net c [] effects = ok (c, effects)
  progress_all net c (p ∷ ps) effects =
      progress_one net c p >>= λ r. progress_all net r.0 ps (effects ++ r.1)

  -- progress_econtext_sends, which compares the scope with the type of a context.
  unfoldable pub progress_econtext_sends :
      (ℕ → Sent) → Channel Head → Result (Channel Head × List Effect)
  progress_econtext_sends net c =
      if c.sys.scope_id == context_self
      then ok (c, [])
      else progress_all net c (items c.ongoing_events) []

  -- The assignments of event_channel_emit and event_channel_emit_with_payload.
  abbrev pub addressed : Channel Head → Event Head → ℕ → Option ℕ → ℕ → Option ℕ → Event Head
  addressed c e notif_type dest_ep dest_id ctx = record e {
    complete = false;
    hdr_type = notif_type;
    hdr_id = econtext_id c;
    user_context = ctx;
    dest_ep = dest_ep;
    dest_id = dest_id;
  }

  -- The sends that go on before another one is added.
  abbrev pub progress_first : (ℕ → Sent) → Channel Head → ℕ → Result (Channel Head × List Effect)
  progress_first net c p =
      if (event_at c p).is_subevent then ok (c, []) else progress_econtext_sends net c

  abbrev pub queue_unless_done :
      ℕ
      → Result (EventStatus × Channel Head × List Effect)
      → Result (EventStatus × Channel Head × List Effect)
  queue_unless_done p (ok r) =
      if is_done r.0 then ok r else (queue_event r.1 p >>= λ c'. ok (event_inprogress, c', r.2))
  queue_unless_done p (err x) = err x
  queue_unless_done p fault = fault

  -- The send through UCX, and the event queued if it is in progress.
  unfoldable pub send_and_queue :
      (ℕ → Sent) → Channel Head → ℕ → Result (EventStatus × Channel Head × List Effect)
  send_and_queue net c p = queue_unless_done p (am_send_event_msg net c p)

  -- The header and the payload of an event in memory, and what malloc answers.
  module _ (allocates : ℕ → Bool) (header_bytes : Event Head → List ℕ) (load : ℕ → ℕ → List ℕ) where
    -- The delivery on a context that is its own peer. The call of the callback is an output; what
    -- does not complete aborts.
    unfoldable pub deliver_to_self :
        Channel Head → Option ℕ → ℕ → Result (EventStatus × Channel Head × List Effect × List Call)
    deliver_to_self c answer p =
        let e = event_at c p in
        let hdr : AmHeader = record {
          id = e.hdr_id;
          notif_type = e.hdr_type;
          payload_size = e.hdr_payload_size;
          bytes = header_bytes e;
        } in
        elim (handle_notif_msg u allocates c.notifs answer c.econtext hdr am_header_size
          (Option.map (λ buf. load buf e.hdr_payload_size) e.payload) e.hdr_payload_size) [
            | ok (notifs, calls) ↦ elim (give_event_back (record c { notifs = notifs }) p) [
              | ok (c', effects) ↦ ok (event_done, c', effects, calls)
              | err x ↦ fault
              | fault ↦ fault
            ]
            | err x ↦ fault
            | fault ↦ fault
          ]

    unfoldable pub emit_addressed :
        (ℕ → Sent)
        → Channel Head
        → Option ℕ
        → ℕ
        → Result (EventStatus × Channel Head × List Effect × List Call)
    emit_addressed net c answer p =
        if c.sys.econtext_type == context_self
        then deliver_to_self c answer p
        else map_result (λ r. (r.0, r.1, r.2, [])) (send_and_queue net c p)

    -- event_channel_emit
    unfoldable pub event_channel_emit :
        (ℕ → Sent)
        → Channel Head
        → Option ℕ
        → ℕ
        → ℕ
        → Option ℕ
        → ℕ
        → Option ℕ
        → Result (EventStatus × Channel Head × List Effect × List Call)
    event_channel_emit net c answer p notif_type dest_ep dest_id ctx =
        progress_first net c p >>= λ r.
        map_result (λ q. (q.0, q.1, r.1 ++ q.2, q.3))
          (emit_addressed net
            (write_event r.0 p (addressed r.0 (event_at r.0 p) notif_type dest_ep dest_id ctx))
            answer p)

    -- event_channel_emit_with_payload, which asserts that there is an endpoint to send to.
    unfoldable pub event_channel_emit_with_payload :
        (ℕ → Sent)
        → Channel Head
        → Option ℕ
        → ℕ
        → ℕ
        → Option ℕ
        → ℕ
        → Option ℕ
        → Option ℕ
        → ℕ
        → Result (EventStatus × Channel Head × List Effect × List Call)
    event_channel_emit_with_payload net c answer p notif_type dest_ep dest_id ctx payload size =
        check (not (event_at c p).manage_payload_buf) (
          progress_first net c p >>= λ r.
          let e = addressed r.0 (event_at r.0 p) notif_type dest_ep dest_id ctx in
          check ((r.0.sys.econtext_type == context_self) || not (is_null dest_ep)) (
            map_result (λ q. (q.0, q.1, r.1 ++ q.2, q.3))
              (emit_addressed net
                (write_event r.0 p (record e { payload = payload; hdr_payload_size = size })) answer
                p)))
