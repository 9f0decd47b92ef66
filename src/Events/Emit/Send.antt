-- ===== src/Events/Emit/Send.antt =====
-- The send of one event, for each answer of UCX.
use dpu_offload_service.Prelude.{
  ℕ, ◌+◌, ◌≤◌, ◌<◌, ◌≡◌, refl, sym, ap, ◌∙◌, inl, inr, true, false, Bool, not, ◌||◌, Option, none,
  some, List, [], ◌∷◌, ◌++◌, length, length-append, arith, ◌==◌, ltb, if◌then◌else◌, Bool-cases,
  Option-cases,
}
use dpu_offload_service.Prelude.Result.{ok, err, >>=-ok}
use dpu_offload_service.Prelude.Occurs.{occurs, occurs-append}
use dpu_offload_service.Size.{word, add_size, add_size-eq}
use dpu_offload_service.Ucs.{UcsList}
use dpu_offload_service.Notifications.{NotifInfo, is_null}
use dpu_offload_service.Events.{
  Event, Effect, frees, returns_buf, calls, released, release_payload, meta_event_type,
}
use dpu_offload_service.Events.Returned.{
  occurs_split, Counts, returned, returned-Counts, do_event_return-run,
}
use dpu_offload_service.Events.Emit.{
  Sent, failed, done, posted, event_done, event_inprogress, Channel, event_at, write_event,
  ids_for_emit, prep_event_for_emit, do_am_send_event_msg, give_event_back, after_returned,
  after_send, after_am_send, after_prep, am_send_event_msg, queue_unless_done, queue_event,
  send_and_queue,
}
use dpu_offload_service.Events.Emit.Progress.{IsPosted, IsSending, write-at, give_event_back-eq-ok}
use dpu_offload_service.Events.Emit.Sweep.{length_le_of_occurs, apart_lem}

-- An event that may be sent: it left the pool, has a destination and a type, and is neither a
-- sub-event nor one that its user returns.
pub record IsReady {Head : Type 0} (e : Event Head) : Type 0 where
  pub owner : ℕ
  pub attached : e.event_system ≡ some owner
  pub idle : e.is_ongoing_event ≡ false
  pub alone : e.is_subevent ≡ false
  pub managed : e.explicit_return ≡ false
  pub open_still : e.complete ≡ false
  pub typed : ltb 0 e.hdr_type ≡ true
  pub plain : (e.hdr_type == meta_event_type) ≡ false
  pub destined : is_null e.dest_ep ≡ false

-- No completion callback is invoked.
abbrev pub no_call : List Effect → Bool
no_call [] = true
no_call (frees buf ∷ es) = no_call es
no_call (returns_buf f pool buf ∷ es) = no_call es
no_call (calls cb ctx ∷ es) = false

released-no_call : (info : NotifInfo) (buf : ℕ) → no_call (released info buf) ≡ true
released-no_call info buf = by_cases info.mem_pool info.return_buf
  where
    by_cases :
        (pool f : Option ℕ)
        → no_call (released (record info { mem_pool = pool; return_buf = f }) buf) ≡ true
    by_cases none f = refl
    by_cases (some pool) none = refl
    by_cases (some pool) (some f) = refl

module _ {Head : Type 0} where
  release_payload-no_call : (e : Event Head) → no_call (release_payload e).1 ≡ true
  unfolding release_payload
  release_payload-no_call e = elim (Bool-cases e.manage_payload_buf) [
    | inl a ↦ elim (Option-cases e.payload) [
      | inl b ↦ simp (a, b)
      | inr (buf, b) ↦ simp (a, b) (released-no_call e.info buf)
    ]
    | inr a ↦ simp a
  ]

  -- An event after PREP_EVENT_FOR_EMIT.
  abbrev pub prepared : Event Head → ℕ × ℕ → Event Head
  prepared e ids = record e {
    client_id = ids.0;
    server_id = ids.1;
    hdr_seq_num = e.seq_num;
    hdr_client_id = ids.0;
    hdr_server_id = ids.1;
    hdr_scope_id = e.scope_id;
  }

  prep_event_for_emit-run :
      (c : Channel Head) (p : ℕ) (ids : ℕ × ℕ) (owner : ℕ)
      → (event_at c p).event_system ≡ some owner
      → ids_for_emit c (event_at c p) ≡ some ids
      → prep_event_for_emit c p ≡ ok (write_event c p (prepared (event_at c p) ids))
  unfolding prep_event_for_emit
  prep_event_for_emit-run c p ids owner a b = simp (a, b)

  -- The channel after each answer of UCX.
  abbrev posted_channel : Channel Head → ℕ → ℕ → Channel Head
  posted_channel c p r =
      record (write_event (record c { num_ev_sent = add_size c.num_ev_sent 1 }) p
        (record (event_at c p) { req = some r; was_posted = true })) {
          posted_sends = add_size c.posted_sends 1;
        }

  abbrev done_channel : Channel Head → ℕ → Channel Head
  done_channel c p =
      write_event (record c { num_ev_sent = add_size c.num_ev_sent 1 }) p
        (record (event_at c p) { req = none; complete = true })

  abbrev failed_channel : Channel Head → ℕ → ℕ → Channel Head
  failed_channel c p x =
      write_event (record c { num_ev_sent = add_size c.num_ev_sent 1 }) p
        (record (event_at c p) { req = some x })

  module _ (net : ℕ → Sent) (c : Channel Head) (p : ℕ)
      (to : is_null (event_at c p).dest_ep ≡ false) where
    do_am-posted :
        (r : ℕ)
        → net c.num_ev_sent ≡ posted r
        → do_am_send_event_msg net c p ≡ ok (event_inprogress, posted_channel c p r)
    unfolding do_am_send_event_msg
    do_am-posted r e = simp (to, e)

    do_am-done :
        net c.num_ev_sent ≡ done → do_am_send_event_msg net c p ≡ ok (event_done, done_channel c p)
    unfolding do_am_send_event_msg
    do_am-done e = simp (to, e)

    do_am-failed :
        (x : ℕ)
        → net c.num_ev_sent ≡ failed x
        → do_am_send_event_msg net c p ≡ err (some (event_inprogress, failed_channel c p x))
    unfolding do_am_send_event_msg
    do_am-failed x e = simp (to, e)

module _ (u : UcsList) where
  open u use {Head, items, add_tail, items-add_tail}

  after_send-posted :
      (c : Channel Head) (p : ℕ)
      → is_null (event_at c p).req ≡ false
      → after_send u event_inprogress c p ≡ ok (event_inprogress, c, [])
  unfolding after_send
  after_send-posted c p e = simp e

  after_send-done :
      (c : Channel Head) (p : ℕ) {r : Channel Head × List Effect}
      → (event_at c p).explicit_return ≡ false
      → is_null (event_at c p).event_system ≡ false
      → give_event_back u c p ≡ ok r
      → after_send u event_done c p ≡ ok (event_done, r.0, r.1)
  unfolding after_send
  after_send-done c p a b back = simp (a, b) (ap (after_returned u c) back)

  am_send-eq :
      (net : ℕ → Sent) (c c1 : Channel Head) (p : ℕ)
      → prep_event_for_emit c p ≡ ok c1
      → am_send_event_msg u net c p ≡ after_am_send u p (do_am_send_event_msg net c1 p)
  unfolding am_send_event_msg
  am_send-eq net c c1 p a = ap (after_prep u net c p) a

  -- A context through which events are sent, with an event that may be sent.
  pub record CanSend (c : Channel Head) (p : ℕ) (lent : List ℕ) : Type 0 where
    pub sending : IsSending u c lent
    pub ready : IsReady (event_at c p)
    pub out : 0 < occurs p lent
    pub not_listed : occurs p (items c.ongoing_events) ≡ 0
    pub ids : ℕ × ℕ
    pub known : ids_for_emit c (event_at c p) ≡ some ids

  -- What the send comes to: the event is queued and counted, it goes back at once, or the send fails
  -- and the event is neither queued nor returned.
  unfoldable pub Outcome : (ℕ → Sent) → Channel Head → ℕ → List ℕ → Sent → Type 0
  Outcome net c p lent (posted r) =
      (c' : Channel Head) × (send_and_queue u net c p ≡ ok (event_inprogress, c', []))
      × (items c'.ongoing_events ≡ items c.ongoing_events ++ (p ∷ []))
      × (c'.sys.scope_id ≡ c.sys.scope_id)
      × IsSending u c' lent
  Outcome net c p lent done =
      (c' : Channel Head) × (effects : List Effect) × (lent' : List ℕ) × (send_and_queue u net c p
        ≡ ok (event_done, c', effects))
      × (c'.ongoing_events ≡ c.ongoing_events)
      × (no_call effects ≡ true)
      × ((q : ℕ) → occurs q lent ≡ (if p == q then 1 else 0) + occurs q lent')
      × IsSending u c' lent'
  Outcome net c p lent (failed x) =
      (c' : Channel Head) × (send_and_queue u net c p ≡ err (some (event_inprogress, c', [])))
      × (c'.ongoing_events ≡ c.ongoing_events)
      × ((event_at c' p).req ≡ some x)
      × IsSending u c' lent

  -- The events that are listed are those that were.
  others-IsSending :
      (c c' : Channel Head) (p : ℕ) (lent : List ℕ)
      → IsSending u c lent
      → occurs p (items c.ongoing_events) ≡ 0
      → c'.ongoing_events ≡ c.ongoing_events
      → c'.posted_sends ≡ c.posted_sends
      → ((q : ℕ) → (p == q) ≡ false → event_at c' q ≡ event_at c q)
      → (lent' : List ℕ) → Counts u c'.sys lent'
      → ((q : ℕ) → occurs q lent ≤ (if p == q then 1 else 0) + occurs q lent')
      → IsSending u c' lent'
  others-IsSending c c' p lent s absent same_list same_count others lent' counts left = record {
    counts = counts;
    out = λ q. rw same_list (elim (Bool-cases (p == q)) [
      | inl here ↦
          let i : p ≡ q = ground arith in
          let none_here : occurs q (items c.ongoing_events) ≡ 0 = rw i at absent in
          omega (arith, none_here)
      | inr there ↦ let l = left q in let o = s.out q in ground (arith, l, o, there)
    ]);
    each = λ q h.
        (let h' : 0 < occurs q (items c.ongoing_events) = rw same_list at h in
          rw (others q (apart_lem p q (items c.ongoing_events) absent h')) (s.each q h'));
    counted = same_count ∙ (s.counted ∙ ap (λ l. length (items l)) (sym same_list));
  }

  not_meta : (a b d : Bool) → a ≡ false → ((not a || b) || d) ≡ true
  not_meta a b d e = rw e refl

  -- The channel once the event was queued.
  abbrev queued_channel : Channel Head → ℕ → Channel Head
  queued_channel c p =
      record (write_event c p (record (event_at c p) { is_ongoing_event = true })) {
        ongoing_events = add_tail c.ongoing_events p;
      }

  queue_event-run :
      (c : Channel Head) (p : ℕ)
      → (event_at c p).explicit_return ≡ false
      → (event_at c p).is_subevent ≡ false
      → (event_at c p).is_ongoing_event ≡ false
      → queue_event u c p ≡ ok (queued_channel c p)
  unfolding queue_event
  queue_event-run c p a b d = simp (a, b, d)

  -- One more event is listed.
  joined-IsSending :
      (c c' : Channel Head) (p : ℕ) (lent : List ℕ)
      → IsSending u c lent
      → 0 < occurs p lent
      → occurs p (items c.ongoing_events) ≡ 0
      → items c'.ongoing_events ≡ items c.ongoing_events ++ (p ∷ [])
      → c'.posted_sends ≡ add_size c.posted_sends 1
      → ((q : ℕ) → (p == q) ≡ false → event_at c' q ≡ event_at c q)
      → IsPosted (event_at c' p)
      → Counts u c'.sys lent
      → IsSending u c' lent
  joined-IsSending c c' p lent s out absent listed count others at_p counts =
      let seen =
        λ (q : ℕ). ap (occurs q) listed ∙ occurs-append q (items c.ongoing_events) (p ∷ []) in
      let inside : (q : ℕ) → occurs q (items c'.ongoing_events) ≤ occurs q lent = λ q.
        (elim (Bool-cases (p == q)) [
          | inl here ↦
              let i : p ≡ q = ground arith in
              let absent' : occurs q (items c.ongoing_events) ≡ 0 = rw i at absent in
              let out' : 0 < occurs q lent = rw i at out in
              let e = seen q in ground (arith, e, absent', out')
          | inr there ↦ let e = seen q in let o = s.out q in ground (arith, e, o, there)
        ]) in
      let short = length_le_of_occurs (items c'.ongoing_events) lent inside in
      let long = length-append (items c.ongoing_events) (p ∷ []) in
      let fits : c.posted_sends + 1 < word = omega (
        arith,
        short,
        long,
        ap length listed,
        s.counted,
        s.counts.pool.total,
        s.counts.pool.in_word,
      ) in
      record {
        counts = counts;
        out = inside;
        each = λ q h. elim (Bool-cases (p == q)) [
          | inl here ↦ let i : p ≡ q = ground arith in rw (← i) at_p
          | inr there ↦
              rw (others q there) (s.each q (let e = seen q in ground (arith, e, h, there)))
        ];
        counted =
            count
            ∙ omega (arith, add_size-eq c.posted_sends 1 fits, s.counted, ap length listed, long);
      }

  module _ (net : ℕ → Sent) (c : Channel Head) (p : ℕ) (lent : List ℕ) (s : CanSend c p lent) where
    -- The channel once the event was prepared.
    abbrev ready_channel : Channel Head
    ready_channel = write_event c p (prepared (event_at c p) s.ids)

    ready_at : event_at ready_channel p ≡ prepared (event_at c p) s.ids
    ready_at = write-at c p (prepared (event_at c p) s.ids)

    ready_run : prep_event_for_emit c p ≡ ok ready_channel
    ready_run = prep_event_for_emit-run c p s.ids s.ready.owner s.ready.attached s.known

    ready_to : is_null (event_at ready_channel p).dest_ep ≡ false
    ready_to = ap (λ (e : Event Head). is_null e.dest_ep) ready_at ∙ s.ready.destined

    ready_attached : is_null (event_at ready_channel p).event_system ≡ false
    ready_attached =
        ap (λ (e : Event Head). is_null e.event_system) ready_at ∙ ap is_null s.ready.attached

    send_failed : (x : ℕ) → net c.num_ev_sent ≡ failed x → Outcome net c p lent (failed x)
    unfolding send_and_queue Outcome
    send_failed x e =
        let self : (p == p) ≡ true = ground arith in
        let run =
          am_send-eq net c ready_channel p ready_run
          ∙ ap (after_am_send u p) (do_am-failed net ready_channel p ready_to x e) in
        (
          failed_channel ready_channel p x,
          ap (queue_unless_done u p) run,
          refl,
          ap (λ (e : Event Head). e.req)
              (write-at ready_channel p (record (event_at ready_channel p) { req = some x })),
          others-IsSending c (failed_channel ready_channel p x) p lent s.sending s.not_listed refl
              refl (λ q apart. rw apart refl) lent
              (record { pool = s.sending.counts.pool; used = s.sending.counts.used })
              (λ q. omega arith),
        )

    send_done : net c.num_ev_sent ≡ done → Outcome net c p lent done
    unfolding send_and_queue Outcome
    send_done e =
        let c2 : Channel Head = done_channel ready_channel p in
        let at : event_at c2 p
            ≡ record (prepared (event_at c p) s.ids) { req = none; complete = true } =
          (let self : (p == p) ≡ true = ground arith in rw self refl) in
        let attached : is_null (event_at c2 p).event_system ≡ false =
          ap (λ (e : Event Head). is_null e.event_system) at ∙ ap is_null s.ready.attached in
        let back =
          give_event_back-eq-ok u c2 p
            (ap (λ (e : Event Head). e.is_ongoing_event) at ∙ s.ready.idle)
            (do_event_return-run u c2.sys p attached (ap (λ (e : Event Head). is_null e.req) at)
              (ap (λ (e : Event Head). ltb 0 e.hdr_type) at ∙ s.ready.typed)
              (let plain =
                  ap (λ (e : Event Head). e.hdr_type == meta_event_type) at ∙ s.ready.plain in
                not_meta _ _ _ plain)) in
        let run =
          am_send-eq net c ready_channel p ready_run
          ∙ (ap (after_am_send u p) (do_am-done net ready_channel p ready_to e)
              ∙ after_send-done c2 p
                  (ap (λ (e : Event Head). e.explicit_return) at ∙ s.ready.managed) attached
                  back) in
        let (before, after, split) = occurs_split p lent s.out in
        let c' : Channel Head = record c2 { sys = returned u c2.sys p } in
        let old : Counts u c2.sys (before ++ (p ∷ after)) =
          rw (← split) (record { pool = s.sending.counts.pool; used = s.sending.counts.used }) in
        let shared : (q : ℕ)
            → occurs q lent ≡ (if p == q then 1 else 0) + occurs q (before ++ after) =
          λ q. omega (
            arith,
            ap (occurs q) split,
            occurs-append q before (p ∷ after),
            occurs-append q before after,
          ) in
        (
          c',
          _,
          before ++ after,
          ap (queue_unless_done u p) run,
          refl,
          release_payload-no_call (event_at c2 p),
          shared,
          others-IsSending c c' p lent s.sending s.not_listed refl refl (λ q apart. rw apart refl)
              (before ++ after) (returned-Counts u c2.sys p before after old)
              (λ q. omega (arith, shared q)),
        )

    send_posted : (r : ℕ) → net c.num_ev_sent ≡ posted r → Outcome net c p lent (posted r)
    unfolding send_and_queue Outcome
    send_posted r e =
        let c2 : Channel Head = posted_channel ready_channel p r in
        let c3 : Channel Head = queued_channel c2 p in
        let at : event_at c2 p
            ≡ record (prepared (event_at c p) s.ids) { req = some r; was_posted = true } =
          (let self : (p == p) ≡ true = ground arith in rw self refl) in
        let at3 : event_at c3 p ≡ record (prepared (event_at c p) s.ids) {
          req = some r;
          was_posted = true;
          is_ongoing_event = true;
        } =
          (let self : (p == p) ≡ true = ground arith in rw self refl) in
        let at_p : IsPosted (event_at c3 p) = rw at3 (record {
          queued = refl;
          alone = s.ready.alone;
          posted = refl;
          attached = ap is_null s.ready.attached;
          typed = s.ready.typed;
          plain = s.ready.plain;
          idle = rw s.ready.open_still refl;
        }) in
        let run =
          am_send-eq net c ready_channel p ready_run
          ∙ (ap (after_am_send u p) (do_am-posted net ready_channel p ready_to r e)
              ∙ after_send-posted c2 p (ap (λ (e : Event Head). is_null e.req) at)) in
        let queued =
          queue_event-run c2 p (ap (λ (e : Event Head). e.explicit_return) at ∙ s.ready.managed)
            (ap (λ (e : Event Head). e.is_subevent) at ∙ s.ready.alone)
            (ap (λ (e : Event Head). e.is_ongoing_event) at ∙ s.ready.idle) in
        let listed = items-add_tail c.ongoing_events p in
        (
          c3,
          ap (queue_unless_done u p) run ∙ >>=-ok _ queued refl,
          listed,
          refl,
          joined-IsSending c c3 p lent s.sending s.out s.not_listed listed refl
              (λ q apart. rw apart refl) at_p
              (record { pool = s.sending.counts.pool; used = s.sending.counts.used }),
        )

  -- The send of an event through a client or a server, whatever UCX answers. A request: the event is
  -- queued as the last ongoing event and counted as posted. No request: the event goes back to its
  -- pool at once and its completion callback is not invoked. An error: the event is not queued and not returned, and keeps the error as its
  -- request. Each time the ongoing events stay posted and counted.
  pub send_and_queue-Outcome :
      (net : ℕ → Sent) (c : Channel Head) (p : ℕ) (lent : List ℕ)
      → CanSend c p lent
      → (a : Sent) → net c.num_ev_sent ≡ a
      → Outcome net c p lent a
  send_and_queue-Outcome net c p lent s (failed x) e = send_failed net c p lent s x e
  send_and_queue-Outcome net c p lent s done e = send_done net c p lent s e
  send_and_queue-Outcome net c p lent s (posted r) e = send_posted net c p lent s r e
