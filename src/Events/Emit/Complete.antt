-- ===== src/Events/Emit/Complete.antt =====
-- An event from its send to its return: the callback of UCX, and the progress after it.
use dpu_offload_service.Prelude.{
  ℕ, ◌<◌, ◌≡◌, refl, ap, ◌∙◌, inl, inr, true, false, none, List, [], ◌∷◌, arith, ◌==◌, Bool-cases,
}
use dpu_offload_service.Prelude.Result.{ok}
use dpu_offload_service.Prelude.Occurs.{occurs, occurs-append}
use dpu_offload_service.Ucs.{UcsList}
use dpu_offload_service.Notifications.{is_null}
use dpu_offload_service.Events.{Event, EventSystem, Effect, write, complete_event}
use dpu_offload_service.Events.Returned.{finished}
use dpu_offload_service.Events.Emit.{
  Sent, posted, event_inprogress, Channel, event_at, notification_emit_cb, send_and_queue,
  progress_econtext_sends, context_self,
}
use dpu_offload_service.Events.Emit.Progress.{
  IsPosted, IsSending, write-at, completed_event, complete_event-write,
}
use dpu_offload_service.Events.Emit.Sweep.{lent_once, progress_econtext_sends-Progressed}
use dpu_offload_service.Events.Emit.Send.{CanSend, Outcome, send_and_queue-Outcome}

finished_all :
    {Head : Type 0} (events : ℕ → Event Head) (p : ℕ) (ps : List ℕ)
    → (events p).complete ≡ true
    → occurs p (finished events ps) ≡ occurs p ps
unfolding finished
finished_all events p [] e = refl
finished_all events p (x ∷ ps) e =
    let rest = finished_all events p ps e in
    elim (Bool-cases (x == p)) [
      | inl here ↦
          let i : x ≡ p = ground arith in
          let e' : (events x).complete ≡ true = rw i e in rw e' (omega (arith, rest))
      | inr there ↦ elim (Bool-cases (events x).complete) [
        | inl a ↦ rw a (omega (arith, rest))
        | inr b ↦ rw (b, there) (omega (arith, rest))
      ]
    ]

told-IsPosted :
    {Head : Type 0} (e : Event Head)
    → IsPosted e
    → IsPosted (record (completed_event e) { req = none })
told-IsPosted e i = record {
  queued = i.queued;
  alone = i.alone;
  posted = i.posted;
  attached = i.attached;
  typed = i.typed;
  plain = i.plain;
  idle = refl;
}

module _ (u : UcsList) where
  open u use {Head, items}

  -- What notification_emit_cb does for an ongoing event: it is complete then.
  pub record Told (c c' : Channel Head) (p : ℕ) (lent : List ℕ) : Type 0 where
    pub same_list : c'.ongoing_events ≡ c.ongoing_events
    pub same_scope : c'.sys.scope_id ≡ c.sys.scope_id
    pub complete : (event_at c' p).complete ≡ true
    pub sending : IsSending u c' lent

  told_lem :
      (c : Channel Head) (p : ℕ) (lent : List ℕ)
      → IsSending u c lent
      → (s1 : EventSystem Head) → s1 ≡ write c.sys p (completed_event (event_at c p))
      → Told c (record c { sys = write s1 p (record (s1.events p) { req = none }) }) p lent
  told_lem c p lent s s1 made =
      let self : (p == p) ≡ true = ground arith in
      rw made (record {
        same_list = refl;
        same_scope = refl;
        complete = rw self refl;
        sending = record {
          counts = record { pool = s.counts.pool; used = s.counts.used };
          out = s.out;
          each = λ q h. elim (Bool-cases (p == q)) [
            | inl here ↦
                let i : p ≡ q = ground arith in
                let h' : 0 < occurs p (items c.ongoing_events) = rw (← i) at h in
                rw (here, self) (told-IsPosted (event_at c p) (s.each p h'))
            | inr there ↦ rw there (s.each q h)
          ];
          counted = s.counted;
        };
      })

  notification_emit_cb-Told :
      (c : Channel Head) (p : ℕ) (lent : List ℕ)
      → IsSending u c lent
      → 0 < occurs p (items c.ongoing_events)
      → (c' : Channel Head) × (effects : List Effect) × (notification_emit_cb c p
          ≡ ok (c', effects))
        × Told c c' p lent
  unfolding notification_emit_cb
  notification_emit_cb-Told c p lent s here =
      let s1 = (complete_event c.sys p).0 in
      let made = complete_event-write c.sys p in
      let attached : is_null (s1.events p).event_system ≡ false =
        ap (λ (s : EventSystem Head). is_null (s.events p).event_system) made
        ∙ (ap (λ (e : Event Head). is_null e.event_system)
              (write-at c p (completed_event (event_at c p)))
            ∙ (s.each p here).attached) in
      (_, (complete_event c.sys p).1, simp attached, told_lem c p lent s s1 made)

  -- An event whose send UCX takes as a request, whose callback UCX invokes then, with progress made
  -- after that: each call succeeds. At the end the event is back in its pool, it is on no list, and
  -- posted_sends is the number of ongoing events.
  pub emit_completes :
      (net : ℕ → Sent) (c : Channel Head) (p r : ℕ) (lent : List ℕ)
      → CanSend u c p lent
      → net c.num_ev_sent ≡ posted r
      → (c.sys.scope_id == context_self) ≡ false
      → (c1 : Channel Head) × (c2 : Channel Head) × (c3 : Channel Head) × (told : List Effect)
        × (done : List Effect) × (lent' : List ℕ) × (send_and_queue u net c p
            ≡ ok (event_inprogress, c1, []))
        × (notification_emit_cb c1 p ≡ ok (c2, told))
        × (progress_econtext_sends u net c2 ≡ ok (c3, done))
        × IsSending u c3 lent'
        × (occurs p lent' ≡ 0)
        × (occurs p (items c3.ongoing_events) ≡ 0)
  unfolding Outcome
  emit_completes net c p r lent s e scope =
      let (c1, sent, listed, scope1, s1) = send_and_queue-Outcome u net c p lent s (posted r) e in
      let here : 0 < occurs p (items c1.ongoing_events) =
        (let seen = ap (occurs p) listed ∙ occurs-append p (items c.ongoing_events) (p ∷ []) in
          ground (arith, seen)) in
      let (c2, told, told_run, t) = notification_emit_cb-Told c1 p lent s1 here in
      let scope2 : (c2.sys.scope_id == context_self) ≡ false =
        ap (λ n. n == context_self) (t.same_scope ∙ scope1) ∙ scope in
      let (c3, done, done_run, w) =
        progress_econtext_sends-Progressed u net c2 lent scope2 t.sending in
      let all = finished_all c2.sys.events p (items c2.ongoing_events) t.complete in
      let listed2 = ap (λ l. occurs p (items l)) t.same_list in
      let gone : occurs p w.lent' ≡ 0 =
        omega (arith, w.shared p, all, listed2, here, lent_once u c lent s.sending.counts p) in
      (
        c1,
        c2,
        c3,
        told,
        done,
        w.lent',
        sent,
        told_run,
        done_run,
        w.sending,
        gone,
        omega (arith, gone, w.sending.out p),
      )
