-- ===== src/Events/Emit/Progress.antt =====
-- The progress of sends: which events go back to their pool, and what posted_sends counts.
use dpu_offload_service.Prelude.{
  ℕ, ◌≤◌, ◌<◌, ◌≡◌, refl, ap, ◌∙◌, inl, inr, true, false, Bool, not, ◌&&◌, Option, none, some, List,
  [], ◌++◌, length, arith, ◌==◌, ltb, Bool-cases, Option-cases,
}
use dpu_offload_service.Prelude.Result.{Result, ok, ◌>>=◌, >>=-ok}
use dpu_offload_service.Prelude.Occurs.{occurs}
use dpu_offload_service.Size.{sub_size}
use dpu_offload_service.Ucs.{UcsList}
use dpu_offload_service.DynList.{give_back}
use dpu_offload_service.Notifications.{is_null}
use dpu_offload_service.Events.{
  Event, EventSystem, Effect, meta_event_type, write, complete_event, release_payload,
  do_event_return, event_return, event_completed,
}
use dpu_offload_service.Events.Returned.{Counts, returned, do_event_return-run}
use dpu_offload_service.Events.Emit.{
  Sent, Channel, event_at, write_event, can_post, event_posted, drop_posted, give_event_back,
  take_off, kept_on_err, leave, finish_send, try_send, progress_event_send, progress_one,
}

-- An event that was posted and queued: it is no meta event and no sub-event, has a type, and has no
-- request once it is complete.
pub record IsPosted {Head : Type 0} (e : Event Head) : Type 0 where
  pub queued : e.is_ongoing_event ≡ true
  pub alone : e.is_subevent ≡ false
  pub posted : e.was_posted ≡ true
  pub attached : is_null e.event_system ≡ false
  pub typed : ltb 0 e.hdr_type ≡ true
  pub plain : (e.hdr_type == meta_event_type) ≡ false
  pub idle : (e.complete && not (is_null e.req)) ≡ false

module _ {Head : Type 0} where
  -- The event after COMPLETE_EVENT.
  abbrev pub completed_event : Event Head → Event Head
  completed_event e = record e {
    complete = true;
    completion_cb = none;
    completion_cb_ctx = elim e.completion_cb [ none ↦ e.completion_cb_ctx | some cb ↦ none ];
  }

  pub write-at : (c : Channel Head) (p : ℕ) (e : Event Head) → event_at (write_event c p e) p ≡ e
  write-at c p e = let self : (p == p) ≡ true = ground arith in rw self refl

  pub complete_event-write :
      (s : EventSystem Head) (p : ℕ)
      → (complete_event s p).0 ≡ write s p (completed_event (s.events p))
  unfolding complete_event
  complete_event-write s p = elim (Option-cases (s.events p).completion_cb) [
    | inl no_cb ↦
        rw (no_cb, complete_event)
          (ap
            (λ (cb : Option ℕ).
              write s p (record (s.events p) { complete = true; completion_cb = cb }))
            no_cb)
    | inr (cb, e) ↦ rw (e, complete_event) refl
  ]

module _ (u : UcsList) where
  open u use {Head, items, del}

  -- The channel once an event was taken off the list, uncounted and returned.
  abbrev uncounted : Channel Head → ℕ → Channel Head
  uncounted c p = record (write_event c p (record (event_at c p) { was_posted = false })) {
    posted_sends = sub_size c.posted_sends 1;
  }

  event_return-idle :
      (s : EventSystem Head) (p : ℕ)
      → (s.events p).is_ongoing_event ≡ false
      → event_return u s p ≡ do_event_return u s p
  unfolding event_return
  event_return-idle s p off = rw (off, event_return) refl

  pub give_event_back-eq-ok :
      (c : Channel Head) (p : ℕ) {r : EventSystem Head × List Effect}
      → (event_at c p).is_ongoing_event ≡ false
      → do_event_return u c.sys p ≡ ok r
      → give_event_back u c p ≡ ok (record c { sys = r.0 }, r.1)
  unfolding give_event_back
  give_event_back-eq-ok c p off run = rw (event_return-idle c.sys p off, run, give_event_back) refl

  abbrev put_back : Channel Head → ℕ → Channel Head
  put_back c p = record (uncounted c p) { sys = returned u (uncounted c p).sys p }

  -- What an event must be to leave its list: it is off it, counted, and can be returned.
  record CanLeave (c : Channel Head) (p : ℕ) : Type 0 where
    off : (event_at c p).is_ongoing_event ≡ false
    pub posted : (event_at c p).was_posted ≡ true
    attached : is_null (event_at c p).event_system ≡ false
    no_req : is_null (event_at c p).req ≡ true
    typed : ltb 0 (event_at c p).hdr_type ≡ true
    plain : ((event_at c p).hdr_type == meta_event_type) ≡ false
    counted : ltb 0 c.posted_sends ≡ true

  drop_posted-run :
      (c : Channel Head) (p : ℕ)
      → (event_at c p).was_posted ≡ true
      → ltb 0 c.posted_sends ≡ true
      → drop_posted c p ≡ ok (uncounted c p)
  unfolding drop_posted
  drop_posted-run c p posted counted = simp (posted, counted)

  leave-eq-ok :
      (c : Channel Head) (p : ℕ) {c' : Channel Head} {r : Channel Head × List Effect}
      → drop_posted c p ≡ ok c'
      → give_event_back u c' p ≡ ok r
      → leave u c p ≡ ok r
  leave-eq-ok c p {c'} dropped back =
      ap (λ (m : Result (Channel Head)). m >>= λ c''. kept_on_err u c'' (give_event_back u c'' p))
        dropped
      ∙ ap (kept_on_err u c') back

  leave-run :
      (c : Channel Head) (p : ℕ)
      → CanLeave c p
      → leave u c p ≡ ok (put_back c p, (release_payload (event_at (uncounted c p) p)).1)
  leave-run c p l =
      let same = write-at c p (record (event_at c p) { was_posted = false }) in
      leave-eq-ok c p (drop_posted-run c p l.posted l.counted) (
        give_event_back-eq-ok (uncounted c p) p (rw same l.off) (
          do_event_return-run u (uncounted c p).sys p (rw same l.attached) (rw same l.no_req)
            (rw same l.typed) (rw (same, l.plain) refl)))

  -- The channel without the event on the list.
  abbrev taken_off : Channel Head → ℕ → Channel Head
  taken_off c p =
      write_event (take_off u c p) p (record (event_at (take_off u c p) p) { is_subevent = false })

  taken_off-at :
      (c : Channel Head) (p : ℕ)
      → event_at (taken_off c p) p
        ≡ record (event_at c p) { is_ongoing_event = false; is_subevent = false }
  taken_off-at c p = let self : (p == p) ≡ true = ground arith in rw self refl

  finish_send-run :
      (c : Channel Head) (p : ℕ)
      → CanLeave (taken_off c p) p
      → (effects : List Effect) × (finish_send u c p ≡ ok (put_back (taken_off c p) p, effects))
  unfolding finish_send
  finish_send-run c p l = (_, leave-run (taken_off c p) p l)

  -- The event system after a send that completed: the event is back in its pool.
  pub record Settled (c c' : Channel Head) (p : ℕ) : Type 0 where
    pub free : c'.sys.free_evs ≡ give_back u c.sys.free_evs p
    pub used : c'.sys.num_used_evs ≡ sub_size c.sys.num_used_evs 1
    pub posted : c'.posted_sends ≡ sub_size c.posted_sends 1
    pub list : c'.ongoing_events ≡ del c.ongoing_events p
    pub others : (q : ℕ) → (p == q) ≡ false → event_at c' q ≡ event_at c q

  put_back-Settled :
      (c : Channel Head) (s : EventSystem Head) (p : ℕ) (e : Event Head)
      → s ≡ write c.sys p e
      → Settled c (put_back (taken_off (record c { sys = s }) p) p) p
  put_back-Settled c s p e h = rw h (record {
    free = refl;
    used = refl;
    posted = refl;
    list = refl;
    others = λ q apart. rw apart refl;
  })

  no_request : (a b : Bool) → a ≡ true → (a && not b) ≡ false → b ≡ true
  no_request a b e h = ground (arith, e, h)

  completed-CanLeave :
      (c : Channel Head) (p : ℕ) (e : Event Head)
      → event_at c p ≡ completed_event e
      → IsPosted e
      → e.complete ≡ true
      → 0 < c.posted_sends
      → CanLeave (taken_off c p) p
  completed-CanLeave c p e at i done counted =
      let at' = taken_off-at c p in
      record {
        off = ap (λ (e : Event Head). e.is_ongoing_event) at';
        posted =
            ap (λ (e : Event Head). e.was_posted) at'
            ∙ (ap (λ (e : Event Head). e.was_posted) at ∙ i.posted);
        attached =
            ap (λ (e : Event Head). is_null e.event_system) at'
            ∙ (ap (λ (e : Event Head). is_null e.event_system) at ∙ i.attached);
        no_req =
            ap (λ (e : Event Head). is_null e.req) at'
            ∙ (ap (λ (e : Event Head). is_null e.req) at
                ∙ no_request e.complete (is_null e.req) done i.idle);
        typed =
            ap (λ (e : Event Head). ltb 0 e.hdr_type) at'
            ∙ (ap (λ (e : Event Head). ltb 0 e.hdr_type) at ∙ i.typed);
        plain =
            ap (λ (e : Event Head). e.hdr_type == meta_event_type) at'
            ∙ (ap (λ (e : Event Head). e.hdr_type == meta_event_type) at ∙ i.plain);
        counted = ground (arith, counted);
      }

  progress_one-plain :
      (net : ℕ → Sent) (c : Channel Head) (p : ℕ)
      → IsPosted (event_at c p)
      → progress_one u net c p ≡ progress_event_send u net c p
  unfolding progress_one
  progress_one-plain net c p i = simp (i.queued, i.plain)

  event_completed-done :
      (c : Channel Head) (p : ℕ)
      → IsPosted (event_at c p)
      → (event_at c p).complete ≡ true
      → event_completed u c.sys p
        ≡ ok (true, (complete_event c.sys p).0, (complete_event c.sys p).1)
  unfolding event_completed
  event_completed-done c p i done = simp (i.plain, done)

  pub progress_one-done :
      (net : ℕ → Sent) (c : Channel Head) (p : ℕ)
      → IsPosted (event_at c p)
      → (event_at c p).complete ≡ true
      → 0 < c.posted_sends
      → (c' : Channel Head) × (effects : List Effect) × (progress_one u net c p ≡ ok (c', effects))
        × Settled c c' p
  unfolding progress_event_send
  progress_one-done net c p i done counted =
      let s1 = (complete_event c.sys p).0 in
      let c1 : Channel Head = record c { sys = s1 } in
      let at : event_at c1 p ≡ completed_event (event_at c p) =
        ap (λ (s : EventSystem Head). s.events p) (complete_event-write c.sys p)
        ∙ write-at c p (completed_event (event_at c p)) in
      let l = completed-CanLeave c1 p (event_at c p) at i done counted in
      let (effects, run) = finish_send-run c1 p l in
      (
        put_back (taken_off c1 p) p,
        (complete_event c.sys p).1 ++ effects,
        progress_one-plain net c p i
            ∙ >>=-ok _ (event_completed-done c p i done) (>>=-ok _ run refl),
        put_back-Settled c s1 p (completed_event (event_at c p)) (complete_event-write c.sys p),
      )

  event_completed-busy :
      (c : Channel Head) (p : ℕ)
      → IsPosted (event_at c p)
      → (event_at c p).complete ≡ false
      → event_completed u c.sys p ≡ ok (false, c.sys, [])
  unfolding event_completed
  event_completed-busy c p i busy = simp (i.plain, busy, i.attached)

  try_send-posted :
      (net : ℕ → Sent) (c : Channel Head) (p : ℕ)
      → event_posted (event_at c p) ≡ true
      → try_send u net c p ≡ ok c
  unfolding try_send
  try_send-posted net c p busy = elim (Bool-cases (can_post c)) [
    | inl a ↦ simp (a, busy)
    | inr b ↦ simp b
  ]

  pub progress_one-busy :
      (net : ℕ → Sent) (c : Channel Head) (p : ℕ)
      → IsPosted (event_at c p)
      → (event_at c p).complete ≡ false
      → progress_one u net c p ≡ ok (c, [])
  unfolding progress_event_send
  progress_one-busy net c p i busy =
      progress_one-plain net c p i
      ∙ >>=-ok _ (event_completed-busy c p i busy)
          (>>=-ok _ (try_send-posted net c p (simp (busy, i.posted))) refl)

  -- Between two calls: the ongoing events left the pool, each is listed once and was posted, and
  -- posted_sends counts them.
  pub record IsSending (c : Channel Head) (lent : List ℕ) : Type 0 where
    pub counts : Counts u c.sys lent
    pub out : (q : ℕ) → occurs q (items c.ongoing_events) ≤ occurs q lent
    pub each : (q : ℕ) → 0 < occurs q (items c.ongoing_events) → IsPosted (event_at c q)
    pub counted : c.posted_sends ≡ length (items c.ongoing_events)
