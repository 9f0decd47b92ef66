-- ===== src/Events/Histories.antt =====
-- An event system over whole histories: events are taken from its pool, used and returned.
use dpu_offload_service.Prelude.{
  ℕ, suc, ◌<◌, ◌≡◌, sym, ap, ◌∙◌, inl, inr, true, Bool, not, ◌||◌, Option, some, List, ◌∷◌, ◌++◌,
  length, arith, ◌==◌, ltb, Bool-cases,
}
use mathlib.Core.Path.{subst}
use dpu_offload_service.Prelude.Result.{ok, Result-cases}
use dpu_offload_service.Prelude.Occurs.{occurs}
use dpu_offload_service.Size.{add_size, add_size-eq}
use dpu_offload_service.Ucs.{UcsList}
use dpu_offload_service.DynList.{give_back}
use dpu_offload_service.DynList.Calls.{Granted, get-Got}
use dpu_offload_service.Notifications.{is_null}
use dpu_offload_service.Notifications.Calls.{copied_lem}
use dpu_offload_service.Events.{
  Event, EventSystem, EventInfo, Effect, meta_event_type, event_size, reset_event, fill_event,
  do_event_return, event_return, event_get,
}
use dpu_offload_service.Events.Returned.{Counts, returned, returned-Counts}

module _ (u : UcsList) where
  open u use {Head, items, no_item}

  -- An event that went back to the pool.
  do_event_return-eq-ok :
      (s : EventSystem Head) (p : ℕ) {r : EventSystem Head × List Effect}
      → do_event_return u s p ≡ ok r
      → r.0 ≡ returned u s p
  unfolding do_event_return
  do_event_return-eq-ok s p h = elim (Bool-cases (is_null (s.events p).event_system)) [
    | inl bad ↦ absurd (cc (rw bad at h))
    | inr a ↦ elim (Bool-cases (is_null (s.events p).req)) [
      | inr bad ↦ absurd (cc (rw (a, bad) at h))
      | inl b ↦ elim (Bool-cases (ltb 0 (s.events p).hdr_type)) [
        | inr bad ↦ absurd (cc (rw (a, b, bad) at h))
        | inl c ↦
            elim (Bool-cases (
              not ((s.events p).hdr_type == meta_event_type)
              || not (s.events p).sub_events_initialized
              || no_item (s.events p).sub_events)) [
                | inr bad ↦ absurd (cc (rw (a, b, c, bad) at h))
                | inl d ↦
                    ap (λ (x : EventSystem Head × List Effect). x.0)
                      (sym (copied_lem (rw (a, b, c, d) at h)))
              ]
      ]
    ]
  ]

  event_return-eq-ok :
      (s : EventSystem Head) (p : ℕ) {r : EventSystem Head × List Effect}
      → event_return u s p ≡ ok r
      → r.0 ≡ returned u s p
  unfolding event_return
  event_return-eq-ok s p h = elim (Bool-cases (s.events p).is_ongoing_event) [
    | inl bad ↦ absurd (cc (rw bad at h))
    | inr fine ↦ do_event_return-eq-ok s p (rw fine at h)
  ]

module _ (u : UcsList) (allocates : ℕ → Bool) (mem_ok : (bytes : ℕ) → allocates bytes ≡ true)
    (get_buf : ℕ → ℕ → Option ℕ → Option ℕ) (malloc : ℕ → Option ℕ) where
  open u use {Head, items, no_item}

  -- What event_get does to the pool, and what the event that it hands out looks like.
  pub record Taken (s s' : EventSystem Head) (lent : List ℕ) (p : ℕ) : Type 0 where
    pub counts : Counts u s' (p ∷ lent)
    pub step : s'.free_evs.allocation_size ≡ s.free_evs.allocation_size
    pub not_used : occurs p lent ≡ 0

  event_get-Taken :
      (s : EventSystem Head) (lent : List ℕ) (answer : Option ℕ) (info : Option EventInfo)
      {r : ℕ × EventSystem Head}
      → Counts u s lent
      → 0 < s.free_evs.allocation_size
      → Granted u event_size s.free_evs answer
      → event_get u allocates get_buf malloc s answer info ≡ ok r
      → Taken s r.1 lent r.0
  unfolding event_get
  event_get-Taken s lent answer info c step granted h =
      let (g, run, got, _) =
        get-Got u event_size (omega arith) allocates mem_ok s.free_evs lent answer s.events step
          c.pool granted in
      let e = reset_event (record (g.2 g.0) { seq_num = s.seq_num }) in
      let e' : Event Head = record e {
        event_system = some s.address;
        scope_id = s.scope_id;
        sender_type = s.econtext_type;
      } in
      let one_more : add_size s.num_used_evs 1 ≡ suc (length lent) =
        add_size-eq s.num_used_evs 1 (omega (arith, c.used, got.pool.total, got.pool.in_word))
        ∙ omega (arith, c.used) in
      elim (Bool-cases (g.0 == 0)) [
        | inl null ↦ absurd (cc (rw (run, null) at h))
        | inr valid ↦ elim (Bool-cases (not e.sub_events_initialized || no_item e.sub_events)) [
          | inr bad ↦ absurd (cc (rw (run, valid, bad) at h))
          | inl fine ↦ elim (Result-cases (fill_event get_buf malloc info e')) [
            | inr (inl (o, bad)) ↦ absurd (cc (rw (run, valid, fine, bad) at h))
            | inr (inr bad) ↦ absurd (cc (rw (run, valid, fine, bad) at h))
            | inl (filled, f) ↦
                subst (λ (x : ℕ × EventSystem Head). Taken s x.1 lent x.0)
                  (copied_lem (rw (run, valid, fine, f) at h))
                  (record {
                    counts = record { pool = got.pool; used = one_more };
                    step = got.same_size;
                    not_used = got.not_lent;
                  })
          ]
        ]
      ]

  -- An event system and the events that left its pool.
  pub record Running : Type 0 where
    pub sys : EventSystem Head
    pub lent : List ℕ

  -- An event is taken, an event that left the pool is returned, or events are used: they change in
  -- any way, and the pool does not.
  pub data Step : Running → Running → Type 0 where
    gets :
        (s : Running) (answer : Option ℕ) (info : Option EventInfo) (p : ℕ) (s' : EventSystem Head)
        → Granted u event_size s.sys.free_evs answer
        → event_get u allocates get_buf malloc s.sys answer info ≡ ok (p, s')
        → Step s (record { sys = s'; lent = p ∷ s.lent })
    returns :
        (s : Running) (p : ℕ) (before after : List ℕ) (s' : EventSystem Head)
        (effects : List Effect)
        → s.lent ≡ before ++ (p ∷ after)
        → event_return u s.sys p ≡ ok (s', effects)
        → Step s (record { sys = s'; lent = before ++ after })
    uses :
        (s : Running) (events : ℕ → Event Head)
        → Step s (record { sys = record s.sys { events = events }; lent = s.lent })

  pub data Reach (s : Running) : Running → Type 0 where
    here : Reach s s
    next : {t w : Running} → Reach s t → Step t w → Reach s w

  record Works (s : Running) : Type 0 where
    counts : Counts u s.sys s.lent
    step : 0 < s.sys.free_evs.allocation_size

  returned-Works :
      (s : Running) (p : ℕ) (before after : List ℕ) {s' : EventSystem Head}
      → s.lent ≡ before ++ (p ∷ after)
      → s' ≡ returned u s.sys p
      → Works s
      → Works (record { sys = s'; lent = before ++ after })
  unfolding give_back
  returned-Works s p before after e r w = rw r (record {
    counts = returned-Counts u s.sys p before after (rw (← e) w.counts);
    step = w.step;
  })

  Step-Works : {s t : Running} → Step s t → Works s → Works t
  Step-Works (gets s answer info p s' granted h) w =
      let t = event_get-Taken s.sys s.lent answer info w.counts w.step granted h in
      record { counts = t.counts; step = rw t.step w.step }
  Step-Works (returns s p before after s' effects e h) w =
      returned-Works s p before after e (event_return-eq-ok u s.sys p h) w
  Step-Works (uses s events) w = record {
    counts = record { pool = w.counts.pool; used = w.counts.used };
    step = w.step;
  }

  Reach-Works : {s t : Running} → Works s → Reach s t → Works t
  Reach-Works w here = w
  Reach-Works w (next r st) = Step-Works st (Reach-Works w r)

  -- However events are taken, used and returned by calls that succeed, memory being available: the
  -- counter of used events stays the number of events that are out of the pool, each of which is out
  -- once, and the pool stays one in which every event is free or out.
  pub Reach-Counts :
      (s : Running) {t : Running}
      → Counts u s.sys s.lent
      → 0 < s.sys.free_evs.allocation_size
      → Reach s t
      → Counts u t.sys t.lent
  Reach-Counts s c step path = (Reach-Works (record { counts = c; step = step }) path).counts
