-- ===== src/Events/Completed.antt =====
-- event_completed on meta events: which sub-events go back to the pool, and when the meta event
-- completes.
use dpu_offload_service.Prelude.{
  ℕ, ◌+◌, ◌≡◌, refl, sym, ap, ◌∙◌, inl, inr, true, false, Bool, List, [], ◌++◌, arith, ◌==◌,
  Bool-cases, Option-cases,
}
use dpu_offload_service.Prelude.Result.{ok}
use dpu_offload_service.Prelude.Occurs.{occurs}
use dpu_offload_service.Ucs.{UcsList, is_nil}
use dpu_offload_service.Notifications.{is_null}
use dpu_offload_service.Events.{
  Event, EventSystem, Effect, meta_event_type, write, complete_event, event_completed,
}
use dpu_offload_service.Events.Returned.{ongoing, finished, Counts}
use dpu_offload_service.Events.Sweep.{Swept, IsList, return_completed-Swept}

module _ (u : UcsList) where
  open u use {Head, items, no_item, no_item_lem}

  abbrev pub sub_events : EventSystem Head → ℕ → List ℕ
  sub_events s ev = items (s.events ev).sub_events

  -- What event_completed does to the event system and answers.
  pub record Checked (ev : ℕ) (lent : List ℕ) (s s' : EventSystem Head) (answer : Bool)
      : Type 0 where
    pub completes : answer ≡ is_nil (ongoing s.events (sub_events s ev))
    pub rest : sub_events s' ev ≡ ongoing s.events (sub_events s ev)
    pub lent' : List ℕ
    pub counts : Counts u s' lent'
    pub shared :
        (q : ℕ) → occurs q lent' + occurs q (finished s.events (sub_events s ev)) ≡ occurs q lent

  -- COMPLETE_EVENT leaves the sub-events and the pool alone.
  record Marked (ev : ℕ) (s s' : EventSystem Head) : Type 0 where
    same_subs : sub_events s' ev ≡ sub_events s ev
    same_pool : s'.free_evs ≡ s.free_evs
    same_used : s'.num_used_evs ≡ s.num_used_evs

  write-Marked :
      (s : EventSystem Head) (ev : ℕ) (e : Event Head)
      → e.sub_events ≡ (s.events ev).sub_events
      → Marked ev s (write s ev e)
  write-Marked s ev e h =
      let self : (ev == ev) ≡ true = ground arith in
      record { same_subs = rw (self, sub_events) (ap items h); same_pool = refl; same_used = refl }

  complete_event-Marked : (s : EventSystem Head) (ev : ℕ) → Marked ev s (complete_event s ev).0
  unfolding complete_event
  complete_event-Marked s ev = elim (Option-cases (s.events ev).completion_cb) [
    | inl no_cb ↦ rw (no_cb, complete_event) (write-Marked s ev _ refl)
    | inr (cb, e) ↦ rw (e, complete_event) (write-Marked s ev _ refl)
  ]

  completed-Checked :
      (ev : ℕ) (lent : List ℕ) (s s' : EventSystem Head) (b : Bool)
      → Swept u ev [] (sub_events s ev) lent s s'
      → b ≡ is_nil (sub_events s' ev)
      → Checked ev lent s s' b
  completed-Checked ev lent s s' b w e = record {
    completes = e ∙ ap is_nil w.rest;
    rest = w.rest;
    lent' = w.lent';
    counts = w.counts;
    shared = w.shared;
  }

  Marked-Checked :
      {ev : ℕ} {lent : List ℕ} {s s' s'' : EventSystem Head} {b : Bool}
      → Checked ev lent s s' b
      → Marked ev s' s''
      → Checked ev lent s s'' b
  Marked-Checked c m = record {
    completes = c.completes;
    rest = m.same_subs ∙ c.rest;
    lent' = c.lent';
    counts = record { pool = rw m.same_pool c.counts.pool; used = m.same_used ∙ c.counts.used };
    shared = c.shared;
  }

  -- event_completed of a meta event whose list of sub-events is initialised and holds events that
  -- left the pool, each once, marked as sub-events, with a type, without sub-events that wait and
  -- without a request once they are complete. It returns. Every sub-event that is complete is taken
  -- off the list and returned to the pool, and the counter of used events stays the number of events
  -- out of the pool; the others stay, in order. The answer is true exactly if none is left.
  pub event_completed-Checked :
      (s : EventSystem Head) (ev : ℕ) (lent : List ℕ)
      → ((s.events ev).hdr_type == meta_event_type) ≡ true
      → is_null (s.events ev).event_system ≡ false
      → (s.events ev).sub_events_initialized ≡ true
      → IsList u ev [] (sub_events s ev) lent s
      → Counts u s lent
      → (answer : Bool) × (s' : EventSystem Head) × (effects : List Effect) × (event_completed u s
            ev
          ≡ ok (answer, s', effects))
        × Checked ev lent s s' answer
  unfolding event_completed
  event_completed-Checked s ev lent meta attached ready l c =
      let (r, run, w) = return_completed-Swept u ev (sub_events s ev) [] lent s [] l c in
      elim (Bool-cases (no_item (r.0.events ev).sub_events)) [
        | inl empty ↦ (
          true,
          (complete_event r.0 ev).0,
          r.1 ++ (complete_event r.0 ev).1,
          rw (meta, attached, ready, run, empty) refl,
          Marked-Checked
              (completed-Checked ev lent s r.0 true w
                (sym empty ∙ no_item_lem (r.0.events ev).sub_events))
              (complete_event-Marked r.0 ev),
        )
        | inr more ↦ (
          false,
          r.0,
          r.1,
          rw (meta, attached, ready, run, more) refl,
          completed-Checked ev lent s r.0 false w
              (sym more ∙ no_item_lem (r.0.events ev).sub_events),
        )
      ]
