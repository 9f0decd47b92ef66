-- ===== src/Events/Returned.antt =====
-- do_event_return on an event of a meta event, and the events of a list that are complete.
use dpu_offload_service.Prelude.{
  ℕ, ◌≤◌, ◌<◌, ◌≡◌, refl, ap, inl, inr, true, false, Bool, not, ◌&&◌, ◌||◌, List, [], ◌∷◌, ◌++◌,
  length, length-append, arith, ◌==◌, ltb, if◌then◌else◌, Bool-cases,
}
use dpu_offload_service.Prelude.Result.{ok}
use dpu_offload_service.Prelude.Occurs.{occurs}
use dpu_offload_service.Size.{word, sub_size, sub_size-eq}
use dpu_offload_service.Ucs.{UcsList}
use dpu_offload_service.DynList.{give_back}
use dpu_offload_service.DynList.Pool.{IsPool}
use dpu_offload_service.DynList.Calls.{give_back-IsPool}
use dpu_offload_service.Notifications.{is_null}
use dpu_offload_service.Events.{
  Event, EventSystem, meta_event_type, event_size, write, detach, release_payload, do_event_return,
}

-- The events of a list that are not complete, and those that are.
unfoldable pub ongoing : {Head : Type 0} → (ℕ → Event Head) → List ℕ → List ℕ
ongoing events [] = []
ongoing events (p ∷ ps) =
    let rest = ongoing events ps in if (events p).complete then rest else p ∷ rest

unfoldable pub finished : {Head : Type 0} → (ℕ → Event Head) → List ℕ → List ℕ
finished events [] = []
finished events (p ∷ ps) =
    let rest = finished events ps in if (events p).complete then p ∷ rest else rest

module _ {Head : Type 0} (a b : ℕ → Event Head) where
  pub ongoing_congr :
      (ps : List ℕ) → ((q : ℕ) → 0 < occurs q ps → a q ≡ b q) → ongoing a ps ≡ ongoing b ps
  unfolding ongoing
  ongoing_congr [] h = refl
  ongoing_congr (p ∷ ps) h =
      rw (h p (ground arith), ongoing_congr ps (λ q k. h q (omega arith))) refl

  pub finished_congr :
      (ps : List ℕ) → ((q : ℕ) → 0 < occurs q ps → a q ≡ b q) → finished a ps ≡ finished b ps
  unfolding finished
  finished_congr [] h = refl
  finished_congr (p ∷ ps) h =
      rw (h p (ground arith), finished_congr ps (λ q k. h q (omega arith))) refl

-- An element of a list stands somewhere in it.
pub occurs_split :
    (p : ℕ) (l : List ℕ)
    → 0 < occurs p l
    → (before : List ℕ) × (after : List ℕ) × (l ≡ before ++ (p ∷ after))
occurs_split p [] h = absurd (omega arith)
occurs_split p (x ∷ l) h = elim (Bool-cases (x == p)) [
  | inl same ↦ let e : x ≡ p = ground arith in ([], l, rw e)
  | inr apart ↦
      let (before, after, e) = occurs_split p l (ground arith) in
      (x ∷ before, after, ap (λ r. x ∷ r) e)
]

no_request : (a b : Bool) → a ≡ true → (a && not b) ≡ false → b ≡ true
no_request true true e h = refl
no_request true false e h = absurd cc
no_request false b e h = absurd cc

module _ (u : UcsList) where
  open u use {Head, items, no_item, del, items-del}

  -- A sub-event that do_event_return takes back once it is complete: it has no request then, a type,
  -- and no sub-events of its own.
  pub record IsSubevent (e : Event Head) : Type 0 where
    pub marked : e.is_subevent ≡ true
    pub attached : is_null e.event_system ≡ false
    pub idle : (e.complete && not (is_null e.req)) ≡ false
    pub typed : ltb 0 e.hdr_type ≡ true
    pub closed :
        (not (e.hdr_type == meta_event_type)
          || not e.sub_events_initialized
          || no_item e.sub_events)
        ≡ true

  -- The event system with the events that left its pool.
  pub record Counts (s : EventSystem Head) (lent : List ℕ) : Type 0 where
    pub pool : IsPool u event_size s.free_evs lent
    pub used : s.num_used_evs ≡ length lent

  -- An event system after do_event_return.
  abbrev pub returned : EventSystem Head → ℕ → EventSystem Head
  returned s p = record (write s p (release_payload (s.events p)).0) {
    num_used_evs = sub_size s.num_used_evs 1;
    free_evs = give_back u s.free_evs p;
  }

  pub returned-Counts :
      (s : EventSystem Head) (p : ℕ) (before after : List ℕ)
      → Counts s (before ++ (p ∷ after))
      → Counts (returned s p) (before ++ after)
  returned-Counts s p before after c =
      let long = length-append before (p ∷ after) in
      let short = length-append before after in
      let some_used : 1 ≤ s.num_used_evs = omega (arith, c.used, long) in
      let fits : s.num_used_evs < word = omega (arith, c.used, c.pool.total, c.pool.in_word) in
      record {
        pool = give_back-IsPool u event_size s.free_evs before after p c.pool;
        used = omega (arith, sub_size-eq s.num_used_evs 1 some_used fits, c.used, long, short);
      }

  pub do_event_return-run :
      (s : EventSystem Head) (p : ℕ)
      → is_null (s.events p).event_system ≡ false
      → is_null (s.events p).req ≡ true
      → ltb 0 (s.events p).hdr_type ≡ true
      → (not ((s.events p).hdr_type == meta_event_type)
          || not (s.events p).sub_events_initialized
          || no_item (s.events p).sub_events)
        ≡ true
      → do_event_return u s p ≡ ok (returned s p, (release_payload (s.events p)).1)
  unfolding do_event_return
  do_event_return-run s p a b c d = rw (a, b, c, d) refl

  module _ (s : EventSystem Head) (ev p : ℕ) (apart : (ev == p) ≡ false) where
    p_apart : (p == ev) ≡ false
    p_apart = ground arith

    p_self : (p == p) ≡ true
    p_self = ground arith

    ev_self : (ev == ev) ≡ true
    ev_self = ground arith

    pub detach-sub : (detach u s ev p).events p ≡ record (s.events p) { is_subevent = false }
    detach-sub = rw (p_self, apart) refl

    pub after-meta :
        (returned (detach u s ev p) p).events ev
        ≡ record (s.events ev) { sub_events = del (s.events ev).sub_events p }
    after-meta = rw (p_apart, ev_self) refl

    pub after-others :
        (q : ℕ)
        → (p == q) ≡ false
        → (ev == q) ≡ false
        → (returned (detach u s ev p) p).events q ≡ s.events q
    after-others q e e' = rw (e, e') refl

    pub detach-run :
        IsSubevent (s.events p)
        → (s.events p).complete ≡ true
        → do_event_return u (detach u s ev p) p
          ≡ ok (returned (detach u s ev p) p, (release_payload ((detach u s ev p).events p)).1)
    detach-run sub e =
        do_event_return-run (detach u s ev p) p (rw detach-sub sub.attached)
          (rw detach-sub (no_request (s.events p).complete (is_null (s.events p).req) e sub.idle))
          (rw detach-sub sub.typed) (rw detach-sub sub.closed)
