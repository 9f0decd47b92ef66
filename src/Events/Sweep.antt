-- ===== src/Events/Sweep.antt =====
-- The loop of event_completed over the sub-events of a meta event.
use dpu_offload_service.Prelude.{
  ℕ, ◌+◌, ◌≤◌, ◌<◌, ◌≡◌, refl, sym, ap, ◌∙◌, inl, inr, true, false, List, [], ◌∷◌, ◌++◌, arith,
  ◌==◌, Bool-cases,
}
use mathlib.Core.List.{append_assoc}
use dpu_offload_service.Prelude.Result.{ok}
use dpu_offload_service.Prelude.Occurs.{occurs, occurs-append}
use dpu_offload_service.Ucs.{UcsList}
use dpu_offload_service.Events.{
  Event, EventSystem, Effect, detach, release_payload, return_completed,
}
use dpu_offload_service.Events.Returned.{
  ongoing, finished, ongoing_congr, finished_congr, occurs_split, IsSubevent, Counts, returned,
  returned-Counts, after-meta, after-others, detach-run,
}

module _ (u : UcsList) where
  open u use {Head, items, items-del}

  -- What the loop over `ps` does where `kept` stands before `ps` among the sub-events.
  pub record Swept (ev : ℕ) (kept ps lent : List ℕ) (s s' : EventSystem Head) : Type 0 where
    pub rest : items (s'.events ev).sub_events ≡ kept ++ ongoing s.events ps
    pub lent' : List ℕ
    pub counts : Counts u s' lent'
    pub shared : (q : ℕ) → occurs q lent' + occurs q (finished s.events ps) ≡ occurs q lent

  -- What it needs of the list.
  pub record IsList (ev : ℕ) (kept ps lent : List ℕ) (s : EventSystem Head) : Type 0 where
    pub listed : items (s.events ev).sub_events ≡ kept ++ ps
    pub once : (q : ℕ) → occurs q kept + occurs q ps ≤ 1
    pub proper : occurs ev ps ≡ 0
    pub sub : (q : ℕ) → 0 < occurs q ps → IsSubevent u (s.events q)
    pub out : (q : ℕ) → occurs q ps ≤ occurs q lent

  -- The list without its first event, which is not complete.
  skip_first :
      {ev : ℕ} {kept : List ℕ} {lent : List ℕ} {s : EventSystem Head} (p : ℕ) (ps : List ℕ)
      → IsList ev kept (p ∷ ps) lent s
      → IsList ev (kept ++ (p ∷ [])) ps lent s
  skip_first {kept = kept} p ps l = record {
    listed = l.listed ∙ sym (append_assoc kept (p ∷ []) ps);
    once = λ q. omega (arith, l.once q, occurs-append q kept (p ∷ []));
    proper = omega (arith, l.proper);
    sub = λ q h. l.sub q (omega arith);
    out = λ q. omega (arith, l.out q);
  }

  unseen : (p q : ℕ) (ps : List ℕ) → occurs p ps ≡ 0 → 0 < occurs q ps → (p == q) ≡ false
  unseen p q ps e h = elim (Bool-cases (p == q)) [
    | inl same ↦
        let i : p ≡ q = ground arith in let e' : occurs q ps ≡ 0 = rw i at e in absurd (omega arith)
    | inr apart ↦ apart
  ]

  -- The list after its first event was returned.
  drop_first :
      {ev : ℕ} {kept : List ℕ} (s : EventSystem Head) (p : ℕ) (ps before after : List ℕ)
      → IsList ev kept (p ∷ ps) (before ++ (p ∷ after)) s
      → (ev == p) ≡ false
      → IsList ev kept ps (before ++ after) (returned u (detach u s ev p) p)
  drop_first {ev} {kept} s p ps before after l apart =
      let absent : occurs p ps ≡ 0 = (let o = l.once p in ground arith) in
      let none_kept : occurs p kept ≡ 0 = (let o = l.once p in ground arith) in
      let proper : occurs ev ps ≡ 0 = omega (arith, l.proper) in
      record {
        listed =
            ap (λ (e : Event Head). items e.sub_events) (after-meta u s ev p apart)
            ∙ items-del (s.events ev).sub_events kept ps p l.listed none_kept absent;
        once = λ q. omega (arith, l.once q);
        proper = proper;
        sub = λ q h.
            rw (after-others u s ev p apart q (unseen p q ps absent h) (unseen ev q ps proper h))
              (l.sub q (omega arith));
        out = λ q.
            omega
              (arith, l.out q, occurs-append q before (p ∷ after), occurs-append q before after);
      }

  -- The first event, which was complete, joins those that were returned.
  sweep_first :
      (ev p : ℕ) (ps kept lent before after : List ℕ) (s s' s'' : EventSystem Head)
      → lent ≡ before ++ (p ∷ after)
      → (s.events p).complete ≡ true
      → ((q : ℕ) → 0 < occurs q ps → s'.events q ≡ s.events q)
      → Swept ev kept ps (before ++ after) s' s''
      → Swept ev kept (p ∷ ps) lent s s''
  unfolding ongoing finished
  sweep_first ev p ps kept lent before after s s' s'' e done same w = record {
    rest = rw done (w.rest ∙ ap (λ t. kept ++ t) (ongoing_congr s'.events s.events ps same));
    lent' = w.lent';
    counts = w.counts;
    shared = λ q. rw done (
        omega (
          arith,
          w.shared q,
          ap (occurs q) (finished_congr s'.events s.events ps same),
          occurs-append q before (p ∷ after),
          occurs-append q before after,
          ap (occurs q) e,
        ));
  }

  run_first :
      (ev p : ℕ) (ps : List ℕ) (s : EventSystem Head) (effects : List Effect)
      {r : EventSystem Head × List Effect}
      → (ev == p) ≡ false
      → IsSubevent u (s.events p)
      → (s.events p).complete ≡ true
      → return_completed u ev ps
          (returned u (detach u s ev p) p)
          (effects ++ (release_payload ((detach u s ev p).events p)).1)
        ≡ ok r
      → return_completed u ev (p ∷ ps) s effects ≡ ok r
  unfolding return_completed
  run_first ev p ps s effects apart sub done run =
      rw (sub.marked, done, detach-run u s ev p apart sub done) run

  -- The loop returns every sub-event that is complete and keeps the others, in order.
  pub return_completed-Swept :
      (ev : ℕ) (ps kept lent : List ℕ) (s : EventSystem Head) (effects : List Effect)
      → IsList ev kept ps lent s
      → Counts u s lent
      → (r : EventSystem Head × List Effect) × (return_completed u ev ps s effects ≡ ok r)
        × Swept ev kept ps lent s r.0
  unfolding return_completed ongoing finished
  return_completed-Swept ev [] kept lent s effects l c = (
    (s, effects),
    refl,
    record { rest = l.listed; lent' = lent; counts = c; shared = λ q. omega arith },
  )
  return_completed-Swept ev (p ∷ ps) kept lent s effects l c =
      let sub = l.sub p (ground arith) in
      let apart : (ev == p) ≡ false = (let e = l.proper in ground arith) in
      elim (Bool-cases (s.events p).complete) [
        | inr open_still ↦
            let (r, run, w) =
              return_completed-Swept ev ps (kept ++ (p ∷ [])) lent s effects (skip_first p ps l)
                c in
            (
              r,
              rw (sub.marked, open_still) run,
              record {
                rest = rw open_still (w.rest ∙ append_assoc kept (p ∷ []) (ongoing s.events ps));
                lent' = w.lent';
                counts = w.counts;
                shared = λ q. rw open_still (w.shared q);
              },
            )
        | inl done ↦
            let (before, after, e) = occurs_split p lent (omega (arith, l.out p, at_front p ps)) in
            let d = detach u s ev p in
            let c' : Counts u d (before ++ (p ∷ after)) =
              rw (← e) (record { pool = c.pool; used = c.used }) in
            let s' = returned u d p in
            let absent : occurs p ps ≡ 0 = (let o = l.once p in ground arith) in
            let same : (q : ℕ) → 0 < occurs q ps → s'.events q ≡ s.events q = λ q h.
              after-others u s ev p apart q (unseen p q ps absent h)
                (unseen ev q ps (omega (arith, l.proper)) h) in
            let l' = drop_first s p ps before after (rw (← e) l) apart in
            let (r, run, w) =
              return_completed-Swept ev ps kept (before ++ after) s'
                (effects ++ (release_payload (d.events p)).1) l'
                (returned-Counts u d p before after c') in
            (
              r,
              run_first ev p ps s effects apart sub done run,
              sweep_first ev p ps kept lent before after s s' r.0 e done same w,
            )
      ]
    where
      at_front : (p : ℕ) (ps : List ℕ) → 0 < occurs p (p ∷ ps)
      at_front p ps = ground arith
