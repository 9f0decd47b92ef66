-- ===== src/Events/Emit/Sweep.antt =====
-- progress_econtext_sends over the whole list of ongoing events.
use dpu_offload_service.Prelude.{
  ℕ, ◌+◌, ◌≤◌, ◌<◌, ◌≡◌, refl, sym, ap, ◌∙◌, inl, inr, true, false, List, [], ◌∷◌, ◌++◌, length,
  length-append, arith, ◌==◌, if◌then◌else◌, Bool-cases,
}
use mathlib.Core.List.{append_assoc}
use dpu_offload_service.Prelude.Result.{ok, >>=-ok}
use dpu_offload_service.Prelude.Occurs.{occurs, occurs-append}
use dpu_offload_service.Size.{word, sub_size-eq}
use dpu_offload_service.Ucs.{UcsList}
use dpu_offload_service.DynList.Calls.{give_back-IsPool}
use dpu_offload_service.Events.{Effect, event_size}
use dpu_offload_service.Events.Returned.{
  ongoing, finished, ongoing_congr, finished_congr, occurs_split, Counts,
}
use dpu_offload_service.Events.Emit.{
  Sent, Channel, event_at, progress_all, progress_econtext_sends, context_self,
}
use dpu_offload_service.Events.Emit.Progress.{
  Settled, IsSending, progress_one-done, progress_one-busy,
}

-- A list that holds nothing more often than another one is not longer.
pub length_le_of_occurs :
    (xs ys : List ℕ) → ((q : ℕ) → occurs q xs ≤ occurs q ys) → length xs ≤ length ys
length_le_of_occurs [] ys h = omega arith
length_le_of_occurs (x ∷ xs) ys h =
    let at_x : 0 < occurs x ys = (let hx = h x in ground arith) in
    let (before, after, e) = occurs_split x ys at_x in
    let shorter = length_le_of_occurs xs (before ++ after) (λ q. omega (
      arith,
      h q,
      ap (occurs q) e,
      occurs-append q before (x ∷ after),
      occurs-append q before after,
    )) in
    omega
      (arith, shorter, ap length e, length-append before (x ∷ after), length-append before after)

once_lem : (p a b : ℕ) → a + ((if p == p then 1 else 0) + b) ≤ 1 → a + b ≡ 0
once_lem p a b h = ground (arith, h)

pub apart_lem : (p q : ℕ) (xs : List ℕ) → occurs p xs ≡ 0 → 0 < occurs q xs → (p == q) ≡ false
apart_lem p q xs e h = elim (Bool-cases (p == q)) [
  | inl same ↦
      let i : p ≡ q = ground arith in
      let e' : occurs q xs ≡ 0 = rw i at e in absurd (omega (arith, e', h))
  | inr apart ↦ apart
]

at_front : (p : ℕ) (kept ps : List ℕ) → 0 < occurs p (kept ++ (p ∷ ps))
at_front p kept ps = let e = occurs-append p kept (p ∷ ps) in ground (arith, e)

module _ (u : UcsList) where
  open u use {Head, items, items-del}

  -- Events that left the pool left it once.
  pub lent_once :
      (c : Channel Head) (lent : List ℕ) → Counts u c.sys lent → (q : ℕ) → occurs q lent ≤ 1
  lent_once c lent counts q = omega (arith, counts.pool.owns q, counts.pool.once q)

  -- An event is listed once.
  alone_lem :
      (c : Channel Head) (p : ℕ) (kept ps lent : List ℕ)
      → IsSending u c lent
      → items c.ongoing_events ≡ kept ++ (p ∷ ps)
      → occurs p kept + occurs p ps ≡ 0
  alone_lem c p kept ps lent s listed = once_lem p (occurs p kept) (occurs p ps) (
      omega (
        arith,
        ap (occurs p) listed,
        occurs-append p kept (p ∷ ps),
        s.out p,
        lent_once c lent s.counts p,
      ))

  -- What the loop over `ps` does where `kept` stands before `ps` on the list.
  pub record Progressed (kept ps lent : List ℕ) (c c' : Channel Head) : Type 0 where
    pub rest : items c'.ongoing_events ≡ kept ++ ongoing c.sys.events ps
    pub lent' : List ℕ
    pub sending : IsSending u c' lent'
    pub shared : (q : ℕ) → occurs q lent' + occurs q (finished c.sys.events ps) ≡ occurs q lent

  -- The invariant once the event at `p` went back to its pool.
  Settled-IsSending :
      (c c' : Channel Head) (p : ℕ) (kept ps before after : List ℕ)
      → IsSending u c (before ++ (p ∷ after))
      → items c.ongoing_events ≡ kept ++ (p ∷ ps)
      → Settled u c c' p
      → (items c'.ongoing_events ≡ kept ++ ps) × IsSending u c' (before ++ after)
  Settled-IsSending c c' p kept ps before after s listed d =
      let lent : List ℕ = before ++ (p ∷ after) in
      let seen = λ (q : ℕ). ap (occurs q) listed ∙ occurs-append q kept (p ∷ ps) in
      let alone = alone_lem c p kept ps lent s listed in
      let listed' : items c'.ongoing_events ≡ kept ++ ps =
        ap items d.list
        ∙ items-del c.ongoing_events kept ps p listed (omega (arith, alone))
            (omega (arith, alone)) in
      let seen' = λ (q : ℕ). ap (occurs q) listed' ∙ occurs-append q kept ps in
      let long = length-append before (p ∷ after) in
      let short = length-append before after in
      let some_used : 1 ≤ c.sys.num_used_evs = omega (arith, s.counts.used, long) in
      let fits : c.sys.num_used_evs < word =
        omega (arith, s.counts.used, s.counts.pool.total, s.counts.pool.in_word) in
      let fewer : length (items c.ongoing_events) ≤ length lent =
        length_le_of_occurs (items c.ongoing_events) lent s.out in
      let posted =
        sub_size-eq c.posted_sends 1
          (omega (arith, s.counted, ap length listed, length-append kept (p ∷ ps)))
          (omega (arith, s.counted, fewer, s.counts.used, fits)) in
      (
        listed',
        record {
          counts = record {
            pool =
                rw d.free
                  (give_back-IsPool u event_size c.sys.free_evs before after p s.counts.pool);
            used =
                d.used
                ∙ omega (
                  arith,
                  sub_size-eq c.sys.num_used_evs 1 some_used fits,
                  s.counts.used,
                  long,
                  short,
                );
          };
          out = λ q.
              (let a = seen q in
                let b = seen' q in
                let o = s.out q in
                omega (
                  arith,
                  a,
                  b,
                  o,
                  occurs-append q before (p ∷ after),
                  occurs-append q before after,
                ));
          each = λ q h.
              (let apart =
                  apart_lem p q (kept ++ ps) (omega (arith, occurs-append p kept ps, alone))
                    (rw listed' at h) in
                rw (d.others q apart)
                  (s.each q (let b = seen' q in let a = seen q in omega (arith, a, b, h))));
          counted =
              d.posted
              ∙ omega (
                arith,
                posted,
                s.counted,
                ap length listed,
                ap length listed',
                length-append kept (p ∷ ps),
                length-append kept ps,
              );
        },
      )

  -- The first event, which was complete, joins those that went back.
  returned_first :
      (kept lent before after : List ℕ) (c c1 c' : Channel Head) (p : ℕ) (ps : List ℕ)
      → lent ≡ before ++ (p ∷ after)
      → (event_at c p).complete ≡ true
      → ((q : ℕ) → 0 < occurs q ps → event_at c1 q ≡ event_at c q)
      → Progressed kept ps (before ++ after) c1 c'
      → Progressed kept (p ∷ ps) lent c c'
  unfolding ongoing finished
  returned_first kept lent before after c c1 c' p ps e done same w = record {
    rest =
        rw done (w.rest ∙ ap (λ t. kept ++ t) (ongoing_congr c1.sys.events c.sys.events ps same));
    lent' = w.lent';
    sending = w.sending;
    shared = λ q. rw done (
        omega (
          arith,
          w.shared q,
          ap (occurs q) (finished_congr c1.sys.events c.sys.events ps same),
          occurs-append q before (p ∷ after),
          occurs-append q before after,
          ap (occurs q) e,
        ));
  }

  -- The loop returns every event that is complete and keeps the others, in order.
  progress_all-Progressed :
      (net : ℕ → Sent) (ps kept lent : List ℕ) (c : Channel Head) (effects : List Effect)
      → items c.ongoing_events ≡ kept ++ ps
      → IsSending u c lent
      → (c' : Channel Head) × (effects' : List Effect) × (progress_all u net c ps effects
          ≡ ok (c', effects'))
        × Progressed kept ps lent c c'
  unfolding progress_all ongoing finished
  progress_all-Progressed net [] kept lent c effects listed s = (
    c,
    effects,
    refl,
    record { rest = listed; lent' = lent; sending = s; shared = λ q. omega arith },
  )
  progress_all-Progressed net (p ∷ ps) kept lent c effects listed s =
      let here : 0 < occurs p (items c.ongoing_events) = rw listed (at_front p kept ps) in
      let i = s.each p here in
      elim (Bool-cases (event_at c p).complete) [
        | inr busy ↦
            let (c', effects', run, w) =
              progress_all-Progressed net ps (kept ++ (p ∷ [])) lent c (effects ++ [])
                (listed ∙ sym (append_assoc kept (p ∷ []) ps)) s in
            (
              c',
              effects',
              >>=-ok _ (progress_one-busy u net c p i busy) run,
              record {
                rest = rw busy (w.rest ∙ append_assoc kept (p ∷ []) (ongoing c.sys.events ps));
                lent' = w.lent';
                sending = w.sending;
                shared = λ q. rw busy (w.shared q);
              },
            )
        | inl done ↦
            let (before, after, e) = occurs_split p lent (omega (arith, here, s.out p)) in
            let s' : IsSending u c (before ++ (p ∷ after)) = rw (← e) s in
            let some_posted : 0 < c.posted_sends =
              omega (arith, s.counted, ap length listed, length-append kept (p ∷ ps)) in
            let (c1, effects1, one, d) = progress_one-done u net c p i done some_posted in
            let (listed1, s1) = Settled-IsSending c c1 p kept ps before after s' listed d in
            let (c', effects', run, w) =
              progress_all-Progressed net ps kept (before ++ after) c1 (effects ++ effects1) listed1
                s1 in
            let absent : occurs p ps ≡ 0 = omega (arith, alone_lem c p kept ps lent s listed) in
            let same : (q : ℕ) → 0 < occurs q ps → event_at c1 q ≡ event_at c q =
              λ q h. d.others q (apart_lem p q ps absent h) in
            (
              c',
              effects',
              >>=-ok _ one run,
              returned_first kept lent before after c c1 c' p ps e done same w,
            )
      ]

  -- progress_econtext_sends on an execution context whose ongoing events were posted: it returns.
  -- Every ongoing event that is complete leaves the list and goes back to the pool, the others stay in
  -- order, and posted_sends stays the number of ongoing events.
  pub progress_econtext_sends-Progressed :
      (net : ℕ → Sent) (c : Channel Head) (lent : List ℕ)
      → (c.sys.scope_id == context_self) ≡ false
      → IsSending u c lent
      → (c' : Channel Head) × (effects : List Effect) × (progress_econtext_sends u net c
          ≡ ok (c', effects))
        × Progressed [] (items c.ongoing_events) lent c c'
  unfolding progress_econtext_sends
  progress_econtext_sends-Progressed net c lent scope s =
      let (c', effects, run, w) =
        progress_all-Progressed net (items c.ongoing_events) [] lent c [] refl s in
      (c', effects, rw scope run, w)
