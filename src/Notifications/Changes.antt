-- ===== src/Notifications/Changes.antt =====
-- The calls that leave alone what waits: a second registration, updates and deregistrations.
use dpu_offload_service.Prelude.{
  ℕ, ◌<◌, ◌≡◌, refl, inl, inr, true, false, Bool, Option, some, List, [], length, arith, ◌==◌, leb,
  get_or, set, Bool-cases,
}
use dpu_offload_service.Prelude.Result.{ok}
use dpu_offload_service.DynArray.{DynArray}
use dpu_offload_service.DynArray.Grow.{IsValid}
use dpu_offload_service.DynArray.Access.{view, get_or-set}
use dpu_offload_service.DynArray.Alloc.{set-IsValid}
use dpu_offload_service.Ucs.{UcsList}
use dpu_offload_service.Notifications.{
  EvSys, CallbackEntry, reset_entry, NotifInfo, event_channel_register, event_channel_update,
  event_channel_deregister,
}
use dpu_offload_service.Notifications.Calls.{
  IsReady, Fits, handler, waiting, callback_entry-run, get_elem?-get_or, copied_lem,
}

module _ (u : UcsList) where
  open u use {Head, items}

  -- The same notifications wait, and no type has a handler that had none.
  pub record Kept (s s' : EvSys Head) (lent : List ℕ) : Type 0 where
    pub ready : IsReady u s' lent
    pub still : (t : ℕ) → waiting u s' t ≡ waiting u s t
    pub fewer : (t : ℕ) → (handler s' t).is_set ≡ true → (handler s t).is_set ≡ true

  pub with_callbacks :
      (s : EvSys Head) (lent : List ℕ) (b : DynArray CallbackEntry)
      → IsReady u s lent
      → IsValid b
      → ((t : ℕ) → (view reset_entry b t).is_set ≡ true → (handler s t).is_set ≡ true)
      → Kept s (record s { notification_callbacks = b }) lent
  with_callbacks s lent b r v fewer = record {
    ready = record { pool = r.pool; step = r.step; plain = r.plain; waits = r.waits; array = v };
    still = λ t. refl;
    fewer = fewer;
  }

  -- A write that sets no type anew.
  write_view :
      (b : DynArray CallbackEntry) (nt t : ℕ) (entry : CallbackEntry)
      → nt < length b.base
      → (entry.is_set ≡ true → (view reset_entry b nt).is_set ≡ true)
      → (get_or (set b.base nt entry) t reset_entry).is_set ≡ true
      → (view reset_entry b t).is_set ≡ true
  write_view b nt t entry inside h e = elim (Bool-cases (nt == t)) [
    | inl same ↦
        let i : nt ≡ t = ground arith in
        let e' = rw (get_or-set reset_entry b.base nt t entry inside, same) at e in rw (← i) (h e')
    | inr apart ↦ rw (get_or-set reset_entry b.base nt t entry inside, apart) at e
  ]

module _ (u : UcsList) (allocates : ℕ → Bool) (mem_ok : (bytes : ℕ) → allocates bytes ≡ true) where
  open u use {Head}

  module _ (s : EvSys Head) (lent : List ℕ) (nt : ℕ) (r : IsReady u s lent) where
    -- A second registration succeeds, calls nothing and leaves the first handler.
    pub register-Kept :
        (cb : ℕ) (info : Option NotifInfo)
        → Fits u s nt
        → (handler s nt).is_set ≡ true
        → (s' : EvSys Head) × (event_channel_register u allocates (some s) nt (some cb) info
            ≡ ok (s', []))
          × Kept u s s' lent
          × ((t : ℕ) → handler s' t ≡ handler s t)
    unfolding event_channel_register
    register-Kept cb info small on =
        let (b, run, g, same) = callback_entry-run u allocates mem_ok s nt r.array small in
        (
          record s { notification_callbacks = b },
          rw (run, on) refl,
          with_callbacks u s lent b r g.valid (λ t e. rw (← same t) e),
          same,
        )

    pub update-Kept :
        (info : NotifInfo) {s' : EvSys Head}
        → Fits u s nt
        → event_channel_update u allocates (some s) nt (some info) ≡ ok s'
        → Kept u s s' lent
    unfolding event_channel_update
    update-Kept info small e = elim (Bool-cases (handler s nt).is_set) [
      | inl on ↦
          let (b, run, g, same) = callback_entry-run u allocates mem_ok s nt r.array small in
          let entry : CallbackEntry = record (handler s nt) { is_set = true; info = info } in
          let inside : nt < length b.base = omega (arith, g.valid.full, g.reaches) in
          let e' = copied_lem (rw (run, on) at e) in
          rw (← e') (
            with_callbacks u s lent (record b { base = set b.base nt entry }) r
              (set-IsValid g.valid nt entry)
              (λ t h. rw (← same t) (write_view u b nt t entry inside (λ k. rw (same nt) on) h)))
      | inr off ↦
          let (b, run, g, same) = callback_entry-run u allocates mem_ok s nt r.array small in
          absurd (cc (rw (run, off) at e))
    ]

    pub deregister-Kept :
        {s' : EvSys Head} → event_channel_deregister (some s) nt ≡ ok s' → Kept u s s' lent
    unfolding event_channel_deregister
    deregister-Kept e = elim (Bool-cases (leb s.notification_callbacks.capacity nt)) [
      | inl out ↦ absurd (cc (rw out at e))
      | inr room ↦
          let b = s.notification_callbacks in
          let inside : nt < length b.base = (let f = r.array.full in ground arith) in
          let found = get_elem?-get_or b.base nt reset_entry inside in
          elim (Bool-cases (handler s nt).is_set) [
            | inl on ↦
                let entry : CallbackEntry = record (handler s nt) { is_set = false } in
                let e' = copied_lem (rw (room, found, on) at e) in
                rw (← e') (
                  with_callbacks u s lent (record b { base = set b.base nt entry }) r
                    (set-IsValid r.array nt entry)
                    (λ t h. write_view u b nt t entry inside (λ k. absurd cc) h))
            | inr off ↦ absurd (cc (rw (room, found, off) at e))
          ]
    ]
