-- ===== src/Notifications/Calls.antt =====
-- Each call on an event system: who handles which type, what waits, and which callbacks are invoked.
use dpu_offload_service.Prelude.{
  ℕ, zero, suc, ◌+◌, ◌*◌, ◌≤◌, ◌<◌, ◌≡◌, refl, ap, ◌∙◌, inl, inr, true, false, Bool, Option, none,
  some, List, [], ◌∷◌, map, take, length, arith, ◌==◌, leb, if◌then◌else◌, get_elem?, get_or,
  Bool-cases,
}
use dpu_offload_service.Prelude.Result.{Result, ok, need}
use dpu_offload_service.Prelude.Occurs.{occurs}
use dpu_offload_service.Size.{word}
use dpu_offload_service.DynArray.{DynArray}
use dpu_offload_service.DynArray.Grow.{IsValid, Grown}
use dpu_offload_service.DynArray.Access.{view, get_elt-Grown, get_or-set}
use dpu_offload_service.DynArray.Alloc.{set-IsValid}
use dpu_offload_service.Ucs.{UcsList}
use dpu_offload_service.DynList.Pool.{IsPool}
use dpu_offload_service.Notifications.{
  EvSys, CallbackEntry, reset_entry, Call, NotifInfo, pending_size, copy, callback_entry,
  or_no_info, event_channel_register, deliver_pending, write_entry,
}
use dpu_offload_service.Notifications.Pending.{
  Message, contents, call_message, pending_of, selected, others, calls_for,
  deliver_pending-Delivered, messages-calls_for, others_type, pending_of_congr, pending_of-others,
  occurs-others,
}

pub get_elem?-get_or {ℓ} :
    {A : Type ℓ} (xs : List A) (i : ℕ) (z : A)
    → i < length xs
    → get_elem? xs i ≡ some (get_or xs i z)
get_elem?-get_or [] i z h = absurd (omega arith)
get_elem?-get_or (x ∷ xs) zero z h = refl
get_elem?-get_or (x ∷ xs) (suc i) z h = get_elem?-get_or xs i z (omega arith)

take-take : (n : ℕ) (xs : List ℕ) → take n (take n xs) ≡ take n xs
take-take zero xs = refl
take-take (suc n) [] = refl
take-take (suc n) (x ∷ xs) = ap (λ r. x ∷ r) (take-take n xs)

pub need-eq-ok {ℓ} : {A : Type ℓ} (m : Option A) {a : A} → need m ≡ ok a → m ≡ some a
need-eq-ok none h = absurd cc
need-eq-ok (some a) h = cc

pub copied_lem {ℓ} : {A : Type ℓ} {a b : A} → ◌≡◌ {A = Result A} (ok a) (ok b) → a ≡ b
copied_lem h = cc

positive : (n : ℕ) → (suc n == 0) ≡ false
positive n = ground arith

-- A copy that succeeds has the bytes that count.
pub contents-copy :
    (allocates : ℕ → Bool) (src : Option (List ℕ)) (size : ℕ) {k : Option (List ℕ)}
    → copy allocates src size ≡ ok k
    → contents k size ≡ contents src size
unfolding copy
contents-copy allocates none zero h = let e : none ≡ _ = copied_lem h in rw (← e) refl
contents-copy allocates (some b) zero h = let e : none ≡ _ = copied_lem h in rw (← e) refl
contents-copy allocates none (suc n) h = elim (Bool-cases (allocates (suc n))) [
  | inl room ↦ absurd (cc (rw (positive n, room) at h))
  | inr full ↦ absurd (cc (rw (positive n, full) at h))
]
contents-copy allocates (some b) (suc n) h = elim (Bool-cases (allocates (suc n))) [
  | inr full ↦ absurd (cc (rw (positive n, full) at h))
  | inl room ↦
      let h' = rw (positive n, room) at h in
      elim (Bool-cases (leb (suc n) (length b))) [
        | inr short ↦ absurd (cc (rw short at h'))
        | inl long ↦
            let e : some (take (suc n) b) ≡ _ = copied_lem (rw long at h') in
            rw (← e) (take-take (suc n) b)
      ]
]

-- Who handles a type.
abbrev pub handler : {Head : Type 0} → EvSys Head → ℕ → CallbackEntry
handler s t = view reset_entry s.notification_callbacks t

module _ (u : UcsList) (allocates : ℕ → Bool) (mem_ok : (bytes : ℕ) → allocates bytes ≡ true) where
  open u use {Head}

  -- The entry of a type: only the array of callbacks may grow, and nobody handles another type then.
  pub callback_entry-run :
      (s : EvSys Head) (t : ℕ)
      → IsValid s.notification_callbacks
      → (t + s.notification_callbacks.allocation_size) * s.notification_callbacks.type_size < word
      → (b : DynArray CallbackEntry) × (callback_entry u allocates s t
          ≡ ok (record s { notification_callbacks = b }, handler s t))
        × Grown reset_entry s.notification_callbacks t b
        × ((i : ℕ) → view reset_entry b i ≡ handler s i)
  unfolding callback_entry
  callback_entry-run s t v small =
      let (b, run, g, same) =
        get_elt-Grown reset_entry allocates mem_ok s.notification_callbacks t v small in
      let found = get_elem?-get_or b.base t reset_entry (omega (arith, g.valid.full, g.reaches)) in
      (b, rw (run, found, same t) refl, g, same)

module _ (u : UcsList) where
  open u use {Head, items}

  -- The messages of a type that wait, the oldest first.
  abbrev pub waiting : EvSys Head → ℕ → List Message
  waiting s t = pending_of t s.objects (items s.pending_notifications)

  -- What holds of an event system between calls; `lent` are the objects that left the pool.
  pub record IsReady (s : EvSys Head) (lent : List ℕ) : Type 0 where
    pub pool : IsPool u pending_size s.free_pending_notifications lent
    pub step : 0 < s.free_pending_notifications.allocation_size
    pub plain : s.free_pending_notifications.element_init_cb ≡ none
    pub waits : (q : ℕ) → occurs q (items s.pending_notifications) ≤ occurs q lent
    pub array : IsValid s.notification_callbacks

  -- The callbacks fit in memory up to a type.
  abbrev pub Fits : EvSys Head → ℕ → Type 0
  Fits s t =
      (t + s.notification_callbacks.allocation_size) * s.notification_callbacks.type_size < word

  -- A new handler: it is told all that waited for it, in order, which waits no longer.
  pub record Registered (s s' : EvSys Head) (nt cb : ℕ) (entry : CallbackEntry) (calls : List Call)
      (lent : List ℕ) : Type 0 where
    pub ready : IsReady s' lent
    pub called :
        calls
        ≡ calls_for cb
            (some s.address)
            s.objects
            (selected nt s.objects (items s.pending_notifications))
    pub told : map call_message calls ≡ waiting s nt
    pub left : (t : ℕ) → waiting s' t ≡ (if t == nt then [] else waiting s t)
    pub handles : (t : ℕ) → handler s' t ≡ (if nt == t then entry else handler s t)

  pub at_most_once :
      {s : EvSys Head} {lent : List ℕ}
      → IsReady s lent
      → (q : ℕ) → occurs q (items s.pending_notifications) ≤ 1
  at_most_once r q = omega (arith, r.waits q, r.pool.owns q, r.pool.once q)

module _ (u : UcsList) (allocates : ℕ → Bool) (mem_ok : (bytes : ℕ) → allocates bytes ≡ true) where
  open u use {Head, items}

  abbrev new_entry : EvSys Head → ℕ → Option NotifInfo → CallbackEntry
  new_entry s cb info = record {
    is_set = true;
    ev_sys = some s.address;
    cb = some cb;
    info = or_no_info info;
  }

  -- event_channel_register of a callback for a type that nobody handles, on a ready event system whose
  -- callbacks fit in memory up to the type, memory being available: it succeeds. The callback is told
  -- every message of the type that waited, in order, and nothing else is called; then no message of
  -- the type waits, and those of other types wait as before. The type is handled by the new entry,
  -- and every other type as before.
  pub register-Registered :
      (s : EvSys Head) (lent : List ℕ) (nt cb : ℕ) (info : Option NotifInfo)
      → IsReady u s lent
      → Fits u s nt
      → (handler s nt).is_set ≡ false
      → (s' : EvSys Head) × (calls : List Call) × (event_channel_register u allocates
            (some s)
            nt
            (some cb)
            info
          ≡ ok (s', calls))
        × Registered u s s' nt cb (new_entry s cb info) calls lent
  unfolding event_channel_register
  register-Registered s lent nt cb info r small off =
      let (b, run, g, same) = callback_entry-run u allocates mem_ok s nt r.array small in
      let ps = items s.pending_notifications in
      let r' = deliver_pending u nt cb (some s.address) ps s.pending_notifications s.objects in
      let d =
        deliver_pending-Delivered u nt cb (some s.address) ps [] s.pending_notifications s.objects
          refl (λ q. omega (arith, at_most_once u r q)) in
      let inside : nt < length b.base = omega (arith, g.valid.full, g.reaches) in
      let entry = new_entry s cb info in
      (
        record (write_entry (record s { notification_callbacks = b }) nt entry) {
          pending_notifications = r'.0;
          objects = r'.1;
        },
        r'.2,
        rw (run, off) refl,
        record {
          ready = record {
            pool = r.pool;
            step = r.step;
            plain = r.plain;
            waits = λ q.
                omega (arith, r.waits q, occurs-others nt s.objects ps q, ap (occurs q) d.waiting);
            array = set-IsValid g.valid nt entry;
          };
          called = d.called;
          told =
              ap (map call_message) d.called
              ∙ messages-calls_for nt cb (some s.address) s.objects ps;
          left = λ t.
              ap (pending_of t r'.1) d.waiting
              ∙ pending_of_congr t r'.1 s.objects (others nt s.objects ps)
                  (λ q h. d.same q (others_type nt s.objects ps q h))
              ∙ pending_of-others t nt s.objects ps;
          handles = λ t. rw (get_or-set reset_entry b.base nt t entry inside, same t) refl;
        },
      )
