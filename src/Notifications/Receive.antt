-- ===== src/Notifications/Receive.antt =====
-- The reception of a notification: it is delivered at once, or kept until there is a handler.
use dpu_offload_service.Prelude.{
  ℕ, ◌≡◌, refl, ap, ap₂, ◌∙◌, inl, inr, true, false, Bool, Option, some, List, [], ◌∷◌, ◌++◌, map,
  arith, ◌==◌, ltb, ◌&&◌, if◌then◌else◌, Bool-cases, Option-cases,
}
use mathlib.Core.Path.{subst}
use dpu_offload_service.Prelude.Result.{ok, Result-cases}
use dpu_offload_service.Prelude.Occurs.{occurs, occurs-append}
use dpu_offload_service.Ucs.{UcsList}
use dpu_offload_service.DynList.{DynList}
use dpu_offload_service.DynList.Calls.{Granted, Got, get-Got}
use dpu_offload_service.Notifications.{
  EvSys, PendingNotif, Call, AmHeader, Econtext, pending_size, copy, is_null, keep_pending,
  handle_notif_msg, update, new_pending, take_object,
}
use dpu_offload_service.Notifications.Pending.{
  Message, contents, pending_message, call_message, pending_of, pending_of-last,
}
use dpu_offload_service.Notifications.Calls.{
  IsReady, Fits, handler, waiting, callback_entry-run, contents-copy, copied_lem,
}
use dpu_offload_service.Notifications.Changes.{Kept, with_callbacks}

-- What a notification tells.
abbrev pub arriving : Econtext → AmHeader → ℕ → Option (List ℕ) → ℕ → Message
arriving econtext hdr header_length payload size = record {
  econtext = econtext.address;
  header = contents (some hdr.bytes) header_length;
  header_size = header_length;
  payload = contents payload size;
  data_size = size;
}

module _ (u : UcsList) where
  open u use {Head, items}

  -- The notification waits behind the others, in an object that was free.
  pub record Stored (s s' : EvSys Head) (lent : List ℕ) (p nt : ℕ) (message : Message)
      : Type 0 where
    pub ready : IsReady u s' (p ∷ lent)
    pub last : (t : ℕ) → waiting u s' t ≡ waiting u s t ++ (if nt == t then message ∷ [] else [])
    pub handles : (t : ℕ) → handler s' t ≡ handler s t

module _ (u : UcsList) (allocates : ℕ → Bool) (mem_ok : (bytes : ℕ) → allocates bytes ≡ true)
    (s : EvSys u.Head) (lent : List ℕ) (answer : Option ℕ) (econtext : Econtext) (hdr : AmHeader)
    (header_length : ℕ) (payload : Option (List ℕ)) (size : ℕ) (r : IsReady u s lent)
    (granted : Granted u pending_size s.free_pending_notifications answer) where
  open u use {Head, items, items-add_tail}

  -- An object of the pool holds the notification, and stands at the end of the list.
  stored :
      (pool : DynList Head PendingNotif) (objects : ℕ → PendingNotif) (p : ℕ) (n : PendingNotif)
      → Got u pending_size s.free_pending_notifications pool lent p
      → ((q : ℕ) → objects q ≡ s.objects q)
      → Stored u s
          (record (take_object s pool (update objects p n)) {
            pending_notifications = u.add_tail s.pending_notifications p;
          })
          lent
          p
          n.notif_type
          (pending_message n)
  stored pool objects p n got same =
      let ps = items s.pending_notifications in
      let tail = items-add_tail s.pending_notifications p in
      let absent : occurs p ps ≡ 0 = omega (arith, r.waits p, got.not_lent) in
      record {
        ready = record {
          pool = got.pool;
          step = rw got.same_size r.step;
          plain = got.same_cb ∙ r.plain;
          waits = λ q. omega (arith, r.waits q, ap (occurs q) tail, occurs-append q ps (p ∷ []));
          array = r.array;
        };
        last = λ t.
            ap (pending_of t (update objects p n)) tail
            ∙ pending_of-last t s.objects objects ps p n absent same;
        handles = λ t. refl;
      }

  -- The copies have the bytes that count.
  message :
      (kept head : Option (List ℕ))
      → copy allocates payload size ≡ ok kept
      → copy allocates (some hdr.bytes) header_length ≡ ok head
      → pending_message (record (new_pending econtext.address hdr header_length size) {
        payload = kept;
        header = head;
      })
        ≡ arriving econtext hdr header_length payload size
  message kept head c c' =
      ap₂
        (λ (h b : List ℕ).
          let m : Message = record {
            econtext = econtext.address;
            header = h;
            header_size = header_length;
            payload = b;
            data_size = size;
          } in
          m)
        (contents-copy allocates (some hdr.bytes) header_length c')
        (contents-copy allocates payload size c)

  keep-Stored :
      {s' : EvSys Head} {calls : List Call}
      → keep_pending u allocates s answer econtext.address hdr header_length payload size
        ≡ ok (s', calls)
      → (calls ≡ [])
        × (p : ℕ) × Stored u s s' lent p hdr.notif_type
            (arriving econtext hdr header_length payload size)
  unfolding keep_pending
  keep-Stored {s'} {calls} e =
      let (g, run, got, mem) =
        get-Got u pending_size (omega arith) allocates mem_ok s.free_pending_notifications lent
          answer s.objects r.step r.pool granted in
      elim (Bool-cases (g.0 == 0)) [
        | inl null ↦ absurd (cc (rw (run, null) at e))
        | inr valid ↦ elim (Result-cases (copy allocates payload size)) [
          | inr (inl (o, bad)) ↦ absurd (cc (rw (run, valid, bad) at e))
          | inr (inr bad) ↦ absurd (cc (rw (run, valid, bad) at e))
          | inl (kept, copied) ↦
              elim (Result-cases (copy allocates (some hdr.bytes) header_length)) [
                | inr (inl (o, bad)) ↦ absurd (cc (rw (run, valid, copied, bad) at e))
                | inr (inr bad) ↦ absurd (cc (rw (run, valid, copied, bad) at e))
                | inl (head, copied') ↦
                    let done = copied_lem (rw (run, valid, copied, copied') at e) in
                    let n : PendingNotif =
                      record (new_pending econtext.address hdr header_length size) {
                        payload = kept;
                        header = head;
                      } in
                    subst
                      (λ (x : EvSys Head × List Call).
                        (x.1 ≡ [])
                        × (p : ℕ) × Stored u s x.0 lent p hdr.notif_type
                            (arriving econtext hdr header_length payload size))
                      done
                      (
                        refl,
                        g.0,
                        subst
                            (λ (m : Message).
                              Stored u s
                                (record (take_object s g.1 (update g.2 g.0 n)) {
                                  pending_notifications = u.add_tail s.pending_notifications g.0;
                                })
                                lent g.0 hdr.notif_type m)
                            (message kept head copied copied')
                            (stored g.1 g.2 g.0 n got (mem r.plain)),
                      )
              ]
        ]
      ]

module _ (u : UcsList) (allocates : ℕ → Bool) (mem_ok : (bytes : ℕ) → allocates bytes ≡ true)
    (s : EvSys u.Head) (lent : List ℕ) (answer : Option ℕ) (econtext : Econtext) (hdr : AmHeader)
    (header_length : ℕ) (payload : Option (List ℕ)) (size : ℕ) (r : IsReady u s lent)
    (small : Fits u s hdr.notif_type) {s' : EvSys u.Head} {calls : List Call}
    (e : handle_notif_msg u allocates s answer econtext hdr header_length payload size
      ≡ ok (s', calls)) where
  open u use {Head}

  abbrev told : Message
  told = arriving econtext hdr header_length payload size

  -- A notification of a type that has a handler, when handle_notif_msg returns UCS_OK.
  pub handle-deliver :
      (handler s hdr.notif_type).is_set ≡ true
      → (map call_message calls ≡ told ∷ []) × Kept u s s' lent
  unfolding handle_notif_msg
  handle-deliver on =
      let (b, run, g, same) =
        callback_entry-run u allocates mem_ok s hdr.notif_type r.array small in
      elim (Bool-cases (ltb 0 hdr.payload_size && is_null payload)) [
        | inl bad ↦ absurd (cc (rw bad at e))
        | inr fine ↦ elim (Option-cases (handler s hdr.notif_type).cb) [
          | inl no_cb ↦ absurd (cc (rw (fine, run, on, no_cb) at e))
          | inr (cb, c) ↦
              subst
                (λ (x : EvSys Head × List Call).
                  (map call_message x.1 ≡ told ∷ []) × Kept u s x.0 lent)
                (copied_lem (rw (fine, run, on, c) at e))
                (refl, with_callbacks u s lent b r g.valid (λ t k. rw (← same t) k))
        ]
      ]

  -- A notification of a type that has no handler, when handle_notif_msg returns UCS_OK.
  pub handle-keep :
      Granted u pending_size s.free_pending_notifications answer
      → (handler s hdr.notif_type).is_set ≡ false
      → (calls ≡ []) × (p : ℕ) × Stored u s s' lent p hdr.notif_type told
  unfolding handle_notif_msg
  handle-keep granted off =
      let (b, run, g, same) =
        callback_entry-run u allocates mem_ok s hdr.notif_type r.array small in
      elim (Bool-cases (ltb 0 hdr.payload_size && is_null payload)) [
        | inl bad ↦ absurd (cc (rw bad at e))
        | inr fine ↦
            let k = with_callbacks u s lent b r g.valid (λ t k. rw (← same t) k) in
            let (none_called, p, st) =
              keep-Stored u allocates mem_ok (record s { notification_callbacks = b }) lent answer
                econtext hdr header_length payload size k.ready granted
                (rw (fine, run, off) at e) in
            (
              none_called,
              p,
              record { ready = st.ready; last = st.last; handles = λ t. st.handles t ∙ same t },
            )
      ]
