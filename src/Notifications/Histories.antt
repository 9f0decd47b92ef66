-- ===== src/Notifications/Histories.antt =====
-- An event system over whole histories: notifications arrive, and handlers come and go.
use dpu_offload_service.Prelude.{
  ℕ, ◌≡◌, refl, sym, ap, ap₂, ◌∙◌, inl, inr, true, false, Bool, Option, some, List, [], ◌∷◌, ◌++◌,
  map, arith, ◌==◌, if◌then◌else◌, Bool-cases,
}
use mathlib.Core.Path.{subst}
use mathlib.Core.List.{append_assoc, append-nil}
use dpu_offload_service.Prelude.Result.{ok}
use dpu_offload_service.Ucs.{UcsList}
use dpu_offload_service.DynList.Calls.{Granted}
use dpu_offload_service.Notifications.{
  EvSys, CallbackEntry, Call, AmHeader, Econtext, NotifInfo, pending_size, handle_notif_msg,
  event_channel_register, event_channel_update, event_channel_deregister,
}
use dpu_offload_service.Notifications.Pending.{Message, call_message, pending_of}
use dpu_offload_service.Notifications.Calls.{
  IsReady, Fits, handler, waiting, register-Registered, copied_lem,
}
use dpu_offload_service.Notifications.Changes.{Kept, register-Kept, update-Kept, deregister-Kept}
use dpu_offload_service.Notifications.Receive.{arriving, handle-deliver, handle-keep}

pub record Tagged : Type 0 where
  pub notif_type : ℕ
  pub message : Message

abbrev pub tag : ℕ → List Message → List Tagged
tag nt [] = []
tag nt (m ∷ ms) = record { notif_type = nt; message = m } ∷ tag nt ms

unfoldable pub of_type : ℕ → List Tagged → List Message
of_type t [] = []
of_type t (g ∷ gs) = let rest = of_type t gs in if g.notif_type == t then g.message ∷ rest else rest

of_type-append : (t : ℕ) (xs ys : List Tagged) → of_type t (xs ++ ys) ≡ of_type t xs ++ of_type t ys
unfolding of_type
of_type-append t [] ys = refl
of_type-append t (x ∷ xs) ys = elim (Bool-cases (x.notif_type == t)) [
  | inl same ↦ rw (same, of_type-append t xs ys) refl
  | inr other ↦ rw other (of_type-append t xs ys)
]

of_type-tag : (t nt : ℕ) (ms : List Message) → of_type t (tag nt ms) ≡ (if nt == t then ms else [])
unfolding of_type
of_type-tag t nt [] = ground arith
of_type-tag t nt (m ∷ ms) = ground (arith, of_type-tag t nt ms)

-- What was tagged behind the rest.
of_type-more :
    (t nt : ℕ) (gs : List Tagged) (ms : List Message)
    → of_type t (gs ++ tag nt ms) ≡ of_type t gs ++ (if nt == t then ms else [])
of_type-more t nt gs ms =
    of_type-append t gs (tag nt ms) ∙ ap (λ r. of_type t gs ++ r) (of_type-tag t nt ms)

-- The equations of lists behind the cases of the next lemmas.
told_now :
    (b : Bool) (a t w : List Message) (m : Message)
    → a ≡ t ++ w
    → (b ≡ true → w ≡ [])
    → a ++ (if b then m ∷ [] else []) ≡ (t ++ (if b then m ∷ [] else [])) ++ w
told_now true a t w m e empty = rw (e, empty refl) (simp append-nil)
told_now false a t w m e empty = rw e (simp append-nil)

told_later :
    (t w w' : List Message) (b : Bool)
    → (b ≡ true → w' ≡ w)
    → t ++ w ≡ (t ++ (if b then w' else [])) ++ (if b then [] else w)
told_later t w w' true e = rw (e refl) (simp append-nil)
told_later t w w' false e = simp append-nil

waits_now : (a t w x : List Message) → a ≡ t ++ w → a ++ x ≡ (t ++ []) ++ (w ++ x)
waits_now a t w x e = rw e (simp (append-nil, append_assoc))

nothing_last :
    (b : Bool) (w : List Message) (m : Message)
    → w ≡ []
    → b ≡ false
    → w ++ (if b then m ∷ [] else []) ≡ []
nothing_last b w m e off = rw (e, off) refl

==→eq : (a b : ℕ) → (a == b) ≡ true → a ≡ b
==→eq a b h = ground arith

==_comm : (a b : ℕ) → (a == b) ≡ (b == a)
==_comm a b = ground arith

other_type :
    (handlers : ℕ → CallbackEntry) (nt t : ℕ)
    → (handlers nt).is_set ≡ false
    → (handlers t).is_set ≡ true
    → (nt == t) ≡ false
other_type handlers nt t off on = elim (Bool-cases (nt == t)) [
  | inl same ↦ let i = ==→eq nt t same in let off' = rw i at off in cc
  | inr apart ↦ apart
]

module _ (u : UcsList) (allocates : ℕ → Bool) where
  open u use {Head, items}

  -- An event system, what arrived for it, and what its callbacks were told, each in order.
  pub record History : Type 0 where
    pub sys : EvSys Head
    pub arrived : List Tagged
    pub told : List Tagged

  -- A call that succeeds.
  pub data Step : History → History → Type 0 where
    receives :
        (h : History) (answer : Option ℕ) (econtext : Econtext) (hdr : AmHeader) (header_length : ℕ)
        (payload : Option (List ℕ)) (size : ℕ) (s' : EvSys Head) (calls : List Call)
        → Granted u pending_size h.sys.free_pending_notifications answer
        → Fits u h.sys hdr.notif_type
        → handle_notif_msg u allocates h.sys answer econtext hdr header_length payload size
          ≡ ok (s', calls)
        → Step h (record {
          sys = s';
          arrived =
              h.arrived
              ++ tag hdr.notif_type (arriving econtext hdr header_length payload size ∷ []);
          told = h.told ++ tag hdr.notif_type (map call_message calls);
        })
    registers :
        (h : History) (nt cb : ℕ) (info : Option NotifInfo) (s' : EvSys Head) (calls : List Call)
        → Fits u h.sys nt
        → event_channel_register u allocates (some h.sys) nt (some cb) info ≡ ok (s', calls)
        → Step h (record {
          sys = s';
          arrived = h.arrived;
          told = h.told ++ tag nt (map call_message calls);
        })
    updates :
        (h : History) (nt : ℕ) (info : NotifInfo) (s' : EvSys Head)
        → Fits u h.sys nt
        → event_channel_update u allocates (some h.sys) nt (some info) ≡ ok s'
        → Step h (record h { sys = s' })
    deregisters :
        (h : History) (nt : ℕ) (s' : EvSys Head)
        → event_channel_deregister (some h.sys) nt ≡ ok s'
        → Step h (record h { sys = s' })

  pub data Reach (h : History) : History → Type 0 where
    here : Reach h h
    next : {k l : History} → Reach h k → Step k l → Reach h l

  -- Nothing is lost or told twice, and what has a handler does not wait.
  pub record IsOrdered (h : History) : Type 0 where
    pub ready : (lent : List ℕ) × IsReady u h.sys lent
    pub in_order : (t : ℕ) → of_type t h.arrived ≡ of_type t h.told ++ waiting u h.sys t
    pub flushed : (t : ℕ) → (handler h.sys t).is_set ≡ true → waiting u h.sys t ≡ []

  -- The system before anything arrives.
  abbrev pub start : EvSys Head → History
  start s = record { sys = s; arrived = []; told = [] }

  Kept-IsOrdered :
      (h : History) (s' : EvSys Head) (lent : List ℕ)
      → IsOrdered h
      → Kept u h.sys s' lent
      → IsOrdered (record h { sys = s' })
  Kept-IsOrdered h s' lent o k = record {
    ready = (lent, k.ready);
    in_order = λ t. o.in_order t ∙ ap (λ w. of_type t h.told ++ w) (sym (k.still t));
    flushed = λ t e. k.still t ∙ o.flushed t (k.fewer t e);
  }

module _ (u : UcsList) (allocates : ℕ → Bool) (mem_ok : (bytes : ℕ) → allocates bytes ≡ true) where
  open u use {Head, items}

  receive-IsOrdered :
      (h : History u allocates) (answer : Option ℕ) (econtext : Econtext) (hdr : AmHeader)
      (header_length : ℕ) (payload : Option (List ℕ)) (size : ℕ) (s' : EvSys Head)
      (calls : List Call)
      → IsOrdered u allocates h
      → Granted u pending_size h.sys.free_pending_notifications answer
      → Fits u h.sys hdr.notif_type
      → handle_notif_msg u allocates h.sys answer econtext hdr header_length payload size
        ≡ ok (s', calls)
      → IsOrdered u allocates (record {
        sys = s';
        arrived =
            h.arrived ++ tag hdr.notif_type (arriving econtext hdr header_length payload size ∷ []);
        told = h.told ++ tag hdr.notif_type (map call_message calls);
      })
  unfolding of_type
  receive-IsOrdered h answer econtext hdr header_length payload size s' calls o granted small e =
      let (lent, r) = o.ready in
      let nt = hdr.notif_type in
      let m = arriving econtext hdr header_length payload size in
      elim (Bool-cases (handler h.sys nt).is_set) [
        | inl on ↦
            let (told, k) =
              handle-deliver u allocates mem_ok h.sys lent answer econtext hdr header_length payload
                size r small e on in
            record {
              ready = (lent, k.ready);
              in_order = λ t.
                  of_type-more t nt h.arrived (m ∷ [])
                  ∙ told_now (nt == t) (of_type t h.arrived) (of_type t h.told) (waiting u h.sys t)
                      m (o.in_order t) (λ same. o.flushed t (rw (==→eq nt t same) at on))
                  ∙ sym (
                      ap₂ ◌++◌
                        (ap (λ ms. of_type t (h.told ++ tag nt ms)) told
                          ∙ of_type-more t nt h.told (m ∷ []))
                        (k.still t));
              flushed = λ t e. k.still t ∙ o.flushed t (k.fewer t e);
            }
        | inr off ↦
            let (none_called, p, st) =
              handle-keep u allocates mem_ok h.sys lent answer econtext hdr header_length payload
                size r small e granted off in
            record {
              ready = (p ∷ lent, st.ready);
              in_order = λ t.
                  of_type-more t nt h.arrived (m ∷ [])
                  ∙ waits_now (of_type t h.arrived) (of_type t h.told) (waiting u h.sys t)
                      (if nt == t then m ∷ [] else []) (o.in_order t)
                  ∙ sym (
                      ap₂ ◌++◌
                        (ap (λ cs. of_type t (h.told ++ tag nt (map call_message cs))) none_called
                          ∙ of_type-append t h.told [])
                        (st.last t));
              flushed = λ t e.
                  let on : (handler h.sys t).is_set ≡ true = rw (← st.handles t) e in
                  st.last t
                  ∙ nothing_last (nt == t) (waiting u h.sys t) m (o.flushed t on)
                      (other_type (handler h.sys) nt t off on);
            }
      ]

  register-IsOrdered :
      (h : History u allocates) (nt cb : ℕ) (info : Option NotifInfo) (s' : EvSys Head)
      (calls : List Call)
      → IsOrdered u allocates h
      → Fits u h.sys nt
      → event_channel_register u allocates (some h.sys) nt (some cb) info ≡ ok (s', calls)
      → IsOrdered u allocates (record {
        sys = s';
        arrived = h.arrived;
        told = h.told ++ tag nt (map call_message calls);
      })
  register-IsOrdered h nt cb info s' calls o small e =
      let (lent, r) = o.ready in
      elim (Bool-cases (handler h.sys nt).is_set) [
        | inl on ↦
            let (s'', run, k, _) =
              register-Kept u allocates mem_ok h.sys lent nt r cb info small on in
            subst (λ (x : EvSys Head × List Call). IsOrdered u allocates (after x))
              (copied_lem (sym run ∙ e)) (rw append-nil (Kept-IsOrdered u allocates h s'' lent o k))
        | inr off ↦
            let (s'', calls', run, g) =
              register-Registered u allocates mem_ok h.sys lent nt cb info r small off in
            subst (λ (x : EvSys Head × List Call). IsOrdered u allocates (after x))
              (copied_lem (sym run ∙ e))
              (record {
                ready = (lent, g.ready);
                in_order = λ t.
                    o.in_order t
                    ∙ told_later (of_type t h.told) (waiting u h.sys t) (waiting u h.sys nt)
                        (nt == t) (λ same. ap (waiting u h.sys) (==→eq nt t same))
                    ∙ sym (
                        ap₂ ◌++◌
                          (ap (λ ms. of_type t (h.told ++ tag nt ms)) g.told
                            ∙ of_type-more t nt h.told (waiting u h.sys nt))
                          (rw (==_comm nt t) (g.left t)));
                flushed = λ t k. elim (Bool-cases (t == nt)) [
                  | inl same ↦ g.left t ∙ rw same refl
                  | inr apart ↦
                      let apart' : (nt == t) ≡ false = ==_comm nt t ∙ apart in
                      g.left t ∙ rw apart (o.flushed t (rw (g.handles t, apart') at k))
                ];
              })
      ]
    where
      after : EvSys Head × List Call → History u allocates
      after x = record {
        sys = x.0;
        arrived = h.arrived;
        told = h.told ++ tag nt (map call_message x.1);
      }

  Step-IsOrdered :
      {h k : History u allocates}
      → Step u allocates h k
      → IsOrdered u allocates h
      → IsOrdered u allocates k
  Step-IsOrdered
        (receives h answer econtext hdr header_length payload size s' calls granted small e) o =
      receive-IsOrdered h answer econtext hdr header_length payload size s' calls o granted small e
  Step-IsOrdered (registers h nt cb info s' calls small e) o =
      register-IsOrdered h nt cb info s' calls o small e
  Step-IsOrdered (updates h nt info s' small e) o =
      let (lent, r) = o.ready in
      Kept-IsOrdered u allocates h s' lent o
        (update-Kept u allocates mem_ok h.sys lent nt r info small e)
  Step-IsOrdered (deregisters h nt s' e) o =
      let (lent, r) = o.ready in
      Kept-IsOrdered u allocates h s' lent o (deregister-Kept u allocates mem_ok h.sys lent nt r e)

  Reach-IsOrdered :
      {h k : History u allocates}
      → IsOrdered u allocates h
      → Reach u allocates h k
      → IsOrdered u allocates k
  Reach-IsOrdered o here = o
  Reach-IsOrdered o (next r st) = Step-IsOrdered st (Reach-IsOrdered o r)

  start-IsOrdered :
      (s : EvSys Head) (lent : List ℕ)
      → IsReady u s lent
      → items s.pending_notifications ≡ []
      → IsOrdered u allocates (start u allocates s)
  unfolding of_type pending_of
  start-IsOrdered s lent r empty = record {
    ready = (lent, r);
    in_order = λ t. sym (ap (pending_of t s.objects) empty);
    flushed = λ t e. ap (pending_of t s.objects) empty;
  }

  -- From an event system on which nothing waits, after any calls that succeed in any order:
  -- notifications arriving, handlers being registered, updated and deregistered, memory being
  -- available. For every type, the messages that arrived are those that callbacks were told and then
  -- those that wait, in the order of arrival: none is lost, told twice or overtaken.
  pub Reach-in_order :
      (s : EvSys Head) (lent : List ℕ) {h : History u allocates}
      → IsReady u s lent
      → items s.pending_notifications ≡ []
      → Reach u allocates (start u allocates s) h
      → (t : ℕ) → of_type t h.arrived ≡ of_type t h.told ++ waiting u h.sys t
  Reach-in_order s lent r empty path t =
      (Reach-IsOrdered (start-IsOrdered s lent r empty) path).in_order t

  -- After the same histories: while a type has a handler, the callbacks were told every message of
  -- the type that arrived, in the order of arrival.
  pub Reach-delivered :
      (s : EvSys Head) (lent : List ℕ) {h : History u allocates}
      → IsReady u s lent
      → items s.pending_notifications ≡ []
      → Reach u allocates (start u allocates s) h
      → (t : ℕ) → (handler h.sys t).is_set ≡ true
      → of_type t h.told ≡ of_type t h.arrived
  Reach-delivered s lent {h} r empty path t on =
      let o = Reach-IsOrdered (start-IsOrdered s lent r empty) path in
      sym (
        o.in_order t
        ∙ ap (λ w. of_type t h.told ++ w) (o.flushed t on)
        ∙ append-nil (of_type t h.told))
