-- ===== src/Notifications/Pending.antt =====
-- The notifications that wait for a callback, and the loop of event_channel_register over them.
use dpu_offload_service.Prelude.{
  ℕ, ◌+◌, ◌≤◌, ◌<◌, ◌≡◌, refl, sym, ap, ap₂, ◌∙◌, inl, inr, true, false, Option, none, some, List,
  [], ◌∷◌, ◌++◌, map, take, arith, ◌==◌, if◌then◌else◌, Bool-cases,
}
use mathlib.Core.List.{append_assoc}
use dpu_offload_service.Prelude.Occurs.{occurs, occurs-append}
use dpu_offload_service.Ucs.{UcsList}
use dpu_offload_service.Notifications.{
  PendingNotif, Call, update, freed, pending_call, deliver_pending,
}

-- The bytes that count in a buffer of a given size.
abbrev pub contents : Option (List ℕ) → ℕ → List ℕ
contents none size = []
contents (some bytes) size = take size bytes

-- What a callback is told.
pub record Message : Type 0 where
  pub econtext : ℕ
  pub header : List ℕ
  pub header_size : ℕ
  pub payload : List ℕ
  pub data_size : ℕ

abbrev pub pending_message : PendingNotif → Message
pending_message n = record {
  econtext = n.econtext;
  header = contents n.header n.header_size;
  header_size = n.header_size;
  payload = contents n.payload n.data_size;
  data_size = n.data_size;
}

abbrev pub call_message : Call → Message
call_message c = record {
  econtext = c.econtext;
  header = contents c.header c.header_size;
  header_size = c.header_size;
  payload = contents c.payload c.data_size;
  data_size = c.data_size;
}

-- Those of the objects that have a type, and those that have another.
unfoldable pub selected : ℕ → (ℕ → PendingNotif) → List ℕ → List ℕ
selected t objects [] = []
selected t objects (p ∷ ps) =
    let rest = selected t objects ps in if (objects p).notif_type == t then p ∷ rest else rest

unfoldable pub others : ℕ → (ℕ → PendingNotif) → List ℕ → List ℕ
others t objects [] = []
others t objects (p ∷ ps) =
    let rest = others t objects ps in if (objects p).notif_type == t then rest else p ∷ rest

-- The messages of a type that wait, the oldest first.
unfoldable pub pending_of : ℕ → (ℕ → PendingNotif) → List ℕ → List Message
pending_of t objects [] = []
pending_of t objects (p ∷ ps) =
    let rest = pending_of t objects ps in
    if (objects p).notif_type == t then pending_message (objects p) ∷ rest else rest

module _ (t : ℕ) (objects : ℕ → PendingNotif) (p : ℕ) (ps : List ℕ) where
  selected-on :
      (objects p).notif_type == t ≡ true → selected t objects (p ∷ ps) ≡ p ∷ selected t objects ps
  unfolding selected
  selected-on e = rw e

  selected-off :
      (objects p).notif_type == t ≡ false → selected t objects (p ∷ ps) ≡ selected t objects ps
  unfolding selected
  selected-off e = rw e

  others-on : (objects p).notif_type == t ≡ true → others t objects (p ∷ ps) ≡ others t objects ps
  unfolding others
  others-on e = rw e

  others-off :
      (objects p).notif_type == t ≡ false → others t objects (p ∷ ps) ≡ p ∷ others t objects ps
  unfolding others
  others-off e = rw e

pub occurs-others :
    (t : ℕ) (objects : ℕ → PendingNotif) (ps : List ℕ) (q : ℕ)
    → occurs q (others t objects ps) ≤ occurs q ps
unfolding others
occurs-others t objects [] q = omega arith
occurs-others t objects (p ∷ ps) q = ground (arith, occurs-others t objects ps q)

-- Objects that agree on what waits show the same messages.
pub pending_of_congr :
    (t : ℕ) (a b : ℕ → PendingNotif) (ps : List ℕ)
    → ((q : ℕ) → 0 < occurs q ps → a q ≡ b q)
    → pending_of t a ps ≡ pending_of t b ps
unfolding pending_of
pending_of_congr t a b [] h = refl
pending_of_congr t a b (p ∷ ps) h =
    rw (h p (ground arith), pending_of_congr t a b ps (λ q k. h q (omega arith))) refl

pub selected_congr :
    (t : ℕ) (a b : ℕ → PendingNotif) (ps : List ℕ)
    → ((q : ℕ) → 0 < occurs q ps → a q ≡ b q)
    → selected t a ps ≡ selected t b ps
unfolding selected
selected_congr t a b [] h = refl
selected_congr t a b (p ∷ ps) h =
    rw (h p (ground arith), selected_congr t a b ps (λ q k. h q (omega arith))) refl

pub others_congr :
    (t : ℕ) (a b : ℕ → PendingNotif) (ps : List ℕ)
    → ((q : ℕ) → 0 < occurs q ps → a q ≡ b q)
    → others t a ps ≡ others t b ps
unfolding others
others_congr t a b [] h = refl
others_congr t a b (p ∷ ps) h =
    rw (h p (ground arith), others_congr t a b ps (λ q k. h q (omega arith))) refl

pub pending_of-append :
    (t : ℕ) (objects : ℕ → PendingNotif) (ps qs : List ℕ)
    → pending_of t objects (ps ++ qs) ≡ pending_of t objects ps ++ pending_of t objects qs
unfolding pending_of
pending_of-append t objects [] qs = refl
pending_of-append t objects (p ∷ ps) qs = elim (Bool-cases ((objects p).notif_type == t)) [
  | inl here ↦ rw (here, pending_of-append t objects ps qs) refl
  | inr other ↦ rw other (pending_of-append t objects ps qs)
]

-- Without the objects of one type, the messages of every other type wait as before.
pub pending_of-others :
    (t nt : ℕ) (objects : ℕ → PendingNotif) (ps : List ℕ)
    → pending_of t objects (others nt objects ps)
      ≡ (if t == nt then [] else pending_of t objects ps)
unfolding pending_of others
pending_of-others t nt objects [] = ground arith
pending_of-others t nt objects (p ∷ ps) = ground (arith, pending_of-others t nt objects ps)

-- The callbacks that the loop invokes.
abbrev pub calls_for : ℕ → Option ℕ → (ℕ → PendingNotif) → List ℕ → List Call
calls_for cb ev_sys objects [] = []
calls_for cb ev_sys objects (p ∷ ps) =
    pending_call cb ev_sys (objects p) ∷ calls_for cb ev_sys objects ps

calls_for_congr :
    (cb : ℕ) (ev_sys : Option ℕ) (a b : ℕ → PendingNotif) (ps : List ℕ)
    → ((q : ℕ) → 0 < occurs q ps → a q ≡ b q)
    → calls_for cb ev_sys a ps ≡ calls_for cb ev_sys b ps
calls_for_congr cb ev_sys a b [] h = refl
calls_for_congr cb ev_sys a b (p ∷ ps) h =
    rw (h p (ground arith), calls_for_congr cb ev_sys a b ps (λ q k. h q (omega arith))) refl

occurs-selected :
    (t : ℕ) (objects : ℕ → PendingNotif) (ps : List ℕ) (q : ℕ)
    → occurs q (selected t objects ps) ≤ occurs q ps
unfolding selected
occurs-selected t objects [] q = omega arith
occurs-selected t objects (p ∷ ps) q = ground (arith, occurs-selected t objects ps q)

-- An update of an object that does not wait does not show.
pub update-unseen :
    (objects : ℕ → PendingNotif) (p : ℕ) (n : PendingNotif) (ps : List ℕ)
    → occurs p ps ≡ 0
    → (q : ℕ) → 0 < occurs q ps
    → update objects p n q ≡ objects q
update-unseen objects p n ps e q h = elim (Bool-cases (p == q)) [
  | inl same ↦
      let i : p ≡ q = ground arith in let e' : occurs q ps ≡ 0 = rw i at e in absurd (omega arith)
  | inr apart ↦ rw apart
]

-- Freeing the buffers of an object of the type changes no object of another type.
still :
    (nt p q : ℕ) (objects : ℕ → PendingNotif) {n : PendingNotif}
    → ((objects p).notif_type == nt) ≡ true
    → ((objects q).notif_type == nt) ≡ false
    → ((update objects p (freed (objects p)) q).notif_type == nt ≡ false
        → n ≡ update objects p (freed (objects p)) q)
    → n ≡ objects q
still nt p q objects here other ih = elim (Bool-cases (p == q)) [
  | inl same ↦
      let i : p ≡ q = ground arith in
      let h : (objects q).notif_type == nt ≡ true = rw i at here in cc
  | inr apart ↦
      let e : update objects p (freed (objects p)) q ≡ objects q = rw apart in rw e at ih other
]

module _ (u : UcsList) (nt cb : ℕ) (ev_sys : Option ℕ) where
  open u use {Head, items, del, items-del}

  -- What the loop over `ps` does where `kept` stands before `ps` in the list.
  pub record Delivered (ps kept : List ℕ) (objects : ℕ → PendingNotif)
      (r : Head × (ℕ → PendingNotif) × List Call) : Type 0 where
    pub called : r.2 ≡ calls_for cb ev_sys objects (selected nt objects ps)
    pub waiting : items r.0 ≡ kept ++ others nt objects ps
    pub same : (q : ℕ) → ((objects q).notif_type == nt) ≡ false → r.1 q ≡ objects q

  module _ (p : ℕ) (ps : List ℕ) (head : Head) (objects : ℕ → PendingNotif) where
    deliver_pending-on :
        (objects p).notif_type == nt ≡ true
        → deliver_pending u nt cb ev_sys (p ∷ ps) head objects ≡ (
            let r =
              deliver_pending u nt cb ev_sys ps
                (del head p)
                (update objects p (freed (objects p))) in
            (r.0, r.1, pending_call cb ev_sys (objects p) ∷ r.2))
    unfolding deliver_pending
    deliver_pending-on e = rw (e, deliver_pending)

    deliver_pending-off :
        (objects p).notif_type == nt ≡ false
        → deliver_pending u nt cb ev_sys (p ∷ ps) head objects
          ≡ deliver_pending u nt cb ev_sys ps head objects
    unfolding deliver_pending
    deliver_pending-off e = rw (e, deliver_pending)

  pub deliver_pending-Delivered :
      (ps kept : List ℕ) (head : Head) (objects : ℕ → PendingNotif)
      → items head ≡ kept ++ ps
      → ((q : ℕ) → occurs q kept + occurs q ps ≤ 1)
      → Delivered ps kept objects (deliver_pending u nt cb ev_sys ps head objects)
  unfolding deliver_pending selected others
  deliver_pending-Delivered [] kept head objects e d = record {
    called = refl;
    waiting = e;
    same = λ q h. refl;
  }
  deliver_pending-Delivered (p ∷ ps) kept head objects e d =
      elim (Bool-cases ((objects p).notif_type == nt)) [
        | inl here ↦
            let absent : occurs p ps ≡ 0 = (let dp = d p in ground arith) in
            let objects' : ℕ → PendingNotif = update objects p (freed (objects p)) in
            let unseen = update-unseen objects p (freed (objects p)) ps absent in
            let ih =
              deliver_pending-Delivered ps kept (del head p) objects'
                (items-del head kept ps p e (let dp = d p in ground arith) absent)
                (λ q. omega (arith, d q)) in
            let chosen = selected nt objects ps in
            let called : calls_for cb ev_sys objects' (selected nt objects' ps)
                ≡ calls_for cb ev_sys objects chosen =
              rw (selected_congr nt objects' objects ps unseen) (
                calls_for_congr cb ev_sys objects' objects chosen
                  (λ q h. unseen q (omega (arith, occurs-selected nt objects ps q)))) in
            rw (deliver_pending-on p ps head objects here) (record {
              called =
                  rw (selected-on nt objects p ps here)
                    (ap (λ c. pending_call cb ev_sys (objects p) ∷ c) (ih.called ∙ called));
              waiting =
                  rw (others-on nt objects p ps here)
                    (ih.waiting ∙ ap (λ l. kept ++ l) (others_congr nt objects' objects ps unseen));
              same = λ q h. still nt p q objects here h (ih.same q);
            })
        | inr other ↦
            let ih =
              deliver_pending-Delivered ps (kept ++ (p ∷ [])) head objects
                (e ∙ sym (append_assoc kept (p ∷ []) ps))
                (λ q. omega (arith, d q, occurs-append q kept (p ∷ []))) in
            rw (deliver_pending-off p ps head objects other) (record {
              called = rw (selected-off nt objects p ps other) ih.called;
              waiting =
                  rw (others-off nt objects p ps other)
                    (ih.waiting ∙ append_assoc kept (p ∷ []) (others nt objects ps));
              same = ih.same;
            })
      ]

-- The callbacks are told the messages of the type that waited, in order.
pub messages-calls_for :
    (nt cb : ℕ) (ev_sys : Option ℕ) (objects : ℕ → PendingNotif) (ps : List ℕ)
    → map call_message (calls_for cb ev_sys objects (selected nt objects ps))
      ≡ pending_of nt objects ps
unfolding selected pending_of
messages-calls_for nt cb ev_sys objects [] = refl
messages-calls_for nt cb ev_sys objects (p ∷ ps) =
    elim (Bool-cases ((objects p).notif_type == nt)) [
      | inl here ↦ rw (here, messages-calls_for nt cb ev_sys objects ps) refl
      | inr other ↦ rw other (messages-calls_for nt cb ev_sys objects ps)
    ]

-- What is left has another type.
pub others_type :
    (nt : ℕ) (objects : ℕ → PendingNotif) (ps : List ℕ) (q : ℕ)
    → 0 < occurs q (others nt objects ps)
    → ((objects q).notif_type == nt) ≡ false
unfolding others
others_type nt objects [] q h = absurd (omega arith)
others_type nt objects (p ∷ ps) q h = elim (Bool-cases ((objects p).notif_type == nt)) [
  | inl here ↦ others_type nt objects ps q (rw here at h)
  | inr other ↦ elim (Bool-cases (p == q)) [
    | inl same ↦ let e : p ≡ q = ground arith in rw e at other
    | inr apart ↦ others_type nt objects ps q (omega (arith, rw (other, apart) at h))
  ]
]

-- One more notification at the end.
pub pending_of-last :
    (t : ℕ) (before objects : ℕ → PendingNotif) (ps : List ℕ) (p : ℕ) (n : PendingNotif)
    → occurs p ps ≡ 0
    → ((q : ℕ) → objects q ≡ before q)
    → pending_of t (update objects p n) (ps ++ (p ∷ []))
      ≡ pending_of t before ps ++ (if n.notif_type == t then pending_message n ∷ [] else [])
unfolding pending_of
pending_of-last t before objects ps p n absent same =
    pending_of-append t (update objects p n) ps (p ∷ [])
    ∙ ap₂ ◌++◌
        (pending_of_congr t (update objects p n) before ps
          (λ q h. update-unseen objects p n ps absent q h ∙ same q))
        (let self : (p == p) ≡ true = ground arith in rw self refl)
