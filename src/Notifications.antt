-- ===== src/Notifications.antt =====
-- The reception of notifications: handle_notif_msg of src/dpu_offload_comms.h, and
-- event_channel_register, event_channel_update and event_channel_deregister of
-- src/dpu_offload_event_channels.c, as they are without OFFLOADING_MT_ENABLE, where locks do nothing.
-- A function pointer or a pointer that is only passed on is its address, `none` for NULL. A buffer is
-- its bytes. A callback that runs is listed among the calls that a function returns; callbacks do not
-- register or receive on the event system that calls them.
pub mod Pending
pub mod Calls
pub mod Changes
pub mod Receive
pub mod Histories
use dpu_offload_service.Prelude.{
  ℕ, zero, suc, ◌==◌, ltb, leb, Bool, true, false, ◌&&◌, not, if◌then◌else◌, Option, none, some,
  List, [], ◌∷◌, length, set, get_elem?, take,
}
use mathlib.Core.Option
use dpu_offload_service.Prelude.Result.{Result, ok, err, fault, need, check, ◌>>=◌}
use dpu_offload_service.DynArray.{DynArray}
use dpu_offload_service.DynArray
use dpu_offload_service.DynList.{DynList}
use dpu_offload_service.DynList
use dpu_offload_service.Ucs.{UcsList}

-- `notification_info_t`
pub record NotifInfo : Type 0 where
  pub get_buf : Option ℕ
  pub return_buf : Option ℕ
  pub mem_pool : Option ℕ
  pub get_buf_args : Option ℕ
  pub element_size : ℕ

-- RESET_NOTIF_INFO
abbrev pub no_info : NotifInfo
no_info = record {
  get_buf = none;
  return_buf = none;
  mem_pool = none;
  get_buf_args = none;
  element_size = 0;
}

-- `notification_callback_entry_t`. The member `set` is `is_set` here.
pub record CallbackEntry : Type 0 where
  pub is_set : Bool
  pub ev_sys : Option ℕ
  pub cb : Option ℕ
  pub info : NotifInfo

-- An entry whose bytes are zero, which is what RESET_NOTIF_CB_ENTRY makes too.
abbrev pub reset_entry : CallbackEntry
reset_entry = record { is_set = false; ev_sys = none; cb = none; info = no_info }

-- What the code uses of `am_header_t`, and its bytes.
pub record AmHeader : Type 0 where
  pub id : ℕ
  pub notif_type : ℕ
  pub payload_size : ℕ
  pub bytes : List ℕ

-- `execution_context_t`: its address and EV_SYS of it.
pub record Econtext : Type 0 where
  pub address : ℕ
  pub ev_sys : Option ℕ

-- `pending_notification_t`
pub record PendingNotif : Type 0 where
  pub notif_type : ℕ
  pub src_id : ℕ
  pub header : Option (List ℕ)
  pub header_size : ℕ
  pub payload : Option (List ℕ)
  pub data_size : ℕ
  pub econtext : ℕ

-- A callback that is invoked, and its arguments.
pub record Call : Type 0 where
  pub cb : ℕ
  pub ev_sys : Option ℕ
  pub econtext : ℕ
  pub header : Option (List ℕ)
  pub header_size : ℕ
  pub payload : Option (List ℕ)
  pub data_size : ℕ

-- `dpu_offload_ev_sys_t`, as far as notifications are received through it; `objects` is what the
-- elements of the pool of pending notifications hold.
pub record EvSys (Head : Type 0) : Type 0 where
  pub address : ℕ
  pub notification_callbacks : DynArray CallbackEntry
  pub pending_notifications : Head
  pub free_pending_notifications : DynList Head PendingNotif
  pub objects : ℕ → PendingNotif

-- sizeof(pending_notification_t)
abbrev pub pending_size : ℕ
pending_size = 72

-- The copy of a header or a payload: malloc and memcpy, or NULL if it has no bytes. `err`: no memory.
unfoldable pub copy : (ℕ → Bool) → Option (List ℕ) → ℕ → Result (Option (List ℕ))
copy allocates src size =
    if size == 0
    then ok none
    else if allocates size
    then (need src >>= λ bytes. check (leb size (length bytes)) (ok (some (take size bytes))))
    else err none

abbrev pub update : (ℕ → PendingNotif) → ℕ → PendingNotif → ℕ → PendingNotif
update objects p n q = if p == q then n else objects q

-- Goes on with a result; without one returns an error with the state that is given.
abbrev pub or_err : {A B : Type 0} → Result A → B → (A → Result B) → Result B
or_err (ok a) b f = f a
or_err (err e) b f = err (some b)
or_err fault b f = fault

abbrev pub is_null : {A : Type 0} → Option A → Bool
is_null none = true
is_null (some a) = false

abbrev pub or_no_info : Option NotifInfo → NotifInfo
or_no_info none = no_info
or_no_info (some info) = info

-- RESET_PENDING_NOTIF and the assignments behind it.
abbrev pub new_pending : ℕ → AmHeader → ℕ → ℕ → PendingNotif
new_pending econtext hdr header_length size = record {
  notif_type = hdr.notif_type;
  src_id = hdr.id;
  header = none;
  header_size = header_length;
  payload = none;
  data_size = size;
  econtext = econtext;
}

-- The buffers of a pending notification are freed.
abbrev pub freed : PendingNotif → PendingNotif
freed n = record n { header = none; payload = none }

abbrev pub pending_call : ℕ → Option ℕ → PendingNotif → Call
pending_call cb ev_sys n = record {
  cb = cb;
  ev_sys = ev_sys;
  econtext = n.econtext;
  header = n.header;
  header_size = n.header_size;
  payload = n.payload;
  data_size = n.data_size;
}

module _ {Head : Type 0} where
  abbrev pub take_object : EvSys Head → DynList Head PendingNotif → (ℕ → PendingNotif) → EvSys Head
  take_object s pool objects = record s { free_pending_notifications = pool; objects = objects }

  -- The write to an entry through its pointer.
  abbrev pub write_entry : EvSys Head → ℕ → CallbackEntry → EvSys Head
  write_entry s notif_type entry = record s {
    notification_callbacks = record s.notification_callbacks {
      base = set s.notification_callbacks.base notif_type entry;
    };
  }

  -- event_channel_deregister
  unfoldable pub event_channel_deregister : Option (EvSys Head) → ℕ → Result (EvSys Head)
  event_channel_deregister none notif_type = err none
  event_channel_deregister (some s) notif_type =
      if leb s.notification_callbacks.capacity notif_type
      then err (some s)
      else need (get_elem? s.notification_callbacks.base notif_type) >>= λ entry.
          if entry.is_set
          then ok (write_entry s notif_type (record entry { is_set = false }))
          else err (some s)

module _ (u : UcsList) where
  open u use {Head, del}

  -- The loop of event_channel_register over the pending notifications `ps`.
  unfoldable pub deliver_pending :
      ℕ → ℕ → Option ℕ → List ℕ → Head → (ℕ → PendingNotif) → Head × (ℕ → PendingNotif) × List Call
  deliver_pending notif_type cb ev_sys [] head objects = (head, objects, [])
  deliver_pending notif_type cb ev_sys (p ∷ ps) head objects =
      elim ((objects p).notif_type == notif_type) [
        | true ↦
            let (head', objects', calls) =
              deliver_pending notif_type cb ev_sys ps (del head p)
                (update objects p (freed (objects p))) in
            (head', objects', pending_call cb ev_sys (objects p) ∷ calls)
        | false ↦ deliver_pending notif_type cb ev_sys ps head objects
      ]

module _ (u : UcsList) (allocates : ℕ → Bool) where
  open u use {Head, add_tail, items}

  -- The part of handle_notif_msg that keeps a notification for later. The second argument is what
  -- malloc answers if the pool of pending notifications grows.
  unfoldable pub keep_pending :
      EvSys Head
      → Option ℕ
      → ℕ
      → AmHeader
      → ℕ
      → Option (List ℕ)
      → ℕ
      → Result (EvSys Head × List Call)
  unfolding copy
  keep_pending s answer econtext hdr header_length payload size =
      need (DynList.get u pending_size allocates answer s.objects s.free_pending_notifications)
      >>= λ r.
          let blank : PendingNotif = new_pending econtext hdr header_length size in
          if r.0 == 0
          then err (some (take_object s r.1 r.2, []))
          else or_err (copy allocates payload size) (take_object s r.1 (update r.2 r.0 blank), [])
              λ kept.
                or_err (copy allocates (some hdr.bytes) header_length)
                  (take_object s r.1 (update r.2 r.0 (record blank { payload = kept })), [])
                  λ head. ok (
                    record (take_object s r.1
                        (update r.2 r.0 (record blank { payload = kept; header = head }))) {
                          pending_notifications = add_tail s.pending_notifications r.0;
                        },
                    [],
                  )

  -- DYN_ARRAY_GET_ELT of the callbacks: the event system with the array as it is then, and the entry.
  unfoldable pub callback_entry : EvSys Head → ℕ → Result (EvSys Head × CallbackEntry)
  callback_entry s notif_type =
      need (DynArray.get_elt reset_entry allocates s.notification_callbacks notif_type)
      >>= λ callbacks. need (get_elem? callbacks.base notif_type) >>= λ entry.
          ok (record s { notification_callbacks = callbacks }, entry)

  -- handle_notif_msg
  unfoldable pub handle_notif_msg :
      EvSys Head
      → Option ℕ
      → Econtext
      → AmHeader
      → ℕ
      → Option (List ℕ)
      → ℕ
      → Result (EvSys Head × List Call)
  handle_notif_msg s answer econtext hdr header_length payload size =
      if ltb 0 hdr.payload_size && is_null payload
      then err (some (s, []))
      else callback_entry s hdr.notif_type >>= λ r.
          if r.1.is_set
          then elim r.1.cb [
            | none ↦ err (some (r.0, []))
            | some cb ↦ ok (
              r.0,
              record {
                cb = cb;
                ev_sys = econtext.ev_sys;
                econtext = econtext.address;
                header = some hdr.bytes;
                header_size = header_length;
                payload = payload;
                data_size = size;
              }
                  ∷ [],
            )
          ]
          else keep_pending r.0 answer econtext.address hdr header_length payload size

  -- event_channel_register
  unfoldable pub event_channel_register :
      Option (EvSys Head) → ℕ → Option ℕ → Option NotifInfo → Result (EvSys Head × List Call)
  event_channel_register s notif_type none info = err (Option.map (λ s. (s, [])) s)
  event_channel_register none notif_type (some cb) info = err none
  event_channel_register (some s) notif_type (some cb) info = callback_entry s notif_type >>= λ r.
      if r.1.is_set
      then ok (r.0, [])
      else let entry : CallbackEntry = record {
        is_set = true;
        ev_sys = some s.address;
        cb = some cb;
        info = or_no_info info;
      } in
        let s' = write_entry r.0 notif_type entry in
        let (head, objects, calls) =
          deliver_pending u notif_type cb (some s.address) (items s'.pending_notifications)
            s'.pending_notifications s'.objects in
        ok (record s' { pending_notifications = head; objects = objects }, calls)

  -- event_channel_update
  unfoldable pub event_channel_update :
      Option (EvSys Head) → ℕ → Option NotifInfo → Result (EvSys Head)
  event_channel_update none notif_type info = err none
  event_channel_update (some s) notif_type none = err (some s)
  event_channel_update (some s) notif_type (some info) = callback_entry s notif_type >>= λ r.
      if r.1.is_set
      then ok (write_entry r.0 notif_type (record r.1 { info = info }))
      else err (some r.0)
