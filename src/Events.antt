-- ===== src/Events.antt =====
-- The life of an event: event_get, do_event_return, event_return and event_completed of
-- src/dpu_offload_event_channels.c, QUEUE_SUBEVENT and COMPLETE_EVENT of
-- include/dpu_offload_event_channels.h, as they are with USE_AM_IMPLEM, without OFFLOADING_MT_ENABLE
-- and without NDEBUG. There is one event system, which every event belongs to.
pub mod Returned
pub mod Sweep
pub mod Completed
pub mod Histories
pub mod Emit
use dpu_offload_service.Prelude.{
  ℕ, zero, suc, ◌==◌, ltb, Bool, true, false, ◌&&◌, ◌||◌, not, if◌then◌else◌, Option, none, some,
  List, [], ◌∷◌, ◌++◌,
}
use dpu_offload_service.Prelude.Result.{Result, ok, err, fault, need, check, ◌>>=◌}
use dpu_offload_service.Size.{add_size, sub_size, uint64_max}
use dpu_offload_service.Ucs.{UcsList}
use dpu_offload_service.DynList.{DynList, give_back}
use dpu_offload_service.DynList
use dpu_offload_service.Notifications.{NotifInfo, no_info, is_null}

-- What these functions use of `dpu_offload_event_t`, the members of its `am_req_t` among it.
pub record Event (Head : Type 0) : Type 0 where
  pub seq_num : ℕ
  pub complete : Bool
  pub completion_cb : Option ℕ
  pub completion_cb_ctx : Option ℕ
  pub hdr_id : ℕ
  pub hdr_type : ℕ
  pub hdr_payload_size : ℕ
  pub sender_type : ℕ
  pub hdr_seq_num : ℕ
  pub hdr_client_id : ℕ
  pub hdr_server_id : ℕ
  pub hdr_scope_id : ℕ
  pub client_id : ℕ
  pub server_id : ℕ
  pub user_context : Option ℕ
  pub scope_id : ℕ
  pub sub_events : Head
  pub sub_events_initialized : Bool
  pub is_subevent : Bool
  pub is_ongoing_event : Bool
  pub was_posted : Bool
  pub req : Option ℕ
  pub context : Option ℕ
  pub explicit_return : Bool
  pub manage_payload_buf : Bool
  pub payload : Option ℕ
  pub dest_ep : Option ℕ
  pub dest_id : ℕ
  pub event_system : Option ℕ
  pub info : NotifInfo

-- `dpu_offload_event_info_t`
pub record EventInfo : Type 0 where
  pub payload_size : ℕ
  pub explicit_return : Bool
  pub pool : NotifInfo

-- `dpu_offload_ev_sys_t` as far as events are sent through it, what the elements of its pool hold, and
-- the variable `seq_num` of the file.
pub record EventSystem (Head : Type 0) : Type 0 where
  pub address : ℕ
  pub scope_id : ℕ
  pub econtext_type : ℕ
  pub free_evs : DynList Head (Event Head)
  pub num_used_evs : ℕ
  pub seq_num : ℕ
  pub events : ℕ → Event Head

-- META_EVENT_TYPE
abbrev pub meta_event_type : ℕ
meta_event_type = 32

-- What is done besides: a buffer is freed, a buffer is given to the `return_buf` of its pool, or a
-- completion callback is invoked.
pub data Effect : Type 0 where
  frees : ℕ → Effect
  returns_buf : ℕ → ℕ → ℕ → Effect
  calls : ℕ → Option ℕ → Effect

-- The buffer goes back to where it came from; a pool without `return_buf` is left to its owner.
abbrev pub released : NotifInfo → ℕ → List Effect
released info buf = elim info.mem_pool [
  | none ↦ frees buf ∷ []
  | some pool ↦ elim info.return_buf [ none ↦ [] | some f ↦ returns_buf f pool buf ∷ [] ]
]

module _ {Head : Type 0} where
  -- RESET_EVENT
  unfoldable pub reset_event : Event Head → Event Head
  reset_event e = record e {
    context = none;
    payload = none;
    event_system = none;
    req = none;
    complete = false;
    completion_cb = none;
    completion_cb_ctx = none;
    hdr_type = uint64_max;
    hdr_id = uint64_max;
    hdr_payload_size = 0;
    manage_payload_buf = false;
    explicit_return = false;
    dest_ep = none;
    dest_id = uint64_max;
    is_subevent = false;
    is_ongoing_event = false;
    was_posted = false;
    info = no_info;
  }

  abbrev pub write : EventSystem Head → ℕ → Event Head → EventSystem Head
  write s p e = record s { events = λ q. if p == q then e else s.events q }

  -- COMPLETE_EVENT
  unfoldable pub complete_event : EventSystem Head → ℕ → EventSystem Head × List Effect
  complete_event s p =
      let e = s.events p in
      elim e.completion_cb [
        | none ↦ (write s p (record e { complete = true }), [])
        | some cb ↦ (
          write s p (record e { complete = true; completion_cb = none; completion_cb_ctx = none }),
          calls cb e.completion_cb_ctx ∷ [],
        )
      ]

  -- The part of event_get that finds a payload buffer: `get_buf` is what the function at an address
  -- answers for a pool and its arguments, `malloc` what malloc answers.
  unfoldable pub add_payload :
      (ℕ → ℕ → Option ℕ → Option ℕ) → (ℕ → Option ℕ) → EventInfo → Event Head → Result (Event Head)
  add_payload get_buf malloc info e = elim info.pool.mem_pool [
    | some pool ↦ need info.pool.get_buf >>= λ f.
        need (get_buf f pool info.pool.get_buf_args) >>= λ buf. ok (record e {
          manage_payload_buf = true;
          payload = some buf;
          hdr_payload_size = info.pool.element_size;
          info = record e.info {
            mem_pool = info.pool.mem_pool;
            get_buf = info.pool.get_buf;
            return_buf = info.pool.return_buf;
          };
        })
    | none ↦
        if info.payload_size == 0
        then ok e
        else need (malloc info.payload_size) >>= λ buf. ok (record e {
          manage_payload_buf = true;
          payload = some buf;
          hdr_payload_size = info.payload_size;
        })
  ]

  unfoldable pub fill_event :
      (ℕ → ℕ → Option ℕ → Option ℕ)
      → (ℕ → Option ℕ)
      → Option EventInfo
      → Event Head
      → Result (Event Head)
  unfolding add_payload
  fill_event get_buf malloc none e = ok e
  fill_event get_buf malloc (some info) e =
      add_payload get_buf malloc info (record e { explicit_return = info.explicit_return })

  -- What do_event_return does about the payload buffer.
  unfoldable pub release_payload : Event Head → Event Head × List Effect
  release_payload e =
      if e.manage_payload_buf
      then elim e.payload [
        | none ↦ (e, [])
        | some buf ↦ (record e { payload = none; hdr_payload_size = 0 }, released e.info buf)
      ]
      else (e, [])

-- sizeof(dpu_offload_event_t)
abbrev pub event_size : ℕ
event_size = 264

module _ (u : UcsList) where
  open u use {Head, head_init, add_tail, del, items, no_item}

  -- do_event_return. `err` is EVENT_INPROGRESS.
  unfoldable pub do_event_return : EventSystem Head → ℕ → Result (EventSystem Head × List Effect)
  unfolding release_payload
  do_event_return s p =
      let e = s.events p in
      check (not (is_null e.event_system)) (
        if not (is_null e.req)
        then err (some (s, []))
        else check (ltb 0 e.hdr_type) (
            check
              (not (e.hdr_type == meta_event_type)
                || not e.sub_events_initialized
                || no_item e.sub_events)
              (let (e', effects) = release_payload e in
                ok (
                  record (write s p e') {
                    num_used_evs = sub_size s.num_used_evs 1;
                    free_evs = give_back u s.free_evs p;
                  },
                  effects,
                ))))

  -- event_return
  unfoldable pub event_return : EventSystem Head → ℕ → Result (EventSystem Head × List Effect)
  event_return s p =
      if (s.events p).is_ongoing_event then err (some (s, [])) else do_event_return s p

  -- QUEUE_SUBEVENT
  unfoldable pub queue_subevent : EventSystem Head → ℕ → ℕ → Result (EventSystem Head)
  queue_subevent s metaev p = check (s.events p).is_subevent (
      check (not (s.events p).is_ongoing_event) (
        let m = s.events metaev in
        let head : Head = if m.sub_events_initialized then m.sub_events else head_init in
        ok (
          write s metaev
            (record m { sub_events_initialized = true; sub_events = add_tail head p }))))

  -- A sub-event that is complete leaves the list of its meta event.
  abbrev pub detach : EventSystem Head → ℕ → ℕ → EventSystem Head
  detach s ev p =
      let m = s.events ev in
      let s' = write s ev (record m { sub_events = del m.sub_events p }) in
      write s' p (record (s'.events p) { is_subevent = false })

  -- The loop of event_completed over the sub-events `ps`. `err`: it leaves with DO_ERROR.
  unfoldable pub return_completed :
      ℕ → List ℕ → EventSystem Head → List Effect → Result (EventSystem Head × List Effect)
  return_completed ev [] s effects = ok (s, effects)
  return_completed ev (p ∷ ps) s effects =
      check (s.events p).is_subevent (elim (s.events p).complete [
        | false ↦ return_completed ev ps s effects
        | true ↦ elim (do_event_return (detach s ev p) p) [
          | ok (s', more) ↦ return_completed ev ps s' (effects ++ more)
          | err e ↦ err (some (detach s ev p, effects))
          | fault ↦ fault
        ]
      ])

  abbrev complete_with :
      EventSystem Head → ℕ → List Effect → Result (Bool × EventSystem Head × List Effect)
  complete_with s ev effects =
      let (s', more) = complete_event s ev in ok (true, s', effects ++ more)

  -- event_completed. The error of the loop is returned as a `bool`, so it is true.
  unfoldable pub event_completed :
      EventSystem Head → ℕ → Result (Bool × EventSystem Head × List Effect)
  event_completed s ev =
      let e = s.events ev in
      if not (e.hdr_type == meta_event_type) && e.complete
      then complete_with s ev []
      else check (not (is_null e.event_system)) (
          if e.hdr_type == meta_event_type
          then if e.sub_events_initialized
            then elim (return_completed ev (items e.sub_events) s []) [
              | ok (s', effects) ↦
                  if no_item (s'.events ev).sub_events
                  then complete_with s' ev effects
                  else ok (false, s', effects)
              | err none ↦ err none
              | err (some (s', effects)) ↦ ok (true, s', effects)
              | fault ↦ fault
            ]
            else complete_with s ev []
          else ok (false, s, []))

  -- event_get; `answer` is what malloc answers if the pool grows.
  module _ (allocates : ℕ → Bool) (get_buf : ℕ → ℕ → Option ℕ → Option ℕ)
      (malloc : ℕ → Option ℕ) where
    unfoldable pub event_get :
        EventSystem Head → Option ℕ → Option EventInfo → Result (ℕ × EventSystem Head)
    unfolding fill_event reset_event
    event_get s answer info =
        need (DynList.get u event_size allocates answer s.events s.free_evs) >>= λ r.
        let taken = record s {
          free_evs = r.1;
          events = r.2;
          seq_num = add_size s.seq_num 1;
          num_used_evs = add_size s.num_used_evs 1;
        } in
        let e = reset_event (record (r.2 r.0) { seq_num = s.seq_num }) in
        check (not (r.0 == 0)) (
          check (not e.sub_events_initialized || no_item e.sub_events) (
            fill_event get_buf malloc info (record e {
              event_system = some s.address;
              scope_id = s.scope_id;
              sender_type = s.econtext_type;
            })
            >>= λ e'. ok (r.0, write taken r.0 e')))
