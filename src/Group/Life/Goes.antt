-- ===== src/Group/Life/Goes.antt =====
-- The calls of Group/Life.antt on a group that is not being revoked, with messages of its own.
use dpu_offload_service.Prelude.{
  ℕ, ◌+◌, ◌≡◌, refl, ap, ◌∙◌, inl, inr, Bool, true, false, Option, none, some, List, [], ◌∷◌, arith,
  ◌==◌, if◌then◌else◌, Option-cases, Bool-cases, get_elem?,
}
use dpu_offload_service.Prelude.Result.{
  Result, ok, fault, need, ◌>>=◌, >>=-ok, Result-cases, and_then,
}
use dpu_offload_service.Group.{Engine, Peer, GroupCache}
use dpu_offload_service.Group.Receive.{Entry, add_entry, receive_entry, receive_entries}
use dpu_offload_service.Group.Life.{
  Setup, GroupState, AddMsg, behind, get_group_cache, learn_group_size, entries_done,
  handle_entries, handle_waiting, exchanges, add_rank, add_group_rank,
}

-- A call succeeds with a value of which a predicate holds, or it faults.
pub data Goes {A : Type 0} (P : A → Type 0) (r : Result A) : Type 0 where
  succeeds : (a : A) → r ≡ ok a → P a → Goes P r
  faults : r ≡ fault → Goes P r

pub >>=-Goes :
    {A B : Type 0} {P : A → Type 0} {Q : B → Type 0} (f : A → Result B) {m : Result A}
    → Goes P m
    → ((a : A) → P a → Goes Q (f a))
    → Goes Q (m >>= f)
>>=-Goes f (Goes.succeeds a e p) k = elim (k a p) [
  | Goes.succeeds b e' q ↦ Goes.succeeds b (>>=-ok f e e') q
  | Goes.faults e' ↦ Goes.faults (>>=-ok f e e')
]
>>=-Goes f (Goes.faults e) k = Goes.faults (ap (λ x. x >>= f) e)

pub and_then-Goes :
    {A : Type 0} {P Q : A → Type 0} (f : A → Result A) {m : Result A}
    → Goes P m
    → ((a : A) → P a → Goes Q (f a))
    → Goes Q (and_then m f)
and_then-Goes f (Goes.succeeds a e p) k = elim (k a p) [
  | Goes.succeeds b e' q ↦ Goes.succeeds b (ap (λ x. and_then x f) e ∙ e') q
  | Goes.faults e' ↦ Goes.faults (ap (λ x. and_then x f) e ∙ e')
]
and_then-Goes f (Goes.faults e) k = Goes.faults (ap (λ x. and_then x f) e)

pub need-Goes :
    {A : Type 0} {P : A → Type 0} (m : Option A) → ((a : A) → m ≡ some a → P a) → Goes P (need m)
need-Goes none k = Goes.faults refl
need-Goes (some a) k = Goes.succeeds a refl (k a refl)

-- Entries that name the group, and messages of such entries.
pub data OurEntries (uid : ℕ) : List Entry → Type 0 where
  no_entry : OurEntries uid []
  an_entry :
      (e : Entry) {es : List Entry}
      → e.group_uid ≡ uid
      → OurEntries uid es
      → OurEntries uid (e ∷ es)

pub data OurMessages (uid : ℕ) : List (List Entry) → Type 0 where
  no_message : OurMessages uid []
  a_message :
      (es : List Entry) {ms : List (List Entry)}
      → OurEntries uid es
      → OurMessages uid ms
      → OurMessages uid (es ∷ ms)

-- The group keeps its id and the number of its revokes.
abbrev SameGroup : ℕ → GroupCache → Type 0
SameGroup uid gp = (gp.global_revokes ≡ 0) × (gp.group_uid ≡ uid)

abbrev SameGroupOf : ℕ → GroupCache × ℕ → Type 0
SameGroupOf uid r = SameGroup uid r.0

module _ (engine : Engine) (uid : ℕ) where
  add_entry-Goes :
      (gp : GroupCache) (old p : Peer)
      → SameGroup uid gp
      → Goes (SameGroup uid) (add_entry engine gp old p)
  unfolding add_entry
  add_entry-Goes gp old p (a, b) = elim (Result-cases (add_entry engine gp old p)) [
    | inl (gp', e) ↦ Goes.succeeds gp' e (ground arith, ground arith)
    | inr (inl (x, e)) ↦ absurd (ground arith)
    | inr (inr e) ↦ Goes.faults e
  ]

  receive_entry-Goes :
      (size : ℕ) (gp : GroupCache) (e : Entry)
      → e.group_uid ≡ uid
      → SameGroup uid gp
      → Goes (SameGroupOf uid) (receive_entry engine size gp e)
  unfolding receive_entry
  receive_entry-Goes size gp e ours (a, b) =
      let same : (e.group_uid == gp.group_uid) ≡ true = ground arith in
      elim (Bool-cases (e.group_size == size)) [
        | inr other ↦ Goes.faults (rw (same, other) refl)
        | inl fits ↦ elim (Option-cases (get_elem? gp.ranks e.peer.group_rank)) [
          | inl outside ↦ Goes.faults (rw (same, fits, outside) refl)
          | inr (old, there) ↦ elim (Bool-cases old.is_set) [
            | inl cached ↦ Goes.succeeds (gp, 0) (rw (same, fits, there, cached) refl) (a, b)
            | inr new ↦ elim (add_entry-Goes gp old e.peer (a, b)) [
              | Goes.succeeds gp' run kept ↦
                  Goes.succeeds (gp', 1) (rw (same, fits, there, new, run) refl) kept
              | Goes.faults run ↦ Goes.faults (rw (same, fits, there, new, run) refl)
            ]
          ]
        ]
      ]

  pub receive_entries-Goes :
      (size : ℕ) (gp : GroupCache) (es : List Entry)
      → OurEntries uid es
      → SameGroup uid gp
      → Goes (SameGroupOf uid) (receive_entries engine size gp es)
  unfolding receive_entries
  receive_entries-Goes size gp [] ours same = Goes.succeeds (gp, 0) refl same
  receive_entries-Goes size gp (e ∷ es) (OurEntries.an_entry _ our ours) same =
      elim (receive_entry-Goes size gp e our same) [
        | Goes.faults run ↦ Goes.faults (rw run refl)
        | Goes.succeeds r run kept ↦ elim (receive_entries-Goes size r.0 es ours kept) [
          | Goes.faults runs ↦ Goes.faults (rw (run, runs) refl)
          | Goes.succeeds q runs kept' ↦ Goes.succeeds (q.0, r.1 + q.1) (rw (run, runs) refl) kept'
        ]
      ]

-- A group that is not being revoked, for which only entries of its own wait.
pub record IsCalm (uid : ℕ) (s : GroupState) : Type 0 where
  pub same_group : SameGroup uid s.cache
  pub ours : OurMessages uid s.pending_recv_cache_entries

IsCalm-eq :
    (uid : ℕ) (s s' : GroupState)
    → IsCalm uid s
    → s'.cache.global_revokes ≡ 0
    → s'.cache.group_uid ≡ s.cache.group_uid
    → s'.pending_recv_cache_entries ≡ s.pending_recv_cache_entries
    → IsCalm uid s'
IsCalm-eq uid s s' calm none_revokes same waits = record {
  same_group = (none_revokes, same ∙ calm.same_group.1);
  ours = rw waits calm.ours;
}

pub get_group_cache-Goes :
    (uid : ℕ) (s : GroupState) (n : ℕ) → IsCalm uid s → Goes (IsCalm uid) (get_group_cache s n)
unfolding get_group_cache
get_group_cache-Goes uid s n calm =
    let none_revokes = calm.same_group.0 in
    elim (Result-cases (get_group_cache s n)) [
      | inl (s', e) ↦
          Goes.succeeds s' e (IsCalm-eq uid s s' calm (ground arith) (ground arith) (ground arith))
      | inr (inl (x, e)) ↦ absurd (ground arith)
      | inr (inr e) ↦ Goes.faults e
    ]

learn_group_size-Goes :
    (engine : Engine) (uid : ℕ) (s : GroupState) (n : ℕ)
    → IsCalm uid s
    → Goes (IsCalm uid) (need (learn_group_size engine s n))
unfolding learn_group_size
learn_group_size-Goes engine uid s n calm =
    let none_revokes = calm.same_group.0 in
    need-Goes (learn_group_size engine s n)
      (λ s' e. IsCalm-eq uid s s' calm (ground arith) (ground arith) (ground arith))

behind-OurMessages :
    (uid : ℕ) (ms : List (List Entry)) → OurMessages uid ms → OurMessages uid (behind ms)
behind-OurMessages uid [] ours = ours
behind-OurMessages uid (m ∷ ms) (OurMessages.a_message _ our ours) = ours

module _ (c : Setup) (uid : ℕ) where
  entries_done-Goes :
      (s : GroupState) (r : Result (GroupCache × ℕ))
      → IsCalm uid s
      → Goes (SameGroupOf uid) r
      → Goes (IsCalm uid) (entries_done c s r)
  entries_done-Goes s r calm (Goes.faults e) = Goes.faults (ap (λ x. entries_done c s x) e)
  entries_done-Goes s r calm (Goes.succeeds q e kept) =
      elim (Result-cases (entries_done c s (ok q))) [
        | inl (s', e') ↦ Goes.succeeds s' (ap (λ x. entries_done c s x) e ∙ e') (record {
          same_group = (ground (arith, kept.0), ground (arith, kept.1));
          ours =
              (let w : s'.pending_recv_cache_entries ≡ s.pending_recv_cache_entries =
                  ground arith in
                rw w calm.ours);
        })
        | inr (inl (x, e')) ↦ absurd (ground arith)
        | inr (inr e') ↦ absurd (ground arith)
      ]

  handle_entries-Goes :
      (s : GroupState) (es : List Entry)
      → OurEntries uid es
      → IsCalm uid s
      → Goes (IsCalm uid) (handle_entries c s es)
  unfolding handle_entries
  handle_entries-Goes s [] ours calm = Goes.faults refl
  handle_entries-Goes s (e ∷ es) ours calm =
      >>=-Goes _ (get_group_cache-Goes uid s e.group_size calm) (λ s1 calm1.
        >>=-Goes _ (learn_group_size-Goes c.engine uid s1 e.group_size calm1) (λ s2 calm2.
          entries_done-Goes s2 (receive_entries c.engine e.group_size s2.cache (e ∷ es)) calm2 (
            receive_entries-Goes c.engine uid e.group_size s2.cache (e ∷ es) ours
              calm2.same_group)))

  pub handle_waiting-Goes :
      (s : GroupState) (ms : List (List Entry))
      → OurMessages uid ms
      → IsCalm uid s
      → Goes (IsCalm uid) (handle_waiting c s ms)
  unfolding handle_waiting
  handle_waiting-Goes s [] ours calm = Goes.succeeds s refl calm
  handle_waiting-Goes s (m ∷ ms) (OurMessages.a_message _ our ours) calm =
      and_then-Goes _
        (handle_entries-Goes
          (record s { pending_recv_cache_entries = behind s.pending_recv_cache_entries }) m our
          (record {
            same_group = calm.same_group;
            ours = behind-OurMessages uid s.pending_recv_cache_entries calm.ours;
          }))
        (λ s' calm'. handle_waiting-Goes s' ms ours calm')

  add_rank-Goes :
      (world : List Peer) (s : GroupState) (msg : AddMsg) (rank : ℕ)
      → IsCalm uid s
      → Goes (IsCalm uid) (add_rank c world s msg rank)
  unfolding add_rank
  add_rank-Goes world s msg rank calm =
      let none_revokes = calm.same_group.0 in
      elim (Result-cases (add_rank c world s msg rank)) [
        | inl (s', e) ↦
            Goes.succeeds s' e
              (IsCalm-eq uid s s' calm (ground arith) (ground arith) (ground arith))
        | inr (inl (x, e)) ↦ absurd (ground arith)
        | inr (inr e) ↦ Goes.faults e
      ]

  pub add_group_rank-Goes :
      (world : List Peer) (s : GroupState) (msg : AddMsg) (rank : ℕ)
      → IsCalm uid s
      → Goes (IsCalm uid) (add_group_rank c world s msg rank)
  unfolding add_group_rank
  add_group_rank-Goes world s msg rank calm =
      >>=-Goes _ (learn_group_size-Goes c.engine uid s msg.group_size calm) (λ s1 calm1.
        >>=-Goes _ (need-Goes {P = λ old. Unit {0}} (get_elem? s1.cache.ranks rank) (λ old e. tt))
          (λ old u. >>=-Goes _ (present s1 old.is_set calm1) (λ s2 calm2.
            and_then-Goes _ (handle_waiting-Goes s2 s2.pending_recv_cache_entries calm2.ours calm2)
              (λ s3 calm3.
                Goes.succeeds
                  (record s3 {
                    broadcasts = if exchanges c s3 then s3.broadcasts + 1 else s3.broadcasts;
                  })
                  refl (record { same_group = calm3.same_group; ours = calm3.ours })))))
    where
      present :
          (s1 : GroupState) (b : Bool)
          → IsCalm uid s1
          → Goes (IsCalm uid) (if b then ok s1 else add_rank c world s1 msg rank)
      present s1 true calm1 = Goes.succeeds s1 refl calm1
      present s1 false calm1 = add_rank-Goes world s1 msg rank calm1
