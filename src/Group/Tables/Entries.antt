-- ===== src/Group/Tables/Entries.antt =====
-- The walks over the two hashes of a group: every entry gets its table, and nothing else changes but
-- the local ids.
use dpu_offload_service.Prelude.{
  ℕ, suc, ◌<◌, ◌≡◌, refl, sym, ◌∙◌, inl, inr, true, false, Option, none, some, List, [], ◌∷◌, arith,
  ◌==◌, dec_lt, Bool-cases, ap,
}
use dpu_offload_service.Prelude.Count.{count, bits}
use dpu_offload_service.Bitset.{Bitset}
use dpu_offload_service.Bitset.Laws.{has, room, has-past}
use dpu_offload_service.Hash.{Hash, lookup, size, Distinct}
use dpu_offload_service.Group.{SpData, HostData}
use dpu_offload_service.Group.Update.Invariant.{is_some, popcount}
use dpu_offload_service.Group.Tables.{populate_sp_ranks, populate_host_sps, walk_sps, walk_hosts}
use dpu_offload_service.Group.Tables.Walk.{collect-bits, elements-index}
use dpu_offload_service.Group.Tables.Lids.{
  relid, Numbered, Numbered-count, number_sps-Numbered, relid-some,
}

-- All indices that a bitset marks, in increasing order.
abbrev pub marked_in : Bitset → List ℕ
marked_in b = bits (has b) (room b)

abbrev pub with_ranks : SpData → SpData
with_ranks d = record d { ranks = some (marked_in d.ranks_bitset) }

abbrev pub with_sps : HostData → HostData
with_sps d = record d { sps = some (marked_in d.sps_bitset) }

abbrev pub on_some : {V : Type 0} → (V → V) → Option V → Option V
on_some f none = none
on_some f (some v) = some (f v)

pub populate_sp_ranks-marked :
    (d : SpData)
    → 0 < d.n_ranks
    → d.n_ranks ≡ popcount d.ranks_bitset
    → populate_sp_ranks d ≡ some (with_ranks d)
unfolding populate_sp_ranks
populate_sp_ranks-marked d pos e =
    let b = d.ranks_bitset in
    let walk = collect-bits (λ n i. i) b (room b) d.n_ranks 0 0 (omega arith) e in
    let used : (d.n_ranks == 0) ≡ false = ground arith in rw (used, walk, elements-index)

pub populate_host_sps-Numbered :
    (sps : Hash SpData) (d : HostData)
    → 0 < d.num_sps
    → d.num_sps ≡ popcount d.sps_bitset
    → ((k : ℕ) → has d.sps_bitset k ≡ true → is_some (lookup k sps) ≡ true)
    → (sps' : Hash SpData) × (populate_host_sps sps d ≡ some (sps', with_sps d))
      × Numbered d.sps_bitset (room d.sps_bitset) 0 0 sps sps'
unfolding populate_host_sps
populate_host_sps-Numbered sps d pos e known =
    let b = d.sps_bitset in
    let (sps', q, s) = number_sps-Numbered b (room b) d.num_sps 0 0 sps (omega arith) e known in
    let used : (d.num_sps == 0) ≡ false = ground arith in (sps', rw (used, q), s)

module _ {V : Type 0} (k : ℕ) (v : V) (m : Hash V) where
  lookup-here : lookup k ((k, v) ∷ m) ≡ some v
  unfolding lookup
  lookup-here = ground arith

  lookup-there :
      lookup k m ≡ none → (j : ℕ) (w : V) → lookup j m ≡ some w → lookup j ((k, v) ∷ m) ≡ some w
  unfolding lookup
  lookup-there absent j w found = elim (Bool-cases (k == j)) [
    | inl here ↦ let e : k ≡ j = ground arith in absurd (let f = rw (← e) at found in cc)
    | inr there ↦ rw there found
  ]

  lookup-cons_congr :
      (f : V → V) (v' : V) (m' : Hash V)
      → v' ≡ f v
      → ((j : ℕ) → lookup j m' ≡ on_some f (lookup j m))
      → (j : ℕ) → lookup j ((k, v') ∷ m') ≡ on_some f (lookup j ((k, v) ∷ m))
  unfolding lookup
  lookup-cons_congr f v' m' e h j = elim (Bool-cases (k == j)) [
    | inl here ↦ rw (here, e)
    | inr there ↦ rw there (h j)
  ]

pub on_some-none : {V : Type 0} (f : V → V) (o : Option V) → o ≡ none → on_some f o ≡ none
on_some-none f o h = rw h

-- `kh_foreach` over the service processes gives each its ranks.
pub walk_sps-with_ranks :
    (m : Hash SpData)
    → Distinct m
    → ((k : ℕ) (d : SpData)
        → lookup k m ≡ some d
        → (0 < d.n_ranks) × (d.n_ranks ≡ popcount d.ranks_bitset))
    → (m' : Hash SpData) × (walk_sps m ≡ some m')
      × ((j : ℕ) → lookup j m' ≡ on_some with_ranks (lookup j m))
      × (size m' ≡ size m)
      × Distinct m'
unfolding walk_sps lookup
walk_sps-with_ranks [] t h = ([], refl, λ j. refl, refl, tt)
walk_sps-with_ranks ((k, d) ∷ m) t h =
    let (pos, n_eq) = h k d (lookup-here k d m) in
    let (m', e, l, s, t') =
      walk_sps-with_ranks m t.1 (λ j w f. h j w (lookup-there k d m t.0 j w f)) in
    (
      (k, with_ranks d) ∷ m',
      rw (populate_sp_ranks-marked d pos n_eq, e),
      lookup-cons_congr k d m with_ranks (with_ranks d) m' refl l,
      ap suc s,
      (l k ∙ on_some-none with_ranks _ t.0, t'),
    )

-- No service process serves two hosts of the group.
abbrev pub IsApart : Hash HostData → Type 0
IsApart m =
    (h j k : ℕ) (d e : HostData)
    → lookup h m ≡ some d
    → lookup j m ≡ some e
    → has d.sps_bitset k ≡ true
    → has e.sps_bitset k ≡ true
    → h ≡ j

-- What a walk over hosts needs of every entry, and what it does.
abbrev pub IsListable : Hash SpData → Hash HostData → Type 0
IsListable sps m =
    (h : ℕ) (d : HostData)
    → lookup h m ≡ some d
    → (0 < d.num_sps)
      × (d.num_sps ≡ popcount d.sps_bitset)
      × ((k : ℕ) → has d.sps_bitset k ≡ true → is_some (lookup k sps) ≡ true)

pub record Walked (m : Hash HostData) (sps : Hash SpData) (m' : Hash HostData) (sps' : Hash SpData)
    : Type 0 where
  pub entries : (j : ℕ) → lookup j m' ≡ on_some with_sps (lookup j m)
  pub same : (k : ℕ) → relid 0 (lookup k sps') ≡ relid 0 (lookup k sps)
  pub clear :
      (k : ℕ)
      → ((h : ℕ) (d : HostData) → lookup h m ≡ some d → has d.sps_bitset k ≡ false)
      → lookup k sps' ≡ lookup k sps
  pub lids :
      IsApart m
      → (h k : ℕ) (d : HostData) → lookup h m ≡ some d
      → has d.sps_bitset k ≡ true
      → lookup k sps' ≡ relid (count (has d.sps_bitset) k) (lookup k sps)

in_room : (b : Bitset) (k : ℕ) → has b k ≡ true → k < room b
in_room b k on = elim (dec_lt k (room b)) [
  | yes h ↦ h
  | no h ↦ absurd (let off = has-past b k (omega arith) in cc)
]

known_after : (o o' : Option SpData) → relid 0 o' ≡ relid 0 o → is_some o ≡ true → is_some o' ≡ true
known_after o o' e h = sym (relid-some 0 o') ∙ rw e (relid-some 0 o) ∙ h

module _ (h : ℕ) (d : HostData) (m : Hash HostData) (sps sps1 : Hash SpData) (m' : Hash HostData)
    (sps' : Hash SpData) where
  Walked-cons :
      lookup h m ≡ none
      → Numbered d.sps_bitset (room d.sps_bitset) 0 0 sps sps1
      → Walked m sps1 m' sps'
      → Walked ((h, d) ∷ m) sps ((h, with_sps d) ∷ m') sps'
  unfolding lookup
  Walked-cons absent s w = record {
    entries = lookup-cons_congr h d m with_sps (with_sps d) m' refl w.entries;
    same = λ k. w.same k ∙ s.same k;
    clear = λ k off.
        w.clear k (λ j e f. off j e (lookup-there h d m absent j e f))
        ∙ s.clear k (off h d (lookup-here h d m));
    lids = λ apart j k e found on. elim (Bool-cases (h == j)) [
      | inl here ↦ here_lids apart j k e found on here
      | inr there ↦ there_lids apart j k e found on there
    ];
  }
    where
      unshared :
          IsApart ((h, d) ∷ m)
          → (k : ℕ) → has d.sps_bitset k ≡ true
          → (i : ℕ) (f : HostData) → lookup i m ≡ some f
          → has f.sps_bitset k ≡ false
      unshared apart k on i f found = elim (Bool-cases (has f.sps_bitset k)) [
        | inl shared ↦
            let e : h ≡ i =
              apart h i k d f (lookup-here h d m) (lookup-there h d m absent i f found) on shared in
            absurd (let found' : lookup h m ≡ some f = rw e found in cc)
        | inr off ↦ off
      ]

      here_lids :
          IsApart ((h, d) ∷ m)
          → (j k : ℕ) (e : HostData) → lookup j ((h, d) ∷ m) ≡ some e
          → has e.sps_bitset k ≡ true
          → (h == j) ≡ true
          → lookup k sps' ≡ relid (count (has e.sps_bitset) k) (lookup k sps)
      here_lids apart j k e found on here =
          let q : some d ≡ some e = sym (rw (here, lookup)) ∙ found in
          let same : d ≡ e = cc in
          let on' : has d.sps_bitset k ≡ true = rw (← same) at on in
          let inside : k < room d.sps_bitset = in_room d.sps_bitset k on' in
          rw (← same) (
            w.clear k (λ i f p. unshared apart k on' i f p)
            ∙ Numbered-count _ _ sps sps1 s k inside on')

      there_lids :
          IsApart ((h, d) ∷ m)
          → (j k : ℕ) (e : HostData) → lookup j ((h, d) ∷ m) ≡ some e
          → has e.sps_bitset k ≡ true
          → (h == j) ≡ false
          → lookup k sps' ≡ relid (count (has e.sps_bitset) k) (lookup k sps)
      there_lids apart j k e found on there =
          let found' : lookup j m ≡ some e = sym (rw (there, lookup)) ∙ found in
          let off : has d.sps_bitset k ≡ false = elim (Bool-cases (has d.sps_bitset k)) [
            | inl on' ↦ absurd (let q = unshared apart k on' j e found' in cc)
            | inr off ↦ off
          ] in
          let tail : IsApart m = λ a b i f g p q.
            apart a b i f g (lookup-there h d m absent a f p) (lookup-there h d m absent b g q) in
          w.lids tail j k e found' on ∙ rw (s.clear k off)

-- `kh_foreach` over the hosts gives each its service processes, and these their local ids.
pub walk_hosts-Walked :
    (m : Hash HostData) (sps : Hash SpData)
    → Distinct m
    → IsListable sps m
    → (m' : Hash HostData) × (sps' : Hash SpData) × (walk_hosts m sps ≡ some (sps', m'))
      × Walked m sps m' sps'
unfolding walk_hosts lookup
walk_hosts-Walked [] sps t h = (
  [],
  sps,
  refl,
  record {
    entries = λ j. refl;
    same = λ k. refl;
    clear = λ k off. refl;
    lids = λ apart j k d found on. absurd cc;
  },
)
walk_hosts-Walked ((j, d) ∷ m) sps t h =
    let (pos, n_eq, known) = h j d (lookup-here j d m) in
    let (sps1, e1, s) = populate_host_sps-Numbered sps d pos n_eq known in
    let (m', sps', e2, w) = walk_hosts-Walked m sps1 t.1 (rest sps1 s) in
    ((j, with_sps d) ∷ m', sps', rw (e1, e2), Walked-cons j d m sps sps1 m' sps' t.0 s w)
  where
    rest :
        (sps1 : Hash SpData)
        → Numbered d.sps_bitset (room d.sps_bitset) 0 0 sps sps1
        → IsListable sps1 m
    rest sps1 s i f found =
        let (pos, n_eq, known) = h i f (lookup-there j d m t.0 i f found) in
        (pos, n_eq, λ k on. known_after (lookup k sps) (lookup k sps1) (s.same k) (known k on))
