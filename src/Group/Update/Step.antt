-- ===== src/Group/Update/Step.antt =====
-- `update_topology_data` as a whole: its two halves together.
use dpu_offload_service.Prelude.{
  ℕ, ◌<◌, ◌≡◌, refl, sym, ◌∙◌, inl, inr, true, false, some, ◌==◌, if◌then◌else◌, Bool-cases,
}
use dpu_offload_service.Hash.{lookup}
use dpu_offload_service.Group.{Topology, Engine}
use dpu_offload_service.Group.Update.{no_topology, update_topology_data}
use dpu_offload_service.Group.Update.Invariant.{
  on_sp, on_host, uses_sp, is_some, SpsAgree, HostsAgree, IsConfig,
}
use dpu_offload_service.Group.Update.Sps.{SpStep, add_sp-SpStep}
use dpu_offload_service.Group.Update.Hosts.{HostStep, add_host-HostStep}

-- Every counter of the topology is the number of bits that are set in the bitset beside it, and a
-- service process or host is marked exactly if it has an entry.
pub record IsConsistent (engine : Engine) (gs : ℕ) (t : Topology) : Type 0 where
  pub sps_agree : SpsAgree gs t
  pub hosts_agree : HostsAgree engine gs t
  pub sps_known : (h g : ℕ) → uses_sp t h g ≡ true → is_some (lookup g t.sps_hash) ≡ true

-- Rank `r` was attached to SP `g` on host `h`, and nothing else changed.
pub record Attached (t : Topology) (r g h : ℕ) (t' : Topology) : Type 0 where
  pub on_sp_eq :
      (j k : ℕ)
      → on_sp t' j k ≡ (if g == j then (if r == k then true else on_sp t j k) else on_sp t j k)
  pub on_host_eq :
      (j k : ℕ)
      → on_host t' j k
        ≡ (if h == j then (if r == k then true else on_host t j k) else on_host t j k)
  pub uses_sp_eq :
      (j k : ℕ)
      → uses_sp t' j k
        ≡ (if h == j then (if g == k then true else uses_sp t j k) else uses_sp t j k)

-- A group without entries is consistent.
pub no_topology-IsConsistent : (engine : Engine) (gs : ℕ) → IsConsistent engine gs no_topology
unfolding lookup
no_topology-IsConsistent engine gs = record {
  sps_agree = record {
    entries = λ g d e. cc;
    counted = refl;
    marks = λ g. refl;
    tidy = tt;
    sized = refl;
  };
  hosts_agree = record { entries = λ h d e. cc; counted = refl; marks = λ h i e. refl; tidy = tt };
  sps_known = λ h g e. cc;
}

-- The first half leaves what the topology says of hosts.
pub SpStep-HostsAgree :
    (engine : Engine) (gs : ℕ) (t : Topology) (r g : ℕ)
    → HostsAgree engine gs t
    → (t1 : Topology) → SpStep gs t r g t1
    → HostsAgree engine gs t1
SpStep-HostsAgree engine gs t r g a t1 s1 = record {
  entries = λ j d e. a.entries j d (rw s1.same_hosts at e);
  counted = rw (s1.same_bitset, s1.same_count) a.counted;
  marks = λ j k e. rw (s1.same_bitset, s1.same_hosts) (a.marks j k e);
  tidy = rw s1.same_hosts a.tidy;
}

module _ (engine : Engine) (gp_uid gs : ℕ) (config : IsConfig engine) (t : Topology)
    (r g h i : ℕ) where
  -- With a configuration that numbers its hosts, `update_topology_data` for a rank of the group that is neither on the SP nor on the host yet, an
  -- SP whose global id is below the group's size and a configured host, on a consistent topology: it
  -- does not fault, the result is consistent, and exactly that rank, SP and host are related anew.
  pub update_topology_data-Attached :
      IsConsistent engine gs t
      → r < gs
      → g < gs
      → lookup h engine.host_lookup_table ≡ some i
      → on_sp t g r ≡ false
      → on_host t h r ≡ false
      → (t' : Topology) × (update_topology_data engine gp_uid gs t r g h ≡ some t')
        × IsConsistent engine gs t'
        × Attached t r g h t'
  unfolding update_topology_data
  update_topology_data-Attached c r_in g_in known not_on_sp not_on_host =
      let (t1, e1, s1) = add_sp-SpStep engine gp_uid gs t r g h c.sps_agree r_in g_in not_on_sp in
      let (t2, e2, s2) =
        add_host-HostStep engine gp_uid gs t1 r g h config
          (SpStep-HostsAgree engine gs t r g c.hosts_agree t1 s1) r_in g_in i known
          (rw s1.same_hosts not_on_host) in
      (
        t2,
        rw (e1, e2),
        record {
          sps_agree = back t1 t2 s1 s2;
          hosts_agree = s2.agree;
          sps_known = stay_known t1 t2 s1 s2;
        },
        record {
          on_sp_eq = λ j k. rw s2.same_sps (s1.shows j k);
          on_host_eq = λ j k. rw (s2.shows_ranks j k, s1.same_hosts);
          uses_sp_eq = λ j k. rw (s2.shows_sps j k, s1.same_hosts);
        },
      )
    where
      back :
          (t1 t2 : Topology) → SpStep gs t r g t1 → HostStep engine gs t1 r g h t2 → SpsAgree gs t2
      back t1 t2 s1 s2 = record {
        entries = λ j d e. s1.agree.entries j d (rw s2.same_sps at e);
        counted = rw (s2.same_bitset, s2.same_count) s1.agree.counted;
        marks = λ j. rw (s2.same_bitset, s2.same_sps) (s1.agree.marks j);
        tidy = rw s2.same_sps s1.agree.tidy;
        sized = rw (s2.same_sps, s2.same_count) s1.agree.sized;
      }

      stay_known :
          (t1 t2 : Topology)
          → SpStep gs t r g t1
          → HostStep engine gs t1 r g h t2
          → (j k : ℕ) → uses_sp t2 j k ≡ true
          → is_some (lookup k t2.sps_hash) ≡ true
      stay_known t1 t2 s1 s2 j k used =
          rw (s2.same_sps, s1.keeps k)
            (elim (Bool-cases (g == k)) [
              | inl same ↦ rw same
              | inr other ↦ rw other (
                  c.sps_known j k (elim (Bool-cases (h == j)) [
                    | inl here ↦ sym (rw (s2.shows_sps j k, s1.same_hosts, here, other)) ∙ used
                    | inr there ↦ sym (rw (s2.shows_sps j k, s1.same_hosts, there)) ∙ used
                  ]))
            ])
