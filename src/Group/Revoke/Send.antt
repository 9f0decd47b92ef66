-- ===== src/Group/Revoke/Send.antt =====
-- How a service process tells another one which ranks revoked a group:
-- send_local_revoke_rank_group_cache of src/dpu_offload_utils.c, for a group whose cache is
-- initialised. The events and the sends succeed.
use dpu_offload_service.Prelude.{
  ℕ, zero, suc, ◌+◌, ◌-◌, true, false, Option, none, some, List, [], ◌∷◌, ltb, if◌then◌else◌,
}
use dpu_offload_service.Prelude.Result.{bind, assert}
use dpu_offload_service.Bitset.{Bitset, test}
use dpu_offload_service.Group.Revoke.{SpMsg}

-- The loop over `relative_idx`: the marks of `n` ranks from `idx` on. `none`: outside of the bitset.
unfoldable pub read_marks : Bitset → ℕ → ℕ → Option (List ℕ)
read_marks b zero idx = some []
read_marks b (suc n) idx =
    bind (test b idx)
      λ marked. bind (read_marks b n (idx + 1)) λ rest. some ((if marked then 1 else 0) ∷ rest)

-- At most 1024 ranks fit into a message.
abbrev pub num_to_send : ℕ → ℕ
num_to_send remaining_sends = if ltb remaining_sends 1024 then remaining_sends else 1024

-- The loop of send_local_revoke_rank_group_cache, on fuel: the messages. `none`: outside of the bitset,
-- or the fuel is used up.
unfoldable pub send_revokes : ℕ → ℕ → Bitset → ℕ → ℕ → ℕ → Option (List SpMsg)
send_revokes group_size num b zero ranks_sent remaining_sends =
    if ltb ranks_sent group_size then none else some []
send_revokes group_size num b (suc fuel) ranks_sent remaining_sends =
    elim (ltb ranks_sent group_size) [
      | false ↦ some []
      | true ↦ bind (read_marks b (num_to_send remaining_sends) ranks_sent) λ ranks.
          bind
            (send_revokes group_size num b fuel (ranks_sent + num_to_send remaining_sends)
              (remaining_sends - num_to_send remaining_sends))
            λ msgs. some (
              record {
                gp_seq_num = num;
                group_size = group_size;
                rank_start = ranks_sent;
                ranks = ranks;
              }
              ∷ msgs)
    ]

-- send_local_revoke_rank_group_cache
abbrev pub send_local_revokes : ℕ → ℕ → Bitset → Option (List SpMsg)
send_local_revokes group_size num b =
    assert (ltb 0 group_size) (send_revokes group_size num b group_size 0 group_size)
