-- ===== src/Doorbell/Operations.antt =====
-- The operations of `RcDoorbellHelper` of doorbell_helper.rs, and `post_send_wr` of
-- operations_user.rs.
use krcore_artifacts.Prelude.{
  ℕ, ◌-◌, Bool, Option, List, Outcome, done, ◌>>=◌, ◌==◌, if◌then◌else◌, add64, u32,
}
use krcore_artifacts.Doorbell.{
  Sge, Opcode, Target, SendWr, next, DoorbellHelper, pointer_to, update_cur_wr, update_cur_sge,
  freeze, clear, rdma_write, rdma_read, atomic_cmp_and_swp, atomic_fetch_and_add, rdma, atomic,
}

-- The user-space `MemoryRegion`, as far as posting reads it: `get_rdma_addr` is `data`.
pub record MemoryRegion : Type 0 where
  pub data_addr : ℕ
  pub capacity : ℕ
  pub lkey : ℕ
  pub rkey : ℕ

-- `Range<u64>`; its `size` is 0 if it ends before it starts.
pub record Range : Type 0 where
  pub start : ℕ
  pub end : ℕ

abbrev pub range_size : Range → ℕ
range_size r = r.end - r.start

-- The common body of the four operations: take the next entry or return, then fill it in. The
-- result is `(cur_idx + 1) as usize`.
unfoldable pub post_entry :
    DoorbellHelper → Sge → ℕ → Opcode → Bool → Target → Outcome (ℕ × DoorbellHelper)
unfolding next update_cur_sge update_cur_wr
post_entry d sge wr_id opcode signaled target =
    let (ok, d1) = next d in
    if ok
    then (do
      d2 ← update_cur_sge d1 (λ _. sge)
      d3 ←
          update_cur_wr d2
            (λ w. record w { wr_id = wr_id; opcode = opcode; signaled = signaled; wr = target })
      done (add64 d3.cur_idx 1, d3))
    else done (add64 d1.cur_idx 1, d1)

unfoldable pub post_send_write :
    DoorbellHelper → MemoryRegion → Range → Bool → ℕ → ℕ → ℕ → Outcome (ℕ × DoorbellHelper)
unfolding post_entry
post_send_write d mr range signaled raddr rkey wr_id =
    post_entry d
      (record {
        addr = add64 mr.data_addr range.start;
        length = u32 (range_size range);
        lkey = mr.lkey;
      })
      wr_id rdma_write signaled (rdma raddr rkey)

unfoldable pub post_send_read :
    DoorbellHelper → MemoryRegion → Range → Bool → ℕ → ℕ → ℕ → Outcome (ℕ × DoorbellHelper)
unfolding post_entry
post_send_read d mr range signaled raddr rkey wr_id =
    post_entry d
      (record {
        addr = add64 mr.data_addr range.start;
        length = u32 (range_size range);
        lkey = mr.lkey;
      })
      wr_id rdma_read signaled (rdma raddr rkey)

unfoldable pub post_send_cas :
    DoorbellHelper → MemoryRegion → ℕ → Bool → ℕ → ℕ → ℕ → ℕ → ℕ → Outcome (ℕ × DoorbellHelper)
unfolding post_entry
post_send_cas d mr offset signaled raddr rkey wr_id old new =
    post_entry d (record { addr = add64 mr.data_addr offset; length = 8; lkey = mr.lkey }) wr_id
      atomic_cmp_and_swp signaled (atomic raddr old new rkey)

unfoldable pub post_send_faa :
    DoorbellHelper → MemoryRegion → ℕ → Bool → ℕ → ℕ → ℕ → ℕ → Outcome (ℕ × DoorbellHelper)
unfolding post_entry
post_send_faa d mr offset signaled raddr rkey wr_id val =
    post_entry d (record { addr = add64 mr.data_addr offset; length = 8; lkey = mr.lkey }) wr_id
      atomic_fetch_and_add signaled (atomic raddr val 0 rkey)

-- The NIC library's `post_send_op` is a parameter: what it answers to the memory and the pointer to
-- the first work request. 0 is success.
abbrev pub PostSendOp : Type 0
PostSendOp = List SendWr → List Sge → Option ℕ → ℕ

-- `QueuePair::post_send_wr`
pub data PostResult : Type 0 where
  ok : PostResult
  post_send_error : ℕ → PostResult

unfoldable pub post_send_wr : PostSendOp → List SendWr → List Sge → Option ℕ → PostResult
post_send_wr op wrs sges wr =
    let err = op wrs sges wr in if err == 0 then ok else post_send_error err

unfoldable pub flush_doorbell : PostSendOp → DoorbellHelper → Outcome (PostResult × DoorbellHelper)
flush_doorbell op d = do
  f ← freeze d
  first ← pointer_to f.wr_list 0
  let res = post_send_wr op f.wr_list f.sg_list first
  d' ← clear f
  done (res, d')
