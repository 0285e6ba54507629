-- ===== src/Posting/Direct.antt =====
-- A request that operations_user.rs posts directly is what a doorbell of doorbell_helper.rs hands over
-- for it.
use krcore_artifacts.Prelude.{
  ℕ, ◌<◌, ◌≡◌, refl, sym, ◌∙◌, ap, Bool, some, List, [], ◌∷◌, done, ◌>>=◌, arith, length,
  if◌then◌else◌, ◌==◌, Option, none, add64, u32,
}
use krcore_artifacts.Bringup.Device.{QpType, rc}
use krcore_artifacts.Bringup.Prepared.{is_type}
use krcore_artifacts.Doorbell.{Sge, DoorbellHelper, size, Opcode, Target}
use krcore_artifacts.Doorbell.Operations.{
  MemoryRegion, Range, range_size, PostSendOp, PostResult, post_send_wr, flush_doorbell,
}
use krcore_artifacts.Doorbell.Chain.{Entry, chain}
use krcore_artifacts.Doorbell.Ring.{IsValid}
use krcore_artifacts.Doorbell.Batch.{batch, length-batch, push}
use krcore_artifacts.Doorbell.Post.{Request, write, read, cas, faa, post, entry, post-Posts}
use krcore_artifacts.Doorbell.Flush.{flush_doorbell-Flushes}
use krcore_artifacts.Doorbell.Script.{ReadsChain, answered}
use krcore_artifacts.Posting.{
  Posted, posted, qp_type_error, local_wr, post_send_inner, post_send_atomic_inner, post_send_read,
  post_send_write, post_send_cas, post_send_faa, DatagramEndpoint, send_opcode,
  post_datagram_w_flags, post_datagram, post_datagram_w_imm,
}

-- The operation of queue pairs that each request of a doorbell corresponds to.
unfoldable pub direct : PostSendOp → QpType → Request → Posted
direct op mode (write mr range signaled raddr rkey wr_id) =
    post_send_write op mode mr range signaled raddr rkey wr_id
direct op mode (read mr range signaled raddr rkey wr_id) =
    post_send_read op mode mr range signaled raddr rkey wr_id
direct op mode (cas mr offset signaled raddr rkey wr_id old new) =
    post_send_cas op mode mr offset signaled raddr rkey wr_id old new
direct op mode (faa mr offset signaled raddr rkey wr_id val) =
    post_send_faa op mode mr offset signaled raddr rkey wr_id val

-- What a datagram asks the NIC to do.
abbrev pub datagram : DatagramEndpoint → MemoryRegion → Range → ℕ → Option ℕ → Bool → Entry
datagram endpoint mr range wr_id imm signaled = record {
  wr_id = wr_id;
  opcode = send_opcode imm;
  signaled = signaled;
  wr = Target.ud endpoint.qpn endpoint.qkey endpoint.address_handler;
  sges =
      record {
        addr = add64 mr.data_addr range.start;
        length = u32 (range_size range);
        lkey = mr.lkey;
      }
      ∷ [];
}

-- The two ways to post a datagram, with immediate data or without.
abbrev pub datagram_post :
    PostSendOp → QpType → DatagramEndpoint → MemoryRegion → Range → ℕ → Option ℕ → Bool → Posted
datagram_post op mode endpoint mr range wr_id none signaled =
    post_datagram op mode endpoint mr range wr_id signaled
datagram_post op mode endpoint mr range wr_id (some imm) signaled =
    post_datagram_w_imm op mode endpoint mr range wr_id imm signaled

module _ (op : PostSendOp) (answer : List Entry → ℕ) (nic : ReadsChain op answer) where
  -- One request, with one scatter entry, in the locals of a call.
  pub local-answered :
      (wr_id : ℕ) (opcode : Opcode) (signaled : Bool) (target : Target) (sge : Sge)
      → post_send_wr op (local_wr wr_id opcode signaled target ∷ []) (sge ∷ []) (some 0)
        ≡ answered answer (
            record {
              wr_id = wr_id;
              opcode = opcode;
              signaled = signaled;
              wr = target;
              sges = sge ∷ [];
            }
            ∷ [])
  unfolding post_send_wr chain
  local-answered wr_id opcode signaled target sge =
      ap (λ err. if err == 0 then PostResult.ok else PostResult.post_send_error err)
        (nic (local_wr wr_id opcode signaled target ∷ []) (sge ∷ []) (some 0) _ refl)

  direct-entry :
      (mode : QpType) (r : Request)
      → direct op mode r
        ≡ (if is_type mode rc then posted (answered answer (entry r ∷ [])) else qp_type_error)
  unfolding direct post_send_write post_send_read post_send_cas post_send_faa post_send_inner
      post_send_atomic_inner
  direct-entry mode (write mr range signaled raddr rkey wr_id) =
      rw (local-answered wr_id Opcode.rdma_write signaled _ _)
  direct-entry mode (read mr range signaled raddr rkey wr_id) =
      rw (local-answered wr_id Opcode.rdma_read signaled _ _)
  direct-entry mode (cas mr offset signaled raddr rkey wr_id old new) =
      rw (local-answered wr_id Opcode.atomic_cmp_and_swp signaled _ _)
  direct-entry mode (faa mr offset signaled raddr rkey wr_id val) =
      rw (local-answered wr_id Opcode.atomic_fetch_and_add signaled _ _)

  empty-batch : (b : List Entry) → length b ≡ 0 → b ≡ []
  empty-batch [] h = refl
  empty-batch (e ∷ b) h = absurd (omega (arith, h))

  -- If the NIC's answer depends only on the requests that it reaches, then posting a request directly
  -- on an RC queue pair does what posting it to an empty doorbell and flushing that does: the same
  -- request reaches the NIC, alone, and the answer is the same.
  pub direct-doorbell :
      (d : DoorbellHelper) (r : Request)
      → IsValid d
      → size d ≡ 0
      → 0 < d.capacity
      → (post d r >>= λ (n, d1). flush_doorbell op d1 >>= λ (res, d2). done (posted res))
        ≡ done (direct op rc r)
  direct-doorbell d r v none_posted room =
      let p = post-Posts d r v in
      let clear = empty-batch (batch d) (length-batch d v ∙ none_posted) in
      let one : batch p.after ≡ entry r ∷ [] =
        p.pushed ∙ ap (λ b. push d.capacity b (entry r)) clear ∙ push-one (entry r) in
      let some_posted = sym (length-batch p.after p.valid) ∙ ap (λ b. length b) one in
      let f =
        flush_doorbell-Flushes op p.after p.valid (λ z. absurd (omega (arith, z, some_posted))) in
      let same =
        ap (λ err. if err == 0 then PostResult.ok else PostResult.post_send_error err)
          (nic f.handed p.after.sg_list (some 0) (entry r ∷ []) (f.reads ∙ ap some one)) in
      rw (p.returns, f.returns, direct-entry rc r)
        (ap (λ res. done (posted res)) (unfold post_send_wr in same))
    where
      push-one : (e : Entry) → push d.capacity [] e ≡ e ∷ []
      push-one e = ground (arith, room)

  -- If the NIC's answer depends only on the requests that it reaches, then posting a datagram, with
  -- immediate data or without, hands a UD queue pair one send request to the endpoint, of the given
  -- part of the memory region, and on a queue pair of another type it hands over nothing.
  pub datagram_post-answered :
      (mode : QpType) (endpoint : DatagramEndpoint) (mr : MemoryRegion) (range : Range) (wr_id : ℕ)
      (imm : Option ℕ) (signaled : Bool)
      → datagram_post op mode endpoint mr range wr_id imm signaled ≡ (
          if is_type mode QpType.ud
          then posted (answered answer (datagram endpoint mr range wr_id imm signaled ∷ []))
          else qp_type_error)
  unfolding post_datagram post_datagram_w_imm post_datagram_w_flags
  datagram_post-answered mode endpoint mr range wr_id none signaled =
      rw (local-answered wr_id Opcode.send signaled _ _)
  datagram_post-answered mode endpoint mr range wr_id (some imm) signaled =
      rw (local-answered wr_id (Opcode.send_with_imm imm) signaled _ _)
