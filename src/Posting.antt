-- ===== src/Posting.antt =====
-- Posting one request without a doorbell: KRdmaKit/src/queue_pairs/operations_user.rs, and `post_recv`
-- of mod.rs. The request and its scatter entry are two locals of the call, here arrays of one element,
-- and the pointer to the request is 0.
pub mod Direct
pub mod Kernel
pub mod Physical
mod Tests
use krcore_artifacts.Prelude.{
  ℕ, Bool, Option, none, some, List, [], ◌∷◌, add64, u32, ◌==◌, if◌then◌else◌,
}
use krcore_artifacts.Doorbell.{
  Sge, SendWr, Opcode, rdma_write, rdma_read, atomic_cmp_and_swp, atomic_fetch_and_add, send,
  send_with_imm, Target, rdma, atomic, ud, zeroed_wr,
}
use krcore_artifacts.Doorbell.Operations.{
  MemoryRegion, Range, range_size, PostSendOp, PostResult, post_send_wr,
}
use krcore_artifacts.Bringup.Device.{QpType, rc}
use krcore_artifacts.Bringup.Prepared.{is_type}
use krcore_artifacts.Receive.{RecvWr, PostRecvOp, KernelResult}
use krcore_artifacts.Receive as Receive

-- `Result<(), DatapathError>`
pub data Posted : Type 0 where
  qp_type_error : Posted
  posted : PostResult → Posted

-- The local request of a call, filled in.
abbrev pub local_wr : ℕ → Opcode → Bool → Target → SendWr
local_wr wr_id opcode signaled target = record zeroed_wr {
  wr_id = wr_id;
  opcode = opcode;
  signaled = signaled;
  num_sge = 1;
  sg_list = some 0;
  wr = target;
}

module _ (op : PostSendOp) where
  unfoldable pub post_send_inner : Opcode → ℕ → ℕ → ℕ → ℕ → ℕ → Bool → ℕ → PostResult
  post_send_inner opcode laddr raddr lkey rkey size signaled wr_id =
      post_send_wr op (local_wr wr_id opcode signaled (rdma raddr rkey) ∷ [])
        (record { addr = laddr; length = size; lkey = lkey } ∷ []) (some 0)

  unfoldable pub post_send_atomic_inner : Opcode → ℕ → ℕ → ℕ → ℕ → Bool → ℕ → ℕ → ℕ → PostResult
  post_send_atomic_inner opcode laddr raddr lkey rkey signaled wr_id compare_add swap =
      post_send_wr op (local_wr wr_id opcode signaled (atomic raddr compare_add swap rkey) ∷ [])
        (record { addr = laddr; length = 8; lkey = lkey } ∷ []) (some 0)

  module _ (mode : QpType) where
    unfoldable pub post_send_read : MemoryRegion → Range → Bool → ℕ → ℕ → ℕ → Posted
    post_send_read mr range signaled raddr rkey wr_id =
        if is_type mode rc
        then posted (
            post_send_inner rdma_read (add64 mr.data_addr range.start) raddr mr.lkey rkey
              (u32 (range_size range)) signaled wr_id)
        else qp_type_error

    unfoldable pub post_send_write : MemoryRegion → Range → Bool → ℕ → ℕ → ℕ → Posted
    post_send_write mr range signaled raddr rkey wr_id =
        if is_type mode rc
        then posted (
            post_send_inner rdma_write (add64 mr.data_addr range.start) raddr mr.lkey rkey
              (u32 (range_size range)) signaled wr_id)
        else qp_type_error

    unfoldable pub post_send_cas : MemoryRegion → ℕ → Bool → ℕ → ℕ → ℕ → ℕ → ℕ → Posted
    post_send_cas mr offset signaled raddr rkey wr_id old new =
        if is_type mode rc
        then posted (
            post_send_atomic_inner atomic_cmp_and_swp (add64 mr.data_addr offset) raddr mr.lkey rkey
              signaled wr_id old new)
        else qp_type_error

    unfoldable pub post_send_faa : MemoryRegion → ℕ → Bool → ℕ → ℕ → ℕ → ℕ → Posted
    post_send_faa mr offset signaled raddr rkey wr_id val =
        if is_type mode rc
        then posted (
            post_send_atomic_inner atomic_fetch_and_add (add64 mr.data_addr offset) raddr mr.lkey
              rkey signaled wr_id val 0)
        else qp_type_error

-- `DatagramEndpoint`. An address handle is a number.
pub record DatagramEndpoint : Type 0 where
  pub qpn : ℕ
  pub qkey : ℕ
  pub address_handler : ℕ
  pub lid : ℕ
  pub gid : ℕ

abbrev pub send_opcode : Option ℕ → Opcode
send_opcode none = send
send_opcode (some imm) = send_with_imm imm

module _ (op : PostSendOp) (mode : QpType) where
  -- The flags are those that the two callers give, IBV_SEND_SIGNALED or 0.
  unfoldable pub post_datagram_w_flags :
      DatagramEndpoint → MemoryRegion → Range → ℕ → Option ℕ → Bool → Posted
  post_datagram_w_flags endpoint mr range wr_id imm_data signaled =
      if is_type mode QpType.ud
      then posted (
          post_send_wr op
            (local_wr wr_id (send_opcode imm_data) signaled
                (ud endpoint.qpn endpoint.qkey endpoint.address_handler)
              ∷ [])
            (record {
              addr = add64 mr.data_addr range.start;
              length = u32 (range_size range);
              lkey = mr.lkey;
            }
              ∷ [])
            (some 0))
      else qp_type_error

  unfoldable pub post_datagram : DatagramEndpoint → MemoryRegion → Range → ℕ → Bool → Posted
  post_datagram endpoint mr range wr_id signaled =
      post_datagram_w_flags endpoint mr range wr_id none signaled

  unfoldable pub post_datagram_w_imm :
      DatagramEndpoint → MemoryRegion → Range → ℕ → ℕ → Bool → Posted
  post_datagram_w_imm endpoint mr range wr_id imm_data signaled =
      post_datagram_w_flags endpoint mr range wr_id (some imm_data) signaled

-- `post_recv`: 0 is success, and else the error.
unfoldable pub post_recv : PostRecvOp → MemoryRegion → Range → ℕ → KernelResult
post_recv op mr range wr_id =
    let wr : RecvWr = record { wr_id = wr_id; next = none; sg_list = some 0; num_sge = 1 } in
    let sge : Receive.Sge = record {
      addr = add64 mr.data_addr range.start;
      length = u32 (range_size range);
      lkey = mr.lkey;
    } in
    let err = op (wr ∷ []) (sge ∷ []) 0 in if err == 0 then Receive.ok else Receive.err err
