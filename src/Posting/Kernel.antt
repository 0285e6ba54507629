-- ===== src/Posting/Kernel.antt =====
-- Posting in the kernel: the operations of KRdmaKit/src/queue_pairs/operations_kernel.rs. `ib_rdma_wr`,
-- `ib_ud_wr` and `ib_dc_wr` are a request with its target; the request and its scatter entry are locals of
-- the call, as in user space.
use krcore_artifacts.Prelude.{ℕ, Bool, some, [], ◌∷◌, add64, u32, if◌then◌else◌}
use krcore_artifacts.Bringup.Device.{QpType, rc, ud, dc}
use krcore_artifacts.Bringup.Prepared.{is_type}
use krcore_artifacts.Doorbell.{Opcode, rdma_write, rdma_read, send, rdma}
use krcore_artifacts.Doorbell
use krcore_artifacts.Doorbell.Operations.{
  MemoryRegion, Range, range_size, PostSendOp, PostResult, post_send_wr,
}
use krcore_artifacts.Posting.{Posted, qp_type_error, posted, local_wr, DatagramEndpoint}

-- `DatagramEndpoint` with the feature dct, as far as posting to a DC target reads it.
pub record DcEndpoint : Type 0 where
  pub address_handler : ℕ
  pub dc_key : ℕ
  pub dct_num : ℕ

module _ (op : PostSendOp) where
  unfoldable pub post_send_inner_kernel : Opcode → ℕ → ℕ → ℕ → ℕ → ℕ → Bool → ℕ → PostResult
  post_send_inner_kernel opcode laddr raddr lkey rkey size signaled wr_id =
      post_send_wr op (local_wr wr_id opcode signaled (rdma raddr rkey) ∷ [])
        (record { addr = laddr; length = size; lkey = lkey } ∷ []) (some 0)

  -- No `wr_id` is set.
  unfoldable pub post_send_dc_inner : Opcode → DcEndpoint → ℕ → ℕ → ℕ → ℕ → ℕ → Bool → PostResult
  post_send_dc_inner opcode endpoint laddr raddr lkey rkey size signaled =
      post_send_wr op
        (local_wr 0 opcode signaled
            (Doorbell.dc raddr rkey endpoint.address_handler endpoint.dc_key endpoint.dct_num)
          ∷ [])
        (record { addr = laddr; length = size; lkey = lkey } ∷ []) (some 0)

  -- `get_rdma_addr` in the kernel is the physical address of the memory: `virt_to_phys` is the kernel's.
  module _ (virt_to_phys : ℕ → ℕ) (mode : QpType) where
    abbrev pub get_rdma_addr : MemoryRegion → ℕ
    get_rdma_addr mr = virt_to_phys mr.data_addr

    unfoldable pub post_send_send_kernel : MemoryRegion → Range → Bool → ℕ → ℕ → ℕ → Posted
    post_send_send_kernel mr range signaled raddr rkey wr_id =
        if is_type mode rc
        then posted (
            post_send_inner_kernel send (add64 (get_rdma_addr mr) range.start) raddr mr.lkey rkey
              (u32 (range_size range)) signaled wr_id)
        else qp_type_error

    unfoldable pub post_send_read_kernel : MemoryRegion → Range → Bool → ℕ → ℕ → ℕ → Posted
    post_send_read_kernel mr range signaled raddr rkey wr_id =
        if is_type mode rc
        then posted (
            post_send_inner_kernel rdma_read (add64 (get_rdma_addr mr) range.start) raddr mr.lkey
              rkey (u32 (range_size range)) signaled wr_id)
        else qp_type_error

    unfoldable pub post_send_write_kernel : MemoryRegion → Range → Bool → ℕ → ℕ → ℕ → Posted
    post_send_write_kernel mr range signaled raddr rkey wr_id =
        if is_type mode rc
        then posted (
            post_send_inner_kernel rdma_write (add64 (get_rdma_addr mr) range.start) raddr mr.lkey
              rkey (u32 (range_size range)) signaled wr_id)
        else qp_type_error

    unfoldable pub post_send_dc_read : DcEndpoint → MemoryRegion → Range → Bool → ℕ → ℕ → Posted
    post_send_dc_read endpoint mr range signaled raddr rkey =
        if is_type mode dc
        then posted (
            post_send_dc_inner rdma_read endpoint (add64 (get_rdma_addr mr) range.start) raddr
              mr.lkey rkey (u32 (range_size range)) signaled)
        else qp_type_error

    unfoldable pub post_send_dc_write : DcEndpoint → MemoryRegion → Range → Bool → ℕ → ℕ → Posted
    post_send_dc_write endpoint mr range signaled raddr rkey =
        if is_type mode dc
        then posted (
            post_send_dc_inner rdma_write endpoint (add64 (get_rdma_addr mr) range.start) raddr
              mr.lkey rkey (u32 (range_size range)) signaled)
        else qp_type_error

    unfoldable pub post_datagram_kernel :
        DatagramEndpoint → MemoryRegion → Range → ℕ → Bool → Posted
    post_datagram_kernel endpoint mr range wr_id signaled =
        if is_type mode ud
        then posted (
            post_send_wr op
              (local_wr wr_id send signaled
                  (Doorbell.ud endpoint.qpn endpoint.qkey endpoint.address_handler)
                ∷ [])
              (record {
                addr = add64 (get_rdma_addr mr) range.start;
                length = u32 (range_size range);
                lkey = mr.lkey;
              }
                ∷ [])
              (some 0))
        else qp_type_error
