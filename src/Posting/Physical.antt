-- ===== src/Posting/Physical.antt =====
-- What each operation of operations_kernel.rs asks the NIC to do.
use krcore_artifacts.Prelude.{ℕ, ◌≡◌, Bool, List, [], ◌∷◌, add64, u32, if◌then◌else◌}
use krcore_artifacts.Bringup.Device.{QpType, rc, ud, dc}
use krcore_artifacts.Bringup.Prepared.{is_type}
use krcore_artifacts.Doorbell.{Opcode, rdma_write, rdma_read, send, Target}
use krcore_artifacts.Doorbell.Operations.{MemoryRegion, Range, range_size, PostSendOp}
use krcore_artifacts.Doorbell.Chain.{Entry}
use krcore_artifacts.Doorbell.Script.{ReadsChain, answered}
use krcore_artifacts.Posting.{Posted, qp_type_error, posted, DatagramEndpoint}
use krcore_artifacts.Posting.Direct.{local-answered}
use krcore_artifacts.Posting.Kernel.{
  DcEndpoint, post_send_inner_kernel, post_send_dc_inner, post_send_send_kernel,
  post_send_read_kernel, post_send_write_kernel, post_send_dc_read, post_send_dc_write,
  post_datagram_kernel,
}

-- A call of one of the operations.
pub data Call : Type 0 where
  rc_send rc_read rc_write :
      MemoryRegion → Range → (signaled : Bool) → (raddr rkey wr_id : ℕ) → Call
  dc_read dc_write : DcEndpoint → MemoryRegion → Range → (signaled : Bool) → (raddr rkey : ℕ) → Call
  datagram : DatagramEndpoint → MemoryRegion → Range → (wr_id : ℕ) → (signaled : Bool) → Call

abbrev pub call_kernel : PostSendOp → (ℕ → ℕ) → QpType → Call → Posted
call_kernel op phys mode (rc_send mr range signaled raddr rkey wr_id) =
    post_send_send_kernel op phys mode mr range signaled raddr rkey wr_id
call_kernel op phys mode (rc_read mr range signaled raddr rkey wr_id) =
    post_send_read_kernel op phys mode mr range signaled raddr rkey wr_id
call_kernel op phys mode (rc_write mr range signaled raddr rkey wr_id) =
    post_send_write_kernel op phys mode mr range signaled raddr rkey wr_id
call_kernel op phys mode (dc_read endpoint mr range signaled raddr rkey) =
    post_send_dc_read op phys mode endpoint mr range signaled raddr rkey
call_kernel op phys mode (dc_write endpoint mr range signaled raddr rkey) =
    post_send_dc_write op phys mode endpoint mr range signaled raddr rkey
call_kernel op phys mode (datagram endpoint mr range wr_id signaled) =
    post_datagram_kernel op phys mode endpoint mr range wr_id signaled

-- The type of queue pair that an operation is for.
abbrev pub type_for : Call → QpType
type_for (datagram _ _ _ _ _) = ud
type_for (dc_read _ _ _ _ _ _) = dc
type_for (dc_write _ _ _ _ _ _) = dc
type_for _ = rc

-- The part of the memory region, by its physical address.
abbrev part : (ℕ → ℕ) → ℕ → Opcode → Bool → Target → MemoryRegion → Range → Entry
part phys wr_id opcode signaled target mr range = record {
  wr_id = wr_id;
  opcode = opcode;
  signaled = signaled;
  wr = target;
  sges =
      record {
        addr = add64 (phys mr.data_addr) range.start;
        length = u32 (range_size range);
        lkey = mr.lkey;
      }
      ∷ [];
}

abbrev dc_target : DcEndpoint → ℕ → ℕ → Target
dc_target endpoint raddr rkey =
    Target.dc raddr rkey endpoint.address_handler endpoint.dc_key endpoint.dct_num

abbrev pub asks : (ℕ → ℕ) → Call → Entry
asks phys (rc_send mr range signaled raddr rkey wr_id) =
    part phys wr_id send signaled (Target.rdma raddr rkey) mr range
asks phys (rc_read mr range signaled raddr rkey wr_id) =
    part phys wr_id rdma_read signaled (Target.rdma raddr rkey) mr range
asks phys (rc_write mr range signaled raddr rkey wr_id) =
    part phys wr_id rdma_write signaled (Target.rdma raddr rkey) mr range
asks phys (dc_read endpoint mr range signaled raddr rkey) =
    part phys 0 rdma_read signaled (dc_target endpoint raddr rkey) mr range
asks phys (dc_write endpoint mr range signaled raddr rkey) =
    part phys 0 rdma_write signaled (dc_target endpoint raddr rkey) mr range
asks phys (datagram endpoint mr range wr_id signaled) =
    part phys wr_id send signaled (Target.ud endpoint.qpn endpoint.qkey endpoint.address_handler) mr
      range

-- If the NIC's answer depends only on the requests that it reaches, then each operation of the kernel
-- hands a queue pair of its type one request, for the given part of the memory region at its physical
-- address and for the given target, and answers as the NIC does; and on a queue pair of another type it
-- hands over nothing and answers the type error.
pub call_kernel-answered :
    (op : PostSendOp) (answer : List Entry → ℕ)
    → ReadsChain op answer
    → (phys : ℕ → ℕ) (mode : QpType) (c : Call)
    → call_kernel op phys mode c ≡ (
        if is_type mode (type_for c)
        then posted (answered answer (asks phys c ∷ []))
        else qp_type_error)
unfolding post_send_send_kernel post_send_read_kernel post_send_write_kernel post_send_dc_read
    post_send_dc_write post_datagram_kernel post_send_inner_kernel post_send_dc_inner
call_kernel-answered op answer nic phys mode (rc_send mr range signaled raddr rkey wr_id) =
    rw (local-answered op answer nic wr_id send signaled _ _)
call_kernel-answered op answer nic phys mode (rc_read mr range signaled raddr rkey wr_id) =
    rw (local-answered op answer nic wr_id rdma_read signaled _ _)
call_kernel-answered op answer nic phys mode (rc_write mr range signaled raddr rkey wr_id) =
    rw (local-answered op answer nic wr_id rdma_write signaled _ _)
call_kernel-answered op answer nic phys mode (dc_read endpoint mr range signaled raddr rkey) =
    rw (local-answered op answer nic 0 rdma_read signaled _ _)
call_kernel-answered op answer nic phys mode (dc_write endpoint mr range signaled raddr rkey) =
    rw (local-answered op answer nic 0 rdma_write signaled _ _)
call_kernel-answered op answer nic phys mode (datagram endpoint mr range wr_id signaled) =
    rw (local-answered op answer nic wr_id send signaled _ _)
