-- ===== src/Posting/Tests.antt =====
-- Requests posted directly on a small NIC that accepts them, and the theorems applied there.
use krcore_artifacts.Prelude.{
  zero, suc, ◌+◌, ◌^◌, ◌≡◌, refl, true, false, some, [], ◌∷◌, done, ◌>>=◌, arith, minus_one,
}
use krcore_artifacts.Bringup.Device.{rc, ud, dc}
use krcore_artifacts.Doorbell.{SendWr, DoorbellHelper, zeroed_sge, zeroed, rdma}
use krcore_artifacts.Doorbell.Operations.{
  MemoryRegion, PostSendOp, ok, post_send_wr, flush_doorbell,
}
use krcore_artifacts.Doorbell.Ring.{IsValid, AreWired}
use krcore_artifacts.Doorbell.Post.{Request, write, post}
use krcore_artifacts.Posting.{
  posted, qp_type_error, DatagramEndpoint, post_send_write, post_send_inner,
}
use krcore_artifacts.Posting.Direct.{direct, direct-doorbell}
use krcore_artifacts.Posting.Physical.{Call, dc_read, call_kernel, asks, call_kernel-answered}
use krcore_artifacts.Doorbell.Script.{answered}

abbrev region : MemoryRegion
region = record { data_addr = 4096; capacity = 64; lkey = 7; rkey = 8 }

abbrev request : Request
request = write region (record { start = 8; end = 24 }) true 100 9 5

abbrev accept : PostSendOp
accept _ _ _ = 0

-- A doorbell of one request, which is linked to itself.
abbrev alone : SendWr
alone = record {
  wr_id = 0;
  next = some 0;
  sg_list = some 0;
  num_sge = 1;
  opcode = zeroed;
  signaled = false;
  wr = rdma 0 0;
}

abbrev bell : DoorbellHelper
bell = record { wr_list = alone ∷ []; sg_list = zeroed_sge ∷ []; capacity = 1; cur_idx = minus_one }

abbrev wired : AreWired 1 1 bell.wr_list
wired zero h = (alone, refl, (refl, refl, refl))
wired (suc i) h = absurd (omega arith)

bell-IsValid : IsValid bell
bell-IsValid = record {
  room = record {
    wr_room = refl;
    sg_room = refl;
    small = omega arith;
    bounded = omega arith;
    word_idx = omega arith;
  };
  wired = wired;
}

direct-doorbell_example :
    (post bell request >>= λ (n, d1). flush_doorbell accept d1 >>= λ (res, d2). done (posted res))
    ≡ done (direct accept rc request)
direct-doorbell_example =
    direct-doorbell accept (λ _. 0) (λ _ _ _ _ _. refl) bell request bell-IsValid refl (omega arith)

accepted : direct accept rc request ≡ posted ok
unfolding direct post_send_write post_send_inner post_send_wr
accepted = refl

refused : direct accept ud request ≡ qp_type_error
unfolding direct post_send_write
refused = refl

abbrev endpoint : DatagramEndpoint
endpoint = record { qpn = 12; qkey = 73; address_handler = 640; lid = 3; gid = 9 }

-- A read through a DC queue pair, where the memory stands 2^20 above its virtual address.
abbrev far_read : Call
far_read =
    dc_read (record { address_handler = 640; dc_key = 3; dct_num = 21 }) region
      (record { start = 8; end = 24 }) true 100 9

call_kernel-answered_example :
    call_kernel accept (λ va. va + 2 ^ 20) dc far_read
    ≡ posted (answered (λ _. 0) (asks (λ va. va + 2 ^ 20) far_read ∷ []))
call_kernel-answered_example =
    call_kernel-answered accept (λ _. 0) (λ _ _ _ _ _. refl) (λ va. va + 2 ^ 20) dc far_read
