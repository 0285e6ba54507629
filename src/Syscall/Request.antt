-- ===== src/Syscall/Request.antt =====
-- One push of a send: the body that the loops of `rc_push_impl` and `dc_push_impl` of
-- KRdmaKit-syscall/src/virtual_queue.rs share.
use krcore_artifacts.Prelude.{
  ℕ, Bool, true, false, not, ◌&&◌, Outcome, done, ◌>>=◌, ltb, ◌==◌, if◌then◌else◌, add64, u32,
}
use krcore_artifacts.Syscall.Abi.{CoreReq, WrOpcode, rdma_write, rdma_write_with_imm, op_code_table}
use krcore_artifacts.Syscall.Kernel.{Kernel, TempMr, Push}

-- The opcodes of which a short payload is sent inline.
abbrev pub inlines : WrOpcode → Bool
inlines rdma_write = true
inlines rdma_write_with_imm = true
inlines _ = false

-- The arguments of one push, up to the inline check and the flags, which the two loops share.
-- Additions of addresses wrap around, as in a release build.
pub build_push : Kernel → TempMr → TempMr → ℕ → CoreReq → Outcome Push
build_push k local_mr remote_mr imm req = do
  op ← op_code_table req.type_
  let laddr = add64 local_mr.addr req.addr
  let inline = ltb req.length 64 && inlines op
  done (record {
    opcode = op;
    laddr = if inline then k.pa_to_va laddr else laddr;
    lkey = local_mr.key;
    length = req.length;
    raddr = add64 req.remote_addr remote_mr.addr;
    rkey = u32 remote_mr.key;
    imm = imm;
    inline = inline;
    signaled = not (req.send_flags == 0);
  })
