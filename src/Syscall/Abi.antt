-- ===== src/Syscall/Abi.antt =====
-- The system call interface: include/common.h, and `op_code_table` of KRdmaKit-syscall/src/lib.rs.
use krcore_artifacts.Prelude.{ℕ, Bool, Outcome, done, panic, ◌==◌, if◌then◌else◌}

-- `reply_status`
pub data Status : Type 0 where
  err ok timeout already_connected already_bind addr_error nil not_connected not_bind : Status

abbrev pub status_code : Status → ℕ
status_code err = 0
status_code ok = 1
status_code timeout = 2
status_code already_connected = 3
status_code already_bind = 4
status_code addr_error = 5
status_code nil = 6
status_code not_connected = 7
status_code not_bind = 8

-- `reply_status::err == ret`
abbrev pub is_err : Status → Bool
is_err s = status_code s == status_code err

abbrev pub is_ok : Status → Bool
is_ok s = status_code s == status_code ok

-- `core_req_t`
pub record CoreReq : Type 0 where
  pub addr : ℕ
  pub length : ℕ
  pub remote_addr : ℕ
  pub send_flags : ℕ
  pub vid : ℕ
  pub type_ : ℕ

-- The values of `ib_wr_opcode` that `op_code_table` maps to.
pub data WrOpcode : Type 0 where
  rdma_read rdma_write send send_with_imm rdma_write_with_imm : WrOpcode

-- `lib_r_req` numbers the request types from 0; any other is `unimplemented!()`.
unfoldable pub op_code_table : ℕ → Outcome WrOpcode
op_code_table op =
    if op == 0
    then done rdma_read
    else if op == 1
    then done rdma_write
    else if op == 2
    then done send
    else if op == 3
    then done send_with_imm
    else if op == 4
    then done rdma_write_with_imm
    else panic

-- `MAX_SERVICE_NUM` of client.rs and `wc_consts::pop_wc_len`.
abbrev pub max_service_num : ℕ
max_service_num = 25

abbrev pub pop_wc_len : ℕ
pop_wc_len = 2048
