-- ===== src/Syscall/Kernel.antt =====
-- What KRdmaKit-syscall calls and does not implement: the kernel's KRdmaKit crate (queue pairs,
-- controllers, connection management), which its Cargo.toml takes from rust-kernel-rdma/KRdmaKit.
-- Every call runs on a world `World` of the driver's choice. A Boolean answer is `is_ok()`.
use krcore_artifacts.Prelude.{ℕ, ◌%◌, ◌*◌, Bool, Option, List}
use krcore_artifacts.Prelude.Effects.{Eff}
use krcore_artifacts.Syscall.Abi.{WrOpcode, Status}

-- `TempMR`: what `TempMR::new` is given, and `get_addr` and `get_rkey` return.
pub record TempMr : Type 0 where
  pub addr : ℕ
  pub capacity : ℕ
  pub key : ℕ

-- The arguments of `RCOp::push_with_imm`, `DCOp::push` and `UDOp::push`. The flag word of a request
-- is given by the two flags in it, IB_SEND_INLINE and IB_SEND_SIGNALED.
pub record Push : Type 0 where
  pub opcode : WrOpcode
  pub laddr : ℕ
  pub lkey : ℕ
  pub length : ℕ
  pub raddr : ℕ
  pub rkey : ℕ
  pub imm : ℕ
  pub inline : Bool
  pub signaled : Bool

-- `ib_wc`, as far as it is passed to the user.
pub record Wc : Type 0 where
  pub opcode : ℕ
  pub wr_id : ℕ
  pub status : ℕ
  pub imm_data : ℕ

-- `*mut ib_wc`: the completions that stand behind the pointer.
abbrev pub WcPtr : Type 0
WcPtr = ℕ → Wc

pub record Kernel : Type 1 where
  pub World : Type 0
  pub Rc : Type 0
  pub Dc : Type 0
  pub Ud : Type 0
  pub PathRec : Type 0
  pub EndPoint : Type 0
  -- queue pairs
  pub rc_push_with_imm : Rc → Push → Eff World Bool
  pub rc_wait_til_comp : Rc → Eff World (Option WcPtr)
  pub rc_pop : Rc → Eff World (Option WcPtr)
  pub rc_remote_mr : Rc → TempMr
  pub dc_push : Dc → Push → EndPoint → Eff World Bool
  pub ud_push : Ud → Push → EndPoint → Eff World Bool
  pub ud_wait_til_comp : Ud → Eff World (Option WcPtr)
  pub endpoint_mr : EndPoint → TempMr
  pub pa_to_va : ℕ → ℕ
  -- controllers, by their index in RCTRL, which has `rctrl_len` entries
  pub rctrl_len : ℕ
  pub self_test_mr : ℕ → TempMr
  pub ctx_lkey : ℕ → ℕ
  pub ctx_rkey : ℕ → ℕ
  pub get_dc : ℕ → World → Option Dc
  pub get_ud : ℕ → World → Option Ud
  pub get_trc : ℕ → ℕ → World → Option Rc
  pub rc_post_recvs : ℕ → Rc → ℕ → Eff World Bool
  pub ud_post_recvs : ℕ → Ud → ℕ → Eff World Bool
  pub ud_post_recv : ℕ → ℕ → Eff World Bool
  pub trc_post_recv : ℕ → ℕ → ℕ → Eff World Bool
  pub pop_recvs : ℕ → ℕ → ℕ → Eff World (Option (Option WcPtr × ℕ))
  -- connections
  pub is_utf8 : List ℕ → Bool
  pub parse_guid : List ℕ → Bool
  pub explore_path : ℕ → List ℕ → ℕ → Eff World (Option PathRec)
  pub new_rc : ℕ → Eff World (Option Rc)
  pub rc_connect : Rc → ℕ → PathRec → ℕ → Eff World (Option Rc)
  pub read_endpoint : ℕ → ℕ → World → EndPoint
  -- the module's own test memory, the first context's key, and the capacity given to `TempMR::new`
  pub test_mem_pa : ℕ
  pub global_lkey : ℕ
  pub max_kmalloc_sz : ℕ
  pub ud_header_sz : ℕ
  -- the user's reply buffer, and the message buffers
  pub copy_payload : ℕ → ℕ → Eff World (Unit {0})
  pub copy_wc_to_user : ℕ → Wc → Eff World (Unit {0})
  pub copy_pop_len_to_user : ℕ → Eff World (Unit {0})
  pub copy_reply_to_user : Status → Eff World ℕ
  pub poll_all : Eff World (Unit {0})

-- `get_global_rctrl` of client.rs: the index is taken modulo the number of controllers.
abbrev pub get_global_rctrl : (k : Kernel) → ℕ → ℕ
get_global_rctrl k idx = idx % k.rctrl_len

-- `get_bind_ctrl` of client.rs
abbrev pub get_bind_ctrl : (k : Kernel) → ℕ → ℕ
get_bind_ctrl k port = get_global_rctrl k (port * 2)
