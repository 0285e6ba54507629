-- ===== src/Control.antt =====
-- The controller of a thread, RCtrl: ctrl.rs of KRdmaKit-syscall/two-sided-dc/KRdmaKit/src, with
-- cm/client.rs and qp/rc.rs, as far as it calls them. The connections that clients ask for, the ids
-- of ib_cm that they live on, and the contexts of these.
pub mod Operations
pub mod Raise
pub mod Handler
pub mod Sound
pub mod Closing
pub mod Ensures
pub mod Steps
pub mod Requests
pub mod Safe
pub mod Reach
pub mod Lost
pub mod Rising
pub mod Accepting
mod Tests
use krcore_artifacts.Prelude.{ℕ, Bool, Option, none, some, List, min, ◌==◌, if◌then◌else◌}
use krcore_artifacts.Prelude.Maps.{Map}
use krcore_artifacts.Bringup.Device.{IbState, Mask, Attr, Device}
use krcore_artifacts.Manager.{Attempt, ok, err, Call, pure, fail, resume, ◌>>=◌}
use krcore_artifacts.Syscall.Kernel.{TempMr}

-- `Config`, as far as an RC queue pair reads it.
pub record Config : Type 0 where
  pub max_send_wr_sz : ℕ
  pub max_recv_wr_sz : ℕ
  pub max_cqe : ℕ
  pub max_send_sge : ℕ
  pub max_recv_sge : ℕ

-- `Config::new`
abbrev pub new_config : Config
new_config = record {
  max_send_wr_sz = 2048;
  max_recv_wr_sz = 4096;
  max_cqe = 2048;
  max_send_sge = 16;
  max_recv_sge = 1;
}

abbrev pub set_max_send_wr_sz : ℕ → Config → Config
set_max_send_wr_sz new_v c = record c { max_send_wr_sz = min c.max_cqe new_v }

-- `InQPContext` is the key in it: there is one controller, whose address it holds besides. A context
-- of an ib_cm_id points to the controller, or to the box at an address.
pub data CmContext : Type 0 where
  thread_ctrl : CmContext
  in_qp : ℕ → CmContext

-- An `ib_cm_id`. It is `established` from the reply to the request of disconnecting.
pub record CmId : Type 0 where
  pub context : CmContext
  pub established : Bool

-- `RC`: its queue pair, its completion queue and `inner_cm`.
pub record Rc : Type 0 where
  pub qp : ℕ
  pub cq : ℕ
  pub inner_cm : Option ℕ

-- `UD`, as far as it is told to clients.
pub record Ud : Type 0 where
  pub qp : ℕ
  pub qkey : ℕ

-- `Status` of conn.rs
pub data ReplyStatus : Type 0 where
  replied_ok replied_err replied_nil exist not_exist : ReplyStatus

-- `reply::Payload`
pub record Payload : Type 0 where
  pub qd : ℕ
  pub mr : TempMr
  pub status : ReplyStatus

-- `ib_cm_rep_param`, as far as it does not repeat the request, with the private data.
pub record RepParam : Type 0 where
  pub qp_num : ℕ
  pub starting_psn : ℕ
  pub private_data : Payload

-- `ib_cm_sidr_rep_param`, with what of `SidrPayload` does not come from the device.
pub record SidrRepParam : Type 0 where
  pub qp_num : ℕ
  pub qkey : ℕ
  pub qd : ℕ
  pub status : ReplyStatus

-- The NIC, ib_cm and what else the controller calls: `ib_cm_init_qp_attr` with the attributes and the
-- mask that it answers for a state, the sending of replies, and `post_recvs` of the controller's
-- receive buffer.
pub record Kernel : Type 1 where
  pub device : Device
  pub test_mr : TempMr
  pub recv_cq : ℕ
  pub init_qp_attr : ℕ → IbState → device.World → ℕ × Attr × List Mask
  pub free_cq : ℕ → device.World → device.World
  pub send_rep : ℕ → RepParam → device.World → ℕ × device.World
  pub send_sidr_rep : ℕ → SidrRepParam → device.World → ℕ × device.World
  pub post_recvs : ℕ → ℕ → device.World → device.World

-- How a call ends early: with an error number, by a panic, by a read through a null pointer, or by a
-- use of memory that is freed or holds a value of another type.
pub data Stop : Type 0 where
  kernel_error : ℕ → Stop
  panics null_pointer bad_memory : Stop

-- What is at an address, if it is allocated.
abbrev pub Store : Type 0 → Type 0
Store A = ℕ → Option A

abbrev pub write : {A : Type 0} → ℕ → Option A → Store A → Store A
write p c h q = if q == p then c else h q

-- A match on the result of a call, or `let _ = ...`: only an error number is a result.
abbrev pub caught : {A S : Type 0} → Attempt Stop A × S → Attempt Stop (Attempt ℕ A) × S
caught (ok a, s) = (ok (ok a), s)
caught (err (kernel_error e), s) = (ok (err e), s)
caught (err panics, s) = (err panics, s)
caught (err null_pointer, s) = (err null_pointer, s)
caught (err bad_memory, s) = (err bad_memory, s)

module _ (k : Kernel) where
  -- `RCtrl`, with the ids of ib_cm and the boxes of contexts. `trc` is never read, and the DC queue
  -- pair, the DC target and the receive buffer do not change.
  pub record RCtrl : Type 0 where
    pub world : k.device.World
    pub ids : Store CmId
    pub boxes : Store ℕ
    pub next_box : ℕ
    pub registered_rcs : Map Rc
    pub registered_uds : Map Ud
    pub free_in_qp_key : ℕ

  abbrev pub Ctl : Type 0 → Type 0
  Ctl A = Call Stop RCtrl A

  abbrev pub attempt : {A : Type 0} → Ctl A → Ctl (Attempt ℕ A)
  attempt m s = caught (m s)

  abbrev pub on_world : {A : Type 0} → (k.device.World → A × k.device.World) → Ctl A
  on_world f s = let (a, w) = f s.world in (ok a, record s { world = w })

  -- A read through a pointer.
  abbrev pub read : {A : Type 0} → Option A → Ctl A
  read none = fail bad_memory
  read (some a) = pure a

  abbrev pub non_null : {A : Type 0} → Option A → Ctl A
  non_null none = fail null_pointer
  non_null (some a) = pure a

  abbrev pub set_id : ℕ → CmId → Ctl (Unit {0})
  set_id id st s = (ok tt, record s { ids = write id (some st) s.ids })

  -- `ClientCM::set_context`
  abbrev pub set_context : Option ℕ → CmContext → Ctl (Unit {0})
  set_context inner_cm context s =
      (do id ← non_null inner_cm; st ← read (s.ids id); set_id id (record st { context = context }))
        s

  -- `ClientCM::reset`. Of an id that is not allocated, it leaves the memory as it is.
  abbrev pub reset_cm : Option ℕ → RCtrl → RCtrl
  reset_cm none s = s
  reset_cm (some id) s = record s { ids = write id none s.ids }

  -- `ClientCM::handoff_raw_cm`
  abbrev pub handoff_raw_cm : Rc → Rc
  handoff_raw_cm q = record q { inner_cm = none }

  -- `RC::drop`, of a queue pair that is not null.
  abbrev pub drop_rc : Rc → RCtrl → RCtrl
  drop_rc q s =
      reset_cm q.inner_cm (record s { world = k.free_cq q.cq (k.device.destroy_qp q.qp s.world) })

  abbrev pub drop_old : Option Rc → RCtrl → RCtrl
  drop_old none s = s
  drop_old (some q) s = drop_rc q s
