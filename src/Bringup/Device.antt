-- ===== src/Bringup/Device.antt =====
-- The verbs that bringing up a queue pair calls, and `QueuePair` with its status, of
-- KRdmaKit/src/queue_pairs/mod.rs. The verbs are a parameter: the state `World` of the NIC is theirs.
use krcore_artifacts.Prelude.{ℕ, Option, List, ◌==◌, if◌then◌else◌}
use krcore_artifacts.Bringup.Builder.{Access, Mtu}

-- `QPType`
pub data QpType : Type 0 where
  rc ud wc dc : QpType

-- `ib_qp_state`
pub data IbState : Type 0 where
  ib_reset ib_init ib_rtr ib_rts ib_sqd ib_sqe ib_err : IbState

-- `QueuePairStatus`
pub data QueuePairStatus : Type 0 where
  reset init ready_to_send ready_to_recv error : QueuePairStatus

-- `ib_qp_attr_mask`, as far as it is used here.
pub data Mask : Type 0 where
  state pkey_index port access_flags qkey dc_key av path_mtu dest_qpn rq_psn max_dest_rd_atomic
        min_rnr_timer timeout retry_cnt rnr_retry sq_psn max_qp_rd_atomic :
      Mask

-- The remote side of `ah_attr`, where it is set.
pub record Remote : Type 0 where
  pub dlid : ℕ
  pub gid : ℕ
  pub hop_limit : ℕ

-- `ib_qp_attr`. A field that is not set is 0 or `none`.
pub record Attr : Type 0 where
  pub qp_state : IbState
  pub pkey_index : ℕ
  pub port_num : ℕ
  pub qkey : ℕ
  pub access : Option Access
  pub path_mtu : Option Mtu
  pub dest_qp_num : ℕ
  pub rq_psn : ℕ
  pub max_dest_rd_atomic : ℕ
  pub min_rnr_timer : ℕ
  pub av_port_num : ℕ
  pub remote : Option Remote
  pub timeout : ℕ
  pub retry_cnt : ℕ
  pub rnr_retry : ℕ
  pub sq_psn : ℕ
  pub max_rd_atomic : ℕ

-- `ib_qp_init_attr`
pub record InitAttr : Type 0 where
  pub max_send_wr : ℕ
  pub max_recv_wr : ℕ
  pub max_recv_sge : ℕ
  pub max_send_sge : ℕ
  pub max_inline_data : ℕ
  pub qp_type : QpType
  pub send_cq : ℕ
  pub recv_cq : ℕ

-- The verbs. A queue pair and a completion queue are named by a number, and a return code is 0 on
-- success. A null pointer is `none`. The constants of `Error` are the library's.
pub record Device : Type 1 where
  pub World : Type 0
  pub create_cq : ℕ → World → Option ℕ × World
  pub create_qp : InitAttr → World → Option ℕ × World
  pub qp_num : ℕ → ℕ
  pub destroy_qp : ℕ → World → World
  pub query_qp : ℕ → World → ℕ × IbState
  pub modify_qp : ℕ → Attr → List Mask → World → ℕ × World
  pub eagain : ℕ
  pub einval : ℕ

-- What a `ControlpathError` is about.
pub data What : Type 0 where
  type_check creating_cq creating_qp to_init to_rtr to_rts : What

-- `ControlpathError`, with the return code.
pub data ControlpathError : Type 0 where
  creation_error : What → ℕ → ControlpathError
  query_error : ℕ → ControlpathError

pub data Result (A : Type 0) : Type 0 where
  ok : A → Result A
  err : ControlpathError → Result A

-- A call of the device that may fail.
abbrev pub Try : Type 0 → Type 0 → Type 0
Try W A = W → Result A × W

abbrev pub pure : {W A : Type 0} → A → Try W A
pure a w = (ok a, w)

abbrev pub fail : {W A : Type 0} → ControlpathError → Try W A
fail e w = (err e, w)

-- `?`
abbrev pub resume : {W A B : Type 0} → Result A × W → (A → Try W B) → Result B × W
resume (ok a, w) f = f a w
resume (err e, w) f = (err e, w)

infixl 5 ◌>>=◌
abbrev pub ◌>>=◌ : {W A B : Type 0} → Try W A → (A → Try W B) → Try W B
◌>>=◌ m f w = resume (m w) f

-- `CommStruct`. A socket address is a number.
pub record CommStruct : Type 0 where
  pub qp_type : QpType
  pub addr : ℕ
  pub key : ℕ

pub record QueuePair : Type 0 where
  pub inner_qp : ℕ
  pub send_cq : ℕ
  pub recv_cq : ℕ
  pub mode : QpType
  pub port_num : ℕ
  pub qkey : ℕ
  pub access : Access
  pub timeout : ℕ
  pub retry_count : ℕ
  pub rnr_retry : ℕ
  pub max_rd_atomic : ℕ
  pub min_rnr_timer : ℕ
  pub pkey_index : ℕ
  pub path_mtu : Mtu
  pub comm : Option CommStruct

abbrev pub status_of : IbState → QueuePairStatus
status_of ib_reset = reset
status_of ib_init = init
status_of ib_rts = ready_to_send
status_of ib_rtr = ready_to_recv
status_of _ = error

-- `QueuePair::status`
unfoldable pub status : (d : Device) → QueuePair → Try d.World QueuePairStatus
status d qp w =
    let (ret, s) = d.query_qp qp.inner_qp w in
    if ret == 0 then (ok (status_of s), w) else (err (query_error ret), w)
