-- ===== src/Control/Operations.antt =====
-- What RCtrl of ctrl.rs and RC of qp/rc.rs do for a connection: making an RC, numbering it, replying
-- with it, and taking it and UD queue pairs in and out of the controller.
use krcore_artifacts.Prelude.{ℕ, ◌+◌, ◌%◌, ◌^◌, true, Option, none, some, ◌==◌, if◌then◌else◌}
use krcore_artifacts.Prelude.Maps.{insert, remove, lookup}
use krcore_artifacts.Bringup.Device.{rc, InitAttr}
use krcore_artifacts.Manager.{Attempt, ok, err, pure, ◌>>=◌}
use krcore_artifacts.Control.{
  Config, CmId, Rc, Ud, Payload, RepParam, Kernel, Stop, kernel_error, write, RCtrl, Ctl, non_null,
  read, on_world, drop_rc, handoff_raw_cm,
}

module _ (k : Kernel) where
  abbrev pub rc_init_attr : Config → ℕ → InitAttr
  rc_init_attr c cq = record {
    max_send_wr = c.max_send_wr_sz;
    max_recv_wr = c.max_recv_wr_sz;
    max_recv_sge = c.max_recv_sge;
    max_send_sge = c.max_send_sge;
    max_inline_data = 64;
    qp_type = rc;
    send_cq = cq;
    recv_cq = k.recv_cq;
  }

  -- `RC::new_with_srq` on an id. Where it fails, the drop of the half-made RC reads the number of its
  -- queue pair, which is null.
  unfoldable pub new_with_srq : Config → ℕ → Ctl k Rc
  new_with_srq c id = do
    made ← on_world k (k.device.create_cq c.max_cqe)
    cq ← non_null k made
    made_qp ← on_world k (k.device.create_qp (rc_init_attr c cq))
    qp ← non_null k made_qp
    pure (record { qp = qp; cq = cq; inner_cm = some id })

  -- `get_next_in_qp_key`
  unfoldable pub get_next_in_qp_key : ℕ → Ctl k ℕ
  get_next_in_qp_key vid s =
      if vid == 0
      then (ok s.free_in_qp_key, record s { free_in_qp_key = (s.free_in_qp_key + 1) % 2 ^ 64 })
      else (ok vid, s)

  abbrev pub answered : ℕ × RCtrl k → Attempt Stop (Unit {0}) × RCtrl k
  answered (ret, s) = if ret == 0 then (ok tt, s) else (err (kernel_error ret), s)

  -- `ib_send_cm_rep` on an id: if it succeeds, then the id is established.
  abbrev pub send_rep : ℕ → CmId → RepParam → RCtrl k → ℕ × RCtrl k
  send_rep id st rep s =
      let (ret, w) = k.send_rep id rep s.world in
      if ret == 0
      then (
        ret,
        record s { world = w; ids = write id (some (record st { established = true })) s.ids },
      )
      else (ret, record s { world = w })

  -- `RC::connect_reply`
  unfoldable pub connect_reply : Rc → Payload → Ctl k (Unit {0})
  connect_reply q reply s =
      (do
        id ← non_null k q.inner_cm
        st ← read k (s.ids id)
        (λ s1. answered (
            send_rep id st
              (record {
                qp_num = k.device.qp_num q.qp;
                starting_psn = k.device.qp_num q.qp;
                private_data = reply;
              })
              s1)))
        s

  -- `dereg_rc`
  abbrev pub dereg_found : ℕ → Option Rc → RCtrl k → RCtrl k
  dereg_found qd none s = s
  dereg_found qd (some q) s =
      drop_rc k (handoff_raw_cm k q) (record s { registered_rcs = remove qd s.registered_rcs })

  unfoldable pub dereg_rc : ℕ → RCtrl k → RCtrl k
  dereg_rc qd s = dereg_found qd (lookup qd s.registered_rcs) s

  abbrev pub reg_ud : ℕ → Ud → RCtrl k → RCtrl k
  reg_ud qd ud s = record s { registered_uds = insert qd ud s.registered_uds }

  abbrev pub dereg_ud : ℕ → RCtrl k → RCtrl k
  dereg_ud qd s = record s { registered_uds = remove qd s.registered_uds }
