-- ===== src/Control/Handler.antt =====
-- cm_handler of ctrl.rs and the callbacks that it calls.
use krcore_artifacts.Prelude.{ℕ, ◌+◌, false, Option, none, some, ◌==◌, if◌then◌else◌}
use krcore_artifacts.Prelude.Maps.{insert, lookup}
use krcore_artifacts.Manager.{Attempt, ok, err, pure, fail, ◌>>=◌}
use krcore_artifacts.Control.{
  new_config, set_max_send_wr_sz, CmContext, thread_ctrl, in_qp, CmId, Rc, Ud, replied_ok,
  replied_nil, not_exist, Payload, SidrRepParam, Kernel, Stop, kernel_error, bad_memory, write,
  RCtrl, Ctl, attempt, on_world, read, set_context, drop_rc, drop_old,
}
use krcore_artifacts.Control.Operations.{new_with_srq, get_next_in_qp_key, connect_reply, dereg_rc}
use krcore_artifacts.Control.Raise.{bring_to_rtr, bring_to_rts}

-- `ib_cm_event`, with the private data of a request. The handler prints a line for the events that
-- are `noted`, and does nothing else.
pub data CmEvent : Type 0 where
  req_received sidr_req_received : (qd : ℕ) → CmEvent
  dreq_received noted : CmEvent

-- An id at which a connection ends, if there is one.
abbrev pub ended : Option CmId → Option CmId
ended none = none
ended (some st) = some (record st { established = false })

-- The id of a request, with the context of the listener.
abbrev pub new_id : CmId
new_id = record { context = thread_ctrl; established = false }

module _ (k : Kernel) where
  -- `Box::new` of an InQPContext. Addresses are counted.
  abbrev pub new_context : ℕ → Ctl k ℕ
  new_context key s = (
    ok s.next_box,
    record s { boxes = write s.next_box (some key) s.boxes; next_box = s.next_box + 1 },
  )

  -- An insertion drops the RC that it replaces.
  abbrev pub register_rc : ℕ → Rc → RCtrl k → RCtrl k
  register_rc key q s =
      drop_old k (lookup key s.registered_rcs)
        (record s { registered_rcs = insert key q s.registered_rcs })

  abbrev pub registers_rc : ℕ → Rc → Ctl k (Unit {0})
  registers_rc key q s = (ok tt, register_rc key q s)

  -- What follows the reply: the context of the id is set, the RC is registered, and receive requests
  -- are posted.
  abbrev pub register_conn : Rc → ℕ → Attempt ℕ (Unit {0}) → Ctl k (Attempt ℕ (Unit {0}))
  register_conn q new_key ret = do
    new_ctx ← new_context new_key
    _ ← set_context k q.inner_cm (in_qp new_ctx)
    _ ← registers_rc new_key q
    _ ← on_world k (λ w. (tt, k.post_recvs q.qp 512 w))
    pure ret

  -- The rest of `rc_conn_callback` if the queue pair is ready to receive.
  unfoldable pub accept_conn : ℕ → Rc → ℕ → Payload → Ctl k (Attempt ℕ (Unit {0}))
  accept_conn cm q new_key reply = do
    _ ← attempt k (bring_to_rts k cm q)
    ret ← attempt k (connect_reply k q reply)
    register_conn q new_key ret

  -- And if it is not: the RC is dropped, and its id with it.
  unfoldable pub refuse_conn : Rc → Payload → Ctl k (Attempt ℕ (Unit {0}))
  refuse_conn q reply = do ret ← attempt k (connect_reply k q reply); (λ s. (ok ret, drop_rc k q s))

  abbrev pub finish_conn :
      ℕ → Rc → ℕ → Payload → Attempt ℕ (Unit {0}) → Ctl k (Attempt ℕ (Unit {0}))
  finish_conn cm q new_key reply (ok u) = accept_conn cm q new_key reply
  finish_conn cm q new_key reply (err e) = refuse_conn q reply

  unfoldable pub rc_conn_callback : ℕ → ℕ → Ctl k (Attempt ℕ (Unit {0}))
  rc_conn_callback cm qd = do
    q ← new_with_srq k (set_max_send_wr_sz 256 new_config) cm
    new_key ← get_next_in_qp_key k qd
    raised ← attempt k (bring_to_rtr k cm q)
    finish_conn cm q new_key (record { qd = qd; mr = k.test_mr; status = replied_nil }) raised

  abbrev pub sidr_reply : ℕ → Option Ud → SidrRepParam
  sidr_reply qd none = record { qp_num = 0; qkey = 0; qd = qd; status = not_exist }
  sidr_reply qd (some ud) = record {
    qp_num = k.device.qp_num ud.qp;
    qkey = ud.qkey;
    qd = qd;
    status = replied_ok;
  }

  abbrev pub sidr_answer : ℕ × k.device.World → RCtrl k → Attempt Stop (Unit {0}) × RCtrl k
  sidr_answer (ret, w) s =
      if ret == 0
      then (ok tt, record s { world = w })
      else (err (kernel_error ret), record s { world = w })

  unfoldable pub sidr_callback : ℕ → ℕ → Ctl k (Unit {0})
  sidr_callback cm qd s =
      sidr_answer (k.send_sidr_rep cm (sidr_reply qd (lookup qd s.registered_uds)) s.world) s

  -- The arm for a disconnect request: the context is read as a box, which is freed at its end. Left
  -- out is the line that the arm prints first, with the `id` of a controller read from that context.
  abbrev pub free_context : ℕ → RCtrl k → RCtrl k
  free_context b s = record s { boxes = write b none s.boxes }

  unfoldable pub disconnect : CmContext → Ctl k (Unit {0})
  disconnect thread_ctrl s = (err bad_memory, s)
  disconnect (in_qp b) s =
      (read k (s.boxes b) >>= λ key. (λ s1. (ok tt, free_context b (dereg_rc k key s1)))) s

  -- The context is read as the controller.
  abbrev pub as_ctrl : {A : Type 0} → CmContext → Ctl k A → Ctl k (Unit {0})
  as_ctrl thread_ctrl m = m >>= λ _. pure tt
  as_ctrl (in_qp b) m = fail bad_memory

  abbrev pub handle_event : CmEvent → ℕ → CmContext → Ctl k (Unit {0})
  handle_event (req_received qd) cm context = as_ctrl context (rc_conn_callback cm qd)
  handle_event (sidr_req_received qd) cm context = as_ctrl context (attempt k (sidr_callback cm qd))
  handle_event dreq_received cm context = disconnect context
  handle_event noted cm context = pure tt

  unfoldable pub cm_handler : CmEvent → ℕ → Ctl k (Unit {0})
  cm_handler e cm s = (read k (s.ids cm) >>= λ st. handle_event e cm st.context) s

  -- What ib_cm does before it calls the handler: a request comes with an id of its own, whose context
  -- is the listener's, and a disconnect request ends the connection.
  abbrev pub arrive : CmEvent → ℕ → RCtrl k → RCtrl k
  arrive (req_received qd) cm s = record s { ids = write cm (some new_id) s.ids }
  arrive (sidr_req_received qd) cm s = record s { ids = write cm (some new_id) s.ids }
  arrive dreq_received cm s = record s { ids = write cm (ended (s.ids cm)) s.ids }
  arrive noted cm s = s

  unfoldable pub deliver : CmEvent → ℕ → Ctl k (Unit {0})
  deliver e cm s = cm_handler e cm (arrive e cm s)
