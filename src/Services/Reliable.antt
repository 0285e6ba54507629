-- ===== src/Services/Reliable.antt =====
-- ReliableConnectionServer of KRdmaKit/src/services/rc.rs: the kernel's server of RC queue pairs.
use krcore_artifacts.Prelude.{◌%◌, ◌^◌, ℕ, ◌∷◌, List, ◌==◌, if◌then◌else◌}
use krcore_artifacts.Prelude.Maps.{Map, insert, remove}
use krcore_artifacts.Bringup.Builder.{
  QueuePairBuilder, new_builder, set_rnr_retry, set_port_num, set_max_send_wr, allow_remote_rw,
  allow_remote_atomic,
}
use krcore_artifacts.Bringup.Device.{QueuePair, Result, Try}
use krcore_artifacts.Bringup.Build.{build_rc}
use krcore_artifacts.Bringup.Kernel.{bring_up_rc_kernel}
use krcore_artifacts.Manager.{Answer, found, failed, Host, Attempt, ok, err, Call, ◌>>=◌, look}
use krcore_artifacts.Manager.Server.{CmError, creation, send_error}

-- `RCConnectionData`
pub record ConnectionData : Type 0 where
  pub lid : ℕ
  pub gid : ℕ

-- `ib_cm_req_event_param`, as far as it is read, with the private data.
pub record Request : Type 0 where
  pub private_data : ConnectionData
  pub remote_qpn : ℕ
  pub starting_psn : ℕ
  pub responder_resources : ℕ
  pub initiator_depth : ℕ
  pub flow_control : ℕ
  pub rnr_retry_count : ℕ

-- `ib_cm_rep_param`, with the private data.
pub record Reply : Type 0 where
  pub private_data : ConnectionData
  pub qp_num : ℕ
  pub starting_psn : ℕ
  pub responder_resources : ℕ
  pub initiator_depth : ℕ
  pub flow_control : ℕ
  pub rnr_retry_count : ℕ

-- What the server has ib_cm send to a client: a reply, or a rejection with its reason.
pub data ToClient : Type 0 where
  replied : Reply → ToClient
  rejected : ℕ → ToClient

module _ (h : Host) where
  -- `ReliableConnectionServer`, with the state of the device and the messages sent, the last one first.
  pub record RcServer : Type 0 where
    pub registered_rc : Map QueuePair
    pub port_num : ℕ
    pub world : h.device.World
    pub outbox : List ToClient

  abbrev pub Serve : Type 0 → Type 0
  Serve A = Call CmError RcServer A

  -- `.map_err(|_| { send_reject(reason); CMError::Creation(0) })?`
  abbrev pub or_reject :
      {A : Type 0} → ℕ → RcServer → Result A × h.device.World → Attempt CmError A × RcServer
  or_reject reason v (Result.ok a, w) = (ok a, record v { world = w })
  or_reject reason v (Result.err e, w) =
      (err (creation 0), record v { world = w; outbox = rejected reason ∷ v.outbox })

  abbrev pub on_device : {A : Type 0} → ℕ → Try h.device.World A → Serve A
  on_device reason m v = or_reject reason v (m v.world)

  abbrev pub or_errno : {S : Type 0} → Answer → Call CmError S ℕ
  or_errno (found n) v = (ok n, v)
  or_errno (failed e) v = (err (creation e), v)

  -- `RCConnectionData::new`, which keeps 16 bits of the lid.
  unfoldable pub new_data : QueuePair → Call CmError h.device.World ConnectionData
  new_data qp = do
    w ← look (λ w. w)
    lid ← or_errno (h.get_port_attr qp.port_num w)
    gid ← or_errno (h.query_gid qp.port_num 0 w)
    (λ w1. (ok (record { lid = lid % 2 ^ 16; gid = gid }), w1))

  abbrev pub with_world :
      {A : Type 0} → RcServer → Attempt CmError A × h.device.World → Attempt CmError A × RcServer
  with_world v (a, w) = (a, record v { world = w })

  abbrev pub on_world : {A : Type 0} → Call CmError h.device.World A → Serve A
  on_world m v = with_world v (m v.world)

  abbrev pub server_builder : Request → ℕ → QueuePairBuilder
  server_builder req port = allow_remote_atomic (
      allow_remote_rw
        (set_max_send_wr (set_port_num (set_rnr_retry new_builder req.rnr_retry_count) port) 64))

  abbrev pub reply_for : Request → QueuePair → ConnectionData → Reply
  reply_for req qp peer = record {
    private_data = peer;
    qp_num = h.device.qp_num qp.inner_qp;
    starting_psn = h.device.qp_num qp.inner_qp;
    responder_resources = req.responder_resources;
    initiator_depth = req.initiator_depth;
    flow_control = req.flow_control;
    rnr_retry_count = req.rnr_retry_count;
  }

  -- `registered_rc.insert`
  abbrev pub store : ℕ → QueuePair → Serve (Unit {0})
  store key qp v = (ok tt, record v { registered_rc = insert key qp v.registered_rc })

  -- `send_reply`, given what `ib_send_cm_rep` answers; it sends the reply if that is 0.
  abbrev pub send_reply : (Reply → ℕ) → Reply → Serve (Unit {0})
  send_reply answer reply v =
      if answer reply == 0
      then (ok tt, record v { outbox = replied reply ∷ v.outbox })
      else (err (send_error (answer reply)), v)

  -- The steps 3 to 5, with the queue pair brought up. `key` is the address of the id.
  unfoldable pub finish : (Reply → ℕ) → ℕ → Request → QueuePair → Serve (Unit {0})
  finish answer key req qp = do
    peer ← on_world (new_data qp)
    _ ← store key qp
    send_reply answer (reply_for req qp peer)

  unfoldable pub handle_req : (Reply → ℕ) → ℕ → Request → Serve (Unit {0})
  handle_req answer key req = do
    v ← look (λ v. v)
    p ← on_device 2 (build_rc h.device (server_builder req v.port_num))
    qp ← on_device 3 (
        bring_up_rc_kernel h.device p req.private_data.lid req.private_data.gid req.remote_qpn
          req.starting_psn)
    finish answer key req qp

  unfoldable pub handle_dreq : ℕ → Serve (Unit {0})
  handle_dreq key v = (ok tt, record v { registered_rc = remove key v.registered_rc })
