-- ===== src/Services/Handshake.antt =====
-- The kernel's handshake of an RC queue pair: KRdmaKit/src/queue_pairs/handshake_kernel.rs, rc_comm.rs
-- and callbacks.rs.
use krcore_artifacts.Prelude.{
  ℕ, ◌+◌, Bool, true, false, Option, none, some, List, [], ◌∷◌, ◌==◌, if◌then◌else◌,
}
use krcore_artifacts.Bringup.Device.{
  rc, QueuePair, QueuePairStatus, ready_to_send, ControlpathError, creation_error, query_error,
  Result, CommStruct, status,
}
use krcore_artifacts.Bringup.Build.{PreparedQueuePair}
use krcore_artifacts.Bringup.Prepared.{is_type}
use krcore_artifacts.Bringup.Kernel.{bring_up_rc_inner_kernel}
use krcore_artifacts.Manager.{Host, Attempt, ok, err, Call, pure, fail, ◌>>=◌, map_err}
use krcore_artifacts.Manager.Server.{CmError, creation}
use krcore_artifacts.Services.{CmEventType, CmCallbacker, CmId, cm_handler}
use krcore_artifacts.Services.Reliable.{ConnectionData, new_data}

-- `ib_cm_event`, as far as a client reads it.
pub record EventData : Type 0 where
  pub private_data : ConnectionData
  pub errno : ℕ
  pub remote_qpn : ℕ
  pub starting_psn : ℕ

abbrev pub Arrivals : Type 0
Arrivals = List (CmEventType × EventData)

-- `ib_cm_req_param`, as far as it is set, with the private data. A path is a number.
pub record ConnReq : Type 0 where
  pub primary_path : ℕ
  pub service_id : ℕ
  pub responder_resources : ℕ
  pub initiator_depth : ℕ
  pub remote_cm_response_timeout : ℕ
  pub local_cm_response_timeout : ℕ
  pub max_cm_retries : ℕ
  pub rnr_retry_count : ℕ
  pub retry_count : ℕ
  pub flow_control : ℕ
  pub qp_num : ℕ
  pub starting_psn : ℕ
  pub private_data : ConnectionData

-- What a `ControlpathError` of the handshake is about, or a panic.
pub data Fault : Type 0 where
  not_rc creating_cm_id getting_data sending_request waiting querying_status wrong_status :
      ℕ → Fault
  panics : Fault

-- `RCCommStruct`: how often its completion was signalled, and the number of RTU messages that were
-- sent on its ib_cm_id.
pub record RcComm : Type 0 where
  pub completed : ℕ
  pub rtus : ℕ

abbrev succeeds : {S : Type 0} → EventData → Call CmError S (Unit {0})
succeeds e s = (ok tt, s)

abbrev pub is_ready : QueuePairStatus → Bool
is_ready ready_to_send = true
is_ready _ = false

module _ (h : Host) where
  -- The context of the ib_cm_id, a queue pair: its `rc_comm`, and the device that it is of.
  pub record Local : Type 0 where
    pub world : h.device.World
    pub rc_comm : RcComm

  abbrev pub with_device :
      {A : Type 0} → RcComm → Attempt CmError A × h.device.World → Attempt CmError A × Local
  with_device c (a, w) = (a, record { world = w; rc_comm = c })

  -- `rc_comm.done()`
  abbrev pub signal : Call CmError Local (Unit {0})
  signal s =
      (ok tt, record s { rc_comm = record s.rc_comm { completed = s.rc_comm.completed + 1 } })

  -- `send_rtu`, whose result is not read.
  abbrev pub send_rtu : Call CmError Local (Unit {0})
  send_rtu s = (ok tt, record s { rc_comm = record s.rc_comm { rtus = s.rc_comm.rtus + 1 } })

  module _ (qp : QueuePair) where
    unfoldable pub handle_rep : EventData → Call CmError Local (Unit {0})
    handle_rep e = do
      _ ← (λ s. with_device s.rc_comm (
          map_err (creation 0) (
            bring_up_rc_inner_kernel h.device qp e.private_data.lid e.private_data.gid e.remote_qpn
              e.starting_psn s.world)))
      _ ← signal
      send_rtu

    unfoldable pub handle_rej : EventData → Call CmError Local (Unit {0})
    handle_rej e = signal

    -- `impl CMCallbacker for QueuePair`, with the default implementations of the trait.
    abbrev pub callbacks : CmCallbacker EventData Local
    callbacks = record {
      handle_req = succeeds;
      handle_rep = handle_rep;
      handle_rtu = succeeds;
      handle_rej = handle_rej;
      handle_dreq = succeeds;
      handle_sidr_req = succeeds;
      handle_sidr_rep = succeeds;
    }

    -- The events that ib_cm passes to `cm_handler`, in turn.
    abbrev pub deliver : Arrivals → CmId Local → CmId Local
    deliver [] id = id
    deliver ((t, e) ∷ es) id = deliver es ((cm_handler callbacks t e id).1)

-- ib_cm, with what is at the other end: creating an id gets one or a null pointer, sending a request
-- answers a return code, and some events arrive before the wait is over. `timeout` is the error of a
-- wait for a completion that was not signalled.
pub record IbCm : Type 1 where
  pub Far : Type 0
  pub create_cm_id : Far → Bool × Far
  pub send_req : ConnReq → Far → ℕ × Far
  pub arriving : Far → Arrivals × Far
  pub timeout : ℕ

-- `Arc<QueuePair>` with its `rc_comm`, and whether the ib_cm_id of that has a context.
pub record Connection : Type 0 where
  pub qp : QueuePair
  pub rc_comm : RcComm
  pub has_context : Bool

abbrev pub errno_of : CmError → ℕ
errno_of (creation e) = e
errno_of _ = 0

abbrev pub code_of : ControlpathError → ℕ
code_of (creation_error what e) = e
code_of (query_error e) = e

module _ (h : Host) (cm : IbCm) where
  pub record Client : Type 0 where
    pub world : h.device.World
    pub far : cm.Far

  abbrev pub Ask : Type 0 → Type 0
  Ask A = Call Fault Client A

  abbrev pub created : Client → Bool × cm.Far → Attempt Fault (Unit {0}) × Client
  created c (b, far) =
      let c1 = record c { far = far } in if b then (ok tt, c1) else (err (creating_cm_id 0), c1)

  -- `RCCommStruct::new`
  abbrev pub new_comm : Ask (Unit {0})
  new_comm c = created c (cm.create_cm_id c.far)

  abbrev pub data_or_fault :
      Client
      → Attempt CmError ConnectionData × h.device.World
      → Attempt Fault ConnectionData × Client
  data_or_fault c (ok d, w) = (ok d, record c { world = w })
  data_or_fault c (err e, w) = (err (getting_data (errno_of e)), record c { world = w })

  abbrev pub own_data : QueuePair → Ask ConnectionData
  own_data qp c = data_or_fault c (new_data h qp c.world)

  abbrev pub request : PreparedQueuePair → ℕ → ℕ → ConnectionData → ConnReq
  request p remote_service_id path own = record {
    primary_path = path;
    service_id = remote_service_id;
    responder_resources = 16;
    initiator_depth = 16;
    remote_cm_response_timeout = 20;
    local_cm_response_timeout = 20;
    max_cm_retries = 15;
    rnr_retry_count = p.rnr_retry;
    retry_count = p.retry_count;
    flow_control = 1;
    qp_num = h.device.qp_num p.inner.inner_qp;
    starting_psn = h.device.qp_num p.inner.inner_qp;
    private_data = own;
  }

  abbrev pub sent : Client → ℕ × cm.Far → Attempt Fault (Unit {0}) × Client
  sent c (ret, far) =
      let c1 = record c { far = far } in
      if ret == 0 then (ok tt, c1) else (err (sending_request 0), c1)

  abbrev pub send_req : ConnReq → Ask (Unit {0})
  send_req req c = sent c (cm.send_req req c.far)

  -- The events that arrive during `wait`, and its result: whether one of them has signalled.
  abbrev pub waited : CmId (Local h) → cm.Far → Attempt Fault (CmId (Local h)) × Client
  waited id far =
      let c1 : Client = record { world = id.context.world; far = far } in
      if id.context.rc_comm.completed == 0 then (err (waiting cm.timeout), c1) else (ok id, c1)

  abbrev pub wait_events :
      QueuePair → Client → Arrivals × cm.Far → Attempt Fault (CmId (Local h)) × Client
  wait_events qp c (es, far) =
      waited
        (deliver h qp es (record {
          has_context = true;
          context = record { world = c.world; rc_comm = record { completed = 0; rtus = 0 } };
        }))
        far

  unfoldable pub wait : QueuePair → Ask (CmId (Local h))
  wait qp c = wait_events qp c (cm.arriving c.far)

  abbrev pub status_or_fault :
      Client → Result QueuePairStatus × h.device.World → Attempt Fault QueuePairStatus × Client
  status_or_fault c (Result.ok s, w) = (ok s, record c { world = w })
  status_or_fault c (Result.err e, w) = (err (querying_status (code_of e)), record c { world = w })

  abbrev pub final_status : QueuePair → Ask QueuePairStatus
  final_status qp c = status_or_fault c (status h.device qp c.world)

  abbrev pub checked : QueuePair → CmId (Local h) → QueuePairStatus → Ask Connection
  checked qp id s =
      if is_ready s
      then pure (record { qp = qp; rc_comm = id.context.rc_comm; has_context = id.has_context })
      else fail (wrong_status 0)

  unfoldable pub connect_rc : PreparedQueuePair → ℕ → ℕ → Ask Connection
  connect_rc p remote_service_id path = do
    _ ← new_comm
    own ← own_data p.inner
    _ ← send_req (request p remote_service_id path own)
    id ← wait p.inner
    s ← final_status p.inner
    checked p.inner id s

  -- What `assert!(self.inner.rc_comm.is_some())` makes of the error that follows it. `comm` stands for
  -- `rc_comm`, which has its place in the kernel.
  abbrev pub refused : Option CommStruct → Fault
  refused none = panics
  refused (some c) = not_rc 0

  -- On an error the queue pair is dropped, which destroys it. A panic drops nothing. That the drop also
  -- destroys the id is left out, for the ids of ib_cm are not part of a client's state.
  abbrev pub or_drop :
      QueuePair → Attempt Fault Connection × Client → Attempt Fault Connection × Client
  or_drop qp (ok a, c) = (ok a, c)
  or_drop qp (err panics, c) = (err panics, c)
  or_drop qp (err e, c) = (err e, record c { world = h.device.destroy_qp qp.inner_qp c.world })

  unfoldable pub handshake : PreparedQueuePair → ℕ → ℕ → Ask Connection
  handshake p remote_service_id path c = or_drop p.inner (
      if is_type p.inner.mode rc
      then connect_rc p remote_service_id path c
      else (err (refused p.inner.comm), c))
