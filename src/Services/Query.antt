-- ===== src/Services/Query.antt =====
-- KRdmaKit/src/queue_pairs/endpoint.rs, without the feature dct: a client in the kernel asks for the
-- end point of a datagram queue pair; with get_datagram_meta and create_address_handler of context.rs.
pub mod Exchange
pub mod Served
mod Tests
use krcore_artifacts.Prelude.{
  ℕ, ◌+◌, ◌%◌, ◌^◌, Bool, true, Option, none, some, List, [], ◌∷◌, ◌==◌, if◌then◌else◌,
}
use krcore_artifacts.Bringup.Device.{QueuePair}
use krcore_artifacts.Posting.{DatagramEndpoint}
use krcore_artifacts.Manager.{Answer, found, failed, Host, Attempt, ok, err, Call, pure, ◌>>=◌}
use krcore_artifacts.Manager.Server.{CmError}
use krcore_artifacts.Services.{CmEventType, CmCallbacker, CmId, cm_handler, QueuePairInfo}

-- `DatagramMeta`
pub record DatagramMeta : Type 0 where
  pub lid : ℕ
  pub gid : ℕ

abbrev meta_of : Answer → Answer → Option DatagramMeta
meta_of (found lid) (found gid) = some (record { lid = lid % 2 ^ 16; gid = gid })
meta_of _ _ = none

-- What the service asks of a queue pair without the feature dct. The device of the queue pair is in
-- the state `w`; an error is `none`.
module _ (h : Host) (w : h.device.World) where
  unfoldable pub get_datagram_meta : QueuePair → Option DatagramMeta
  get_datagram_meta qp = meta_of (h.get_port_attr qp.port_num w) (h.query_gid qp.port_num 0 w)

  abbrev pub datagram_info : QueuePairInfo QueuePair DatagramMeta
  datagram_info = record {
    generate_connection_reply = get_datagram_meta;
    get_qkey = λ qp. qp.qkey;
    get_qp_num = λ qp. h.device.qp_num qp.inner_qp;
  }

-- `rdma_ah_attr`, as far as it is set in the kernel.
pub record AhAttr : Type 0 where
  pub dlid : ℕ
  pub sl : ℕ
  pub port_num : ℕ
  pub dgid : ℕ

-- The device that makes address handles, or answers an error pointer.
pub record Handles : Type 1 where
  pub World : Type 0
  pub create_ah : AhAttr → World → Option ℕ × World

-- `ib_cm_sidr_rep_event_param`, with the private data of the reply. The status 0 is IB_SIDR_SUCCESS.
pub record SidrEvent : Type 0 where
  pub status : ℕ
  pub info : DatagramMeta
  pub qpn : ℕ
  pub qkey : ℕ

-- `ib_cm_sidr_req_param`, as far as it is set, with the private data. A path is a number.
pub record SidrReq : Type 0 where
  pub path : ℕ
  pub service_id : ℕ
  pub timeout_ms : ℕ
  pub max_cm_retries : ℕ
  pub qd_hint : ℕ

-- `DatagramQuerierInner`. The completion is how often it was signalled.
pub record DatagramQuerierInner : Type 0 where
  pub completed : ℕ
  pub endpoint : Option DatagramEndpoint
  pub port_num : ℕ

-- A `ControlpathError` of the querier, with its error number.
pub data QueryFault : Type 0 where
  creating waiting querying no_endpoint : ℕ → QueryFault

-- The number of `Error::EAGAIN`.
abbrev pub eagain : ℕ
eagain = 11

abbrev nothing : {S : Type 0} → SidrEvent → Call CmError S (Unit {0})
nothing e s = (ok tt, s)

abbrev pub new_inner : ℕ → DatagramQuerierInner
new_inner port_num = record { completed = 0; endpoint = none; port_num = port_num }

module _ (dev : Handles) where
  -- The context of the ib_cm_id, and the device.
  pub record Querying : Type 0 where
    pub world : dev.World
    pub inner : DatagramQuerierInner

  -- The index of the gid is not read in the kernel.
  unfoldable pub create_address_handler :
      (port_num gid_idx lid gid : ℕ) → dev.World → Option ℕ × dev.World
  create_address_handler port_num gid_idx lid gid =
      dev.create_ah (record { dlid = lid; sl = 0; port_num = port_num; dgid = gid })

  abbrev pub endpoint_with :
      (lid gid qpn qkey : ℕ) → Option ℕ × dev.World → Option DatagramEndpoint × dev.World
  endpoint_with lid gid qpn qkey (none, w) = (none, w)
  endpoint_with lid gid qpn qkey (some ah, w) =
      (some (record { qpn = qpn; qkey = qkey; address_handler = ah; lid = lid; gid = gid }), w)

  -- `DatagramEndpoint::new(...).ok()`
  unfoldable pub new_endpoint :
      (local_port_num lid gid qpn qkey : ℕ) → dev.World → Option DatagramEndpoint × dev.World
  new_endpoint local_port_num lid gid qpn qkey w =
      endpoint_with lid gid qpn qkey (create_address_handler local_port_num 0 lid gid w)

  abbrev pub done : Querying → Attempt CmError (Unit {0}) × Querying
  done s = (ok tt, record s { inner = record s.inner { completed = s.inner.completed + 1 } })

  abbrev pub keeping : Querying → Option DatagramEndpoint × dev.World → Querying
  keeping s (endpoint, w) = record { world = w; inner = record s.inner { endpoint = endpoint } }

  unfoldable pub handle_sidr_rep : SidrEvent → Call CmError Querying (Unit {0})
  handle_sidr_rep e s =
      if e.status == 0
      then done
          (keeping s (new_endpoint s.inner.port_num e.info.lid e.info.gid e.qpn e.qkey s.world))
      else done s

  -- `impl CMCallbacker for DatagramQuerierInner`, with the default implementations of the trait.
  abbrev pub querier_callbacks : CmCallbacker SidrEvent Querying
  querier_callbacks = record {
    handle_req = nothing;
    handle_rep = nothing;
    handle_rtu = nothing;
    handle_rej = nothing;
    handle_dreq = nothing;
    handle_sidr_req = nothing;
    handle_sidr_rep = handle_sidr_rep;
  }

  -- The events that ib_cm passes to `cm_handler`, in turn.
  abbrev pub deliver_all : List (CmEventType × SidrEvent) → CmId Querying → CmId Querying
  deliver_all [] id = id
  deliver_all ((t, e) ∷ es) id = deliver_all es ((cm_handler querier_callbacks t e id).1)

-- ib_cm, with what is at the other end; `timeout` is the error of a wait for a completion that was not
-- signalled.
pub record SidrCm : Type 1 where
  pub Far : Type 0
  pub create_cm_id : Far → Bool × Far
  pub send_sidr_req : SidrReq → Far → ℕ × Far
  pub arriving : Far → List (CmEventType × SidrEvent) × Far
  pub timeout : ℕ

module _ (dev : Handles) (cm : SidrCm) where
  pub record Asker : Type 0 where
    pub world : dev.World
    pub far : cm.Far

  abbrev pub Asking : Type 0 → Type 0
  Asking A = Call QueryFault Asker A

  abbrev with_cm_id : ℕ → Asker → Bool × cm.Far → Attempt QueryFault DatagramQuerierInner × Asker
  with_cm_id port_num c (b, far) =
      let c1 : Asker = record c { far = far } in
      if b then (ok (new_inner port_num), c1) else (err (creating 0), c1)

  -- `DatagramEndpointQuerier::create`
  unfoldable pub create_querier : ℕ → Asking DatagramQuerierInner
  create_querier local_port_num c = with_cm_id local_port_num c (cm.create_cm_id c.far)

  abbrev pub sidr_request : (remote_service_id qd_hint path : ℕ) → SidrReq
  sidr_request remote_service_id qd_hint path = record {
    path = path;
    service_id = remote_service_id;
    timeout_ms = 20;
    max_cm_retries = 3;
    qd_hint = qd_hint;
  }

  abbrev pub sidr_sent : Asker → ℕ × cm.Far → Attempt QueryFault (Unit {0}) × Asker
  sidr_sent c (ret, far) =
      let c1 : Asker = record c { far = far } in
      if ret == 0 then (ok tt, c1) else (err (querying eagain), c1)

  abbrev pub send_sidr : SidrReq → Asking (Unit {0})
  send_sidr req c = sidr_sent c (cm.send_sidr_req req c.far)

  -- What is left of the context after the wait, if the completion was signalled.
  abbrev pub wait_done :
      CmId (Querying dev) → cm.Far → Attempt QueryFault DatagramQuerierInner × Asker
  wait_done id far =
      let c1 : Asker = record { world = id.context.world; far = far } in
      if id.context.inner.completed == 0
      then (err (waiting cm.timeout), c1)
      else (ok id.context.inner, c1)

  abbrev wait_arriving :
      DatagramQuerierInner
      → Asker
      → List (CmEventType × SidrEvent) × cm.Far
      → Attempt QueryFault DatagramQuerierInner × Asker
  wait_arriving inner c (es, far) =
      wait_done
        (deliver_all dev es
          (record { has_context = true; context = record { world = c.world; inner = inner } }))
        far

  abbrev pub wait_endpoint : DatagramQuerierInner → Asking DatagramQuerierInner
  wait_endpoint inner c = wait_arriving inner c (cm.arriving c.far)

  -- `take_endpoint().ok_or(...)`
  abbrev pub take_endpoint : Option DatagramEndpoint → Asking DatagramEndpoint
  take_endpoint none c = (err (no_endpoint eagain), c)
  take_endpoint (some e) c = (ok e, c)

  -- `query` consumes the querier.
  unfoldable pub query :
      DatagramQuerierInner → (remote_service_id qd_hint path : ℕ) → Asking DatagramEndpoint
  query inner remote_service_id qd_hint path = do
    _ ← send_sidr (sidr_request remote_service_id qd_hint path)
    after ← wait_endpoint inner
    take_endpoint after.endpoint
