-- ===== src/Services/Query/Exchange.antt =====
-- ib_cm between a querier and a ConnectionService: the request arrives at the service's handler, and
-- the reply that this sends arrives at the querier.
use krcore_artifacts.Prelude.{ℕ, true, List, [], ◌∷◌}
use krcore_artifacts.Manager.{ok, Call}
use krcore_artifacts.Manager.Server.{CmError}
use krcore_artifacts.Services.{
  CmEventType, sidr_req_received, sidr_rep_received, CmCallbacker, cm_handler, QueuePairInfo,
  SidrReply, success, no_qp, Serving, handle_sidr_req,
}
use krcore_artifacts.Services.Query.{DatagramMeta, SidrEvent, SidrReq, SidrCm}

-- The event at the querier for a reply of the service; 3 is IB_SIDR_NO_QP.
abbrev pub sidr_event : SidrReply DatagramMeta → CmEventType × SidrEvent
sidr_event (success qp_num qkey meta) =
    (sidr_rep_received, record { status = 0; info = meta; qpn = qp_num; qkey = qkey })
sidr_event no_qp = (
  sidr_rep_received,
  record { status = 3; info = record { lid = 0; gid = 0 }; qpn = 0; qkey = 0 },
)

-- The replies, the last one first, in the order in which they arrive.
abbrev pub sidr_events :
    List (SidrReply DatagramMeta) → List (CmEventType × SidrEvent) → List (CmEventType × SidrEvent)
sidr_events [] es = es
sidr_events (r ∷ rs) es = sidr_events rs (sidr_event r ∷ es)

module _ {Q : Type 0} (info : QueuePairInfo Q DatagramMeta) where
  abbrev nothing : ℕ → Call CmError (Serving info) (Unit {0})
  nothing e s = (ok tt, s)

  -- `impl CMCallbacker for ConnectionService`, where ib_cm sends every reply. An event is the hint
  -- that the private data holds.
  abbrev pub service_callbacks : CmCallbacker ℕ (Serving info)
  service_callbacks = record {
    handle_req = nothing;
    handle_rep = nothing;
    handle_rtu = nothing;
    handle_rej = nothing;
    handle_dreq = nothing;
    handle_sidr_req = handle_sidr_req info (λ reply. 0);
    handle_sidr_rep = nothing;
  }

  unfoldable pub receive_sidr : SidrReq → Serving info → Serving info
  receive_sidr req s =
      ((cm_handler service_callbacks sidr_req_received req.qd_hint
        (record { has_context = true; context = s })).1
      ).context

  -- A service, as the other end of a querier's ib_cm.
  abbrev pub service_cm : SidrCm
  service_cm = record {
    Far = Serving info;
    create_cm_id = λ s. (true, s);
    send_sidr_req = λ req s. (0, receive_sidr req s);
    arriving = λ s. (sidr_events s.sent_replies [], record s { sent_replies = [] });
    timeout = 110;
  }
