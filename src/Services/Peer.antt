-- ===== src/Services/Peer.antt =====
-- ib_cm between a client and a ReliableConnectionServer: what the client sends arrives at the server's
-- handler, and what that sends in turn arrives at the client.
use krcore_artifacts.Prelude.{ℕ, true, List, [], ◌∷◌}
use krcore_artifacts.Manager.{Host, ok, Call}
use krcore_artifacts.Manager.Server.{CmError}
use krcore_artifacts.Services.{
  CmEventType, req_received, rep_received, rej_received, CmCallbacker, cm_handler,
}
use krcore_artifacts.Services.Reliable.{
  Request, ToClient, replied, rejected, RcServer, handle_req, handle_dreq,
}
use krcore_artifacts.Services.Handshake.{EventData, Arrivals, ConnReq, IbCm}

-- `ib_cm_req_event_param` for a request. ib_cm exchanges the resources of the two sides.
abbrev pub request_seen : ConnReq → Request
request_seen req = record {
  private_data = req.private_data;
  remote_qpn = req.qp_num;
  starting_psn = req.starting_psn;
  responder_resources = req.initiator_depth;
  initiator_depth = req.responder_resources;
  flow_control = req.flow_control;
  rnr_retry_count = req.rnr_retry_count;
}

-- The event at the client for a message of the server.
abbrev pub event_of : ToClient → CmEventType × EventData
event_of (replied r) = (
  rep_received,
  record {
    private_data = r.private_data;
    errno = 0;
    remote_qpn = r.qp_num;
    starting_psn = r.starting_psn;
  },
)
event_of (rejected reason) = (
  rej_received,
  record {
    private_data = record { lid = 0; gid = 0 };
    errno = reason;
    remote_qpn = 0;
    starting_psn = 0;
  },
)

-- The messages, the last one first, in the order in which they arrive.
abbrev pub arrivals : List ToClient → Arrivals → Arrivals
arrivals [] es = es
arrivals (m ∷ ms) es = arrivals ms (event_of m ∷ es)

module _ (h : Host) (key : ℕ) where
  abbrev succeeds : Request → Call CmError (RcServer h) (Unit {0})
  succeeds e v = (ok tt, v)

  -- `impl CMCallbacker for ReliableConnectionServer`, for the id at the address `key`, where ib_cm
  -- sends every reply.
  abbrev pub callbacks : CmCallbacker Request (RcServer h)
  callbacks = record {
    handle_req = λ req. handle_req h (λ reply. 0) key req;
    handle_rep = succeeds;
    handle_rtu = succeeds;
    handle_rej = succeeds;
    handle_dreq = λ e. handle_dreq h key;
    handle_sidr_req = succeeds;
    handle_sidr_rep = succeeds;
  }

  unfoldable pub receive_req : ConnReq → RcServer h → RcServer h
  receive_req req v =
      ((cm_handler callbacks req_received (request_seen req)
        (record { has_context = true; context = v })).1
      ).context

  -- A server, as the other end of a client's ib_cm.
  abbrev pub peer : IbCm
  peer = record {
    Far = RcServer h;
    create_cm_id = λ v. (true, v);
    send_req = λ req v. (0, receive_req req v);
    arriving = λ v. (arrivals v.outbox [], record v { outbox = [] });
    timeout = 110;
  }
