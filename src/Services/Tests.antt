-- ===== src/Services/Tests.antt =====
-- An id of the connection manager whose callback fails, a service with two queue pairs, and the
-- theorems applied there.
use krcore_artifacts.Prelude.{[], false, ℕ, ◌≡◌, refl, true, none, some, List, ◌∷◌, if◌then◌else◌}
use krcore_artifacts.Bringup.Builder.{new_builder}
use krcore_artifacts.Bringup.Device.{rc, IbState, ib_reset, ib_err, Device, Result}
use krcore_artifacts.Bringup.Build.{PreparedQueuePair, build_inner, build_rc, build, create_cq}
use krcore_artifacts.Bringup.Verbs.{accepts, FollowsVerbs}
use krcore_artifacts.Manager.{found, Host, Attempt, ok, err}
use krcore_artifacts.Manager.Server.{CmError, creation}
use krcore_artifacts.Services.Reliable.{
  Request, Reply, replied, rejected, RcServer, server_builder, reply_for, handle_req, handle_dreq,
}
use krcore_artifacts.Services.Requests.{After, handle_req-After, handle_dreq-handle_req}
use krcore_artifacts.Services.{req_received, dreq_received, CmCallbacker, cm_handler, explicit_drop}
use krcore_artifacts.Services.Lifetime.{Happening, event, dropped, Life, happens, history}
use krcore_artifacts.Services.Handshake.{ConnReq, IbCm, Client, request, handshake}
use krcore_artifacts.Services.Peer.{request_seen, event_of, peer}
use krcore_artifacts.Services.Established.{Established, handshake-Established}
use krcore_artifacts.Services.Outcomes.{Honest, handshake-Honest}

abbrev succeeds : ℕ → ℕ → Attempt CmError (Unit {0}) × ℕ
succeeds e s = (ok tt, s)

-- Only requests fail.
abbrev callbacks : CmCallbacker ℕ ℕ
callbacks = record {
  handle_req = λ e s. (err (creation 0), s);
  handle_rep = succeeds;
  handle_rtu = succeeds;
  handle_rej = succeeds;
  handle_dreq = succeeds;
  handle_sidr_req = succeeds;
  handle_sidr_rep = succeeds;
}

abbrev story : List (Happening ℕ)
story = event dreq_received 1 ∷ event req_received 2 ∷ dropped false ∷ []

abbrev born : Life ℕ
born = record { id = record { has_context = true; context = 5 }; destroyed = 0 }

-- The failed request has destroyed it, and its wrapper does not do so again.
destroyed-once : (history callbacks story born).destroyed ≡ 1
unfolding history happens cm_handler explicit_drop
destroyed-once = refl

-- A device whose world is the state of its queue pair.
abbrev pub nic : Device
nic = record {
  World = IbState;
  create_cq = λ entries w. (some 1, w);
  create_qp = λ attr w. (some 7, ib_reset);
  qp_num = λ qp. qp;
  destroy_qp = λ qp w. ib_err;
  query_qp = λ qp w. (0, w);
  modify_qp = λ qp a mask w. if accepts rc w a.qp_state mask then (0, a.qp_state) else (22, w);
  eagain = 11;
  einval = 22;
}

abbrev pub host : Host
host = record {
  device = nic;
  get_port_attr = λ port w. found 3;
  query_gid = λ port i w. found 9;
  new_address = λ w. 4096;
}

abbrev server : RcServer host
server = record { registered_rc = []; port_num = 1; world = ib_reset; outbox = [] }

abbrev asked : Request
asked = record {
  private_data = record { lid = 2; gid = 8 };
  remote_qpn = 40;
  starting_psn = 40;
  responder_resources = 16;
  initiator_depth = 16;
  flow_control = 1;
  rnr_retry_count = 6;
}

-- ib_cm fails to send the reply.
handle_req-After_example : After host 4096 server (handle_req host (λ reply. 5) 4096 asked server)
handle_req-After_example = handle_req-After host 4096 server (λ reply. 5) asked

handle_dreq-handle_req_example :
    ((handle_dreq host 4096 ((handle_req host (λ reply. 0) 4096 asked server).1)).1).registered_rc
    ≡ []
handle_dreq-handle_req_example = handle_dreq-handle_req host 4096 server (λ reply. 0) asked refl

-- A client's queue pair, with what it asks for, and the queue pair that the server builds for it.
abbrev caller : PreparedQueuePair
caller = build_inner nic new_builder 1 2 rc 30

abbrev client : Client host (peer host 4096)
client = record { world = ib_reset; far = server }

abbrev call : ConnReq
call = request host (peer host 4096) caller 5 6 (record { lid = 3; gid = 9 })

abbrev served : PreparedQueuePair
served = build_inner nic (server_builder host (request_seen call) 1) 1 1 rc 7

served-built :
    build_rc nic (server_builder host (request_seen call) 1) ib_reset ≡ (Result.ok served, ib_reset)
unfolding build_rc build create_cq
served-built = refl

nic-FollowsVerbs : (qp : ℕ) → FollowsVerbs nic rc qp (λ w. w)
nic-FollowsVerbs qp = record {
  queries = λ w. refl;
  moves = λ a mask w good. (a.qp_state, rw good, refl);
}

handshake-Established_example : Established host host 4096 caller served 5 6 ib_reset 3 9 3 9 client
handshake-Established_example =
    handshake-Established host host 4096 caller served 5 6 client ib_reset 3 9 3 9 (λ w. w) (λ w. w)
      refl (nic-FollowsVerbs 30) refl refl (nic-FollowsVerbs 7) refl served-built refl refl
      (λ w. refl) (λ w. refl) refl

-- A host whose device has no queue pair left.
abbrev full_host : Host
full_host = record {
  device = record {
    World = IbState;
    create_cq = λ entries w. (some 1, w);
    create_qp = λ attr w. (none, w);
    qp_num = λ qp. qp;
    destroy_qp = λ qp w. ib_err;
    query_qp = λ qp w. (0, w);
    modify_qp = λ qp a mask w. (0, a.qp_state);
    eagain = 11;
    einval = 22;
  };
  get_port_attr = λ port w. found 3;
  query_gid = λ port i w. found 9;
  new_address = λ w. 4096;
}

abbrev full_server : RcServer full_host
full_server = record { registered_rc = []; port_num = 1; world = ib_reset; outbox = [] }

abbrev answer : Reply
answer = reply_for host (request_seen call) served.inner (record { lid = 3; gid = 9 })

-- An ib_cm where a reply is followed by a rejection.
abbrev odd_cm : IbCm
odd_cm = record {
  Far = Unit {0};
  create_cm_id = λ f. (true, f);
  send_req = λ req f. (0, f);
  arriving = λ f. (event_of (replied answer) ∷ event_of (rejected 3) ∷ [], f);
  timeout = 110;
}

handshake-Honest_example :
    Honest host odd_cm caller
      (handshake host odd_cm caller 5 6 (record { world = ib_reset; far = tt }))
handshake-Honest_example =
    handshake-Honest host odd_cm caller 5 6 (record { world = ib_reset; far = tt })
