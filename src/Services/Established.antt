-- ===== src/Services/Established.antt =====
-- The kernel's handshake with a ReliableConnectionServer: handshake_kernel.rs and callbacks.rs against
-- services/rc.rs.
use krcore_artifacts.Prelude.{[], ◌%◌, ◌^◌, ℕ, ◌+◌, ◌≡◌, refl, ap, true, ◌∷◌, ◌∙◌}
use krcore_artifacts.Prelude.Maps.{insert}
use krcore_artifacts.Bringup.Device.{
  rc, IbState, ib_reset, ready_to_send, Device, Result, QueuePair, status,
}
use krcore_artifacts.Bringup.Build.{PreparedQueuePair, build_rc}
use krcore_artifacts.Bringup.Prepared.{is_type}
use krcore_artifacts.Bringup.Verbs.{FollowsVerbs}
use krcore_artifacts.Bringup.Kernel.{rc_rts_kernel, bring_up_rc_inner_kernel, bring_up_rc_kernel}
use krcore_artifacts.Bringup.KernelRise.{inner_kernel-rises}
use krcore_artifacts.Manager.{found, Host, ok}
use krcore_artifacts.Services.{CmId, cm_handler, handled}
use krcore_artifacts.Services.Handshake
use krcore_artifacts.Services.Reliable.{
  ConnectionData, Request, Reply, replied, RcServer, new_data, server_builder, reply_for, finish,
  handle_req,
}
use krcore_artifacts.Services.Handshake.{
  RcComm, Local, deliver, waited, wait, ConnReq, Connection, Client, handle_rep, request,
  connect_rc, handshake,
}
use krcore_artifacts.Services.Peer.{request_seen, event_of, arrivals, callbacks, receive_req, peer}

-- What a handshake of the client's `p` leads to, where the server's queue pair is `q`, built in the
-- state `w1` of its device: each side is brought up with the number of the other's queue pair, which is
-- also the sequence number that the other one starts to send at; the client has been signalled once and
-- has sent one RTU; and the server keeps `q` under the id's address.
pub record Established (hc hs : Host) (key : ℕ) (p q : PreparedQueuePair) (sid path : ℕ)
    (w1 : hs.device.World) (lid_c gid_c lid_s gid_s : ℕ) (c : Client hc (peer hs key))
    : Type 0 where
  pub after : Client hc (peer hs key)
  pub returns : handshake hc (peer hs key) p sid path c ≡ (
    ok (record { qp = p.inner; rc_comm = record { completed = 1; rtus = 1 }; has_context = true }),
    after,
  )
  pub kept : after.far.registered_rc ≡ insert key q.inner c.far.registered_rc
  pub server_up :
      bring_up_rc_kernel hs.device q
        (lid_c % 2 ^ 16)
        gid_c
        (hc.device.qp_num p.inner.inner_qp)
        (rc_rts_kernel hc.device p.inner).sq_psn
        w1
      ≡ (Result.ok q.inner, after.far.world)
  pub client_up :
      bring_up_rc_inner_kernel hc.device p.inner
        (lid_s % 2 ^ 16)
        gid_s
        (hs.device.qp_num q.inner.inner_qp)
        (rc_rts_kernel hs.device q.inner).sq_psn
        c.world
      ≡ (Result.ok tt, after.world)
  pub client_ready : status hc.device p.inner after.world ≡ (Result.ok ready_to_send, after.world)
  pub server_ready :
      status hs.device q.inner after.far.world ≡ (Result.ok ready_to_send, after.far.world)

-- The server's side of a request that succeeds.
module _ (h : Host) (key : ℕ) (v : RcServer h) (q : PreparedQueuePair) (req : ConnReq)
    (w1 w2 : h.device.World) (lid gid : ℕ) where
  abbrev seen : Request
  seen = request_seen req

  abbrev answered : RcServer h
  answered = record v {
    world = w2;
    registered_rc = insert key q.inner v.registered_rc;
    outbox =
        replied (reply_for h seen q.inner (record { lid = lid % 2 ^ 16; gid = gid })) ∷ v.outbox;
  }

  module _
      (built : build_rc h.device (server_builder h seen v.port_num) v.world ≡ (Result.ok q, w1))
      (up : bring_up_rc_kernel h.device q req.private_data.lid req.private_data.gid req.qp_num
          req.starting_psn w1
        ≡ (Result.ok q.inner, w2))
      (lids : h.get_port_attr q.inner.port_num w2 ≡ found lid)
      (gids : h.query_gid q.inner.port_num 0 w2 ≡ found gid) where
    handle_req-answers : handle_req h (λ reply. 0) key seen v ≡ (ok tt, answered)
    unfolding handle_req finish new_data
    handle_req-answers = rw (built, up, lids, gids)

    receive_req-answers : receive_req h key req v ≡ answered
    unfolding receive_req cm_handler
    receive_req-answers = ap (λ x. ((handled (callbacks h key) x).1).context) handle_req-answers

-- The client's callback for a reply, with the queue pair brought up.
handle_rep-ok :
    (h : Host) (qp : QueuePair) (peer : ConnectionData) (qpn psn : ℕ) (w w' : h.device.World)
    (comm : RcComm)
    → bring_up_rc_inner_kernel h.device qp peer.lid peer.gid qpn psn w ≡ (Result.ok tt, w')
    → handle_rep h qp
        (record { private_data = peer; errno = 0; remote_qpn = qpn; starting_psn = psn })
        (record { world = w; rc_comm = comm })
      ≡ (
        ok tt,
        record {
          world = w';
          rc_comm = record { completed = comm.completed + 1; rtus = comm.rtus + 1 };
        },
      )
unfolding handle_rep
handle_rep-ok h qp peer qpn psn w w' comm up = rw up

-- The client's side, with the server's answer.
module _ (hc hs : Host) (key : ℕ) (p : PreparedQueuePair) (sid path : ℕ)
    (c : Client hc (peer hs key)) (lid gid : ℕ) (v : RcServer hs) (r : Reply)
    (wc : hc.device.World) where
  abbrev req : ConnReq
  req = request hc (peer hs key) p sid path (record { lid = lid % 2 ^ 16; gid = gid })

  abbrev after_handshake : Client hc (peer hs key)
  after_handshake = record { world = wc; far = record v { outbox = [] } }

  abbrev connection : Connection
  connection = record {
    qp = p.inner;
    rc_comm = record { completed = 1; rtus = 1 };
    has_context = true;
  }

  abbrev at_rest : CmId (Local hc)
  at_rest = record {
    has_context = true;
    context = record { world = c.world; rc_comm = record { completed = 0; rtus = 0 } };
  }

  abbrev brought_up : CmId (Local hc)
  brought_up = record {
    has_context = true;
    context = record { world = wc; rc_comm = record { completed = 1; rtus = 1 } };
  }

  delivered :
      bring_up_rc_inner_kernel hc.device p.inner r.private_data.lid r.private_data.gid r.qp_num
          r.starting_psn c.world
        ≡ (Result.ok tt, wc)
      → deliver hc p.inner (event_of (replied r) ∷ []) at_rest ≡ brought_up
  unfolding cm_handler
  delivered up =
      ap (λ x. (handled (Handshake.callbacks hc p.inner) x).1)
        (handle_rep-ok hc p.inner r.private_data r.qp_num r.starting_psn c.world wc
          (record { completed = 0; rtus = 0 }) up)

  wait-ok :
      arrivals v.outbox [] ≡ event_of (replied r) ∷ []
      → bring_up_rc_inner_kernel hc.device p.inner r.private_data.lid r.private_data.gid r.qp_num
          r.starting_psn c.world
        ≡ (Result.ok tt, wc)
      → wait hc (peer hs key) p.inner (record { world = c.world; far = v })
        ≡ (ok brought_up, after_handshake)
  unfolding wait
  wait-ok sent up =
      ap (λ es. waited hc (peer hs key) (deliver hc p.inner es at_rest) (record v { outbox = [] }))
        sent
      ∙ ap (λ id. waited hc (peer hs key) id (record v { outbox = [] })) (delivered up)

  handshake-ok :
      p.inner.mode ≡ rc
      → hc.get_port_attr p.inner.port_num c.world ≡ found lid
      → hc.query_gid p.inner.port_num 0 c.world ≡ found gid
      → receive_req hs key req c.far ≡ v
      → arrivals v.outbox [] ≡ event_of (replied r) ∷ []
      → bring_up_rc_inner_kernel hc.device p.inner r.private_data.lid r.private_data.gid r.qp_num
          r.starting_psn c.world
        ≡ (Result.ok tt, wc)
      → status hc.device p.inner wc ≡ (Result.ok ready_to_send, wc)
      → handshake hc (peer hs key) p sid path c ≡ (ok connection, after_handshake)
  unfolding handshake connect_rc new_data
  handshake-ok mode lids gids received sent up ready =
      let type : is_type p.inner.mode rc ≡ true = rw mode in
      rw (type, lids, gids, received, wait-ok sent up, ready)

bring_up_rc_kernel-inner :
    (d : Device) (p : PreparedQueuePair) (lid gid qpn psn : ℕ) (w w' : d.World)
    → bring_up_rc_inner_kernel d p.inner lid gid qpn psn w ≡ (Result.ok tt, w')
    → bring_up_rc_kernel d p lid gid qpn psn w ≡ (Result.ok p.inner, w')
unfolding bring_up_rc_kernel
bring_up_rc_kernel-inner d p lid gid qpn psn w w' e = rw e

-- On two hosts whose devices behave as the verbs are documented, and whose ports and gids can be
-- queried: let the client's RC queue pair `p` be in the state RESET, and let the server, with no message
-- under way, be able to build its queue pair `q`, which is then in RESET too. Then the kernel's
-- `handshake` with it succeeds and establishes the connection: both sides are ready to send, each is
-- brought up with the number of the other's queue pair and the sequence number that the other one sends
-- from, and the server has registered `q` under the address of its id.
pub handshake-Established :
    (hc hs : Host) (key : ℕ) (p q : PreparedQueuePair) (sid path : ℕ) (c : Client hc (peer hs key))
    (w1 : hs.device.World) (lid_c gid_c lid_s gid_s : ℕ) (state_c : hc.device.World → IbState)
    (state_s : hs.device.World → IbState)
    → p.inner.mode ≡ rc
    → FollowsVerbs hc.device rc p.inner.inner_qp state_c
    → state_c c.world ≡ ib_reset
    → q.inner.mode ≡ rc
    → FollowsVerbs hs.device rc q.inner.inner_qp state_s
    → state_s w1 ≡ ib_reset
    → build_rc hs.device
        (server_builder hs
          (request_seen
            (request hc (peer hs key) p sid path (record { lid = lid_c % 2 ^ 16; gid = gid_c })))
          c.far.port_num)
        c.far.world
      ≡ (Result.ok q, w1)
    → hc.get_port_attr p.inner.port_num c.world ≡ found lid_c
    → hc.query_gid p.inner.port_num 0 c.world ≡ found gid_c
    → ((w : hs.device.World) → hs.get_port_attr q.inner.port_num w ≡ found lid_s)
    → ((w : hs.device.World) → hs.query_gid q.inner.port_num 0 w ≡ found gid_s)
    → c.far.outbox ≡ []
    → Established hc hs key p q sid path w1 lid_c gid_c lid_s gid_s c
handshake-Established hc hs key p q sid path c w1 lid_c gid_c lid_s gid_s state_c state_s mode_c
      nic_c at_c mode_s nic_s at_s built lidc gidc lids gids none_sent =
    let psn_c = hc.device.qp_num p.inner.inner_qp in
    let psn_s = hs.device.qp_num q.inner.inner_qp in
    let (w2, up, ready_s) =
      inner_kernel-rises hs.device q.inner state_s (lid_c % 2 ^ 16) gid_c psn_c psn_c w1 mode_s
        nic_s at_s in
    let (wc, up_c, ready_c) =
      inner_kernel-rises hc.device p.inner state_c (lid_s % 2 ^ 16) gid_s psn_s psn_s c.world mode_c
        nic_c at_c in
    let req = request hc (peer hs key) p sid path (record { lid = lid_c % 2 ^ 16; gid = gid_c }) in
    let v = answered hs key c.far q req w1 w2 lid_s gid_s in
    let r =
      reply_for hs (request_seen req) q.inner (record { lid = lid_s % 2 ^ 16; gid = gid_s }) in
    let server_up =
      bring_up_rc_kernel-inner hs.device q (lid_c % 2 ^ 16) gid_c psn_c psn_c w1 w2 up in
    record {
      after = after_handshake hc hs key p sid path c lid_c gid_c v r wc;
      returns =
          handshake-ok hc hs key p sid path c lid_c gid_c v r wc mode_c lidc gidc
            (receive_req-answers hs key c.far q req w1 w2 lid_s gid_s built server_up (lids w2)
              (gids w2))
            (ap (λ ms. arrivals (replied r ∷ ms) []) none_sent) up_c ready_c;
      kept = refl;
      server_up = server_up;
      client_up = up_c;
      client_ready = ready_c;
      server_ready = ready_s;
    }
