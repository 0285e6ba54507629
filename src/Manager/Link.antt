-- ===== src/Manager/Link.antt =====
-- handshake_user.rs against services_user: a client's `handshake` with the default connection manager.
use krcore_artifacts.Prelude.{ℕ, ap, ◌≡◌, refl, ◌∙◌, true, some, done, drop, ◌==◌, arith}
use krcore_artifacts.Prelude.Maps.{insert}
use krcore_artifacts.Bringup.Device.{
  rc, IbState, ib_reset, ready_to_send, Result, QueuePair, status,
}
use krcore_artifacts.Bringup.Device
use krcore_artifacts.Bringup.Build.{PreparedQueuePair, build_rc}
use krcore_artifacts.Bringup.Prepared.{is_type, bring_up_rc, bring_up_rc_inner, rc_rts}
use krcore_artifacts.Bringup.Verbs.{FollowsVerbs}
use krcore_artifacts.Bringup.Rise.{bring_up_rc-rises}
use krcore_artifacts.Manager.{reg_rc_req, reg_rc_res, RcConnectionData, Serde, found, Host, ok}
use krcore_artifacts.Manager.Server.{
  Handler, replied, serve, dispatch, then_send, handle_reg_rc_req, register, remote_builder,
  reply_data,
}
use krcore_artifacts.Manager.Line.{line_to, Encodes, take-all, serve-parsed}
use krcore_artifacts.Manager.Client.{
  Client, request_data, handshake, exchange, accept_peer, then_send_sync, receive,
}

module _ (h : Host) (s : Serde) (v : Handler h s) (p : PreparedQueuePair) (peer : RcConnectionData)
    (w1 w2 : h.device.World) (lid gid : ℕ) (req : Encodes s reg_rc_req peer)
    (built : build_rc h.device (remote_builder h s v.port_num) v.world ≡ (Result.ok p, w1))
    (up : bring_up_rc h.device p peer.lid peer.gid peer.qpn peer.starting_psn w1
      ≡ (Result.ok p.inner, w2))
    (lid_found : h.get_port_attr v.port_num w2 ≡ found lid)
    (gid_found : h.query_gid v.port_num 0 w2 ≡ found gid)
    (res : Encodes s reg_rc_res (reply_data h s p.inner peer lid gid (h.new_address w2))) where
  abbrev with_pair : Handler h s
  with_pair = record v {
    world = w2;
    registered_rc = insert (h.new_address w2) p.inner v.registered_rc;
  }

  handle_reg-ok :
      handle_reg_rc_req h s req.text v
      ≡ (ok (record { message_type = reg_rc_res; serialized = res.text }), with_pair)
  unfolding handle_reg_rc_req register
  handle_reg-ok = rw (req.of_text, built, up, lid_found, gid_found, res.to_text)

  serve-replies : serve h s req.bytes v ≡ done (replied res.bytes, with_pair)
  unfolding serve dispatch then_send
  serve-replies =
      serve-parsed h s req.bytes v req.some_bytes (omega (arith, req.fits))
      ∙ rw (req.of_bytes, handle_reg-ok, res.to_bytes)

-- What a handshake of the client's `p` with the server at `addr` leads to, where the server's queue
-- pair is `q`: each side is brought up with the number of the other's queue pair, which is also the
-- sequence number that the other one starts to send at; and the server keeps `q` under the key that
-- the client has.
pub record Linked (hc hs : Host) (s : Serde) (addr : ℕ) (p q : PreparedQueuePair)
    (w1 : hs.device.World) (lid_c gid_c lid_s gid_s : ℕ) (c : Client hc s (line_to hs s addr))
    : Type 0 where
  pub after : Client hc s (line_to hs s addr)
  pub key : ℕ
  pub returns : handshake hc s (line_to hs s addr) p addr c ≡ (
    ok (record p.inner { comm = some (record { qp_type = rc; addr = addr; key = key }) }),
    after,
  )
  pub kept : after.stream.handler.registered_rc ≡ insert key q.inner c.stream.handler.registered_rc
  pub server_up :
      bring_up_rc hs.device q lid_c gid_c
        (hc.device.qp_num p.inner.inner_qp)
        (rc_rts hc.device p.inner).sq_psn
        w1
      ≡ (Result.ok q.inner, after.stream.handler.world)
  pub client_up :
      bring_up_rc hc.device p lid_s gid_s
        (hs.device.qp_num q.inner.inner_qp)
        (rc_rts hs.device q.inner).sq_psn
        c.world
      ≡ (Result.ok p.inner, after.world)
  pub client_ready : status hc.device p.inner after.world ≡ (Result.ok ready_to_send, after.world)
  pub server_ready :
      status hs.device q.inner after.stream.handler.world
      ≡ (Result.ok ready_to_send, after.stream.handler.world)

-- `bring_up_rc` is `bring_up_rc_inner` with the queue pair as its answer.
bring_up_rc-inner :
    (h : Host) (p : PreparedQueuePair) (lid gid qpn psn : ℕ) (w w' : h.device.World)
    → bring_up_rc h.device p lid gid qpn psn w ≡ (Result.ok p.inner, w')
    → bring_up_rc_inner h.device p.inner lid gid qpn psn w ≡ (Result.ok tt, w')
unfolding bring_up_rc
bring_up_rc-inner h p lid gid qpn psn w w' e =
    go (bring_up_rc_inner h.device p.inner lid gid qpn psn w) e
  where
    go :
        (x : Result (Unit {0}) × h.device.World)
        → Device.resume x (λ _. Device.pure p.inner) ≡ (Result.ok p.inner, w')
        → x ≡ (Result.ok tt, w')
    go (Result.ok tt, w1) q = ap (λ y. (Result.ok tt, y.1)) q
    go (Result.err f, w1) q = absurd (cc)

module _ (hc hs : Host) (s : Serde) (addr : ℕ) (p q : PreparedQueuePair)
    (c : Client hc s (line_to hs s addr)) (w1 w2 : hs.device.World)
    (lid_c gid_c lid_s gid_s : ℕ) where
  abbrev ask_data : RcConnectionData
  ask_data = request_data hc s (line_to hs s addr) p lid_c gid_c

  abbrev server : Handler hs s
  server = c.stream.handler

  abbrev answer_data : RcConnectionData
  answer_data = reply_data hs s q.inner ask_data lid_s gid_s (hs.new_address w2)

  module _ (lid_c_found : hc.get_port_attr p.port_num c.world ≡ found lid_c)
      (gid_c_found : hc.query_gid p.port_num 0 c.world ≡ found gid_c)
      (lid_s_found : hs.get_port_attr server.port_num w2 ≡ found lid_s)
      (gid_s_found : hs.query_gid server.port_num 0 w2 ≡ found gid_s)
      (built : build_rc hs.device (remote_builder hs s server.port_num) server.world
        ≡ (Result.ok q, w1))
      (up : bring_up_rc hs.device q lid_c gid_c
          (hc.device.qp_num p.inner.inner_qp)
          (hc.device.qp_num p.inner.inner_qp)
          w1
        ≡ (Result.ok q.inner, w2))
      (req : Encodes s reg_rc_req ask_data) (res : Encodes s reg_rc_res answer_data) where
    abbrev after_request : Client hc s (line_to hs s addr)
    after_request = record c {
      stream = record {
        handler =
            with_pair hs s server q ask_data w1 w2 lid_s gid_s req built up lid_s_found gid_s_found
              res;
        inbox = drop 1024 res.bytes;
      };
    }

    exchange-answers : exchange hc s (line_to hs s addr) p c ≡ (ok answer_data, after_request)
    unfolding exchange then_send_sync receive
    exchange-answers =
        let served =
          serve-replies hs s server q ask_data w1 w2 lid_s gid_s req built up lid_s_found
            gid_s_found res in
        let whole = take-all 1024 res.bytes res.fits in
        rw (
          lid_c_found, gid_c_found, req.to_text, req.to_bytes, served, whole, res.of_bytes,
          res.of_text,
        )

    module _ (wc : hc.device.World) (mode : p.inner.mode ≡ rc)
        (client_up : bring_up_rc hc.device p lid_s gid_s
            (hs.device.qp_num q.inner.inner_qp)
            (hs.device.qp_num q.inner.inner_qp)
            c.world
          ≡ (Result.ok p.inner, wc)) where
      abbrev after_handshake : Client hc s (line_to hs s addr)
      after_handshake = record after_request { world = wc }

      handshake-ok : handshake hc s (line_to hs s addr) p addr c ≡ (
        ok (record p.inner {
          comm = some (record { qp_type = rc; addr = addr; key = hs.new_address w2 });
        }),
        after_handshake,
      )
      unfolding handshake accept_peer
      handshake-ok =
          let type : is_type p.inner.mode rc ≡ true = rw mode in
          let here : (addr == addr) ≡ true = ground arith in
          let inner = bring_up_rc-inner hc p lid_s gid_s _ _ c.world wc client_up in
          rw (type, here, exchange-answers, inner)

-- On two hosts whose devices behave as the verbs are documented, and whose ports and gids can be
-- queried: let the client's RC queue pair `p` be in the state RESET, and let the server be able to
-- build its queue pair `q`, which is then in RESET too. If the JSON of both connection data reads
-- back and fits into 1024 bytes, then `handshake` succeeds, and it links the two: both sides are
-- ready to send, each is brought up with the number of the other's queue pair and the sequence
-- number that the other one sends from, and the server has registered `q` under the key that the
-- client keeps for `dereg`.
pub handshake-Linked :
    (hc hs : Host) (s : Serde) (addr : ℕ) (p q : PreparedQueuePair)
    (c : Client hc s (line_to hs s addr)) (w1 : hs.device.World) (lid_c gid_c lid_s gid_s : ℕ)
    (state_c : hc.device.World → IbState) (state_s : hs.device.World → IbState)
    → p.inner.mode ≡ rc
    → FollowsVerbs hc.device rc p.inner.inner_qp state_c
    → state_c c.world ≡ ib_reset
    → q.inner.mode ≡ rc
    → FollowsVerbs hs.device rc q.inner.inner_qp state_s
    → state_s w1 ≡ ib_reset
    → build_rc hs.device (remote_builder hs s c.stream.handler.port_num) c.stream.handler.world
      ≡ (Result.ok q, w1)
    → hc.get_port_attr p.port_num c.world ≡ found lid_c
    → hc.query_gid p.port_num 0 c.world ≡ found gid_c
    → ((w : hs.device.World) → hs.get_port_attr c.stream.handler.port_num w ≡ found lid_s)
    → ((w : hs.device.World) → hs.query_gid c.stream.handler.port_num 0 w ≡ found gid_s)
    → Encodes s reg_rc_req (request_data hc s (line_to hs s addr) p lid_c gid_c)
    → ((w : hs.device.World)
        → Encodes s reg_rc_res (
            reply_data hs s q.inner
              (request_data hc s (line_to hs s addr) p lid_c gid_c)
              lid_s
              gid_s
              (hs.new_address w)))
    → Linked hc hs s addr p q w1 lid_c gid_c lid_s gid_s c
handshake-Linked hc hs s addr p q c w1 lid_c gid_c lid_s gid_s state_c state_s mode_c nic_c at_c
      mode_s nic_s at_s built lidc gidc lids gids req res =
    let psn_c = hc.device.qp_num p.inner.inner_qp in
    let psn_s = hs.device.qp_num q.inner.inner_qp in
    let (w2, up, ready_s) =
      bring_up_rc-rises hs.device q state_s lid_c gid_c psn_c psn_c w1 mode_s nic_s at_s in
    let (wc, up_c, ready_c) =
      bring_up_rc-rises hc.device p state_c lid_s gid_s psn_s psn_s c.world mode_c nic_c at_c in
    record {
      after =
          after_handshake hc hs s addr p q c w1 w2 lid_c gid_c lid_s gid_s lidc gidc (lids w2)
            (gids w2) built up req (res w2) wc mode_c up_c;
      key = hs.new_address w2;
      returns =
          handshake-ok hc hs s addr p q c w1 w2 lid_c gid_c lid_s gid_s lidc gidc (lids w2)
            (gids w2) built up req (res w2) wc mode_c up_c;
      kept = refl;
      server_up = up;
      client_up = up_c;
      client_ready = ready_c;
      server_ready = ready_s;
    }
