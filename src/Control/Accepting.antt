-- ===== src/Control/Accepting.antt =====
-- A connection request on a NIC and an ib_cm that behave as documented.
use krcore_artifacts.Prelude.{
  ℕ, ◌+◌, ◌%◌, ◌^◌, ◌≡◌, refl, inl, inr, true, Bool-cases, some, none, ◌==◌, subst,
}
use krcore_artifacts.Bringup.Device.{rc, IbState, ib_reset, ib_rtr}
use krcore_artifacts.Bringup.Verbs.{FollowsVerbs}
use krcore_artifacts.Manager.{Attempt, ok}
use krcore_artifacts.Control.{
  Config, Rc, Payload, RepParam, replied_nil, Kernel, RCtrl, caught, set_max_send_wr_sz, new_config,
}
use krcore_artifacts.Control.Operations.{
  rc_init_attr, connect_reply, new_with_srq, get_next_in_qp_key,
}
use krcore_artifacts.Control.Handler.{
  req_received, register_conn, accept_conn, rc_conn_callback, cm_handler, deliver, new_id, arrive,
}
use krcore_artifacts.Control.Sound.{key_for, IsSound, Registered}
use krcore_artifacts.Control.Steps.{Arrived, same, renumbered, sent, sent_established}
use krcore_artifacts.Control.Ensures.{write_self, Ensures}
use krcore_artifacts.Control.Safe.{register_conn-Registered}
use krcore_artifacts.Control.Reach.{Reaches, Reaches-IsSound, arrived}
use krcore_artifacts.Control.Rising.{FollowsCm, bring_to_rtr-Moves, bring_to_rts-Moves}

abbrev reply_param : Kernel → Rc → Payload → RepParam
reply_param k q reply = record {
  qp_num = k.device.qp_num q.qp;
  starting_psn = k.device.qp_num q.qp;
  private_data = reply;
}

module _ {k : Kernel} {s : RCtrl k} (id : ℕ) (q : Rc) (owns : q.inner_cm ≡ some id)
    (cm : FollowsCm k id) where
  -- The reply is sent, so that the id is established.
  connect_reply-answers :
      (reply : Payload) (t : RCtrl k)
      → Arrived s id t
      → (u : RCtrl k) × (a : Arrived s id u) × (a.est ≡ true)
        × (caught (connect_reply k q reply t) ≡ (ok (ok tt), u))
  unfolding connect_reply
  connect_reply-answers reply t a =
      let w = (k.send_rep id (reply_param k q reply) t.world).1 in
      let good : ((k.send_rep id (reply_param k q reply) t.world).0 == 0) ≡ true =
        rw (cm.sends (reply_param k q reply) t.world) refl in
      (
        _,
        sent s id {w = w} a,
        sent_established s id t w a,
        rw (owns, a.made) (rw good (rw good refl)),
      )

  register_conn-answers :
      (key : ℕ) (ret : Attempt ℕ (Unit {0})) (t : RCtrl k)
      → Arrived s id t
      → (u : RCtrl k) × (register_conn k q key ret t ≡ (ok ret, u))
  register_conn-answers key ret t a = rw (owns, a.made) (_, refl)

  module _ {state_of : k.device.World → IbState} (nic : FollowsVerbs k.device rc q.qp state_of)
      (v : IsSound s) (free : s.ids id ≡ none) where
    accept_conn-answers :
        (key : ℕ) (reply : Payload) (t : RCtrl k)
        → Arrived s id t
        → state_of t.world ≡ ib_rtr
        → (u : RCtrl k) × (accept_conn k id q key reply t ≡ (ok (ok tt), u))
          × Registered s u id key true q
    unfolding accept_conn
    accept_conn-answers key reply t a at =
        let up = bring_to_rts-Moves cm q nic t at in
        let (t1, a1, on, replies) =
          connect_reply-answers reply (record t { world = up.0 }) (same s id up.0 a) in
        let (u, registers) = register_conn-answers key (ok tt) t1 a1 in
        let kept =
          subst (Ensures (λ r u1. Registered s u1 id key a1.est q) (λ u1. ⊥)) (registers)
            (register_conn-Registered v id free q key (ok tt) t1 owns a1) in
        (u, rw up.1 (rw replies registers), subst (λ e. Registered s u id key e q) on kept)

abbrev pub conn_config : Config
conn_config = set_max_send_wr_sz 256 new_config

abbrev pub rc_on : (id qp cq : ℕ) → Rc
rc_on id qp cq = record { qp = qp; cq = cq; inner_cm = some id }

new_with_srq-makes :
    {k : Kernel} (id : ℕ) (t : RCtrl k) (qp cq : ℕ) (w1 w2 : k.device.World)
    → k.device.create_cq 2048 t.world ≡ (some cq, w1)
    → k.device.create_qp (rc_init_attr k conn_config cq) w1 ≡ (some qp, w2)
    → new_with_srq k conn_config id t ≡ (ok (rc_on id qp cq), record t { world = w2 })
unfolding new_with_srq
new_with_srq-makes id t qp cq w1 w2 e1 e2 = rw e1 (rw e2 refl)

module _ {k : Kernel} {s : RCtrl k} (id : ℕ) where
  get_next_in_qp_key-numbers :
      (qd : ℕ) (t : RCtrl k)
      → Arrived s id t
      → (u : RCtrl k) × (get_next_in_qp_key k qd t ≡ (ok (key_for qd t.free_in_qp_key), u))
        × Arrived s id u
        × (u.world ≡ t.world)
  unfolding get_next_in_qp_key
  get_next_in_qp_key-numbers qd t a = elim (Bool-cases (qd == 0)) [
    | inl e ↦
        let n = (t.free_in_qp_key + 1) % 2 ^ 64 in
        (record t { free_in_qp_key = n }, rw e refl, renumbered s id n a, refl)
    | inr e ↦ (t, rw e refl, a, refl)
  ]

  rc_conn_callback-accepts :
      (qd qp cq : ℕ) (t : RCtrl k) (w1 w2 : k.device.World) {state_of : k.device.World → IbState}
      → Arrived s id t
      → k.device.create_cq 2048 t.world ≡ (some cq, w1)
      → k.device.create_qp (rc_init_attr k conn_config cq) w1 ≡ (some qp, w2)
      → FollowsCm k id
      → FollowsVerbs k.device rc qp state_of
      → state_of w2 ≡ ib_reset
      → (u : RCtrl k) × (Arrived s id u)
        × (rc_conn_callback k id qd t
            ≡ accept_conn k id
                (rc_on id qp cq)
                (key_for qd t.free_in_qp_key)
                (record { qd = qd; mr = k.test_mr; status = replied_nil })
                u)
        × (state_of u.world ≡ ib_rtr)
  unfolding rc_conn_callback
  rc_conn_callback-accepts qd qp cq t w1 w2 a e1 e2 cm nic at =
      let t1 : RCtrl k = record t { world = w2 } in
      let n = get_next_in_qp_key-numbers qd t1 (same s id w2 a) in
      let up = bring_to_rtr-Moves cm (rc_on id qp cq) nic n.0 (rw n.3 at) in
      (
        record n.0 { world = up.0 },
        same s id up.0 n.2,
        rw (new_with_srq-makes id t qp cq w1 w2 e1 e2) (rw n.1 (rw up.1 refl)),
        up.2,
      )

  -- On a NIC and an ib_cm that behave as documented, and where the NIC has a completion queue and a
  -- queue pair left: in every state that a controller reaches, a connection request is accepted, so
  -- that its id is established, and an RC with that queue pair is registered on the id.
  pub deliver-Accepted :
      (qd qp cq : ℕ) (w1 w2 : k.device.World) {state_of : k.device.World → IbState}
      → Reaches k s
      → s.ids id ≡ none
      → k.device.create_cq 2048 s.world ≡ (some cq, w1)
      → k.device.create_qp (rc_init_attr k conn_config cq) w1 ≡ (some qp, w2)
      → FollowsCm k id
      → FollowsVerbs k.device rc qp state_of
      → state_of w2 ≡ ib_reset
      → (t : RCtrl k) × (deliver k (req_received qd) id s ≡ (ok tt, t))
        × Registered s t id (key_for qd s.free_in_qp_key) true (rc_on id qp cq)
  unfolding deliver cm_handler
  deliver-Accepted qd qp cq w1 w2 r free e1 e2 cm nic at =
      let v = Reaches-IsSound r in
      let q = rc_on id qp cq in
      let key = key_for qd s.free_in_qp_key in
      let reply : Payload = record { qd = qd; mr = k.test_mr; status = replied_nil } in
      let up =
        rc_conn_callback-accepts qd qp cq (arrive k (req_received qd) id s) w1 w2
          (arrived v id free) e1 e2 cm nic at in
      let (t, accepts, kept) =
        accept_conn-answers id q refl cm nic v free key reply up.0 up.1 up.3 in
      (t, rw (write_self id (some new_id) s.ids) (rw up.2 (rw accepts refl)), kept)
