-- ===== src/Bringup/Rise.antt =====
-- Bringing up queue pairs of builder.rs and operations_user.rs, on a device that behaves as the
-- verbs are documented, and what happens on any device.
use krcore_artifacts.Prelude.{ℕ, true, false, ◌≡◌, refl, ◌∙◌, List}
use krcore_artifacts.Bringup.Device.{
  QpType, rc, ud, IbState, ib_reset, ib_rtr, ib_rts, QueuePairStatus, reset, ready_to_send, Mask,
  Attr, Device, What, to_init, to_rtr, to_rts, ok, QueuePair, status, status_of,
}
use krcore_artifacts.Bringup.Build.{PreparedQueuePair}
use krcore_artifacts.Bringup.Prepared.{
  is_type, is_reset, modify, rc_init, rc_rtr, rc_rts, rc_init_mask, rc_rtr_mask, rc_rts_mask,
  ud_init, ud_rts, ud_init_mask, ud_rtr_mask, ud_rts_mask, default_attr, bring_up_ud, bring_up_rc,
  bring_up_rc_inner,
}
use krcore_artifacts.Bringup.Verbs.{accepts, FollowsVerbs}

module _ (d : Device) (t : QpType) (qp : QueuePair) (state_of : d.World → IbState)
    (nic : FollowsVerbs d t qp.inner_qp state_of) where
  status-query : (w : d.World) → status d qp w ≡ (ok (status_of (state_of w)), w)
  unfolding status
  status-query w = rw (nic.queries w)

  modify-moves :
      (what : What) (a : Attr) (mask : List Mask) (s : IbState) (w : d.World)
      → state_of w ≡ s
      → accepts t s a.qp_state mask ≡ true
      → (w' : d.World) × (modify d qp what a mask w ≡ (ok tt, w')) × (state_of w' ≡ a.qp_state)
  unfolding modify
  modify-moves what a mask s w at good =
      let (w', e, at') = nic.moves a mask w (rw at good) in (w', rw e, at')

  -- Three transitions in a row.
  pub record Moves (x1 x2 x3 : What) (a1 a2 a3 : Attr) (m1 m2 m3 : List Mask) (w : d.World)
      : Type 0 where
    pub w1 : d.World
    pub w2 : d.World
    pub w3 : d.World
    pub first : modify d qp x1 a1 m1 w ≡ (ok tt, w1)
    pub second : modify d qp x2 a2 m2 w1 ≡ (ok tt, w2)
    pub third : modify d qp x3 a3 m3 w2 ≡ (ok tt, w3)
    pub risen : state_of w3 ≡ a3.qp_state

  pub three-Moves :
      (x1 x2 x3 : What) (a1 a2 a3 : Attr) (m1 m2 m3 : List Mask) (w : d.World)
      → state_of w ≡ ib_reset
      → accepts t ib_reset a1.qp_state m1 ≡ true
      → accepts t a1.qp_state a2.qp_state m2 ≡ true
      → accepts t a2.qp_state a3.qp_state m3 ≡ true
      → Moves x1 x2 x3 a1 a2 a3 m1 m2 m3 w
  three-Moves x1 x2 x3 a1 a2 a3 m1 m2 m3 w at g1 g2 g3 =
      let (w1, e1, at1) = modify-moves x1 a1 m1 ib_reset w at g1 in
      let (w2, e2, at2) = modify-moves x2 a2 m2 a1.qp_state w1 at1 g2 in
      let (w3, e3, at3) = modify-moves x3 a3 m3 a2.qp_state w2 at2 g3 in
      record { w1 = w1; w2 = w2; w3 = w3; first = e1; second = e2; third = e3; risen = at3 }

  pub status-in :
      (s : IbState) (w : d.World) → state_of w ≡ s → status d qp w ≡ (ok (status_of s), w)
  status-in s w at = status-query w ∙ rw at

-- What `bring_up_rc` makes of three transitions that succeed.
bring_up_rc-moves :
    (d : Device) (p : PreparedQueuePair) (lid gid remote_qpn psn : ℕ) (w w1 w2 w3 : d.World)
    → p.inner.mode ≡ rc
    → status d p.inner w ≡ (ok reset, w)
    → modify d p.inner to_init (rc_init d p.inner) rc_init_mask w ≡ (ok tt, w1)
    → modify d p.inner to_rtr (rc_rtr d p.inner lid gid remote_qpn psn) rc_rtr_mask w1 ≡ (ok tt, w2)
    → modify d p.inner to_rts (rc_rts d p.inner) rc_rts_mask w2 ≡ (ok tt, w3)
    → bring_up_rc d p lid gid remote_qpn psn w ≡ (ok p.inner, w3)
unfolding bring_up_rc bring_up_rc_inner
bring_up_rc-moves d p lid gid remote_qpn psn w w1 w2 w3 mode st e1 e2 e3 =
    let type : is_type p.inner.mode rc ≡ true = rw mode in rw (type, st, e1, e2, e3)

bring_up_ud-moves :
    (d : Device) (p : PreparedQueuePair) (w w1 w2 w3 : d.World)
    → p.inner.mode ≡ ud
    → status d p.inner w ≡ (ok reset, w)
    → modify d p.inner to_init (ud_init d p) ud_init_mask w ≡ (ok tt, w1)
    → modify d p.inner to_rtr (default_attr ib_rtr) ud_rtr_mask w1 ≡ (ok tt, w2)
    → modify d p.inner to_rts (ud_rts d p) ud_rts_mask w2 ≡ (ok tt, w3)
    → bring_up_ud d p w ≡ (ok p.inner, w3)
unfolding bring_up_ud
bring_up_ud-moves d p w w1 w2 w3 mode st e1 e2 e3 =
    let type : is_type p.inner.mode ud ≡ true = rw mode in rw (type, st, e1, e2, e3)

-- On a device that behaves as documented, `bring_up_rc` of an RC queue pair in the state RESET
-- succeeds for every remote side, and leaves the queue pair ready to send.
pub bring_up_rc-rises :
    (d : Device) (p : PreparedQueuePair) (state_of : d.World → IbState) (lid gid remote_qpn psn : ℕ)
    (w : d.World)
    → p.inner.mode ≡ rc
    → FollowsVerbs d rc p.inner.inner_qp state_of
    → state_of w ≡ ib_reset
    → (w' : d.World) × (bring_up_rc d p lid gid remote_qpn psn w ≡ (ok p.inner, w'))
      × (status d p.inner w' ≡ (ok ready_to_send, w'))
bring_up_rc-rises d p state_of lid gid remote_qpn psn w mode nic at =
    let qp = p.inner in
    let m =
      three-Moves d rc qp state_of nic to_init to_rtr to_rts (rc_init d qp)
        (rc_rtr d qp lid gid remote_qpn psn) (rc_rts d qp) rc_init_mask rc_rtr_mask rc_rts_mask w at
        refl refl refl in
    let begins = status-in d rc qp state_of nic ib_reset w at in
    (
      m.w3,
      bring_up_rc-moves d p lid gid remote_qpn psn w m.w1 m.w2 m.w3 mode begins m.first m.second
          m.third,
      status-in d rc qp state_of nic ib_rts m.w3 m.risen,
    )

-- On a device that behaves as documented, `bring_up_ud` of a UD queue pair in the state RESET
-- succeeds, and leaves the queue pair ready to send.
pub bring_up_ud-rises :
    (d : Device) (p : PreparedQueuePair) (state_of : d.World → IbState) (w : d.World)
    → p.inner.mode ≡ ud
    → FollowsVerbs d ud p.inner.inner_qp state_of
    → state_of w ≡ ib_reset
    → (w' : d.World) × (bring_up_ud d p w ≡ (ok p.inner, w'))
      × (status d p.inner w' ≡ (ok ready_to_send, w'))
bring_up_ud-rises d p state_of w mode nic at =
    let qp = p.inner in
    let m =
      three-Moves d ud qp state_of nic to_init to_rtr to_rts (ud_init d p) (default_attr ib_rtr)
        (ud_rts d p) ud_init_mask ud_rtr_mask ud_rts_mask w at refl refl refl in
    let begins = status-in d ud qp state_of nic ib_reset w at in
    (
      m.w3,
      bring_up_ud-moves d p w m.w1 m.w2 m.w3 mode begins m.first m.second m.third,
      status-in d ud qp state_of nic ib_rts m.w3 m.risen,
    )

-- On any device, if the status is not `Reset`, then `bring_up_rc` of an RC queue pair answers the
-- queue pair as brought up without a transition, also from the status `Error`.
pub bring_up_rc-skips :
    (d : Device) (p : PreparedQueuePair) (s : QueuePairStatus) (lid gid remote_qpn psn : ℕ)
    (w : d.World)
    → p.inner.mode ≡ rc
    → status d p.inner w ≡ (ok s, w)
    → is_reset s ≡ false
    → bring_up_rc d p lid gid remote_qpn psn w ≡ (ok p.inner, w)
unfolding bring_up_rc bring_up_rc_inner
bring_up_rc-skips d p s lid gid remote_qpn psn w mode st other =
    let type : is_type p.inner.mode rc ≡ true = rw mode in rw (type, st, other)
