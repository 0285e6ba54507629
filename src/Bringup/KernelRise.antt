-- ===== src/Bringup/KernelRise.antt =====
-- Bringing up RC queue pairs of operations_kernel.rs, on a device that behaves as the verbs are
-- documented.
use krcore_artifacts.Prelude.{ℕ, true, ◌≡◌, refl}
use krcore_artifacts.Bringup.Device.{
  rc, IbState, ib_reset, ib_rts, reset, ready_to_send, Device, to_init, to_rtr, to_rts, ok,
  QueuePair, status,
}
use krcore_artifacts.Bringup.Prepared.{
  is_type, modify, rc_init, rc_rtr, rc_init_mask, rc_rtr_mask, rc_rts_mask,
}
use krcore_artifacts.Bringup.Verbs.{FollowsVerbs}
use krcore_artifacts.Bringup.Rise.{three-Moves, status-in}
use krcore_artifacts.Bringup.Kernel.{rc_rts_kernel, bring_up_rc_inner_kernel}

-- What `bring_up_rc_inner` makes of three transitions that succeed.
inner_kernel-moves :
    (d : Device) (qp : QueuePair) (lid gid remote_qpn psn : ℕ) (w w1 w2 w3 : d.World)
    → qp.mode ≡ rc
    → status d qp w ≡ (ok reset, w)
    → modify d qp to_init (rc_init d qp) rc_init_mask w ≡ (ok tt, w1)
    → modify d qp to_rtr (rc_rtr d qp lid gid remote_qpn psn) rc_rtr_mask w1 ≡ (ok tt, w2)
    → modify d qp to_rts (rc_rts_kernel d qp) rc_rts_mask w2 ≡ (ok tt, w3)
    → bring_up_rc_inner_kernel d qp lid gid remote_qpn psn w ≡ (ok tt, w3)
unfolding bring_up_rc_inner_kernel
inner_kernel-moves d qp lid gid remote_qpn psn w w1 w2 w3 mode st e1 e2 e3 =
    let type : is_type qp.mode rc ≡ true = rw mode in rw (type, st, e1, e2, e3)

-- On a device that behaves as documented, an RC queue pair in the state RESET is brought up in the
-- kernel for every remote side, and is then ready to send.
pub inner_kernel-rises :
    (d : Device) (qp : QueuePair) (state_of : d.World → IbState) (lid gid remote_qpn psn : ℕ)
    (w : d.World)
    → qp.mode ≡ rc
    → FollowsVerbs d rc qp.inner_qp state_of
    → state_of w ≡ ib_reset
    → (w' : d.World) × (bring_up_rc_inner_kernel d qp lid gid remote_qpn psn w ≡ (ok tt, w'))
      × (status d qp w' ≡ (ok ready_to_send, w'))
inner_kernel-rises d qp state_of lid gid remote_qpn psn w mode nic at =
    let m =
      three-Moves d rc qp state_of nic to_init to_rtr to_rts (rc_init d qp)
        (rc_rtr d qp lid gid remote_qpn psn) (rc_rts_kernel d qp) rc_init_mask rc_rtr_mask
        rc_rts_mask w at refl refl refl in
    (
      m.w3,
      inner_kernel-moves d qp lid gid remote_qpn psn w m.w1 m.w2 m.w3 mode
          (status-in d rc qp state_of nic ib_reset w at) m.first m.second m.third,
      status-in d rc qp state_of nic ib_rts m.w3 m.risen,
    )
