-- ===== src/Control/Rising.antt =====
-- rc_conn_callback on a NIC and an ib_cm that behave as documented.
use krcore_artifacts.Prelude.{ℕ, ◌≡◌, refl, ◌∙◌, true, List, ◌∷◌}
use krcore_artifacts.Bringup.Device.{
  rc, IbState, ib_reset, ib_init, ib_rtr, ib_rts, Mask, access_flags, rq_psn, max_dest_rd_atomic,
  Attr,
}
use krcore_artifacts.Bringup.Verbs.{accepts, FollowsVerbs}
use krcore_artifacts.Manager.{Attempt, ok}
use krcore_artifacts.Control.{Rc, RepParam, Kernel, RCtrl, Stop}
use krcore_artifacts.Control.Raise.{
  modify_by, for_init, for_rtr, unchanged, bring_to_init, bring_to_rtr, bring_to_rts,
}

-- Documented behaviour of `ib_cm_init_qp_attr`: for a state of an RC queue pair it answers that state,
-- and with what the code adds to its mask all that the transition needs. `ib_send_cm_rep` succeeds on
-- the id.
pub record FollowsCm (k : Kernel) (id : ℕ) : Type 0 where
  pub attr : IbState → k.device.World → Attr
  pub mask : IbState → k.device.World → List Mask
  pub answers :
      (to : IbState) (w : k.device.World) → k.init_qp_attr id to w ≡ (0, attr to w, mask to w)
  pub states : (to : IbState) (w : k.device.World) → (attr to w).qp_state ≡ to
  pub to_init :
      (w : k.device.World) → accepts rc ib_reset ib_init (access_flags ∷ mask ib_init w) ≡ true
  pub to_rtr :
      (w : k.device.World)
      → accepts rc ib_init ib_rtr (rq_psn ∷ max_dest_rd_atomic ∷ mask ib_rtr w) ≡ true
  pub sends : (rep : RepParam) (w : k.device.World) → (k.send_rep id rep w).0 ≡ 0
  pub to_rts : (w : k.device.World) → accepts rc ib_rtr ib_rts (mask ib_rts w) ≡ true

module _ {k : Kernel} {id : ℕ} (cm : FollowsCm k id) (q : Rc) {state_of : k.device.World → IbState}
    (nic : FollowsVerbs k.device rc q.qp state_of) where
  -- One transition.
  modify_by-moves :
      (to : IbState) (edit : Attr → List Mask → Attr × List Mask) (t : RCtrl k)
      → (edit (cm.attr to t.world) (cm.mask to t.world)).0.qp_state ≡ to
      → accepts rc (state_of t.world) to (edit (cm.attr to t.world) (cm.mask to t.world)).1 ≡ true
      → (w : k.device.World) × (modify_by k id q to edit t ≡ (ok tt, record t { world = w }))
        × (state_of w ≡ to)
  modify_by-moves to edit t at good =
      let (a, mask) = edit (cm.attr to t.world) (cm.mask to t.world) in
      let moved = nic.moves a mask t.world (rw at good) in
      (moved.0, rw (cm.answers to t.world) (rw moved.1 refl), moved.2 ∙ at)

  abbrev pub Moves : (RCtrl k → Attempt Stop (Unit {0}) × RCtrl k) → IbState → RCtrl k → Type 0
  Moves call to t =
      (w : k.device.World) × (call t ≡ (ok tt, record t { world = w })) × (state_of w ≡ to)

  bring_to_init-Moves :
      (t : RCtrl k) → state_of t.world ≡ ib_reset → Moves (bring_to_init k id q) ib_init t
  unfolding bring_to_init
  bring_to_init-Moves t at =
      let m =
        modify_by-moves ib_init for_init t (cm.states ib_init t.world)
          (rw at (cm.to_init t.world)) in
      (m.0, rw (nic.queries t.world, at) m.1, m.2)

  pub bring_to_rtr-Moves :
      (t : RCtrl k) → state_of t.world ≡ ib_reset → Moves (bring_to_rtr k id q) ib_rtr t
  unfolding bring_to_rtr
  bring_to_rtr-Moves t at =
      let i = bring_to_init-Moves t at in
      let u : RCtrl k = record t { world = i.0 } in
      let m =
        modify_by-moves ib_rtr (for_rtr k q) u (cm.states ib_rtr i.0) (rw i.2 (cm.to_rtr i.0)) in
      (m.0, rw i.1 (rw (nic.queries i.0, i.2) m.1), m.2)

  pub bring_to_rts-Moves :
      (t : RCtrl k) → state_of t.world ≡ ib_rtr → Moves (bring_to_rts k id q) ib_rts t
  unfolding bring_to_rts
  bring_to_rts-Moves t at =
      let m =
        modify_by-moves ib_rts unchanged t (cm.states ib_rts t.world) (rw at (cm.to_rts t.world)) in
      (m.0, rw (nic.queries t.world, at) m.1, m.2)
