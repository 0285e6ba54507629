-- ===== src/Control/Raise.antt =====
-- Bringing up an RC queue pair with the attributes of ib_cm: bring_to_init, bring_to_rtr and
-- bring_to_rts of KRdmaKit-syscall/two-sided-dc/KRdmaKit/src/qp/rc.rs.
use krcore_artifacts.Prelude.{ℕ, Bool, true, false, some, List, ◌∷◌, ◌==◌, if◌then◌else◌}
use krcore_artifacts.Bringup.Builder.{Access}
use krcore_artifacts.Bringup.Device.{
  IbState, ib_reset, ib_init, ib_rtr, ib_rts, ib_err, Mask, access_flags, rq_psn,
  max_dest_rd_atomic, Attr,
}
use krcore_artifacts.Manager.{ok, err, pure, fail, ◌>>=◌}
use krcore_artifacts.Control.{Rc, Kernel, kernel_error, panics, Ctl}

abbrev pub is_low : IbState → Bool
is_low ib_reset = true
is_low ib_err = true
is_low _ = false

abbrev pub is_init : IbState → Bool
is_init ib_init = true
is_init _ = false

abbrev pub is_rtr : IbState → Bool
is_rtr ib_rtr = true
is_rtr _ = false

abbrev every_access : Access
every_access = record {
  local_write = true;
  remote_write = true;
  remote_read = true;
  remote_atomic = true;
}

abbrev pub for_init : Attr → List Mask → Attr × List Mask
for_init a mask = (record a { access = some every_access }, access_flags ∷ mask)

abbrev pub unchanged : Attr → List Mask → Attr × List Mask
unchanged a mask = (a, mask)

module _ (k : Kernel) where
  -- `get_status().unwrap()`
  abbrev pub status_of_rc : Rc → Ctl k IbState
  status_of_rc q s =
      let (ret, st) = k.device.query_qp q.qp s.world in
      if ret == 0 then (ok st, s) else (err panics, s)

  abbrev pub returned : ℕ → Ctl k (Unit {0})
  returned ret = if ret == 0 then pure tt else fail (kernel_error ret)

  abbrev pub modify_rc : Rc → Attr → List Mask → Ctl k (Unit {0})
  modify_rc q a mask s =
      let (ret, w) = k.device.modify_qp q.qp a mask s.world in returned ret (record s { world = w })

  -- `ib_cm_init_qp_attr` for a state, then `ib_modify_qp` with what `edit` makes of its answer.
  abbrev pub modify_by : ℕ → Rc → IbState → (Attr → List Mask → Attr × List Mask) → Ctl k (Unit {0})
  modify_by cm q to edit s =
      let (ret, a, mask) = k.init_qp_attr cm to s.world in
      let (a1, mask1) = edit a mask in (returned ret >>= λ _. modify_rc q a1 mask1) s

  abbrev pub for_rtr : Rc → Attr → List Mask → Attr × List Mask
  for_rtr q a mask = (
    record a { rq_psn = k.device.qp_num q.qp; max_dest_rd_atomic = 16 },
    rq_psn ∷ max_dest_rd_atomic ∷ mask,
  )

  unfoldable pub bring_to_init : ℕ → Rc → Ctl k (Unit {0})
  bring_to_init cm q =
      status_of_rc q >>= λ st. if is_low st then modify_by cm q ib_init for_init else pure tt

  unfoldable pub bring_to_rtr : ℕ → Rc → Ctl k (Unit {0})
  bring_to_rtr cm q = do
    _ ← bring_to_init cm q
    st ← status_of_rc q
    if is_init st then modify_by cm q ib_rtr (for_rtr q) else pure tt

  unfoldable pub bring_to_rts : ℕ → Rc → Ctl k (Unit {0})
  bring_to_rts cm q =
      status_of_rc q >>= λ st. if is_rtr st then modify_by cm q ib_rts unchanged else pure tt
