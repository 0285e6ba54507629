-- ===== src/Bringup/Kernel.antt =====
-- `bring_up_rc_inner` of KRdmaKit/src/queue_pairs/operations_kernel.rs, against the version for user
-- space.
use krcore_artifacts.Prelude.{ℕ, ◌≡◌, refl, ap, inl, inr, Bool-cases, if◌then◌else◌}
use krcore_artifacts.Bringup.Device.{
  rc, Attr, Device, type_check, to_init, to_rtr, to_rts, creation_error, Result, Try, pure, fail,
  resume, ◌>>=◌, QueuePair, ib_rts, status,
}
use krcore_artifacts.Bringup.Build.{PreparedQueuePair}
use krcore_artifacts.Bringup.Prepared.{
  is_type, is_reset, default_attr, modify, rc_init, rc_rtr, rc_rts, rc_init_mask, rc_rtr_mask,
  rc_rts_mask, bring_up_rc, bring_up_rc_inner,
}

module _ (d : Device) where
  -- The kernel leaves `max_dest_rd_atomic` at its default here.
  abbrev pub rc_rts_kernel : QueuePair → Attr
  rc_rts_kernel qp = record (default_attr ib_rts) {
    timeout = qp.timeout;
    retry_cnt = qp.retry_count;
    rnr_retry = qp.rnr_retry;
    sq_psn = d.qp_num qp.inner_qp;
    max_rd_atomic = qp.max_rd_atomic;
  }

  unfoldable pub bring_up_rc_inner_kernel : QueuePair → ℕ → ℕ → ℕ → ℕ → Try d.World (Unit {0})
  bring_up_rc_inner_kernel qp lid gid remote_qpn psn =
      if is_type qp.mode rc
      then (status d qp >>= λ qp_status.
          if is_reset qp_status
          then (do
            _ ← modify d qp to_init (rc_init d qp) rc_init_mask
            _ ← modify d qp to_rtr (rc_rtr d qp lid gid remote_qpn psn) rc_rtr_mask
            modify d qp to_rts (rc_rts_kernel qp) rc_rts_mask)
          else pure tt)
      else fail (creation_error type_check 0)

  unfoldable pub bring_up_rc_kernel : PreparedQueuePair → ℕ → ℕ → ℕ → ℕ → Try d.World QueuePair
  bring_up_rc_kernel p lid gid remote_qpn psn =
      bring_up_rc_inner_kernel p.inner lid gid remote_qpn psn >>= λ _. pure p.inner

  resume-ext :
      {A B : Type 0} (x : Result A × d.World) (f g : A → Try d.World B)
      → ((a : A) (w : d.World) → f a w ≡ g a w)
      → resume x f ≡ resume x g
  resume-ext (Result.ok a, w) f g same = same a w
  resume-ext (Result.err e, w) f g same = refl

  -- Documented behaviour of `ibv_modify_qp`: an attribute that the mask does not name is not read.
  abbrev pub IgnoresUnnamed : QueuePair → Type 0
  IgnoresUnnamed qp =
      (n : ℕ) (a : Attr) (w : d.World)
      → d.modify_qp qp.inner_qp (record a { max_dest_rd_atomic = n }) rc_rts_mask w
        ≡ d.modify_qp qp.inner_qp a rc_rts_mask w

  modify-rts :
      (qp : QueuePair) (w : d.World)
      → IgnoresUnnamed qp
      → modify d qp to_rts (rc_rts_kernel qp) rc_rts_mask w
        ≡ modify d qp to_rts (rc_rts d qp) rc_rts_mask w
  unfolding modify
  modify-rts qp w nic = rw (nic qp.max_rd_atomic (rc_rts_kernel qp) w) refl

  three-same :
      (qp : QueuePair) (lid gid remote_qpn psn : ℕ) (w : d.World)
      → IgnoresUnnamed qp
      → bring_up_rc_inner_kernel qp lid gid remote_qpn psn w
        ≡ bring_up_rc_inner d qp lid gid remote_qpn psn w
  unfolding bring_up_rc_inner_kernel bring_up_rc_inner
  three-same qp lid gid remote_qpn psn w nic = elim (Bool-cases (is_type qp.mode rc)) [
    | inl e ↦
        rw (e, bring_up_rc_inner_kernel, bring_up_rc_inner)
          (resume-ext (status d qp w) _ _ (λ s w1. elim (Bool-cases (is_reset s)) [
            | inl e1 ↦ rw e1 (
                resume-ext (modify d qp to_init (rc_init d qp) rc_init_mask w1) _ _ (λ u w2.
                  resume-ext
                    (modify d qp to_rtr (rc_rtr d qp lid gid remote_qpn psn) rc_rtr_mask w2) _ _
                    (λ u3 w3. modify-rts qp w3 nic)))
            | inr e1 ↦ rw e1 refl
          ]))
    | inr e ↦ rw (e, bring_up_rc_inner_kernel, bring_up_rc_inner) refl
  ]

  -- On a device that reads only the attributes that the mask names, bringing up an RC queue pair in the
  -- kernel does the same as in user space, for every queue pair and every remote side.
  pub bring_up_rc_kernel-user :
      (p : PreparedQueuePair) (lid gid remote_qpn psn : ℕ) (w : d.World)
      → IgnoresUnnamed p.inner
      → bring_up_rc_kernel p lid gid remote_qpn psn w ≡ bring_up_rc d p lid gid remote_qpn psn w
  unfolding bring_up_rc_kernel bring_up_rc
  bring_up_rc_kernel-user p lid gid remote_qpn psn w nic =
      ap (λ x. resume x (λ _. pure p.inner)) (three-same p.inner lid gid remote_qpn psn w nic)
