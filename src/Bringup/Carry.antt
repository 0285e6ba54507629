-- ===== src/Bringup/Carry.antt =====
-- From the builder of builder.rs to the attributes that the device is given.
use krcore_artifacts.Prelude.{ℕ, ◌≡◌, refl, sym, ap, Option, none, some, arith}
use krcore_artifacts.Bringup.Builder.{QueuePairBuilder}
use krcore_artifacts.Bringup.Device.{
  QpType, rc, ud, ib_init, ib_rtr, ib_rts, Device, type_check, ControlpathError, creation_error,
  Result, ok, err, Try, resume,
}
use krcore_artifacts.Bringup.Build.{
  PreparedQueuePair, or_error, create_cq, build_inner, build, build_ud, build_rc,
}
use krcore_artifacts.Bringup.Prepared.{
  default_attr, rc_init, rc_rtr, rc_rts, bring_up_rc, bring_up_rc_inner,
}

-- The result, if the call succeeded.
abbrev result : {A W : Type 0} → Result A × W → Option A
result (ok a, w) = some a
result (err e, w) = none

resume-ok :
    {A B W : Type 0} (x : Result A × W) (f : A → Try W B) (b : B) (w' : W)
    → resume x f ≡ (ok b, w')
    → (a : A) × (w : W) × (f a w ≡ (ok b, w'))
resume-ok (ok a, w) f b w' e = (a, w, e)
resume-ok (err c, w) f b w' e = ground (arith, ap result e)

or_error-ok :
    (d : Device) {A B : Type 0} (c : ControlpathError) (f : A → B) (x : Option A × d.World) (b : B)
    (w' : d.World)
    → or_error d c f x ≡ (ok b, w')
    → (a : A) × (f a ≡ b)
or_error-ok d c f (none, w) b w' e = ground (arith, ap result e)
or_error-ok d c f (some a, w) b w' e = (a, ground (arith, ap result e))

module _ (d : Device) (b : QueuePairBuilder) where
  build-ok :
      (t : QpType) (p : PreparedQueuePair) (w w' : d.World)
      → build d b t w ≡ (ok p, w')
      → (send : ℕ) × (recv : ℕ) × (qp : ℕ) × (build_inner d b send recv t qp ≡ p)
  unfolding build
  build-ok t p w w' e =
      let (send, w1, e1) = resume-ok (create_cq d b.max_cq_entries w) _ p w' e in
      let (recv, w2, e2) = resume-ok (create_cq d b.max_cq_entries w1) _ p w' e1 in
      let (qp, e3) = or_error-ok d _ _ _ p w' e2 in (send, recv, qp, e3)

  -- If `build_rc` succeeds, then the attributes of the three transitions by which the queue pair is
  -- brought up have the builder's settings: partition key, port and access of the first, path MTU,
  -- atomics and timer of the second, timeout, retries and atomics of the third.
  pub build_rc-carries :
      (p : PreparedQueuePair) (lid gid remote_qpn psn : ℕ) (w w' : d.World)
      → build_rc d b w ≡ (ok p, w')
      → (rc_init d p.inner ≡ record (default_attr ib_init) {
        pkey_index = b.pkey_index;
        port_num = b.port_num;
        access = some b.access;
      })
        × (rc_rtr d p.inner lid gid remote_qpn psn ≡ record (default_attr ib_rtr) {
          path_mtu = some b.path_mtu;
          dest_qp_num = remote_qpn;
          rq_psn = psn;
          max_dest_rd_atomic = b.max_rd_atomic;
          min_rnr_timer = b.min_rnr_timer;
          av_port_num = b.port_num;
          remote = some (record { dlid = lid; gid = gid; hop_limit = 255 });
        })
        × (rc_rts d p.inner ≡ record (default_attr ib_rts) {
          timeout = b.timeout;
          retry_cnt = b.retry_count;
          rnr_retry = b.rnr_retry;
          sq_psn = d.qp_num p.inner.inner_qp;
          max_rd_atomic = b.max_rd_atomic;
          max_dest_rd_atomic = b.max_rd_atomic;
        })
  unfolding build_rc
  build_rc-carries p lid gid remote_qpn psn w w' e =
      let (send, recv, qp, same) = build-ok rc p w w' e in rw (sym same) (refl, refl, refl)

  -- A queue pair that `build_ud` built is refused by `bring_up_rc`, with the error of the type check
  -- and without a call of the device.
  pub build_ud-type :
      (p : PreparedQueuePair) (lid gid remote_qpn psn : ℕ) (w w' : d.World)
      → build_ud d b w ≡ (ok p, w')
      → (w1 : d.World)
      → bring_up_rc d p lid gid remote_qpn psn w1 ≡ (err (creation_error type_check 0), w1)
  unfolding build_ud bring_up_rc bring_up_rc_inner
  build_ud-type p lid gid remote_qpn psn w w' e w1 =
      let (send, recv, qp, same) = build-ok ud p w w' e in rw (sym same)
