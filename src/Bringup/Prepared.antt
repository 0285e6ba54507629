-- ===== src/Bringup/Prepared.antt =====
-- Bringing a queue pair up: `PreparedQueuePair` of KRdmaKit/src/queue_pairs/builder.rs, and
-- `bring_up_rc_inner` of operations_user.rs.
use krcore_artifacts.Prelude.{ℕ, Bool, true, false, none, some, List, [], ◌∷◌, ◌==◌, if◌then◌else◌}
use krcore_artifacts.Bringup.Device.{
  QpType, rc, ud, wc, dc, IbState, ib_init, ib_rtr, ib_rts, QueuePairStatus, reset, init,
  ready_to_recv, Mask, state, pkey_index, port, access_flags, qkey, dc_key, av, path_mtu, dest_qpn,
  rq_psn, max_dest_rd_atomic, min_rnr_timer, timeout, retry_cnt, rnr_retry, sq_psn,
  max_qp_rd_atomic, Attr, Device, What, type_check, to_init, to_rtr, to_rts, creation_error, ok,
  err, Try, pure, fail, ◌>>=◌, QueuePair, status,
}
use krcore_artifacts.Bringup.Build.{PreparedQueuePair}

abbrev pub is_type : QpType → QpType → Bool
is_type rc rc = true
is_type ud ud = true
is_type wc wc = true
is_type dc dc = true
is_type _ _ = false

abbrev pub is_reset : QueuePairStatus → Bool
is_reset reset = true
is_reset _ = false

abbrev pub is_init : QueuePairStatus → Bool
is_init init = true
is_init _ = false

abbrev pub is_ready_to_recv : QueuePairStatus → Bool
is_ready_to_recv ready_to_recv = true
is_ready_to_recv _ = false

-- `ib_qp_attr` with a state, and the rest as `Default::default()`.
abbrev pub default_attr : IbState → Attr
default_attr s = record {
  qp_state = s;
  pkey_index = 0;
  port_num = 0;
  qkey = 0;
  access = none;
  path_mtu = none;
  dest_qp_num = 0;
  rq_psn = 0;
  max_dest_rd_atomic = 0;
  min_rnr_timer = 0;
  av_port_num = 0;
  remote = none;
  timeout = 0;
  retry_cnt = 0;
  rnr_retry = 0;
  sq_psn = 0;
  max_rd_atomic = 0;
}

-- The attributes of each transition.
abbrev pub ud_init_mask : List Mask
ud_init_mask = state ∷ pkey_index ∷ port ∷ qkey ∷ []

abbrev pub ud_rtr_mask : List Mask
ud_rtr_mask = state ∷ []

abbrev pub ud_rts_mask : List Mask
ud_rts_mask = state ∷ sq_psn ∷ []

abbrev pub rc_init_mask : List Mask
rc_init_mask = state ∷ pkey_index ∷ port ∷ access_flags ∷ []

abbrev pub rc_rtr_mask : List Mask
rc_rtr_mask = state ∷ av ∷ path_mtu ∷ dest_qpn ∷ rq_psn ∷ max_dest_rd_atomic ∷ min_rnr_timer ∷ []

abbrev pub rc_rts_mask : List Mask
rc_rts_mask = state ∷ timeout ∷ retry_cnt ∷ rnr_retry ∷ sq_psn ∷ max_qp_rd_atomic ∷ []

module _ (d : Device) where
  -- `ib_modify_qp` and the check of its return code.
  unfoldable pub modify : QueuePair → What → Attr → List Mask → Try d.World (Unit {0})
  modify qp what attr mask w =
      let (ret, w') = d.modify_qp qp.inner_qp attr mask w in
      if ret == 0 then (ok tt, w') else (err (creation_error what ret), w')

  abbrev pub ud_init : PreparedQueuePair → Attr
  ud_init p = record (default_attr ib_init) {
    pkey_index = p.pkey_index;
    port_num = p.port_num;
    qkey = p.qkey;
  }

  abbrev pub ud_rts : PreparedQueuePair → Attr
  ud_rts p = record (default_attr ib_rts) { sq_psn = d.qp_num p.inner.inner_qp }

  unfoldable pub bring_up_ud : PreparedQueuePair → Try d.World QueuePair
  bring_up_ud p =
      if is_type p.inner.mode ud
      then (status d p.inner >>= λ qp_status.
          if is_reset qp_status
          then (do
            _ ← modify p.inner to_init (ud_init p) ud_init_mask
            _ ← modify p.inner to_rtr (default_attr ib_rtr) ud_rtr_mask
            _ ← modify p.inner to_rts (ud_rts p) ud_rts_mask
            pure p.inner)
          else pure p.inner)
      else fail (creation_error type_check 0)

  abbrev pub rc_init : QueuePair → Attr
  rc_init qp = record (default_attr ib_init) {
    pkey_index = qp.pkey_index;
    port_num = qp.port_num;
    access = some qp.access;
  }

  abbrev pub rc_rtr : QueuePair → ℕ → ℕ → ℕ → ℕ → Attr
  rc_rtr qp lid gid remote_qpn psn = record (default_attr ib_rtr) {
    path_mtu = some qp.path_mtu;
    dest_qp_num = remote_qpn;
    rq_psn = psn;
    max_dest_rd_atomic = qp.max_rd_atomic;
    min_rnr_timer = qp.min_rnr_timer;
    av_port_num = qp.port_num;
    remote = some (record { dlid = lid; gid = gid; hop_limit = 255 });
  }

  abbrev pub rc_rts : QueuePair → Attr
  rc_rts qp = record (default_attr ib_rts) {
    timeout = qp.timeout;
    retry_cnt = qp.retry_count;
    rnr_retry = qp.rnr_retry;
    sq_psn = d.qp_num qp.inner_qp;
    max_rd_atomic = qp.max_rd_atomic;
    max_dest_rd_atomic = qp.max_rd_atomic;
  }

  unfoldable pub bring_up_rc_inner : QueuePair → ℕ → ℕ → ℕ → ℕ → Try d.World (Unit {0})
  bring_up_rc_inner qp lid gid remote_qpn psn =
      if is_type qp.mode rc
      then (status d qp >>= λ qp_status.
          if is_reset qp_status
          then (do
            _ ← modify qp to_init (rc_init qp) rc_init_mask
            _ ← modify qp to_rtr (rc_rtr qp lid gid remote_qpn psn) rc_rtr_mask
            modify qp to_rts (rc_rts qp) rc_rts_mask)
          else pure tt)
      else fail (creation_error type_check 0)

  unfoldable pub bring_up_rc : PreparedQueuePair → ℕ → ℕ → ℕ → ℕ → Try d.World QueuePair
  bring_up_rc p lid gid remote_qpn psn =
      bring_up_rc_inner p.inner lid gid remote_qpn psn >>= λ _. pure p.inner

  abbrev pub dc_init : PreparedQueuePair → Attr
  dc_init p = record (default_attr ib_init) { pkey_index = p.pkey_index; port_num = p.port_num }

  abbrev pub dc_rtr : PreparedQueuePair → Attr
  dc_rtr p = record (default_attr ib_rtr) {
    path_mtu = some p.inner.path_mtu;
    av_port_num = p.port_num;
  }

  abbrev pub dc_rts : PreparedQueuePair → Attr
  dc_rts p = record (default_attr ib_rts) {
    timeout = p.inner.timeout;
    retry_cnt = p.retry_count;
    rnr_retry = p.rnr_retry;
    max_rd_atomic = p.inner.max_rd_atomic;
  }

  -- One step of `bring_up_dc`: it is made if the status is the one before it.
  unfoldable pub dc_step :
      PreparedQueuePair
      → (QueuePairStatus → Bool)
      → What
      → Attr
      → List Mask
      → Try d.World (Unit {0})
  dc_step p before what attr mask = status d p.inner >>= λ qp_status.
      if before qp_status then modify p.inner what attr mask else pure tt

  unfoldable pub bring_up_dc : PreparedQueuePair → Try d.World QueuePair
  bring_up_dc p =
      if is_type p.inner.mode dc
      then (do
        _ ← dc_step p is_reset to_init (dc_init p) (state ∷ pkey_index ∷ port ∷ dc_key ∷ [])
        _ ← dc_step p is_init to_rtr (dc_rtr p) (state ∷ path_mtu ∷ av ∷ [])
        _ ←
            dc_step p is_ready_to_recv to_rts (dc_rts p)
              (state ∷ timeout ∷ retry_cnt ∷ rnr_retry ∷ max_qp_rd_atomic ∷ [])
        pure p.inner)
      else fail (creation_error type_check 0)
