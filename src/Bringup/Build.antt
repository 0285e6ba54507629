-- ===== src/Bringup/Build.antt =====
-- Building a queue pair from its parameters: `build_ud`, `build_rc` and `build_inner` of
-- KRdmaKit/src/queue_pairs/builder.rs, and `CompletionQueue::create` of completion_queue.rs.
use krcore_artifacts.Prelude.{ℕ, Option, none, some}
use krcore_artifacts.Bringup.Builder.{QueuePairBuilder}
use krcore_artifacts.Bringup.Device.{
  QpType, rc, ud, InitAttr, Device, creating_cq, creating_qp, ControlpathError, creation_error,
  Result, ok, err, Try, ◌>>=◌, QueuePair,
}

pub record PreparedQueuePair : Type 0 where
  pub inner : QueuePair
  pub retry_count : ℕ
  pub rnr_retry : ℕ
  pub pkey_index : ℕ
  pub port_num : ℕ
  pub qkey : ℕ

module _ (d : Device) where
  abbrev pub or_error :
      {A B : Type 0} → ControlpathError → (A → B) → Option A × d.World → Result B × d.World
  or_error e f (none, w) = (err e, w)
  or_error e f (some a, w) = (ok (f a), w)

  -- `CompletionQueue::create`
  unfoldable pub create_cq : ℕ → Try d.World ℕ
  create_cq entries w =
      or_error (creation_error creating_cq d.einval) (λ cq. cq) (d.create_cq entries w)

  abbrev pub init_attr : QueuePairBuilder → QpType → ℕ → ℕ → InitAttr
  init_attr b t send recv = record {
    max_send_wr = b.max_send_wr;
    max_recv_wr = b.max_recv_wr;
    max_recv_sge = b.max_recv_sge;
    max_send_sge = b.max_send_sge;
    max_inline_data = b.max_inline_data;
    qp_type = t;
    send_cq = send;
    recv_cq = recv;
  }

  -- `build_inner`, given the pointer to the queue pair that is not null.
  abbrev pub build_inner : QueuePairBuilder → ℕ → ℕ → QpType → ℕ → PreparedQueuePair
  build_inner b send recv t qp = record {
    inner = record {
      inner_qp = qp;
      send_cq = send;
      recv_cq = recv;
      mode = t;
      port_num = b.port_num;
      qkey = b.qkey;
      access = b.access;
      timeout = b.timeout;
      retry_count = b.retry_count;
      rnr_retry = b.rnr_retry;
      max_rd_atomic = b.max_rd_atomic;
      min_rnr_timer = b.min_rnr_timer;
      pkey_index = b.pkey_index;
      path_mtu = b.path_mtu;
      comm = none;
    };
    retry_count = b.retry_count;
    rnr_retry = b.rnr_retry;
    pkey_index = b.pkey_index;
    port_num = b.port_num;
    qkey = b.qkey;
  }

  abbrev pub create : QueuePairBuilder → ℕ → ℕ → QpType → Try d.World PreparedQueuePair
  create b send recv t w =
      or_error (creation_error creating_qp d.eagain) (build_inner b send recv t)
        (d.create_qp (init_attr b t send recv) w)

  -- The body that `build_ud` and `build_rc` share.
  unfoldable pub build : QueuePairBuilder → QpType → Try d.World PreparedQueuePair
  build b t = do
    send ← create_cq b.max_cq_entries
    recv ← create_cq b.max_cq_entries
    create b send recv t

  unfoldable pub build_ud : QueuePairBuilder → Try d.World PreparedQueuePair
  build_ud b = build b ud

  unfoldable pub build_rc : QueuePairBuilder → Try d.World PreparedQueuePair
  build_rc b = build b rc
