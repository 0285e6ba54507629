-- ===== src/Bringup/Builder.antt =====
-- `QueuePairBuilder` of KRdmaKit/src/queue_pairs/builder.rs: the parameters of a queue pair.
use krcore_artifacts.Prelude.{ℕ, Bool, true, false}

-- `ib_access_flags`, as far as they are set here.
pub record Access : Type 0 where
  pub local_write : Bool
  pub remote_write : Bool
  pub remote_read : Bool
  pub remote_atomic : Bool

-- `ib_mtu`
pub data Mtu : Type 0 where
  mtu_256 mtu_512 mtu_1024 mtu_2048 mtu_4096 : Mtu

-- `MAX_RD_ATOMIC` of lib.rs
abbrev pub max_rd_atomic_default : ℕ
max_rd_atomic_default = 16

-- Without its context, which is the device that the operations are given.
pub record QueuePairBuilder : Type 0 where
  pub max_send_wr : ℕ
  pub max_recv_wr : ℕ
  pub max_cq_entries : ℕ
  pub max_send_sge : ℕ
  pub max_recv_sge : ℕ
  pub max_inline_data : ℕ
  pub access : Access
  pub path_mtu : Mtu
  pub timeout : ℕ
  pub retry_count : ℕ
  pub rnr_retry : ℕ
  pub min_rnr_timer : ℕ
  pub max_rd_atomic : ℕ
  pub pkey_index : ℕ
  pub port_num : ℕ
  pub qkey : ℕ

-- `QueuePairBuilder::new`
abbrev pub new_builder : QueuePairBuilder
new_builder = record {
  max_send_wr = 128;
  max_recv_wr = 2048;
  max_cq_entries = 128;
  max_send_sge = 1;
  max_recv_sge = 1;
  max_inline_data = 64;
  access = record {
    local_write = true;
    remote_write = false;
    remote_read = false;
    remote_atomic = false;
  };
  path_mtu = mtu_4096;
  timeout = 20;
  retry_count = 7;
  rnr_retry = 7;
  min_rnr_timer = 20;
  max_rd_atomic = max_rd_atomic_default;
  pkey_index = 0;
  port_num = 1;
  qkey = 73;
}

abbrev pub set_max_send_wr : QueuePairBuilder → ℕ → QueuePairBuilder
set_max_send_wr b v = record b { max_send_wr = v }

abbrev pub set_max_recv_wr : QueuePairBuilder → ℕ → QueuePairBuilder
set_max_recv_wr b v = record b { max_recv_wr = v }

abbrev pub set_max_cq_entries : QueuePairBuilder → ℕ → QueuePairBuilder
set_max_cq_entries b v = record b { max_cq_entries = v }

abbrev pub set_max_send_sge : QueuePairBuilder → ℕ → QueuePairBuilder
set_max_send_sge b v = record b { max_send_sge = v }

abbrev pub set_max_recv_sge : QueuePairBuilder → ℕ → QueuePairBuilder
set_max_recv_sge b v = record b { max_recv_sge = v }

abbrev pub set_max_inline_data : QueuePairBuilder → ℕ → QueuePairBuilder
set_max_inline_data b v = record b { max_inline_data = v }

abbrev pub set_access : QueuePairBuilder → Access → QueuePairBuilder
set_access b v = record b { access = v }

abbrev pub set_path_mtu : QueuePairBuilder → Mtu → QueuePairBuilder
set_path_mtu b v = record b { path_mtu = v }

abbrev pub set_timeout : QueuePairBuilder → ℕ → QueuePairBuilder
set_timeout b v = record b { timeout = v }

abbrev pub set_retry_count : QueuePairBuilder → ℕ → QueuePairBuilder
set_retry_count b v = record b { retry_count = v }

abbrev pub set_rnr_retry : QueuePairBuilder → ℕ → QueuePairBuilder
set_rnr_retry b v = record b { rnr_retry = v }

abbrev pub set_min_rnr_timer : QueuePairBuilder → ℕ → QueuePairBuilder
set_min_rnr_timer b v = record b { min_rnr_timer = v }

abbrev pub set_max_rd_atomic : QueuePairBuilder → ℕ → QueuePairBuilder
set_max_rd_atomic b v = record b { max_rd_atomic = v }

abbrev pub set_pkey_index : QueuePairBuilder → ℕ → QueuePairBuilder
set_pkey_index b v = record b { pkey_index = v }

abbrev pub set_port_num : QueuePairBuilder → ℕ → QueuePairBuilder
set_port_num b v = record b { port_num = v }

abbrev pub set_qkey : QueuePairBuilder → ℕ → QueuePairBuilder
set_qkey b v = record b { qkey = v }

abbrev pub allow_remote_rw : QueuePairBuilder → QueuePairBuilder
allow_remote_rw b = record b {
  access = record b.access { remote_write = true; remote_read = true };
}

abbrev pub allow_remote_atomic : QueuePairBuilder → QueuePairBuilder
allow_remote_atomic b = record b { access = record b.access { remote_atomic = true } }
