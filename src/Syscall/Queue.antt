-- ===== src/Syscall/Queue.antt =====
-- The state of a virtual queue: `VQ` of KRdmaKit-syscall/src/virtual_queue.rs and `LocalCache` of
-- core.rs, in the default configuration (the Cargo features `KRdmaKit` and `virtual_queue`), which
-- keeps no DCT metadata. A hash map is an association list, its newest entry first.
use krcore_artifacts.Prelude.{
  done, panic, ℕ, Bool, true, false, ◌&&◌, Option, none, some, List, [], ◌∷◌, ◌==◌, if◌then◌else◌,
  is_some,
}
use krcore_artifacts.Prelude.Effects.{Eff, expect}
use krcore_artifacts.Syscall.Kernel.{Kernel, TempMr, get_bind_ctrl}

pub record LocalCache (k : Kernel) : Type 0 where
  pub path_rec_cache : List (List ℕ × k.PathRec)
  pub local_mr : Option TempMr
  pub cached_client_endpoint : List (ℕ × k.EndPoint)
  pub remote_endpoint : Option k.EndPoint

pub record Vq (k : Kernel) : Type 0 where
  pub virtual_queue : Option k.Rc
  pub local_dc : Option k.Dc
  pub local_ud : Option k.Ud
  pub local_cache : LocalCache k
  pub bind_port : Option ℕ
  pub local_connect_port : Option ℕ
  pub put_ud_info : Bool

-- `LocalCache::default`
abbrev pub default_cache : (k : Kernel) → LocalCache k
default_cache k = record {
  path_rec_cache = [];
  local_mr =
      some (record { addr = k.test_mem_pa; capacity = k.max_kmalloc_sz; key = k.global_lkey });
  cached_client_endpoint = [];
  remote_endpoint = none;
}

-- `VQ::open`
abbrev pub open_vq : (k : Kernel) → Vq k
open_vq k = record {
  virtual_queue = none;
  local_dc = none;
  local_ud = none;
  local_cache = default_cache k;
  bind_port = none;
  local_connect_port = none;
  put_ud_info = false;
}

abbrev pub is_bind_mode : {k : Kernel} → Vq k → Bool
is_bind_mode v = is_some v.bind_port

abbrev pub is_rc_connected : {k : Kernel} → Vq k → Bool
is_rc_connected v = is_some v.virtual_queue

-- `get_ud`
abbrev pub get_ud : {k : Kernel} → Vq k → Eff k.World k.Ud
get_ud v = expect v.local_ud

-- `check_bind`, by `get_bind_ctrl`
abbrev pub check_bind : {k : Kernel} → Vq k → ℕ → k.World → Bool
check_bind {k} v vid w = elim v.bind_port [
  | none ↦ false
  | some port ↦ is_some (k.get_trc (get_bind_ctrl k port) vid w)
]

-- `get_bind_ctrl_unsafe`
abbrev pub get_bind_ctrl_unsafe : {k : Kernel} → Vq k → Eff k.World ℕ
get_bind_ctrl_unsafe {k} v w = elim v.bind_port [
  | none ↦ panic
  | some port ↦ done (get_bind_ctrl k port, w)
]

-- Equality of two strings, as lists of bytes.
abbrev pub same_string : List ℕ → List ℕ → Bool
same_string [] [] = true
same_string [] (y ∷ ys) = false
same_string (x ∷ xs) [] = false
same_string (x ∷ xs) (y ∷ ys) = (x == y) && same_string xs ys

abbrev pub get_path_rec_cache : {A : Type 0} → List (List ℕ × A) → List ℕ → Option A
get_path_rec_cache [] key = none
get_path_rec_cache ((key', v) ∷ m) key =
    let rest = get_path_rec_cache m key in if same_string key' key then some v else rest

abbrev pub get_client_endpoint_cache : {A : Type 0} → List (ℕ × A) → ℕ → Option A
get_client_endpoint_cache [] vid = none
get_client_endpoint_cache ((vid', p) ∷ m) vid =
    let rest = get_client_endpoint_cache m vid in if vid' == vid then some p else rest

abbrev pub update_path_rec_cache : {k : Kernel} → Vq k → List ℕ → k.PathRec → Vq k
update_path_rec_cache v key p = record v {
  local_cache = record v.local_cache { path_rec_cache = (key, p) ∷ v.local_cache.path_rec_cache };
}

-- The endpoint at address `point` is copied, with the protection domain of controller `ctrl`.
abbrev pub update_client_endpoint_cache : {k : Kernel} → Vq k → ℕ → k.EndPoint → Vq k
update_client_endpoint_cache v vid p = record v {
  local_cache = record v.local_cache {
    cached_client_endpoint = (vid, p) ∷ v.local_cache.cached_client_endpoint;
  };
}
