-- ===== src/Syscall/Connect.antt =====
-- Connecting a virtual queue: `connect_impl` and `explore_path` of
-- KRdmaKit-syscall/src/virtual_queue.rs and `qp_connect` of core.rs, without the feature `dct_qp`.
use krcore_artifacts.Prelude.{
  ℕ, ◌+◌, ◌-◌, ◌%◌, ◌^◌, Option, none, some, List, if◌then◌else◌, is_some, ltb,
}
use krcore_artifacts.Prelude.Effects.{Eff, pure, look, expect, ◌>>=◌}
use krcore_artifacts.Syscall.Abi.{Status, err, ok, already_connected, addr_error, max_service_num}
use krcore_artifacts.Syscall.Kernel.{Kernel, get_global_rctrl}
use krcore_artifacts.Syscall.Queue.{Vq, get_path_rec_cache, update_path_rec_cache}

-- `x as usize` of an `i32`, given by its bits.
abbrev pub as_usize : ℕ → ℕ
as_usize x = if ltb x (2 ^ 31) then x else 2 ^ 64 - 2 ^ 32 + x

-- `(conn.port % MAX_SERVICE_NUM as i32) as usize`: the remainder has the sign of the port.
abbrev pub service_id : ℕ → ℕ
service_id port =
    if ltb port (2 ^ 31)
    then port % max_service_num
    else (2 ^ 64 - (2 ^ 32 - port) % max_service_num) % 2 ^ 64

module _ (k : Kernel) where
  -- An exploration that fails panics, by `unwrap`.
  unfoldable pub explore_path : Vq k → ℕ → List ℕ → Eff k.World (k.PathRec × Vq k)
  explore_path v port addr = elim (get_path_rec_cache v.local_cache.path_rec_cache addr) [
    | some p ↦ pure (p, v)
    | none ↦ do
      found ← k.explore_path (get_global_rctrl k port) addr port
      p ← expect found
      pure (p, update_path_rec_cache v addr p)
  ]

  -- `Err` is `none`, and `Ok` of no queue pair is `some none`.
  unfoldable pub qp_connect : ℕ → ℕ → k.PathRec → Eff k.World (Option (Option k.Rc))
  qp_connect vid port path = do
    rc ← k.new_rc (get_global_rctrl k port)
    elim rc [
      | none ↦ pure (some none)
      | some qp ↦ do
        qp' ← k.rc_connect qp vid path port
        elim qp' [ none ↦ pure none | some q ↦ pure (some (some q)) ]
    ]

  -- The queue with the state that is set before the connection is tried.
  unfoldable pub prepare : Vq k → ℕ → k.World → Vq k
  prepare v port w =
      let ctrl = get_global_rctrl k port in
      let v' = record v {
        local_cache = record v.local_cache {
          local_mr = some (record {
            addr = (k.self_test_mr ctrl).addr;
            capacity = k.max_kmalloc_sz;
            key = k.ctx_lkey ctrl;
          });
        };
        local_connect_port = some port;
      } in
      if is_some v.local_dc
      then v'
      else record v' { local_dc = k.get_dc ctrl w; local_ud = k.get_ud ctrl w }

  -- The `match` on the result of `qp_connect`.
  unfoldable pub connected : Vq k → Option (Option k.Rc) → Status × Vq k
  connected v none = (err, v)
  connected v (some qp) = (ok, record v { virtual_queue = qp })

  -- `connect_impl` from the exploration on.
  unfoldable pub connect_prepared : List ℕ → ℕ → ℕ → Vq k → Eff k.World (Status × Vq k)
  connect_prepared addr port vid v = do
    (path, v') ← explore_path v port addr
    res ← qp_connect vid port path
    pure (connected v' res)

  unfoldable pub connect_impl : Vq k → List ℕ → ℕ → ℕ → Eff k.World (Status × Vq k)
  connect_impl v addr port vid =
      if is_some v.virtual_queue
      then pure (already_connected, v)
      else if k.parse_guid addr
      then (look (prepare v port) >>= connect_prepared addr port vid)
      else pure (addr_error, v)
