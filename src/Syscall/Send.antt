-- ===== src/Syscall/Send.antt =====
-- Posting sends from a virtual queue that is not bound: `rc_push_impl` and `dc_push_impl` of
-- KRdmaKit-syscall/src/virtual_queue.rs.
use krcore_artifacts.Prelude.{none, some, List, [], ◌∷◌, if◌then◌else◌}
use krcore_artifacts.Prelude.Effects.{Eff, pure, lift, expect, ◌>>=◌}
use krcore_artifacts.Syscall.Abi.{Status, err, ok, nil, CoreReq}
use krcore_artifacts.Syscall.Kernel.{Kernel, TempMr}
use krcore_artifacts.Syscall.Queue.{Vq}
use krcore_artifacts.Syscall.Request.{build_push}

module _ (k : Kernel) where
  -- The loop over `req_list` of `rc_push_impl`.
  unfoldable pub rc_push_all : k.Rc → TempMr → List CoreReq → Eff k.World Status
  rc_push_all qp local_mr [] = pure ok
  rc_push_all qp local_mr (req ∷ reqs) = do
    p ← lift (build_push k local_mr (k.rc_remote_mr qp) req.vid req)
    sent ← k.rc_push_with_imm qp p
    if sent then rc_push_all qp local_mr reqs else pure err

  unfoldable pub rc_push_impl : Vq k → List CoreReq → Eff k.World Status
  rc_push_impl v reqs = elim v.virtual_queue [
    | none ↦ pure nil
    | some qp ↦ expect v.local_cache.local_mr >>= λ local_mr. rc_push_all qp local_mr reqs
  ]

  -- The loop over `req_list` of `dc_push_impl`, which passes no immediate value.
  unfoldable pub dc_push_all : k.Dc → TempMr → k.EndPoint → List CoreReq → Eff k.World Status
  dc_push_all dc local_mr point [] = pure ok
  dc_push_all dc local_mr point (req ∷ reqs) = do
    p ← lift (build_push k local_mr (k.endpoint_mr point) 0 req)
    sent ← k.dc_push dc p point
    if sent then dc_push_all dc local_mr point reqs else pure err

  unfoldable pub dc_push_impl : Vq k → List CoreReq → Eff k.World Status
  dc_push_impl v reqs = expect v.local_cache.local_mr >>= λ local_mr. elim v.local_dc [
    | none ↦ pure nil
    | some dc ↦ expect v.local_cache.remote_endpoint >>= λ point. dc_push_all dc local_mr point reqs
  ]
