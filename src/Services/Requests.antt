-- ===== src/Services/Requests.antt =====
-- services/rc.rs: which queue pairs are registered after a request, and after its disconnection.
use krcore_artifacts.Prelude.{◌%◌, ◌^◌, ℕ, ◌≡◌, refl, ◌∙◌, ap, inl, inr, Bool-cases, ◌==◌}
use krcore_artifacts.Prelude.Maps.{insert, remove, count, keys, remove-insert, remove-absent}
use krcore_artifacts.Bringup.Device.{QueuePair, Result, Try}
use krcore_artifacts.Bringup.Build.{build_rc}
use krcore_artifacts.Bringup.Kernel.{bring_up_rc_kernel}
use krcore_artifacts.Manager.{Answer, found, failed, Host, Attempt, ok, err, Call, resume, ◌>>=◌}
use krcore_artifacts.Manager.Server.{CmError, creation, callback_error, send_error, invalid_arg}
use krcore_artifacts.Services.Reliable.{
  ConnectionData, Request, Reply, RcServer, or_reject, on_device, or_errno, new_data, with_world,
  on_world, server_builder, reply_for, finish, handle_req, handle_dreq,
}

module _ (h : Host) (key : ℕ) (v : RcServer h) where
  -- A queue pair is registered under the key, and the others are as in `v`.
  abbrev pub Stored : RcServer h → Type 0
  Stored v1 = (qp : QueuePair) × (v1.registered_rc ≡ insert key qp v.registered_rc)

  abbrev pub AfterError : CmError → RcServer h → Type 0
  AfterError (send_error n) v1 = Stored v1
  AfterError _ v1 = v1.registered_rc ≡ v.registered_rc

  -- A request that succeeds, or fails to send its reply, has registered a queue pair; one that fails
  -- otherwise has changed nothing.
  abbrev pub After : Attempt CmError (Unit {0}) × RcServer h → Type 0
  After (ok u, v1) = Stored v1
  After (err e, v1) = AfterError e v1

  -- A step before the registration.
  abbrev Early : {A : Type 0} → Attempt CmError A × RcServer h → Type 0
  Early (ok a, v1) = v1.registered_rc ≡ v.registered_rc
  Early (err e, v1) = AfterError e v1

  After-resume :
      {A : Type 0} (x : Attempt CmError A × RcServer h)
      (f : A → Call CmError (RcServer h) (Unit {0}))
      → Early x
      → ((a : A) (v1 : RcServer h) → v1.registered_rc ≡ v.registered_rc → After (f a v1))
      → After (resume x f)
  After-resume (ok a, v1) f e k = k a v1 e
  After-resume (err c, v1) f e k = e

  Early-resume :
      {A B : Type 0} (x : Attempt CmError A × RcServer h) (f : A → Call CmError (RcServer h) B)
      → Early x
      → ((a : A) (v1 : RcServer h) → v1.registered_rc ≡ v.registered_rc → Early (f a v1))
      → Early (resume x f)
  Early-resume (ok a, v1) f e k = k a v1 e
  Early-resume (err c, v1) f e k = e

  on_device-Early :
      {A : Type 0} (reason : ℕ) (m : Try h.device.World A) (v1 : RcServer h)
      → v1.registered_rc ≡ v.registered_rc
      → Early (on_device h reason m v1)
  on_device-Early {A = A} reason m v1 e = go (m v1.world)
    where
      go : (x : Result A × h.device.World) → Early (or_reject h reason v1 x)
      go (Result.ok a, w) = e
      go (Result.err c, w) = e

  -- Asking for the connection data fails with the error of a query only.
  abbrev IsQuery : Attempt CmError ConnectionData × h.device.World → Type 0
  IsQuery (err (creation e), w) = Unit {0}
  IsQuery (ok d, w) = Unit {0}
  IsQuery _ = ⊥

  new_data-IsQuery : (qp : QueuePair) (w : h.device.World) → IsQuery (new_data h qp w)
  unfolding new_data
  new_data-IsQuery qp w = go (h.get_port_attr qp.port_num w) (h.query_gid qp.port_num 0 w)
    where
      go :
          (a b : Answer)
          → IsQuery (
              resume (or_errno h a w) (λ lid. or_errno h b >>= λ gid.
              (λ w1. (ok (record { lid = lid % 2 ^ 16; gid = gid }), w1))))
      go (found lid) (found gid) = tt
      go (found lid) (failed e) = tt
      go (failed e) b = tt

  on_world-Early :
      (x : Attempt CmError ConnectionData × h.device.World) (v1 : RcServer h)
      → v1.registered_rc ≡ v.registered_rc
      → IsQuery x
      → Early (with_world h v1 x)
  on_world-Early (ok d, w) v1 e q = e
  on_world-Early (err (creation n), w) v1 e q = e
  on_world-Early (err (send_error n), w) v1 e q = absurd q
  on_world-Early (err (callback_error n), w) v1 e q = absurd q
  on_world-Early (err invalid_arg, w) v1 e q = absurd q

  finish-After :
      (answer : Reply → ℕ) (req : Request) (qp : QueuePair) (v1 : RcServer h)
      → v1.registered_rc ≡ v.registered_rc
      → After (finish h answer key req qp v1)
  unfolding finish
  finish-After answer req qp v1 e =
      After-resume (on_world h (new_data h qp) v1) _
        (on_world-Early (new_data h qp v1.world) v1 e (new_data-IsQuery qp v1.world))
        (λ peer v2 e2. elim (Bool-cases (answer (reply_for h req qp peer) == 0)) [
          | inl q ↦ rw q (qp, ap (insert key qp) e2)
          | inr q ↦ rw q (qp, ap (insert key qp) e2)
        ])

  -- Whatever the device does and whatever ib_cm answers: `handle_req` that succeeds has registered one
  -- queue pair, under the address of the request's id; so has one that fails to send the reply; and one
  -- that fails in another way has registered nothing.
  pub handle_req-After :
      (answer : Reply → ℕ) (req : Request) → After (handle_req h answer key req v)
  unfolding handle_req
  handle_req-After answer req =
      After-resume (on_device h 2 (build_rc h.device (server_builder h req v.port_num)) v) _
        (on_device-Early 2 (build_rc h.device (server_builder h req v.port_num)) v refl)
        (λ p v1 e1.
          After-resume
            (on_device h 3
              (bring_up_rc_kernel h.device p req.private_data.lid req.private_data.gid
                req.remote_qpn req.starting_psn)
              v1)
            _
            (on_device-Early 3
              (bring_up_rc_kernel h.device p req.private_data.lid req.private_data.gid
                req.remote_qpn req.starting_psn)
              v1 e1)
            (λ qp v2 e2. finish-After answer req qp v2 e2))

  removed :
      (x : Attempt CmError (Unit {0}) × RcServer h)
      → After x
      → count key (keys v.registered_rc) ≡ 0
      → remove key (x.1).registered_rc ≡ v.registered_rc
  removed (ok u, v1) (qp, e) absent =
      ap (remove key) e ∙ remove-insert key qp v.registered_rc absent
  removed (err (send_error n), v1) (qp, e) absent =
      ap (remove key) e ∙ remove-insert key qp v.registered_rc absent
  removed (err (creation n), v1) e absent =
      ap (remove key) e ∙ remove-absent key v.registered_rc absent
  removed (err (callback_error n), v1) e absent =
      ap (remove key) e ∙ remove-absent key v.registered_rc absent
  removed (err invalid_arg, v1) e absent =
      ap (remove key) e ∙ remove-absent key v.registered_rc absent

  -- If the id of a request is new, then `handle_dreq` for it after `handle_req`, whether that succeeded
  -- or not, leaves the registered queue pairs that were there before the request.
  pub handle_dreq-handle_req :
      (answer : Reply → ℕ) (req : Request)
      → count key (keys v.registered_rc) ≡ 0
      → let (a, v1) = handle_req h answer key req v in
        ((handle_dreq h key v1).1).registered_rc ≡ v.registered_rc
  unfolding handle_dreq
  handle_dreq-handle_req answer req absent =
      removed (handle_req h answer key req v) (handle_req-After answer req) absent
