-- ===== src/Services/Outcomes.antt =====
-- handshake_kernel.rs, whatever ib_cm does and whatever events arrive.
use krcore_artifacts.Prelude.{
  ℕ, ◌<◌, ◌≡◌, refl, Bool, true, false, inl, inr, Bool-cases, ◌==◌, arith, Option, none, some,
}
use krcore_artifacts.Bringup.Device.{rc, QueuePairStatus, ready_to_send, Result, CommStruct, status}
use krcore_artifacts.Bringup.Build.{PreparedQueuePair}
use krcore_artifacts.Bringup.Prepared.{is_type}
use krcore_artifacts.Manager.{Host, Attempt, ok, err, resume}
use krcore_artifacts.Services.{CmId}
use krcore_artifacts.Services.Reliable.{ConnectionData, new_data}
use krcore_artifacts.Services.Handshake.{
  Fault, panics, Local, deliver, IbCm, Connection, Client, Ask, new_comm, own_data, request,
  send_req, waited, wait, created, data_or_fault, sent, final_status, checked, connect_rc, refused,
  handshake, or_drop,
}
use krcore_artifacts.Manager.Server.{CmError}

-- Any ib_cm, and any events.
module _ (h : Host) (cm : IbCm) (p : PreparedQueuePair) where
  -- An answer of `handshake`: a queue pair that is ready, for which the completion was signalled; or an
  -- error, which is a panic only for a queue pair that is not RC.
  abbrev pub Honest : Attempt Fault Connection × Client h cm → Type 0
  Honest (ok x, c) =
      (x.qp ≡ p.inner)
      × (status h.device p.inner c.world ≡ (Result.ok ready_to_send, c.world))
      × (0 < x.rc_comm.completed)
  Honest (err panics, c) = is_type p.inner.mode rc ≡ false
  Honest (err f, c) = Unit {0}

  abbrev NotPanic : Fault → Type 0
  NotPanic panics = ⊥
  NotPanic _ = Unit {0}

  err-Honest : (f : Fault) (c : Client h cm) → NotPanic f → Honest (err f, c)
  err-Honest panics c no_panic = absurd no_panic
  err-Honest _ c no_panic = tt

  -- A step that does not panic, and that gives what `Q` says.
  abbrev Step : {A : Type 0} → (A → Client h cm → Type 0) → Attempt Fault A × Client h cm → Type 0
  Step Q (ok a, c) = Q a c
  Step Q (err f, c) = NotPanic f

  resume-Honest :
      {A : Type 0} (Q : A → Client h cm → Type 0) (x : Attempt Fault A × Client h cm)
      (f : A → Ask h cm Connection)
      → Step Q x
      → ((a : A) (c : Client h cm) → Q a c → Honest (f a c))
      → Honest (resume x f)
  resume-Honest Q (ok a, c) f s k = k a c s
  resume-Honest Q (err e, c) f s k = err-Honest e c s

  abbrev Anything : {A : Type 0} → A → Client h cm → Type 0
  Anything a c = Unit {0}

  created-Step : (c : Client h cm) (x : Bool × cm.Far) → Step Anything (created h cm c x)
  created-Step c (true, far) = tt
  created-Step c (false, far) = tt

  data-Step :
      (c : Client h cm) (x : Attempt CmError ConnectionData × h.device.World)
      → Step Anything (data_or_fault h cm c x)
  data-Step c (ok d, w) = tt
  data-Step c (err e, w) = tt

  sent-Step : (c : Client h cm) (x : ℕ × cm.Far) → Step Anything (sent h cm c x)
  sent-Step c (ret, far) = elim (Bool-cases (ret == 0)) [ inl e ↦ rw e tt | inr e ↦ rw e tt ]

  abbrev Signalled : CmId (Local h) → Client h cm → Type 0
  Signalled id c = 0 < id.context.rc_comm.completed

  waited-Step : (id : CmId (Local h)) (far : cm.Far) → Step Signalled (waited h cm id far)
  waited-Step id far = elim (Bool-cases (id.context.rc_comm.completed == 0)) [
    | inl e ↦ rw e tt
    | inr e ↦ rw e (ground (arith, e))
  ]

  wait-Step : (c : Client h cm) → Step Signalled (wait h cm p.inner c)
  unfolding wait
  wait-Step c =
      waited-Step
        (deliver h p.inner (cm.arriving c.far).0 (record {
          has_context = true;
          context = record { world = c.world; rc_comm = record { completed = 0; rtus = 0 } };
        }))
        (cm.arriving c.far).1

  abbrev HasStatus : QueuePairStatus → Client h cm → Type 0
  HasStatus s c = status h.device p.inner c.world ≡ (Result.ok s, c.world)

  status-Step : (c : Client h cm) → Step HasStatus (final_status h cm p.inner c)
  unfolding status
  status-Step c =
      let ret = (h.device.query_qp p.inner.inner_qp c.world).0 in
      elim (Bool-cases (ret == 0)) [ inl e ↦ rw e (rw e refl) | inr e ↦ rw e tt ]

  checked-Honest :
      (id : CmId (Local h)) (s : QueuePairStatus) (c : Client h cm)
      → Signalled id c
      → HasStatus s c
      → Honest (checked h cm p.inner id s c)
  checked-Honest id ready_to_send c signal has = (refl, has, signal)
  checked-Honest id _ c signal has = tt

  connect_rc-Honest : (sid path : ℕ) (c : Client h cm) → Honest (connect_rc h cm p sid path c)
  unfolding connect_rc
  connect_rc-Honest sid path c =
      resume-Honest Anything (new_comm h cm c) _ (created-Step c (cm.create_cm_id c.far)) λ u c1 q1.
        resume-Honest Anything (own_data h cm p.inner c1) _
          (data-Step c1 (new_data h p.inner c1.world))
          λ own c2 q2.
            resume-Honest Anything (send_req h cm (request h cm p sid path own) c2) _
              (sent-Step c2 (cm.send_req (request h cm p sid path own) c2.far))
              λ u3 c3 q3.
                resume-Honest Signalled (wait h cm p.inner c3) _ (wait-Step c3) λ id c4 q4.
                  resume-Honest HasStatus (final_status h cm p.inner c4) _ (status-Step c4)
                    λ s c5 q5. checked-Honest id s c5 q4 q5

  -- The drop of the queue pair does not touch the answer.
  or_drop-Honest :
      (x : Attempt Fault Connection × Client h cm) → Honest x → Honest (or_drop h cm p.inner x)
  or_drop-Honest (ok a, c) honest = honest
  or_drop-Honest (err panics, c) honest = honest
  or_drop-Honest (err _, c) honest = tt

  -- Whatever ib_cm does, and whatever events arrive in whatever order: a queue pair that `handshake`
  -- answers is the caller's, its status is then ready to send, and its completion was signalled; and
  -- `handshake` panics only for a queue pair that is not RC.
  pub handshake-Honest : (sid path : ℕ) (c : Client h cm) → Honest (handshake h cm p sid path c)
  unfolding handshake
  handshake-Honest sid path c = elim (Bool-cases (is_type p.inner.mode rc)) [
    | inl e ↦ rw e (or_drop-Honest (connect_rc h cm p sid path c) (connect_rc-Honest sid path c))
    | inr e ↦
        rw e (or_drop-Honest (err (refused h cm p.inner.comm), c) (refused-Honest p.inner.comm e))
  ]
    where
      refused-Honest :
          (comm : Option CommStruct)
          → is_type p.inner.mode rc ≡ false
          → Honest (err (refused h cm comm), c)
      refused-Honest none e = e
      refused-Honest (some x) e = tt
