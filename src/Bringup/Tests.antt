-- ===== src/Bringup/Tests.antt =====
-- Queue pairs built and brought up on a small device, and the theorems applied there.
use krcore_artifacts.Prelude.{ℕ, ◌≡◌, refl, some, if◌then◌else◌}
use krcore_artifacts.Bringup.Builder.{QueuePairBuilder, new_builder, set_timeout, allow_remote_rw}
use krcore_artifacts.Bringup.Device.{
  QpType, rc, ud, IbState, ib_reset, ib_err, error, ready_to_send, Device, ok, status,
}
use krcore_artifacts.Bringup.Build.{
  PreparedQueuePair, build_inner, build, build_ud, build_rc, create_cq,
}
use krcore_artifacts.Bringup.Prepared.{bring_up_rc}
use krcore_artifacts.Bringup.Verbs.{accepts, FollowsVerbs}
use krcore_artifacts.Bringup.Rise.{bring_up_rc-rises}

-- A device with one queue pair of type `t`, whose world is the state that it is in.
abbrev nic : QpType → Device
nic t = record {
  World = IbState;
  create_cq = λ entries w. (some 1, w);
  create_qp = λ attr w. (some 5, ib_reset);
  qp_num = λ qp. qp;
  destroy_qp = λ qp w. w;
  query_qp = λ qp w. (0, w);
  modify_qp = λ qp a mask w. if accepts t w a.qp_state mask then (0, a.qp_state) else (22, w);
  eagain = 11;
  einval = 22;
}

nic-FollowsVerbs : (t : QpType) (qp : ℕ) → FollowsVerbs (nic t) t qp (λ w. w)
nic-FollowsVerbs t qp = record {
  queries = λ w. refl;
  moves = λ a mask w good. (a.qp_state, rw good, refl);
}

abbrev params : QueuePairBuilder
params = set_timeout (allow_remote_rw new_builder) 14

abbrev rc_pair : PreparedQueuePair
rc_pair = build_inner (nic rc) params 1 1 rc 5

abbrev ud_pair : PreparedQueuePair
ud_pair = build_inner (nic ud) params 1 1 ud 5

bring_up_rc-rises_example :
    (w : IbState) × (bring_up_rc (nic rc) rc_pair 3 9 77 1 ib_reset ≡ (ok rc_pair.inner, w))
    × (status (nic rc) rc_pair.inner w ≡ (ok ready_to_send, w))
bring_up_rc-rises_example =
    bring_up_rc-rises (nic rc) rc_pair (λ w. w) 3 9 77 1 ib_reset refl (nic-FollowsVerbs rc 5) refl

failed-status : status (nic rc) rc_pair.inner ib_err ≡ (ok error, ib_err)
unfolding status
failed-status = refl

built-rc : build_rc (nic rc) params ib_reset ≡ (ok rc_pair, ib_reset)
unfolding build_rc build create_cq
built-rc = refl

built-ud : build_ud (nic ud) params ib_reset ≡ (ok ud_pair, ib_reset)
unfolding build_ud build create_cq
built-ud = refl
