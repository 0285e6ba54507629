-- ===== src/Control/Tests.antt =====
-- A NIC with ib_cm, a controller with two connections on it, and the theorems applied there.
use krcore_artifacts.Prelude.{[], ◌≡◌, ◌⊎◌, refl, true, none, some, List, ◌∷◌, if◌then◌else◌, arith}
use krcore_artifacts.Prelude.Maps.{lookup}
use krcore_artifacts.Bringup.Device.{
  rc, IbState, ib_reset, ib_init, ib_rtr, Mask, state, pkey_index, port, av, path_mtu, dest_qpn,
  min_rnr_timer, timeout, retry_cnt, rnr_retry, sq_psn, max_qp_rd_atomic, Device,
}
use krcore_artifacts.Bringup.Prepared.{default_attr}
use krcore_artifacts.Bringup.Verbs.{accepts, FollowsVerbs}
use krcore_artifacts.Manager.{ok}
use krcore_artifacts.Control.{Kernel, RCtrl, Rc, Ud}
use krcore_artifacts.Control.Operations.{new_with_srq, get_next_in_qp_key, connect_reply}
use krcore_artifacts.Control.Raise.{bring_to_init, bring_to_rtr, bring_to_rts}
use krcore_artifacts.Control.Handler.{
  req_received, dreq_received, accept_conn, rc_conn_callback, cm_handler, deliver,
}
use krcore_artifacts.Control.Sound.{cm_id_in, IsSound, Registered, Restored, Concluded}
use krcore_artifacts.Control.Ensures.{Ensures}
use krcore_artifacts.Control.Reach.{
  Reaches, listens, delivers, listening, Reaches-Safe, Reaches-Concluded,
}
use krcore_artifacts.Control.Rising.{FollowsCm}
use krcore_artifacts.Control.Accepting.{rc_on, deliver-Accepted}
use krcore_artifacts.Control.Lost.{Ended, Replaced, disconnect-Ended, deliver-Replaced}

-- The world is the state of the newest queue pair.
abbrev nic : Device
nic = record {
  World = IbState;
  create_cq = λ entries w. (some 1, w);
  create_qp = λ attr w. (some 7, ib_reset);
  qp_num = λ qp. qp;
  destroy_qp = λ qp w. w;
  query_qp = λ qp w. (0, w);
  modify_qp = λ qp a mask w. if accepts rc w a.qp_state mask then (0, a.qp_state) else (22, w);
  eagain = 11;
  einval = 22;
}

abbrev cm_mask : IbState → List Mask
cm_mask ib_init = state ∷ pkey_index ∷ port ∷ []
cm_mask ib_rtr = state ∷ av ∷ path_mtu ∷ dest_qpn ∷ min_rnr_timer ∷ []
cm_mask _ = state ∷ sq_psn ∷ timeout ∷ retry_cnt ∷ rnr_retry ∷ max_qp_rd_atomic ∷ []

abbrev toy : Kernel
toy = record {
  device = nic;
  test_mr = record { addr = 4096; capacity = 4194304; key = 7 };
  recv_cq = 2;
  init_qp_attr = λ cm to w. (0, default_attr to, cm_mask to);
  free_cq = λ cq w. w;
  send_rep = λ cm rep w. (0, w);
  send_sidr_rep = λ cm rep w. (0, w);
  post_recvs = λ qp n w. w;
}

abbrev default_ud : Ud
default_ud = record { qp = 2; qkey = 73 }

abbrev start_state : RCtrl toy
start_state = listening toy 1 default_ud ib_reset

-- A connection with the hint 5 on the id 8.
abbrev joined : RCtrl toy
joined = (deliver toy (req_received 5) 8 start_state).1

joins : deliver toy (req_received 5) 8 start_state ≡ (ok tt, joined)
unfolding deliver cm_handler rc_conn_callback new_with_srq get_next_in_qp_key bring_to_rtr
    bring_to_init bring_to_rts accept_conn connect_reply
joins = refl

joined-Reaches : Reaches toy joined
joined-Reaches = delivers (req_received 5) 8 (listens 1 default_ud ib_reset) refl joins

joined_id : joined.ids 8 ≡ some (cm_id_in 0 true)
unfolding deliver cm_handler rc_conn_callback new_with_srq get_next_in_qp_key bring_to_rtr
    bring_to_init bring_to_rts accept_conn connect_reply
joined_id = refl

joined_free : joined.ids 9 ≡ none
unfolding deliver cm_handler rc_conn_callback new_with_srq get_next_in_qp_key bring_to_rtr
    bring_to_init bring_to_rts accept_conn connect_reply
joined_free = refl

abbrev first_rc : Rc
first_rc = record { qp = 7; cq = 1; inner_cm = some 8 }

joined_rc : lookup 5 joined.registered_rcs ≡ some first_rc
unfolding deliver cm_handler rc_conn_callback new_with_srq get_next_in_qp_key bring_to_rtr
    bring_to_init bring_to_rts accept_conn connect_reply
joined_rc = refl

Reaches-Safe_example : Ensures (λ u t. IsSound t) (λ t. ⊥) (deliver toy dreq_received 8 joined)
Reaches-Safe_example =
    Reaches-Safe dreq_received 8 joined-Reaches (cm_id_in 0 true, joined_id, refl)

Reaches-Concluded_example :
    Ensures (λ u t. Concluded joined 9 0 t) (λ t. ⊥) (deliver toy (req_received 0) 9 joined)
Reaches-Concluded_example = Reaches-Concluded 9 0 joined-Reaches joined_free

disconnect-Ended_example :
    (t : RCtrl toy) × (deliver toy dreq_received 8 joined ≡ (ok tt, t)) × Ended joined 8 t
disconnect-Ended_example = disconnect-Ended 8 joined-Reaches (cm_id_in 0 true) joined_id refl

-- A second connection with the hint 5, on the id 9.
abbrev rejoined : RCtrl toy
rejoined = (deliver toy (req_received 5) 9 joined).1

rejoins : deliver toy (req_received 5) 9 joined ≡ (ok tt, rejoined)
unfolding deliver cm_handler rc_conn_callback new_with_srq get_next_in_qp_key bring_to_rtr
    bring_to_init bring_to_rts accept_conn connect_reply
rejoins = refl

deliver-Replaced_example : Restored joined rejoined ⊎ Replaced joined 9 5 first_rc rejoined
deliver-Replaced_example =
    deliver-Replaced 9 joined-Reaches 5 first_rc rejoined joined_free (omega arith) joined_rc
      rejoins

toy-FollowsCm : FollowsCm toy 9
toy-FollowsCm = record {
  attr = λ to w. default_attr to;
  mask = λ to w. cm_mask to;
  answers = λ to w. refl;
  states = λ to w. refl;
  to_init = λ w. refl;
  to_rtr = λ w. refl;
  to_rts = λ w. refl;
  sends = λ rep w. refl;
}

nic-FollowsVerbs : FollowsVerbs nic rc 7 (λ w. w)
nic-FollowsVerbs = record {
  queries = λ w. refl;
  moves = λ a mask w good. (a.qp_state, rw good, refl);
}

-- A request with no hint: the key is 0.
deliver-Accepted_example :
    (t : RCtrl toy) × (deliver toy (req_received 0) 9 joined ≡ (ok tt, t))
    × Registered joined t 9 joined.free_in_qp_key true (rc_on 9 7 1)
deliver-Accepted_example =
    deliver-Accepted 9 0 7 1 joined.world ib_reset joined-Reaches joined_free refl refl
      toy-FollowsCm nic-FollowsVerbs refl
