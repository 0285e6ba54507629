-- ===== src/Bringup/Verbs.antt =====
-- The documented behaviour of the verbs `ibv_query_qp` and `ibv_modify_qp`, on which bringing up a
-- queue pair relies: the state that a queue pair is in, and the attributes that a transition needs.
use krcore_artifacts.Prelude.{
  ℕ, Bool, true, false, ◌&&◌, ◌||◌, ◌≡◌, Option, none, some, List, [], ◌∷◌, ◌==◌,
}
use krcore_artifacts.Bringup.Device.{
  QpType, rc, ud, IbState, ib_reset, ib_init, ib_rtr, ib_rts, Mask, state, pkey_index, port,
  access_flags, qkey, dc_key, av, path_mtu, dest_qpn, rq_psn, max_dest_rd_atomic, min_rnr_timer,
  timeout, retry_cnt, rnr_retry, sq_psn, max_qp_rd_atomic, Attr, Device,
}

abbrev bit : Mask → ℕ
bit state = 0
bit pkey_index = 1
bit port = 2
bit access_flags = 3
bit qkey = 4
bit dc_key = 5
bit av = 6
bit path_mtu = 7
bit dest_qpn = 8
bit rq_psn = 9
bit max_dest_rd_atomic = 10
bit min_rnr_timer = 11
bit timeout = 12
bit retry_cnt = 13
bit rnr_retry = 14
bit sq_psn = 15
bit max_qp_rd_atomic = 16

abbrev has : Mask → List Mask → Bool
has m [] = false
has m (x ∷ xs) = (bit m == bit x) || has m xs

abbrev covers : List Mask → List Mask → Bool
covers xs [] = true
covers xs (y ∷ ys) = has y xs && covers xs ys

abbrev same_bits : List Mask → List Mask → Bool
same_bits xs ys = covers xs ys && covers ys xs

-- The attributes that the transition of a queue pair to its next state requires.
abbrev required : QpType → IbState → IbState → Option (List Mask)
required rc ib_reset ib_init = some (state ∷ pkey_index ∷ port ∷ access_flags ∷ [])
required rc ib_init ib_rtr =
    some (state ∷ av ∷ path_mtu ∷ dest_qpn ∷ rq_psn ∷ max_dest_rd_atomic ∷ min_rnr_timer ∷ [])
required rc ib_rtr ib_rts =
    some (state ∷ sq_psn ∷ timeout ∷ retry_cnt ∷ rnr_retry ∷ max_qp_rd_atomic ∷ [])
required ud ib_reset ib_init = some (state ∷ pkey_index ∷ port ∷ qkey ∷ [])
required ud ib_init ib_rtr = some (state ∷ [])
required ud ib_rtr ib_rts = some (state ∷ sq_psn ∷ [])
required _ _ _ = none

abbrev pub accepts : QpType → IbState → IbState → List Mask → Bool
accepts t s s' mask = elim (required t s s') [ none ↦ false | some req ↦ same_bits req mask ]

-- The queue pair `qp` of type `t` is in the state that `state_of` says: queries answer that state,
-- and a transition with the attributes that it requires succeeds and leads to its state.
pub record FollowsVerbs (d : Device) (t : QpType) (qp : ℕ) (state_of : d.World → IbState)
    : Type 0 where
  pub queries : (w : d.World) → d.query_qp qp w ≡ (0, state_of w)
  pub moves :
      (a : Attr) (mask : List Mask) (w : d.World)
      → accepts t (state_of w) a.qp_state mask ≡ true
      → (w' : d.World) × (d.modify_qp qp a mask w ≡ (0, w')) × (state_of w' ≡ a.qp_state)
