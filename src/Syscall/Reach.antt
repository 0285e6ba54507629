-- ===== src/Syscall/Reach.antt =====
-- Every sequence of system calls on a virtual queue of virtual_queue.rs keeps its invariant.
use krcore_artifacts.Prelude.{◌≡◌, refl, inl, inr, done, Bool-cases, Outcome}
use krcore_artifacts.Prelude.Effects.{
  pure, resume, Ensures, Ensures-any, Ensures-resume, Ensures-map, Ensures-done, Ensures-result,
  Ensures-panic,
}
use krcore_artifacts.Syscall.Abi.{Status}
use krcore_artifacts.Syscall.Kernel.{Kernel}
use krcore_artifacts.Syscall.Queue.{Vq, open_vq}
use krcore_artifacts.Syscall.Connect.{service_id, as_usize}
use krcore_artifacts.Syscall.Recv.{push_recv_impl, pop_impl, pop_msg_impl}
use krcore_artifacts.Syscall.Ioctl.{
  Command, cmd_nil, reg_mrs, rpc_poll, unknown, connect, push, push_recv, pop, pop_msgs, binds,
  un_binds, dispatch, reply_with, Answer, early_return, ioctrl,
}
use krcore_artifacts.Syscall.Unchanged.{core, push_impl-core}
use krcore_artifacts.Syscall.Invariant.{
  IsValid, Follows, Leads, same-Follows, binds-Follows, unbound-Follows, un_binds-cases,
  connect_impl-Follows, open_vq-IsValid,
}

module _ (k : Kernel) where
  -- A call that answers a status and leaves the queue as it is.
  answers-Follows :
      (v : Vq k) (x : Outcome (Status × k.World))
      → IsValid k (core k v)
      → Ensures (Leads k v) (resume x (λ s. pure (s, v)))
  answers-Follows v x h = Ensures-any _ x _ (λ s w1. Ensures-done _ _ _ (same-Follows k _ _ h refl))

  dispatch-Follows :
      (v : Vq k) (c : Command) (w : k.World)
      → IsValid k (core k v)
      → Ensures (Leads k v) (dispatch k v c w)
  unfolding dispatch
  dispatch-Follows v cmd_nil w h = Ensures-done _ _ _ (same-Follows k _ _ h refl)
  dispatch-Follows v reg_mrs w h = Ensures-done _ _ _ (same-Follows k _ _ h refl)
  dispatch-Follows v unknown w h = Ensures-done _ _ _ (same-Follows k _ _ h refl)
  dispatch-Follows v rpc_poll w h =
      Ensures-any _ (k.poll_all w) _ (λ u w1. Ensures-done _ _ _ (same-Follows k _ _ h refl))
  dispatch-Follows v (connect addr port vid) w h = elim (Bool-cases (k.is_utf8 addr)) [
    | inl e ↦ rw (e, dispatch) (connect_impl-Follows k v addr (service_id port) (as_usize vid) w h)
    | inr e ↦ rw (e, dispatch) (Ensures-panic _ _)
  ]
  dispatch-Follows v (push pop_at_once cnt n reqs) w h =
      Ensures-map _ _ _ (λ (s, v') e. same-Follows k _ _ h e)
        (push_impl-core k v pop_at_once cnt n reqs w)
  dispatch-Follows v (push_recv n) w h = answers-Follows v (push_recv_impl k v n w) h
  dispatch-Follows v (pop vid) w h = answers-Follows v (pop_impl k v vid w) h
  dispatch-Follows v (pop_msgs least size) w h = answers-Follows v (pop_msg_impl k v least size w) h
  dispatch-Follows v (binds port) w h = Ensures-done _ _ _ (binds-Follows k v (as_usize port) h)
  dispatch-Follows v (un_binds port) w h =
      un_binds-cases k (Leads k v) v (as_usize port) w (same-Follows k _ _ h refl)
        (unbound-Follows k v h)

  ioctrl-Follows :
      (v : Vq k) (c : Command) (w : k.World)
      → IsValid k (core k v)
      → Ensures (Leads k v) (ioctrl k v c w)
  unfolding ioctrl
  ioctrl-Follows v c w h = elim (Bool-cases (early_return k v c)) [
    | inl e ↦ rw (e, ioctrl) (Ensures-done _ _ _ (same-Follows k _ _ h refl))
    | inr e ↦
        rw (e, ioctrl)
          (Ensures-resume _ _ _ _ (dispatch-Follows v c w h)
            (λ (s, v') w1 f. Ensures-any _ (reply_with k s w1) _ (λ a w2. Ensures-done _ _ _ f)))
  ]

  -- Queue states that a process can bring about by system calls that return, in any world, from `v`.
  pub data Reaches (v : Vq k) : Vq k → Type 0 where
    now : Reaches v v
    after :
        (v1 v2 : Vq k) (c : Command) (a : Answer k) (w w' : k.World)
        → Reaches v v1
        → ioctrl k v1 c w ≡ done ((a, v2), w')
        → Reaches v v2

  -- Whatever the kernel answers and whatever commands a process gives: from a valid queue only valid
  -- queues are reached, and if the queue has a connection, then it has the same one ever after.
  pub Reaches-Follows :
      (v v' : Vq k) → IsValid k (core k v) → Reaches v v' → Follows k (core k v) (core k v')
  Reaches-Follows v v' h now = same-Follows k _ _ h refl
  Reaches-Follows v v' h (after v1 v2 c a w w' r e) =
      let before = Reaches-Follows v v1 h r in
      let here = Ensures-result _ _ _ _ (ioctrl-Follows v1 c w before.valid) e in
      record { valid = here.valid; stays = λ qp at. here.stays qp (before.stays qp at) }

  -- Of every state that a fresh queue reaches, the invariant holds.
  pub open_vq-Reaches : (v : Vq k) → Reaches (open_vq k) v → IsValid k (core k v)
  open_vq-Reaches v r = (Reaches-Follows (open_vq k) v (open_vq-IsValid k) r).valid
