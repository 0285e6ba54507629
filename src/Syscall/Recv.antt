-- ===== src/Syscall/Recv.antt =====
-- Receives and completions of a virtual queue: `push_recv_impl`, `pop_msg_impl` and `pop_impl` of
-- KRdmaKit-syscall/src/virtual_queue.rs, and `post_recv`, `pop_recv` and `handle_pop_ret` of core.rs.
use krcore_artifacts.Prelude.{
  ℕ, zero, suc, ◌+◌, ◌*◌, Bool, ◌||◌, Option, none, some, if◌then◌else◌, ltb, leb,
}
use krcore_artifacts.Prelude.Effects.{Eff, pure, look, expect, ◌>>=◌}
use krcore_artifacts.Syscall.Abi.{Status, err, ok, nil, not_connected}
use krcore_artifacts.Syscall.Kernel.{Kernel, WcPtr, get_global_rctrl}
use krcore_artifacts.Syscall.Queue.{Vq, is_bind_mode, get_ud, check_bind, get_bind_ctrl_unsafe}

abbrev status_of : Bool → Status
status_of good = if good then ok else err

module _ (k : Kernel) where
  unfoldable pub post_recv : ℕ → ℕ → ℕ → Eff k.World Status
  post_recv core_id post_cnt vid = do
    let ctrl = get_global_rctrl k core_id
    found ← look (k.get_trc ctrl vid)
    qp ← expect found
    good ← k.rc_post_recvs ctrl qp post_cnt
    pure (status_of good)

  unfoldable pub pop_recv : ℕ → ℕ → ℕ → Eff k.World (Option WcPtr × ℕ)
  pop_recv core_id pop_cnt offset =
      k.pop_recvs (get_global_rctrl k core_id) pop_cnt offset >>= expect

  -- `n` completions are left, from the `i`-th on.
  unfoldable pub copy_wcs : ℕ → ℕ → WcPtr → ℕ → Eff k.World (Unit {0})
  copy_wcs zero i wc payload_sz = pure tt
  copy_wcs (suc n) i wc payload_sz = do
    _ ← k.copy_payload (wc i).wr_id payload_sz
    _ ← k.copy_wc_to_user i (wc i)
    copy_wcs n (suc i) wc payload_sz

  unfoldable pub handle_pop_ret : Option WcPtr → ℕ → ℕ → Eff k.World Status
  handle_pop_ret none wc_len payload_sz = pure nil
  handle_pop_ret (some wc) wc_len payload_sz = do
    _ ← copy_wcs wc_len 0 wc payload_sz
    _ ← k.copy_pop_len_to_user wc_len
    pure ok

  unfoldable pub push_recv_impl : Vq k → ℕ → Eff k.World Status
  push_recv_impl v push_cnt w = elim v.bind_port [
    | some port ↦
        if check_bind v 1 w then post_recv (port * 2) push_cnt 1 w else pure not_connected w
    | none ↦ elim v.local_connect_port [
      | none ↦ pure not_connected w
      | some port ↦
          let ctrl = get_global_rctrl k port in
          elim v.virtual_queue [
            | some qp ↦ (k.rc_post_recvs ctrl qp push_cnt >>= λ good. pure (status_of good)) w
            | none ↦
                (do ud ← get_ud v; good ← k.ud_post_recvs ctrl ud push_cnt; pure (status_of good)) w
          ]
    ]
  ]

  -- One poll of the loop of `pop_msg_impl`, after `act_pop_cnt` completions.
  unfoldable pub poll_msgs : Vq k → ℕ → Eff k.World (Option WcPtr × ℕ)
  poll_msgs v act_pop_cnt = elim v.bind_port [
    | some port ↦ pop_recv (2 * port) 2048 0
    | none ↦ elim v.local_connect_port [
      | none ↦ pure (none, 0)
      | some port ↦ pop_recv port 2048 act_pop_cnt
    ]
  ]

  -- The loop of `pop_msg_impl`. `none` is a loop that `fuel` rounds did not end.
  unfoldable pub pop_msg_loop : ℕ → Vq k → ℕ → ℕ → ℕ → ℕ → Eff k.World (Option Status)
  pop_msg_loop zero v retry act_pop_cnt least_pop_cnt payload_sz = pure none
  pop_msg_loop (suc fuel) v retry act_pop_cnt least_pop_cnt payload_sz = do
    (pop_ret, pop_cnt) ← poll_msgs v act_pop_cnt
    let act = act_pop_cnt + pop_cnt
    if is_bind_mode v
        then (handle_pop_ret pop_ret pop_cnt payload_sz >>= λ s. pure (some s))
        else if leb least_pop_cnt act || ltb 50000 retry
        then (handle_pop_ret pop_ret act payload_sz >>= λ s. pure (some s))
        else pop_msg_loop fuel v (retry + 1) act least_pop_cnt payload_sz

  unfoldable pub pop_msg_impl : Vq k → ℕ → ℕ → Eff k.World Status
  pop_msg_impl v least_pop_cnt payload_sz =
      pop_msg_loop 50002 v 0 0 least_pop_cnt payload_sz >>= expect

  -- The completion that `pop_impl` takes.
  unfoldable pub pop_one : Vq k → ℕ → Eff k.World (Option WcPtr)
  pop_one v vid w = elim v.bind_port [
    | some port ↦
        if check_bind v vid w
        then (do
          ctrl ← get_bind_ctrl_unsafe v
          found ← look (k.get_trc ctrl vid)
          rc ← expect found
          k.rc_pop rc)
            w
        else pure none w
    | none ↦ elim v.virtual_queue [ none ↦ pure none w | some qp ↦ k.rc_pop qp w ]
  ]

  unfoldable pub pop_impl : Vq k → ℕ → Eff k.World Status
  pop_impl v vid = pop_one v vid >>= λ pop_ret. handle_pop_ret pop_ret 1 0
