-- ===== src/Syscall/Ioctl.antt =====
-- `ioctrl` of KRdmaKit-syscall/src/virtual_queue.rs: a command and its reply.
use krcore_artifacts.Prelude.{
  ℕ, zero, suc, ◌+◌, ◌-◌, ◌*◌, min, Bool, false, not, ◌&&◌, Option, none, some, List, [], ◌∷◌,
  if◌then◌else◌, is_some, ltb, ◌==◌,
}
use krcore_artifacts.Prelude.Effects.{Eff, pure, crash, ◌>>=◌}
use krcore_artifacts.Syscall.Abi.{
  is_err, is_ok, Status, err, ok, nil, already_connected, already_bind, not_bind, status_code,
  CoreReq, max_service_num,
}
use krcore_artifacts.Syscall.Kernel.{Kernel}
use krcore_artifacts.Syscall.Queue.{Vq, is_bind_mode, get_ud}
use krcore_artifacts.Syscall.Send.{rc_push_impl, dc_push_impl}
use krcore_artifacts.Syscall.Recv.{push_recv_impl, pop_msg_impl, pop_impl, pop_recv}
use krcore_artifacts.Syscall.Server.{bind_server_push_impl}
use krcore_artifacts.Syscall.Connect.{connect_impl, service_id, as_usize}

-- What `ioctrl` copies from the user with a command. An `int` is given by its bits.
pub data Command : Type 0 where
  cmd_nil reg_mrs rpc_poll unknown : Command
  connect : List ℕ → ℕ → ℕ → Command
  push : (pop_at_once : Bool) (push_recv_cnt req_len : ℕ) (req_list : ℕ → CoreReq) → Command
  push_recv : ℕ → Command
  pop : ℕ → Command
  pop_msgs : (least_pop_cnt payload_sz : ℕ) → Command
  binds un_binds : ℕ → Command

-- `DEFAULT_BATCH_SZ`
abbrev pub default_batch_sz : ℕ
default_batch_sz = 64

-- `n` requests of the user's array, from the `i`-th on.
abbrev pub copy_reqs : (ℕ → CoreReq) → ℕ → ℕ → List CoreReq
copy_reqs reqs i zero = []
copy_reqs reqs i (suc n) = reqs i ∷ copy_reqs reqs (suc i) n

module _ (k : Kernel) where
  -- One batch of the loop of `Push`.
  unfoldable pub push_batch : Vq k → List CoreReq → Bool → Eff k.World (Status × Vq k)
  push_batch v reqs pop_at_once =
      if is_bind_mode v
      then bind_server_push_impl k v reqs pop_at_once
      else if is_some v.virtual_queue
      then (rc_push_impl k v reqs >>= λ ret. pure (ret, v))
      else (dc_push_impl k v reqs >>= λ ret. pure (ret, v))

  -- The loop of `Push`. It makes a round for every 64 requests, and is given one for each.
  unfoldable pub push_loop :
      ℕ → Vq k → Status → (ℕ → CoreReq) → ℕ → ℕ → Bool → Eff k.World (Status × Vq k)
  push_loop zero v ret reqs offset req_len pop_at_once =
      if ltb offset req_len then crash else pure (ret, v)
  push_loop (suc fuel) v ret reqs offset req_len pop_at_once =
      if ltb offset req_len
      then (do
        let send_len = min default_batch_sz (req_len - offset)
        (ret', v') ← push_batch v (copy_reqs reqs offset send_len) pop_at_once
        if is_err ret'
            then pure (ret', v')
            else push_loop fuel v' ret' reqs (offset + send_len) req_len pop_at_once)
      else pure (ret, v)

  -- The wait for the last completion.
  unfoldable pub pop_res : Vq k → Status → Bool → Eff k.World Status
  pop_res v ret pop_at_once =
      if not (is_bind_mode v) && (pop_at_once && is_ok ret)
      then (elim v.virtual_queue [
        | none ↦ do
          qp ← get_ud v
          res ← k.ud_wait_til_comp qp
          pure (if is_some res then ret else err)
        | some qp ↦ do res ← k.rc_wait_til_comp qp; pure (if is_some res then ret else err)
      ])
      else pure ret

  -- The receives that are posted before the sends.
  unfoldable pub recv_first : Vq k → ℕ → Eff k.World Status
  recv_first v push_recv_cnt =
      if not (is_bind_mode v) && ltb 0 push_recv_cnt
      then push_recv_impl k v push_recv_cnt
      else pure ok

  unfoldable pub push_impl : Vq k → Bool → ℕ → ℕ → (ℕ → CoreReq) → Eff k.World (Status × Vq k)
  push_impl v pop_at_once push_recv_cnt req_len reqs = do
    ret0 ← recv_first v push_recv_cnt
    (ret1, v') ← push_loop req_len v ret0 reqs 0 req_len pop_at_once
    ret2 ← pop_res v' ret1 pop_at_once
    pure (ret2, v')

  unfoldable pub binds_impl : Vq k → ℕ → Status × Vq k
  binds_impl v port =
      if is_some v.bind_port
      then (already_bind, v)
      else if ltb max_service_num port
      then (nil, v)
      else (ok, record v { bind_port = some port })

  unfoldable pub un_binds_impl : Vq k → ℕ → Eff k.World (Status × Vq k)
  un_binds_impl v port = elim v.bind_port [
    | none ↦ pure (not_bind, v)
    | some bound ↦
        if bound == port
        then (pop_recv k (bound * 2) 2048 0 >>= λ _. pure (ok, record v { bind_port = none }))
        else pure (not_bind, v)
  ]

  -- The `match` on the command, for all but the early return of `Connect`.
  unfoldable pub dispatch : Vq k → Command → Eff k.World (Status × Vq k)
  dispatch v cmd_nil = pure (ok, v)
  dispatch v (connect addr port vid) =
      if k.is_utf8 addr then connect_impl k v addr (service_id port) (as_usize vid) else crash
  dispatch v reg_mrs = pure (ok, v)
  dispatch v (push pop_at_once push_recv_cnt req_len reqs) =
      push_impl v pop_at_once push_recv_cnt req_len reqs
  dispatch v (push_recv push_count) = push_recv_impl k v push_count >>= λ s. pure (s, v)
  dispatch v (pop vid) = pop_impl k v vid >>= λ s. pure (s, v)
  dispatch v (pop_msgs least payload) = pop_msg_impl k v least payload >>= λ s. pure (s, v)
  dispatch v (binds port) = pure (binds_impl v (as_usize port))
  dispatch v (un_binds port) = un_binds_impl v (as_usize port)
  dispatch v rpc_poll = k.poll_all >>= λ _. pure (ok, v)
  dispatch v unknown = pure (err, v)

  -- The value that `ioctrl` returns, and the status that it writes to the reply buffer, if any.
  pub record Answer : Type 0 where
    pub value : ℕ
    pub reply : Option Status

  unfoldable pub reply_with : Status → Eff k.World Answer
  reply_with s = k.copy_reply_to_user s >>= λ value. pure (record { value = value; reply = some s })

  unfoldable pub early_return : Vq k → Command → Bool
  early_return v (connect addr port vid) = is_some v.virtual_queue
  early_return v _ = false

  unfoldable pub ioctrl : Vq k → Command → Eff k.World (Answer × Vq k)
  ioctrl v c =
      if early_return v c
      then pure (record { value = status_code already_connected; reply = none }, v)
      else (do (s, v') ← dispatch v c; a ← reply_with s; pure (a, v'))
