-- ===== src/Syscall/Server.antt =====
-- Pushes of a bound virtual queue: `bind_server_push_impl` of
-- KRdmaKit-syscall/src/virtual_queue.rs.
use krcore_artifacts.Prelude.{
  ℕ, zero, suc, ◌+◌, ◌%◌, Bool, true, false, none, some, List, [], ◌∷◌, if◌then◌else◌, is_some,
  add64, ◌==◌, ltb, get_or, set, replicate,
}
use krcore_artifacts.Prelude.Effects.{Eff, pure, lift, look, expect, ◌>>=◌}
use krcore_artifacts.Syscall.Abi.{is_ok, Status, err, ok, CoreReq, op_code_table}
use krcore_artifacts.Syscall.Kernel.{Kernel, TempMr, get_bind_ctrl}
use krcore_artifacts.Syscall.Queue.{
  Vq, check_bind, get_client_endpoint_cache, update_client_endpoint_cache,
}

-- `HOST_LEN`
abbrev pub host_len : ℕ
host_len = 12

-- `rc_pop_cnt_cache` and `ud_pop_cnt_cache`, of `host_len` entries each.
pub record Counters : Type 0 where
  pub rc : List ℕ
  pub ud : List ℕ

abbrev pub no_counts : Counters
no_counts = record { rc = replicate host_len 0; ud = replicate host_len 0 }

-- `cache[vid] += 1`
abbrev pub bump : List ℕ → ℕ → List ℕ
bump cnts vid = set cnts vid (get_or cnts vid 0 + 1)

-- The virtual queue, the counters and the status after some requests.
pub record Pushed (k : Kernel) : Type 0 where
  pub vq : Vq k
  pub cnts : Counters
  pub res : Status

module _ (k : Kernel) where
  -- The endpoint of a client that has no connection: the cached one, or that of its message.
  unfoldable pub client_endpoint : Vq k → ℕ → ℕ → ℕ → Eff k.World (k.EndPoint × Vq k)
  client_endpoint v ctrl vid wr_id =
      elim (get_client_endpoint_cache v.local_cache.cached_client_endpoint vid) [
        | some point ↦ pure (point, v)
        | none ↦ look (k.read_endpoint ctrl wr_id) >>= λ point.
            pure (point, update_client_endpoint_cache v vid point)
      ]

  -- The push by the controller's UD, for a client without a connection.
  unfoldable pub ud_reply :
      ℕ → TempMr → Counters → ℕ → k.EndPoint → CoreReq → Eff k.World (Bool × Counters)
  ud_reply ctrl local_mr cnts vid point req = do
    found ← look (k.get_ud ctrl)
    qp ← expect found
    op ← lift (op_code_table req.type_)
    sent ←
        k.ud_push qp
          (record {
            opcode = op;
            laddr = local_mr.addr;
            lkey = local_mr.key;
            length = 0;
            raddr = 0;
            rkey = 0;
            imm = 0;
            inline = false;
            signaled = get_or cnts.ud vid 0 == 0;
          })
          point
    pure (sent, record cnts { ud = bump cnts.ud vid })

  -- The push by the connection that the client `vid` has.
  unfoldable pub rc_reply : ℕ → TempMr → Counters → ℕ → CoreReq → Eff k.World (Bool × Counters)
  rc_reply ctrl local_mr cnts vid req = do
    found ← look (k.get_trc ctrl vid)
    qp ← expect found
    op ← lift (op_code_table req.type_)
    sent ← k.rc_push_with_imm qp (record {
      opcode = op;
      laddr = add64 local_mr.addr req.addr;
      lkey = local_mr.key;
      length = req.length;
      raddr = add64 req.remote_addr local_mr.addr;
      rkey = k.ctx_rkey ctrl;
      imm = vid;
      inline = false;
      signaled = get_or cnts.rc vid 0 == 0;
    })
    pure (sent, record cnts { rc = bump cnts.rc vid })

  -- One round of the first loop: whether the push succeeded.
  unfoldable pub push_one :
      Vq k → ℕ → TempMr → Counters → CoreReq → Eff k.World (Bool × Vq k × Counters)
  push_one v ctrl local_mr cnts req w =
      let vid = req.vid % host_len in
      if check_bind v vid w
      then (rc_reply ctrl local_mr cnts vid req >>= λ (sent, cnts'). pure (sent, v, cnts')) w
      else (do
        (point, v') ← client_endpoint v ctrl vid (add64 req.remote_addr k.ud_header_sz)
        (sent, cnts') ← ud_reply ctrl local_mr cnts vid point req
        pure (sent, v', cnts'))
          w

  unfoldable pub push_reqs : Vq k → ℕ → TempMr → Counters → List CoreReq → Eff k.World (Pushed k)
  push_reqs v ctrl local_mr cnts [] = pure (record { vq = v; cnts = cnts; res = ok })
  push_reqs v ctrl local_mr cnts (req ∷ reqs) = do
    (sent, v', cnts') ← push_one v ctrl local_mr cnts req
    if sent
        then push_reqs v' ctrl local_mr cnts' reqs
        else pure (record { vq = v'; cnts = cnts'; res = err })

  -- One round of the second loop for the UD: repost, and wait for the signaled completion.
  unfoldable pub ud_finish : ℕ → ℕ → Bool → Eff k.World Bool
  ud_finish ctrl cnt pop_at_once =
      if ltb 0 cnt
      then (do
        good ← k.ud_post_recv ctrl cnt
        if good
            then (if pop_at_once
                then (do
                  found ← look (k.get_ud ctrl)
                  qp ← expect found
                  res ← k.ud_wait_til_comp qp
                  pure (is_some res))
                else pure true)
            else pure false)
      else pure true

  unfoldable pub rc_finish : ℕ → ℕ → ℕ → Bool → Eff k.World Bool
  rc_finish ctrl vid cnt pop_at_once =
      if ltb 0 cnt
      then (do
        good ← k.trc_post_recv ctrl vid cnt
        if good
            then (if pop_at_once
                then (do
                  found ← look (k.get_trc ctrl vid)
                  qp ← expect found
                  res ← k.rc_wait_til_comp qp
                  pure (is_some res))
                else pure true)
            else pure false)
      else pure true

  -- The second loop: `n` clients are left, from `vid` on.
  unfoldable pub finish_from : ℕ → ℕ → ℕ → Counters → Bool → Eff k.World Status
  finish_from zero vid ctrl cnts pop_at_once = pure ok
  finish_from (suc n) vid ctrl cnts pop_at_once = do
    ud_good ← ud_finish ctrl (get_or cnts.ud vid 0) pop_at_once
    if ud_good
        then (do
          rc_good ← rc_finish ctrl vid (get_or cnts.rc vid 0) pop_at_once
          if rc_good then finish_from n (vid + 1) ctrl cnts pop_at_once else pure err)
        else pure err

  -- The second loop, unless a push failed.
  unfoldable pub finish_pushed : ℕ → Bool → Pushed k → Eff k.World (Status × Vq k)
  finish_pushed ctrl pop_at_once p =
      if is_ok p.res
      then (finish_from 11 1 ctrl p.cnts pop_at_once >>= λ res. pure (res, p.vq))
      else pure (p.res, p.vq)

  unfoldable pub bind_server_push_impl : Vq k → List CoreReq → Bool → Eff k.World (Status × Vq k)
  bind_server_push_impl v reqs pop_at_once = do
    port ← expect v.bind_port
    local_mr ← expect v.local_cache.local_mr
    p ← push_reqs v (get_bind_ctrl k port) local_mr no_counts reqs
    finish_pushed (get_bind_ctrl k port) pop_at_once p
