-- ===== src/Syscall/Binding.antt =====
-- Binding a virtual queue of virtual_queue.rs to a port, and releasing it.
use krcore_artifacts.Prelude.{
  ℕ, ◌*◌, ◌<◌, ◌≤◌, ◌≡◌, ◌≢◌, refl, sym, ap, false, none, some, done, arith, ltb, ==_iff,
}
use krcore_artifacts.Prelude.Effects.{Eff, pure, resume, ◌>>=◌, resume-then}
use krcore_artifacts.Syscall.Abi.{Status, ok, max_service_num}
use krcore_artifacts.Syscall.Kernel.{Kernel, get_bind_ctrl}
use krcore_artifacts.Syscall.Queue.{Vq}
use krcore_artifacts.Syscall.Recv.{pop_recv}
use krcore_artifacts.Syscall.Connect.{as_usize}
use krcore_artifacts.Syscall.Ioctl.{binds, un_binds, binds_impl, un_binds_impl, dispatch}

module _ (k : Kernel) where
  -- The two commands, one after the other.
  abbrev pub bind_and_release : Vq k → ℕ → Eff k.World (Status × Status × Vq k)
  bind_and_release v port = do
    (s, v1) ← dispatch k v (binds port)
    (s', v2) ← dispatch k v1 (un_binds port)
    pure (s, s', v2)

  bound-un_binds :
      (v : Vq k) (port : ℕ) (w : k.World)
      → un_binds_impl k (record v { bind_port = some port }) port w
        ≡ resume (pop_recv k (port * 2) 2048 0 w) (λ _. pure (ok, record v { bind_port = none }))
  unfolding un_binds_impl
  bound-un_binds v port w = let same = (==_iff port port).1 refl in rw same

  as_usize_small : (port : ℕ) → port ≤ max_service_num → as_usize port ≡ port
  as_usize_small port le = ground arith

  binds_impl-free :
      (v : Vq k) (port : ℕ)
      → v.bind_port ≡ none
      → port ≤ max_service_num
      → binds_impl k v port ≡ (ok, record v { bind_port = some port })
  unfolding binds_impl
  binds_impl-free v port free le =
      let within : ltb max_service_num port ≡ false = ground arith in rw (free, within)

  released : (v : Vq k) → v.bind_port ≡ none → record v { bind_port = none } ≡ v
  released v free = ap (λ b. record v { bind_port = b }) (sym free)

  -- Of a queue that is not bound, `Binds` to a port up to `MAX_SERVICE_NUM` and then `UnBinds` of that
  -- port come to one call, `pop_recv` for at most 2048 messages with the port's double as its first
  -- argument. If that panics, then so do they; if it returns, then both commands answer `ok`, and the
  -- queue is as before.
  pub binds-un_binds :
      (v : Vq k) (port : ℕ) (w : k.World)
      → v.bind_port ≡ none
      → port ≤ max_service_num
      → bind_and_release v port w ≡ (pop_recv k (port * 2) 2048 0 >>= λ _. pure (ok, ok, v)) w
  unfolding dispatch
  binds-un_binds v port w free le =
      let drained = pop_recv k (port * 2) 2048 0 w in
      rw (as_usize_small port le, binds_impl-free v port free le, bound-un_binds v port w)
        (sym (
          resume-then drained _ _ _
            (λ _ w'. ap (λ u. done ((ok, ok, u), w')) (sym (released v free)))))

  -- With two NICs of `MAX_SERVICE_NUM` controllers each, the ports below `MAX_SERVICE_NUM` have
  -- distinct controllers, and the port `MAX_SERVICE_NUM`, which `Binds` accepts as well, has that of
  -- port 0.
  pub get_bind_ctrl-distinct :
      (p q : ℕ)
      → k.rctrl_len ≡ 2 * max_service_num
      → p < max_service_num
      → q < max_service_num
      → p ≢ q
      → (get_bind_ctrl k p ≢ get_bind_ctrl k q)
        × (get_bind_ctrl k max_service_num ≡ get_bind_ctrl k 0)
  get_bind_ctrl-distinct p q len hp hq ne = rw len ((λ e. ne (omega arith)), omega arith)
