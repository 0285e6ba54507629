-- ===== src/Syscall/Unchanged.antt =====
-- What the operations of virtual_queue.rs leave alone: pushing changes the caches of a virtual queue
-- and nothing else of it.
use krcore_artifacts.Prelude.{
  is_some, ℕ, zero, suc, ◌%◌, ◌≡◌, refl, ◌∙◌, inl, inr, Bool, Option, List, [], ◌∷◌, ltb,
  Bool-cases, Option-cases,
}
use krcore_artifacts.Prelude.Effects.{
  expect, Ensures, Ensures-any, Ensures-resume, Ensures-choice, Ensures-map, Ensures-done,
  Ensures-panic,
}
use krcore_artifacts.Syscall.Abi.{is_err, is_ok, Status, CoreReq}
use krcore_artifacts.Syscall.Kernel.{get_bind_ctrl, get_global_rctrl, Kernel, TempMr}
use krcore_artifacts.Syscall.Queue.{
  is_bind_mode, check_bind, Vq, get_client_endpoint_cache, get_path_rec_cache,
}
use krcore_artifacts.Syscall.Server.{
  Counters, Pushed, host_len, no_counts, finish_pushed, client_endpoint, push_one, push_reqs,
  bind_server_push_impl,
}
use krcore_artifacts.Syscall.Connect.{explore_path}
use krcore_artifacts.Syscall.Ioctl.{push_batch, push_loop, push_impl}

module _ (k : Kernel) where
  -- All of a virtual queue but its two caches.
  pub record Core : Type 0 where
    pub virtual_queue : Option k.Rc
    pub local_dc : Option k.Dc
    pub local_ud : Option k.Ud
    pub local_mr : Option TempMr
    pub remote_endpoint : Option k.EndPoint
    pub bind_port : Option ℕ
    pub local_connect_port : Option ℕ

  abbrev pub core : Vq k → Core
  core v = record {
    virtual_queue = v.virtual_queue;
    local_dc = v.local_dc;
    local_ud = v.local_ud;
    local_mr = v.local_cache.local_mr;
    remote_endpoint = v.local_cache.remote_endpoint;
    bind_port = v.bind_port;
    local_connect_port = v.local_connect_port;
  }

  -- Of a result that is paired with a virtual queue: that queue has the core of `v`.
  abbrev pub SameCore : {A : Type 0} → Vq k → (A × Vq k) → Type 0
  SameCore v (a, v') = core v ≡ core v'

  client_endpoint-core :
      (v : Vq k) (ctrl vid wr_id : ℕ) (w : k.World)
      → Ensures (SameCore v) (client_endpoint k v ctrl vid wr_id w)
  unfolding client_endpoint
  client_endpoint-core v ctrl vid wr_id w =
      elim (Option-cases (get_client_endpoint_cache v.local_cache.cached_client_endpoint vid)) [
        | inl e ↦ rw (e, client_endpoint) (Ensures-done _ _ _ refl)
        | inr (p, e) ↦ rw (e, client_endpoint) (Ensures-done _ _ _ refl)
      ]

  push_one-core :
      (v : Vq k) (ctrl : ℕ) (mr : TempMr) (cnts : Counters) (req : CoreReq) (w : k.World)
      → Ensures (λ (sent, v', c). core v ≡ core v') (push_one k v ctrl mr cnts req w)
  unfolding push_one
  push_one-core v ctrl mr cnts req w = elim (Bool-cases (check_bind v (req.vid % host_len) w)) [
    | inl e ↦ rw (e, push_one) (Ensures-any _ _ _ (λ r w1. Ensures-done _ _ _ refl))
    | inr e ↦
        rw (e, push_one)
          (Ensures-resume _ _ _ _ (client_endpoint-core v ctrl _ _ w)
            (λ r w1 e'. Ensures-any _ _ _ (λ s w2. Ensures-done _ _ _ e')))
  ]

  pub explore_path-core :
      (v : Vq k) (port : ℕ) (addr : List ℕ) (w : k.World)
      → Ensures (SameCore v) (explore_path k v port addr w)
  unfolding explore_path
  explore_path-core v port addr w =
      elim (Option-cases (get_path_rec_cache v.local_cache.path_rec_cache addr)) [
        | inl e ↦
            rw (e, explore_path)
              (Ensures-any _ (k.explore_path (get_global_rctrl k port) addr port w) _
                (λ found w1. Ensures-any _ (expect found w1) _ (λ p w2. Ensures-done _ _ _ refl)))
        | inr (p, e) ↦ rw (e, explore_path) (Ensures-done _ _ _ refl)
      ]

  push_reqs-core :
      (v : Vq k) (ctrl : ℕ) (mr : TempMr) (cnts : Counters) (reqs : List CoreReq) (w : k.World)
      → Ensures (λ p. core v ≡ core p.vq) (push_reqs k v ctrl mr cnts reqs w)
  unfolding push_reqs
  push_reqs-core v ctrl mr cnts [] w = Ensures-done _ _ _ refl
  push_reqs-core v ctrl mr cnts (req ∷ reqs) w =
      Ensures-resume _ _ _ _ (push_one-core v ctrl mr cnts req w) (λ (sent, v1, c) w1 e.
        Ensures-choice _ sent _ _ w1
          (λ _. Ensures-map _ _ _ (λ p e'. e ∙ e') (push_reqs-core v1 ctrl mr c reqs w1))
          (λ _. Ensures-done _ _ _ e))

  finish_pushed-core :
      (v : Vq k) (p : Pushed k) (ctrl : ℕ) (pop_at_once : Bool) (w : k.World)
      → core v ≡ core p.vq
      → Ensures (SameCore v) (finish_pushed k ctrl pop_at_once p w)
  unfolding finish_pushed
  finish_pushed-core v p ctrl pop_at_once w e = elim (Bool-cases (is_ok p.res)) [
    | inl good ↦ rw (good, finish_pushed) (Ensures-any _ _ _ (λ res w1. Ensures-done _ _ _ e))
    | inr bad ↦ rw (bad, finish_pushed) (Ensures-done _ _ _ e)
  ]

  bind_server_push_impl-core :
      (v : Vq k) (reqs : List CoreReq) (pop_at_once : Bool) (w : k.World)
      → Ensures (SameCore v) (bind_server_push_impl k v reqs pop_at_once w)
  unfolding bind_server_push_impl
  bind_server_push_impl-core v reqs pop_at_once w =
      Ensures-any _ (expect v.bind_port w) _ (λ port w1.
        Ensures-any _ (expect v.local_cache.local_mr w1) _ (λ mr w2.
          Ensures-resume _ _ _ (finish_pushed k (get_bind_ctrl k port) pop_at_once)
            (push_reqs-core v (get_bind_ctrl k port) mr no_counts reqs w2)
            (λ p w3 e. finish_pushed-core v p (get_bind_ctrl k port) pop_at_once w3 e)))

  push_batch-core :
      (v : Vq k) (reqs : List CoreReq) (pop_at_once : Bool) (w : k.World)
      → Ensures (SameCore v) (push_batch k v reqs pop_at_once w)
  unfolding push_batch
  push_batch-core v reqs pop_at_once w = elim (Bool-cases (is_bind_mode v)) [
    | inl e ↦ rw (e, push_batch) (bind_server_push_impl-core v reqs pop_at_once w)
    | inr e ↦ elim (Bool-cases (is_some v.virtual_queue)) [
      | inl e' ↦ rw (e, e', push_batch) (Ensures-any _ _ _ (λ ret w1. Ensures-done _ _ _ refl))
      | inr e' ↦ rw (e, e', push_batch) (Ensures-any _ _ _ (λ ret w1. Ensures-done _ _ _ refl))
    ]
  ]

  push_loop-core :
      (fuel : ℕ) (v : Vq k) (ret : Status) (reqs : ℕ → CoreReq) (i n : ℕ) (pop_at_once : Bool)
      (w : k.World)
      → Ensures (SameCore v) (push_loop k fuel v ret reqs i n pop_at_once w)
  unfolding push_loop
  push_loop-core zero v ret reqs i n pop_at_once w = elim (Bool-cases (ltb i n)) [
    | inl e ↦ rw (e, push_loop) (Ensures-panic _ _)
    | inr e ↦ rw (e, push_loop) (Ensures-done _ _ _ refl)
  ]
  push_loop-core (suc fuel) v ret reqs i n pop_at_once w = elim (Bool-cases (ltb i n)) [
    | inl e ↦
        rw (e, push_loop)
          (Ensures-resume _ _ _ _ (push_batch-core v _ pop_at_once w) (λ (ret', v') w1 e'.
            elim (Bool-cases (is_err ret')) [
              | inl bad ↦ rw bad (Ensures-done _ _ _ e')
              | inr good ↦ rw good (
                  Ensures-map _ _ _ (λ r e''. e' ∙ e'')
                    (push_loop-core fuel v' ret' reqs _ n pop_at_once w1))
            ]))
    | inr e ↦ rw (e, push_loop) (Ensures-done _ _ _ refl)
  ]

  pub push_impl-core :
      (v : Vq k) (pop_at_once : Bool) (push_recv_cnt n : ℕ) (reqs : ℕ → CoreReq) (w : k.World)
      → Ensures (SameCore v) (push_impl k v pop_at_once push_recv_cnt n reqs w)
  unfolding push_impl
  push_impl-core v pop_at_once push_recv_cnt n reqs w = Ensures-any _ _ _ (λ ret w1.
      Ensures-resume _ _ _ _ (push_loop-core n v ret reqs 0 n pop_at_once w1)
        (λ r w2 e. Ensures-any _ _ _ (λ ret' w3. Ensures-done _ _ _ e)))
