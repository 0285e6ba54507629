-- ===== src/Syscall/Invariant.antt =====
-- The invariant of a virtual queue of virtual_queue.rs, over every sequence of system calls.
use krcore_artifacts.Prelude.{
  ℕ, ◌*◌, ◌≤◌, ◌≡◌, refl, sym, ◌∙◌, ap, subst, inl, inr, true, Option, none, some, List, arith,
  is_some, ltb, ◌==◌, Bool-cases, Option-cases,
}
use krcore_artifacts.Prelude.Effects.{
  Ensures, Ensures-any, Ensures-resume, Ensures-map, Ensures-done,
}
use krcore_artifacts.Syscall.Abi.{Status, ok, not_bind, max_service_num}
use krcore_artifacts.Syscall.Kernel.{Kernel}
use krcore_artifacts.Syscall.Queue.{Vq, open_vq}
use krcore_artifacts.Syscall.Connect.{
  connect_impl, connected, connect_prepared, prepare, qp_connect,
}
use krcore_artifacts.Syscall.Recv.{pop_recv}
use krcore_artifacts.Syscall.Ioctl.{binds_impl, un_binds_impl}
use krcore_artifacts.Syscall.Unchanged.{Core, core, explore_path-core}

module _ (k : Kernel) where
  -- A bound port is a service's. There is a memory region to post from, no remote endpoint (which
  -- the feature `dct_qp` would set), and the port of every connection is known.
  pub record IsValid (c : Core k) : Type 0 where
    pub port_bound : (p : ℕ) → c.bind_port ≡ some p → p ≤ max_service_num
    pub mr_ready : is_some c.local_mr ≡ true
    pub no_endpoint : c.remote_endpoint ≡ none
    pub port_known : is_some c.virtual_queue ≡ true → is_some c.local_connect_port ≡ true

  -- What a call on `c` leads to: the invariant holds, and a connection stays the one that it is.
  pub record Follows (c c' : Core k) : Type 0 where
    pub valid : IsValid c'
    pub stays : (qp : k.Rc) → c.virtual_queue ≡ some qp → c'.virtual_queue ≡ some qp

  pub same-Follows : (c c' : Core k) → IsValid c → c ≡ c' → Follows c c'
  same-Follows c c' h e = record {
    valid = subst IsValid e h;
    stays = λ qp at. sym (ap (λ x. x.virtual_queue) e) ∙ at;
  }

  abbrev pub Leads : {A : Type 0} → Vq k → (A × Vq k) → Type 0
  Leads v (a, v') = Follows (core k v) (core k v')

  pub open_vq-IsValid : IsValid (core k (open_vq k))
  open_vq-IsValid = record {
    port_bound = λ p e. ground (arith, e);
    mr_ready = refl;
    no_endpoint = refl;
    port_known = λ e. e;
  }

  pub binds-Follows : (v : Vq k) (port : ℕ) → IsValid (core k v) → Leads v (binds_impl k v port)
  unfolding binds_impl
  binds-Follows v port h = elim (Bool-cases (is_some v.bind_port)) [
    | inl e ↦ rw (e, binds_impl) (same-Follows _ _ h refl)
    | inr e ↦ elim (Bool-cases (ltb max_service_num port)) [
      | inl e' ↦ rw (e, e', binds_impl) (same-Follows _ _ h refl)
      | inr e' ↦
          rw (e, e', binds_impl)
            (record {
              valid = record {
                port_bound = λ p q. ground (arith, e', q);
                mr_ready = h.mr_ready;
                no_endpoint = h.no_endpoint;
                port_known = h.port_known;
              };
              stays = λ qp at. at;
            })
    ]
  ]

  pub unbound-Follows :
      (v : Vq k) → IsValid (core k v) → Follows (core k v) (core k (record v { bind_port = none }))
  unbound-Follows v h = record {
    valid = record {
      port_bound = λ p q. ground (arith, q);
      mr_ready = h.mr_ready;
      no_endpoint = h.no_endpoint;
      port_known = h.port_known;
    };
    stays = λ qp at. at;
  }

  pub un_binds-cases :
      (P : Status × Vq k → Type 0) (v : Vq k) (port : ℕ) (w : k.World)
      → P (not_bind, v)
      → P (ok, record v { bind_port = none })
      → Ensures P (un_binds_impl k v port w)
  unfolding un_binds_impl
  un_binds-cases P v port w same unbound = elim (Option-cases v.bind_port) [
    | inl e ↦ rw (e, un_binds_impl) (Ensures-done _ _ _ same)
    | inr (bound, e) ↦ elim (Bool-cases (bound == port)) [
      | inl e' ↦
          rw (e, e', un_binds_impl)
            (Ensures-any _ (pop_recv k (bound * 2) 2048 0 w) _ (λ r w1. Ensures-done _ _ _ unbound))
      | inr e' ↦ rw (e, e', un_binds_impl) (Ensures-done _ _ _ same)
    ]
  ]

  -- A queue that has no connection yet, with a port and a memory region.
  record IsPrepared (c : Core k) : Type 0 where
    port_bound : (p : ℕ) → c.bind_port ≡ some p → p ≤ max_service_num
    mr_ready : is_some c.local_mr ≡ true
    no_endpoint : c.remote_endpoint ≡ none
    port_known : is_some c.local_connect_port ≡ true

  prepare-IsPrepared :
      (v : Vq k) (port : ℕ) (w : k.World)
      → IsValid (core k v)
      → IsPrepared (core k (prepare k v port w))
  unfolding prepare
  prepare-IsPrepared v port w h = elim (Bool-cases (is_some v.local_dc)) [
    | inl e ↦
        rw (e, prepare)
          (record {
            port_bound = h.port_bound;
            mr_ready = refl;
            no_endpoint = h.no_endpoint;
            port_known = refl;
          })
    | inr e ↦
        rw (e, prepare)
          (record {
            port_bound = h.port_bound;
            mr_ready = refl;
            no_endpoint = h.no_endpoint;
            port_known = refl;
          })
  ]

  -- Any connection of a prepared queue is a valid state.
  prepared-IsValid :
      (v : Vq k) (qp : Option k.Rc)
      → IsPrepared (core k v)
      → IsValid (core k (record v { virtual_queue = qp }))
  prepared-IsValid v qp h = record {
    port_bound = h.port_bound;
    mr_ready = h.mr_ready;
    no_endpoint = h.no_endpoint;
    port_known = λ _. h.port_known;
  }

  connected-IsValid :
      (v : Vq k) (res : Option (Option k.Rc))
      → IsPrepared (core k v)
      → IsValid (core k (connected k v res).1)
  unfolding connected
  connected-IsValid v none h = record {
    port_bound = h.port_bound;
    mr_ready = h.mr_ready;
    no_endpoint = h.no_endpoint;
    port_known = λ _. h.port_known;
  }
  connected-IsValid v (some qp) h = prepared-IsValid v qp h

  connect_prepared-IsValid :
      (addr : List ℕ) (port vid : ℕ) (v : Vq k) (w : k.World)
      → IsPrepared (core k v)
      → Ensures (λ (s, v'). IsValid (core k v')) (connect_prepared k addr port vid v w)
  unfolding connect_prepared
  connect_prepared-IsValid addr port vid v w h =
      Ensures-resume _ _ _ _ (explore_path-core k v port addr w) (λ (path, v') w1 e.
        Ensures-any _ (qp_connect k vid port path w1) _
          (λ res w2. Ensures-done _ _ _ (connected-IsValid v' res (subst IsPrepared e h))))

  pub connect_impl-Follows :
      (v : Vq k) (addr : List ℕ) (port vid : ℕ) (w : k.World)
      → IsValid (core k v)
      → Ensures (Leads v) (connect_impl k v addr port vid w)
  unfolding connect_impl
  connect_impl-Follows v addr port vid w h = elim (Bool-cases (is_some v.virtual_queue)) [
    | inl e ↦ rw (e, connect_impl) (Ensures-done _ _ _ (same-Follows _ _ h refl))
    | inr e ↦ elim (Bool-cases (k.parse_guid addr)) [
      | inl e' ↦
          rw (e, e', connect_impl)
            (Ensures-map _ _ _
              (λ (s, v') h'. record { valid = h'; stays = λ qp at. ground (arith, e, at) })
              (connect_prepared-IsValid addr port vid (prepare k v port w) w
                (prepare-IsPrepared v port w h)))
      | inr e' ↦ rw (e, e', connect_impl) (Ensures-done _ _ _ (same-Follows _ _ h refl))
    ]
  ]
