-- ===== src/Syscall/Counting.antt =====
-- The counters of `bind_server_push_impl` of virtual_queue.rs, from which its second loop takes how
-- many receives it posts again.
use krcore_artifacts.Prelude.{
  [], ℕ, zero, suc, ◌+◌, ◌%◌, ◌<◌, ◌≡◌, refl, ◌∙◌, inl, inr, Bool, true, List, ◌∷◌, arith, length,
  get_or, replicate, done, length-set, get_or-set_self, get_or-set_ne, ◌==◌, if◌then◌else◌,
  Bool-cases, eq_cases,
}
use krcore_artifacts.Prelude.Effects.{
  lift, expect, Ensures, Ensures-any, Ensures-resume, Ensures-map, Ensures-done, Ensures-result,
}
use krcore_artifacts.Syscall.Abi.{CoreReq, op_code_table, is_ok}
use krcore_artifacts.Syscall.Kernel.{Kernel, TempMr}
use krcore_artifacts.Syscall.Queue.{Vq, check_bind}
use krcore_artifacts.Syscall.Server.{
  Counters, Pushed, host_len, no_counts, bump, client_endpoint, ud_reply, rc_reply, push_one,
  push_reqs,
}

-- What is counted for client `vid`.
abbrev pub counted : Counters → ℕ → ℕ
counted cnts vid = get_or cnts.ud vid 0 + get_or cnts.rc vid 0

abbrev pub one_if : Bool → ℕ
one_if b = if b then 1 else 0

-- The requests for client `vid`.
abbrev pub requests_of : ℕ → List CoreReq → ℕ
requests_of vid [] = 0
requests_of vid (req ∷ reqs) = one_if (req.vid % host_len == vid) + requests_of vid reqs

pub record HasHosts (cnts : Counters) : Type 0 where
  ud_hosts : length cnts.ud ≡ host_len
  rc_hosts : length cnts.rc ≡ host_len

bump-at :
    (xs : List ℕ) (i vid : ℕ)
    → i < length xs
    → get_or (bump xs i) vid 0 ≡ get_or xs vid 0 + one_if (i == vid)
bump-at xs i vid h = elim (eq_cases i vid) [
  | inl e ↦ rw e (ground (arith, get_or-set_self xs i (get_or xs i 0 + 1) 0 h, e))
  | inr ne ↦ ground (arith, get_or-set_ne xs i vid (get_or xs i 0 + 1) 0 ne, ne)
]

-- One request was counted for client `i`.
record Counted (i : ℕ) (cnts cnts' : Counters) : Type 0 where
  hosts : HasHosts cnts'
  more : (vid : ℕ) → counted cnts' vid ≡ counted cnts vid + one_if (i == vid)

ud-Counted :
    (i : ℕ) (cnts : Counters)
    → i < host_len
    → HasHosts cnts
    → Counted i cnts (record cnts { ud = bump cnts.ud i })
ud-Counted i cnts small h = record {
  hosts = record { ud_hosts = length-set cnts.ud i _ ∙ h.ud_hosts; rc_hosts = h.rc_hosts };
  more = λ vid. omega (arith, bump-at cnts.ud i vid (omega (arith, h.ud_hosts)));
}

rc-Counted :
    (i : ℕ) (cnts : Counters)
    → i < host_len
    → HasHosts cnts
    → Counted i cnts (record cnts { rc = bump cnts.rc i })
rc-Counted i cnts small h = record {
  hosts = record { ud_hosts = h.ud_hosts; rc_hosts = length-set cnts.rc i _ ∙ h.rc_hosts };
  more = λ vid. omega (arith, bump-at cnts.rc i vid (omega (arith, h.rc_hosts)));
}

module _ (k : Kernel) where
  ud_reply-Counted :
      (ctrl : ℕ) (mr : TempMr) (cnts : Counters) (i : ℕ) (point : k.EndPoint) (req : CoreReq)
      (w : k.World)
      → i < host_len
      → HasHosts cnts
      → Ensures (λ (sent, c). Counted i cnts c) (ud_reply k ctrl mr cnts i point req w)
  unfolding ud_reply
  ud_reply-Counted ctrl mr cnts i point req w small h =
      Ensures-any _ (expect (k.get_ud ctrl w) w) _ (λ qp w1.
        Ensures-any _ (lift (op_code_table req.type_) w1) _ (λ op w2.
          Ensures-any _ (k.ud_push qp _ point w2) _
            (λ sent w3. Ensures-done _ _ _ (ud-Counted i cnts small h))))

  rc_reply-Counted :
      (ctrl : ℕ) (mr : TempMr) (cnts : Counters) (i : ℕ) (req : CoreReq) (w : k.World)
      → i < host_len
      → HasHosts cnts
      → Ensures (λ (sent, c). Counted i cnts c) (rc_reply k ctrl mr cnts i req w)
  unfolding rc_reply
  rc_reply-Counted ctrl mr cnts i req w small h =
      Ensures-any _ (expect (k.get_trc ctrl i w) w) _ (λ qp w1.
        Ensures-any _ (lift (op_code_table req.type_) w1) _ (λ op w2.
          Ensures-any _ (k.rc_push_with_imm qp _ w2) _
            (λ sent w3. Ensures-done _ _ _ (rc-Counted i cnts small h))))

  push_one-Counted :
      (v : Vq k) (ctrl : ℕ) (mr : TempMr) (cnts : Counters) (req : CoreReq) (w : k.World)
      → HasHosts cnts
      → Ensures
          (λ (sent, v', c). Counted (req.vid % host_len) cnts c)
          (push_one k v ctrl mr cnts req w)
  unfolding push_one
  push_one-Counted v ctrl mr cnts req w h =
      let small : req.vid % host_len < host_len = omega arith in
      elim (Bool-cases (check_bind v (req.vid % host_len) w)) [
        | inl e ↦
            rw (e, push_one)
              (Ensures-resume _ _ _ _ (rc_reply-Counted ctrl mr cnts _ req w small h)
                (λ r w1 c. Ensures-done _ _ _ c))
        | inr e ↦
            rw (e, push_one)
              (Ensures-any _ (client_endpoint k v ctrl (req.vid % host_len) _ w) _
                (λ (point, v') w1.
                  Ensures-resume _ _ _ _ (ud_reply-Counted ctrl mr cnts _ point req w1 small h)
                    (λ r w2 c. Ensures-done _ _ _ c)))
      ]

  push_reqs-counts :
      (v : Vq k) (ctrl : ℕ) (mr : TempMr) (cnts : Counters) (reqs : List CoreReq) (w : k.World)
      → HasHosts cnts
      → Ensures
          (λ p.
            is_ok p.res ≡ true
            → (vid : ℕ) → counted p.cnts vid ≡ counted cnts vid + requests_of vid reqs)
          (push_reqs k v ctrl mr cnts reqs w)
  unfolding push_reqs
  push_reqs-counts v ctrl mr cnts [] w h = Ensures-done _ _ _ (λ _ vid. omega arith)
  push_reqs-counts v ctrl mr cnts (req ∷ reqs) w h =
      Ensures-resume _ _ _ _ (push_one-Counted v ctrl mr cnts req w h) (λ (sent, v1, c) w1 one.
        elim (Bool-cases sent) [
          | inl e ↦ rw e (
              Ensures-map _ _ _ (λ p all good vid. omega (arith, all good vid, one.more vid))
                (push_reqs-counts v1 ctrl mr c reqs w1 one.hosts))
          | inr e ↦ rw e (Ensures-done _ _ _ (λ bad. ground (arith, bad)))
        ])

  no_counts_zero : (n vid : ℕ) → get_or (replicate {A = ℕ} n 0) vid 0 ≡ 0
  no_counts_zero zero vid = refl
  no_counts_zero (suc n) zero = refl
  no_counts_zero (suc n) (suc vid) = no_counts_zero n vid

  -- If the first loop pushes a batch without an error, then for every client it has counted the
  -- requests of that client.
  pub push_reqs-counted :
      (v : Vq k) (ctrl : ℕ) (mr : TempMr) (reqs : List CoreReq) (w w' : k.World) (p : Pushed k)
      → push_reqs k v ctrl mr no_counts reqs w ≡ done (p, w')
      → is_ok p.res ≡ true
      → (vid : ℕ) → counted p.cnts vid ≡ requests_of vid reqs
  push_reqs-counted v ctrl mr reqs w w' p e good vid =
      let hosts : HasHosts no_counts = record { ud_hosts = refl; rc_hosts = refl } in
      let all =
        Ensures-result _ _ _ _ (push_reqs-counts v ctrl mr no_counts reqs w hosts) e good vid in
      omega (arith, all, no_counts_zero 12 vid)
