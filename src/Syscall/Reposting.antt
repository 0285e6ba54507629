-- ===== src/Syscall/Reposting.antt =====
-- The two loops of `bind_server_push_impl` of virtual_queue.rs together: how many receives the second
-- one posts again.
use krcore_artifacts.Prelude.{
  ℕ, zero, suc, ◌+◌, ◌≡◌, ◌∙◌, refl, inl, inr, Bool, true, false, Option, none, some, List, arith,
  done, ltb, Bool-cases, get_or, if◌then◌else◌, is_some,
}
use krcore_artifacts.Prelude.Effects.{
  Eff, look, expect, pure, ◌>>=◌, Leaves, Leaves-done, Leaves-panic, Leaves-resume, Leaves-result,
  Leaves-map,
}
use krcore_artifacts.Syscall.Abi.{CoreReq, Status, ok, is_ok}
use krcore_artifacts.Syscall.Kernel.{Kernel, TempMr, WcPtr}
use krcore_artifacts.Syscall.Queue.{Vq}
use krcore_artifacts.Syscall.Server.{
  Counters, Pushed, no_counts, push_reqs, ud_finish, rc_finish, finish_from, finish_pushed,
}
use krcore_artifacts.Syscall.Counting.{counted, requests_of, push_reqs-counted}

-- Documented behaviour of the calls of the second loop, where `posted` is how many receives have been
-- posted: a posting that succeeds posts as many as it is asked for, and waiting posts none.
pub record PostsReceives (k : Kernel) (posted : k.World → ℕ) : Type 0 where
  pub ud_posts :
      (ctrl cnt : ℕ) (w : k.World)
      → Leaves
          (Unit {0})
          (λ good w'. good ≡ true → posted w' ≡ posted w + cnt)
          (k.ud_post_recv ctrl cnt w)
  pub rc_posts :
      (ctrl vid cnt : ℕ) (w : k.World)
      → Leaves
          (Unit {0})
          (λ good w'. good ≡ true → posted w' ≡ posted w + cnt)
          (k.trc_post_recv ctrl vid cnt w)
  pub ud_waits :
      (qp : k.Ud) (w : k.World)
      → Leaves (Unit {0}) (λ res w'. posted w' ≡ posted w) (k.ud_wait_til_comp qp w)
  pub rc_waits :
      (qp : k.Rc) (w : k.World)
      → Leaves (Unit {0}) (λ res w'. posted w' ≡ posted w) (k.rc_wait_til_comp qp w)

-- What is counted for `n` clients from `vid` on, and what they requested.
abbrev pub counted_from : ℕ → ℕ → Counters → ℕ
counted_from zero vid cnts = 0
counted_from (suc n) vid cnts = counted cnts vid + counted_from n (vid + 1) cnts

abbrev pub requests_from : ℕ → ℕ → List CoreReq → ℕ
requests_from zero vid reqs = 0
requests_from (suc n) vid reqs = requests_of vid reqs + requests_from n (vid + 1) reqs

counted-requests_from :
    (n vid : ℕ) (cnts : Counters) (reqs : List CoreReq)
    → ((i : ℕ) → counted cnts i ≡ requests_of i reqs)
    → counted_from n vid cnts ≡ requests_from n vid reqs
counted-requests_from zero vid cnts reqs same = refl
counted-requests_from (suc n) vid cnts reqs same =
    omega (arith, same vid, counted-requests_from n (vid + 1) cnts reqs same)

module _ (k : Kernel) (posted : k.World → ℕ) (law : PostsReceives k posted) where
  -- A call posts `cnt` receives if it succeeds.
  abbrev Posts : ℕ → k.World → Bool → k.World → Type 0
  Posts cnt w good w' = good ≡ true → posted w' ≡ posted w + cnt

  -- The wait after a posting.
  abbrev waiting :
      {Q : Type 0} → (k.World → Option Q) → (Q → Eff k.World (Option WcPtr)) → Eff k.World Bool
  waiting find wait = do found ← look find; qp ← expect found; res ← wait qp; pure (is_some res)

  waited-Posts :
      {Q : Type 0} (find : k.World → Option Q) (wait : Q → Eff k.World (Option WcPtr)) (cnt : ℕ)
      (w w1 : k.World)
      → ((qp : Q) (w2 : k.World) → Leaves (Unit {0}) (λ res w'. posted w' ≡ posted w2) (wait qp w2))
      → posted w1 ≡ posted w + cnt
      → Leaves (Unit {0}) (Posts cnt w) (waiting find wait w1)
  waited-Posts {Q} find wait cnt w w1 waits p = go (find w1)
    where
      go :
          (o : Option Q)
          → Leaves
              (Unit {0})
              (Posts cnt w)
              ((expect o >>= λ qp. wait qp >>= λ res. pure (is_some res)) w1)
      go none = Leaves-panic _ _ tt
      go (some qp) =
          Leaves-resume _ _ _ (wait qp w1) _ (waits qp w1)
            (λ res w2 same. Leaves-done _ _ _ _ (λ good. same ∙ p))

  -- A posting, and the wait if there is one.
  after_post-Posts :
      (cnt : ℕ) (pop : Bool) (w : k.World) (post wait : Eff k.World Bool)
      → Leaves (Unit {0}) (Posts cnt w) (post w)
      → ((w1 : k.World) → posted w1 ≡ posted w + cnt → Leaves (Unit {0}) (Posts cnt w) (wait w1))
      → Leaves
          (Unit {0})
          (Posts cnt w)
          ((post >>= λ good. if good then (if pop then wait else pure true) else pure false) w)
  after_post-Posts cnt pop w post wait posts waits =
      Leaves-resume _ (Posts cnt w) _ (post w) _ posts (λ good w1 p. elim (Bool-cases good) [
        | inl e ↦ elim (Bool-cases pop) [
          | inl q ↦ rw (e, q) (waits w1 (p e))
          | inr q ↦ rw (e, q) (Leaves-done _ _ _ _ (λ g. p e))
        ]
        | inr e ↦ rw e (Leaves-done _ _ _ _ (λ bad. absurd (cc)))
      ])

  ud_finish-Posts :
      (ctrl cnt : ℕ) (pop : Bool) (w : k.World)
      → Leaves (Unit {0}) (Posts cnt w) (ud_finish k ctrl cnt pop w)
  unfolding ud_finish
  ud_finish-Posts ctrl cnt pop w = elim (Bool-cases (ltb 0 cnt)) [
    | inl e ↦
        rw (e, ud_finish)
          (after_post-Posts cnt pop w (k.ud_post_recv ctrl cnt)
            (waiting (k.get_ud ctrl) k.ud_wait_til_comp) (law.ud_posts ctrl cnt w)
            (λ w1 p. waited-Posts (k.get_ud ctrl) k.ud_wait_til_comp cnt w w1 law.ud_waits p))
    | inr e ↦ rw (e, ud_finish) (Leaves-done _ _ _ _ (λ good. ground (arith, e)))
  ]

  rc_finish-Posts :
      (ctrl vid cnt : ℕ) (pop : Bool) (w : k.World)
      → Leaves (Unit {0}) (Posts cnt w) (rc_finish k ctrl vid cnt pop w)
  unfolding rc_finish
  rc_finish-Posts ctrl vid cnt pop w = elim (Bool-cases (ltb 0 cnt)) [
    | inl e ↦
        rw (e, rc_finish)
          (after_post-Posts cnt pop w (k.trc_post_recv ctrl vid cnt)
            (waiting (k.get_trc ctrl vid) k.rc_wait_til_comp) (law.rc_posts ctrl vid cnt w)
            (λ w1 p. waited-Posts (k.get_trc ctrl vid) k.rc_wait_til_comp cnt w w1 law.rc_waits p))
    | inr e ↦ rw (e, rc_finish) (Leaves-done _ _ _ _ (λ good. ground (arith, e)))
  ]

  -- The loop posts all that is counted, if it answers `ok`.
  abbrev Finishes : ℕ → k.World → Status → k.World → Type 0
  Finishes cnt w res w' = is_ok res ≡ true → posted w' ≡ posted w + cnt

  finish_from-Finishes :
      (n vid ctrl : ℕ) (cnts : Counters) (pop : Bool) (w : k.World)
      → Leaves
          (Unit {0})
          (Finishes (counted_from n vid cnts) w)
          (finish_from k n vid ctrl cnts pop w)
  unfolding finish_from
  finish_from-Finishes zero vid ctrl cnts pop w = Leaves-done _ _ _ _ (λ good. omega arith)
  finish_from-Finishes (suc n) vid ctrl cnts pop w =
      let ud = get_or cnts.ud vid 0 in
      let rc = get_or cnts.rc vid 0 in
      let F = Finishes (counted_from (suc n) vid cnts) w in
      Leaves-resume _ (Posts ud w) F (ud_finish k ctrl ud pop w) _ (ud_finish-Posts ctrl ud pop w)
        (λ ud_good w1 p1. elim (Bool-cases ud_good) [
          | inl e1 ↦ rw e1 (
              Leaves-resume _ (Posts rc w1) F (rc_finish k ctrl vid rc pop w1) _
                (rc_finish-Posts ctrl vid rc pop w1)
                (λ rc_good w2 p2. elim (Bool-cases rc_good) [
                  | inl e2 ↦ rw e2 (
                      Leaves-map _ _ (Finishes (counted_from n (vid + 1) cnts) w2) F _ (λ c. c)
                        (λ res w3 all good. omega (arith, all good, p1 e1, p2 e2))
                        (finish_from-Finishes n (vid + 1) ctrl cnts pop w2))
                  | inr e2 ↦ rw e2 (Leaves-done _ _ _ _ (λ bad. absurd (cc)))
                ]))
          | inr e1 ↦ rw e1 (Leaves-done _ _ _ _ (λ bad. absurd (cc)))
        ])

  finish_pushed-Finishes :
      (ctrl : ℕ) (pop : Bool) (p : Pushed k) (w : k.World)
      → is_ok p.res ≡ true
      → Leaves
          (Unit {0})
          (λ (res, v) w'. Finishes (counted_from 11 1 p.cnts) w res w')
          (finish_pushed k ctrl pop p w)
  unfolding finish_pushed
  finish_pushed-Finishes ctrl pop p w good =
      rw (good, finish_pushed)
        (Leaves-resume _ (Finishes (counted_from 11 1 p.cnts) w) _
          (finish_from k 11 1 ctrl p.cnts pop w) _ (finish_from-Finishes 11 1 ctrl p.cnts pop w)
          (λ res w' all. Leaves-done _ _ _ _ all))

  -- On calls that behave as documented: if the first loop of `bind_server_push_impl` pushes a batch of
  -- requests without an error, and the second loop then answers `ok`, then the second loop has posted
  -- as many receives again as the batch has requests for the clients 1 to 11; it posts none for those
  -- for client 0.
  pub push_reqs-reposts :
      (v v' : Vq k) (ctrl : ℕ) (mr : TempMr) (reqs : List CoreReq) (pop : Bool) (w w1 w2 : k.World)
      (p : Pushed k)
      → push_reqs k v ctrl mr no_counts reqs w ≡ done (p, w1)
      → is_ok p.res ≡ true
      → finish_pushed k ctrl pop p w1 ≡ done ((ok, v'), w2)
      → posted w2 ≡ posted w1 + requests_from 11 1 reqs
  push_reqs-reposts v v' ctrl mr reqs pop w w1 w2 p pushes good finishes =
      let all = Leaves-result _ _ _ _ _ (finish_pushed-Finishes ctrl pop p w1 good) finishes refl in
      omega (
        arith,
        all,
        counted-requests_from 11 1 p.cnts reqs
            (push_reqs-counted k v ctrl mr reqs w w1 p pushes good),
      )
