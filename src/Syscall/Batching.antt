-- ===== src/Syscall/Batching.antt =====
-- `Push` of virtual_queue.rs hands the user's requests over in batches of 64. On a connected queue
-- the batches are not visible.
use krcore_artifacts.Prelude.{
  ℕ, zero, suc, ◌+◌, ◌-◌, ◌≤◌, ◌<◌, min, ◌≡◌, refl, sym, ◌∙◌, ap, inl, inr, ◌⊎◌, lt_or_ge, Bool,
  none, some, List, [], ◌∷◌, ◌++◌, arith, if◌then◌else◌, lt→ltb,
}
use krcore_artifacts.Prelude.Effects.{
  Eff, pure, resume, resume-ext, resume-congr, resume-congr_if, resume-then_if, resume-then, lift,
  ◌>>=◌,
}
use krcore_artifacts.Syscall.Abi.{is_err, Status, err, ok, CoreReq}
use krcore_artifacts.Syscall.Kernel.{Kernel, TempMr}
use krcore_artifacts.Syscall.Queue.{Vq}
use krcore_artifacts.Syscall.Request.{build_push}
use krcore_artifacts.Syscall.Send.{rc_push_all, rc_push_impl}
use krcore_artifacts.Syscall.Ioctl.{
  copy_reqs, default_batch_sz, push_batch, push_loop, pop_res, recv_first, push_impl,
}

copy_reqs-add :
    (reqs : ℕ → CoreReq) (i m n : ℕ)
    → copy_reqs reqs i (m + n) ≡ copy_reqs reqs i m ++ copy_reqs reqs (i + m) n
copy_reqs-add reqs i zero n =
    let left : 0 + n ≡ n = omega arith in let here : i + 0 ≡ i = omega arith in rw (left, here)
copy_reqs-add reqs i (suc m) n =
    let left : suc m + n ≡ suc (m + n) = omega arith in
    let shift : i + suc m ≡ suc i + m = omega arith in
    rw (left, shift) (ap (◌∷◌ (reqs i)) (copy_reqs-add reqs (suc i) m n))

module _ (k : Kernel) (qp : k.Rc) (mr : TempMr) where
  -- What follows the pushes sees `ok` or `err` only.
  rc_push_all-congr :
      {B : Type 0} (reqs : List CoreReq) (w : k.World) (f g : Status → Eff k.World B)
      → ((w' : k.World) → f ok w' ≡ g ok w')
      → ((w' : k.World) → f err w' ≡ g err w')
      → resume (rc_push_all k qp mr reqs w) f ≡ resume (rc_push_all k qp mr reqs w) g
  unfolding rc_push_all
  rc_push_all-congr [] w f g at_ok at_err = at_ok w
  rc_push_all-congr (req ∷ reqs) w f g at_ok at_err =
      resume-congr (lift (build_push k mr (k.rc_remote_mr qp) req.vid req) w) _ f g (λ p w1.
        resume-congr (k.rc_push_with_imm qp p w1) _ f g (λ sent w2.
          resume-congr_if sent (rc_push_all k qp mr reqs) (pure err) w2 f g
            (rc_push_all-congr reqs w2 f g at_ok at_err) (at_err w2)))

  abbrev unless_err : List CoreReq → Status → Eff k.World Status
  unless_err ys s = if is_err s then pure s else rc_push_all k qp mr ys

  -- Two batches in a row are one batch, whose pushes end at the first that fails.
  rc_push_all-append :
      (xs ys : List CoreReq) (w : k.World)
      → rc_push_all k qp mr (xs ++ ys) w ≡ resume (rc_push_all k qp mr xs w) (unless_err ys)
  unfolding rc_push_all
  rc_push_all-append [] ys w = refl
  rc_push_all-append (req ∷ xs) ys w =
      resume-then (lift (build_push k mr (k.rc_remote_mr qp) req.vid req) w) _ (unless_err ys) _
        (λ p w1. resume-then (k.rc_push_with_imm qp p w1) _ (unless_err ys) _ (λ sent w2.
          resume-then_if sent (rc_push_all k qp mr xs) (pure err) (rc_push_all k qp mr (xs ++ ys))
            (pure err) w2 (unless_err ys) (rc_push_all-append xs ys w2) refl))

  abbrev with_vq : Vq k → Status → Eff k.World (Status × Vq k)
  with_vq v s = pure (s, v)

  -- A queue that is not bound, connected by `qp`.
  abbrev IsConnected : Vq k → Type 0
  IsConnected v =
      (v.bind_port ≡ none) × (v.virtual_queue ≡ some qp) × (v.local_cache.local_mr ≡ some mr)

  push_batch-connected :
      (v : Vq k) (reqs : List CoreReq) (pop_at_once : Bool) (w : k.World)
      → IsConnected v
      → push_batch k v reqs pop_at_once w ≡ resume (rc_push_all k qp mr reqs w) (with_vq v)
  unfolding push_batch rc_push_impl
  push_batch-connected v reqs pop_at_once w c = rw (c.0, c.1, c.2)

  module _ (v : Vq k) (reqs : ℕ → CoreReq) (pop_at_once : Bool) (c : IsConnected v) where
    -- The pushes of the requests from `i` to `n`, as one batch.
    abbrev unbatched : ℕ → ℕ → Eff k.World (Status × Vq k)
    unbatched i n w = resume (rc_push_all k qp mr (copy_reqs reqs i (n - i)) w) (with_vq v)

    abbrev rest_of_loop : ℕ → ℕ → ℕ → (Status × Vq k) → Eff k.World (Status × Vq k)
    rest_of_loop fuel i n (ret, v') =
        if is_err ret then pure (ret, v') else push_loop k fuel v' ret reqs i n pop_at_once

    unbatched-add :
        (i m n : ℕ) (w : k.World)
        → i + m ≤ n
        → unbatched i n w
          ≡ resume
              (rc_push_all k qp mr (copy_reqs reqs i m) w)
              (λ s w'. resume (unless_err (copy_reqs reqs (i + m) (n - (i + m))) s w') (with_vq v))
    unbatched-add i m n w h =
        let split : n - i ≡ m + (n - (i + m)) = omega arith in
        let xs = copy_reqs reqs i m in
        let ys = copy_reqs reqs (i + m) (n - (i + m)) in
        ap (λ l. resume (rc_push_all k qp mr l w) (with_vq v))
          (ap (copy_reqs reqs i) split ∙ copy_reqs-add reqs i m (n - (i + m)))
        ∙ ap (λ x. resume x (with_vq v)) (rc_push_all-append xs ys w)
        ∙ sym (resume-then (rc_push_all k qp mr xs w) (unless_err ys) (with_vq v) _ (λ s w'. refl))

    push_round :
        (fuel i m n : ℕ) (w : k.World)
        → i + m ≤ n
        → ((w' : k.World)
            → push_loop k fuel v ok reqs (i + m) n pop_at_once w' ≡ unbatched (i + m) n w')
        → resume (push_batch k v (copy_reqs reqs i m) pop_at_once w) (rest_of_loop fuel (i + m) n)
          ≡ unbatched i n w
    push_round fuel i m n w h later =
        let xs = copy_reqs reqs i m in
        let pushed = rc_push_all k qp mr xs w in
        ap (λ x. resume x (rest_of_loop fuel (i + m) n)) (push_batch-connected v xs pop_at_once w c)
        ∙ sym (resume-then pushed (with_vq v) (rest_of_loop fuel (i + m) n) _ (λ s w'. refl))
        ∙ rc_push_all-congr xs w _ _ later (λ w'. refl)
        ∙ sym (unbatched-add i m n w h)

    push_loop-step :
        (fuel i n : ℕ) (ret : Status) (w : k.World)
        → i < n
        → push_loop k (suc fuel) v ret reqs i n pop_at_once w ≡ (
            let m = min default_batch_sz (n - i) in
            resume
              (push_batch k v (copy_reqs reqs i m) pop_at_once w)
              (rest_of_loop fuel (i + m) n))
    unfolding push_loop
    push_loop-step fuel i n ret w h = rw (lt→ltb i n h)

    push_loop-end :
        (fuel i n : ℕ) (w : k.World)
        → i ≡ n
        → push_loop k fuel v ok reqs i n pop_at_once w ≡ unbatched i n w
    unfolding push_loop rc_push_all
    push_loop-end zero i n w e = ground arith
    push_loop-end (suc fuel) i n w e = ground arith

    push_loop-unbatched :
        (fuel i n : ℕ) (ret : Status) (w : k.World)
        → i ≤ n
        → n ≤ i + fuel
        → (i < n) ⊎ (ret ≡ ok)
        → push_loop k fuel v ret reqs i n pop_at_once w ≡ unbatched i n w
    push_loop-unbatched zero i n ret w le enough (inl h) = absurd (omega arith)
    push_loop-unbatched zero i n ret w le enough (inr e) =
        rw e (push_loop-end zero i n w (omega arith))
    push_loop-unbatched (suc fuel) i n ret w le enough start = elim (lt_or_ge i n) [
      | inl h ↦
          let m = min default_batch_sz (n - i) in
          push_loop-step fuel i n ret w h
          ∙ push_round fuel i m n w (omega arith) (λ w'.
            push_loop-unbatched fuel (i + m) n ok w' (omega arith) (omega arith) (inr refl))
      | inr h ↦ elim start [
        | inl h' ↦ absurd (omega arith)
        | inr e ↦ rw e (push_loop-end (suc fuel) i n w (omega arith))
      ]
    ]

    -- The end of `push_impl`, after the loop.
    abbrev finished : (Status × Vq k) → Eff k.World (Status × Vq k)
    finished (ret, v') = pop_res k v' ret pop_at_once >>= λ ret'. pure (ret', v')

    rc_push_impl-connected :
        (l : List CoreReq) (w : k.World) → rc_push_impl k v l w ≡ rc_push_all k qp mr l w
    unfolding rc_push_impl
    rc_push_impl-connected l w = rw (c.1, c.2)

    loop-finished :
        (n : ℕ) (ret : Status) (w : k.World)
        → 0 < n
        → resume (push_loop k n v ret reqs 0 n pop_at_once w) finished
          ≡ resume (rc_push_impl k v (copy_reqs reqs 0 n) w) (λ s. finished (s, v))
    loop-finished n ret w h =
        let none_left : n - 0 ≡ n = omega arith in
        let all = rc_push_all k qp mr (copy_reqs reqs 0 (n - 0)) w in
        ap (λ x. resume x finished)
          (push_loop-unbatched n 0 n ret w (omega arith) (omega arith) (inl h))
        ∙ sym (resume-then all (with_vq v) finished _ (λ s w'. refl))
        ∙ ap (λ j. resume (rc_push_all k qp mr (copy_reqs reqs 0 j) w) (λ s. finished (s, v)))
            none_left
        ∙ ap (λ x. resume x (λ s. finished (s, v)))
            (sym (rc_push_impl-connected (copy_reqs reqs 0 n) w))

    -- Of a queue that is connected, has a memory region and is not bound, a `Push` of at least one
    -- request posts all of them in order as a single `rc_push_impl` does, up to the first that
    -- fails, whatever their number; the rounds of its loop are enough, and the receives that it
    -- posts first do not show in its status.
    pub push_impl-unbatched :
        (push_recv_cnt n : ℕ) (w : k.World)
        → 0 < n
        → push_impl k v pop_at_once push_recv_cnt n reqs w
          ≡ (recv_first k v push_recv_cnt >>= λ _. rc_push_impl k v (copy_reqs reqs 0 n) >>= λ ret.
                pop_res k v ret pop_at_once >>= λ ret'. pure (ret', v))
              w
    push_impl-unbatched push_recv_cnt n w h =
        unfold push_impl in
        resume-ext (recv_first k v push_recv_cnt w) _ _ (λ ret w'. loop-finished n ret w' h)
