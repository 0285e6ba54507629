-- ===== src/Syscall/Polling.antt =====
-- `PopMsgs` of virtual_queue.rs: its loop polls at most 50,002 times.
use krcore_artifacts.Prelude.{
  ℕ, zero, suc, ◌+◌, ◌*◌, ◌≤◌, ◌<◌, ◌≡◌, refl, inl, inr, true, ◌||◌, Option, none, some, Outcome,
  done, arith, is_some, leb, ltb, Bool-cases, Option-cases,
}
use krcore_artifacts.Prelude.Effects.{pure, resume, expect, Returns, Returns-done, Returns-resume}
use krcore_artifacts.Syscall.Abi.{Status, nil}
use krcore_artifacts.Syscall.Kernel.{Kernel, Wc, WcPtr}
use krcore_artifacts.Syscall.Queue.{Vq, is_bind_mode}
use krcore_artifacts.Syscall.Recv.{
  pop_recv, poll_msgs, copy_wcs, handle_pop_ret, pop_msg_loop, pop_msg_impl,
}

module _ (k : Kernel) where
  abbrev Always : {A : Type 0} → Outcome (A × k.World) → Type 0
  Always x = Returns (λ _. Unit {0}) x

  -- Polling the completion queue answers no error, and polling and copying do not panic.
  pub record Polls : Type 0 where
    pub pops :
        (ctrl n offset : ℕ) (w : k.World)
        → Returns (λ r. is_some r ≡ true) (k.pop_recvs ctrl n offset w)
    pub moves : (addr size : ℕ) (w : k.World) → Always (k.copy_payload addr size w)
    pub copies : (i : ℕ) (wc : Wc) (w : k.World) → Always (k.copy_wc_to_user i wc w)
    pub counts : (n : ℕ) (w : k.World) → Always (k.copy_pop_len_to_user n w)

  module _ (p : Polls) where
    expect-Returns :
        {A : Type 0} (o : Option A) (w : k.World) → is_some o ≡ true → Always (expect o w)
    expect-Returns none w h = ground (arith, h)
    expect-Returns (some a) w h = Returns-done _ _ _ tt

    pop_recv-Returns : (core_id n offset : ℕ) (w : k.World) → Always (pop_recv k core_id n offset w)
    unfolding pop_recv
    pop_recv-Returns core_id n offset w =
        Returns-resume _ _ _ _ (p.pops _ n offset w) (λ r w1 h. expect-Returns r w1 h)

    poll_msgs-Returns : (v : Vq k) (act : ℕ) (w : k.World) → Always (poll_msgs k v act w)
    unfolding poll_msgs
    poll_msgs-Returns v act w = elim (Option-cases v.bind_port) [
      | inr (port, e) ↦ rw (e, poll_msgs) (pop_recv-Returns (2 * port) 2048 0 w)
      | inl e ↦ elim (Option-cases v.local_connect_port) [
        | inr (port, e') ↦ rw (e, e', poll_msgs) (pop_recv-Returns port 2048 act w)
        | inl e' ↦ rw (e, e', poll_msgs) (Returns-done _ _ _ tt)
      ]
    ]

    copy_wcs-Returns :
        (n i : ℕ) (wc : WcPtr) (size : ℕ) (w : k.World) → Always (copy_wcs k n i wc size w)
    unfolding copy_wcs
    copy_wcs-Returns zero i wc size w = Returns-done _ _ _ tt
    copy_wcs-Returns (suc n) i wc size w = Returns-resume _ _ _ _ (p.moves _ size w) (λ _ w1 _.
        Returns-resume _ _ _ _ (p.copies i (wc i) w1)
          (λ _ w2 _. copy_wcs-Returns n (suc i) wc size w2))

    handle_pop_ret-Returns :
        (r : Option WcPtr) (n size : ℕ) (w : k.World) → Always (handle_pop_ret k r n size w)
    unfolding handle_pop_ret
    handle_pop_ret-Returns none n size w = Returns-done _ _ _ tt
    handle_pop_ret-Returns (some wc) n size w =
        Returns-resume _ _ _ _ (copy_wcs-Returns n 0 wc size w)
          (λ _ w1 _. Returns-resume _ _ _ _ (p.counts n w1) (λ _ w2 _. Returns-done _ _ _ tt))

    ends :
        (r : Option WcPtr) (n size : ℕ) (w : k.World)
        → Returns
            (λ s. is_some s ≡ true)
            (resume (handle_pop_ret k r n size w) (λ s. pure (some s)))
    ends r n size w =
        Returns-resume _ _ _ _ (handle_pop_ret-Returns r n size w)
          (λ s w1 _. Returns-done _ _ _ refl)

    pop_msg_loop-Returns :
        (fuel retry act least size : ℕ) (v : Vq k) (w : k.World)
        → retry ≤ 50001
        → 50001 < retry + fuel
        → Returns (λ s. is_some s ≡ true) (pop_msg_loop k fuel v retry act least size w)
    unfolding pop_msg_loop
    pop_msg_loop-Returns zero retry act least size v w le enough = absurd (omega arith)
    pop_msg_loop-Returns (suc fuel) retry act least size v w le enough =
        Returns-resume _ _ _ _ (poll_msgs-Returns v act w) (λ (r, n) w1 _.
          elim (Bool-cases (is_bind_mode v)) [
            | inl e ↦ rw e (ends r n size w1)
            | inr e ↦ elim (Bool-cases (leb least (act + n) || ltb 50000 retry)) [
              | inl e' ↦ rw (e, e') (ends r (act + n) size w1)
              | inr e' ↦
                  rw (e, e')
                    (pop_msg_loop-Returns fuel (retry + 1) (act + n) least size v w1
                      (ground (arith, e')) (omega arith))
            ]
          ])

    -- If polling answers no error, and neither polling nor copying panics, then `pop_msg_impl`
    -- returns on every virtual queue, whatever number of messages it is asked to wait for: the
    -- 50,002 rounds that the model gives its loop are enough.
    pub pop_msg_impl-Returns :
        (v : Vq k) (least size : ℕ) (w : k.World)
        → (s : Status) × (w' : k.World) × (pop_msg_impl k v least size w ≡ done (s, w'))
    unfolding pop_msg_impl Returns
    pop_msg_impl-Returns v least size w =
        let (s, w', e, _) =
          Returns-resume _ (λ _. Unit {0}) _ expect
            (pop_msg_loop-Returns 50002 0 0 least size v w (omega arith) (omega arith))
            (λ r w1 h. expect-Returns r w1 h) in
        (s, w', e)

  idle-loop :
      (fuel retry least size : ℕ) (v : Vq k) (w : k.World)
      → v.bind_port ≡ none
      → v.local_connect_port ≡ none
      → retry ≤ 50001
      → 50001 < retry + fuel
      → pop_msg_loop k fuel v retry 0 least size w ≡ done (some nil, w)
  unfolding pop_msg_loop poll_msgs handle_pop_ret
  idle-loop zero retry least size v w e e' le enough = absurd (omega arith)
  idle-loop (suc fuel) retry least size v w e e' le enough =
      elim (Bool-cases (leb least (0 + 0) || ltb 50000 retry)) [
        | inl stop ↦ rw (e, e', stop)
        | inr go ↦
            let rest =
              idle-loop fuel (retry + 1) least size v w e e' (ground (arith, go)) (omega arith) in
            rw (e, e', go) (rw (e, e') at rest)
      ]

  -- A virtual queue that is neither bound nor was ever connected answers `PopMsgs` with `nil`, for
  -- every number of messages to wait for, and without a call of the kernel.
  pub pop_msg_impl-idle :
      (v : Vq k) (least size : ℕ) (w : k.World)
      → v.bind_port ≡ none
      → v.local_connect_port ≡ none
      → pop_msg_impl k v least size w ≡ done (nil, w)
  unfolding pop_msg_impl
  pop_msg_impl-idle v least size w e e' =
      rw (idle-loop 50002 0 least size v w e e' (omega arith) (omega arith))
