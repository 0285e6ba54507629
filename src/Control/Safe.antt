-- ===== src/Control/Safe.antt =====
-- cm_handler on any event that ib_cm may deliver.
use krcore_artifacts.Prelude.{
  ℕ, ◌+◌, ◌≡◌, sym, refl, subst, ap, ◌∙◌, inl, inr, Bool, Option, none, some,
}
use krcore_artifacts.Manager.{Attempt, ok, err}
use krcore_artifacts.Control.{
  new_config, set_max_send_wr_sz, in_qp, Rc, Payload, replied_nil, Kernel, write, RCtrl, attempt,
  set_context,
}
use krcore_artifacts.Control.Operations.{new_with_srq, get_next_in_qp_key, connect_reply}
use krcore_artifacts.Control.Raise.{bring_to_rtr, bring_to_rts}
use krcore_artifacts.Control.Handler.{
  new_context, register_rc, register_conn, accept_conn, refuse_conn, finish_conn, rc_conn_callback,
}
use krcore_artifacts.Control.Sound.{
  key_for, IsSound, Registered, Restored, Registered-world, Concluded,
}
use krcore_artifacts.Control.Steps.{
  Arrived, Still, Numbered, new_with_srq-Numbered, get_next_in_qp_key-Still, bring_to_rtr-Still,
  bring_to_rts-Still, connect_reply-Still,
}
use krcore_artifacts.Control.Ensures.{
  write_self, write-ne, Ensures, Ensures-weaken, Ensures-resume, Ensures-caught,
}
use krcore_artifacts.Control.Requests.{Boxed, refuse_conn-Restored, register_rc-Registered}

module _ {k : Kernel} {s : RCtrl k} (v : IsSound s) (id : ℕ) where
  -- Nothing is left to be an error number.
  abbrev pub Never : RCtrl k → Type 0
  Never u = ⊥

  module _ (free : s.ids id ≡ none) where
    -- The id is as established as it was.
    abbrev KeptEst : ℕ → Bool → RCtrl k → Type 0
    KeptEst key on t = (b : Boxed v id free key t) × (b.est ≡ on)

    -- A box with the key becomes the context of the id.
    boxes_key :
        (key : ℕ) (q : Rc) (t : RCtrl k)
        → q.inner_cm ≡ some id
        → (a : Arrived s id t)
        → Ensures
            (λ u1 t1. KeptEst key a.est t1)
            Never
            (set_context k q.inner_cm
              (in_qp t.next_box)
              (record t { boxes = write t.next_box (some key) t.boxes; next_box = t.next_box + 1 }))
    boxes_key key q t owns a =
        rw (owns, a.made)
          (
            record {
              est = a.est;
              made =
                  write_self id _ t.ids
                  ∙ ap (λ n. some (record { context = in_qp n; established = a.est })) a.next;
              others = λ j ne. write-ne id j _ t.ids ne ∙ a.others j ne;
              box =
                  ap (λ n. write t.next_box (some key) t.boxes n) (sym a.next)
                  ∙ write_self t.next_box (some key) t.boxes;
              boxes = λ b ne.
                  write-ne t.next_box b (some key) t.boxes (λ e. ne (e ∙ a.next))
                  ∙ ap (λ (f : ℕ → Option ℕ). f b) a.boxes;
              next = ap (λ n. n + 1) a.next;
              rcs = a.rcs;
            },
            refl,
          )

    -- What follows the reply registers the RC, and the id is as established as after the reply.
    pub register_conn-Registered :
        (q : Rc) (key : ℕ) (ret : Attempt ℕ (Unit {0})) (t : RCtrl k)
        → q.inner_cm ≡ some id
        → (a : Arrived s id t)
        → Ensures (λ r u. Registered s u id key a.est q) Never (register_conn k q key ret t)
    register_conn-Registered q key ret t owns a =
        Ensures-resume (λ u t1. KeptEst key a.est t1) (λ r u. Registered s u id key a.est q) Never
          (set_context k q.inner_cm (in_qp t.next_box) (new_context k key t).1) _
          (boxes_key key q t owns a)
          (λ u t1 (b, same). Registered-world s _ (
            subst (λ on. Registered s (register_rc k key q t1) id key on q) same
              (register_rc-Registered v id free key q t1 owns b)))

    pub accept_conn-Registered :
        (q : Rc) (key : ℕ) (reply : Payload) (t : RCtrl k)
        → q.inner_cm ≡ some id
        → Arrived s id t
        → Ensures
            (λ r u. (est : Bool) × Registered s u id key est q)
            Never
            (accept_conn k id q key reply t)
    unfolding accept_conn
    accept_conn-Registered q key reply t owns a =
        let P =
          λ (r : Attempt ℕ (Unit {0})) (u : RCtrl k). (est : Bool) × Registered s u id key est q in
        Ensures-resume (Still s id) P Never (attempt k (bring_to_rts k id q) t) _
          (Ensures-caught (Arrived s id) Never (bring_to_rts k id q t)
            (bring_to_rts-Still s id id q t a))
          (λ r1 t1 a1.
            Ensures-resume (Still s id) P Never (attempt k (connect_reply k q reply) t1) _
              (Ensures-caught (Arrived s id) Never (connect_reply k q reply t1)
                (connect_reply-Still s id q reply t1 owns a1))
              (λ ret t2 a2.
                Ensures-weaken (λ r u. Registered s u id key a2.est q) P Never
                  (register_conn k q key ret t2) (register_conn-Registered q key ret t2 owns a2)
                  (λ r u g. (a2.est, g))))

    pub rc_conn_callback-Concluded :
        (qd : ℕ) (t : RCtrl k)
        → Arrived s id t
        → t.free_in_qp_key ≡ s.free_in_qp_key
        → Ensures (λ r u. Concluded s id qd u) Never (rc_conn_callback k id qd t)
    unfolding rc_conn_callback
    rc_conn_callback-Concluded qd t a n =
        let c = set_max_send_wr_sz 256 new_config in
        let reply : Payload = record { qd = qd; mr = k.test_mr; status = replied_nil } in
        let P = λ (r : Attempt ℕ (Unit {0})) (u : RCtrl k). Concluded s id qd u in
        let next = s.free_in_qp_key in
        Ensures-resume (λ q u. (q.inner_cm ≡ some id) × Numbered s id next u) P Never
          (new_with_srq k c id t) _ (new_with_srq-Numbered s id Never next c t (n, a))
          (λ q t1 a1.
            Ensures-resume (λ key u. (key ≡ key_for qd next) × Arrived s id u) P Never
              (get_next_in_qp_key k qd t1) _ (get_next_in_qp_key-Still s id Never next qd t1 a1.1)
              (λ key t2 a2.
                Ensures-resume (Still s id) P Never (attempt k (bring_to_rtr k id q) t2)
                  (finish_conn k id q key reply)
                  (Ensures-caught (Arrived s id) Never (bring_to_rtr k id q t2)
                    (bring_to_rtr-Still s id id q t2 a2.1))
                  (λ raised t3 a3. finished q key reply t3 raised a1.0 a2.0 a3)))
      where
        finished :
            (q : Rc) (key : ℕ) (reply : Payload) (u : RCtrl k) (r : Attempt ℕ (Unit {0}))
            → q.inner_cm ≡ some id
            → key ≡ key_for qd s.free_in_qp_key
            → Arrived s id u
            → Ensures (λ x t1. Concluded s id qd t1) Never (finish_conn k id q key reply r u)
        finished q key reply u (ok x) owns e b =
            Ensures-weaken (λ x1 u1. (est : Bool) × Registered s u1 id key est q)
              (λ x1 u1. Concluded s id qd u1) Never (accept_conn k id q key reply u)
              (accept_conn-Registered q key reply u owns b)
              (λ x1 u1 (est, r). inr (record { est = est; q = q; registered = rw (sym e) r }))
        finished q key reply u (err c) owns e b =
            Ensures-weaken (λ x u1. Restored s u1) (λ x u1. Concluded s id qd u1) Never
              (refuse_conn k q reply u) (refuse_conn-Restored v id free Never q reply u owns b)
              (λ x u1 r. inl r)
