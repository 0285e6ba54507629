-- ===== src/Control/Steps.antt =====
-- What the calls of a connection request do to the controller's memory.
use krcore_artifacts.Prelude.{
  ℕ, ◌≡◌, ◌≢◌, refl, ap, ◌∙◌, inl, inr, Bool, true, Bool-cases, Option, none, some, List, ◌==◌,
  if◌then◌else◌,
}
use krcore_artifacts.Bringup.Device.{IbState, Attr, Mask}
use krcore_artifacts.Manager.{pure, ◌>>=◌}
use krcore_artifacts.Control.{
  thread_ctrl, CmId, Rc, Config, Payload, Kernel, write, RCtrl, non_null, on_world,
}
use krcore_artifacts.Control.Operations.{
  rc_init_attr, new_with_srq, get_next_in_qp_key, connect_reply,
}
use krcore_artifacts.Control.Raise.{
  is_low, is_init, is_rtr, status_of_rc, returned, modify_by, for_init, for_rtr, unchanged,
  bring_to_init, bring_to_rtr, bring_to_rts,
}
use krcore_artifacts.Control.Ensures.{write_self, write-ne, Ensures, Ensures-resume}
use krcore_artifacts.Control.Sound.{key_for}

module _ {k : Kernel} where
  -- Only the world and the next key may differ.
  pub record Same (s t : RCtrl k) : Type 0 where
    pub ids : t.ids ≡ s.ids
    pub boxes : t.boxes ≡ s.boxes
    pub next : t.next_box ≡ s.next_box
    pub rcs : t.registered_rcs ≡ s.registered_rcs

  -- From `s`, ib_cm has made the id for a request, and its reply may have been sent.
  pub record Arrived (s : RCtrl k) (id : ℕ) (t : RCtrl k) : Type 0 where
    pub est : Bool
    pub made : t.ids id ≡ some (record { context = thread_ctrl; established = est })
    pub others : (j : ℕ) → j ≢ id → t.ids j ≡ s.ids j
    pub boxes : t.boxes ≡ s.boxes
    pub next : t.next_box ≡ s.next_box
    pub rcs : t.registered_rcs ≡ s.registered_rcs

  pub Arrived-Same :
      (s : RCtrl k) (id : ℕ) {t u : RCtrl k} → Arrived s id t → Same t u → Arrived s id u
  Arrived-Same s id a e = record {
    est = a.est;
    made = ap (λ (f : ℕ → Option CmId). f id) e.ids ∙ a.made;
    others = λ j ne. ap (λ (f : ℕ → Option CmId). f j) e.ids ∙ a.others j ne;
    boxes = e.boxes ∙ a.boxes;
    next = e.next ∙ a.next;
    rcs = e.rcs ∙ a.rcs;
  }

  module _ (s : RCtrl k) (id : ℕ) where
    abbrev pub Still : {A : Type 0} → A → RCtrl k → Type 0
    Still a t = Arrived s id t

    pub same :
        {t : RCtrl k} (w : k.device.World) → Arrived s id t → Arrived s id (record t { world = w })
    same w a = Arrived-Same s id a (record { ids = refl; boxes = refl; next = refl; rcs = refl })

    pub renumbered :
        {t : RCtrl k} (n : ℕ) → Arrived s id t → Arrived s id (record t { free_in_qp_key = n })
    renumbered n a =
        Arrived-Same s id a (record { ids = refl; boxes = refl; next = refl; rcs = refl })

    non_null-Ensures :
        {A : Type 0} (P E : RCtrl k → Type 0) (o : Option A) (t : RCtrl k)
        → P t
        → Ensures (λ a. P) E (non_null k o t)
    non_null-Ensures P E none t p = tt
    non_null-Ensures P E (some x) t p = p

    -- The next key is still `n`.
    abbrev pub Numbered : ℕ → RCtrl k → Type 0
    Numbered n t = (t.free_in_qp_key ≡ n) × Arrived s id t

    -- A new RC is on the id.
    pub new_with_srq-Numbered :
        (E : RCtrl k → Type 0) (n : ℕ) (c : Config) (t : RCtrl k)
        → Numbered n t
        → Ensures (λ q u. (q.inner_cm ≡ some id) × Numbered n u) E (new_with_srq k c id t)
    unfolding new_with_srq
    new_with_srq-Numbered E n c t (e, a) =
        let P = λ (q : Rc) (u : RCtrl k). (q.inner_cm ≡ some id) × Numbered n u in
        let I = Numbered n in
        let cqs = k.device.create_cq c.max_cqe in
        Ensures-resume (λ o. I) P E (on_world k cqs t) _ (e, same (cqs t.world).1 a)
          (λ made t1 p1.
            Ensures-resume (λ o. I) P E (non_null k made t1) _ (non_null-Ensures I E made t1 p1)
              (λ cq t2 p2.
                let qps = k.device.create_qp (rc_init_attr k c cq) in
                Ensures-resume (λ o. I) P E (on_world k qps t2) _ (p2.0, same (qps t2.world).1 p2.1)
                  (λ made_qp t3 p3.
                    Ensures-resume (λ o. I) P E (non_null k made_qp t3)
                      (λ qp. pure (record { qp = qp; cq = cq; inner_cm = some id }))
                      (non_null-Ensures I E made_qp t3 p3) (λ qp t4 p4. (refl, p4)))))

    pub get_next_in_qp_key-Still :
        (E : RCtrl k → Type 0) (n qd : ℕ) (t : RCtrl k)
        → Numbered n t
        → Ensures (λ key u. (key ≡ key_for qd n) × Arrived s id u) E (get_next_in_qp_key k qd t)
    unfolding get_next_in_qp_key
    get_next_in_qp_key-Still E n qd t (e, a) = elim (Bool-cases (qd == 0)) [
      | inl on ↦ rw on (e, renumbered _ a)
      | inr off ↦ rw off (refl, a)
    ]

    returned-Still :
        (ret : ℕ) (t : RCtrl k) → Arrived s id t → Ensures Still (Arrived s id) (returned k ret t)
    returned-Still ret t a = elim (Bool-cases (ret == 0)) [ inl e ↦ rw e a | inr e ↦ rw e a ]

    modify_by-Still :
        (cm : ℕ) (q : Rc) (to : IbState) (edit : Attr → List Mask → Attr × List Mask) (t : RCtrl k)
        → Arrived s id t
        → Ensures Still (Arrived s id) (modify_by k cm q to edit t)
    modify_by-Still cm q to edit t a =
        let (ret, at, mask) = k.init_qp_attr cm to t.world in
        Ensures-resume Still Still (Arrived s id) (returned k ret t) _ (returned-Still ret t a)
          (λ u t1 a1.
            let (ret2, w) = k.device.modify_qp q.qp (edit at mask).0 (edit at mask).1 t1.world in
            returned-Still ret2 (record t1 { world = w }) (same w a1))

    status-Still :
        (E : RCtrl k → Type 0) (q : Rc) (t : RCtrl k)
        → Arrived s id t
        → Ensures Still E (status_of_rc k q t)
    status-Still E q t a =
        let ret = (k.device.query_qp q.qp t.world).0 in
        elim (Bool-cases (ret == 0)) [ inl e ↦ rw e a | inr e ↦ rw e tt ]

    -- A step that is made in some states only.
    step-Still :
        (cm : ℕ) (q : Rc) (test : IbState → Bool) (to : IbState)
        (edit : Attr → List Mask → Attr × List Mask) (t : RCtrl k)
        → Arrived s id t
        → Ensures Still
            (Arrived s id)
            ((status_of_rc k q >>= λ st. if test st then modify_by k cm q to edit else pure tt) t)
    step-Still cm q test to edit t a =
        Ensures-resume Still Still (Arrived s id) (status_of_rc k q t) _
          (status-Still (Arrived s id) q t a)
          (λ st t1 a1. elim (Bool-cases (test st)) [
            | inl e ↦ rw e (modify_by-Still cm q to edit t1 a1)
            | inr e ↦ rw e a1
          ])

    pub bring_to_rtr-Still :
        (cm : ℕ) (q : Rc) (t : RCtrl k)
        → Arrived s id t
        → Ensures Still (Arrived s id) (bring_to_rtr k cm q t)
    unfolding bring_to_rtr bring_to_init
    bring_to_rtr-Still cm q t a =
        Ensures-resume Still Still (Arrived s id) (bring_to_init k cm q t) _
          (step-Still cm q is_low _ for_init t a)
          (λ u t1 a1. step-Still cm q is_init _ (for_rtr k q) t1 a1)

    pub bring_to_rts-Still :
        (cm : ℕ) (q : Rc) (t : RCtrl k)
        → Arrived s id t
        → Ensures Still (Arrived s id) (bring_to_rts k cm q t)
    unfolding bring_to_rts
    bring_to_rts-Still cm q t a = step-Still cm q is_rtr _ unchanged t a

    pub sent :
        {t : RCtrl k} {w : k.device.World}
        → Arrived s id t
        → Arrived s id (record t {
          world = w;
          ids = write id (some (record { context = thread_ctrl; established = true })) t.ids;
        })
    sent {t} a = record {
      est = true;
      made = write_self id _ t.ids;
      others = λ j ne. write-ne id j _ t.ids ne ∙ a.others j ne;
      boxes = a.boxes;
      next = a.next;
      rcs = a.rcs;
    }

    pub sent_established :
        (t : RCtrl k) (w : k.device.World) (a : Arrived s id t)
        → (sent {t = t} {w = w} a).est ≡ true
    unfolding sent
    sent_established t w a = refl

    -- A reply on the id that has arrived.
    pub connect_reply-Still :
        (q : Rc) (reply : Payload) (t : RCtrl k)
        → q.inner_cm ≡ some id
        → Arrived s id t
        → Ensures Still (Arrived s id) (connect_reply k q reply t)
    unfolding connect_reply
    connect_reply-Still q reply t owns a =
        rw (owns, a.made)
          (elim (Bool-cases (
            (k.send_rep id
              (record {
                qp_num = k.device.qp_num q.qp;
                starting_psn = k.device.qp_num q.qp;
                private_data = reply;
              })
              t.world).0
            == 0)) [ inl e ↦ rw e (rw e (sent a)) | inr e ↦ rw e (rw e (same _ a)) ])
