-- ===== src/Control/Requests.antt =====
-- rc_conn_callback and sidr_callback keep the controller's memory sound.
use krcore_artifacts.Prelude.{
  ℕ, ◌+◌, ◌≡◌, ◌≢◌, sym, ap, ◌∙◌, inl, inr, Bool, Option, none, some, eq_cases,
}
use krcore_artifacts.Prelude.Maps.{insert, lookup}
use krcore_artifacts.Control.{CmId, Rc, Payload, Kernel, write, RCtrl, attempt, drop_rc, drop_old}
use krcore_artifacts.Control.Operations.{connect_reply}
use krcore_artifacts.Control.Handler.{register_rc, refuse_conn}
use krcore_artifacts.Control.Sound.{cm_id_in, IsSound, Registered, Restored, some-inj}
use krcore_artifacts.Control.Steps.{Arrived, Still, connect_reply-Still}
use krcore_artifacts.Control.Ensures.{write_self, write-ne, Ensures, Ensures-resume, Ensures-caught}

module _ {k : Kernel} {s : RCtrl k} (v : IsSound s) where
  pub Restored-IsSound : {u : RCtrl k} → Restored s u → IsSound u
  Restored-IsSound r =
      let box = λ (b : ℕ). ap (λ (f : ℕ → Option ℕ). f b) r.boxes in
      record {
        held = λ key q e.
            let h = v.held key q (ap (lookup key) (sym r.rcs) ∙ e) in
            record {
              id = h.id;
              box = h.box;
              est = h.est;
              owns = h.owns;
              lives = r.ids h.id ∙ h.lives;
              boxed = box h.box ∙ h.boxed;
            };
        open_ids = λ j st e on.
            let o = v.open_ids j st (sym (r.ids j) ∙ e) on in
            record {
              key = o.key;
              box = o.box;
              q = o.q;
              context = o.context;
              boxed = box o.box ∙ o.boxed;
              registered = ap (lookup o.key) r.rcs ∙ o.registered;
              owns = o.owns;
            };
        below = λ b i e. rw r.next (v.below b i (sym (box b) ∙ e));
      }

  module _ (id : ℕ) (free : s.ids id ≡ none) where
    not_live : (j : ℕ) (st : CmId) → s.ids j ≡ some st → j ≢ id
    not_live j st e same = let bad : none ≡ some st = sym free ∙ ap s.ids (sym same) ∙ e in cc

    -- The drop of an RC that was not registered frees the id of its request.
    dropped-Restored :
        (q : Rc) (t : RCtrl k) → q.inner_cm ≡ some id → Arrived s id t → Restored s (drop_rc k q t)
    dropped-Restored q t owns a = rw owns (record {
      ids = λ j. elim (eq_cases j id) [
        | inl same ↦ rw same (write_self id none t.ids ∙ sym free)
        | inr ne ↦ write-ne id j none t.ids ne ∙ a.others j ne
      ];
      boxes = a.boxes;
      next = a.next;
      rcs = a.rcs;
    })

    pub refuse_conn-Restored :
        (E : RCtrl k → Type 0) (q : Rc) (reply : Payload) (t : RCtrl k)
        → q.inner_cm ≡ some id
        → Arrived s id t
        → Ensures (λ r u. Restored s u) E (refuse_conn k q reply t)
    unfolding refuse_conn
    refuse_conn-Restored E q reply t owns a =
        Ensures-resume (Still s id) (λ r u. Restored s u) E (attempt k (connect_reply k q reply) t)
          _
          (Ensures-caught (Arrived s id) E (connect_reply k q reply t)
            (connect_reply-Still s id q reply t owns a))
          (λ ret u b. dropped-Restored q u owns b)

    -- The state before the registration: the id has a new box as its context.
    pub record Boxed (key : ℕ) (t : RCtrl k) : Type 0 where
      pub est : Bool
      pub made : t.ids id ≡ some (cm_id_in s.next_box est)
      pub others : (j : ℕ) → j ≢ id → t.ids j ≡ s.ids j
      pub box : t.boxes s.next_box ≡ some key
      pub boxes : (b : ℕ) → b ≢ s.next_box → t.boxes b ≡ s.boxes b
      pub next : t.next_box ≡ s.next_box + 1
      pub rcs : t.registered_rcs ≡ s.registered_rcs

    -- What is left after the drop of the RC that was registered under the key, if there was one.
    registered_by :
        (key : ℕ) (q : Rc) (t : RCtrl k) (old : Option Rc)
        → lookup key s.registered_rcs ≡ old
        → q.inner_cm ≡ some id
        → (b : Boxed key t)
        → Registered s
            (drop_old k old (record t { registered_rcs = insert key q t.registered_rcs }))
            id
            key
            b.est
            q
    registered_by key q t none e owns b = record {
      free = free;
      owns = owns;
      made = b.made;
      kept = λ j st f no. b.others j (not_live j st f) ∙ f;
      no_more = λ j st ne f. sym (b.others j ne) ∙ f;
      freed = λ q0 j f o. let bad : none ≡ some q0 = sym e ∙ f in absurd (cc);
      box = b.box;
      boxes = b.boxes;
      next = b.next;
      rcs = ap (insert key q) b.rcs;
    }
    registered_by key q t (some q0) e owns b =
        let h = v.held key q0 e in
        let gone = λ (j : ℕ). write-ne h.id j none t.ids in
        rw h.owns (record {
          free = free;
          owns = owns;
          made = gone id (λ same. not_live h.id (cm_id_in h.box h.est) h.lives (sym same)) ∙ b.made;
          kept = λ j st f no.
              gone j (λ same. no q0 e (h.owns ∙ ap some (sym same)))
              ∙ b.others j (not_live j st f)
              ∙ f;
          no_more = λ j st ne f. elim (eq_cases j h.id) [
            | inl same ↦
                let bad : none ≡ some st =
                  sym (write_self h.id none t.ids) ∙ ap (write h.id none t.ids) (sym same) ∙ f in
                absurd (cc)
            | inr other ↦ sym (gone j other ∙ b.others j ne) ∙ f
          ];
          freed = λ q1 j f o.
              let same_rc : q0 ≡ q1 = some-inj (sym e ∙ f) in
              let same : h.id ≡ j =
                some-inj (sym h.owns ∙ ap (λ (x : Rc). x.inner_cm) same_rc ∙ o) in
              rw (sym same) (write_self h.id none t.ids);
          box = b.box;
          boxes = b.boxes;
          next = b.next;
          rcs = ap (insert key q) b.rcs;
        })

    pub register_rc-Registered :
        (key : ℕ) (q : Rc) (t : RCtrl k)
        → q.inner_cm ≡ some id
        → (b : Boxed key t) → Registered s (register_rc k key q t) id key b.est q
    register_rc-Registered key q t owns b =
        registered_by key q t (lookup key t.registered_rcs) (sym (ap (lookup key) b.rcs)) owns b
