-- ===== src/Control/Lost.antt =====
-- What a controller loses: the id of a connection that ends, and a connection whose key comes again.
use krcore_artifacts.Prelude.{
  ℕ, ◌≡◌, ◌≢◌, refl, sym, ap, ◌∙◌, subst, ◌⊎◌, inl, inr, Bool, true, false, none, some, arith, ◌==◌,
}
use krcore_artifacts.Prelude.Maps.{remove, lookup, lookup-insert_self}
use krcore_artifacts.Manager.{ok}
use krcore_artifacts.Control.{in_qp, CmId, Rc, Kernel, RCtrl}
use krcore_artifacts.Control.Handler.{req_received, dreq_received, deliver}
use krcore_artifacts.Control.Sound.{cm_id_in, key_for, box_kept, Restored, Concluded}
use krcore_artifacts.Control.Ensures.{write_self, write-ne, Ensures}
use krcore_artifacts.Control.Reach.{
  Reaches, Reaches-IsSound, Reaches-Concluded, after_dreq, deliver-dreq,
}

module _ {k : Kernel} (s : RCtrl k) (id : ℕ) where
  -- The connection on an id has ended: the RC that owned the id, and only that, is no longer
  -- registered, and its queue pair and completion queue are destroyed; but the id is still allocated,
  -- and its context points to a box that is freed.
  pub record Ended (t : RCtrl k) : Type 0 where
    pub key : ℕ
    pub box : ℕ
    pub q : Rc
    pub was : lookup key s.registered_rcs ≡ some q
    pub owned : q.inner_cm ≡ some id
    pub gone : t.registered_rcs ≡ remove key s.registered_rcs
    pub destroyed : t.world ≡ k.free_cq q.cq (k.device.destroy_qp q.qp s.world)
    pub leaked : t.ids id ≡ some (record { context = in_qp box; established = false })
    pub dangling : t.boxes box ≡ none
    pub others : (j : ℕ) → j ≢ id → t.ids j ≡ s.ids j

  -- The RC under a key is replaced by one on the id: the id of the replaced one is freed, and its box
  -- stays allocated.
  pub record Replaced (key : ℕ) (q0 : Rc) (t : RCtrl k) : Type 0 where
    pub old : ℕ
    pub box : ℕ
    pub q : Rc
    pub owned : q0.inner_cm ≡ some old
    pub freed : t.ids old ≡ none
    pub leaked : t.boxes box ≡ some key
    pub pointed : (est : Bool) × (s.ids old ≡ some (cm_id_in box est))
    pub now : lookup key t.registered_rcs ≡ some q
    pub owns : q.inner_cm ≡ some id

module _ {k : Kernel} {s : RCtrl k} (id : ℕ) (r : Reaches k s) where
  -- In every state that a controller reaches, a disconnect request for an established id, apart from
  -- the line printed for it, always succeeds, and its RC is no longer registered; but it leaves the id
  -- allocated, with a context that points to freed memory.
  pub disconnect-Ended :
      (st : CmId)
      → s.ids id ≡ some st
      → st.established ≡ true
      → (t : RCtrl k) × (deliver k dreq_received id s ≡ (ok tt, t)) × Ended s id t
  disconnect-Ended st e on =
      let v = Reaches-IsSound r in
      let o = v.open_ids id st e on in
      (
        after_dreq v id o,
        deliver-dreq v id st o e,
        record {
          key = o.key;
          box = o.box;
          q = o.q;
          was = o.registered;
          owned = o.owns;
          gone = refl;
          destroyed = refl;
          leaked =
              write_self id _ s.ids
              ∙ ap (λ c. some (record { context = c; established = false })) o.context;
          dangling = write_self o.box none s.boxes;
          others = λ j ne. write-ne id j _ s.ids ne;
        },
      )

  -- In every state that a controller reaches, if a request comes with the hint, not 0, under which an
  -- RC is registered, and is handled: either the memory is as before, or that RC is replaced by one on
  -- the request's id, its own id is freed, and the box that was the context of its id is allocated
  -- afterwards, with the key, as it was.
  pub deliver-Replaced :
      (qd : ℕ) (q0 : Rc) (t : RCtrl k)
      → s.ids id ≡ none
      → qd ≢ 0
      → lookup qd s.registered_rcs ≡ some q0
      → deliver k (req_received qd) id s ≡ (ok tt, t)
      → Restored s t ⊎ Replaced s id qd q0 t
  deliver-Replaced qd q0 t free hint there done = replaced (
      subst (Ensures (λ u t1. Concluded s id qd t1) (λ t1. ⊥)) (done)
        (Reaches-Concluded id qd r free))
    where
      replaced : Concluded s id qd t → Restored s t ⊎ Replaced s id qd q0 t
      replaced (inl same) = inl same
      replaced (inr a) =
          let v = Reaches-IsSound r in
          let h = v.held qd q0 there in
          let off : (qd == 0) ≡ false = ground (arith, hint) in
          let g = a.registered in
          let key : key_for qd s.free_in_qp_key ≡ qd = rw off refl in
          inr (record {
            old = h.id;
            box = h.box;
            q = a.q;
            owned = h.owns;
            freed = g.freed q0 h.id (ap (λ i. lookup i s.registered_rcs) key ∙ there) h.owns;
            leaked = box_kept v g h.box qd h.boxed;
            pointed = (h.est, h.lives);
            now =
                ap (λ i. lookup i t.registered_rcs) (sym key)
                ∙ ap (lookup (key_for qd s.free_in_qp_key)) g.rcs
                ∙ lookup-insert_self (key_for qd s.free_in_qp_key) a.q s.registered_rcs;
            owns = g.owns;
          })
