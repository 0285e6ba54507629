-- ===== src/Control/Reach.antt =====
-- The states that a controller reaches, and its handler in them.
use krcore_artifacts.Prelude.{
  [], ℕ, ◌≡◌, ◌≢◌, refl, subst, sym, ap, ◌∙◌, inl, inr, true, false, Bool-cases, none, some, ◌∷◌,
  ◌==◌, eq_cases,
}
use krcore_artifacts.Prelude.Maps.{remove, lookup}
use krcore_artifacts.Manager.{Attempt, ok}
use krcore_artifacts.Control.{CmId, Ud, Kernel, write, RCtrl}
use krcore_artifacts.Control.Operations.{dereg_rc}
use krcore_artifacts.Control.Handler.{
  CmEvent, req_received, sidr_req_received, dreq_received, noted, rc_conn_callback, sidr_reply,
  sidr_callback, disconnect, new_id, ended, cm_handler, arrive, deliver,
}
use krcore_artifacts.Control.Sound.{Open, IsSound, Registered-IsSound, Concluded, some-inj}
use krcore_artifacts.Control.Closing.{Closed, Closed-IsSound}
use krcore_artifacts.Control.Steps.{Arrived}
use krcore_artifacts.Control.Ensures.{write_self, write-ne, Ensures, Ensures-weaken, Ensures-resume}
use krcore_artifacts.Control.Requests.{Restored-IsSound}
use krcore_artifacts.Control.Safe.{Never, rc_conn_callback-Concluded}

-- `DEFAULT_RPC_HINT`
abbrev pub default_rpc_hint : ℕ
default_rpc_hint = 73

module _ (k : Kernel) where
  -- What ib_cm promises of an event. A request has an id that was not allocated, any other event an id
  -- that is; a disconnect request comes for an established id only.
  abbrev pub Allowed : CmEvent → ℕ → RCtrl k → Type 0
  Allowed (req_received qd) id s = s.ids id ≡ none
  Allowed (sidr_req_received qd) id s = s.ids id ≡ none
  Allowed dreq_received id s = (st : CmId) × (s.ids id ≡ some st) × (st.established ≡ true)
  Allowed noted id s = (st : CmId) × (s.ids id ≡ some st)

  -- The state of a new controller: only the listener's id, no RC, and the default UD.
  abbrev pub listening : ℕ → Ud → k.device.World → RCtrl k
  listening id ud w = record {
    world = w;
    ids = write id (some new_id) (λ j. none);
    boxes = λ b. none;
    next_box = 0;
    registered_rcs = [];
    registered_uds = (default_rpc_hint, ud) ∷ [];
    free_in_qp_key = 0;
  }

  -- The controller between events.
  pub data Reaches : RCtrl k → Type 0 where
    listens : (id : ℕ) (ud : Ud) (w : k.device.World) → Reaches (listening id ud w)
    delivers :
        {s t : RCtrl k} (e : CmEvent) (id : ℕ)
        → Reaches s
        → Allowed e id s
        → deliver k e id s ≡ (ok tt, t)
        → Reaches t

not_some : {A : Type 0} {a : A} → none ≡ some a → ⊥
not_some e = cc

not_new : {st : CmId} → some new_id ≡ some st → st.established ≢ true
not_new e on = let off = ap (λ (x : CmId). x.established) (some-inj e) in let bad = off ∙ on in cc

module _ {k : Kernel} where
  -- Making an id that is not established keeps what is sound.
  made-IsSound :
      {s : RCtrl k} (v : IsSound s) (id : ℕ) (w : k.device.World)
      → s.ids id ≡ none
      → IsSound (record s { world = w; ids = write id (some new_id) s.ids })
  made-IsSound {s} v id w free = record {
    held = λ key q e.
        let h = v.held key q e in
        record {
          id = h.id;
          box = h.box;
          est = h.est;
          owns = h.owns;
          lives =
              write-ne id h.id _ s.ids (λ same. not_some (sym free ∙ ap s.ids (sym same) ∙ h.lives))
              ∙ h.lives;
          boxed = h.boxed;
        };
    open_ids = λ j st e on. elim (eq_cases j id) [
      | inl same ↦ absurd (
          not_new
            (sym (write_self id (some new_id) s.ids)
              ∙ ap (write id (some new_id) s.ids) (sym same)
              ∙ e)
            on)
      | inr ne ↦
          let o = v.open_ids j st (sym (write-ne id j _ s.ids ne) ∙ e) on in
          record {
            key = o.key;
            box = o.box;
            q = o.q;
            context = o.context;
            boxed = o.boxed;
            registered = o.registered;
            owns = o.owns;
          }
    ];
    below = v.below;
  }

  empty-IsSound :
      (ud : Ud) (w : k.device.World)
      → IsSound {k = k} (record {
        world = w;
        ids = λ j. none;
        boxes = λ b. none;
        next_box = 0;
        registered_rcs = [];
        registered_uds = (default_rpc_hint, ud) ∷ [];
        free_in_qp_key = 0;
      })
  empty-IsSound ud w = record {
    held = λ key q e. absurd (not_some e);
    open_ids = λ j st e on. absurd (not_some e);
    below = λ b i e. absurd (not_some e);
  }

  module _ {s : RCtrl k} (v : IsSound s) (id : ℕ) where
    pub arrived : s.ids id ≡ none → Arrived s id (record s { ids = write id (some new_id) s.ids })
    arrived free = record {
      est = false;
      made = write_self id _ s.ids;
      others = λ j ne. write-ne id j _ s.ids ne;
      boxes = refl;
      next = refl;
      rcs = refl;
    }

    pub req-Concluded :
        (qd : ℕ)
        → s.ids id ≡ none
        → Ensures (λ u t. Concluded s id qd t) (λ t. ⊥) (deliver k (req_received qd) id s)
    unfolding deliver cm_handler
    req-Concluded qd free =
        let P = λ (r : Attempt ℕ (Unit {0})) (t : RCtrl k). Concluded s id qd t in
        let Q = λ (u : Unit {0}) (t : RCtrl k). Concluded s id qd t in
        rw (write_self id (some new_id) s.ids) (
          Ensures-resume P Q (Never v id)
            (rc_conn_callback k id qd (arrive k (req_received qd) id s)) _
            (rc_conn_callback-Concluded v id free qd _ (arrived free) refl) (λ r t u. u))

    Concluded-IsSound : (qd : ℕ) (t : RCtrl k) → Concluded s id qd t → IsSound t
    Concluded-IsSound qd t (inl r) = Restored-IsSound v r
    Concluded-IsSound qd t (inr a) = Registered-IsSound v a.registered

    sidr-IsSound :
        (qd : ℕ)
        → s.ids id ≡ none
        → Ensures (λ u t. IsSound t) (λ t. ⊥) (deliver k (sidr_req_received qd) id s)
    unfolding deliver cm_handler sidr_callback
    sidr-IsSound qd free =
        let (ret, w) = k.send_sidr_rep id (sidr_reply k qd (lookup qd s.registered_uds)) s.world in
        rw (write_self id (some new_id) s.ids) (elim (Bool-cases (ret == 0)) [
          | inl e ↦ rw e (made-IsSound v id w free)
          | inr e ↦ rw e (made-IsSound v id w free)
        ])

    -- The state after a disconnect request for an established id.
    abbrev pub after_dreq : {st : CmId} → Open s id st → RCtrl k
    after_dreq {st} o = record s {
      world = k.free_cq o.q.cq (k.device.destroy_qp o.q.qp s.world);
      ids = write id (some (record st { established = false })) s.ids;
      boxes = write o.box none s.boxes;
      registered_rcs = remove o.key s.registered_rcs;
    }

    pub deliver-dreq :
        (st : CmId) (o : Open s id st)
        → s.ids id ≡ some st
        → deliver k dreq_received id s ≡ (ok tt, after_dreq o)
    unfolding deliver cm_handler disconnect dereg_rc
    deliver-dreq st o e =
        rw (write_self id (ended (s.ids id)) s.ids) (rw (e, o.context, o.boxed, o.registered) refl)

    after_dreq-Closed : {st : CmId} (o : Open s id st) → Closed v o (after_dreq o)
    after_dreq-Closed {st} o = record {
      closed = λ x e.
          sym (ap (λ (y : CmId). y.established) (some-inj (sym (write_self id _ s.ids) ∙ e)));
      ids = λ j ne. write-ne id j _ s.ids ne;
      box = write_self o.box none s.boxes;
      boxes = λ b ne. write-ne o.box b none s.boxes ne;
      next = refl;
      rcs = refl;
    }

    deliver-IsSound :
        (e : CmEvent) → Allowed k e id s → Ensures (λ u t. IsSound t) (λ t. ⊥) (deliver k e id s)
    unfolding deliver cm_handler
    deliver-IsSound (req_received qd) a =
        Ensures-weaken (λ u t. Concluded s id qd t) (λ u t. IsSound t) (λ t. ⊥)
          (deliver k (req_received qd) id s) (req-Concluded qd a)
          (λ u t c. Concluded-IsSound qd t c)
    deliver-IsSound (sidr_req_received qd) a = sidr-IsSound qd a
    deliver-IsSound dreq_received (st, e, on) =
        let o = v.open_ids id st e on in
        rw (deliver-dreq st o e) (Closed-IsSound v o (after_dreq-Closed o))
    deliver-IsSound noted (st, e) = rw e v

  pub Reaches-IsSound : {s : RCtrl k} → Reaches k s → IsSound s
  Reaches-IsSound (listens id ud w) = made-IsSound (empty-IsSound ud w) id w refl
  Reaches-IsSound (delivers {s} {t} e id r a q) =
      subst (Ensures (λ u t1. IsSound t1) (λ t1. ⊥)) (q)
        (deliver-IsSound (Reaches-IsSound r) id e a)

  -- In every state that a controller reaches, whatever the NIC answers, and for every event that ib_cm
  -- may deliver: apart from the line that is printed for a disconnect request, the handler uses no
  -- memory that is freed or of another type, and if it does not end by a panic or at a null pointer,
  -- then afterwards every registered RC has an id that is allocated, with a context that holds its
  -- key, and every established id is the id of a registered RC.
  pub Reaches-Safe :
      {s : RCtrl k} (e : CmEvent) (id : ℕ)
      → Reaches k s
      → Allowed k e id s
      → Ensures (λ u t. IsSound t) (λ t. ⊥) (deliver k e id s)
  Reaches-Safe e id r a = deliver-IsSound (Reaches-IsSound r) id e a

  -- A connection request in a state that a controller reaches, if the handler does not end by a panic
  -- or at a null pointer: either the memory is as before, or an RC on the request's id is registered
  -- under the hint of the request, under the next key if the hint is 0, with a new box that holds the
  -- key as the id's context. Then an RC that was registered under the key is dropped and its id freed,
  -- and all other ids and registered RCs stay.
  pub Reaches-Concluded :
      {s : RCtrl k} (id qd : ℕ)
      → Reaches k s
      → s.ids id ≡ none
      → Ensures (λ u t. Concluded s id qd t) (λ t. ⊥) (deliver k (req_received qd) id s)
  Reaches-Concluded id qd r free = req-Concluded (Reaches-IsSound r) id qd free
