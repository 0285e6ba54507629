-- ===== src/Control/Sound.antt =====
-- What holds of the controller's memory between events, and what registering and disconnecting do
-- to it.
use krcore_artifacts.Prelude.{
  ℕ, ◌+◌, ◌<◌, ◌≡◌, ◌≢◌, sym, ◌⊎◌, ap, ◌∙◌, inl, inr, Bool, true, none, some, ◌==◌, if◌then◌else◌,
  arith, eq_cases,
}
use krcore_artifacts.Prelude.Maps.{insert, lookup, lookup-insert_self, lookup-insert_ne}
use krcore_artifacts.Control.{in_qp, CmId, Rc, Kernel, RCtrl}

abbrev pub cm_id_in : ℕ → Bool → CmId
cm_id_in b est = record { context = in_qp b; established = est }

-- The key of a request: the hint, or the next key if there is none.
abbrev pub key_for : (qd n : ℕ) → ℕ
key_for qd n = if qd == 0 then n else qd

module _ {k : Kernel} (s : RCtrl k) where
  -- A registered RC: its id is allocated, and the context of that is a box with the RC's key.
  pub record Held (key : ℕ) (q : Rc) : Type 0 where
    pub id : ℕ
    pub box : ℕ
    pub est : Bool
    pub owns : q.inner_cm ≡ some id
    pub lives : s.ids id ≡ some (cm_id_in box est)
    pub boxed : s.boxes box ≡ some key

  -- An established id: it is that of a registered RC.
  pub record Open (id : ℕ) (st : CmId) : Type 0 where
    pub key : ℕ
    pub box : ℕ
    pub q : Rc
    pub context : st.context ≡ in_qp box
    pub boxed : s.boxes box ≡ some key
    pub registered : lookup key s.registered_rcs ≡ some q
    pub owns : q.inner_cm ≡ some id

  pub record IsSound : Type 0 where
    pub held : (key : ℕ) (q : Rc) → lookup key s.registered_rcs ≡ some q → Held key q
    pub open_ids : (id : ℕ) (st : CmId) → s.ids id ≡ some st → st.established ≡ true → Open id st
    pub below : (b key : ℕ) → s.boxes b ≡ some key → b < s.next_box

  -- What registering an RC under a key does: its id, that was free, has a box as its context; the id
  -- of the RC that it replaces is freed.
  pub record Registered (u : RCtrl k) (id key : ℕ) (est : Bool) (q : Rc) : Type 0 where
    pub free : s.ids id ≡ none
    pub owns : q.inner_cm ≡ some id
    pub made : u.ids id ≡ some (cm_id_in s.next_box est)
    pub kept :
        (j : ℕ) (st : CmId)
        → s.ids j ≡ some st
        → ((q0 : Rc) → lookup key s.registered_rcs ≡ some q0 → q0.inner_cm ≢ some j)
        → u.ids j ≡ some st
    pub no_more : (j : ℕ) (st : CmId) → j ≢ id → u.ids j ≡ some st → s.ids j ≡ some st
    pub freed :
        (q0 : Rc) (j : ℕ)
        → lookup key s.registered_rcs ≡ some q0
        → q0.inner_cm ≡ some j
        → u.ids j ≡ none
    pub box : u.boxes s.next_box ≡ some key
    pub boxes : (b : ℕ) → b ≢ s.next_box → u.boxes b ≡ s.boxes b
    pub next : u.next_box ≡ s.next_box + 1
    pub rcs : u.registered_rcs ≡ insert key q s.registered_rcs

  -- The memory is that of `s`.
  pub record Restored (u : RCtrl k) : Type 0 where
    pub ids : (j : ℕ) → u.ids j ≡ s.ids j
    pub boxes : u.boxes ≡ s.boxes
    pub next : u.next_box ≡ s.next_box
    pub rcs : u.registered_rcs ≡ s.registered_rcs

  pub Registered-world :
      {u : RCtrl k} {id key : ℕ} {est : Bool} {q : Rc} (w : k.device.World)
      → Registered u id key est q
      → Registered (record u { world = w }) id key est q
  Registered-world w r = record {
    free = r.free;
    owns = r.owns;
    made = r.made;
    kept = r.kept;
    no_more = r.no_more;
    freed = r.freed;
    box = r.box;
    boxes = r.boxes;
    next = r.next;
    rcs = r.rcs;
  }

  -- The outcome of a request with the hint `qd`: an RC on its id is registered under the key for the
  -- hint, or the memory is as before.
  pub record Accepted (id qd : ℕ) (t : RCtrl k) : Type 0 where
    pub est : Bool
    pub q : Rc
    pub registered : Registered t id (key_for qd s.free_in_qp_key) est q

  abbrev pub Concluded : ℕ → ℕ → RCtrl k → Type 0
  Concluded id qd t = Restored t ⊎ Accepted id qd t

pub context_of : {a b : CmId} → a ≡ b → a.context ≡ b.context
context_of e = ap (λ (st : CmId). st.context) e

pub some-inj : {A : Type 0} {a b : A} → some a ≡ some b → a ≡ b
some-inj e = cc

pub in_qp-inj : {a b : ℕ} → in_qp a ≡ in_qp b → a ≡ b
in_qp-inj e = cc

module _ {k : Kernel} {s : RCtrl k} where
  -- Two registered RCs with one id have one key.
  pub one-key :
      (i j : ℕ) (p q : Rc) (a : Held s i p) (b : Held s j q) → q.inner_cm ≡ some a.id → i ≡ j
  one-key i j p q a b e =
      let ids : a.id ≡ b.id = some-inj (sym e ∙ b.owns) in
      let ctx = some-inj (sym a.lives ∙ ap s.ids ids ∙ b.lives) in
      let boxes : a.box ≡ b.box = in_qp-inj (context_of ctx) in
      some-inj (sym a.boxed ∙ ap s.boxes boxes ∙ b.boxed)

  module _ (v : IsSound s) {u : RCtrl k} {id key : ℕ} {est : Bool} {q : Rc}
      (r : Registered s u id key est q) where
    pub box_kept : (b i : ℕ) → s.boxes b ≡ some i → u.boxes b ≡ some i
    box_kept b i e = elim (eq_cases b s.next_box) [
      | inl same ↦ let lt = v.below b i e in absurd (omega (arith, same))
      | inr ne ↦ r.boxes b ne ∙ e
    ]

    one_rc : (p : Rc) → lookup key u.registered_rcs ≡ some p → p ≡ q
    one_rc p e =
        some-inj (sym e ∙ ap (lookup key) r.rcs ∙ lookup-insert_self key q s.registered_rcs)

    other_rc : (j : ℕ) → j ≢ key → lookup j u.registered_rcs ≡ lookup j s.registered_rcs
    other_rc j ne = ap (lookup j) r.rcs ∙ lookup-insert_ne j key q s.registered_rcs ne

    held_kept : (j : ℕ) (p : Rc) → j ≢ key → Held s j p → Held u j p
    held_kept j p ne h = record {
      id = h.id;
      box = h.box;
      est = h.est;
      owns = h.owns;
      lives =
          r.kept h.id (cm_id_in h.box h.est) h.lives
            (λ q0 e0 o0. ne (one-key j key p q0 h (v.held key q0 e0) o0));
      boxed = box_kept h.box j h.boxed;
    }

    held_now : (j : ℕ) (p : Rc) → lookup j u.registered_rcs ≡ some p → Held u j p
    held_now j p e = elim (eq_cases j key) [
      | inl same ↦
          let here = one_rc p (ap (λ i. lookup i u.registered_rcs) (sym same) ∙ e) in
          record {
            id = id;
            box = s.next_box;
            est = est;
            owns = ap (λ (x : Rc). x.inner_cm) here ∙ r.owns;
            lives = r.made;
            boxed = r.box ∙ ap some (sym same);
          }
      | inr ne ↦ held_kept j p ne (v.held j p (sym (other_rc j ne) ∙ e))
    ]

    established_now : (j : ℕ) (st : CmId) → u.ids j ≡ some st → st.established ≡ true → Open u j st
    established_now j st e on = elim (eq_cases j id) [
      | inl same ↦ record {
        key = key;
        box = s.next_box;
        q = q;
        context = context_of (some-inj (sym e ∙ ap u.ids same ∙ r.made));
        boxed = r.box;
        registered = ap (lookup key) r.rcs ∙ lookup-insert_self key q s.registered_rcs;
        owns = r.owns ∙ ap some (sym same);
      }
      | inr ne ↦
          let o = v.open_ids j st (r.no_more j st ne e) on in
          let other : o.key ≢ key = λ same.
            let gone =
              r.freed o.q j (ap (λ i. lookup i s.registered_rcs) (sym same) ∙ o.registered)
                o.owns in
            let bad : none ≡ some st = sym gone ∙ e in cc in
          record {
            key = o.key;
            box = o.box;
            q = o.q;
            context = o.context;
            boxed = box_kept o.box o.key o.boxed;
            registered = other_rc o.key other ∙ o.registered;
            owns = o.owns;
          }
    ]

    below_now : (b i : ℕ) → u.boxes b ≡ some i → b < u.next_box
    below_now b i e = elim (eq_cases b s.next_box) [
      | inl same ↦ omega (arith, r.next, same)
      | inr ne ↦ let lt = v.below b i (sym (r.boxes b ne) ∙ e) in omega (arith, r.next)
    ]

    pub Registered-IsSound : IsSound u
    Registered-IsSound = record { held = held_now; open_ids = established_now; below = below_now }
