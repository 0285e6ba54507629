-- ===== src/Control/Closing.antt =====
-- What a disconnect request does to the controller's memory.
use krcore_artifacts.Prelude.{
  ℕ, ◌<◌, ◌≡◌, ◌≢◌, sym, ap, ◌∙◌, inl, inr, true, false, none, some, eq_cases,
}
use krcore_artifacts.Prelude.Maps.{remove, lookup, lookup-remove_self, lookup-remove_ne}
use krcore_artifacts.Control.{CmId, Rc, Kernel, RCtrl}
use krcore_artifacts.Control.Sound.{Held, Open, IsSound, some-inj, one-key}

module _ {k : Kernel} {s : RCtrl k} (v : IsSound s) {id : ℕ} {st : CmId} (o : Open s id st) where
  -- The id is no longer established, its box is freed, and the RC that owned it is not registered.
  pub record Closed (u : RCtrl k) : Type 0 where
    pub closed : (x : CmId) → u.ids id ≡ some x → x.established ≡ false
    pub ids : (j : ℕ) → j ≢ id → u.ids j ≡ s.ids j
    pub box : u.boxes o.box ≡ none
    pub boxes : (b : ℕ) → b ≢ o.box → u.boxes b ≡ s.boxes b
    pub next : u.next_box ≡ s.next_box
    pub rcs : u.registered_rcs ≡ remove o.key s.registered_rcs

  module _ {u : RCtrl k} (c : Closed u) where
    other_rc : (j : ℕ) → j ≢ o.key → lookup j u.registered_rcs ≡ lookup j s.registered_rcs
    other_rc j ne = ap (lookup j) c.rcs ∙ lookup-remove_ne j o.key s.registered_rcs ne

    -- The box holds the key, so a box with another key is another box.
    box_kept : (b j : ℕ) → j ≢ o.key → s.boxes b ≡ some j → u.boxes b ≡ some j
    box_kept b j ne e = c.boxes b (λ same. ne (some-inj (sym e ∙ ap s.boxes same ∙ o.boxed))) ∙ e

    held_kept : (j : ℕ) (p : Rc) → j ≢ o.key → Held s j p → Held u j p
    held_kept j p ne h =
        let other : h.id ≢ id = λ same.
          ne (
            one-key j o.key p o.q h (v.held o.key o.q o.registered)
              (o.owns ∙ ap some (sym same))) in
        record {
          id = h.id;
          box = h.box;
          est = h.est;
          owns = h.owns;
          lives = c.ids h.id other ∙ h.lives;
          boxed = box_kept h.box j ne h.boxed;
        }

    held_now : (j : ℕ) (p : Rc) → lookup j u.registered_rcs ≡ some p → Held u j p
    held_now j p e = elim (eq_cases j o.key) [
      | inl same ↦
          let gone =
            sym (lookup-remove_self o.key s.registered_rcs)
            ∙ ap (lookup o.key) (sym c.rcs)
            ∙ ap (λ i. lookup i u.registered_rcs) (sym same)
            ∙ e in
          absurd (cc)
      | inr ne ↦ held_kept j p ne (v.held j p (sym (other_rc j ne) ∙ e))
    ]

    established_kept : (j : ℕ) (x : CmId) → j ≢ id → Open s j x → Open u j x
    established_kept j x ne a =
        let other : a.key ≢ o.key = λ same.
          let same_rc =
            some-inj (sym a.registered ∙ ap (λ i. lookup i s.registered_rcs) same ∙ o.registered) in
          ne (some-inj (sym a.owns ∙ ap (λ (q : Rc). q.inner_cm) same_rc ∙ o.owns)) in
        record {
          key = a.key;
          box = a.box;
          q = a.q;
          context = a.context;
          boxed = box_kept a.box a.key other a.boxed;
          registered = other_rc a.key other ∙ a.registered;
          owns = a.owns;
        }

    established_now : (j : ℕ) (x : CmId) → u.ids j ≡ some x → x.established ≡ true → Open u j x
    established_now j x e on = elim (eq_cases j id) [
      | inl same ↦
          let off = c.closed x (ap u.ids (sym same) ∙ e) in
          let bad : false ≡ true = sym off ∙ on in absurd (cc)
      | inr ne ↦ established_kept j x ne (v.open_ids j x (sym (c.ids j ne) ∙ e) on)
    ]

    below_now : (b i : ℕ) → u.boxes b ≡ some i → b < u.next_box
    below_now b i e = elim (eq_cases b o.box) [
      | inl same ↦ let bad : none ≡ some i = sym c.box ∙ ap u.boxes (sym same) ∙ e in absurd (cc)
      | inr ne ↦ rw c.next (v.below b i (sym (c.boxes b ne) ∙ e))
    ]

    pub Closed-IsSound : IsSound u
    Closed-IsSound = record { held = held_now; open_ids = established_now; below = below_now }
