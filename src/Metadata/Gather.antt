-- ===== src/Metadata/Gather.antt =====
-- Looking a gid up among the end points of the keys of META_INFO, and in META_INFO itself.
use krcore_artifacts.Prelude.{
  ℕ, suc, ◌≡◌, ◌⊎◌, inl, inr, refl, ap, sym, ◌∙◌, true, false, Option, none, some, List, [], ◌∷◌,
  ◌==◌, eq_cases, length, arith,
}
use krcore_artifacts.Prelude.Maps.{Map, lookup, insert, lookup-insert_self, lookup-insert_ne}
use krcore_artifacts.Metadata.{Kit, IsKit, Has}
use krcore_artifacts.Metadata.Image.{find_gid, Gathers}

module _ (k : Kit) where
  -- Each end point is registered under the text of its own gid.
  abbrev pub IsKeyed : Map k.EndPoint → Type 0
  IsKeyed metas = (t : ℕ) (e : k.EndPoint) → lookup t metas ≡ some e → t ≡ k.gid_to_str (k.gid e)

  pub insert-IsKeyed :
      (metas : Map k.EndPoint) (e : k.EndPoint)
      → IsKeyed metas
      → IsKeyed (insert (k.gid_to_str (k.gid e)) e metas)
  insert-IsKeyed metas e keyed t e1 at = elim (eq_cases t (k.gid_to_str (k.gid e))) [
    | inl same ↦
        let found = ap (λ x. lookup x (insert (k.gid_to_str (k.gid e)) e metas)) same in
        let is : some e1 ≡ some e =
          sym at ∙ found ∙ lookup-insert_self (k.gid_to_str (k.gid e)) e metas in
        same ∙ ap (λ o. k.gid_to_str (gid_or (k.gid e) o)) (sym is)
    | inr other ↦ keyed t e1 (sym (lookup-insert_ne t (k.gid_to_str (k.gid e)) e metas other) ∙ at)
  ]
    where
      gid_or : ℕ → Option k.EndPoint → ℕ
      gid_or g none = g
      gid_or g (some x) = k.gid x

  -- The end points of keys that are all in the map.
  pub gather :
      (metas : Map k.EndPoint) (ts : List ℕ)
      → ((t : ℕ) → Has t ts → (e : k.EndPoint) × (lookup t metas ≡ some e))
      → (es : List k.EndPoint) × Gathers k metas ts es
  gather metas [] all = ([], tt)
  gather metas (t ∷ ts) all =
      let (e, at) = all t (inl refl) in
      let (es, g) = gather metas ts (λ t1 h. all t1 (inr h)) in (e ∷ es, (at, g))

  pub length-Gathers :
      (metas : Map k.EndPoint) (ts : List ℕ) (es : List k.EndPoint)
      → Gathers k metas ts es
      → length es ≡ length ts
  length-Gathers metas [] [] g = refl
  length-Gathers metas [] (e ∷ es) g = absurd g
  length-Gathers metas (t ∷ ts) [] g = absurd g
  length-Gathers metas (t ∷ ts) (e ∷ es) (at, g) = ap suc (length-Gathers metas ts es g)

  module _ (law : IsKit k) (metas : Map k.EndPoint) (keyed : IsKeyed metas) (t : ℕ)
      (text : k.gid_to_str (k.str_to_gid t) ≡ t) where
    -- An end point with the gid of `t` stands under `t`, and one under `t` has that gid.
    gid-key : (x : ℕ) (e : k.EndPoint) → lookup x metas ≡ some e → k.gid e ≡ k.str_to_gid t → x ≡ t
    gid-key x e at g = keyed x e at ∙ ap k.gid_to_str g ∙ text

    key-gid : (x : ℕ) (e : k.EndPoint) → lookup x metas ≡ some e → x ≡ t → k.gid e ≡ k.str_to_gid t
    key-gid x e at same =
        sym (law.str_to_gid-gid_to_str (k.gid e)) ∙ ap k.str_to_gid (sym (keyed x e at) ∙ same)

    pub find_gid-some :
        (ts : List ℕ) (es : List k.EndPoint) (e : k.EndPoint)
        → Gathers k metas ts es
        → lookup t metas ≡ some e
        → Has t ts
        → find_gid k (k.str_to_gid t) es ≡ some e
    find_gid-some [] es e g at h = absurd h
    find_gid-some (x ∷ ts) [] e g at h = absurd g
    find_gid-some (x ∷ ts) (e1 ∷ es) e (at1, g) at h = elim (eq_cases (k.gid e1) (k.str_to_gid t)) [
      | inl same ↦
          let on : (k.gid e1 == k.str_to_gid t) ≡ true = ground (arith, same) in
          rw on (sym at1 ∙ ap (λ y. lookup y metas) (gid-key x e1 at1 same) ∙ at)
      | inr other ↦
          let off : (k.gid e1 == k.str_to_gid t) ≡ false = ground (arith, other) in
          rw off
            (find_gid-some ts es e g at (later h (λ same. other (key-gid x e1 at1 (sym same)))))
    ]
      where
        later : (t ≡ x) ⊎ Has t ts → ((t ≡ x) → ⊥) → Has t ts
        later (inl same) no_more = absurd (no_more same)
        later (inr h1) no_more = h1

    pub find_gid-none :
        (ts : List ℕ) (es : List k.EndPoint)
        → Gathers k metas ts es
        → lookup t metas ≡ none
        → find_gid k (k.str_to_gid t) es ≡ none
    find_gid-none [] [] g at = refl
    find_gid-none [] (e ∷ es) g at = absurd g
    find_gid-none (x ∷ ts) [] g at = refl
    find_gid-none (x ∷ ts) (e1 ∷ es) (at1, g) at = elim (eq_cases (k.gid e1) (k.str_to_gid t)) [
      | inl same ↦
          let clash = sym at1 ∙ ap (λ y. lookup y metas) (gid-key x e1 at1 same) ∙ at in
          absurd (cc clash)
      | inr other ↦
          let off : (k.gid e1 == k.str_to_gid t) ≡ false = ground (arith, other) in
          rw off (find_gid-none ts es g at)
    ]
