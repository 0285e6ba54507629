-- ===== src/Prelude/Effects.antt =====
-- Calls that read and change the world `W` outside of the code, and may panic.
use mathlib.Core.Path.{◌≡◌, refl, subst}
use mathlib.Core.Option.{Option, none, some}
use mathlib.Core.Bool.{Bool, true, false}
use krcore_artifacts.Prelude.Tests.{if◌then◌else◌}
use krcore_artifacts.Prelude.Panics.{Outcome, done, panic}

abbrev pub Eff : Type 0 → Type 0 → Type 0
Eff W A = W → Outcome (A × W)

abbrev pub pure : {W A : Type 0} → A → Eff W A
pure a w = done (a, w)

abbrev pub crash : {W A : Type 0} → Eff W A
crash w = panic

abbrev pub resume : {W A B : Type 0} → Outcome (A × W) → (A → Eff W B) → Outcome (B × W)
resume panic f = panic
resume (done (a, w)) f = f a w

infixl 5 ◌>>=◌
abbrev pub ◌>>=◌ : {W A B : Type 0} → Eff W A → (A → Eff W B) → Eff W B
◌>>=◌ m f w = resume (m w) f

-- A read of the world.
abbrev pub look : {W A : Type 0} → (W → A) → Eff W A
look f w = done (f w, w)

abbrev pub lift : {W A : Type 0} → Outcome A → Eff W A
lift panic w = panic
lift (done a) w = done (a, w)

abbrev pub expect : {W A : Type 0} → Option A → Eff W A
expect none w = panic
expect (some a) w = done (a, w)

pub resume-ext :
    {W A B : Type 0} (x : Outcome (A × W)) (f g : A → Eff W B)
    → ((a : A) (w : W) → f a w ≡ g a w)
    → resume x f ≡ resume x g
resume-ext panic f g same = refl
resume-ext (done (a, w)) f g same = same a w

-- Two continuations of a call that agree after every result of its first part.
pub resume-congr :
    {W A B C : Type 0} (x : Outcome (A × W)) (h : A → Eff W B) (f g : B → Eff W C)
    → ((a : A) (w : W) → resume (h a w) f ≡ resume (h a w) g)
    → resume (resume x h) f ≡ resume (resume x h) g
resume-congr panic h f g same = refl
resume-congr (done (a, w)) h f g same = same a w

pub resume-then :
    {W A B C : Type 0} (x : Outcome (A × W)) (h : A → Eff W B) (f : B → Eff W C) (g : A → Eff W C)
    → ((a : A) (w : W) → g a w ≡ resume (h a w) f)
    → resume x g ≡ resume (resume x h) f
resume-then panic h f g same = refl
resume-then (done (a, w)) h f g same = same a w

pub resume-congr_if :
    {W A B : Type 0} (c : Bool) (x y : Eff W A) (w : W) (f g : A → Eff W B)
    → resume (x w) f ≡ resume (x w) g
    → resume (y w) f ≡ resume (y w) g
    → resume ((if c then x else y) w) f ≡ resume ((if c then x else y) w) g
resume-congr_if true x y w f g p q = p
resume-congr_if false x y w f g p q = q

pub resume-then_if :
    {W A B : Type 0} (c : Bool) (x y : Eff W A) (x' y' : Eff W B) (w : W) (f : A → Eff W B)
    → x' w ≡ resume (x w) f
    → y' w ≡ resume (y w) f
    → (if c then x' else y') w ≡ resume ((if c then x else y) w) f
resume-then_if true x y x' y' w f p q = p
resume-then_if false x y x' y' w f p q = q

-- If the call returns, then its result has the property.
unfoldable pub Ensures : {W A : Type 0} → (A → Type 0) → Outcome (A × W) → Type 0
Ensures P panic = Unit {0}
Ensures P (done (a, w)) = P a

pub Ensures-panic : {A : Type 0} (W : Type 0) (P : A → Type 0) → Ensures {W = W} P panic
unfolding Ensures
Ensures-panic W P = tt

module _ {W : Type 0} where
  pub Ensures-done : {A : Type 0} (P : A → Type 0) (a : A) (w : W) → P a → Ensures P (done (a, w))
  unfolding Ensures
  Ensures-done P a w h = h

  pub Ensures-resume :
      {A B : Type 0} (P : A → Type 0) (Q : B → Type 0) (x : Outcome (A × W)) (f : A → Eff W B)
      → Ensures P x
      → ((a : A) (w : W) → P a → Ensures Q (f a w))
      → Ensures Q (resume x f)
  unfolding Ensures
  Ensures-resume P Q panic f h k = tt
  Ensures-resume P Q (done (a, w)) f h k = k a w h

  -- Of any result.
  pub Ensures-any :
      {A B : Type 0} (Q : B → Type 0) (x : Outcome (A × W)) (f : A → Eff W B)
      → ((a : A) (w : W) → Ensures Q (f a w))
      → Ensures Q (resume x f)
  unfolding Ensures
  Ensures-any Q panic f k = tt
  Ensures-any Q (done (a, w)) f k = k a w

  pub Ensures-if :
      {A : Type 0} (P : A → Type 0) (c : Bool) (x y : Outcome (A × W))
      → (c ≡ true → Ensures P x)
      → (c ≡ false → Ensures P y)
      → Ensures P (if c then x else y)
  Ensures-if P true x y p q = p refl
  Ensures-if P false x y p q = q refl

  -- The same of a choice between two calls.
  pub Ensures-choice :
      {A : Type 0} (P : A → Type 0) (c : Bool) (x y : Eff W A) (w : W)
      → (c ≡ true → Ensures P (x w))
      → (c ≡ false → Ensures P (y w))
      → Ensures P ((if c then x else y) w)
  Ensures-choice P true x y w p q = p refl
  Ensures-choice P false x y w p q = q refl

  pub Ensures-map :
      {A : Type 0} (P Q : A → Type 0) (x : Outcome (A × W))
      → ((a : A) → P a → Q a)
      → Ensures P x
      → Ensures Q x
  unfolding Ensures
  Ensures-map P Q panic f h = tt
  Ensures-map P Q (done (a, w)) f h = f a h

  pub Ensures-result :
      {A : Type 0} (P : A → Type 0) (x : Outcome (A × W)) (a : A) (w : W)
      → Ensures P x
      → x ≡ done (a, w)
      → P a
  unfolding Ensures
  Ensures-result P x a w h e = subst (Ensures P) e h

  -- The call returns, and its result has the property.
  unfoldable pub Returns : {A : Type 0} → (A → Type 0) → Outcome (A × W) → Type 0
  Returns {A} P x = (a : A) × (w : W) × (x ≡ done (a, w)) × P a

  pub Returns-done : {A : Type 0} (P : A → Type 0) (a : A) (w : W) → P a → Returns P (done (a, w))
  unfolding Returns
  Returns-done P a w h = (a, w, refl, h)

  pub Returns-resume :
      {A B : Type 0} (P : A → Type 0) (Q : B → Type 0) (x : Outcome (A × W)) (f : A → Eff W B)
      → Returns P x
      → ((a : A) (w : W) → P a → Returns Q (f a w))
      → Returns Q (resume x f)
  unfolding Returns
  Returns-resume P Q x f (a, w, e, h) next =
      let (b, w', e', h') = next a w h in (b, w', rw e e', h')

  -- The call returns a value and a world with the property, or `C` holds and it panics.
  unfoldable pub Leaves : {A : Type 0} → Type 0 → (A → W → Type 0) → Outcome (A × W) → Type 0
  Leaves C P panic = C
  Leaves C P (done (a, w)) = P a w

  pub Leaves-done :
      {A : Type 0} (C : Type 0) (P : A → W → Type 0) (a : A) (w : W)
      → P a w
      → Leaves C P (done (a, w))
  unfolding Leaves
  Leaves-done C P a w h = h

  pub Leaves-panic : {A : Type 0} (C : Type 0) (P : A → W → Type 0) → C → Leaves C P panic
  unfolding Leaves
  Leaves-panic C P c = c

  pub Leaves-resume :
      {A B : Type 0} (C : Type 0) (P : A → W → Type 0) (Q : B → W → Type 0) (x : Outcome (A × W))
      (f : A → Eff W B)
      → Leaves C P x
      → ((a : A) (w : W) → P a w → Leaves C Q (f a w))
      → Leaves C Q (resume x f)
  unfolding Leaves
  Leaves-resume C P Q panic f h k = h
  Leaves-resume C P Q (done (a, w)) f h k = k a w h

  pub Leaves-map :
      {A : Type 0} (C D : Type 0) (P Q : A → W → Type 0) (x : Outcome (A × W))
      → (C → D)
      → ((a : A) (w : W) → P a w → Q a w)
      → Leaves C P x
      → Leaves D Q x
  unfolding Leaves
  Leaves-map C D P Q panic c f h = c h
  Leaves-map C D P Q (done (a, w)) c f h = f a w h

  pub Leaves-result :
      {A : Type 0} (C : Type 0) (P : A → W → Type 0) (x : Outcome (A × W)) (a : A) (w : W)
      → Leaves C P x
      → x ≡ done (a, w)
      → P a w
  unfolding Leaves
  Leaves-result C P x a w h e = subst (Leaves C P) e h

  -- Where `C` fails, the call returns.
  pub Leaves-returns :
      {A : Type 0} (C : Type 0) (P : A → W → Type 0) (x : Outcome (A × W))
      → ¬ C
      → Leaves C P x
      → (a : A) × (w : W) × (x ≡ done (a, w)) × P a w
  unfolding Leaves
  Leaves-returns C P panic bad h = absurd (bad h)
  Leaves-returns C P (done (a, w)) bad h = (a, w, refl, h)

  -- What a call leaves is what it returned.
  pub Leaves-self :
      {A : Type 0} (C : Type 0) (x : Outcome (A × W)) → C → Leaves C (λ a w. x ≡ done (a, w)) x
  unfolding Leaves
  Leaves-self C panic c = c
  Leaves-self C (done (a, w)) c = refl

  pub Leaves-nest :
      {A B D : Type 0} (C : Type 0) (P : A → W → Type 0) (Q : D → W → Type 0) (x : Outcome (A × W))
      (h : A → Eff W B) (f : B → Eff W D)
      → Leaves C P x
      → ((a : A) (w : W) → P a w → Leaves C Q (resume (h a w) f))
      → Leaves C Q (resume (resume x h) f)
  unfolding Leaves
  Leaves-nest C P Q panic h f p k = p
  Leaves-nest C P Q (done (a, w)) h f p k = k a w p
