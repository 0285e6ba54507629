-- ===== src/Control/Ensures.antt =====
-- Calls of the controller that use no bad memory, with what their answers and errors ensure.
use krcore_artifacts.Prelude.{ℕ, ◌≡◌, ◌≢◌, true, false, Option, ◌==◌, arith}
use krcore_artifacts.Manager.{Attempt, ok, err, resume}
use krcore_artifacts.Control.{
  Kernel, Stop, kernel_error, panics, null_pointer, bad_memory, write, caught, RCtrl, Ctl,
}

pub write_self : {A : Type 0} (p : ℕ) (c : Option A) (h : ℕ → Option A) → write p c h p ≡ c
write_self p c h = let on : (p == p) ≡ true = ground arith in rw on

pub write-ne :
    {A : Type 0} (p q : ℕ) (c : Option A) (h : ℕ → Option A) → q ≢ p → write p c h q ≡ h q
write-ne p q c h ne = let off : (q == p) ≡ false = ground (arith, ne) in rw off

module _ {k : Kernel} where
  -- A call that uses no bad memory, answers what `P` says, and fails as `E` says.
  abbrev pub Ensures :
      {A : Type 0} → (A → RCtrl k → Type 0) → (RCtrl k → Type 0) → Attempt Stop A × RCtrl k → Type 0
  Ensures P E (ok a, s) = P a s
  Ensures P E (err (kernel_error e), s) = E s
  Ensures P E (err panics, s) = Unit {0}
  Ensures P E (err null_pointer, s) = Unit {0}
  Ensures P E (err bad_memory, s) = ⊥

  pub Ensures-resume :
      {A B : Type 0} (P : A → RCtrl k → Type 0) (Q : B → RCtrl k → Type 0) (E : RCtrl k → Type 0)
      (x : Attempt Stop A × RCtrl k) (f : A → Ctl k B)
      → Ensures P E x
      → ((a : A) (s : RCtrl k) → P a s → Ensures Q E (f a s))
      → Ensures Q E (resume x f)
  Ensures-resume P Q E (ok a, s) f p n = n a s p
  Ensures-resume P Q E (err (kernel_error e), s) f p n = p
  Ensures-resume P Q E (err panics, s) f p n = p
  Ensures-resume P Q E (err null_pointer, s) f p n = p
  Ensures-resume P Q E (err bad_memory, s) f p n = p

  pub Ensures-weaken :
      {A : Type 0} (P Q : A → RCtrl k → Type 0) (E : RCtrl k → Type 0)
      (x : Attempt Stop A × RCtrl k)
      → Ensures P E x
      → ((a : A) (s : RCtrl k) → P a s → Q a s)
      → Ensures Q E x
  Ensures-weaken P Q E (ok a, s) p n = n a s p
  Ensures-weaken P Q E (err (kernel_error e), s) p n = p
  Ensures-weaken P Q E (err panics, s) p n = p
  Ensures-weaken P Q E (err null_pointer, s) p n = p
  Ensures-weaken P Q E (err bad_memory, s) p n = p

  -- A result of a call that is caught satisfies what both its answers and its errors do.
  pub Ensures-caught :
      {A : Type 0} (I E : RCtrl k → Type 0) (x : Attempt Stop A × RCtrl k)
      → Ensures (λ a. I) I x
      → Ensures (λ a. I) E (caught x)
  Ensures-caught I E (ok a, s) p = p
  Ensures-caught I E (err (kernel_error e), s) p = p
  Ensures-caught I E (err panics, s) p = p
  Ensures-caught I E (err null_pointer, s) p = p
  Ensures-caught I E (err bad_memory, s) p = p
