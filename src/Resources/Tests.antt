-- ===== src/Resources/Tests.antt =====
-- Calls whose state is what is held, and the theorems applied there.
use krcore_artifacts.Prelude.{
  ℕ, ◌+◌, ◌-◌, ◌<◌, ◌≡◌, refl, ap, subst, true, Bool-cases, inl, inr, ◌==◌, if◌then◌else◌, none,
  some, List, [], ◌∷◌, arith,
}
use krcore_artifacts.Resources.{
  Resource, heap, mapping, region, domain, handle, same, one, Os, Got, Accounts,
}
use krcore_artifacts.Resources.Context.{new_from_flags_user}
use krcore_artifacts.Resources.Opening.{UserLeft, new_from_flags_user-UserLeft}
use krcore_artifacts.Resources.History.{Action, makes, makes_huge, makes_raw, drops, run}
use krcore_artifacts.Resources.Balance.{Balanced, run-Balanced}

same-eq : (x r : Resource) → same x r ≡ true → x ≡ r
same-eq (heap a) (heap b) h = ap heap (ground (arith, h))
same-eq (mapping a n) (mapping b m) h = ground (arith, h)
same-eq (region a) (region b) h = ap region (ground (arith, h))
same-eq (domain a) (domain b) h = ap domain (ground (arith, h))
same-eq (handle a) (handle b) h = ap handle (ground (arith, h))
same-eq _ _ h = cc

-- How often each resource is held.
abbrev Counts : Type 0
Counts = Resource → ℕ

abbrev add : Resource → Counts → Counts
add x w r = w r + one x r

abbrev take : Resource → Counts → Counts
take x w r = w r - one x r

take-add : (x : Resource) (w : Counts) → 0 < w x → (r : Resource) → take x w r + one x r ≡ w r
take-add x w h r = elim (Bool-cases (same x r)) [
  | inl e ↦
      let there : 0 < w r = subst (λ y. 0 < w y) (same-eq x r e) h in rw e (omega (arith, there))
  | inr e ↦ rw e (omega arith)
]

-- The mapping gets the address 50, where nothing can be registered.
abbrev toy : Os
toy = record {
  World = Counts;
  new_zeroed_slice = λ n w. (7, add (heap 7) w);
  free = λ n a w. take (heap a) w;
  mmap = λ n w. (some 50, add (mapping 50 n) w);
  munmap = λ a n w. take (mapping a n) w;
  reg_mr = λ a n flags w. if a == 50 then (none, w) else (some a, add (region a) w);
  dereg_mr = λ mr w. take (region mr) w;
  open_device = λ w. (some 1, add (handle 1) w);
  alloc_pd = λ w. (some 2, add (domain 2) w);
  dealloc_pd = λ pd w. take (domain pd) w;
  get_dma_mr = λ pd w. (some 3, add (region 3) w);
}

abbrev held : Counts → Resource → ℕ
held w r = w r

toy-registers :
    (a n flags : ℕ) (w : Counts)
    → Got toy held region w (if a == 50 then (none, w) else (some a, add (region a) w))
toy-registers a n flags w = elim (Bool-cases (a == 50)) [
  | inl e ↦ rw e (λ r. refl)
  | inr e ↦ rw e (λ r. refl)
]

toy-Accounts : Accounts toy held
toy-Accounts = record {
  allocates = λ n w pos r. refl;
  frees = λ n a w h. take-add (heap a) w h;
  maps = λ n w r. refl;
  unmaps = λ a n w h. take-add (mapping a n) w h;
  registers = toy-registers;
  deregisters = λ mr w h. take-add (region mr) w h;
  opens = λ w r. refl;
  allocates_pd = λ w r. refl;
  deallocates_pd = λ pd w h. take-add (domain pd) w h;
  gets_dma_mr = λ pd w r. refl;
}

abbrev nothing : Counts
nothing r = 0

abbrev story : List Action
story = makes 10 ∷ makes_huge 5 ∷ makes_raw 90 4 1 ∷ drops 1 ∷ []

run-Balanced_example :
    Balanced toy held toy-Accounts nothing
      (run toy story (record { world = nothing; live = []; failed = 0 }))
run-Balanced_example = run-Balanced toy held toy-Accounts nothing story (omega arith, tt)

new_from_flags_user-UserLeft_example :
    UserLeft toy held toy-Accounts nothing (new_from_flags_user toy nothing)
new_from_flags_user-UserLeft_example = new_from_flags_user-UserLeft toy held toy-Accounts nothing
