-- ===== src/Resources/History.antt =====
-- A program that makes and drops memory regions in user space.
use krcore_artifacts.Prelude.{ℕ, zero, suc, ◌+◌, Option, none, some, List, [], ◌∷◌}
use krcore_artifacts.Resources.{Os}
use krcore_artifacts.Resources.Region.{
  MemoryRegion, mr_failed, Made, ok, err, new, new_huge_page, new_from_raw, drop_region,
}

-- The three constructors, and the drop of a region, the last one made being number 0.
pub data Action : Type 0 where
  makes : (capacity : ℕ) → Action
  makes_huge : (capacity : ℕ) → Action
  makes_raw : (ptr capacity mr_flags : ℕ) → Action
  drops : ℕ → Action

-- The regions that are alive, and how often registering a huge page has failed.
pub record Program (os : Os) : Type 0 where
  pub world : os.World
  pub live : List MemoryRegion
  pub failed : ℕ

abbrev pub take_out : ℕ → List MemoryRegion → Option (MemoryRegion × List MemoryRegion)
take_out i [] = none
take_out zero (m ∷ ms) = some (m, ms)
take_out (suc i) (m ∷ ms) = elim (take_out i ms) [
  | none ↦ none
  | some (x, rest) ↦ some (x, m ∷ rest)
]

module _ (os : Os) where
  abbrev pub made : Program os → Made MemoryRegion × os.World → Program os
  made s (ok m, w) = record s { world = w; live = m ∷ s.live }
  made s (err e, w) = record s { world = w }

  abbrev pub made_huge : Program os → Made MemoryRegion × os.World → Program os
  made_huge s (ok m, w) = record s { world = w; live = m ∷ s.live }
  made_huge s (err mr_failed, w) = record s { world = w; failed = s.failed + 1 }
  made_huge s (err e, w) = record s { world = w }

  abbrev pub dropped : Program os → Option (MemoryRegion × List MemoryRegion) → Program os
  dropped s none = s
  dropped s (some (m, rest)) = record s { world = drop_region os m s.world; live = rest }

  abbrev pub act : Action → Program os → Program os
  act (makes capacity) s = made s (new os capacity s.world)
  act (makes_huge capacity) s = made_huge s (new_huge_page os capacity s.world)
  act (makes_raw ptr capacity mr_flags) s = made s (new_from_raw os ptr capacity mr_flags s.world)
  act (drops i) s = dropped s (take_out i s.live)

  abbrev pub run : List Action → Program os → Program os
  run [] s = s
  run (a ∷ rest) s = run rest (act a s)
