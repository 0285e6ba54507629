-- ===== src/Resources/Balance.antt =====
-- memory_region.rs: what is held along a program that makes and drops memory regions.
use krcore_artifacts.Prelude.{
  ℕ, zero, suc, ◌+◌, ◌≤◌, ◌<◌, ◌≡◌, refl, Option, none, some, List, [], ◌∷◌, length, arith,
}
use krcore_artifacts.Resources.{Resource, Os, Accounts}
use krcore_artifacts.Resources.Region.{
  MemoryRegion, mr_failed, huge_page_failed, Made, ok, err, new, new_huge_page, new_from_raw,
}
use krcore_artifacts.Resources.History.{
  Action, makes, makes_huge, makes_raw, drops, Program, take_out, made, made_huge, dropped, act,
  run,
}
use krcore_artifacts.Resources.Owned.{
  owned, owned_all, lost, Bought, BoughtHuge, new-Bought, raw-Bought, huge-Bought, drop-releases,
}

module _ (os : Os) (held : os.World → Resource → ℕ) (law : Accounts os held) where
  -- The balance of a program that began in the state `w0`: what is held besides is what the live
  -- regions own, and the mappings of the huge pages whose registration failed.
  pub record Balanced (w0 : os.World) (s : Program os) : Type 0 where
    pub leaks : List (ℕ × ℕ)
    pub length_leaks : length leaks ≡ s.failed
    pub balance : (r : Resource) → held s.world r ≡ held w0 r + owned_all s.live r + lost leaks r

  made-Balanced :
      (w0 : os.World) (s : Program os) (x : Made MemoryRegion × os.World)
      → Balanced w0 s
      → Bought os held law s.world x
      → Balanced w0 (made os s x)
  made-Balanced w0 s (ok m, w) b got = record {
    leaks = b.leaks;
    length_leaks = b.length_leaks;
    balance = λ r. omega (arith, b.balance r, got r);
  }
  made-Balanced w0 s (err e, w) b got = record {
    leaks = b.leaks;
    length_leaks = b.length_leaks;
    balance = λ r. omega (arith, b.balance r, got r);
  }

  made_huge-Balanced :
      (w0 : os.World) (s : Program os) (x : Made MemoryRegion × os.World)
      → Balanced w0 s
      → BoughtHuge os held law s.world x
      → Balanced w0 (made_huge os s x)
  made_huge-Balanced w0 s (ok m, w) b got = record {
    leaks = b.leaks;
    length_leaks = b.length_leaks;
    balance = λ r. omega (arith, b.balance r, got r);
  }
  made_huge-Balanced w0 s (err mr_failed, w) b (a, n, got) = record {
    leaks = (a, n) ∷ b.leaks;
    length_leaks = omega (arith, b.length_leaks);
    balance = λ r. omega (arith, b.balance r, got r);
  }
  made_huge-Balanced w0 s (err huge_page_failed, w) b got = record {
    leaks = b.leaks;
    length_leaks = b.length_leaks;
    balance = λ r. omega (arith, b.balance r, got r);
  }

  -- What is taken out of a list of regions owns its part.
  abbrev Parts : List MemoryRegion → Option (MemoryRegion × List MemoryRegion) → Type 0
  Parts ms none = Unit {0}
  Parts ms (some (m, rest)) = (r : Resource) → owned_all ms r ≡ owned m r + owned_all rest r

  take_out-Parts : (i : ℕ) (ms : List MemoryRegion) → Parts ms (take_out i ms)
  take_out-Parts i [] = tt
  take_out-Parts zero (m ∷ ms) = λ r. refl
  take_out-Parts (suc i) (m ∷ ms) = go (take_out i ms) (take_out-Parts i ms)
    where
      go :
          (o : Option (MemoryRegion × List MemoryRegion))
          → Parts ms o
          → Parts (m ∷ ms) (elim o [ none ↦ none | some (x, rest) ↦ some (x, m ∷ rest) ])
      go none p = tt
      go (some (x, rest)) p = λ r. omega (arith, p r)

  dropped-Balanced :
      (w0 : os.World) (s : Program os) (o : Option (MemoryRegion × List MemoryRegion))
      → Balanced w0 s
      → Parts s.live o
      → Balanced w0 (dropped os s o)
  dropped-Balanced w0 s none b parts = b
  dropped-Balanced w0 s (some (m, rest)) b parts = record {
    leaks = b.leaks;
    length_leaks = b.length_leaks;
    balance = λ r.
        let enough : (r1 : Resource) → owned m r1 ≤ held s.world r1 =
          λ r1. omega (arith, b.balance r1, parts r1) in
        omega (arith, b.balance r, parts r, drop-releases os held law m s.world enough r);
  }

  -- No region of an ordinary heap block is empty.
  abbrev pub Sized : List Action → Type 0
  Sized [] = Unit {0}
  Sized (makes n ∷ rest) = (0 < n) × Sized rest
  Sized (_ ∷ rest) = Sized rest

  run_kept :
      (w0 : os.World) (actions : List Action) (s : Program os)
      → Sized actions
      → Balanced w0 s
      → Balanced w0 (run os actions s)
  run_kept w0 [] s sized b = b
  run_kept w0 (makes n ∷ rest) s (pos, sized) b =
      run_kept w0 rest (act os (makes n) s) sized
        (made-Balanced w0 s (new os n s.world) b (new-Bought os held law n s.world pos))
  run_kept w0 (makes_huge n ∷ rest) s sized b =
      run_kept w0 rest (act os (makes_huge n) s) sized
        (made_huge-Balanced w0 s (new_huge_page os n s.world) b (huge-Bought os held law n s.world))
  run_kept w0 (makes_raw ptr n flags ∷ rest) s sized b =
      run_kept w0 rest (act os (makes_raw ptr n flags) s) sized (
        made-Balanced w0 s (new_from_raw os ptr n flags s.world) b
          (raw-Bought os held law ptr n flags s.world))
  run_kept w0 (drops i ∷ rest) s sized b =
      run_kept w0 rest (act os (drops i) s) sized
        (dropped-Balanced w0 s (take_out i s.live) b (take_out-Parts i s.live))

  -- On calls that behave as documented and an allocator that frees a block by its address alone, for
  -- the layout of one byte that the drop of a region gives is not the block's: a program that begins with no region and makes and drops
  -- regions in any order, none of them of an empty heap block, stays balanced: whatever it holds more
  -- than at the beginning is owned by the regions that are alive, but for one mapping for each huge page
  -- whose registration failed.
  pub run-Balanced :
      (w0 : os.World) (actions : List Action)
      → Sized actions
      → Balanced w0 (run os actions (record { world = w0; live = []; failed = 0 }))
  run-Balanced w0 actions sized =
      run_kept w0 actions (record { world = w0; live = []; failed = 0 }) sized
        (record { leaks = []; length_leaks = refl; balance = λ r. omega arith })
