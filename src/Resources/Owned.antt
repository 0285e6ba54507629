-- ===== src/Resources/Owned.antt =====
-- memory_region.rs: what is held after a memory region is made, and after it is dropped.
use krcore_artifacts.Prelude.{
  ℕ, ◌+◌, ◌*◌, ◌^◌, ◌≤◌, ◌<◌, ◌≡◌, true, Bool-cases, ◌==◌, if◌then◌else◌, inl, inr, Option, none,
  some, List, [], ◌∷◌, arith,
}
use krcore_artifacts.Resources.{
  Resource, heap, mapping, region, domain, handle, one, Os, Got, Accounts,
}
use krcore_artifacts.Resources.Region.{
  MemoryRegion, mr_failed, huge_page_failed, Made, ok, err, all_access, align_to_hugepage_sz,
  zeroed_region, new, huge_region, mapped, new_huge_page, raw_region, new_from_raw, drop_region,
}

one_self : (x : Resource) → one x x ≡ 1
one_self (heap a) = let e : (a == a) ≡ true = ground arith in rw e
one_self (mapping a n) =
    let e : (a == a) ≡ true = ground arith in let f : (n == n) ≡ true = ground arith in rw (e, f)
one_self (region a) = let e : (a == a) ≡ true = ground arith in rw e
one_self (domain a) = let e : (a == a) ≡ true = ground arith in rw e
one_self (handle a) = let e : (a == a) ≡ true = ground arith in rw e

-- What a region owns besides its registration: the memory, unless the pointer is the caller's.
abbrev pub memory : MemoryRegion → Resource → ℕ
memory m r =
    if m.is_raw_ptr
    then 0
    else if m.is_huge_page
    then one (mapping m.address m.capacity) r
    else one (heap m.address) r

abbrev pub owned : MemoryRegion → Resource → ℕ
owned m r = one (region m.mr) r + memory m r

abbrev pub owned_all : List MemoryRegion → Resource → ℕ
owned_all [] r = 0
owned_all (m ∷ ms) r = owned m r + owned_all ms r

-- Mappings, by their addresses and lengths.
abbrev pub lost : List (ℕ × ℕ) → Resource → ℕ
lost [] r = 0
lost ((a, n) ∷ xs) r = one (mapping a n) r + lost xs r

module _ (os : Os) (held : os.World → Resource → ℕ) (law : Accounts os held) where
  -- A constructor adds what the region owns, or nothing.
  abbrev pub Bought : os.World → Made MemoryRegion × os.World → Type 0
  Bought w (ok m, w1) = (r : Resource) → held w1 r ≡ held w r + owned m r
  Bought w (err e, w1) = (r : Resource) → held w1 r ≡ held w r

  pub new-Bought : (n : ℕ) (w : os.World) → 0 < n → Bought w (new os n w)
  unfolding new
  new-Bought n w pos =
      let (a, w1) = os.new_zeroed_slice n w in
      go (law.allocates n w pos) (os.reg_mr a n all_access w1) (law.registers a n all_access w1)
    where
      go :
          ((r : Resource)
            → held (os.new_zeroed_slice n w).1 r
              ≡ held w r + one (heap (os.new_zeroed_slice n w).0) r)
          → (x : Option ℕ × os.World) → Got os held region (os.new_zeroed_slice n w).1 x
          → Bought w (zeroed_region os (os.new_zeroed_slice n w).0 n x)
      go block (some mr, w2) got = λ r. omega (arith, block r, got r)
      go block (none, w2) got =
          let a = (os.new_zeroed_slice n w).0 in
          let there : 0 < held w2 (heap a) =
            omega (arith, got (heap a), block (heap a), one_self (heap a)) in
          λ r. omega (arith, block r, got r, law.frees n a w2 there r)

  pub raw-Bought : (ptr n flags : ℕ) (w : os.World) → Bought w (new_from_raw os ptr n flags w)
  unfolding new_from_raw
  raw-Bought ptr n flags w = go (os.reg_mr ptr n flags w) (law.registers ptr n flags w)
    where
      go : (x : Option ℕ × os.World) → Got os held region w x → Bought w (raw_region os ptr n x)
      go (some mr, w1) got = λ r. omega (arith, got r)
      go (none, w1) got = got

  -- A huge page whose registration fails leaves a mapping.
  abbrev pub BoughtHuge : os.World → Made MemoryRegion × os.World → Type 0
  BoughtHuge w (ok m, w1) = (r : Resource) → held w1 r ≡ held w r + owned m r
  BoughtHuge w (err mr_failed, w1) =
      (a n : ℕ) × ((r : Resource) → held w1 r ≡ held w r + one (mapping a n) r)
  BoughtHuge w (err huge_page_failed, w1) = (r : Resource) → held w1 r ≡ held w r

  pub huge-Bought : (n : ℕ) (w : os.World) → BoughtHuge w (new_huge_page os n w)
  unfolding new_huge_page
  huge-Bought n w =
      let size = align_to_hugepage_sz n (2 * 2 ^ 20) in go size (os.mmap size w) (law.maps size w)
    where
      register :
          (size a : ℕ) (w1 : os.World)
          → ((r : Resource) → held w1 r ≡ held w r + one (mapping a size) r)
          → (x : Option ℕ × os.World) → Got os held region w1 x
          → BoughtHuge w (huge_region os a size x)
      register size a w1 page (some mr, w2) got = λ r. omega (arith, page r, got r)
      register size a w1 page (none, w2) got = (a, size, λ r. omega (arith, page r, got r))

      go :
          (size : ℕ) (x : Option ℕ × os.World)
          → Got os held (λ a. mapping a size) w x
          → BoughtHuge w (mapped os size x)
      go size (none, w1) got = got
      go size (some a, w1) got =
          register size a w1 got (os.reg_mr a size all_access w1)
            (law.registers a size all_access w1)

  -- Dropping a region gives back what it owns.
  pub drop-releases :
      (m : MemoryRegion) (w : os.World)
      → ((r : Resource) → owned m r ≤ held w r)
      → (r : Resource) → held (drop_region os m w) r + owned m r ≡ held w r
  unfolding drop_region
  drop-releases m w enough r =
      let w1 = os.dereg_mr m.mr w in
      let freed =
        law.deregisters m.mr w (omega (arith, enough (region m.mr), one_self (region m.mr))) in
      elim (Bool-cases m.is_raw_ptr) [
        | inl raw ↦ rw raw (omega (arith, freed r))
        | inr own ↦ elim (Bool-cases m.is_huge_page) [
          | inl huge ↦
              let x = mapping m.address m.capacity in
              let there = rw (own, huge) at (enough x) in
              rw (own, huge)
                (omega (
                  arith,
                  freed r,
                  law.unmaps m.address m.capacity w1 (omega (arith, there, freed x, one_self x)) r,
                ))
          | inr small ↦
              let x = heap m.address in
              let there = rw (own, small) at (enough x) in
              rw (own, small)
                (omega (
                  arith,
                  freed r,
                  law.frees 1 m.address w1 (omega (arith, there, freed x, one_self x)) r,
                ))
        ]
      ]
