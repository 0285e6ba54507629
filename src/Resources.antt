-- ===== src/Resources.antt =====
-- What the library owns of the operating system and the NIC: memory regions of
-- KRdmaKit/src/memory_region.rs and contexts of KRdmaKit/src/context.rs. The calls of both systems are a
-- parameter.
pub mod Region
pub mod Context
pub mod Opening
pub mod History
pub mod Owned
pub mod Balance
mod Tests
use krcore_artifacts.Prelude.{
  ℕ, ◌+◌, ◌<◌, ◌≡◌, Bool, true, false, ◌&&◌, Option, none, some, ◌==◌, if◌then◌else◌,
}

-- Something that is held until it is given back: a block of the heap, a mapping, a registered memory
-- region, a protection domain, an opened device.
pub data Resource : Type 0 where
  heap : ℕ → Resource
  mapping : (addr len : ℕ) → Resource
  region : ℕ → Resource
  domain : ℕ → Resource
  handle : ℕ → Resource

abbrev pub same : Resource → Resource → Bool
same (heap a) (heap b) = a == b
same (mapping a n) (mapping b m) = a == b && n == m
same (region a) (region b) = a == b
same (domain a) (domain b) = a == b
same (handle a) (handle b) = a == b
same _ _ = false

abbrev pub one : Resource → Resource → ℕ
one x r = if same x r then 1 else 0

-- The calls. A null pointer is `none`.
pub record Os : Type 1 where
  pub World : Type 0
  pub new_zeroed_slice : ℕ → World → ℕ × World
  -- `dealloc`, with the size of the layout and the address.
  pub free : ℕ → ℕ → World → World
  pub mmap : ℕ → World → Option ℕ × World
  pub munmap : ℕ → ℕ → World → World
  pub reg_mr : ℕ → ℕ → ℕ → World → Option ℕ × World
  pub dereg_mr : ℕ → World → World
  pub open_device : World → Option ℕ × World
  pub alloc_pd : World → Option ℕ × World
  pub dealloc_pd : ℕ → World → World
  pub get_dma_mr : ℕ → World → Option ℕ × World

module _ (os : Os) (held : os.World → Resource → ℕ) where
  -- A call that gets a resource has added it, and one that fails has added nothing.
  abbrev pub Got : (ℕ → Resource) → os.World → Option ℕ × os.World → Type 0
  Got f w (none, w1) = (r : Resource) → held w1 r ≡ held w r
  Got f w (some n, w1) = (r : Resource) → held w1 r ≡ held w r + one (f n) r

  -- A call that gives back a resource that is held takes it away.
  abbrev pub GivesBack : Resource → os.World → os.World → Type 0
  GivesBack x w w1 = 0 < held w x → (r : Resource) → held w1 r + one x r ≡ held w r

  -- Documented behaviour of the calls: how often each resource is held after them. The heap is asked
  -- for a block of some bytes at least, and it frees a block by its address, whatever size the layout
  -- has that it is told, as C's `free` and the kernel's `kfree` do, which have no layout at all.
  pub record Accounts : Type 0 where
    pub allocates :
        (n : ℕ) (w : os.World)
        → 0 < n
        → Got heap w (some (os.new_zeroed_slice n w).0, (os.new_zeroed_slice n w).1)
    pub frees : (n a : ℕ) (w : os.World) → GivesBack (heap a) w (os.free n a w)
    pub maps : (n : ℕ) (w : os.World) → Got (λ a. mapping a n) w (os.mmap n w)
    pub unmaps : (a n : ℕ) (w : os.World) → GivesBack (mapping a n) w (os.munmap a n w)
    pub registers : (a n flags : ℕ) (w : os.World) → Got region w (os.reg_mr a n flags w)
    pub deregisters : (mr : ℕ) (w : os.World) → GivesBack (region mr) w (os.dereg_mr mr w)
    pub opens : (w : os.World) → Got handle w (os.open_device w)
    pub allocates_pd : (w : os.World) → Got domain w (os.alloc_pd w)
    pub deallocates_pd : (pd : ℕ) (w : os.World) → GivesBack (domain pd) w (os.dealloc_pd pd w)
    pub gets_dma_mr : (pd : ℕ) (w : os.World) → Got region w (os.get_dma_mr pd w)
