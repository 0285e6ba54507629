-- ===== src/Resources/Region.antt =====
-- `MemoryRegion` of memory_region.rs in user space: its constructors and its drop.
use krcore_artifacts.Prelude.{
  ℕ, ◌+◌, ◌-◌, ◌*◌, ◌/◌, ◌%◌, ◌^◌, Bool, true, false, Option, none, some, if◌then◌else◌,
}
use krcore_artifacts.Resources.{Os}

pub record MemoryRegion : Type 0 where
  -- `data` is a word of the language.
  pub address : ℕ
  pub capacity : ℕ
  pub is_raw_ptr : Bool
  pub is_huge_page : Bool
  pub mr : ℕ

-- What a `ControlpathError` of a constructor is about.
pub data MrError : Type 0 where
  mr_failed huge_page_failed : MrError

pub data Made (A : Type 0) : Type 0 where
  ok : A → Made A
  err : MrError → Made A

-- IB_ACCESS_LOCAL_WRITE, REMOTE_WRITE, REMOTE_READ, REMOTE_ATOMIC and MW_BIND.
abbrev pub all_access : ℕ
all_access = 31

unfoldable pub align_to_hugepage_sz : ℕ → ℕ → ℕ
align_to_hugepage_sz x a = (x + a - 1) % 2 ^ 64 / a * a

module _ (os : Os) where
  -- In user space: the memory is registered, and dropped again if that fails.
  abbrev pub zeroed_region : ℕ → ℕ → Option ℕ × os.World → Made MemoryRegion × os.World
  zeroed_region address capacity (none, w) = (err mr_failed, os.free capacity address w)
  zeroed_region address capacity (some mr, w) = (
    ok (record {
      address = address;
      capacity = capacity;
      is_raw_ptr = false;
      is_huge_page = false;
      mr = mr;
    }),
    w,
  )

  unfoldable pub new : ℕ → os.World → Made MemoryRegion × os.World
  new capacity w =
      let (address, w1) = os.new_zeroed_slice capacity w in
      zeroed_region address capacity (os.reg_mr address capacity all_access w1)

  abbrev pub huge_region : ℕ → ℕ → Option ℕ × os.World → Made MemoryRegion × os.World
  huge_region address capacity (none, w) = (err mr_failed, w)
  huge_region address capacity (some mr, w) = (
    ok (record {
      address = address;
      capacity = capacity;
      is_raw_ptr = false;
      is_huge_page = true;
      mr = mr;
    }),
    w,
  )

  abbrev pub mapped : ℕ → Option ℕ × os.World → Made MemoryRegion × os.World
  mapped capacity (none, w) = (err huge_page_failed, w)
  mapped capacity (some address, w) =
      huge_region address capacity (os.reg_mr address capacity all_access w)

  unfoldable pub new_huge_page : ℕ → os.World → Made MemoryRegion × os.World
  new_huge_page capacity w =
      let capacity = align_to_hugepage_sz capacity (2 * 2 ^ 20) in
      mapped capacity (os.mmap capacity w)

  abbrev pub raw_region : ℕ → ℕ → Option ℕ × os.World → Made MemoryRegion × os.World
  raw_region ptr capacity (none, w) = (err mr_failed, w)
  raw_region ptr capacity (some mr, w) = (
    ok (record {
      address = ptr;
      capacity = capacity;
      is_raw_ptr = true;
      is_huge_page = false;
      mr = mr;
    }),
    w,
  )

  unfoldable pub new_from_raw : ℕ → ℕ → ℕ → os.World → Made MemoryRegion × os.World
  new_from_raw ptr capacity mr_flags w = raw_region ptr capacity (os.reg_mr ptr capacity mr_flags w)

  -- The drop of a heap block is that of a box of a `c_void`, with a layout of one byte.
  unfoldable pub drop_region : MemoryRegion → os.World → os.World
  drop_region m w =
      let w1 = os.dereg_mr m.mr w in
      if m.is_raw_ptr
      then w1
      else if m.is_huge_page
      then os.munmap m.address m.capacity w1
      else os.free 1 m.address w1
