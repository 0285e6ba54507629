-- ===== src/Resources/Context.antt =====
-- `Context` of context.rs: `new_from_flags` and the drop, in the kernel and in user space.
use krcore_artifacts.Prelude.{ℕ, Option, none, some}
use krcore_artifacts.Resources.{Os}

-- What a `ControlpathError` of `new_from_flags` is about.
pub data ContextError : Type 0 where
  opening_device allocating_pd getting_mr : ContextError

pub data Opened (C : Type 0) : Type 0 where
  ok : C → Opened C
  err : ContextError → Opened C

-- `Context` in the kernel and in user space.
pub record KernelContext : Type 0 where
  pub kmr : ℕ
  pub pd : ℕ

pub record UserContext : Type 0 where
  pub ctx : ℕ
  pub pd : ℕ

module _ (os : Os) where
  abbrev pub with_kmr : ℕ → Option ℕ × os.World → Opened KernelContext × os.World
  with_kmr pd (none, w) = (err getting_mr, w)
  with_kmr pd (some kmr, w) = (ok (record { kmr = kmr; pd = pd }), w)

  abbrev pub with_kernel_pd : Option ℕ × os.World → Opened KernelContext × os.World
  with_kernel_pd (none, w) = (err allocating_pd, w)
  with_kernel_pd (some pd, w) = with_kmr pd (os.get_dma_mr pd w)

  unfoldable pub new_from_flags_kernel : os.World → Opened KernelContext × os.World
  new_from_flags_kernel w = with_kernel_pd (os.alloc_pd w)

  unfoldable pub drop_kernel : KernelContext → os.World → os.World
  drop_kernel c w = os.dealloc_pd c.pd (os.dereg_mr c.kmr w)

  abbrev pub with_user_pd : ℕ → Option ℕ × os.World → Opened UserContext × os.World
  with_user_pd ctx (none, w) = (err allocating_pd, w)
  with_user_pd ctx (some pd, w) = (ok (record { ctx = ctx; pd = pd }), w)

  abbrev pub with_device : Option ℕ × os.World → Opened UserContext × os.World
  with_device (none, w) = (err opening_device, w)
  with_device (some ctx, w) = with_user_pd ctx (os.alloc_pd w)

  unfoldable pub new_from_flags_user : os.World → Opened UserContext × os.World
  new_from_flags_user w = with_device (os.open_device w)

  unfoldable pub drop_user : UserContext → os.World → os.World
  drop_user c w = os.dealloc_pd c.pd w
