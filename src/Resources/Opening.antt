-- ===== src/Resources/Opening.antt =====
-- context.rs: what is held after a context is opened and dropped.
use krcore_artifacts.Prelude.{ℕ, ◌+◌, ◌<◌, ◌≡◌, true, Option, none, some, ◌==◌, arith}
use krcore_artifacts.Resources.{Resource, region, domain, handle, one, Os, Got, Accounts}
use krcore_artifacts.Resources.Context.{
  allocating_pd, getting_mr, Opened, ok, err, KernelContext, UserContext, with_kmr, with_kernel_pd,
  new_from_flags_kernel, drop_kernel, with_user_pd, with_device, new_from_flags_user, drop_user,
}

one-domain : (pd : ℕ) → one (domain pd) (domain pd) ≡ 1
one-domain pd = let e : (pd == pd) ≡ true = ground arith in rw e

one-region : (mr : ℕ) → one (region mr) (region mr) ≡ 1
one-region mr = let e : (mr == mr) ≡ true = ground arith in rw e

module _ (os : Os) (held : os.World → Resource → ℕ) (law : Accounts os held) where
  -- Opening a context and dropping it, or failing to open it: in the kernel a protection domain is left
  -- where the memory region is not got; in user space the opened device is always left.
  abbrev pub KernelLeft : os.World → Opened KernelContext × os.World → Type 0
  KernelLeft w (ok c, w1) = (r : Resource) → held (drop_kernel os c w1) r ≡ held w r
  KernelLeft w (err getting_mr, w1) =
      (pd : ℕ) × ((r : Resource) → held w1 r ≡ held w r + one (domain pd) r)
  KernelLeft w (err e, w1) = (r : Resource) → held w1 r ≡ held w r

  abbrev pub UserLeft : os.World → Opened UserContext × os.World → Type 0
  UserLeft w (ok c, w1) =
      (r : Resource) → held (drop_user os c w1) r ≡ held w r + one (handle c.ctx) r
  UserLeft w (err allocating_pd, w1) =
      (ctx : ℕ) × ((r : Resource) → held w1 r ≡ held w r + one (handle ctx) r)
  UserLeft w (err e, w1) = (r : Resource) → held w1 r ≡ held w r

  -- Of `Context` in the kernel: a context that is opened and dropped again leaves everything as it was,
  -- and so does an opening without a protection domain; but one that gets no memory region leaves the
  -- protection domain that it has allocated.
  pub new_from_flags_kernel-KernelLeft : (w : os.World) → KernelLeft w (new_from_flags_kernel os w)
  unfolding new_from_flags_kernel drop_kernel
  new_from_flags_kernel-KernelLeft w = go (os.alloc_pd w) (law.allocates_pd w)
    where
      register :
          (pd : ℕ) (w1 : os.World)
          → ((r : Resource) → held w1 r ≡ held w r + one (domain pd) r)
          → (x : Option ℕ × os.World) → Got os held region w1 x
          → KernelLeft w (with_kmr os pd x)
      register pd w1 bought (none, w2) got = (pd, λ r. omega (arith, bought r, got r))
      register pd w1 bought (some kmr, w2) got = λ r.
          let freed = law.deregisters kmr w2 (omega (arith, got (region kmr), one-region kmr)) in
          let there : 0 < held (os.dereg_mr kmr w2) (domain pd) =
            omega (arith, freed (domain pd), got (domain pd), bought (domain pd), one-domain pd) in
          omega
            (arith, freed r, got r, bought r, law.deallocates_pd pd (os.dereg_mr kmr w2) there r)

      go : (x : Option ℕ × os.World) → Got os held domain w x → KernelLeft w (with_kernel_pd os x)
      go (none, w1) got = got
      go (some pd, w1) got = register pd w1 got (os.get_dma_mr pd w1) (law.gets_dma_mr pd w1)

  -- Of `Context` in user space: a context that is opened and dropped again leaves the device that it has
  -- opened, and so does an opening that gets no protection domain; one that opens no device leaves
  -- everything as it was.
  pub new_from_flags_user-UserLeft : (w : os.World) → UserLeft w (new_from_flags_user os w)
  unfolding new_from_flags_user drop_user
  new_from_flags_user-UserLeft w = go (os.open_device w) (law.opens w)
    where
      with_pd :
          (ctx : ℕ) (w1 : os.World)
          → ((r : Resource) → held w1 r ≡ held w r + one (handle ctx) r)
          → (x : Option ℕ × os.World) → Got os held domain w1 x
          → UserLeft w (with_user_pd os ctx x)
      with_pd ctx w1 opened (none, w2) got = (ctx, λ r. omega (arith, opened r, got r))
      with_pd ctx w1 opened (some pd, w2) got = λ r.
          let there : 0 < held w2 (domain pd) = omega (arith, got (domain pd), one-domain pd) in
          omega (arith, opened r, got r, law.deallocates_pd pd w2 there r)

      go : (x : Option ℕ × os.World) → Got os held handle w x → UserLeft w (with_device os x)
      go (none, w1) got = got
      go (some ctx, w1) got = with_pd ctx w1 got (os.alloc_pd w1) (law.allocates_pd w1)
