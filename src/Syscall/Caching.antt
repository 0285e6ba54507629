-- ===== src/Syscall/Caching.antt =====
-- The path cache of a virtual queue: `explore_path` of virtual_queue.rs.
use krcore_artifacts.Prelude.{
  ℕ, ◌≡◌, refl, inl, inr, true, some, List, [], ◌∷◌, done, Option-cases, ==_iff,
}
use krcore_artifacts.Prelude.Effects.{expect, Ensures, Ensures-any, Ensures-done, Ensures-result}
use krcore_artifacts.Syscall.Kernel.{Kernel, get_global_rctrl}
use krcore_artifacts.Syscall.Queue.{Vq, same_string, get_path_rec_cache}
use krcore_artifacts.Syscall.Connect.{explore_path}

same_string_self : (xs : List ℕ) → same_string xs xs ≡ true
same_string_self [] = refl
same_string_self (x ∷ xs) = rw ((==_iff x x).1 refl, same_string_self xs)

module _ (k : Kernel) where
  -- Of an address and port, the queue and path are those of a lookup in the cache.
  abbrev IsCached : List ℕ → (k.PathRec × Vq k) → Type 0
  IsCached addr (p, v) = get_path_rec_cache v.local_cache.path_rec_cache addr ≡ some p

  explore_path-IsCached :
      (v : Vq k) (port : ℕ) (addr : List ℕ) (w : k.World)
      → Ensures (IsCached addr) (explore_path k v port addr w)
  unfolding explore_path
  explore_path-IsCached v port addr w =
      elim (Option-cases (get_path_rec_cache v.local_cache.path_rec_cache addr)) [
        | inl e ↦
            rw (e, explore_path)
              (Ensures-any _ (k.explore_path (get_global_rctrl k port) addr port w) _ (λ found w1.
                Ensures-any _ (expect found w1) _
                  (λ p w2. Ensures-done _ _ _ (rw (same_string_self addr) refl))))
        | inr (p, e) ↦ rw (e, explore_path) (Ensures-done _ _ _ e)
      ]

  cached-explore_path :
      (v : Vq k) (port : ℕ) (addr : List ℕ) (p : k.PathRec) (w : k.World)
      → get_path_rec_cache v.local_cache.path_rec_cache addr ≡ some p
      → explore_path k v port addr w ≡ done ((p, v), w)
  unfolding explore_path
  cached-explore_path v port addr p w e = rw (e, explore_path)

  -- Once an address was explored, exploring it again answers the same path from the cache, for any
  -- port and in any world, without a call of the kernel and without a change of the queue.
  pub explore_path-again :
      (v v' : Vq k) (port port' : ℕ) (addr : List ℕ) (p : k.PathRec) (w w' w1 : k.World)
      → explore_path k v port addr w ≡ done ((p, v'), w')
      → explore_path k v' port' addr w1 ≡ done ((p, v'), w1)
  explore_path-again v v' port port' addr p w w' w1 e =
      let hit = Ensures-result _ _ _ _ (explore_path-IsCached v port addr w) e in
      cached-explore_path v' port' addr p w1 hit
