-- ===== src/Metadata/Image.antt =====
-- End points in memory, one behind the other: how the loops of protocol.rs and virtual_queue.rs write
-- and read them.
use krcore_artifacts.Prelude.{
  ℕ, ◌+◌, ◌*◌, ◌≤◌, ◌<◌, ◌≡◌, refl, ap, ap₂, sym, subst, ◌∙◌, Option, none, some, List, [], ◌∷◌,
  ◌==◌, if◌then◌else◌, length, arith, done,
}
use krcore_artifacts.Prelude.Maps.{Map, lookup}
use krcore_artifacts.Metadata.{Kit, IsKit, copy_metas, find_point}
use krcore_artifacts.Metadata.Bytes.{
  Mem, read, write, write_below, write_above, read_ext, read-write_self,
}

module _ (k : Kit) where
  -- The bytes that end points take.
  abbrev pub span : List k.EndPoint → ℕ
  span [] = 0
  span (e ∷ es) = k.size + span es

  pub span-length : (es : List k.EndPoint) → span es ≡ length es * k.size
  span-length [] = omega arith
  span-length (e ∷ es) = grind (arith, span-length es)

  -- The end points stand in memory from an address on.
  abbrev pub Holds : ℕ → List k.EndPoint → Mem → Type 0
  Holds at [] m = Unit {0}
  Holds at (e ∷ es) m = (read at k.size m ≡ k.encode e) × Holds (at + k.size) es m

  pub Holds-ext :
      (c a : ℕ) (es : List k.EndPoint) (m1 m2 : Mem)
      → ((j : ℕ) → j < span es → m1 (c + j) ≡ m2 (a + j))
      → Holds a es m2
      → Holds c es m1
  Holds-ext c a [] m1 m2 same h = tt
  Holds-ext c a (e ∷ es) m1 m2 same (h, hs) = (
    read_ext c a k.size m1 m2 (λ j lt. same j (omega arith)) ∙ h,
    Holds-ext (c + k.size) (a + k.size) es m1 m2
        (λ j lt.
          let c1 : (c + k.size) + j ≡ c + (k.size + j) = omega arith in
          let a1 : (a + k.size) + j ≡ a + (k.size + j) = omega arith in
          rw (c1, a1) (same (k.size + j) (omega arith)))
        hs,
  )

  -- The memory after end points were written from an address on.
  abbrev pub put_points : ℕ → List k.EndPoint → Mem → Mem
  put_points at [] m = m
  put_points at (e ∷ es) m = put_points (at + k.size) es (write at (k.encode e) m)

  pub put_points_below :
      (at : ℕ) (es : List k.EndPoint) (m : Mem) (x : ℕ) → x < at → put_points at es m x ≡ m x
  put_points_below at [] m x h = refl
  put_points_below at (e ∷ es) m x h =
      put_points_below (at + k.size) es (write at (k.encode e) m) x (omega arith)
      ∙ write_below at (k.encode e) m x h

  module _ (law : IsKit k) where
    pub put_points_above :
        (at : ℕ) (es : List k.EndPoint) (m : Mem) (x : ℕ)
        → at + span es ≤ x
        → put_points at es m x ≡ m x
    put_points_above at [] m x h = refl
    put_points_above at (e ∷ es) m x h =
        put_points_above (at + k.size) es (write at (k.encode e) m) x (omega arith)
        ∙ write_above at (k.encode e) m x (omega (arith, law.length-encode e))

    pub put_points-Holds :
        (at : ℕ) (es : List k.EndPoint) (m : Mem) → Holds at es (put_points at es m)
    put_points-Holds at [] m = tt
    put_points-Holds at (e ∷ es) m = (
      read_ext at at k.size _ (write at (k.encode e) m) (λ j lt.
            put_points_below (at + k.size) es (write at (k.encode e) m) (at + j) (omega arith))
          ∙ subst (λ n. read at n (write at (k.encode e) m) ≡ k.encode e) (law.length-encode e)
              (read-write_self at (k.encode e) m),
      put_points-Holds (at + k.size) es (write at (k.encode e) m),
    )

  -- The first end point with a gid.
  abbrev pub find_gid : ℕ → List k.EndPoint → Option k.EndPoint
  find_gid g [] = none
  find_gid g (e ∷ es) = if k.gid e == g then some e else find_gid g es

  next_slot : (base i : ℕ) → base + (i + 1) * k.size ≡ (base + i * k.size) + k.size
  next_slot base i = grind arith

  -- The loop over the end points finds the first one with the gid.
  pub find_point-Holds :
      (law : IsKit k) (g base i : ℕ) (es : List k.EndPoint) (l : Mem)
      → Holds (base + i * k.size) es l
      → find_point k g base i (length es) l ≡ find_gid g es
  unfolding find_point
  find_point-Holds law g base i [] l h = refl
  find_point-Holds law g base i (e ∷ es) l (h, hs) =
      let rest =
        find_point-Holds law g base (i + 1) es l
          (subst (λ at. Holds at es l) (sym (next_slot base i)) hs) in
      let cur : k.decode (read (base + i * k.size) k.size l) ≡ e =
        ap k.decode h ∙ law.decode-encode e in
      ap₂ (λ c r. if k.gid c == g then some c else r) cur rest

  -- The end points of the keys of a map.
  abbrev pub Gathers : Map k.EndPoint → List ℕ → List k.EndPoint → Type 0
  Gathers metas [] [] = Unit {0}
  Gathers metas (t ∷ ts) (e ∷ es) = (lookup t metas ≡ some e) × Gathers metas ts es
  Gathers metas _ _ = ⊥

  -- The loop over the keys writes the end points.
  pub copy_metas-put :
      (metas : Map k.EndPoint) (ts : List ℕ) (es : List k.EndPoint) (va i : ℕ) (m : Mem)
      → Gathers metas ts es
      → copy_metas k metas ts va i m ≡ done (put_points (va + 8 + i * k.size) es m)
  unfolding copy_metas
  copy_metas-put metas [] [] va i m g = refl
  copy_metas-put metas [] (e ∷ es) va i m g = absurd g
  copy_metas-put metas (t ∷ ts) [] va i m g = absurd g
  copy_metas-put metas (t ∷ ts) (e ∷ es) va i m (at, g) = rw at (
      copy_metas-put metas ts es va (i + 1) (write (va + 8 + i * k.size) (k.encode e) m) g
      ∙ ap (λ a. done (put_points a es (write (va + 8 + i * k.size) (k.encode e) m)))
          (next_slot (va + 8) i))
