-- ===== src/Metadata/Regions.antt =====
-- What the loops of `reg_dc_meta_handler` leave in the regions of GLOBAL_MEM.
use krcore_artifacts.Prelude.{
  ℕ, zero, suc, ◌+◌, ◌*◌, ◌≤◌, ◌<◌, ◌≡◌, ◌⊎◌, inl, inr, refl, sym, subst, ◌∙◌, some, List, [], ◌∷◌,
  length, get_elem?, arith, done,
}
use krcore_artifacts.Prelude.Maps.{Map}
use krcore_artifacts.Metadata.{Kit, IsKit, fill_region, fill_regions}
use krcore_artifacts.Metadata.Bytes.{
  Mem, read, write, write_below, write_above, read_ext, read-write_self, le_bytes, length-le_bytes,
}
use krcore_artifacts.Metadata.Image.{
  span, Holds, Holds-ext, put_points, put_points_below, put_points_above, put_points-Holds, Gathers,
  copy_metas-put,
}

module _ (k : Kit) (law : IsKit k) where
  -- A region holds a number and so many end points.
  pub record Image (va : ℕ) (es : List k.EndPoint) (m : Mem) : Type 0 where
    pub header : read va 8 m ≡ le_bytes 8 (length es)
    pub points : Holds k (va + 8) es m

  abbrev pub image_size : List k.EndPoint → ℕ
  image_size es = 8 + span k es

  abbrev pub filled : List k.EndPoint → ℕ → Mem → Mem
  filled es va m = write va (le_bytes 8 (length es)) (put_points k (va + 8) es m)

  filled-Image : (es : List k.EndPoint) (va : ℕ) (m : Mem) → Image va es (filled es va m)
  filled-Image es va m =
      let bytes = le_bytes 8 (length es) in
      let eight = length-le_bytes 8 (length es) in
      let m1 = put_points k (va + 8) es m in
      record {
        header =
            subst (λ n. read va n (write va bytes m1) ≡ bytes) eight (read-write_self va bytes m1);
        points =
            Holds-ext k (va + 8) (va + 8) es (write va bytes m1) m1
              (λ j lt. write_above va bytes m1 (va + 8 + j) (omega (arith, eight)))
              (put_points-Holds k law (va + 8) es m);
      }

  -- Filling a region changes nothing outside of it.
  pub filled_outside :
      (es : List k.EndPoint) (va : ℕ) (m : Mem) (x : ℕ)
      → (x < va) ⊎ (va + image_size es ≤ x)
      → filled es va m x ≡ m x
  filled_outside es va m x (inl h) =
      write_below va (le_bytes 8 (length es)) (put_points k (va + 8) es m) x h
      ∙ put_points_below k (va + 8) es m x (omega arith)
  filled_outside es va m x (inr h) =
      write_above va (le_bytes 8 (length es)) (put_points k (va + 8) es m) x
        (omega (arith, length-le_bytes 8 (length es)))
      ∙ put_points_above k law (va + 8) es m x (omega arith)

  pub Image-ext :
      (va : ℕ) (es : List k.EndPoint) (m m1 : Mem)
      → ((x : ℕ) → va ≤ x → x < va + image_size es → m1 x ≡ m x)
      → Image va es m
      → Image va es m1
  Image-ext va es m m1 same i = record {
    header = read_ext va va 8 m1 m (λ j lt. same (va + j) (omega arith) (omega arith)) ∙ i.header;
    points =
        Holds-ext k (va + 8) (va + 8) es m1 m
          (λ j lt. same (va + 8 + j) (omega arith) (omega arith)) i.points;
  }

  -- The regions have so many bytes each and do not overlap.
  abbrev pub Clear : ℕ → ℕ → List ℕ → Type 0
  Clear len va [] = Unit {0}
  Clear len va (v ∷ vs) = ((va + len ≤ v) ⊎ (v + len ≤ va)) × Clear len va vs

  abbrev pub Apart : ℕ → List ℕ → Type 0
  Apart len [] = Unit {0}
  Apart len (v ∷ vs) = Clear len v vs × Apart len vs

  abbrev pub filled_all : List k.EndPoint → List ℕ → Mem → Mem
  filled_all es [] m = m
  filled_all es (v ∷ vs) m = filled_all es vs (filled es v m)

  filled_all-Image :
      (len : ℕ) (es : List k.EndPoint) (va : ℕ) (vs : List ℕ) (m : Mem)
      → image_size es ≤ len
      → Clear len va vs
      → Image va es m
      → Image va es (filled_all es vs m)
  filled_all-Image len es va [] m room clear i = i
  filled_all-Image len es va (v ∷ vs) m room (off, clear) i =
      filled_all-Image len es va vs (filled es v m) room clear (
        Image-ext va es m (filled es v m) (λ x lo hi. filled_outside es v m x (beside off x lo hi))
          i)
    where
      beside :
          (va + len ≤ v) ⊎ (v + len ≤ va)
          → (x : ℕ) → va ≤ x
          → x < va + image_size es
          → (x < v) ⊎ (v + image_size es ≤ x)
      beside (inl h) x lo hi = inl (omega arith)
      beside (inr h) x lo hi = inr (omega arith)

  pub filled_all-get :
      (len : ℕ) (es : List k.EndPoint) (vs : List ℕ) (i va : ℕ) (m : Mem)
      → image_size es ≤ len
      → Apart len vs
      → get_elem? vs i ≡ some va
      → Image va es (filled_all es vs m)
  filled_all-get len es [] i va m room apart at = absurd (cc)
  filled_all-get len es (v ∷ vs) zero va m room (clear, apart) at =
      let same : v ≡ va = cc in
      subst (λ a. Image a es (filled_all es vs (filled es v m))) same
        (filled_all-Image len es v vs (filled es v m) room clear (filled-Image es v m))
  filled_all-get len es (v ∷ vs) (suc i) va m room (clear, apart) at =
      filled_all-get len es vs i va (filled es v m) room apart at

  -- The loops of the handler fill every region.
  pub fill_regions-filled :
      (metas : Map k.EndPoint) (es : List k.EndPoint) (vs : List ℕ) (m : Mem)
      → Gathers k metas (k.iterate metas) es
      → length es ≡ length metas
      → fill_regions k metas vs m ≡ done (filled_all es vs m)
  unfolding fill_regions fill_region
  fill_regions-filled metas es [] m g n = refl
  fill_regions-filled metas es (v ∷ vs) m g n =
      let at : v + 8 + 0 * k.size ≡ v + 8 = omega arith in
      rw (copy_metas-put k metas (k.iterate metas) es v 0 m g, at, sym n)
        (fill_regions-filled metas es vs (filled es v m) g n)

  -- Outside of all regions nothing is changed.
  abbrev pub Outside : ℕ → List ℕ → ℕ → Type 0
  Outside len [] x = Unit {0}
  Outside len (v ∷ vs) x = ((x < v) ⊎ (v + len ≤ x)) × Outside len vs x

  pub filled_all-Outside :
      (len : ℕ) (es : List k.EndPoint) (vs : List ℕ) (m : Mem) (x : ℕ)
      → image_size es ≤ len
      → Outside len vs x
      → filled_all es vs m x ≡ m x
  filled_all-Outside len es [] m x room out = refl
  filled_all-Outside len es (v ∷ vs) m x room (inl h, out) =
      filled_all-Outside len es vs (filled es v m) x room out ∙ filled_outside es v m x (inl h)
  filled_all-Outside len es (v ∷ vs) m x room (inr h, out) =
      filled_all-Outside len es vs (filled es v m) x room out
      ∙ filled_outside es v m x (inr (omega arith))
