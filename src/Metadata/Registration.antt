-- ===== src/Metadata/Registration.antt =====
-- What `reg_dc_meta_handler` leaves in the memory, and what `query_dct_meta` then finds there.
use krcore_artifacts.Prelude.{
  ℕ, ◌+◌, ◌*◌, ◌%◌, ◌≤◌, ◌≡◌, refl, ap, sym, subst, ◌∙◌, Bool, Option, none, some, List, length,
  get_elem?, arith, done,
}
use krcore_artifacts.Prelude.Maps.{Map, lookup, insert}
use krcore_artifacts.Metadata.{
  Kit, IsKit, RegDcMeta, Server, reg_dc_meta_handler, Reader, query_dct_meta,
}
use krcore_artifacts.Metadata.Bytes.{Mem}
use krcore_artifacts.Metadata.Image.{span-length, find_gid, Gathers}
use krcore_artifacts.Metadata.Gather.{
  IsKeyed, insert-IsKeyed, gather, length-Gathers, find_gid-some, find_gid-none,
}
use krcore_artifacts.Metadata.Regions.{
  Image, Apart, filled_all, filled_all-get, fill_regions-filled,
}
use krcore_artifacts.Metadata.Reading.{CanRead, with_points, query_dct_meta-Image}

module _ (k : Kit) (law : IsKit k) (payload : RegDcMeta k) (s : Server k) where
  abbrev key : ℕ
  key = k.gid_to_str payload.gid

  abbrev pub registered : Map k.EndPoint
  registered = insert key payload.local_point s.metas

  abbrev pub gathered : (es : List k.EndPoint) × Gathers k registered (k.iterate registered) es
  gathered = gather k registered (k.iterate registered) (law.iterate_only registered)

  gathered_length : length gathered.0 ≡ length registered
  gathered_length =
      length-Gathers k registered (k.iterate registered) gathered.0 gathered.1
      ∙ law.length-iterate registered

  abbrev pub after : Server k
  after = record s { metas = registered; mem = filled_all k law gathered.0 s.regions s.mem }

  module _ (va : ℕ) (region : get_elem? s.regions (payload.port % length s.regions) ≡ some va)
      (room : 8 + length registered * k.size ≤ 4096) where
    pub gathered_room : 8 + length gathered.0 * k.size ≤ 4096
    gathered_room = rw gathered_length room

    pub handler-registers :
        reg_dc_meta_handler k payload s ≡ done (record { len = 64; meta_pa = va }, after)
    unfolding reg_dc_meta_handler
    handler-registers = rw (
      region,
      fill_regions-filled k law registered gathered.0 s.regions s.mem gathered.1 gathered_length,
    )

    module _ (keyed : IsKeyed k s.metas) (own : payload.gid ≡ k.gid payload.local_point) where
      registered-IsKeyed : IsKeyed k registered
      registered-IsKeyed =
          subst (λ g. IsKeyed k (insert (k.gid_to_str g) payload.local_point s.metas)) (sym own)
            (insert-IsKeyed k s.metas payload.local_point keyed)

      found-registered :
          (t : ℕ)
          → k.gid_to_str (k.str_to_gid t) ≡ t
          → find_gid k (k.str_to_gid t) gathered.0 ≡ lookup t registered
      found-registered t text = go (lookup t registered) refl
        where
          go :
              (o : Option k.EndPoint)
              → lookup t registered ≡ o
              → find_gid k (k.str_to_gid t) gathered.0 ≡ lookup t registered
          go none at =
              find_gid-none k law registered registered-IsKeyed t text (k.iterate registered)
                gathered.0 gathered.1 at
              ∙ sym at
          go (some e) at =
              find_gid-some k law registered registered-IsKeyed t text (k.iterate registered)
                gathered.0 e gathered.1 at (law.iterate_all registered t e at)
              ∙ sym at

      module _ (apart : Apart k law 4096 s.regions) (reaches : ℕ → ℕ → Bool) (r : Reader k)
          (can : CanRead k reaches r) (there : r.meta_kv_pa ≡ va) where
        image : Image k law r.meta_kv_pa gathered.0 after.mem
        image =
            filled_all-get k law 4096 gathered.0 s.regions (payload.port % length s.regions)
              r.meta_kv_pa s.mem (omega (arith, gathered_room, span-length k gathered.0)) apart
              (region ∙ ap some (sym there))

        pub reads-registered :
            (t : ℕ)
            → k.gid_to_str (k.str_to_gid t) ≡ t
            → (l : Mem) × (query_dct_meta k reaches after.mem t r
                ≡ done (lookup t registered, record r { local = l }))
        reads-registered t text = (
          with_points k law reaches r can after.mem gathered.0 image gathered_room,
          query_dct_meta-Image k law reaches r can after.mem gathered.0 image gathered_room t
              ∙ ap
                  (λ o. done (
                    o,
                    record r {
                      local =
                          with_points k law reaches r can after.mem gathered.0 image gathered_room;
                    },
                  ))
                  (found-registered t text),
        )
