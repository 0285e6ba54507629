-- ===== src/Metadata/Agree.antt =====
-- Reading the metadata by RDMA against asking the metadata server: `query_dct_meta` after
-- `reg_dc_meta_handler`.
use krcore_artifacts.Prelude.{
  ℕ, ◌+◌, ◌*◌, ◌%◌, ◌≤◌, ◌≡◌, ap, sym, ◌∙◌, Bool, none, some, length, get_elem?, arith, done,
}
use krcore_artifacts.Prelude.Maps.{lookup, insert, lookup-insert_self, lookup-remove_self}
use krcore_artifacts.Metadata.{
  Kit, IsKit, RegDcMeta, Server, reg_dc_meta_handler, dereg_dc_meta_handler, query_dc_meta_handler,
  Reader, query_dct_meta,
}
use krcore_artifacts.Metadata.Bytes.{Mem}
use krcore_artifacts.Metadata.Image.{span-length}
use krcore_artifacts.Metadata.Gather.{IsKeyed}
use krcore_artifacts.Metadata.Regions.{Apart, Outside, filled_all-Outside}
use krcore_artifacts.Metadata.Registration.{
  gathered, gathered_room, handler-registers, reads-registered, registered, after,
}
use krcore_artifacts.Metadata.Reading.{CanRead}

-- What a registration leads to, for a virtual queue that reads the region whose address is the reply:
-- its read answers for the text `t` of a gid what the server answers for the gid.
pub record Served (k : Kit) (payload : RegDcMeta k) (s : Server k) (va : ℕ) (reaches : ℕ → ℕ → Bool)
    (r : Reader k) (t : ℕ) : Type 0 where
  pub after : Server k
  pub returns : reg_dc_meta_handler k payload s ≡ done (record { len = 64; meta_pa = va }, after)
  pub agrees :
      (l : Mem) × (query_dct_meta k reaches after.mem t r
        ≡ done (query_dc_meta_handler k (k.str_to_gid t) after, record r { local = l }))
  pub answers_own : query_dc_meta_handler k payload.gid after ≡ some payload.local_point

-- Let `Kit` behave as documented, let each end point be registered under its own gid, let the regions of
-- 4096 bytes not overlap, and let the registered end points, with their number, fit into one. Then
-- registering the end point of `payload` succeeds, with the address of the region of its port as the
-- reply; and a virtual queue whose reads of that region succeed finds there by `query_dct_meta`, for the
-- text of any gid, what `query_dc_meta_handler` answers for that gid; which is, for the gid registered,
-- the new end point.
pub query_dct_meta-Served :
    (k : Kit) (law : IsKit k) (payload : RegDcMeta k) (s : Server k) (va : ℕ)
    (reaches : ℕ → ℕ → Bool) (r : Reader k)
    → IsKeyed k s.metas
    → payload.gid ≡ k.gid payload.local_point
    → Apart k law 4096 s.regions
    → get_elem? s.regions (payload.port % length s.regions) ≡ some va
    → 8 + length (insert (k.gid_to_str payload.gid) payload.local_point s.metas) * k.size ≤ 4096
    → CanRead k reaches r
    → r.meta_kv_pa ≡ va
    → (t : ℕ) → k.gid_to_str (k.str_to_gid t) ≡ t
    → Served k payload s va reaches r t
unfolding query_dc_meta_handler
query_dct_meta-Served k law payload s va reaches r keyed own apart region room can there t text =
    record {
      after = after k law payload s;
      returns = handler-registers k law payload s va region room;
      agrees =
          let (l, e) =
            reads-registered k law payload s va region room keyed own apart reaches r can there t
              text in
          (
            l,
            e
                ∙ ap (λ x. done (lookup x (registered k law payload s), record r { local = l }))
                    (sym text),
          );
      answers_own = lookup-insert_self (k.gid_to_str payload.gid) payload.local_point s.metas;
    }

-- Under the same conditions: after the registration and then the deregistration of a gid, the server
-- answers nothing for it any more, but `query_dct_meta` still finds the end point.
pub query_dct_meta-stale :
    (k : Kit) (law : IsKit k) (payload : RegDcMeta k) (s : Server k) (va : ℕ)
    (reaches : ℕ → ℕ → Bool) (r : Reader k)
    → IsKeyed k s.metas
    → payload.gid ≡ k.gid payload.local_point
    → Apart k law 4096 s.regions
    → get_elem? s.regions (payload.port % length s.regions) ≡ some va
    → 8 + length (insert (k.gid_to_str payload.gid) payload.local_point s.metas) * k.size ≤ 4096
    → CanRead k reaches r
    → r.meta_kv_pa ≡ va
    → (s1 : Server k) × (reg_dc_meta_handler k payload s
        ≡ done (record { len = 64; meta_pa = va }, s1))
      × (query_dc_meta_handler k payload.gid (dereg_dc_meta_handler k payload.gid s1).1 ≡ none)
      × ((l : Mem) × (query_dct_meta k reaches
              (dereg_dc_meta_handler k payload.gid s1).1.mem
              (k.gid_to_str payload.gid)
              r
            ≡ done (some payload.local_point, record r { local = l })))
unfolding query_dc_meta_handler dereg_dc_meta_handler
query_dct_meta-stale k law payload s va reaches r keyed own apart region room can there =
    let t = k.gid_to_str payload.gid in
    let text = ap k.gid_to_str (law.str_to_gid-gid_to_str payload.gid) in
    let (l, e) =
      reads-registered k law payload s va region room keyed own apart reaches r can there t text in
    let its = lookup-insert_self t payload.local_point s.metas in
    (
      after k law payload s,
      handler-registers k law payload s va region room,
      lookup-remove_self t (registered k law payload s),
      (l, e ∙ ap (λ o. done (o, record r { local = l })) its),
    )

-- If the registered end points with their number fit into 4096 bytes and there is a region for the port,
-- then registering succeeds and does not change a byte that is outside of all regions of 4096 bytes.
pub reg_dc_meta_handler-within :
    (k : Kit) (law : IsKit k) (payload : RegDcMeta k) (s : Server k) (va : ℕ)
    → get_elem? s.regions (payload.port % length s.regions) ≡ some va
    → 8 + length (insert (k.gid_to_str payload.gid) payload.local_point s.metas) * k.size ≤ 4096
    → (x : ℕ) → Outside k law 4096 s.regions x
    → (s1 : Server k) × (reg_dc_meta_handler k payload s
        ≡ done (record { len = 64; meta_pa = va }, s1))
      × (s1.mem x ≡ s.mem x)
reg_dc_meta_handler-within k law payload s va region room x out =
    let es = (gathered k law payload s).0 in
    (
      after k law payload s,
      handler-registers k law payload s va region room,
      filled_all-Outside k law 4096 es s.regions s.mem x
          (omega (arith, gathered_room k law payload s va region room, span-length k es)) out,
    )
