-- ===== src/Receive/Make.antt =====
-- `create` of recv_helper.rs makes a ring.
use krcore_artifacts.Prelude.{
  ℕ, zero, suc, ◌+◌, ◌%◌, ◌^◌, ◌<◌, ◌≡◌, refl, sym, ◌∙◌, inl, inr, none, some, replicate, List,
  done, arith, length, get_elem?, set, get_elem?-set_self, get_elem?-set_ne, get_elem?-of_lt,
  length-set, length-replicate, eq_cases, add64, u32,
}
use krcore_artifacts.Receive.{RecvWr, Sge, RecvHelper, create_at, create_from, create}
use krcore_artifacts.Receive.Post.{IsRing, get_recv_wr_ptr-done}

-- What holds of the loop of `create` before round `i`.
record Created (len i : ℕ) (r : RecvHelper) : Type 0 where
  wr_room : length r.wrs ≡ len
  sge_room : length r.sges ≡ len
  cap_eq : r.capacity ≡ len
  start : r.cur_idx ≡ 0
  linked :
      (j : ℕ) → j < i → (w : RecvWr) × (get_elem? r.wrs j ≡ some w) × (w.next ≡ some (suc j % len))

linked-set :
    (len i : ℕ) (wrs : List RecvWr) (v : RecvWr)
    → i < length wrs
    → v.next ≡ some (suc i % len)
    → ((j : ℕ) → j < i → (w : RecvWr) × (get_elem? wrs j ≡ some w) × (w.next ≡ some (suc j % len)))
    → (j : ℕ) → j < suc i
    → (w : RecvWr) × (get_elem? (set wrs i v) j ≡ some w) × (w.next ≡ some (suc j % len))
linked-set len i wrs v h link before j hj = elim (eq_cases j i) [
  | inl e ↦ (v, rw e (get_elem?-set_self wrs i v h), rw e link)
  | inr ne ↦
      let (w, at, wl) = before j (omega arith) in
      (w, get_elem?-set_ne wrs i j v (λ q. ne (sym q)) ∙ at, wl)
]

module _ (pa_to_va : ℕ → ℕ) (lkey : ℕ) where
  create_at-Created :
      (len i base : ℕ) (r : RecvHelper)
      → i < len
      → Created len i r
      → (r' : RecvHelper) × (create_at pa_to_va r lkey base i ≡ done r')
        × Created len (suc i) r'
        × (r'.en_sz ≡ r.en_sz)
  unfolding create_at
  create_at-Created len i base r h v =
      let (s, at_s) = get_elem?-of_lt r.sges i (omega (arith, v.sge_room)) in
      let (w, at_w) = get_elem?-of_lt r.wrs i (omega (arith, v.wr_room)) in
      let up : i + 1 ≡ suc i = omega arith in
      let w' : RecvWr = record {
        wr_id = pa_to_va base;
        next = some (suc i % r.capacity);
        sg_list = some i;
        num_sge = 1;
      } in
      let s' : Sge = record { addr = base; length = u32 r.en_sz; lkey = lkey } in
      let ptr =
        get_recv_wr_ptr-done r (i + 1) (v.wr_room ∙ sym v.cap_eq) (omega (arith, v.cap_eq)) in
      (
        record r { sges = set r.sges i s'; wrs = set r.wrs i w' },
        rw (at_s, at_w, ptr, up),
        record {
          wr_room = length-set r.wrs i w' ∙ v.wr_room;
          sge_room = length-set r.sges i s' ∙ v.sge_room;
          cap_eq = v.cap_eq;
          start = v.start;
          linked = linked-set len i r.wrs w' (omega (arith, v.wr_room)) (rw v.cap_eq) v.linked;
        },
        refl,
      )

  create_from-Created :
      (n i len base : ℕ) (r : RecvHelper)
      → i + n ≡ len
      → Created len i r
      → (r' : RecvHelper) × (create_from pa_to_va n i lkey base r ≡ done r') × Created len len r'
  unfolding create_from
  create_from-Created zero i len base r e v =
      let e' : i ≡ len = omega arith in (r, refl, rw e' at v)
  create_from-Created (suc n) i len base r e v =
      let (r1, step, v1, _) = create_at-Created len i base r (omega arith) v in
      let up : suc i ≡ i + 1 = omega arith in
      let (r2, rest, v2) =
        create_from-Created n (i + 1) len (add64 base r.en_sz) r1 (omega arith) (rw up at v1) in
      (r2, rw step rest, v2)

  -- For every number of buffers from 1 on that an allocation can have, `create` does not panic, and
  -- returns a valid ring of that capacity, at its start.
  pub create-IsRing :
      (n entry_size base : ℕ)
      → 0 < n
      → n < 2 ^ 63
      → (r : RecvHelper) × (create pa_to_va n entry_size lkey base ≡ done r)
        × IsRing r
        × (r.capacity ≡ n)
        × (r.cur_idx ≡ 0)
  unfolding create
  create-IsRing n entry_size base pos small =
      let (r, e, v) = create_from-Created n 0 n base _ (omega arith) begins in
      (
        r,
        e,
        record {
          room = v.wr_room ∙ sym v.cap_eq;
          some_room = omega (arith, v.cap_eq);
          small = omega (arith, v.cap_eq);
          within = omega (arith, v.cap_eq, v.start);
          linked = rw v.cap_eq v.linked;
        },
        v.cap_eq,
        v.start,
      )
    where
      begins : Created n 0 (record {
        wrs = replicate n (record { wr_id = 0; next = none; sg_list = none; num_sge = 0 });
        sges = replicate n (record { addr = 0; length = 0; lkey = 0 });
        cur_idx = 0;
        capacity = n;
        en_sz = entry_size;
      })
      begins = record {
        wr_room = length-replicate n _;
        sge_room = length-replicate n _;
        cap_eq = refl;
        start = refl;
        linked = λ j h. elim h [ ];
      }
