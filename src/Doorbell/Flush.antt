-- ===== src/Doorbell/Flush.antt =====
-- `RcDoorbellHelper::flush_doorbell` of doorbell_helper.rs: what the NIC is handed, and what is left.
use native.Mathlib.Nat.{mod_self, mod-eq_of_lt}
use krcore_artifacts.Prelude.{
  ℕ, suc, ◌+◌, ◌%◌, ◌^◌, ◌<◌, ◌≡◌, refl, sym, ◌∙◌, ap, ◌≢◌, inl, inr, false, none, some, List, [],
  done, panic, arith, length, get_elem?, set, get_elem?-set_self, get_elem?-set_ne, length-set,
  set-set, set-get_elem?, add64, sub64, eq_cases,
}
use krcore_artifacts.Doorbell.{
  SendWr, DoorbellHelper, size, is_empty, cur_slot, freeze, relink, freeze_done, clear, empty,
}
use krcore_artifacts.Doorbell.Operations.{PostSendOp, post_send_wr, flush_doorbell}
use krcore_artifacts.Doorbell.Chain.{
  entry_at, window, window-zero, window-congr, chain, chain-window,
}
use krcore_artifacts.Doorbell.Ring.{HasRoom, IsValid, modify-done, pointer_to-done}
use krcore_artifacts.Doorbell.Batch.{batch}

-- The last request of a batch that is not empty: its index, and the helper frozen there.
abbrev frozen : DoorbellHelper → SendWr → DoorbellHelper
frozen d w = record d { wr_list = set d.wr_list d.cur_idx (record w { next = none }) }

last_slot :
    (d : DoorbellHelper)
    → HasRoom d
    → size d ≢ 0
    → (is_empty d ≡ false)
      × (cur_slot d ≡ d.cur_idx)
      × (size d ≡ suc d.cur_idx)
      × (d.cur_idx < d.capacity)
last_slot d v h = ground arith

freeze-done :
    (d : DoorbellHelper) (w : SendWr)
    → HasRoom d
    → size d ≢ 0
    → get_elem? d.wr_list d.cur_idx ≡ some w
    → freeze d ≡ done (frozen d w)
unfolding freeze
freeze-done d w v h at =
    let (some_left, _, _, _) = last_slot d v h in
    rw (some_left, modify-done d.wr_list d.cur_idx (λ x. record x { next = none }) w at)

-- Writing back the pointer that `init` wrote restores the ring.
restored :
    (d : DoorbellHelper) (w : SendWr)
    → get_elem? d.wr_list d.cur_idx ≡ some w
    → w.next ≡ some ((d.cur_idx + 1) % d.capacity)
    → (t : ℕ) → t ≡ (d.cur_idx + 1) % d.capacity
    → set (frozen d w).wr_list d.cur_idx (record w { next = some t }) ≡ d.wr_list
restored d w at link t e =
    set-set d.wr_list d.cur_idx (record w { next = none }) (record w { next = some t })
    ∙ set-get_elem? d.wr_list d.cur_idx (record w { next = some t }) (at ∙ ap some same)
  where
    same : w ≡ record w { next = some t }
    same = ground (arith, link, e)

relink-done :
    (d : DoorbellHelper) (w : SendWr) (t : ℕ)
    → d.cur_idx < length d.wr_list
    → t < length d.wr_list
    → get_elem? d.wr_list d.cur_idx ≡ some w
    → w.next ≡ some ((d.cur_idx + 1) % d.capacity)
    → t ≡ (d.cur_idx + 1) % d.capacity
    → relink (frozen d w) t ≡ done d
unfolding relink
relink-done d w t h ht at link e =
    let n = record w { next = none } in
    let wrs = set d.wr_list d.cur_idx n in
    rw (pointer_to-done wrs t (omega (arith, length-set d.wr_list d.cur_idx n))) (
      rw
        (modify-done wrs d.cur_idx (λ x. record x { next = some t }) n
          (get_elem?-set_self d.wr_list d.cur_idx n h))
        (ap (λ l. done (record d { wr_list = l })) (restored d w at link t e)))

ring_end : (i n : ℕ) → suc i ≡ n → 0 ≡ (i + 1) % n
ring_end i n h = let e : i + 1 ≡ n = omega arith in rw e (sym (mod_self n))

ring_next : (i n : ℕ) → suc i < n → n < 2 ^ 63 → add64 i 1 ≡ (i + 1) % n
ring_next i n h small =
    let wrap : add64 i 1 ≡ i + 1 = omega arith in wrap ∙ sym (mod-eq_of_lt (omega arith))

-- `freeze_done` undoes `freeze`.
freeze_done-frozen :
    (d : DoorbellHelper) (w : SendWr)
    → HasRoom d
    → size d ≢ 0
    → get_elem? d.wr_list d.cur_idx ≡ some w
    → w.next ≡ some ((d.cur_idx + 1) % d.capacity)
    → freeze_done (frozen d w) ≡ done d
unfolding freeze_done
freeze_done-frozen d w v h at link =
    let (some_left, _, up, below) = last_slot d v h in
    elim (eq_cases d.cur_idx (sub64 d.capacity 1)) [
      | inl top ↦ rw some_left (
          ground (
            arith,
            top,
            relink-done d w 0 (omega (arith, v)) (omega (arith, v)) at link
                (ring_end d.cur_idx d.capacity (omega (arith, v))),
          ))
      | inr inner ↦ rw some_left (
          ground (
            arith,
            inner,
            relink-done d w (add64 d.cur_idx 1) (omega (arith, v)) (omega (arith, v)) at link
                (ring_next d.cur_idx d.capacity (omega (arith, v)) v.small),
          ))
    ]

flush_doorbell-done :
    (op : PostSendOp) (d : DoorbellHelper) (w : SendWr)
    → IsValid d
    → size d ≢ 0
    → get_elem? d.wr_list d.cur_idx ≡ some w
    → w.next ≡ some ((d.cur_idx + 1) % d.capacity)
    → flush_doorbell op d ≡ done (post_send_wr op (frozen d w).wr_list d.sg_list (some 0), empty d)
unfolding flush_doorbell clear empty
flush_doorbell-done op d w v h at link =
    let (_, _, _, below) = last_slot d v.room h in
    let len = length-set d.wr_list d.cur_idx (record w { next = none }) in
    rw (freeze-done d w v.room h at) (
      rw (pointer_to-done (frozen d w).wr_list 0 (omega (arith, v.room)))
        (rw (freeze_done-frozen d w v.room h at link)))

-- Freezing changes no operation, only where the last request points.
entry_at-frozen :
    (d : DoorbellHelper) (w : SendWr) (j : ℕ)
    → d.cur_idx < length d.wr_list
    → get_elem? d.wr_list d.cur_idx ≡ some w
    → entry_at d.wr_list d.sg_list j ≡ entry_at (frozen d w).wr_list d.sg_list j
entry_at-frozen d w j h at = elim (eq_cases d.cur_idx j) [
  | inl e ↦
      let self = get_elem?-set_self d.wr_list d.cur_idx (record w { next = none }) h in
      rw (← e) (rw (at, self))
  | inr ne ↦ rw (get_elem?-set_ne d.wr_list d.cur_idx j (record w { next = none }) ne)
]

frozen-linked :
    (d : DoorbellHelper) (w x : SendWr) (j : ℕ)
    → j < d.cur_idx
    → d.cur_idx < d.capacity
    → get_elem? d.wr_list j ≡ some x
    → x.next ≡ some ((j + 1) % d.capacity)
    → (get_elem? (frozen d w).wr_list j ≡ some x) × (x.next ≡ some (suc j))
frozen-linked d w x j h below at link =
    let ne : d.cur_idx ≢ j = omega arith in
    let lt : j + 1 < d.capacity = omega arith in
    let up : j + 1 ≡ suc j = omega arith in
    (
      get_elem?-set_ne d.wr_list d.cur_idx j (record w { next = none }) ne ∙ at,
      link ∙ ap some (mod-eq_of_lt lt ∙ up),
    )

chain-frozen :
    (d : DoorbellHelper) (w : SendWr)
    → IsValid d
    → size d ≢ 0
    → get_elem? d.wr_list d.cur_idx ≡ some w
    → chain (length (frozen d w).wr_list) (frozen d w).wr_list d.sg_list (some 0) ≡ some (batch d)
chain-frozen d w v h at =
    let (_, _, up, below) = last_slot d v.room h in
    let last = record w { next = none } in
    let len = length-set d.wr_list d.cur_idx last in
    let z : 0 + d.cur_idx ≡ d.cur_idx = omega arith in
    let stop = get_elem?-set_self d.wr_list d.cur_idx last (omega (arith, v.room)) in
    chain-window (frozen d w).wr_list d.sg_list d.cur_idx 0 (length (frozen d w).wr_list) last
      (omega (arith, v.room)) links (rw z stop) refl
    ∙ ap some (sym (ap (window d.wr_list d.sg_list 0) up ∙ same))
  where
    links :
        (j : ℕ)
        → j < 0 + d.cur_idx
        → (x : SendWr) × (get_elem? (frozen d w).wr_list j ≡ some x) × (x.next ≡ some (suc j))
    links j lt =
        let (_, _, up, below) = last_slot d v.room h in
        let (x, here, wd) = v.wired j (omega arith) in
        let linked = frozen-linked d w x j (omega arith) below here wd.0 in (x, linked.0, linked.1)

    same :
        window d.wr_list d.sg_list 0 (suc d.cur_idx)
        ≡ window (frozen d w).wr_list d.sg_list 0 (suc d.cur_idx)
    same =
        let (_, _, up, below) = last_slot d v.room h in
        window-congr d.wr_list (frozen d w).wr_list d.sg_list d.sg_list 0 (suc d.cur_idx)
          (λ j _ _. entry_at-frozen d w j (omega (arith, v.room)) at)

empty-IsValid : (d : DoorbellHelper) → IsValid d → IsValid (empty d)
unfolding empty
empty-IsValid d v = record {
  room = record {
    wr_room = v.room.wr_room;
    sg_room = v.room.sg_room;
    small = v.room.small;
    bounded = omega arith;
    word_idx = omega arith;
  };
  wired = v.wired;
}

-- What `flush_doorbell` does with a batch that is not empty: the memory that it hands over, the
-- requests that the NIC finds there from the first one on, and the helper that is left.
pub record Flushes (op : PostSendOp) (d : DoorbellHelper) : Type 0 where
  pub handed : List SendWr
  pub reads : chain (length handed) handed d.sg_list (some 0) ≡ some (batch d)
  pub returns : flush_doorbell op d ≡ done (post_send_wr op handed d.sg_list (some 0), empty d)
  pub valid : IsValid (empty d)
  pub emptied : batch (empty d) ≡ []

-- On a valid helper with at least one operation posted `flush_doorbell` does not panic. It hands the
-- NIC a chain of requests that ends, and that holds exactly the operations of the batch in the order
-- of posting. It returns what the NIC answers, and leaves both arrays as they were before the call,
-- linked to a ring, with no operation posted.
pub flush_doorbell-Flushes :
    (op : PostSendOp) (d : DoorbellHelper) → IsValid d → size d ≢ 0 → Flushes op d
flush_doorbell-Flushes op d v h =
    let (_, _, _, below) = last_slot d v.room h in
    let (w, at, wd) = v.wired d.cur_idx below in
    record {
      handed = (frozen d w).wr_list;
      reads = chain-frozen d w v h at;
      returns = flush_doorbell-done op d w v h at wd.0;
      valid = empty-IsValid d v;
      emptied = unfold empty in window-zero d.wr_list d.sg_list;
    }

-- With no operation posted it panics, by the assertion of `freeze`.
pub flush_doorbell-panic :
    (op : PostSendOp) (d : DoorbellHelper) → HasRoom d → size d ≡ 0 → flush_doorbell op d ≡ panic
unfolding flush_doorbell freeze
flush_doorbell-panic op d v h = ground arith
