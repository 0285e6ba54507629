-- ===== src/Doorbell/Batch.antt =====
-- The batch of operations that a doorbell of doorbell_helper.rs holds, and how a write to the next
-- slot extends it.
use krcore_artifacts.Prelude.{
  ℕ, suc, ◌+◌, ◌≤◌, ◌<◌, ◌≡◌, sym, ◌∙◌, ap, ◌≢◌, false, some, List, [], ◌∷◌, ◌++◌, arith, length,
  get_elem?, set, get_elem?-set_self, get_elem?-set_ne, get_elem?-of_lt, length-set, add64, ltb,
  if◌then◌else◌, take-one-drop,
}
use krcore_artifacts.Doorbell.{SendWr, Sge, DoorbellHelper, size, is_full, cur_slot}
use krcore_artifacts.Doorbell.Chain.{
  Entry, entry_at, window, window-congr, length-window, window-suc,
}
use krcore_artifacts.Doorbell.Ring.{IsWired, HasRoom, IsValid, AreWired-set}

-- The operations posted since the doorbell was last flushed, oldest first.
abbrev pub batch : DoorbellHelper → List Entry
batch d = window d.wr_list d.sg_list 0 (size d)

pub length-batch : (d : DoorbellHelper) → IsValid d → length (batch d) ≡ size d
length-batch d v = length-window d.wr_list d.sg_list 0 (size d) (omega arith)

-- The batch of at most `room` entries that the ring implements: what comes after them is dropped.
abbrev pub push : ℕ → List Entry → Entry → List Entry
push room b e = if ltb (length b) room then b ++ (e ∷ []) else b

-- The operation of a request that is linked to the scatter entry `sge` alone.
abbrev pub filled : SendWr → Sge → Entry
filled w sge = record {
  wr_id = w.wr_id;
  opcode = w.opcode;
  signaled = w.signaled;
  wr = w.wr;
  sges = sge ∷ [];
}

-- The helper with `w` and `sge` in the next slot.
abbrev pub posted : DoorbellHelper → SendWr → Sge → DoorbellHelper
posted d w sge = record d {
  wr_list = set d.wr_list (size d) w;
  sg_list = set d.sg_list (size d) sge;
  cur_idx = size d;
}

pub next_slot :
    (d : DoorbellHelper)
    → HasRoom d
    → size d < d.capacity
    → (is_full d ≡ false)
      × (cur_slot (record d { cur_idx = size d }) ≡ size d)
      × (add64 (size d) 1 ≡ suc (size d))
next_slot d v h = ground arith

pub posted-IsValid :
    (d : DoorbellHelper) (w : SendWr) (sge : Sge)
    → IsValid d
    → size d < d.capacity
    → IsWired d.capacity (size d) w
    → IsValid (posted d w sge)
posted-IsValid d w sge v h wd = record {
  room = record {
    wr_room = length-set d.wr_list (size d) w ∙ v.room.wr_room;
    sg_room = length-set d.sg_list (size d) sge ∙ v.room.sg_room;
    small = v.room.small;
    bounded = omega (arith, v.room);
    word_idx = omega arith;
  };
  wired =
      AreWired-set d.capacity d.capacity d.wr_list (size d) w (omega (arith, v.room)) wd
        (λ j hj _. v.wired j hj);
}

entry_at_self :
    (wrs : List SendWr) (sges : List Sge) (k : ℕ) (w : SendWr) (sge : Sge)
    → k < length wrs
    → k < length sges
    → w.sg_list ≡ some k
    → w.num_sge ≡ 1
    → entry_at (set wrs k w) (set sges k sge) k ≡ some (filled w sge)
entry_at_self wrs sges k w sge h h' at one =
    let own = take-one-drop (set sges k sge) k sge (get_elem?-set_self sges k sge h') in
    rw (get_elem?-set_self wrs k w h, at, one, own)

entry_at_other :
    (len : ℕ) (wrs : List SendWr) (sges : List Sge) (k j : ℕ) (w x : SendWr) (sge : Sge)
    → j < k
    → j < length sges
    → get_elem? wrs j ≡ some x
    → IsWired len j x
    → entry_at wrs sges j ≡ entry_at (set wrs k w) (set sges k sge) j
entry_at_other len wrs sges k j w x sge h room at wd =
    let ne : k ≢ j = omega arith in
    let (s, e) = get_elem?-of_lt sges j room in
    let own = take-one-drop sges j s e in
    let own' = take-one-drop (set sges k sge) j s (get_elem?-set_ne sges k j sge ne ∙ e) in
    rw (get_elem?-set_ne wrs k j w ne, at, wd.1, wd.2, own, own')

pub batch-posted :
    (d : DoorbellHelper) (w : SendWr) (sge : Sge)
    → IsValid d
    → size d < d.capacity
    → IsWired d.capacity (size d) w
    → batch (posted d w sge) ≡ batch d ++ (filled w sge ∷ [])
batch-posted d w sge v h wd =
    let wrs = set d.wr_list (size d) w in
    let sges = set d.sg_list (size d) sge in
    let z : 0 + size d ≡ size d = omega arith in
    let own =
      entry_at_self d.wr_list d.sg_list (size d) w sge (omega (arith, v.room))
        (omega (arith, v.room)) wd.1 wd.2 in
    ap (window wrs sges 0) (next_slot d v.room h).2
    ∙ window-suc wrs sges 0 (size d) (filled w sge)
        (omega (arith, length-set d.wr_list (size d) w, v.room)) (rw z own)
    ∙ ap (λ b. b ++ (filled w sge ∷ []))
        (sym (window-congr d.wr_list wrs d.sg_list sges 0 (size d) same))
  where
    same :
        (j : ℕ)
        → 0 ≤ j
        → j < 0 + size d
        → entry_at d.wr_list d.sg_list j
          ≡ entry_at (set d.wr_list (size d) w) (set d.sg_list (size d) sge) j
    same j lo hi =
        let (x, at, xd) = v.wired j (omega (arith, v.room)) in
        entry_at_other d.capacity d.wr_list d.sg_list (size d) j w x sge (omega arith)
          (omega (arith, v.room)) at xd
