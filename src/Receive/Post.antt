-- ===== src/Receive/Post.antt =====
-- `post_recvs` of recv_helper.rs: which buffers the NIC is handed, and what is left.
use native.Mathlib.Nat.{suc-mod, mod-eq_of_lt, mod-lt, add-mod_right}
use krcore_artifacts.Prelude.{
  ℕ, suc, ◌+◌, ◌-◌, ◌%◌, ◌^◌, ◌≤◌, ◌<◌, ◌≡◌, refl, sym, ◌∙◌, ap, Option, none, some, List, done,
  arith, false, length, get_elem?, set, get_elem?-set_self, get_elem?-set_ne, get_elem?-of_lt,
  length-set, set-set, set-get_elem?, add64, sub64, ◌==◌, if◌then◌else◌, Outcome,
}
use krcore_artifacts.Receive.{
  RecvWr, RecvHelper, get_recv_wr_ptr, set_next, freeze_at, freeze_done_at, PostRecvOp,
  KernelResult, ok, err, tail_of, post_recvs,
}
use krcore_artifacts.Receive.Walk.{walk, slots, walk-slots, slot-ne}

-- Between two calls every request is linked to the next of the ring.
pub record IsRing (r : RecvHelper) : Type 0 where
  pub room : length r.wrs ≡ r.capacity
  pub some_room : 0 < r.capacity
  pub small : r.capacity < 2 ^ 63
  pub within : r.cur_idx < r.capacity
  pub linked :
      (i : ℕ)
      → i < r.capacity
      → (w : RecvWr) × (get_elem? r.wrs i ≡ some w) × (w.next ≡ some (suc i % r.capacity))

pub get_recv_wr_ptr-done :
    (r : RecvHelper) (i : ℕ)
    → length r.wrs ≡ r.capacity
    → 0 < r.capacity
    → get_recv_wr_ptr r i ≡ done (i % r.capacity)
unfolding get_recv_wr_ptr
get_recv_wr_ptr-done r i room h =
    let nonzero : (r.capacity == 0) ≡ false = ground arith in
    let below = mod-lt i h in
    let (w, at) = get_elem?-of_lt r.wrs (i % r.capacity) (omega arith) in rw (nonzero, at)

set_next-done :
    (r : RecvHelper) (i : ℕ) (next : Option ℕ) (w : RecvWr)
    → get_elem? r.wrs i ≡ some w
    → set_next r i next ≡ done (record r { wrs = set r.wrs i (record w { next = next }) })
unfolding set_next
set_next-done r i next w at = rw at

-- The helper with the request `t` linked to none.
abbrev frozen : RecvHelper → ℕ → RecvWr → RecvHelper
frozen r t w = record r { wrs = set r.wrs t (record w { next = none }) }

freeze_at-done :
    (r : RecvHelper) (t : ℕ) (w : RecvWr)
    → IsRing r
    → t < r.capacity
    → get_elem? r.wrs t ≡ some w
    → freeze_at r t ≡ done (frozen r t w)
unfolding freeze_at
freeze_at-done r t w v h at =
    rw (get_recv_wr_ptr-done r t v.room v.some_room, mod-eq_of_lt h, set_next-done r t none w at)

-- Writing back the link restores the ring.
restored :
    (r : RecvHelper) (t : ℕ) (w : RecvWr) (next : ℕ)
    → get_elem? r.wrs t ≡ some w
    → w.next ≡ some next
    → set (frozen r t w).wrs t (record w { next = some next }) ≡ r.wrs
restored r t w next at link =
    set-set r.wrs t (record w { next = none }) (record w { next = some next })
    ∙ set-get_elem? r.wrs t (record w { next = some next }) (at ∙ ap some same)
  where
    same : w ≡ record w { next = some next }
    same = ground (arith, link)

freeze_done_at-done :
    (r : RecvHelper) (t : ℕ) (w : RecvWr)
    → IsRing r
    → t < r.capacity
    → get_elem? r.wrs t ≡ some w
    → w.next ≡ some (suc t % r.capacity)
    → freeze_done_at (frozen r t w) t ≡ done r
unfolding freeze_done_at
freeze_done_at-done r t w v h at link =
    let w' = record w { next = none } in
    let room : length (frozen r t w).wrs ≡ r.capacity = length-set r.wrs t w' ∙ v.room in
    let up : t + 1 ≡ suc t = omega arith in
    let self = get_elem?-set_self r.wrs t w' (omega (arith, v.room)) in
    rw
      (
        get_recv_wr_ptr-done (frozen r t w) t room v.some_room,
        get_recv_wr_ptr-done (frozen r t w) (t + 1) room v.some_room,
        mod-eq_of_lt h,
        set_next-done (frozen r t w) t (some ((t + 1) % r.capacity)) w' self,
        up,
      )
      (ap (λ l. done (record r { wrs = l })) (restored r t w (suc t % r.capacity) at link))

-- `tail` is the last of the slots that are posted.
tail-slot :
    (r : RecvHelper) (m : ℕ)
    → IsRing r
    → suc m ≤ r.capacity
    → tail_of r (suc m) ≡ (r.cur_idx + m) % r.capacity
tail-slot r m v h =
    let exact : sub64 (add64 r.cur_idx (suc m)) 1 ≡ r.cur_idx + m =
      omega (arith, v.within, v.small) in
    rw exact

-- What the NIC reads in the frozen ring.
walk-frozen :
    (r : RecvHelper) (m : ℕ) (w : RecvWr)
    → IsRing r
    → suc m ≤ r.capacity
    → get_elem? r.wrs ((r.cur_idx + m) % r.capacity) ≡ some w
    → walk r.capacity
        (frozen r ((r.cur_idx + m) % r.capacity) w).wrs
        (some (r.cur_idx % r.capacity))
      ≡ some (slots r.capacity r.cur_idx (suc m))
walk-frozen r m w v h at =
    let c = r.capacity in
    let t = (r.cur_idx + m) % c in
    let w' : RecvWr = record w { next = none } in
    walk-slots c m r.cur_idx c (set r.wrs t w') w' h
      (λ j hj.
        let (x, at', link) = v.linked ((r.cur_idx + j) % c) (mod-lt (r.cur_idx + j) v.some_room) in
        let ne = slot-ne c r.cur_idx j m v.within hj h in
        (
          x,
          get_elem?-set_ne r.wrs t ((r.cur_idx + j) % c) w' (λ e. ne (sym e)) ∙ at',
          link ∙ ap some (sym (suc-mod (r.cur_idx + j) c)),
        ))
      (get_elem?-set_self r.wrs t w' (omega (arith, v.room, mod-lt (r.cur_idx + m) v.some_room)))
      refl

-- What `post_recvs` of `n` buffers does.
pub record Posts (op : PostRecvOp) (r : RecvHelper) (n : ℕ) : Type 0 where
  pub handed : List RecvWr
  pub reads :
      walk r.capacity handed (some (r.cur_idx % r.capacity)) ≡ some (slots r.capacity r.cur_idx n)
  pub returns : post_recvs op r n ≡ (
      let error = op handed r.sges (r.cur_idx % r.capacity) in
      if error == 0
      then done (ok, record r { cur_idx = (r.cur_idx + n) % r.capacity })
      else done (err error, r))

abbrev answer : RecvHelper → ℕ → ℕ → Outcome (KernelResult × RecvHelper)
answer r error t =
    if error == 0
    then done (ok, record r { cur_idx = (t + 1) % r.capacity })
    else done (err error, r)

post_recvs-done :
    (op : PostRecvOp) (r : RecvHelper) (n t : ℕ) (w : RecvWr)
    → IsRing r
    → tail_of r n ≡ t
    → t < r.capacity
    → get_elem? r.wrs t ≡ some w
    → w.next ≡ some (suc t % r.capacity)
    → post_recvs op r n ≡ answer r (op (frozen r t w).wrs r.sges (r.cur_idx % r.capacity)) t
unfolding post_recvs
post_recvs-done op r n t w v e h at link =
    let nonzero : (r.capacity == 0) ≡ false = ground (arith, v.some_room) in
    let room : length (frozen r t w).wrs ≡ r.capacity =
      length-set r.wrs t (record w { next = none }) ∙ v.room in
    rw (
      nonzero,
      e,
      freeze_at-done r t w v h at,
      get_recv_wr_ptr-done (frozen r t w) r.cur_idx room v.some_room,
      freeze_done_at-done r t w v h at link,
    )

-- From a valid ring, `post_recvs` of 1 up to `capacity` buffers hands the NIC exactly that many, the
-- next ones of the ring in order. It leaves the ring as it was, and moves on by that number if the
-- NIC's answer is 0; else it returns the answer as the error and stays where it is.
pub post_recvs-Posts :
    (op : PostRecvOp) (r : RecvHelper) (m : ℕ) → IsRing r → suc m ≤ r.capacity → Posts op r (suc m)
post_recvs-Posts op r m v h =
    let t = (r.cur_idx + m) % r.capacity in
    let below = mod-lt (r.cur_idx + m) v.some_room in
    let (w, at, link) = v.linked t below in
    let up : t + 1 ≡ suc t = omega arith in
    let on : r.cur_idx + suc m ≡ suc (r.cur_idx + m) = omega arith in
    let moved : (t + 1) % r.capacity ≡ (r.cur_idx + suc m) % r.capacity =
      ap (λ x. x % r.capacity) up
      ∙ sym (suc-mod (r.cur_idx + m) r.capacity)
      ∙ ap (λ x. x % r.capacity) (sym on) in
    record {
      handed = (frozen r t w).wrs;
      reads = walk-frozen r m w v h at;
      returns =
          post_recvs-done op r (suc m) t w v (tail-slot r m v h) below at link
          ∙ ap
              (λ x.
                if op (frozen r t w).wrs r.sges (r.cur_idx % r.capacity) == 0
                then done (ok, record r { cur_idx = x })
                else done (err (op (frozen r t w).wrs r.sges (r.cur_idx % r.capacity)), r))
              moved;
    }

-- From a valid ring that is not at its start, `post_recvs` of no buffer hands over all of them: it
-- does the same as `post_recvs` of `capacity` buffers.
pub post_recvs-none :
    (op : PostRecvOp) (r : RecvHelper)
    → IsRing r
    → 0 < r.cur_idx
    → post_recvs op r 0 ≡ post_recvs op r r.capacity
unfolding post_recvs
post_recvs-none op r v h =
    let last = r.cur_idx - 1 in
    let e0 : sub64 (add64 r.cur_idx 0) 1 ≡ last = omega (arith, v.within, v.small) in
    let e1 : sub64 (add64 r.cur_idx r.capacity) 1 ≡ last + r.capacity =
      omega (arith, v.within, v.small) in
    let same : tail_of r 0 ≡ tail_of r r.capacity =
      ap (λ x. x % r.capacity) e0
      ∙ sym (add-mod_right last r.capacity)
      ∙ ap (λ x. x % r.capacity) (sym e1) in
    rw same
