-- ===== src/Doorbell/Post.antt =====
-- Posting to a doorbell of doorbell_helper.rs, against the list of the operations posted so far.
use krcore_artifacts.Prelude.{
  ℕ, suc, ◌<◌, ◌≡◌, refl, sym, ◌∙◌, ap, inl, inr, Bool, false, some, List, [], ◌∷◌, ◌++◌, Outcome,
  done, arith, length, get_elem?, set, get_elem?-of_lt, length-append, add64, ltb, Bool-cases, u32,
  ltb→lt,
}
use krcore_artifacts.Doorbell.{
  SendWr, Sge, Opcode, rdma_write, rdma_read, atomic_cmp_and_swp, atomic_fetch_and_add, Target,
  rdma, atomic, DoorbellHelper, next, update_cur_sge, update_cur_wr, size, cur_slot,
}
use krcore_artifacts.Doorbell.Operations.{
  post_entry, MemoryRegion, Range, range_size, post_send_write, post_send_read, post_send_cas,
  post_send_faa,
}
use krcore_artifacts.Doorbell.Chain.{Entry}
use krcore_artifacts.Doorbell.Ring.{IsWired, IsValid, modify-done}
use krcore_artifacts.Doorbell.Batch.{
  batch, length-batch, push, posted, next_slot, posted-IsValid, batch-posted,
}

update_cur_sge-done :
    (d : DoorbellHelper) (s : Sge) (f : Sge → Sge) (k : ℕ)
    → cur_slot d ≡ k
    → get_elem? d.sg_list k ≡ some s
    → update_cur_sge d f ≡ done (record d { sg_list = set d.sg_list k (f s) })
unfolding update_cur_sge
update_cur_sge-done d s f k e at = rw (e, modify-done d.sg_list k f s at)

pub update_cur_wr-done :
    (d : DoorbellHelper) (w : SendWr) (f : SendWr → SendWr) (k : ℕ)
    → cur_slot d ≡ k
    → get_elem? d.wr_list k ≡ some w
    → update_cur_wr d f ≡ done (record d { wr_list = set d.wr_list k (f w) })
unfolding update_cur_wr
update_cur_wr-done d w f k e at = rw (e, modify-done d.wr_list k f w at)

-- What one posting does: its answer is the new length of the batch, and the batch is `push`ed.
pub record Posts (d : DoorbellHelper) (e : Entry) (out : Outcome (ℕ × DoorbellHelper))
    : Type 0 where
  pub after : DoorbellHelper
  pub returns : out ≡ done (length (push d.capacity (batch d) e), after)
  pub valid : IsValid after
  pub pushed : batch after ≡ push d.capacity (batch d) e
  pub same_room : after.capacity ≡ d.capacity

post_entry-full :
    (d : DoorbellHelper) (sge : Sge) (wr_id : ℕ) (opcode : Opcode) (signaled : Bool)
    (target : Target)
    → IsValid d
    → ltb (size d) d.capacity ≡ false
    → post_entry d sge wr_id opcode signaled target ≡ done (size d, d)
unfolding post_entry next
post_entry-full d sge wr_id opcode signaled target v h = ground (arith, v.room)

post_entry-room :
    (d : DoorbellHelper) (sge : Sge) (wr_id : ℕ) (opcode : Opcode) (signaled : Bool)
    (target : Target) (w : SendWr)
    → IsValid d
    → size d < d.capacity
    → get_elem? d.wr_list (size d) ≡ some w
    → let w' = record w { wr_id = wr_id; opcode = opcode; signaled = signaled; wr = target } in
      post_entry d sge wr_id opcode signaled target ≡ done (suc (size d), posted d w' sge)
unfolding post_entry next
post_entry-room d sge wr_id opcode signaled target w v h at =
    let (room, slot, up) = next_slot d v.room h in
    let (s, at') = get_elem?-of_lt d.sg_list (size d) (omega (arith, v.room)) in
    let d1 = record d { cur_idx = size d } in
    let d2 = record d1 { sg_list = set d.sg_list (size d) sge } in
    rw room (
      rw (update_cur_sge-done d1 s (λ _. sge) (size d) slot at')
        (rw (update_cur_wr-done d2 w _ (size d) slot at) (rw up)))

push-room :
    (room : ℕ) (b : List Entry) (e : Entry) → length b < room → push room b e ≡ b ++ (e ∷ [])
push-room room b e h = ground arith

pub push-full :
    (room : ℕ) (b : List Entry) (e : Entry) → ltb (length b) room ≡ false → push room b e ≡ b
push-full room b e h = rw h

module _ (d : DoorbellHelper) (sge : Sge) (wr_id : ℕ) (opcode : Opcode) (signaled : Bool)
    (target : Target) (v : IsValid d) where
  abbrev op : Entry
  op = record { wr_id = wr_id; opcode = opcode; signaled = signaled; wr = target; sges = sge ∷ [] }

  Posts-full :
      ltb (size d) d.capacity ≡ false → Posts d op (post_entry d sge wr_id opcode signaled target)
  Posts-full full =
      let count = length-batch d v in
      let same = push-full d.capacity (batch d) op (rw count full) in
      record {
        after = d;
        returns =
            post_entry-full d sge wr_id opcode signaled target v full
            ∙ ap (λ n. done (n, d)) (sym (ap length same ∙ count));
        valid = v;
        pushed = sym same;
        same_room = refl;
      }

  Posts-room :
      (w : SendWr)
      → size d < d.capacity
      → get_elem? d.wr_list (size d) ≡ some w
      → IsWired d.capacity (size d) w
      → Posts d op (post_entry d sge wr_id opcode signaled target)
  Posts-room w h at wd =
      let w' : SendWr = record w {
        wr_id = wr_id;
        opcode = opcode;
        signaled = signaled;
        wr = target;
      } in
      let count = length-batch d v in
      let more = push-room d.capacity (batch d) op (rw count h) in
      record {
        after = posted d w' sge;
        returns =
            post_entry-room d sge wr_id opcode signaled target w v h at
            ∙ ap (λ n. done (n, posted d w' sge))
                (omega (arith, count, length-append (batch d) (op ∷ []), ap length more));
        valid = posted-IsValid d w' sge v h wd;
        pushed = batch-posted d w' sge v h wd ∙ sym more;
        same_room = refl;
      }

  pub post_entry-Posts : Posts d op (post_entry d sge wr_id opcode signaled target)
  post_entry-Posts = elim (Bool-cases (ltb (size d) d.capacity)) [
    | inl room ↦
        let h = ltb→lt (size d) d.capacity room in
        let (w, at, wd) = v.wired (size d) h in Posts-room w h at wd
    | inr full ↦ Posts-full full
  ]

-- The four operations as requests.
pub data Request : Type 0 where
  write read : MemoryRegion → Range → Bool → ℕ → ℕ → ℕ → Request
  cas : MemoryRegion → ℕ → Bool → ℕ → ℕ → ℕ → ℕ → ℕ → Request
  faa : MemoryRegion → ℕ → Bool → ℕ → ℕ → ℕ → ℕ → Request

unfoldable pub post : DoorbellHelper → Request → Outcome (ℕ × DoorbellHelper)
post d (write mr range signaled raddr rkey wr_id) =
    post_send_write d mr range signaled raddr rkey wr_id
post d (read mr range signaled raddr rkey wr_id) =
    post_send_read d mr range signaled raddr rkey wr_id
post d (cas mr offset signaled raddr rkey wr_id old new) =
    post_send_cas d mr offset signaled raddr rkey wr_id old new
post d (faa mr offset signaled raddr rkey wr_id val) =
    post_send_faa d mr offset signaled raddr rkey wr_id val

-- `len` bytes of a memory region from `offset` on.
abbrev local : MemoryRegion → ℕ → ℕ → List Sge
local mr offset len = record { addr = add64 mr.data_addr offset; length = len; lkey = mr.lkey } ∷ []

-- What the NIC is asked to do by each request.
abbrev pub entry : Request → Entry
entry (write mr range signaled raddr rkey wr_id) = record {
  wr_id = wr_id;
  opcode = rdma_write;
  signaled = signaled;
  wr = rdma raddr rkey;
  sges = local mr range.start (u32 (range_size range));
}
entry (read mr range signaled raddr rkey wr_id) = record {
  wr_id = wr_id;
  opcode = rdma_read;
  signaled = signaled;
  wr = rdma raddr rkey;
  sges = local mr range.start (u32 (range_size range));
}
entry (cas mr offset signaled raddr rkey wr_id old new) = record {
  wr_id = wr_id;
  opcode = atomic_cmp_and_swp;
  signaled = signaled;
  wr = atomic raddr old new rkey;
  sges = local mr offset 8;
}
entry (faa mr offset signaled raddr rkey wr_id val) = record {
  wr_id = wr_id;
  opcode = atomic_fetch_and_add;
  signaled = signaled;
  wr = atomic raddr val 0 rkey;
  sges = local mr offset 8;
}

-- On a valid helper none of `post_send_write`, `post_send_read`, `post_send_cas` and `post_send_faa`
-- panics. Each leaves a valid helper of the same capacity whose batch has the operation at its end
-- if there was room, and is unchanged otherwise, and returns the length of the batch either way.
pub post-Posts : (d : DoorbellHelper) (r : Request) → IsValid d → Posts d (entry r) (post d r)
unfolding post post_send_write post_send_read post_send_cas post_send_faa
post-Posts d (write mr range signaled raddr rkey wr_id) v =
    post_entry-Posts d _ wr_id rdma_write signaled _ v
post-Posts d (read mr range signaled raddr rkey wr_id) v =
    post_entry-Posts d _ wr_id rdma_read signaled _ v
post-Posts d (cas mr offset signaled raddr rkey wr_id old new) v =
    post_entry-Posts d _ wr_id atomic_cmp_and_swp signaled _ v
post-Posts d (faa mr offset signaled raddr rkey wr_id val) v =
    post_entry-Posts d _ wr_id atomic_fetch_and_add signaled _ v
