-- ===== src/Receive.antt =====
-- KRdmaKit-syscall/two-sided-dc/KRdmaKit/src/qp/recv_helper.rs: the receive buffers of a controller,
-- kept as a ring of receive requests that is linked once and handed to the NIC in parts.
-- A pointer into `wrs` or `sges` is the index that it points at, and null is `none`.
pub mod Walk
pub mod Post
pub mod Make
mod Tests
use krcore_artifacts.Prelude.{
  ℕ, zero, suc, ◌+◌, ◌%◌, Option, none, some, List, replicate, get_elem?, set, Outcome, done, panic,
  ◌>>=◌, unwrap, ◌==◌, if◌then◌else◌, add64, sub64, u32,
}

-- `ib_sge`
pub record Sge : Type 0 where
  pub addr : ℕ
  pub length : ℕ
  pub lkey : ℕ

-- `ib_recv_wr`
pub record RecvWr : Type 0 where
  pub wr_id : ℕ
  pub next : Option ℕ
  pub sg_list : Option ℕ
  pub num_sge : ℕ

-- `RecvHelper`, without the array that completions are polled into.
pub record RecvHelper : Type 0 where
  pub wrs : List RecvWr
  pub sges : List Sge
  pub cur_idx : ℕ
  pub capacity : ℕ
  pub en_sz : ℕ

-- The index that `get_recv_wr_ptr` points at; a remainder by 0 panics.
pub get_recv_wr_ptr : RecvHelper → ℕ → Outcome ℕ
get_recv_wr_ptr r idx =
    if r.capacity == 0
    then panic
    else (do _ ← unwrap (get_elem? r.wrs (idx % r.capacity)); done (idx % r.capacity))

-- `(*wr).next = next`, at the request `i`.
pub set_next : RecvHelper → ℕ → Option ℕ → Outcome RecvHelper
set_next r i next = do
  wr ← unwrap (get_elem? r.wrs i)
  done (record r { wrs = set r.wrs i (record wr { next = next }) })

-- One round of the loop of `create`, at buffer `i` with address `base`.
pub create_at : (ℕ → ℕ) → RecvHelper → ℕ → ℕ → ℕ → Outcome RecvHelper
unfolding get_recv_wr_ptr
create_at pa_to_va r lkey base i = do
  _ ← unwrap (get_elem? r.sges i)
  wr ← unwrap (get_elem? r.wrs i)
  next ← get_recv_wr_ptr r (i + 1)
  done (record r {
    sges = set r.sges i (record { addr = base; length = u32 r.en_sz; lkey = lkey });
    wrs =
        set r.wrs i
          (record { wr_id = pa_to_va base; next = some next; sg_list = some i; num_sge = 1 });
  })

-- `n` buffers are left, from `i` on.
pub create_from : (ℕ → ℕ) → ℕ → ℕ → ℕ → ℕ → RecvHelper → Outcome RecvHelper
create_from pa_to_va zero i lkey base r = done r
create_from pa_to_va (suc n) i lkey base r =
    create_at pa_to_va r lkey base i >>= create_from pa_to_va n (i + 1) lkey (add64 base r.en_sz)

-- `create`, of `n` buffers.
pub create : (ℕ → ℕ) → ℕ → ℕ → ℕ → ℕ → Outcome RecvHelper
unfolding create_from create_at
create pa_to_va n entry_size lkey base_addr = create_from pa_to_va n 0 lkey base_addr (record {
  wrs = replicate n (record { wr_id = 0; next = none; sg_list = none; num_sge = 0 });
  sges = replicate n (record { addr = 0; length = 0; lkey = 0 });
  cur_idx = 0;
  capacity = n;
  en_sz = entry_size;
})

pub freeze_at : RecvHelper → ℕ → Outcome RecvHelper
freeze_at r i = do wr ← get_recv_wr_ptr r i; set_next r wr none

pub freeze_done_at : RecvHelper → ℕ → Outcome RecvHelper
freeze_done_at r i = do
  wr ← get_recv_wr_ptr r i
  next ← get_recv_wr_ptr r (i + 1)
  set_next r wr (some next)

-- `bd_ib_post_recv` or `bd_ib_post_srq_recv`, a parameter: what it answers to the memory and the
-- pointer to the first request. 0 is success.
abbrev pub PostRecvOp : Type 0
PostRecvOp = List RecvWr → List Sge → ℕ → ℕ

pub data KernelResult : Type 0 where
  ok : KernelResult
  err : ℕ → KernelResult

-- `(self.cur_idx + buffer_sz - 1) % self.capacity`, as in a release build.
abbrev pub tail_of : RecvHelper → ℕ → ℕ
tail_of r buffer_sz = sub64 (add64 r.cur_idx buffer_sz) 1 % r.capacity

pub post_recvs : PostRecvOp → RecvHelper → ℕ → Outcome (KernelResult × RecvHelper)
post_recvs op r buffer_sz = if r.capacity == 0 then panic else (do
  let tail = tail_of r buffer_sz
  r1 ← freeze_at r tail
  header ← get_recv_wr_ptr r1 r1.cur_idx
  let error = op r1.wrs r1.sges header
  r2 ← freeze_done_at r1 tail
  if error == 0
      then done (ok, record r2 { cur_idx = (tail + 1) % r2.capacity })
      else done (err error, r2))
