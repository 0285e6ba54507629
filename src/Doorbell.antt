-- ===== src/Doorbell.antt =====
-- KRdmaKit/src/queue_pairs/doorbell_helper.rs: a batch of work requests that is handed to the NIC
-- by one doorbell, kept as a ring in two arrays that are linked once and then reused.
-- A pointer into `wr_list` or `sg_list` is the index that it points at, and null is `none`.
pub mod Operations
pub mod Chain
pub mod Ring
pub mod Batch
pub mod Post
pub mod Flush
pub mod Script
mod Tests
use krcore_artifacts.Prelude.{
  ℕ, zero, suc, ◌+◌, ◌-◌, ◌%◌, Bool, true, false, not, ◌&&◌, ◌||◌, Option, none, some, List,
  replicate, get_elem?, set, Outcome, done, panic, ◌>>=◌, unwrap, ltb, ◌==◌, if◌then◌else◌, add64,
  sub64, lt_isize, minus_one, u32,
}

-- `ibv_sge`
pub record Sge : Type 0 where
  pub addr : ℕ
  pub length : ℕ
  pub lkey : ℕ

-- The values of `opcode` that this file and operations_user.rs write, and that of zeroed memory;
-- with `send_with_imm` the `imm_data` of the request, which only this opcode sends.
pub data Opcode : Type 0 where
  zeroed rdma_write rdma_read atomic_cmp_and_swp atomic_fetch_and_add send : Opcode
  send_with_imm : ℕ → Opcode

-- The union `wr`: an operation writes every field of the member that its opcode reads.
pub data Target : Type 0 where
  rdma : ℕ → ℕ → Target
  ud : ℕ → ℕ → ℕ → Target
  atomic : ℕ → ℕ → ℕ → ℕ → Target
  -- In the kernel, `ib_dc_wr`: address, key, address handler, access key and number of the DC target.
  dc : ℕ → ℕ → ℕ → ℕ → ℕ → Target

-- `ibv_send_wr`. `signaled` is `send_flags`, which is IBV_SEND_SIGNALED or 0.
pub record SendWr : Type 0 where
  pub wr_id : ℕ
  pub next : Option ℕ
  pub sg_list : Option ℕ
  pub num_sge : ℕ
  pub opcode : Opcode
  pub signaled : Bool
  pub wr : Target

pub record DoorbellHelper : Type 0 where
  pub wr_list : List SendWr
  pub sg_list : List Sge
  pub capacity : ℕ
  pub cur_idx : ℕ  -- isize

abbrev pub zeroed_sge : Sge
zeroed_sge = record { addr = 0; length = 0; lkey = 0 }

abbrev pub zeroed_wr : SendWr
zeroed_wr = record {
  wr_id = 0;
  next = none;
  sg_list = none;
  num_sge = 0;
  opcode = zeroed;
  signaled = false;
  wr = rdma 0 0;
}

pub new_uninit : ℕ → DoorbellHelper
new_uninit capacity = record {
  wr_list = replicate capacity zeroed_wr;
  sg_list = replicate capacity zeroed_sge;
  capacity = capacity;
  cur_idx = minus_one;
}

-- `list[i].field = …`, with the bounds check of the index.
pub modify {ℓ} : {A : Type ℓ} → List A → ℕ → (A → A) → Outcome (List A)
modify xs i f = do x ← unwrap (get_elem? xs i); done (set xs i (f x))

-- `&mut list[i] as *mut T`: the pointer, with the bounds check of the index.
pub pointer_to {ℓ} : {A : Type ℓ} → List A → ℕ → Outcome (Option ℕ)
pointer_to xs i = do _ ← unwrap (get_elem? xs i); done (some i)

-- One round of the loop of `init`.
pub init_at : DoorbellHelper → ℕ → Outcome DoorbellHelper
init_at d i = do
  next ← pointer_to d.wr_list ((i + 1) % d.capacity)
  sge ← pointer_to d.sg_list i
  wrs ← modify d.wr_list i (λ w. record w { num_sge = 1; next = next; sg_list = sge })
  done (record d { wr_list = wrs })

-- `n` rounds are left, from index `i` on.
pub init_from : ℕ → ℕ → DoorbellHelper → Outcome DoorbellHelper
init_from zero i d = done d
init_from (suc n) i d = init_at d i >>= init_from n (i + 1)

pub init : DoorbellHelper → Outcome DoorbellHelper
unfolding init_from init_at
init d = init_from d.capacity 0 d

pub create_and_init : ℕ → Outcome DoorbellHelper
unfolding new_uninit init
create_and_init capacity = init (new_uninit capacity)

abbrev pub points_to : Option ℕ → ℕ → Bool
points_to none i = false
points_to (some j) i = j == i

-- `n` entries are left, from index `i` on. `&=` evaluates both sides.
pub sanity_check_from : ℕ → ℕ → DoorbellHelper → Outcome Bool
sanity_check_from zero i d = done true
sanity_check_from (suc n) i d = do
  _ ← unwrap (get_elem? d.sg_list i)
  w ← unwrap (get_elem? d.wr_list i)
  rest ← sanity_check_from n (i + 1) d
  done (points_to w.sg_list i && rest)

pub sanity_check : DoorbellHelper → Outcome Bool
unfolding sanity_check_from
sanity_check d = sanity_check_from d.capacity 0 d

abbrev pub size : DoorbellHelper → ℕ
size d = add64 d.cur_idx 1

abbrev pub is_empty : DoorbellHelper → Bool
is_empty d = not (lt_isize 0 (size d))

abbrev pub is_full : DoorbellHelper → Bool
is_full d = not (lt_isize (size d) d.capacity)

pub empty : DoorbellHelper → DoorbellHelper
empty d = record d { cur_idx = minus_one }

pub next : DoorbellHelper → Bool × DoorbellHelper
next d = if is_full d then (false, d) else (true, record d { cur_idx = add64 d.cur_idx 1 })

-- The index that `cur_wr` and `cur_sge` refer to.
abbrev pub cur_slot : DoorbellHelper → ℕ
cur_slot d = if is_empty d then 0 else d.cur_idx

-- A write through `cur_wr()`.
pub update_cur_wr : DoorbellHelper → (SendWr → SendWr) → Outcome DoorbellHelper
update_cur_wr d f = do wrs ← modify d.wr_list (cur_slot d) f; done (record d { wr_list = wrs })

-- A write through `cur_sge()`.
pub update_cur_sge : DoorbellHelper → (Sge → Sge) → Outcome DoorbellHelper
update_cur_sge d f = do sges ← modify d.sg_list (cur_slot d) f; done (record d { sg_list = sges })

pub freeze : DoorbellHelper → Outcome DoorbellHelper
unfolding update_cur_wr
freeze d = if is_empty d then panic else update_cur_wr d (λ w. record w { next = none })

-- `wr_list[cur_idx].next = &mut wr_list[target]`
pub relink : DoorbellHelper → ℕ → Outcome DoorbellHelper
relink d target = do
  next ← pointer_to d.wr_list target
  wrs ← modify d.wr_list d.cur_idx (λ w. record w { next = next })
  done (record d { wr_list = wrs })

pub freeze_done : DoorbellHelper → Outcome DoorbellHelper
unfolding relink
freeze_done d =
    if is_empty d
    then panic
    else if d.cur_idx == sub64 d.capacity 1
    then relink d 0
    else relink d (add64 d.cur_idx 1)

pub clear : DoorbellHelper → Outcome DoorbellHelper
clear d = do d' ← freeze_done d; done (record d' { cur_idx = minus_one })
