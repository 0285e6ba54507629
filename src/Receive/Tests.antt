-- ===== src/Receive/Tests.antt =====
-- recv_helper.rs on a ring of three buffers, and its theorems applied there.
use krcore_artifacts.Prelude.{
  ℕ, zero, suc, ◌<◌, ◌%◌, ◌≡◌, refl, some, [], ◌∷◌, done, arith, get_elem?,
}
use krcore_artifacts.Receive.{
  RecvWr, Sge, RecvHelper, get_recv_wr_ptr, set_next, create, PostRecvOp, ok, freeze_at,
  freeze_done_at, post_recvs,
}
use krcore_artifacts.Receive.Post.{IsRing, Posts, post_recvs-Posts}
use krcore_artifacts.Receive.Make.{create-IsRing}

abbrev buffer : ℕ → ℕ → ℕ → RecvWr
buffer i next va = record { wr_id = va; next = some next; sg_list = some i; num_sge = 1 }

abbrev place : ℕ → Sge
place addr = record { addr = addr; length = 64; lkey = 7 }

abbrev three : RecvHelper
three = record {
  wrs = buffer 0 1 100 ∷ buffer 1 2 164 ∷ buffer 2 0 228 ∷ [];
  sges = place 100 ∷ place 164 ∷ place 228 ∷ [];
  cur_idx = 0;
  capacity = 3;
  en_sz = 64;
}

create-three : create (λ a. a) 3 64 7 100 ≡ done three
unfolding create get_recv_wr_ptr
create-three = refl

create-IsRing_example :
    (r : RecvHelper) × (create (λ a. a) 3 64 7 100 ≡ done r)
    × IsRing r
    × (r.capacity ≡ 3)
    × (r.cur_idx ≡ 0)
create-IsRing_example = create-IsRing (λ a. a) 7 3 64 100 (omega arith) (omega arith)

-- The ring with its second buffer next.
abbrev moved : RecvHelper
moved = record three { cur_idx = 1 }

abbrev links :
    (i : ℕ) → i < 3 → (w : RecvWr) × (get_elem? three.wrs i ≡ some w) × (w.next ≡ some (suc i % 3))
links zero h = (buffer 0 1 100, refl, refl)
links (suc zero) h = (buffer 1 2 164, refl, refl)
links (suc (suc zero)) h = (buffer 2 0 228, refl, refl)
links (suc (suc (suc i))) h = absurd (omega arith)

moved-IsRing : IsRing moved
moved-IsRing = record {
  room = refl;
  some_room = omega arith;
  small = omega arith;
  within = omega arith;
  linked = links;
}

-- A NIC library that accepts whatever it is handed.
abbrev accept : PostRecvOp
accept _ _ _ = 0

post_recvs-Posts_example : Posts accept moved 2
post_recvs-Posts_example = post_recvs-Posts accept moved 1 moved-IsRing (omega arith)

-- The same by running the code.
post_recvs-run : post_recvs accept moved 2 ≡ done (ok, three)
unfolding post_recvs freeze_at freeze_done_at get_recv_wr_ptr set_next
post_recvs-run = refl
