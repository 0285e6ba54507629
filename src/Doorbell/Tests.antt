-- ===== src/Doorbell/Tests.antt =====
-- doorbell_helper.rs run on small inputs, and its theorems applied there.
use krcore_artifacts.Prelude.{
  ℕ, zero, suc, ap, ◌∙◌, minus_one, ◌≡◌, refl, ◌≢◌, true, false, some, List, [], ◌∷◌, done, panic,
  arith, length,
}
use krcore_artifacts.Doorbell.{
  SendWr, zeroed_sge, zeroed, rdma, relink, DoorbellHelper, create_and_init, sanity_check, size,
  modify, pointer_to, update_cur_sge, update_cur_wr, freeze, freeze_done, clear,
}
use krcore_artifacts.Doorbell.Operations.{
  post_send_write, MemoryRegion, Range, PostSendOp, ok, post_send_wr, flush_doorbell,
}
use krcore_artifacts.Doorbell.Chain.{window}
use krcore_artifacts.Doorbell.Ring.{IsValid, AreWired, create_and_init-IsValid}
use krcore_artifacts.Doorbell.Batch.{batch, length-batch}
use krcore_artifacts.Doorbell.Post.{Posts, Request, write, post, entry, post-Posts}
use krcore_artifacts.Doorbell.Flush.{Flushes, flush_doorbell-Flushes}
use krcore_artifacts.Doorbell.Script.{
  Command, posts, flushes, call, spec_call, posted, flushed, run, spec_run, run_refines,
}

abbrev mr : MemoryRegion
mr = record { data_addr = 4096; capacity = 64; lkey = 7; rkey = 8 }

abbrev first_eight : Range
first_eight = record { start = 0; end = 8 }

abbrev req : ℕ → Request
req id = write mr first_eight true 100 9 id

create_and_init-IsValid_example :
    (d : DoorbellHelper) × (create_and_init 2 ≡ done d)
    × IsValid d
    × (d.capacity ≡ 2)
    × (size d ≡ 0)
    × (sanity_check d ≡ done true)
create_and_init-IsValid_example = create_and_init-IsValid 2 (omega arith)

-- What `create_and_init 2` returns.
abbrev linked : ℕ → ℕ → SendWr
linked i j = record {
  wr_id = 0;
  next = some j;
  sg_list = some i;
  num_sge = 1;
  opcode = zeroed;
  signaled = false;
  wr = rdma 0 0;
}

abbrev two : DoorbellHelper
two = record {
  wr_list = linked 0 1 ∷ linked 1 0 ∷ [];
  sg_list = zeroed_sge ∷ zeroed_sge ∷ [];
  capacity = 2;
  cur_idx = minus_one;
}

create-two : create_and_init 2 ≡ done two
unfolding create_and_init modify pointer_to
create-two = refl

abbrev wired : AreWired 2 2 two.wr_list
wired zero h = (linked 0 1, refl, (refl, refl, refl))
wired (suc zero) h = (linked 1 0, refl, (refl, refl, refl))
wired (suc (suc i)) h = absurd (omega arith)

two-IsValid : IsValid two
two-IsValid = record {
  room = record {
    wr_room = refl;
    sg_room = refl;
    small = omega arith;
    bounded = omega arith;
    word_idx = omega arith;
  };
  wired = wired;
}

post-Posts_example : Posts two (entry (req 5)) (post two (req 5))
post-Posts_example = post-Posts two (req 5) two-IsValid

-- One operation posted.
abbrev one_posted : DoorbellHelper
one_posted = (post-Posts two (req 5) two-IsValid).after

-- An accepting NIC library: it answers 0 to whatever it is handed.
abbrev accept : PostSendOp
accept _ _ _ = 0

one_posted-batch : batch one_posted ≡ entry (req 5) ∷ []
one_posted-batch = (post-Posts two (req 5) two-IsValid).pushed ∙ (unfold window in refl)

one_posted-size : size one_posted ≢ 0
one_posted-size =
    let v = (post-Posts two (req 5) two-IsValid).valid in
    λ e. absurd (omega (arith, length-batch one_posted v, ap length one_posted-batch))

flush_doorbell-Flushes_example : Flushes accept one_posted
flush_doorbell-Flushes_example =
    flush_doorbell-Flushes accept one_posted (post-Posts two (req 5) two-IsValid).valid
      one_posted-size

-- The third posting is dropped, and answers as the second did.
abbrev script : List Command
script = posts (req 5) ∷ posts (req 6) ∷ posts (req 7) ∷ flushes ∷ posts (req 8) ∷ []

run_refines_example :
    run accept two script ≡ done (posted 1 ∷ posted 2 ∷ posted 2 ∷ flushed ok ∷ posted 1 ∷ [])
unfolding spec_run spec_call window
run_refines_example = run_refines accept (λ _. 0) (λ _ _ _ _ _. refl) script 2 two two-IsValid refl

-- The same by running the code.
run-script :
    run accept two script ≡ done (posted 1 ∷ posted 2 ∷ posted 2 ∷ flushed ok ∷ posted 1 ∷ [])
unfolding run call post post_send_write modify update_cur_sge update_cur_wr flush_doorbell freeze
    clear freeze_done relink pointer_to post_send_wr
run-script = refl

flush-empty : run accept two (flushes ∷ []) ≡ panic
unfolding run call flush_doorbell freeze
flush-empty = refl
