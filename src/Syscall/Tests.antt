-- ===== src/Syscall/Tests.antt =====
-- virtual_queue.rs run on a small kernel, and its theorems applied there.
use krcore_artifacts.Prelude.{
  [], ℕ, ◌+◌, ◌*◌, ◌≡◌, refl, true, false, none, some, List, ◌∷◌, done, arith,
}
use krcore_artifacts.Prelude.Effects.{Eff, pure, Returns, Leaves, ◌>>=◌}
use krcore_artifacts.Syscall.Abi.{op_code_table, CoreReq, Status, ok}
use krcore_artifacts.Syscall.Kernel.{Kernel, TempMr, WcPtr}
use krcore_artifacts.Syscall.Queue.{Vq, open_vq}
use krcore_artifacts.Syscall.Connect.{explore_path}
use krcore_artifacts.Syscall.Send.{rc_push_impl}
use krcore_artifacts.Syscall.Recv.{pop_msg_impl, pop_recv}
use krcore_artifacts.Syscall.Server.{
  Pushed, no_counts, push_reqs, push_one, client_endpoint, ud_reply, finish_pushed, finish_from,
  ud_finish, rc_finish,
}
use krcore_artifacts.Syscall.Ioctl.{
  binds_impl, copy_reqs, recv_first, pop_res, push_impl, dispatch, ioctrl, reply_with, early_return,
  binds,
}
use krcore_artifacts.Syscall.Batching.{push_impl-unbatched}
use krcore_artifacts.Syscall.Unchanged.{core}
use krcore_artifacts.Syscall.Invariant.{Follows, open_vq-IsValid}
use krcore_artifacts.Syscall.Reach.{Reaches-Follows, now, after}
use krcore_artifacts.Syscall.Polling.{Polls, pop_msg_impl-Returns}
use krcore_artifacts.Syscall.Binding.{bind_and_release, binds-un_binds}
use krcore_artifacts.Syscall.Reposting.{PostsReceives, requests_from, push_reqs-reposts}

abbrev region : TempMr
region = record { addr = 4096; capacity = 4194304; key = 7 }

abbrev wc : WcPtr
wc i = record { opcode = 0; wr_id = i; status = 0; imm_data = 1 }

-- The world counts the calls of the kernel, and every call succeeds.
abbrev tick : {A : Type 0} → A → Eff ℕ A
tick a w = done (a, w + 1)

-- A kernel with two NICs, whose queue pairs, paths and endpoints are numbers.
abbrev toy : Kernel
toy = record {
  World = ℕ;
  Rc = ℕ;
  Dc = ℕ;
  Ud = ℕ;
  PathRec = ℕ;
  EndPoint = ℕ;
  rc_push_with_imm = λ qp p. tick true;
  rc_wait_til_comp = λ qp. tick (some wc);
  rc_pop = λ qp. tick (some wc);
  rc_remote_mr = λ qp. region;
  dc_push = λ dc p e. tick true;
  ud_push = λ ud p e. tick true;
  ud_wait_til_comp = λ ud. tick (some wc);
  endpoint_mr = λ e. region;
  pa_to_va = λ a. a;
  rctrl_len = 50;
  self_test_mr = λ c. region;
  ctx_lkey = λ c. 7;
  ctx_rkey = λ c. 8;
  get_dc = λ c w. some c;
  get_ud = λ c w. some c;
  get_trc = λ c vid w. none;
  rc_post_recvs = λ c qp n. tick true;
  ud_post_recvs = λ c ud n. tick true;
  ud_post_recv = λ c n. tick true;
  trc_post_recv = λ c vid n. tick true;
  pop_recvs = λ c n offset. tick (some (none, 0));
  is_utf8 = λ s. true;
  parse_guid = λ s. true;
  explore_path = λ c addr port. tick (some 3);
  new_rc = λ c. tick (some 11);
  rc_connect = λ qp vid path port. tick (some qp);
  read_endpoint = λ c addr w. addr;
  test_mem_pa = 4096;
  global_lkey = 7;
  max_kmalloc_sz = 4194304;
  ud_header_sz = 40;
  copy_payload = λ addr size. tick tt;
  copy_wc_to_user = λ i c. tick tt;
  copy_pop_len_to_user = λ n. tick tt;
  copy_reply_to_user = λ s. tick 0;
  poll_all = tick tt;
}

abbrev fresh : Vq toy
fresh = open_vq toy

abbrev linked : Vq toy
linked = record fresh { virtual_queue = some 11; local_connect_port = some 4 }

abbrev send_req : ℕ → CoreReq
send_req i = record { addr = i; length = 8; remote_addr = 64; send_flags = 0; vid = i; type_ = 2 }

-- 100 requests, in two batches.
push_impl-unbatched_example :
    push_impl toy linked false 0 100 send_req 0
    ≡ (recv_first toy linked 0 >>= λ _.
          rc_push_impl toy linked (copy_reqs send_req 0 100) >>= λ ret.
          pop_res toy linked ret false >>= λ ret'. pure (ret', linked))
        0
push_impl-unbatched_example =
    push_impl-unbatched toy 11 region linked send_req false (refl, refl, refl) 0 100 0 (omega arith)

abbrev served : Vq toy
served = record fresh { bind_port = some 3 }

binds_3 : ioctrl toy fresh (binds 3) 0 ≡ done ((record { value = 0; reply = some ok }, served), 1)
unfolding ioctrl early_return dispatch reply_with binds_impl
binds_3 = refl

-- Bound to port 3.
Reaches-Follows_example : Follows toy (core toy fresh) (core toy served)
Reaches-Follows_example =
    Reaches-Follows toy fresh served (open_vq-IsValid toy)
      (after fresh served (binds 3) (record { value = 0; reply = some ok }) 0 1 now binds_3)

toy-Polls : Polls toy
unfolding Returns
toy-Polls = record {
  pops = λ ctrl n offset w. (some (none, 0), w + 1, refl, refl);
  moves = λ addr size w. (tt, w + 1, refl, tt);
  copies = λ i c w. (tt, w + 1, refl, tt);
  counts = λ n w. (tt, w + 1, refl, tt);
}

-- No message ever comes.
pop_msg_impl-Returns_example :
    (s : Status) × (w : ℕ) × (pop_msg_impl toy linked 1 64 0 ≡ done (s, w))
pop_msg_impl-Returns_example = pop_msg_impl-Returns toy toy-Polls linked 1 64 0

binds-un_binds_example :
    bind_and_release toy fresh 3 0 ≡ (pop_recv toy (3 * 2) 2048 0 >>= λ _. pure (ok, ok, fresh)) 0
binds-un_binds_example = binds-un_binds toy fresh 3 0 refl (omega arith)

abbrev two_reqs : List CoreReq
two_reqs = send_req 1 ∷ send_req 13 ∷ []

-- What the two requests leave: both are client 1's.
abbrev pushed_two : Pushed toy
pushed_two = record {
  vq = record served {
    local_cache = record served.local_cache { cached_client_endpoint = (1, 104) ∷ [] };
  };
  cnts = record { rc = no_counts.rc; ud = 0 ∷ 2 ∷ 0 ∷ 0 ∷ 0 ∷ 0 ∷ 0 ∷ 0 ∷ 0 ∷ 0 ∷ 0 ∷ 0 ∷ [] };
  res = ok;
}

pushes_two : push_reqs toy served 6 region no_counts two_reqs 0 ≡ done (pushed_two, 2)
unfolding push_reqs push_one client_endpoint ud_reply op_code_table
pushes_two = refl

-- The kernel whose world is the number of receives that are posted.
abbrev counting : Kernel
counting = record toy {
  ud_push = λ ud p e w. done (true, w);
  explore_path = λ c addr port w. done (some 3, w);
  ud_post_recv = λ c n w. done (true, w + n);
  trc_post_recv = λ c vid n w. done (true, w + n);
  ud_wait_til_comp = λ ud w. done (some wc, w);
  rc_wait_til_comp = λ qp w. done (some wc, w);
}

counting-PostsReceives : PostsReceives counting (λ w. w)
unfolding Leaves
counting-PostsReceives = record {
  ud_posts = λ ctrl cnt w good. refl;
  rc_posts = λ ctrl vid cnt w good. refl;
  ud_waits = λ qp w. refl;
  rc_waits = λ qp w. refl;
}

abbrev counted_vq : Vq counting
counted_vq = record (open_vq counting) {
  local_cache = record (open_vq counting).local_cache { cached_client_endpoint = (1, 104) ∷ [] };
}

abbrev counted_two : Pushed counting
counted_two = record {
  vq = counted_vq;
  cnts = record { rc = no_counts.rc; ud = 0 ∷ 2 ∷ 0 ∷ 0 ∷ 0 ∷ 0 ∷ 0 ∷ 0 ∷ 0 ∷ 0 ∷ 0 ∷ 0 ∷ [] };
  res = ok;
}

counts_two : push_reqs counting counted_vq 6 region no_counts two_reqs 5 ≡ done (counted_two, 5)
unfolding push_reqs push_one client_endpoint ud_reply op_code_table
counts_two = refl

finishes_two : finish_pushed counting 6 true counted_two 5 ≡ done ((ok, counted_vq), 7)
unfolding finish_pushed finish_from ud_finish rc_finish
finishes_two = refl

push_reqs-reposts_example : ◌≡◌ {A = ℕ} 7 (5 + requests_from 11 1 two_reqs)
push_reqs-reposts_example =
    push_reqs-reposts counting (λ w. w) counting-PostsReceives counted_vq counted_vq 6 region
      two_reqs true 5 5 7 counted_two counts_two refl finishes_two

abbrev explored : Vq toy
explored = record fresh {
  local_cache = record fresh.local_cache { path_rec_cache = (49 ∷ [], 3) ∷ [] };
}

explores : explore_path toy fresh 4 (49 ∷ []) 0 ≡ done ((3, explored), 1)
unfolding explore_path
explores = refl
