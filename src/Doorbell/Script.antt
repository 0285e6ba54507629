-- ===== src/Doorbell/Script.antt =====
-- A client of doorbell_helper.rs: any sequence of postings and flushes, against plain batches.
use krcore_artifacts.Prelude.{
  ℕ, ◌≡◌, refl, sym, ◌∙◌, ap, subst, Option, some, List, [], ◌∷◌, Outcome, done, panic, ◌>>=◌,
  arith, length, ◌==◌, if◌then◌else◌,
}
use krcore_artifacts.Doorbell.{SendWr, Sge, DoorbellHelper, empty}
use krcore_artifacts.Doorbell.Operations.{
  PostSendOp, PostResult, ok, post_send_error, post_send_wr, flush_doorbell,
}
use krcore_artifacts.Doorbell.Chain.{Entry, chain}
use krcore_artifacts.Doorbell.Ring.{IsValid}
use krcore_artifacts.Doorbell.Batch.{batch, length-batch, push}
use krcore_artifacts.Doorbell.Post.{Request, post, entry, post-Posts}
use krcore_artifacts.Doorbell.Flush.{flush_doorbell-Flushes, flush_doorbell-panic}

pub data Command : Type 0 where
  posts : Request → Command
  flushes : Command

pub data Reply : Type 0 where
  posted : ℕ → Reply
  flushed : PostResult → Reply

unfoldable pub call : PostSendOp → DoorbellHelper → Command → Outcome (Reply × DoorbellHelper)
call op d (posts r) = do (n, d') ← post d r; done (posted n, d')
call op d flushes = do (res, d') ← flush_doorbell op d; done (flushed res, d')

abbrev and_then : Reply → Outcome (List Reply) → Outcome (List Reply)
and_then r rest = rest >>= λ rs. done (r ∷ rs)

-- The replies of a sequence of calls; a panic ends the client.
unfoldable pub run : PostSendOp → DoorbellHelper → List Command → Outcome (List Reply)
run op d [] = done []
run op d (c ∷ cs) = do (r, d') ← call op d c; and_then r (run op d' cs)

-- The NIC's answer to a batch.
abbrev pub answered : (List Entry → ℕ) → List Entry → PostResult
answered answer b = let err = answer b in if err == 0 then ok else post_send_error err

-- The specification: a batch that keeps its first `room` operations, and is handed over whole.
unfoldable pub spec_call :
    (List Entry → ℕ) → ℕ → List Entry → Command → Outcome (Reply × List Entry)
spec_call answer room b (posts r) = let b' = push room b (entry r) in done (posted (length b'), b')
spec_call answer room [] flushes = panic
spec_call answer room (e ∷ b) flushes = done (flushed (answered answer (e ∷ b)), [])

unfoldable pub spec_run : (List Entry → ℕ) → ℕ → List Entry → List Command → Outcome (List Reply)
spec_run answer room b [] = done []
spec_run answer room b (c ∷ cs) = do
  (r, b') ← spec_call answer room b c
  and_then r (spec_run answer room b' cs)

-- Documented behaviour of `ibv_post_send`: its answer depends on the requests that it reaches.
abbrev pub ReadsChain : PostSendOp → (List Entry → ℕ) → Type 0
ReadsChain op answer =
    (wrs : List SendWr) (sges : List Sge) (first : Option ℕ) (b : List Entry)
    → chain (length wrs) wrs sges first ≡ some b
    → op wrs sges first ≡ answer b

module _ (op : PostSendOp) (answer : List Entry → ℕ) (nic : ReadsChain op answer) where
  -- One call on a valid helper: it panics if the specification does, or both reply the same.
  abbrev Agrees : ℕ → Outcome (Reply × DoorbellHelper) → Outcome (Reply × List Entry) → Type 0
  Agrees room panic panic = Unit {0}
  Agrees room panic (done y) = ⊥
  Agrees room (done x) panic = ⊥
  Agrees room (done (r, d)) (done (s, b)) =
      (r ≡ s) × IsValid d × (batch d ≡ b) × (d.capacity ≡ room)

  post_send_wr-answered :
      (wrs : List SendWr) (sges : List Sge) (first : Option ℕ) (b : List Entry)
      → chain (length wrs) wrs sges first ≡ some b
      → post_send_wr op wrs sges first ≡ answered answer b
  unfolding post_send_wr
  post_send_wr-answered wrs sges first b h =
      ap (λ err. if err == 0 then ok else post_send_error err) (nic wrs sges first b h)

  flush-Agrees :
      (d : DoorbellHelper) (b : List Entry)
      → IsValid d
      → batch d ≡ b
      → Agrees d.capacity (call op d flushes) (spec_call answer d.capacity b flushes)
  unfolding call spec_call
  flush-Agrees d [] v e =
      rw (flush_doorbell-panic op d v.room (sym (length-batch d v) ∙ ap length e)) tt
  flush-Agrees d (x ∷ b) v e =
      let f = flush_doorbell-Flushes op d v (omega (arith, length-batch d v, ap length e)) in
      let same = post_send_wr-answered f.handed d.sg_list (some 0) (x ∷ b) (f.reads ∙ ap some e) in
      rw f.returns (ap flushed same, f.valid, f.emptied, unfold empty in refl)

  posts-Agrees :
      (d : DoorbellHelper) (r : Request)
      → IsValid d
      → Agrees d.capacity (call op d (posts r)) (spec_call answer d.capacity (batch d) (posts r))
  unfolding call spec_call
  posts-Agrees d r v =
      let p = post-Posts d r v in rw p.returns (refl, p.valid, p.pushed, p.same_room)

  call-Agrees :
      (d : DoorbellHelper) (c : Command)
      → IsValid d
      → Agrees d.capacity (call op d c) (spec_call answer d.capacity (batch d) c)
  call-Agrees d (posts r) v = posts-Agrees d r v
  call-Agrees d flushes v = flush-Agrees d (batch d) v refl

  -- The rest of the run after one call, given that the rests agree on valid helpers.
  rest-eq :
      (room : ℕ) (cs : List Command) (x : Outcome (Reply × DoorbellHelper))
      (y : Outcome (Reply × List Entry))
      → ((d : DoorbellHelper)
          → IsValid d
          → d.capacity ≡ room
          → run op d cs ≡ spec_run answer room (batch d) cs)
      → Agrees room x y
      → (x >>= λ (r, d'). and_then r (run op d' cs))
        ≡ (y >>= λ (r, b'). and_then r (spec_run answer room b' cs))
  rest-eq room cs panic panic ih a = refl
  rest-eq room cs panic (done y) ih a = absurd a
  rest-eq room cs (done x) panic ih a = absurd a
  rest-eq room cs (done (r, d)) (done (s, b)) ih a =
      let same = ih d a.1 a.3 ∙ ap (λ l. spec_run answer room l cs) a.2 in
      ap (λ q. and_then q (run op d cs)) a.0 ∙ ap (and_then s) same

  -- If the NIC's answer depends only on the requests that it reaches, then no sequence of postings
  -- and flushes tells a valid helper from the specification at its capacity and batch: every reply is
  -- the same, and both panic at the same call or at none.
  pub run_refines :
      (cs : List Command) (room : ℕ) (d : DoorbellHelper)
      → IsValid d
      → d.capacity ≡ room
      → run op d cs ≡ spec_run answer room (batch d) cs
  unfolding run spec_run
  run_refines [] room d v e = refl
  run_refines (c ∷ cs) room d v e =
      rest-eq room cs (call op d c) (spec_call answer room (batch d) c)
        (λ d' v' e'. run_refines cs room d' v' e')
        (subst (λ k. Agrees k (call op d c) (spec_call answer k (batch d) c)) e (call-Agrees d c v))
