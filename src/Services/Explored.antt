-- ===== src/Services/Explored.antt =====
-- explorer.rs: what an explorer answers, and the clients that it leaves.
use krcore_artifacts.Prelude.{
  ℕ, ◌+◌, ◌≡◌, refl, ◌∙◌, Option, none, some, List, [], ◌∷◌, ◌==◌, if◌then◌else◌, Bool-cases, inl,
  inr, ◌++◌, false, arith,
}
use krcore_artifacts.Manager.{Answer, found, failed, Attempt, ok, err, resume, or_fail}
use krcore_artifacts.Services.Explore.{
  PathRequest, SubnetAdmin, ExploreFault, timed_out, Explorer, Exploring, explore_complete_handler,
  complete_all, source_gid, requested, explored, with_client, resolve_inner,
}

-- What is documented of the subnet administrator: `clients` counts those that are registered, and only
-- registering and unregistering one changes it.
pub record Counts (sa : SubnetAdmin) : Type 0 where
  pub clients : sa.World → ℕ
  pub registers : (w : sa.World) → clients (sa.register_client w) ≡ clients w + 1
  pub unregisters : (w : sa.World) → clients (sa.unregister_client w) + 1 ≡ clients w
  pub asks :
      (port : ℕ) (r : PathRequest) (w : sa.World) → clients (sa.path_rec_get port r w).1 ≡ clients w
  pub waits : (w : sa.World) → clients (sa.answers w).1 ≡ clients w

module _ (sa : SubnetAdmin) (k : Counts sa) where
  abbrev Keeps : {A : Type 0} → sa.World → A × sa.World → Type 0
  Keeps w (a, w1) = k.clients w1 ≡ k.clients w

  resume-Keeps :
      {A B : Type 0} (w : sa.World) (x : Attempt ExploreFault A × sa.World) (f : A → Exploring sa B)
      → Keeps w x
      → ((a : A) (w1 : sa.World) → k.clients w1 ≡ k.clients w → Keeps w (f a w1))
      → Keeps w (resume x f)
  resume-Keeps w (ok a, w1) f e n = n a w1 e
  resume-Keeps w (err c, w1) f e n = e

  source-Keeps : (port : ℕ) (a : Answer) (w : sa.World) → Keeps w (source_gid sa port a w)
  source-Keeps port (found gid) w = refl
  source-Keeps port (failed e) w = refl

  requested-Keeps : (w : sa.World) (x : Answer × sa.World) → Keeps w x → Keeps w (requested sa x)
  requested-Keeps w (found i, w1) e = e
  requested-Keeps w (failed c, w1) e = e

  taken-Keeps :
      (w w1 : sa.World) (p : Option sa.PathRecord)
      → k.clients w1 ≡ k.clients w
      → Keeps w (or_fail timed_out p w1)
  taken-Keeps w w1 none e = e
  taken-Keeps w w1 (some p) e = e

  explored-Keeps :
      (w : sa.World) (x : Explorer sa) (xs : List (ℕ × sa.PathRecord)) (w1 : sa.World)
      → k.clients w1 ≡ k.clients w
      → Keeps w (explored sa x (xs, w1))
  explored-Keeps w x xs w1 e = elim (Bool-cases ((complete_all sa xs x).signalled == 0)) [
    | inl q ↦ rw q e
    | inr q ↦ rw q (taken-Keeps w w1 (complete_all sa xs x).result e)
  ]

  with_client-Keeps : (sid port gid : ℕ) (w : sa.World) → Keeps w (with_client sa sid port gid w)
  with_client-Keeps sid port gid w =
      resume-Keeps w (source_gid sa port (sa.query_gid port 0 w) w) _
        (source-Keeps port (sa.query_gid port 0 w) w)
        (λ sgid w1 e1.
          let req : PathRequest = record {
            dgid = gid;
            sgid = sgid;
            numb_path = 1;
            service_id = sid;
          } in
          resume-Keeps w (requested sa (sa.path_rec_get port req w1)) _
            (requested-Keeps w (sa.path_rec_get port req w1) (k.asks port req w1 ∙ e1))
            (λ u w2 e2.
              explored-Keeps w (record { signalled = 0; result = none }) (sa.answers w2).0
                (sa.answers w2).1 (k.waits w2 ∙ e2)))

  -- Whatever the subnet administrator answers, and whether or not a path is found: after `resolve_inner`
  -- as many clients are registered as before.
  pub resolve_inner-Keeps :
      (sid port gid : ℕ) (w : sa.World) → Keeps w (resolve_inner sa sid port gid w)
  unfolding resolve_inner
  resolve_inner-Keeps sid port gid w =
      let w1 = sa.register_client w in
      let e = with_client-Keeps sid port gid w1 in
      let r = k.registers w in
      let u = k.unregisters (with_client sa sid port gid w1).1 in omega arith

  complete_all-++ :
      (xs : List (ℕ × sa.PathRecord)) (a : ℕ × sa.PathRecord) (x : Explorer sa)
      → complete_all sa (xs ++ a ∷ []) x ≡ explore_complete_handler sa a (complete_all sa xs x)
  complete_all-++ [] a x = refl
  complete_all-++ (b ∷ xs) a x = complete_all-++ xs a (explore_complete_handler sa b x)

  -- What a wait answers: the path of the last answer, if that succeeded.
  pub explored-last :
      (xs : List (ℕ × sa.PathRecord)) (status : ℕ) (p : sa.PathRecord) (x : Explorer sa)
      (w : sa.World)
      → explored sa x (xs ++ (status, p) ∷ [], w)
        ≡ (if status == 0 then (ok p, w) else (err timed_out, w))
  explored-last xs status p x w =
      let n = (complete_all sa xs x).signalled in
      let some_signal : (n + 1 == 0) ≡ false = ground arith in
      rw (complete_all-++ xs (status, p) x) (elim (Bool-cases (status == 0)) [
        | inl q ↦ rw (q, some_signal) refl
        | inr q ↦ rw (q, some_signal) refl
      ])
