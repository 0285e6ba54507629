-- ===== src/Services/Explore.antt =====
-- KRdmaKit/src/comm_manager/explorer.rs: a path to another machine, asked of the subnet administrator.
use krcore_artifacts.Prelude.{ℕ, ◌+◌, Option, none, some, List, [], ◌∷◌, ◌==◌, if◌then◌else◌}
use krcore_artifacts.Manager.{Answer, found, failed, Attempt, ok, err, Call, or_fail, ◌>>=◌}

-- `sa_path_rec` of a request, as far as it is set. A gid is a number.
pub record PathRequest : Type 0 where
  pub dgid : ℕ
  pub sgid : ℕ
  pub numb_path : ℕ
  pub service_id : ℕ

-- The subnet administrator's clients, the gids of the device and the parser of a gid. A negative
-- result of a request is `failed`, without its sign. Some answers, each a status and a path, arrive
-- before the wait is over; `timeout` is the error of a wait for a completion that was not signalled.
pub record SubnetAdmin : Type 1 where
  pub World : Type 0
  pub PathRecord : Type 0
  pub parse : List ℕ → Option ℕ
  pub query_gid : ℕ → ℕ → World → Answer
  pub register_client : World → World
  pub unregister_client : World → World
  pub path_rec_get : (source_port : ℕ) → PathRequest → World → Answer × World
  pub answers : World → List (ℕ × PathRecord) × World
  pub timeout : ℕ

-- The `CMError` of an explorer.
pub data ExploreFault : Type 0 where
  invalid_gid timed_out unknown_fault : ExploreFault
  invalid_port not_sent : ℕ → ExploreFault

module _ (sa : SubnetAdmin) where
  -- `Explorer`. The completion is how often it was signalled.
  pub record Explorer : Type 0 where
    pub signalled : ℕ
    pub result : Option sa.PathRecord

  abbrev pub Exploring : Type 0 → Type 0
  Exploring A = Call ExploreFault sa.World A

  unfoldable pub string_to_gid : List ℕ → Exploring ℕ
  string_to_gid gid = or_fail invalid_gid (sa.parse gid)

  abbrev pub path_of : ℕ → sa.PathRecord → Option sa.PathRecord
  path_of status resp = if status == 0 then some resp else none

  abbrev pub explore_complete_handler : ℕ × sa.PathRecord → Explorer → Explorer
  explore_complete_handler (status, resp) e = record {
    signalled = e.signalled + 1;
    result = path_of status resp;
  }

  abbrev pub complete_all : List (ℕ × sa.PathRecord) → Explorer → Explorer
  complete_all [] e = e
  complete_all (a ∷ xs) e = complete_all xs (explore_complete_handler a e)

  abbrev pub source_gid : ℕ → Answer → Exploring ℕ
  source_gid source_port_id (found gid) w = (ok gid, w)
  source_gid source_port_id (failed e) w = (err (invalid_port source_port_id), w)

  abbrev pub requested : Answer × sa.World → Attempt ExploreFault (Unit {0}) × sa.World
  requested (found id, w) = (ok tt, w)
  requested (failed e, w) = (err (not_sent e), w)

  abbrev pub wait_fault : ExploreFault
  wait_fault = if sa.timeout == 0 then timed_out else unknown_fault

  abbrev pub explored :
      Explorer → List (ℕ × sa.PathRecord) × sa.World → Attempt ExploreFault sa.PathRecord × sa.World
  explored e (xs, w) =
      let e1 = complete_all xs e in
      if e1.signalled == 0 then (err wait_fault, w) else or_fail timed_out e1.result w

  -- `resolve_inner` between the making of its client and the drop of that.
  abbrev pub with_client : (service_id source_port_id dst_gid : ℕ) → Exploring sa.PathRecord
  with_client service_id source_port_id dst_gid = do
    sgid ← (λ w. source_gid source_port_id (sa.query_gid source_port_id 0 w) w)
    _ ← (λ w. requested (
        sa.path_rec_get source_port_id
          (record { dgid = dst_gid; sgid = sgid; numb_path = 1; service_id = service_id }) w))
    (λ w. explored (record { signalled = 0; result = none }) (sa.answers w))

  -- `SAClient::drop`, on each return.
  abbrev pub drop_client : {A : Type 0} → A × sa.World → A × sa.World
  drop_client (a, w) = (a, sa.unregister_client w)

  unfoldable pub resolve_inner : (service_id source_port_id dst_gid : ℕ) → Exploring sa.PathRecord
  resolve_inner service_id source_port_id dst_gid w =
      drop_client (with_client service_id source_port_id dst_gid (sa.register_client w))

  unfoldable pub resolve : (service_id source_port_id : ℕ) → List ℕ → Exploring sa.PathRecord
  resolve service_id source_port_id dst_gid = do
    gid ← string_to_gid dst_gid
    resolve_inner service_id source_port_id gid
