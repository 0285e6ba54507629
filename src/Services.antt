-- ===== src/Services.antt =====
-- The kernel's connection manager: KRdmaKit/src/comm_manager/mod.rs, which passes the events of ib_cm
-- on to callbacks, and ConnectionService of KRdmaKit/src/services/mod.rs, which tells clients of the
-- queue pairs that are registered.
pub mod Lifetime
pub mod Registry
pub mod Reliable
pub mod Requests
pub mod Handshake
pub mod Peer
pub mod Established
pub mod Refused
pub mod Outcomes
pub mod Query
pub mod Explore
pub mod Explored
mod Tests
use krcore_artifacts.Prelude.{
  ℕ, Bool, true, false, Option, none, some, if◌then◌else◌, ◌==◌, List, ◌∷◌,
}
use krcore_artifacts.Prelude.Maps.{Map, insert, remove, lookup}
use krcore_artifacts.Manager.{Attempt, ok, err, Call, or_fail, resume, ◌>>=◌}
use krcore_artifacts.Manager.Server.{CmError, callback_error, send_error, invalid_arg}

-- `ib_cm_event_type`
pub data CmEventType : Type 0 where
  req_received rep_received rej_received rtu_received dreq_received sidr_req_received
        sidr_rep_received :
      CmEventType
  other_event : ℕ → CmEventType

-- `CMCallbacker`, on a context of type `S`; `E` is what comes with an event.
pub record CmCallbacker (E S : Type 0) : Type 0 where
  pub handle_req : E → Call CmError S (Unit {0})
  pub handle_rep : E → Call CmError S (Unit {0})
  pub handle_rtu : E → Call CmError S (Unit {0})
  pub handle_rej : E → Call CmError S (Unit {0})
  pub handle_dreq : E → Call CmError S (Unit {0})
  pub handle_sidr_req : E → Call CmError S (Unit {0})
  pub handle_sidr_rep : E → Call CmError S (Unit {0})

-- An `ib_cm_id` with its context: whether the pointer to the context is not null, and the context.
pub record CmId (S : Type 0) : Type 0 where
  pub has_context : Bool
  pub context : S

module _ {E S : Type 0} (c : CmCallbacker E S) where
  -- The `match` of `cm_handler` on the type of the event.
  abbrev pub handle : CmEventType → E → Call CmError S (Unit {0})
  handle req_received e s = c.handle_req e s
  handle rep_received e s = c.handle_rep e s
  handle rej_received e s = c.handle_rej e s
  handle rtu_received e s = c.handle_rtu e s
  handle dreq_received e s = c.handle_dreq e s
  handle sidr_req_received e s = c.handle_sidr_req e s
  handle sidr_rep_received e s = c.handle_sidr_rep e s
  handle (other_event n) e s = (err (callback_error n), s)

  -- Whether the answer is 0, else it is -1; an error sets the pointer to null.
  abbrev pub handled : Attempt CmError (Unit {0}) × S → Bool × CmId S
  handled (ok u, s) = (true, record { has_context = true; context = s })
  handled (err e, s) = (false, record { has_context = false; context = s })

  unfoldable pub cm_handler : CmEventType → E → CmId S → Bool × CmId S
  cm_handler t e id = if id.has_context then handled (handle t e id.context) else (true, id)

-- `CMWrapper::explicit_drop`: whether it destroys the id.
unfoldable pub explicit_drop : {S : Type 0} → CmId S → Bool × CmId S
explicit_drop id = if id.has_context then (true, record id { has_context = false }) else (false, id)

-- What a service asks of a queue pair: `GenerateConnectionReply` and `GetQueuePairInfo`.
pub record QueuePairInfo (Q R : Type 0) : Type 0 where
  pub generate_connection_reply : Q → Option R
  pub get_qkey : Q → ℕ
  pub get_qp_num : Q → ℕ

-- `ib_cm_sidr_rep_param` with the private data: a queue pair's, or IB_SIDR_NO_QP.
pub data SidrReply (R : Type 0) : Type 0 where
  success : (qp_num qkey : ℕ) → R → SidrReply R
  no_qp : SidrReply R

module _ {Q R : Type 0} (info : QueuePairInfo Q R) where
  -- `ConnectionService`
  abbrev pub ConnectionService : Type 0
  ConnectionService = Map Q

  abbrev pub reg_qp : ConnectionService → ℕ → Q → ConnectionService
  reg_qp qps qd_hint qp = insert qd_hint qp qps

  abbrev pub dereg_qp : ConnectionService → ℕ → ConnectionService
  dereg_qp qps qd_hint = remove qd_hint qps

  abbrev pub get_qp : ConnectionService → ℕ → Option Q
  get_qp qps qd_hint = lookup qd_hint qps

  abbrev pub reply_of : Q → Option R → SidrReply R
  reply_of qp none = no_qp
  reply_of qp (some r) = success (info.get_qp_num qp) (info.get_qkey qp) r

  -- `generate_all_reply_data`, and the reply to either of its results.
  abbrev pub reply_to : Option Q → SidrReply R
  reply_to none = no_qp
  reply_to (some qp) = reply_of qp (info.generate_connection_reply qp)

  -- A service with the replies that it has sent, the last one first.
  pub record Serving : Type 0 where
    pub registered_qps : ConnectionService
    pub sent_replies : List (SidrReply R)

  -- `send_sidr_reply`, given what `ib_send_cm_sidr_rep` answers.
  abbrev pub send_sidr_reply : (SidrReply R → ℕ) → SidrReply R → Call CmError Serving (Unit {0})
  send_sidr_reply answer reply s =
      if answer reply == 0
      then (ok tt, record s { sent_replies = reply ∷ s.sent_replies })
      else (err (send_error (answer reply)), s)

  unfoldable pub handle_sidr_req : (SidrReply R → ℕ) → ℕ → Call CmError Serving (Unit {0})
  handle_sidr_req answer qd_hint s =
      send_sidr_reply answer (reply_to (get_qp s.registered_qps qd_hint)) s
