-- ===== src/Manager/Tests.antt =====
-- A client and a server of the connection manager on two small hosts, and the theorems applied there.
-- A text is a list of numbers, which is written as it is.
use krcore_artifacts.Prelude.{
  ℕ, zero, suc, ◌≡◌, refl, [], ◌∷◌, List, Option, none, some, done, arith, if◌then◌else◌,
}
use krcore_artifacts.Prelude.Maps.{insert}
use krcore_artifacts.Bringup.Builder.{new_builder}
use krcore_artifacts.Bringup.Device.{rc, IbState, ib_reset, Device, Result, QueuePair}
use krcore_artifacts.Bringup.Build.{PreparedQueuePair, build_inner, build_rc, build, create_cq}
use krcore_artifacts.Bringup.Verbs.{accepts, FollowsVerbs}
use krcore_artifacts.Manager.{
  CmMessageType, reg_rc_req, dereg_rc_req, query_mr_req, reg_rc_res, query_mr_res, error,
  never_send, user_slot_a, user_slot_b, user_slot_c, user_slot_d, user_slot_e, user_slot_f,
  CmMessage, RcConnectionData, MrInfo, Serde, found, Host, ok, err,
}
use krcore_artifacts.Manager.Server.{
  Handler, invalid_arg, dispatch, remote_builder, handle_reg_rc_req,
}
use krcore_artifacts.Manager.Client.{Client, dereg}
use krcore_artifacts.Manager.Line.{line_to, Encodes}
use krcore_artifacts.Manager.Link.{Linked, handshake-Linked}
use krcore_artifacts.Manager.Service.{dereg-unregisters}
use krcore_artifacts.Manager.Failure.{FailsSame, dispatch-FailsSame}

-- A device whose world is the state of its queue pair, with the number `qpn`.
abbrev nic : ℕ → Device
nic qpn = record {
  World = IbState;
  create_cq = λ entries w. (some 1, w);
  create_qp = λ attr w. (some qpn, ib_reset);
  qp_num = λ qp. qp;
  destroy_qp = λ qp w. w;
  query_qp = λ qp w. (0, w);
  modify_qp = λ qp a mask w. if accepts rc w a.qp_state mask then (0, a.qp_state) else (22, w);
  eagain = 11;
  einval = 22;
}

nic-FollowsVerbs : (n qp : ℕ) → FollowsVerbs (nic n) rc qp (λ w. w)
nic-FollowsVerbs n qp = record {
  queries = λ w. refl;
  moves = λ a mask w good. (a.qp_state, rw good, refl);
}

abbrev host : ℕ → Host
host qpn = record {
  device = nic qpn;
  get_port_attr = λ port w. found 3;
  query_gid = λ port i w. found 9;
  new_address = λ w. 4096;
}

abbrev code : CmMessageType → ℕ
code reg_rc_req = 0
code dereg_rc_req = 1
code query_mr_req = 2
code reg_rc_res = 3
code query_mr_res = 4
code error = 5
code never_send = 6
code user_slot_a = 7
code user_slot_b = 8
code user_slot_c = 9
code user_slot_d = 10
code user_slot_e = 11
code user_slot_f = 12

abbrev of_code : ℕ → Option CmMessageType
of_code zero = some reg_rc_req
of_code (suc zero) = some dereg_rc_req
of_code (suc (suc zero)) = some query_mr_req
of_code (suc (suc (suc zero))) = some reg_rc_res
of_code (suc (suc (suc (suc zero)))) = some query_mr_res
of_code _ = none

abbrev of_numbers : List ℕ → Option RcConnectionData
of_numbers (a ∷ b ∷ c ∷ d ∷ e ∷ f ∷ []) =
    some (record { lid = a; gid = b; qpn = c; starting_psn = d; rnr_retry_count = e; rc_key = f })
of_numbers _ = none

abbrev key_of : List ℕ → Option ℕ
key_of (k ∷ []) = some k
key_of _ = none

abbrev with_text : List ℕ → Option CmMessageType → Option (CmMessage (List ℕ))
with_text text none = none
with_text text (some t) = some (record { message_type = t; serialized = text })

abbrev message_of : List ℕ → Option (CmMessage (List ℕ))
message_of [] = none
message_of (t ∷ text) = with_text text (of_code t)

-- Of regions with the empty name.
abbrev of_infos : List (List ℕ × MrInfo) → List ℕ
of_infos [] = []
of_infos ((name, i) ∷ infos) = i.addr ∷ i.capacity ∷ i.rkey ∷ of_infos infos

abbrev with_info : MrInfo → Option (List (List ℕ × MrInfo)) → Option (List (List ℕ × MrInfo))
with_info i none = none
with_info i (some infos) = some (([], i) ∷ infos)

abbrev to_infos : List ℕ → Option (List (List ℕ × MrInfo))
to_infos [] = some []
to_infos (a ∷ b ∷ c ∷ ns) = with_info (record { addr = a; capacity = b; rkey = c }) (to_infos ns)
to_infos _ = none

abbrev plain : Serde
plain = record {
  Text = List ℕ;
  empty_text = [];
  data_to_text =
      λ c. some (c.lid ∷ c.gid ∷ c.qpn ∷ c.starting_psn ∷ c.rnr_retry_count ∷ c.rc_key ∷ []);
  text_to_data = of_numbers;
  key_to_text = λ k. some (k ∷ []);
  text_to_key = key_of;
  infos_to_text = λ infos. some (of_infos infos);
  text_to_infos = to_infos;
  message_to_bytes = λ m. some (code m.message_type ∷ m.serialized);
  bytes_to_message = message_of;
}

-- The client's queue pair has the number 5 and the server's 8.
abbrev client_pair : PreparedQueuePair
client_pair = build_inner (nic 5) new_builder 1 1 rc 5

abbrev server_pair : PreparedQueuePair
server_pair = build_inner (nic 8) (remote_builder (host 8) plain 1) 1 1 rc 8

abbrev server : Handler (host 8) plain
server = record {
  registered_rc = [];
  registered_mr = ([], record { virt_addr = 8192; capacity = 64; rkey = 6 }) ∷ [];
  port_num = 1;
  world = ib_reset;
}

abbrev client : Client (host 5) plain (line_to (host 8) plain 77)
client = record { world = ib_reset; stream = record { handler = server; inbox = [] } }

encodes : (t : CmMessageType) (c : RcConnectionData) → of_code (code t) ≡ some t → Encodes plain t c
encodes t c e = record {
  text = c.lid ∷ c.gid ∷ c.qpn ∷ c.starting_psn ∷ c.rnr_retry_count ∷ c.rc_key ∷ [];
  bytes = code t ∷ c.lid ∷ c.gid ∷ c.qpn ∷ c.starting_psn ∷ c.rnr_retry_count ∷ c.rc_key ∷ [];
  to_text = refl;
  of_text = refl;
  to_bytes = refl;
  of_bytes = rw e;
  some_bytes = omega arith;
  fits = omega arith;
}

built :
    build_rc (nic 8) (remote_builder (host 8) plain 1) ib_reset ≡ (Result.ok server_pair, ib_reset)
unfolding build_rc build create_cq
built = refl

handshake-Linked_example :
    Linked (host 5) (host 8) plain 77 client_pair server_pair ib_reset 3 9 3 9 client
handshake-Linked_example =
    handshake-Linked (host 5) (host 8) plain 77 client_pair server_pair client ib_reset 3 9 3 9
      (λ w. w) (λ w. w) refl (nic-FollowsVerbs 5 5) refl refl (nic-FollowsVerbs 8 8) refl built refl
      refl (λ w. refl) (λ w. refl) (encodes reg_rc_req _ refl) (λ w. encodes reg_rc_res _ refl)

-- The client's queue pair with what the handshake left in it, and the server with its own.
abbrev linked_pair : QueuePair
linked_pair = record client_pair.inner {
  comm = some (record { qp_type = rc; addr = 77; key = 4096 });
}

abbrev linked_client : Client (host 5) plain (line_to (host 8) plain 77)
linked_client = record client {
  stream = record {
    handler = record server { registered_rc = insert 4096 server_pair.inner [] };
    inbox = [];
  };
}

dereg-unregisters_example :
    (c' : Client (host 5) plain (line_to (host 8) plain 77)) × (dereg
        (host 5)
        plain
        (line_to (host 8) plain 77)
        linked_pair
        linked_client
      ≡ (ok tt, c'))
    × (c'.stream.handler.registered_rc ≡ [])
dereg-unregisters_example =
    dereg-unregisters (host 5) (host 8) plain 77 linked_client linked_pair 4096 refl
      server_pair.inner [] (4096 ∷ []) refl refl
      (record {
        bytes = 1 ∷ 4096 ∷ [];
        to_bytes = refl;
        of_bytes = refl;
        some_bytes = omega arith;
        fits = omega arith;
      })
      refl refl

-- A request with no connection data in it.
abbrev garbled : CmMessage (List ℕ)
garbled = record { message_type = reg_rc_req; serialized = 1 ∷ [] }

garbled-dispatch : dispatch (host 8) plain garbled server ≡ done (err invalid_arg, server)
unfolding dispatch handle_reg_rc_req
garbled-dispatch = refl

dispatch-FailsSame_example :
    FailsSame (host 8) plain server {A = CmMessage (List ℕ)} (err invalid_arg, server)
dispatch-FailsSame_example =
    dispatch-FailsSame (host 8) plain server (λ c. (_, refl)) garbled (err invalid_arg) server
      garbled-dispatch
