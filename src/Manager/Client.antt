-- ===== src/Manager/Client.antt =====
-- handshake_user.rs: what a client asks of a connection manager over a stream.
use krcore_artifacts.Prelude.{ℕ, Bool, true, false, Option, none, some, List, if◌then◌else◌}
use krcore_artifacts.Bringup.Device.{rc, QueuePair, CommStruct, Try}
use krcore_artifacts.Bringup.Build.{PreparedQueuePair}
use krcore_artifacts.Bringup.Prepared.{is_type, bring_up_rc_inner}
use krcore_artifacts.Manager.{
  CmMessageType, reg_rc_req, dereg_rc_req, query_mr_req, reg_rc_res, query_mr_res, CmMessage,
  RcConnectionData, MrInfo, Serde, Answer, found, failed, Host, ok, err, Call, pure, fail, resume,
  ◌>>=◌, look, or_fail, map_err,
}
use krcore_artifacts.Manager.Server.{should_send_back}

-- The stream to a server, as the library has it: connecting and writing succeed or not, and a read
-- gets at most so many bytes as its buffer takes.
pub record Net : Type 1 where
  pub Stream : Type 0
  pub connect : ℕ → Stream → Bool × Stream
  pub write : List ℕ → Stream → Bool × Stream
  pub read : ℕ → Stream → Option (List ℕ) × Stream

-- What a `ControlpathError` of these calls is about.
pub data Reason : Type 0 where
  not_rc connecting querying_lid querying_gid serializing writing reading deserializing
        response_type deserializing_data bringing_up no_comm :
      Reason

-- Why a call stops: with an error, or with a panic.
pub data Stop : Type 0 where
  control_error : Reason → Stop
  panics : Stop

abbrev pub is_reg_rc_res : CmMessageType → Bool
is_reg_rc_res reg_rc_res = true
is_reg_rc_res _ = false

abbrev pub is_query_mr_res : CmMessageType → Bool
is_query_mr_res query_mr_res = true
is_query_mr_res _ = false

module _ (h : Host) (s : Serde) (n : Net) where
  pub record Client : Type 0 where
    pub world : h.device.World
    pub stream : n.Stream

  abbrev pub Ask : Type 0 → Type 0
  Ask A = Call Stop Client A

  abbrev pub or_control_error : {A : Type 0} → Reason → Option A → Ask A
  or_control_error r o = or_fail (control_error r) o

  abbrev pub check : Reason → Bool → Ask (Unit {0})
  check r b c = if b then (ok tt, c) else (err (control_error r), c)

  abbrev pub connected : Bool × n.Stream → Ask (Unit {0})
  connected (b, stream) c = check connecting b (record c { stream = stream })

  -- `TcpStream::connect`
  abbrev pub connect : ℕ → Ask (Unit {0})
  connect addr c = connected (n.connect addr c.stream) c

  abbrev pub wrote : Bool × n.Stream → Ask (Unit {0})
  wrote (b, stream) c = check writing b (record c { stream = stream })

  -- `then_send_sync`, with its error as the caller's.
  unfoldable pub then_send_sync : CmMessage s.Text → Ask (Unit {0})
  then_send_sync m =
      if should_send_back m.message_type
      then (do
        bytes ← or_fail panics (s.message_to_bytes m)
        c ← look (λ c. c)
        wrote (n.write bytes c.stream))
      else pure tt

  abbrev pub got : Option (List ℕ) × n.Stream → Ask (List ℕ)
  got (none, stream) c = (err (control_error reading), record c { stream = stream })
  got (some bytes, stream) c = (ok bytes, record c { stream = stream })

  -- The answer of the server, in a buffer of 1024 bytes, and its message.
  unfoldable pub receive : Ask (CmMessage s.Text)
  receive = do
    c ← look (λ c. c)
    bytes ← got (n.read 1024 c.stream)
    or_control_error deserializing (s.bytes_to_message bytes)

  abbrev pub or_query_error : Reason → Answer → Ask ℕ
  or_query_error r (found a) c = (ok a, c)
  or_query_error r (failed e) c = (err (control_error r), c)

  abbrev pub put_world : {A : Type 0} → Client → A × h.device.World → A × Client
  put_world c (a, w) = (a, record c { world = w })

  abbrev pub on_device : {A : Type 0} → Reason → Try h.device.World A → Ask A
  on_device r m c = put_world c (map_err (control_error r) (m c.world))

  abbrev pub request_data : PreparedQueuePair → ℕ → ℕ → RcConnectionData
  request_data p lid gid = record {
    lid = lid;
    gid = gid;
    qpn = h.device.qp_num p.inner.inner_qp;
    starting_psn = h.device.qp_num p.inner.inner_qp;
    rnr_retry_count = p.retry_count;
    rc_key = 0;
  }

  -- `handshake`, with the connection data of the server.
  unfoldable pub accept_peer : PreparedQueuePair → ℕ → RcConnectionData → Ask QueuePair
  accept_peer p addr peer = do
    _ ←
        on_device bringing_up
          (bring_up_rc_inner h.device p.inner peer.lid peer.gid peer.qpn peer.starting_psn)
    pure (record p.inner { comm = some (record { qp_type = rc; addr = addr; key = peer.rc_key }) })

  -- `handshake`, connected: the request and its answer.
  unfoldable pub exchange : PreparedQueuePair → Ask RcConnectionData
  exchange p = do
    c ← look (λ c. c)
    lid ← or_query_error querying_lid (h.get_port_attr p.port_num c.world)
    gid ← or_query_error querying_gid (h.query_gid p.port_num 0 c.world)
    text ← or_control_error serializing (s.data_to_text (request_data p lid gid))
    _ ← then_send_sync (record { message_type = reg_rc_req; serialized = text })
    m ← receive
    _ ← check response_type (is_reg_rc_res m.message_type)
    or_control_error deserializing_data (s.text_to_data m.serialized)

  unfoldable pub handshake : PreparedQueuePair → ℕ → Ask QueuePair
  handshake p addr =
      if is_type p.inner.mode rc
      then (do _ ← connect addr; peer ← exchange p; accept_peer p addr peer)
      else fail (control_error not_rc)

  -- The last part of `dereg`: the result of the write is not looked at.
  abbrev pub write_any : Option (List ℕ) → Ask (Unit {0})
  write_any none c = (ok tt, c)
  write_any (some bytes) c =
      let (b, stream) = n.write bytes c.stream in (ok tt, record c { stream = stream })

  abbrev pub dereg_connected : ℕ → Bool × n.Stream → Ask (Unit {0})
  dereg_connected key (false, stream) c = (ok tt, record c { stream = stream })
  dereg_connected key (true, stream) c =
      resume (or_fail panics (s.key_to_text key) (record c { stream = stream })) (λ text.
        write_any (s.message_to_bytes (record { message_type = dereg_rc_req; serialized = text })))

  abbrev pub dereg_comm : Option CommStruct → Ask (Unit {0})
  dereg_comm none c = (ok tt, c)
  dereg_comm (some comm) c =
      if is_type comm.qp_type rc
      then dereg_connected comm.key (n.connect comm.addr c.stream) c
      else (err panics, c)

  -- `dereg`, of a queue pair that is dropped.
  unfoldable pub dereg : QueuePair → Ask (Unit {0})
  dereg qp = dereg_comm qp.comm

  unfoldable pub query_mr_info : QueuePair → Ask (List (s.Text × MrInfo))
  query_mr_info qp = do
    comm ← or_control_error no_comm qp.comm
    _ ← connect comm.addr
    _ ← then_send_sync (record { message_type = query_mr_req; serialized = s.empty_text })
    m ← receive
    _ ← check response_type (is_query_mr_res m.message_type)
    or_control_error deserializing_data (s.text_to_infos m.serialized)
