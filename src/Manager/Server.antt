-- ===== src/Manager/Server.antt =====
-- services_user/mod.rs and cm.rs: the handlers of the default connection manager, and the service
-- that reads messages off a stream and answers them.
use krcore_artifacts.Prelude.{
  ℕ, [], ◌∷◌, List, Bool, true, false, Option, none, some, Outcome, done, panic, take,
  if◌then◌else◌,
}
use krcore_artifacts.Prelude.Maps.{Map, insert, remove}
use krcore_artifacts.Bringup.Builder.{
  QueuePairBuilder, new_builder, set_port_num, allow_remote_rw, allow_remote_atomic,
}
use krcore_artifacts.Bringup.Device.{QueuePair, Try}
use krcore_artifacts.Bringup.Build.{build_rc}
use krcore_artifacts.Bringup.Prepared.{bring_up_rc}
use krcore_artifacts.Manager.{
  CmMessageType, reg_rc_req, dereg_rc_req, query_mr_req, reg_rc_res, query_mr_res, error,
  never_send, user_slot_a, user_slot_b, user_slot_c, user_slot_d, user_slot_e, user_slot_f,
  CmMessage, RcConnectionData, MrInfo, Serde, Answer, found, failed, Host, Attempt, ok, err, Call,
  pure, ◌>>=◌, look, or_fail, map_err,
}

abbrev pub should_send_back : CmMessageType → Bool
should_send_back never_send = false
should_send_back _ = true

-- `CMError`, as far as it arises here and in the kernel's services.
pub data CmError : Type 0 where
  creation : ℕ → CmError
  callback_error : ℕ → CmError
  send_error : ℕ → CmError
  invalid_arg : CmError

-- A registered `MemoryRegion`, as far as its information is asked for.
pub record Region : Type 0 where
  pub virt_addr : ℕ
  pub capacity : ℕ
  pub rkey : ℕ

-- `MRInfo::from`
abbrev pub info_from : Region → MrInfo
info_from mr = record { addr = mr.virt_addr; capacity = mr.capacity; rkey = mr.rkey }

-- `to_mrinfos`
abbrev pub to_mrinfos : {Text : Type 0} → List (Text × Region) → List (Text × MrInfo)
to_mrinfos [] = []
to_mrinfos ((k, mr) ∷ mrs) = (k, info_from mr) ∷ to_mrinfos mrs

module _ (h : Host) (s : Serde) where
  -- `DefaultConnectionManagerHandler`, with the state of the device.
  pub record Handler : Type 0 where
    pub registered_rc : Map QueuePair
    pub registered_mr : List (s.Text × Region)
    pub port_num : ℕ
    pub world : h.device.World

  abbrev pub Message : Type 0
  Message = CmMessage s.Text

  abbrev pub Handle : Type 0 → Type 0
  Handle A = Call CmError Handler A

  abbrev pub put_world : {A : Type 0} → Handler → A × h.device.World → A × Handler
  put_world v (a, w) = (a, record v { world = w })

  -- A call of the device, and its error as this one.
  abbrev pub on_device : {A : Type 0} → CmError → Try h.device.World A → Handle A
  on_device e m v = put_world v (map_err e (m v.world))

  abbrev pub new_address : Handle ℕ
  new_address v = (ok (h.new_address v.world), v)

  -- `.map_err(|err| CMError::Creation(err.to_kernel_errno()))?`
  abbrev pub or_errno : Answer → Handle ℕ
  or_errno (found n) v = (ok n, v)
  or_errno (failed e) v = (err (creation e), v)

  -- The builder of a queue pair that a client may write to, read from and use atomics on.
  abbrev pub remote_builder : ℕ → QueuePairBuilder
  remote_builder port = allow_remote_atomic (allow_remote_rw (set_port_num new_builder port))

  abbrev pub reply_data : QueuePair → RcConnectionData → ℕ → ℕ → ℕ → RcConnectionData
  reply_data qp peer lid gid key = record {
    lid = lid;
    gid = gid;
    qpn = h.device.qp_num qp.inner_qp;
    starting_psn = h.device.qp_num qp.inner_qp;
    rnr_retry_count = peer.rnr_retry_count;
    rc_key = key;
  }

  -- The rest of `handle_reg_rc_req`, with the queue pair brought up.
  unfoldable pub register : RcConnectionData → QueuePair → Handle Message
  register peer qp = do
    key ← new_address
    v ← look (λ v. v)
    lid ← or_errno (h.get_port_attr v.port_num v.world)
    gid ← or_errno (h.query_gid v.port_num 0 v.world)
    _ ← (λ v1. (ok tt, record v1 { registered_rc = insert key qp v1.registered_rc }))
    text ← or_fail (creation 0) (s.data_to_text (reply_data qp peer lid gid key))
    pure (record { message_type = reg_rc_res; serialized = text })

  unfoldable pub handle_reg_rc_req : s.Text → Handle Message
  handle_reg_rc_req raw = do
    peer ← or_fail invalid_arg (s.text_to_data raw)
    v ← look (λ v. v)
    p ← on_device (creation 0) (build_rc h.device (remote_builder v.port_num))
    qp ←
        on_device (creation 0) (bring_up_rc h.device p peer.lid peer.gid peer.qpn peer.starting_psn)
    register peer qp

  abbrev pub deregister : ℕ → Handle (Unit {0})
  deregister key v = (ok tt, record v { registered_rc = remove key v.registered_rc })

  unfoldable pub handle_dereg_rc_req : s.Text → Handle Message
  handle_dereg_rc_req raw = do
    key ← or_fail invalid_arg (s.text_to_key raw)
    _ ← deregister key
    pure (record { message_type = never_send; serialized = s.empty_text })

  unfoldable pub handle_query_mr_req : s.Text → Handle Message
  handle_query_mr_req raw = do
    v ← look (λ v. v)
    text ← or_fail (creation 0) (s.infos_to_text (to_mrinfos v.registered_mr))
    pure (record { message_type = query_mr_res; serialized = text })

  -- The `match` on the type of a message. The default handler leaves the user's slots
  -- `unimplemented!()`, and other types are refused.
  unfoldable pub dispatch : Message → Handler → Outcome (Attempt CmError Message × Handler)
  dispatch m v = elim m.message_type [
    | reg_rc_req ↦ done (handle_reg_rc_req m.serialized v)
    | dereg_rc_req ↦ done (handle_dereg_rc_req m.serialized v)
    | query_mr_req ↦ done (handle_query_mr_req m.serialized v)
    | user_slot_a ↦ panic
    | user_slot_b ↦ panic
    | user_slot_c ↦ panic
    | user_slot_d ↦ panic
    | user_slot_e ↦ panic
    | user_slot_f ↦ panic
    | _ ↦ done (err (creation 0), v)
  ]

  -- `CMMessage::Error()`
  abbrev pub error_message : Message
  error_message = record { message_type = error; serialized = s.empty_text }

  -- `.unwrap_or(CMMessage::Error())`
  abbrev pub answer_of : Attempt CmError Message → Message
  answer_of (ok m) = m
  answer_of (err e) = error_message

  -- What a round of `service_handler` does with the stream: it writes a reply, or nothing, or ends.
  pub data Served : Type 0 where
    replied : List ℕ → Served
    silent : Served
    closed : Served

  -- `serialization`, which unwraps.
  abbrev pub written : Option (List ℕ) → Handler → Outcome (Served × Handler)
  written none v = panic
  written (some bytes) v = done (replied bytes, v)

  -- `then_send_async`, on a stream that takes what is written.
  unfoldable pub then_send : Message → Handler → Outcome (Served × Handler)
  then_send m v =
      if should_send_back m.message_type then written (s.message_to_bytes m) v else done (silent, v)

  abbrev pub send_answer : Outcome (Attempt CmError Message × Handler) → Outcome (Served × Handler)
  send_answer panic = panic
  send_answer (done (a, v)) = then_send (answer_of a) v

  abbrev pub serve_parsed : Option Message → Handler → Outcome (Served × Handler)
  serve_parsed none v = done (closed, v)
  serve_parsed (some m) v = send_answer (dispatch m v)

  -- One round of the loop of `service_handler`, of which the client has written `bytes`: the buffer
  -- takes 2048 of them.
  unfoldable pub serve : List ℕ → Handler → Outcome (Served × Handler)
  serve [] v = done (closed, v)
  serve (b ∷ bs) v = serve_parsed (s.bytes_to_message (take 2048 (b ∷ bs))) v
