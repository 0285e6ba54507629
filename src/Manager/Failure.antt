-- ===== src/Manager/Failure.antt =====
-- services_user/cm.rs: what a request that fails leaves of the registered queue pairs.
use krcore_artifacts.Prelude.{◌≡◌, refl, Option, none, some, Outcome, done, panic, subst}
use krcore_artifacts.Bringup.Device.{Result, Try, QueuePair}
use krcore_artifacts.Bringup.Build.{build_rc}
use krcore_artifacts.Bringup.Prepared.{bring_up_rc}
use krcore_artifacts.Manager.{
  CmMessageType, reg_rc_req, dereg_rc_req, query_mr_req, reg_rc_res, query_mr_res, error,
  never_send, CmMessage, RcConnectionData, Serde, Answer, found, failed, Host, Attempt, ok, err,
  Call, resume, or_fail, map_err,
}
use krcore_artifacts.Manager.Server.{
  Handler, CmError, creation, dispatch, handle_reg_rc_req, handle_dereg_rc_req, handle_query_mr_req,
  register, on_device, put_world, or_errno, to_mrinfos, remote_builder, reply_data,
}

module _ (h : Host) (s : Serde) (v : Handler h s) where
  -- Whatever the call answers, the queue pairs are those of `v`.
  abbrev Same : {A : Type 0} → Attempt CmError A × Handler h s → Type 0
  Same (a, v') = v'.registered_rc ≡ v.registered_rc

  -- If the call fails, the queue pairs are those of `v`.
  abbrev pub FailsSame : {A : Type 0} → Attempt CmError A × Handler h s → Type 0
  FailsSame (ok a, v') = Unit {0}
  FailsSame (err e, v') = v'.registered_rc ≡ v.registered_rc

  FailsSame-resume :
      {A B : Type 0} (x : Attempt CmError A × Handler h s) (f : A → Call CmError (Handler h s) B)
      → Same x
      → ((a : A) (v1 : Handler h s) → v1.registered_rc ≡ v.registered_rc → FailsSame (f a v1))
      → FailsSame (resume x f)
  FailsSame-resume (ok a, v1) f e k = k a v1 e
  FailsSame-resume (err c, v1) f e k = e

  or_fail-Same :
      {A : Type 0} (e : CmError) (o : Option A) (v1 : Handler h s)
      → v1.registered_rc ≡ v.registered_rc
      → Same (or_fail e o v1)
  or_fail-Same e none v1 q = q
  or_fail-Same e (some a) v1 q = q

  or_errno-Same :
      (a : Answer) (v1 : Handler h s)
      → v1.registered_rc ≡ v.registered_rc
      → Same (or_errno h s a v1)
  or_errno-Same (found n) v1 q = q
  or_errno-Same (failed e) v1 q = q

  on_device-Same :
      {A : Type 0} (e : CmError) (m : Try h.device.World A) (v1 : Handler h s)
      → v1.registered_rc ≡ v.registered_rc
      → Same (on_device h s e m v1)
  on_device-Same {A = A} e m v1 q = go (m v1.world)
    where
      go : (x : Result A × h.device.World) → Same (put_world h s v1 (map_err e x))
      go (Result.ok a, w) = q
      go (Result.err c, w) = q

  module _
      (encodes : (peer : RcConnectionData)
        → (text : s.Text) × (s.data_to_text peer ≡ some text)) where
    register-FailsSame :
        (peer : RcConnectionData) (qp : QueuePair) (v1 : Handler h s)
        → v1.registered_rc ≡ v.registered_rc
        → FailsSame (register h s peer qp v1)
    unfolding register
    register-FailsSame peer qp v1 e =
        FailsSame-resume (or_errno h s (h.get_port_attr v1.port_num v1.world) v1) _
          (or_errno-Same (h.get_port_attr v1.port_num v1.world) v1 e)
          (λ lid v2 e2.
            FailsSame-resume (or_errno h s (h.query_gid v1.port_num 0 v1.world) v2) _
              (or_errno-Same (h.query_gid v1.port_num 0 v1.world) v2 e2)
              (λ gid v3 e3.
                let (text, q) = encodes (reply_data h s qp peer lid gid (h.new_address v1.world)) in
                rw q tt))

    reg-FailsSame : (raw : s.Text) → FailsSame (handle_reg_rc_req h s raw v)
    unfolding handle_reg_rc_req
    reg-FailsSame raw =
        FailsSame-resume (or_fail CmError.invalid_arg (s.text_to_data raw) v) _
          (or_fail-Same _ (s.text_to_data raw) v refl)
          (λ peer v1 e1.
            FailsSame-resume
              (on_device h s (creation 0) (build_rc h.device (remote_builder h s v1.port_num)) v1) _
              (on_device-Same (creation 0) (build_rc h.device (remote_builder h s v1.port_num)) v1
                e1)
              (λ p v2 e2.
                FailsSame-resume
                  (on_device h s (creation 0)
                    (bring_up_rc h.device p peer.lid peer.gid peer.qpn peer.starting_psn) v2)
                  _
                  (on_device-Same (creation 0)
                    (bring_up_rc h.device p peer.lid peer.gid peer.qpn peer.starting_psn) v2 e2)
                  (λ qp v3 e3. register-FailsSame peer qp v3 e3)))

    dereg-FailsSame : (raw : s.Text) → FailsSame (handle_dereg_rc_req h s raw v)
    unfolding handle_dereg_rc_req
    dereg-FailsSame raw =
        FailsSame-resume (or_fail CmError.invalid_arg (s.text_to_key raw) v) _
          (or_fail-Same _ (s.text_to_key raw) v refl) (λ key v1 e1. tt)

    query-FailsSame : (raw : s.Text) → FailsSame (handle_query_mr_req h s raw v)
    unfolding handle_query_mr_req
    query-FailsSame raw =
        FailsSame-resume (or_fail (creation 0) (s.infos_to_text (to_mrinfos v.registered_mr)) v) _
          (or_fail-Same _ (s.infos_to_text (to_mrinfos v.registered_mr)) v refl) (λ text v1 e1. tt)

    -- Of a dispatch that returns.
    abbrev Given : Outcome (Attempt CmError (CmMessage s.Text) × Handler h s) → Type 0
    Given panic = Unit {0}
    Given (done x) = FailsSame x

    dispatch-Given :
        (t : CmMessageType) (raw : s.Text)
        → Given (dispatch h s (record { message_type = t; serialized = raw }) v)
    unfolding dispatch
    dispatch-Given reg_rc_req raw = reg-FailsSame raw
    dispatch-Given dereg_rc_req raw = dereg-FailsSame raw
    dispatch-Given query_mr_req raw = query-FailsSame raw
    dispatch-Given reg_rc_res raw = refl
    dispatch-Given query_mr_res raw = refl
    dispatch-Given error raw = refl
    dispatch-Given never_send raw = refl
    dispatch-Given CmMessageType.user_slot_a raw = tt
    dispatch-Given CmMessageType.user_slot_b raw = tt
    dispatch-Given CmMessageType.user_slot_c raw = tt
    dispatch-Given CmMessageType.user_slot_d raw = tt
    dispatch-Given CmMessageType.user_slot_e raw = tt
    dispatch-Given CmMessageType.user_slot_f raw = tt

    -- Where connection data can always be put into text, a request whose handler answers an error has
    -- registered no queue pair and removed none, whatever the request and whatever the device does.
    pub dispatch-FailsSame :
        (m : CmMessage s.Text) (a : Attempt CmError (CmMessage s.Text)) (v' : Handler h s)
        → dispatch h s m v ≡ done (a, v')
        → FailsSame (a, v')
    dispatch-FailsSame m a v' e = subst Given e (dispatch-Given m.message_type m.serialized)
