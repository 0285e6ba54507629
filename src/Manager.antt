-- ===== src/Manager.antt =====
-- The user-space connection manager: KRdmaKit/src/services_user/{mod,cm}.rs and
-- KRdmaKit/src/queue_pairs/handshake_user.rs. A client and a server exchange messages over a stream
-- to connect two RC queue pairs. The library that puts data into text is a parameter, and so is what
-- a host is asked besides the verbs.
pub mod Server
pub mod Client
pub mod Line
pub mod Link
pub mod Service
pub mod Failure
mod Tests
use krcore_artifacts.Prelude.{ℕ, ◌≤◌, ◌≡◌, Bool, true, false, Option, none, some, List, length}
use krcore_artifacts.Bringup.Device.{Device, Result, Try}

-- `CMMessageType`
pub data CmMessageType : Type 0 where
  reg_rc_req dereg_rc_req query_mr_req reg_rc_res query_mr_res error never_send user_slot_a
        user_slot_b user_slot_c user_slot_d user_slot_e user_slot_f :
      CmMessageType

-- `CMMessage`
pub record CmMessage (Text : Type 0) : Type 0 where
  pub message_type : CmMessageType
  pub serialized : Text

-- `RCConnectionData`. A gid is a number, also in its wrapper.
pub record RcConnectionData : Type 0 where
  pub lid : ℕ
  pub gid : ℕ
  pub qpn : ℕ
  pub starting_psn : ℕ
  pub rnr_retry_count : ℕ
  pub rc_key : ℕ

-- `MRInfo`
pub record MrInfo : Type 0 where
  pub addr : ℕ
  pub capacity : ℕ
  pub rkey : ℕ

-- `serde_json` on the types that are exchanged. A failure is `none`.
pub record Serde : Type 1 where
  pub Text : Type 0
  pub empty_text : Text
  pub data_to_text : RcConnectionData → Option Text
  pub text_to_data : Text → Option RcConnectionData
  pub key_to_text : ℕ → Option Text
  pub text_to_key : Text → Option ℕ
  pub infos_to_text : List (Text × MrInfo) → Option Text
  pub text_to_infos : Text → Option (List (Text × MrInfo))
  pub message_to_bytes : CmMessage Text → Option (List ℕ)
  pub bytes_to_message : List ℕ → Option (CmMessage Text)

-- An answer of the host, or an error number.
pub data Answer : Type 0 where
  found : ℕ → Answer
  failed : ℕ → Answer

-- A host with its device: the lid of a port, its gid at an index, and the address at which an object
-- is allocated.
pub record Host : Type 1 where
  pub device : Device
  pub get_port_attr : ℕ → device.World → Answer
  pub query_gid : ℕ → ℕ → device.World → Answer
  pub new_address : device.World → ℕ

-- A result of a call that may fail with an error `E`.
pub data Attempt (E A : Type 0) : Type 0 where
  ok : A → Attempt E A
  err : E → Attempt E A

-- A call that changes a state `S` and may fail.
abbrev pub Call : Type 0 → Type 0 → Type 0 → Type 0
Call E S A = S → Attempt E A × S

module _ {E S : Type 0} where
  abbrev pub pure : {A : Type 0} → A → Call E S A
  pure a s = (ok a, s)

  abbrev pub fail : {A : Type 0} → E → Call E S A
  fail e s = (err e, s)

  -- `?`
  abbrev pub resume : {A B : Type 0} → Attempt E A × S → (A → Call E S B) → Attempt E B × S
  resume (ok a, s) f = f a s
  resume (err e, s) f = (err e, s)

  infixl 5 ◌>>=◌
  abbrev pub ◌>>=◌ : {A B : Type 0} → Call E S A → (A → Call E S B) → Call E S B
  ◌>>=◌ m f s = resume (m s) f

  abbrev pub look : {A : Type 0} → (S → A) → Call E S A
  look f s = (ok (f s), s)

  -- `.map_err(|_| e)?`
  abbrev pub or_fail : {A : Type 0} → E → Option A → Call E S A
  or_fail e none s = (err e, s)
  or_fail e (some a) s = (ok a, s)

-- `.map_err(|_| e)` of a call of the device.
abbrev pub map_err : {E A W : Type 0} → E → Result A × W → Attempt E A × W
map_err e (Result.ok a, w) = (ok a, w)
map_err e (Result.err c, w) = (err e, w)
