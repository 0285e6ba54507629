-- ===== src/Manager/Service.antt =====
-- What a client's calls of handshake_user.rs do to the server of services_user besides a handshake,
-- and what a handler that fails leaves.
use krcore_artifacts.Prelude.{
  ℕ, ◌<◌, ◌≤◌, ◌≡◌, refl, ◌∙◌, ap, true, [], List, some, length, drop, ◌==◌, arith,
}
use krcore_artifacts.Prelude.Maps.{Map, insert, remove, keys, count, remove-insert}
use krcore_artifacts.Bringup.Device.{rc, QueuePair}
use krcore_artifacts.Manager.{dereg_rc_req, query_mr_req, query_mr_res, CmMessage, Serde, Host, ok}
use krcore_artifacts.Manager.Server.{
  dispatch, then_send, handle_dereg_rc_req, handle_query_mr_req, to_mrinfos,
}
use krcore_artifacts.Manager.Client.{Client, dereg, query_mr_info, then_send_sync, receive}
use krcore_artifacts.Manager.Line.{line_to, take-all, serve-parsed}

-- `serde_json` writes the message, which fits a buffer of so many bytes, and reads it back.
pub record Sends (s : Serde) (m : CmMessage s.Text) (room : ℕ) : Type 0 where
  pub bytes : List ℕ
  pub to_bytes : s.message_to_bytes m ≡ some bytes
  pub of_bytes : s.bytes_to_message bytes ≡ some m
  pub some_bytes : 0 < length bytes
  pub fits : length bytes ≤ room

module _ (hc hs : Host) (s : Serde) (addr : ℕ) (c : Client hc s (line_to hs s addr))
    (qp : QueuePair) (key : ℕ)
    (linked : qp.comm ≡ some (record { qp_type = rc; addr = addr; key = key })) where
  -- When the queue pair of a handshake is dropped, `dereg` tells the server, which takes the queue
  -- pair that it registered under that key out of its map again: if the key was new, the map is what
  -- it was before the handshake. `dereg` succeeds.
  pub dereg-unregisters :
      (q : QueuePair) (m : Map QueuePair) (text : s.Text)
      → s.key_to_text key ≡ some text
      → s.text_to_key text ≡ some key
      → Sends s (record { message_type = dereg_rc_req; serialized = text }) 2048
      → c.stream.handler.registered_rc ≡ insert key q m
      → count key (keys m) ≡ 0
      → (c' : Client hc s (line_to hs s addr)) × (dereg hc s (line_to hs s addr) qp c ≡ (ok tt, c'))
        × (c'.stream.handler.registered_rc ≡ m)
  unfolding dereg dispatch then_send handle_dereg_rc_req
  dereg-unregisters q m text wrote reads sends kept absent =
      let v = c.stream.handler in
      let here : (addr == addr) ≡ true = ground arith in
      let parsed = serve-parsed hs s sends.bytes v sends.some_bytes sends.fits in
      (
        record c {
          stream = record {
            handler = record v { registered_rc = remove key v.registered_rc };
            inbox = [];
          };
        },
        rw (linked, here, wrote, sends.to_bytes, parsed, sends.of_bytes, reads),
        ap (remove key) kept ∙ remove-insert key q m absent,
      )

  -- `query_mr_info` returns the address, the capacity and the key of exactly the regions that the
  -- server has registered, if their JSON fits into 1024 bytes, and changes nothing at the server.
  pub query_mr_info-regions :
      (text : s.Text)
      → s.infos_to_text (to_mrinfos c.stream.handler.registered_mr) ≡ some text
      → s.text_to_infos text ≡ some (to_mrinfos c.stream.handler.registered_mr)
      → Sends s (record { message_type = query_mr_req; serialized = s.empty_text }) 2048
      → Sends s (record { message_type = query_mr_res; serialized = text }) 1024
      → (c' : Client hc s (line_to hs s addr)) × (query_mr_info hc s (line_to hs s addr) qp c
          ≡ (ok (to_mrinfos c.stream.handler.registered_mr), c'))
        × (c'.stream.handler ≡ c.stream.handler)
  unfolding query_mr_info then_send_sync receive dispatch then_send handle_query_mr_req
  query_mr_info-regions text wrote reads req res =
      let v = c.stream.handler in
      let here : (addr == addr) ≡ true = ground arith in
      let parsed = serve-parsed hs s req.bytes v req.some_bytes req.fits in
      let whole = take-all 1024 res.bytes res.fits in
      (
        record c { stream = record { handler = v; inbox = drop 1024 res.bytes } },
        rw (
          linked, here, req.to_bytes, parsed, req.of_bytes, wrote, res.to_bytes, whole,
          res.of_bytes, reads,
        ),
        refl,
      )
