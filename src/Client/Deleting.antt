-- ===== src/Client/Deleting.antt =====
-- `Client::deleteRequest` of src/modules/Client.cpp, for a user who is sure, given the server's
-- question and answer.
use secure_cloud_storage.Common.{
  ℕ, ◌+◌, ◌-◌, ◌<◌, ◌≡◌, refl, true, some, [], ◌∷◌, ◌++◌, length, arith,
}
use secure_cloud_storage.Config.{max_packet_size, max_counter_value}
use secure_cloud_storage.Codes.{
  return_code, success, result_code, ack, message_code, delete_ask, delete_confirm,
}
use secure_cloud_storage.Memory.{Bytes}
use secure_cloud_storage.Messages.Generic.{generic}
use secure_cloud_storage.Messages.Delete.{delete, serialize}
use secure_cloud_storage.World.{Platform, IsLawful, World, M, returned, require, ◌>>=◌}
use secure_cloud_storage.Channel.Exchange.{sealed, on_wire, send_message-whole}
use secure_cloud_storage.Steps.Counter.{counted_to}
use secure_cloud_storage.Steps.Replies.{Tells, simple_packet, send_simple-sent}
use secure_cloud_storage.Client.Requests.{filled, delete_request}
use secure_cloud_storage.Client.Replies.{receive_reply-Tells}
use secure_cloud_storage.Client.Downloading.Whole.{padding-done}

module _ (p : Platform) (works : (n : ℕ) → p.succeeds n ≡ true) (lawful : IsLawful p)
    (authenticate : M ℕ) (name : Bytes) where
  -- The packet of the request with the given plaintext, and that of the confirmation.
  abbrev pub request_packet : World → Bytes → Bytes
  request_packet w plain =
      on_wire p works (sealed p works w.session_key (generic w.counter) plain (w.calls + 1 + 1))

  abbrev pub confirmation : World → Bytes
  confirmation w =
      simple_packet p works lawful authenticate w.session_key (w.counter + 2)
        (message_code delete_confirm) (w.calls + 1 + 1 + 9 + 5)

  pub delete_request-done :
      (ask reply plain : Bytes) (w : World)
      → serialize
          (delete name)
          (some (p.rand_bytes w.calls (max_packet_size - 36)))
          (p.fresh max_packet_size)
        ≡ some plain
      → length plain ≡ max_packet_size
      → Tells p w.session_key (w.counter + 1) (message_code delete_ask) ask
      → Tells p w.session_key (w.counter + 3) (result_code ack) reply
      → w.incoming ≡ ask ++ (reply ++ [])
      → w.counter + 3 < max_counter_value
      → delete_request p authenticate true name w
        ≡ returned (return_code success) (record w {
          incoming = [];
          counter = w.counter + 4;
          calls = w.calls + 1 + 1 + 9 + 5 + 10 + 5;
          outgoing = (w.outgoing ++ (request_packet w plain ∷ [])) ++ (confirmation w ∷ []);
        })
  unfolding delete_request filled require ◌>>=◌
  delete_request-done ask reply plain w made total tells tells' next room =
      let u1 = record w { calls = w.calls + 1 + 1 } in
      let sent = send_message-whole p works lawful plain max_packet_size u1 total (omega arith) in
      let u2 = record u1 {
        calls = w.calls + 1 + 1 + 9;
        outgoing = w.outgoing ++ (request_packet w plain ∷ []);
      } in
      let u3 = record u2 { counter = w.counter + 1 } in
      let asked =
        receive_reply-Tells p works lawful authenticate (message_code delete_ask) ask (reply ++ [])
          u3 next tells in
      let u4 = record u3 { incoming = reply ++ []; calls = w.calls + 1 + 1 + 9 + 5 } in
      let u5 = record u4 { counter = w.counter + 2 } in
      let u6 = record u5 {
        calls = u5.calls + 10;
        outgoing = u5.outgoing ++ (confirmation w ∷ []);
      } in
      let u7 = record u6 { counter = w.counter + 3 } in
      let replied =
        receive_reply-Tells p works lawful authenticate (result_code ack) reply [] u7 refl tells' in
      let u8 = record u7 { incoming = []; calls = u7.calls + 5 } in
      rw
        (
          padding-done p works lawful authenticate (max_packet_size - 36) w,
          made,
          sent,
          counted_to p authenticate u2 (w.counter + 1) (omega arith) refl,
          asked,
          counted_to p authenticate u4 (w.counter + 2) (omega arith) (omega arith),
          tells.says,
          send_simple-sent p works lawful authenticate (message_code delete_confirm) u5,
          counted_to p authenticate u6 (w.counter + 3) (omega arith) (omega arith),
          replied,
          counted_to p authenticate u8 (w.counter + 4) (omega arith) (omega arith),
          tells'.says,
        )
        refl
