-- ===== src/Client/Leaving.antt =====
-- `Client::logoutRequest` of src/modules/Client.cpp, given the server's answer.
use secure_cloud_storage.Common.{ℕ, ◌+◌, ◌<◌, ◌≡◌, refl, true, [], ◌∷◌, ◌++◌}
use secure_cloud_storage.Config.{max_counter_value}
use secure_cloud_storage.Codes.{return_code, success, result_code, ack, message_code, Message}
use secure_cloud_storage.Memory.{Bytes}
use secure_cloud_storage.World.{Platform, IsLawful, World, M, returned, require, ◌>>=◌}
use secure_cloud_storage.Steps.Counter.{counted_to}
use secure_cloud_storage.Steps.Replies.{Tells, simple_packet, send_simple-sent}
use secure_cloud_storage.Client.Requests.{logout_request}
use secure_cloud_storage.Client.Replies.{receive_reply-Tells}

module _ (p : Platform) (works : (n : ℕ) → p.succeeds n ≡ true) (lawful : IsLawful p)
    (authenticate : M ℕ) where
  -- The packet of the request.
  abbrev pub request_packet : World → Bytes
  request_packet w =
      simple_packet p works lawful authenticate w.session_key w.counter
        (message_code Message.logout_request) w.calls

  pub logout_request-done :
      (reply : Bytes) (w : World)
      → Tells p w.session_key (w.counter + 1) (result_code ack) reply
      → w.incoming ≡ reply ++ []
      → w.counter < max_counter_value
      → logout_request p authenticate w
        ≡ returned (return_code success) (record w {
          incoming = [];
          counter = w.counter + 1;
          calls = w.calls + 10 + 5;
          outgoing = w.outgoing ++ (request_packet w ∷ []);
        })
  unfolding logout_request require ◌>>=◌
  logout_request-done reply w tells next room =
      let u1 = record w {
        calls = w.calls + 10;
        outgoing = w.outgoing ++ (request_packet w ∷ []);
      } in
      let u2 = record u1 { counter = w.counter + 1 } in
      rw
        (
          send_simple-sent p works lawful authenticate (message_code Message.logout_request) w,
          counted_to p authenticate u1 (w.counter + 1) room refl,
          receive_reply-Tells p works lawful authenticate (result_code ack) reply [] u2 next tells,
          tells.says,
        )
        refl
