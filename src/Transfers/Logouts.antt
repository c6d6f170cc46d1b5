-- ===== src/Transfers/Logouts.antt =====
-- `Client::logoutRequest` against `Server::logoutRequest`.
use secure_cloud_storage.Common.{
  ℕ, ◌+◌, ◌<◌, ◌≡◌, refl, sym, ap, ◌∙◌, true, [], ◌∷◌, ◌++◌, replicate, arith,
}
use secure_cloud_storage.Config.{max_packet_size, max_counter_value, aes_key_len}
use secure_cloud_storage.Codes.{return_code, success, message_code, Message, result_code, ack}
use secure_cloud_storage.Memory.{Bytes}
use secure_cloud_storage.Memory.Laws.{joined}
use secure_cloud_storage.Messages.Generic
use secure_cloud_storage.Messages.Simple
use secure_cloud_storage.World.{Platform, IsLawful, World, M, done, returned}
use secure_cloud_storage.Steps.Replies.{Tells-moved, on_wire-Tells}
use secure_cloud_storage.Server.Session.{serve_once}
use secure_cloud_storage.Server.Serving.{serve_once-served, dispatch-logout}
use secure_cloud_storage.Server.Leaving
use secure_cloud_storage.Server.Leaving.{acknowledgement}
use secure_cloud_storage.Client.Requests
use secure_cloud_storage.Client.Leaving.{request_packet, logout_request-done}
use secure_cloud_storage.Transfers.{IsPaired}

-- A client's logout and the server's handling of it fit together while no call fails: two ends of a
-- session, with one step left on the counter. There is a packet each way such that the client,
-- given the server's, ends its request with the code for success and has sent its own; and one
-- round of the server's loop, given the client's, sends exactly the server's, overwrites its
-- session key with zeros, and goes on. No file of either side changes, and both have taken all the
-- packets.
pub logout_end_to_end :
    (p : Platform)
    → ((n : ℕ) → p.succeeds n ≡ true)
    → IsLawful p
    → (authenticate : M ℕ) (client server : World) → IsPaired client server
    → client.counter < max_counter_value
    → (asks : Bytes) × (reply : Bytes) × (c : World) × (s : World) × (Requests.logout_request p
          authenticate
          (record client { incoming = joined (reply ∷ []) })
        ≡ returned (return_code success) c)
      × (c.outgoing ≡ client.outgoing ++ (asks ∷ []))
      × (c.incoming ≡ [])
      × (serve_once p authenticate (record server { incoming = joined (asks ∷ []) }) ≡ done true s)
      × (s.outgoing ≡ server.outgoing ++ (reply ∷ []))
      × (s.incoming ≡ [])
      × (s.session_key ≡ replicate aes_key_len 0)
      × (c.disk ≡ client.disk)
      × (s.disk ≡ server.disk)
logout_end_to_end p works lawful authenticate client server paired room =
    let asks = request_packet p works lawful authenticate client in
    let tells =
      on_wire-Tells p works lawful authenticate client.session_key client.counter
        (message_code Message.logout_request) client.calls (client.calls + 1) (omega arith) in
    let s1 = record server { incoming = []; calls = server.calls + 5 } in
    let v = Leaving.left p works lawful authenticate s1 in
    let reply = acknowledgement p works lawful authenticate s1 in
    let answers =
      Tells-moved p server.session_key client.session_key (server.counter + 1) (client.counter + 1)
        (result_code ack) reply (sym paired.same_key) (omega (arith, paired.same_counter))
        (on_wire-Tells p works lawful authenticate server.session_key (server.counter + 1)
          (result_code ack) (server.calls + 5) (server.calls + 5 + 1)
          (omega (arith, paired.same_counter))) in
    let served =
      serve_once-served p works authenticate lawful asks tells.plain []
        (record server { incoming = joined (asks ∷ []) }) v (message_code Message.logout_request)
        (return_code success) refl tells.size (tells.at_counter ∙ paired.same_counter)
        (ap
            (λ k.
              let m = Generic.deserialize asks max_packet_size in
              p.unseal k m.iv m.aad m.tag m.ciphertext)
            (sym paired.same_key)
          ∙ tells.opens)
        (Simple.first_is_code tells.plain (message_code Message.logout_request) tells.says)
        (dispatch-logout p works authenticate tells.plain s1 v (return_code success) (
          Leaving.logout_request-done p works lawful authenticate s1
            (omega (arith, paired.same_counter)))) in
    let c0 = record client { incoming = joined (reply ∷ []) } in
    (
      asks,
      reply,
      _,
      v,
      logout_request-done p works lawful authenticate reply c0 answers refl room,
      refl,
      refl,
      served,
      refl,
      refl,
      refl,
      refl,
      refl,
    )
