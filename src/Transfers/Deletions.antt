-- ===== src/Transfers/Deletions.antt =====
-- `Client::deleteRequest` against `Server::deleteRequest`, for a user who is sure.
use secure_cloud_storage.Common.{
  ℕ, ◌+◌, ◌-◌, ◌<◌, ◌≡◌, refl, sym, ap, ◌∙◌, true, none, some, [], ◌∷◌, ◌++◌, length, arith,
  eq_bytes, append_assoc, if◌then◌else◌,
}
use secure_cloud_storage.Config.{max_packet_size, max_counter_value, file_name_len}
use secure_cloud_storage.Codes.{
  return_code, success, message_code, Message, result_code, ack, delete_ask, delete_confirm,
}
use secure_cloud_storage.Memory.{Bytes}
use secure_cloud_storage.Memory.Laws.{NonNul, joined}
use secure_cloud_storage.Files.{Entry, find}
use secure_cloud_storage.Messages.Generic
use secure_cloud_storage.Messages.Delete.{request_bytes}
use secure_cloud_storage.World.{Platform, IsLawful, World, M, done, returned}
use secure_cloud_storage.Channel.Exchange.{on_wire-opens}
use secure_cloud_storage.Steps.Replies.{Tells-moved, on_wire-Tells}
use secure_cloud_storage.Server.Handlers.{user_path}
use secure_cloud_storage.Server.Session.{serve_once}
use secure_cloud_storage.Server.Serving.{serve_once-served, dispatch-delete}
use secure_cloud_storage.Server.Deleting.Decided.{delete_completes}
use secure_cloud_storage.Client.Requests
use secure_cloud_storage.Client.Deleting.{request_packet, confirmation, delete_request-done}
use secure_cloud_storage.Transfers.{IsPaired}

-- A client's deletion, confirmed by the user, and the server's handling of it fit together while no
-- call fails: two ends of a session, with enough left on the counter, and a file in the user's
-- directory under a name that fits its field. There are two packets each way such that the client,
-- given the server's, ends its request with the code for success and has sent its own; and one
-- round of the server's loop, given the client's, sends exactly the server's and goes on. Then
-- exactly that file is gone: every other path of the server leads to what it led to, and the
-- client's files are as they were. Both counters are the same again, and both have taken all the
-- packets.
pub delete_end_to_end :
    (p : Platform)
    → ((n : ℕ) → p.succeeds n ≡ true)
    → IsLawful p
    → (authenticate : M ℕ) (name q : Bytes) (e : Entry) (client server : World)
    → IsPaired client server
    → find (user_path server name) server.disk ≡ some e
    → NonNul name
    → length name < file_name_len
    → client.counter + 3 < max_counter_value
    → (asks : Bytes) × (confirms : Bytes) × (ask : Bytes) × (reply : Bytes) × (c : World)
      × (s : World) × (Requests.delete_request p authenticate true name
            (record client { incoming = joined (ask ∷ reply ∷ []) })
          ≡ returned (return_code success) c)
      × (c.outgoing ≡ client.outgoing ++ (asks ∷ confirms ∷ []))
      × (c.incoming ≡ [])
      × (serve_once p authenticate (record server { incoming = joined (asks ∷ confirms ∷ []) })
          ≡ done true s)
      × (s.outgoing ≡ server.outgoing ++ (ask ∷ reply ∷ []))
      × (s.incoming ≡ [])
      × (find q s.disk ≡ (if eq_bytes (user_path server name) q then none else find q server.disk))
      × (c.disk ≡ client.disk)
      × (c.counter ≡ s.counter)
delete_end_to_end p works lawful authenticate name q e client server paired there nonnul fits room =
    let (plain, made, total, code, named) =
      request_bytes name (p.rand_bytes client.calls (max_packet_size - 36))
        (p.fresh max_packet_size) nonnul fits (lawful.fresh_size max_packet_size)
        (omega (arith, lawful.rand_size client.calls (max_packet_size - 36))) in
    let packet = request_packet p works lawful authenticate name client plain in
    let confirms = confirmation p works lawful authenticate name client in
    let draw = client.calls + 1 + 1 + 9 + 5 in
    let confirming =
      Tells-moved p client.session_key server.session_key (client.counter + 2) (server.counter + 2)
        (message_code delete_confirm) confirms paired.same_key (omega (arith, paired.same_counter))
        (on_wire-Tells p works lawful authenticate client.session_key (client.counter + 2)
          (message_code delete_confirm) draw (draw + 1) (omega arith)) in
    let s1 = record server { incoming = confirms ++ []; calls = server.calls + 5 } in
    let (v, ask, reply, ran, out, left, tells, tells', counted, at_path) =
      delete_completes p works lawful authenticate plain confirms confirming.plain [] name q e s1
        (omega (arith, paired.same_counter)) refl
        (confirming.size, sym confirming.at_counter, confirming.opens, confirming.says) named
        there in
    let (wire_size, at_counter, opens) =
      on_wire-opens p works lawful client.session_key client.counter plain (client.calls + 1 + 1)
        max_packet_size total (omega arith) in
    let m = Generic.deserialize packet max_packet_size in
    let served =
      serve_once-served p works authenticate lawful packet plain (confirms ++ [])
        (record server { incoming = joined (packet ∷ confirms ∷ []) }) v
        (message_code Message.delete_request) (return_code success) refl wire_size
        (at_counter ∙ paired.same_counter)
        (ap (λ k. p.unseal k m.iv m.aad m.tag m.ciphertext) (sym paired.same_key) ∙ opens) code
        (dispatch-delete p works authenticate plain s1 v (return_code success) ran) in
    let c0 = record client { incoming = joined (ask ∷ reply ∷ []) } in
    let acts =
      delete_request-done p works lawful authenticate name ask reply plain c0 made total
        (Tells-moved p server.session_key client.session_key (server.counter + 1)
          (client.counter + 1) (message_code delete_ask) ask (sym paired.same_key)
          (omega (arith, paired.same_counter)) tells)
        (Tells-moved p server.session_key client.session_key (server.counter + 3)
          (client.counter + 3) (result_code ack) reply (sym paired.same_key)
          (omega (arith, paired.same_counter)) tells')
        refl room in
    (
      packet,
      confirms,
      ask,
      reply,
      _,
      v,
      acts,
      append_assoc client.outgoing (packet ∷ []) (confirms ∷ []),
      refl,
      served,
      out,
      left,
      at_path,
      refl,
      omega (arith, paired.same_counter, counted),
    )
