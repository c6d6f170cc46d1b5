-- ===== src/Transfers/Renames.antt =====
-- `Client::renameRequest` against `Server::renameRequest`.
use secure_cloud_storage.Common.{
  ℕ, ◌+◌, ◌<◌, ◌≡◌, refl, sym, ap, ◌∙◌, true, [], ◌∷◌, ◌++◌, length, arith,
}
use secure_cloud_storage.Config.{max_packet_size, max_counter_value, file_name_len}
use secure_cloud_storage.Codes.{return_code, success, message_code, Message}
use secure_cloud_storage.Memory.{Bytes}
use secure_cloud_storage.Memory.Laws.{NonNul, joined}
use secure_cloud_storage.Files.{find}
use secure_cloud_storage.Messages.Generic
use secure_cloud_storage.Messages.Rename.{rename_arrives, request_code}
use secure_cloud_storage.World.{Platform, IsLawful, World, M, done, returned}
use secure_cloud_storage.Channel.Exchange.{on_wire-opens}
use secure_cloud_storage.Steps.Replies.{Tells-moved}
use secure_cloud_storage.Server.Handlers.{user_path}
use secure_cloud_storage.Server.Session.{serve_once}
use secure_cloud_storage.Server.Serving.{serve_once-served, dispatch-rename}
use secure_cloud_storage.Server.Renaming.{renamed, moved, rename_answers}
use secure_cloud_storage.Client.Requests
use secure_cloud_storage.Client.Renaming.{told, request, request_packet, rename_request-done}
use secure_cloud_storage.Transfers.{IsPaired}

-- A client's rename and the server's handling of it fit together while no call fails: two ends of a
-- session, with enough left on the counter, and two names that fit their fields. There is a packet
-- each way such that the client, given the server's, ends its request and has sent its own; and one
-- round of the server's loop, given the client's, sends exactly the server's and goes on. The user
-- is told that there is no such file if the old name leads nowhere, that the file is already there
-- if the new one leads somewhere, and else success. Only with success the new name leads to the
-- file and the old one nowhere; every other path leads to what it led to. The client's files are as
-- they were, both counters are the same again, and both have taken all the packets.
pub rename_end_to_end :
    (p : Platform)
    → ((n : ℕ) → p.succeeds n ≡ true)
    → IsLawful p
    → (authenticate : M ℕ) (old new q : Bytes) (client server : World) → IsPaired client server
    → NonNul old
    → length old < file_name_len
    → NonNul new
    → length new < file_name_len
    → client.counter + 1 < max_counter_value
    → let a = user_path server old in
      let b = user_path server new in
      let was = find a server.disk in
      let other = find b server.disk in
      (to_server : Bytes) × (to_client : Bytes) × (c : World) × (s : World)
      × (Requests.rename_request p authenticate old new
            (record client { incoming = joined (to_client ∷ []) })
          ≡ returned (told was other) c)
      × (c.outgoing ≡ client.outgoing ++ (to_server ∷ []))
      × (c.incoming ≡ [])
      × (serve_once p authenticate (record server { incoming = joined (to_server ∷ []) })
          ≡ done true s)
      × (s.outgoing ≡ server.outgoing ++ (to_client ∷ []))
      × (s.incoming ≡ [])
      × (find q s.disk ≡ moved was other a b q (find q server.disk))
      × (c.disk ≡ client.disk)
      × (c.counter ≡ s.counter)
rename_end_to_end p works lawful authenticate old new q client server paired nonnul fits nonnul'
      fits' room =
    let a = user_path server old in
    let b = user_path server new in
    let was = find a server.disk in
    let other = find b server.disk in
    let plain = request p works lawful authenticate old new in
    let memory = p.fresh max_packet_size in
    let (whole, old_name, new_name, total) =
      rename_arrives old new memory nonnul fits nonnul' fits' (lawful.fresh_size max_packet_size) in
    let packet = request_packet p works lawful authenticate old new client in
    let s1 = record server { incoming = []; calls = server.calls + 5 } in
    let (v, reply, ran, out, left, counted, tells, at_path) =
      rename_answers p works lawful authenticate plain old new q s1
        (omega (arith, paired.same_counter)) old_name new_name in
    let (wire_size, at_counter, opens) =
      on_wire-opens p works lawful client.session_key client.counter plain client.calls
        max_packet_size total (omega arith) in
    let m = Generic.deserialize packet max_packet_size in
    let served =
      serve_once-served p works authenticate lawful packet plain []
        (record server { incoming = joined (packet ∷ []) }) v (message_code Message.rename_request)
        (return_code success) refl wire_size (at_counter ∙ paired.same_counter)
        (ap (λ k. p.unseal k m.iv m.aad m.tag m.ciphertext) (sym paired.same_key) ∙ opens)
        (request_code old new memory)
        (dispatch-rename p works authenticate plain s1 v (return_code success) ran) in
    let c0 = record client { incoming = joined (reply ∷ []) } in
    let acts =
      rename_request-done p works lawful authenticate old new was other a b reply server.disk c0
        total
        (Tells-moved p server.session_key client.session_key (server.counter + 1)
          (client.counter + 1) (renamed was other a b server.disk).0 reply (sym paired.same_key)
          (omega (arith, paired.same_counter)) tells)
        refl room in
    (
      packet,
      reply,
      _,
      v,
      acts,
      refl,
      refl,
      served,
      out,
      left,
      at_path,
      refl,
      omega (arith, paired.same_counter, counted),
    )
