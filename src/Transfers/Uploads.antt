-- ===== src/Transfers/Uploads.antt =====
-- `Client::uploadRequest` against `Server::uploadRequest`.
use secure_cloud_storage.Common.{
  ℕ, ◌^◌, ◌+◌, ◌*◌, ◌≤◌, ◌<◌, ◌≡◌, refl, sym, ap, ◌∙◌, true, none, some, List, [], ◌∷◌, ◌++◌,
  length, arith, append-nil,
}
use secure_cloud_storage.Config.{max_packet_size, max_counter_value, max_file_size, file_name_len}
use secure_cloud_storage.Codes.{return_code, success, message_code, Message, result_code, ack}
use secure_cloud_storage.Memory.{Bytes}
use secure_cloud_storage.Memory.Laws.{NonNul, joined}
use secure_cloud_storage.Files.{Entry, find, fresh_entry}
use secure_cloud_storage.Files.Manager.{FileManager, read, closed}
use secure_cloud_storage.Files.Reading.{all_chunks}
use secure_cloud_storage.Files.Opening.{read_manager, write_manager, same_chunks}
use secure_cloud_storage.Messages.Generic
use secure_cloud_storage.Messages.Upload.{deserialize_upload_m1}
use secure_cloud_storage.World.{Platform, IsLawful, World, M, done, returned}
use secure_cloud_storage.Channel.Exchange.{on_wire-opens}
use secure_cloud_storage.Steps.Pieces.{
  Piece, AllPieces, AllPieces-moved, stream, packets, contents, joined-packets,
}
use secure_cloud_storage.Steps.Pieces.Sending.{length-pieces, contents-pieces, pieces-AllPieces}
use secure_cloud_storage.Steps.Replies.{Tells-moved}
use secure_cloud_storage.Server.Handlers.{user_path}
use secure_cloud_storage.Server.Session.{serve_once}
use secure_cloud_storage.Server.Serving.{serve_once-served, dispatch-upload}
use secure_cloud_storage.Server.Uploading.Whole.{upload_completes}
use secure_cloud_storage.Client.Requests
use secure_cloud_storage.Client.Requests.{local_path}
use secure_cloud_storage.Client.Uploading.{chunk_code}
use secure_cloud_storage.Client.Uploading.Whole.{
  request, request_packet, upload_pieces, request_lem, upload_request-done,
}
use secure_cloud_storage.Transfers.{IsPaired}

module _ (p : Platform) (works : (n : ℕ) → p.succeeds n ≡ true) (lawful : IsLawful p)
    (authenticate : M ℕ) (name : Bytes) (e : Entry) (c : World) where
  abbrev manager : FileManager
  manager = read_manager (local_path name) e.content

  abbrev xs : List Piece
  xs = upload_pieces p works lawful authenticate name e c

  -- The pieces are the file's, for the server's manager and its key and counter.
  upload_pieces_lem :
      (s : World) (path : Bytes) (size : ℕ)
      → IsPaired c s
      → size ≡ length e.content
      → 0 < length e.content
      → length e.content < 2 ^ 53
      → c.counter + 2 + manager.chunks_num ≤ max_counter_value
      → AllPieces p s.session_key (write_manager path size) 0 (s.counter + 2) xs
        × (length xs ≡ (write_manager path size).chunks_num)
        × (contents xs ≡ e.content)
        × (length xs ≡ manager.chunks_num)
  upload_pieces_lem s path size paired size_eq some' small room =
      let fm = manager in
      let draw = c.calls + 1 + 9 + 5 in
      let local = local_path name in
      let (all, last) =
        all_chunks (length e.content) (record (closed read) { stream = some local }) some' small in
      let (same_number, same_last) = same_chunks local path e.content in
      let sized : write_manager path (length e.content) ≡ write_manager path size =
        ap (write_manager path) (sym size_eq) in
      let number =
        length-pieces p works chunk_code fm local e fm.chunks_num 0 0 c.session_key (c.counter + 2)
          draw in
      (
        AllPieces-moved p c.session_key s.session_key fm (write_manager path size) (c.counter + 2)
            (s.counter + 2) xs paired.same_key (omega (arith, paired.same_counter))
            (same_number ∙ ap (λ (m : FileManager). m.chunks_num) sized)
            (same_last ∙ ap (λ (m : FileManager). m.last_chunk_size) sized)
            (pieces-AllPieces p works chunk_code fm local e lawful fm.chunks_num 0 0 c.session_key
              (c.counter + 2) draw (omega arith) all room),
        number ∙ same_number ∙ ap (λ (m : FileManager). m.chunks_num) sized,
        contents-pieces p works chunk_code fm local e fm.chunks_num 0 0 c.session_key
            (c.counter + 2) draw (omega arith) all,
        number,
      )

  -- The packets of the client's side of the upload.
  abbrev to_server : List Bytes
  to_server = request_packet p works lawful authenticate name e c ∷ packets xs

-- A client's upload and the server's handling of it fit together while no call fails: two ends of a
-- session, with enough left on the counter, a non-empty local file below 4 GB under a name that
-- fits its field, and no file of that name in the user's directory. There are packets each way such
-- that the client, given the server's packets, ends its request with the code for success and has
-- sent its own; and one round of the server's loop, given the client's packets, sends exactly the
-- server's and goes on. Then both counters are the same again, both have taken all the packets, and
-- the user's directory has the file with the content of the client's.
pub upload_end_to_end :
    (p : Platform)
    → ((n : ℕ) → p.succeeds n ≡ true)
    → IsLawful p
    → (authenticate : M ℕ) (name : Bytes) (e : Entry) (client server : World)
    → IsPaired client server
    → find (local_path name) client.disk ≡ some e
    → find (user_path server name) server.disk ≡ none
    → NonNul name
    → length name < file_name_len
    → 0 < length e.content
    → length e.content < max_file_size
    → client.counter + 2 + (read_manager (local_path name) e.content).chunks_num < max_counter_value
    → (to_server : List Bytes) × (to_client : List Bytes) × (c : World) × (s : World)
      × (Requests.upload_request p authenticate name (record client { incoming = joined to_client })
          ≡ returned (return_code success) c)
      × (c.outgoing ≡ client.outgoing ++ to_server)
      × (c.incoming ≡ [])
      × (serve_once p authenticate (record server { incoming = joined to_server }) ≡ done true s)
      × (s.outgoing ≡ server.outgoing ++ to_client)
      × (s.incoming ≡ [])
      × (find (user_path server name) s.disk ≡ some (fresh_entry e.content))
      × (c.counter ≡ s.counter)
upload_end_to_end p works lawful authenticate name e client server paired there free nonnul fits
      some' small room =
    let fm = read_manager (local_path name) e.content in
    let plain = request p works lawful authenticate name e client.calls in
    let (total, whole, code, named, sized) =
      request_lem p works lawful authenticate name e client.calls nonnul fits small in
    let (pieces', count, text, number) =
      upload_pieces_lem p works lawful authenticate name e client server (user_path server name)
        (deserialize_upload_m1 plain).file_size paired sized some' (omega arith) (omega arith) in
    let xs' = xs p works lawful authenticate name e client in
    let packet = request_packet p works lawful authenticate name e client in
    let s1 = record server { incoming = stream xs'; calls = server.calls + 5 } in
    let (v, first, last, ran, stored, length', left, counted, out, tells, tells') =
      upload_completes p works lawful authenticate plain name xs' [] s1 named free pieces' count
        (sym (append-nil (stream xs'))) (omega (arith, paired.same_counter)) in
    let (wire_size, at_counter, opens) =
      on_wire-opens p works lawful client.session_key client.counter plain (client.calls + 1)
        max_packet_size total (omega arith) in
    let c0 = record client { incoming = first ++ (last ++ []) } in
    let acts =
      upload_request-done p works lawful authenticate name e first last [] c0 there nonnul fits
        some' small room
        (Tells-moved p server.session_key client.session_key (server.counter + 1)
          (client.counter + 1) (result_code ack) first (sym paired.same_key)
          (omega (arith, paired.same_counter)) tells)
        (Tells-moved p server.session_key client.session_key (server.counter + 2 + length xs')
          (client.counter + 2 + fm.chunks_num) (result_code ack) last (sym paired.same_key)
          (omega (arith, paired.same_counter)) tells')
        refl in
    let m = Generic.deserialize packet max_packet_size in
    let served =
      serve_once-served p works authenticate lawful packet plain (stream xs')
        (record server { incoming = joined (packet ∷ packets xs') }) v
        (message_code Message.upload_request) (return_code success)
        (ap (λ r. packet ++ r) (joined-packets xs')) wire_size (at_counter ∙ paired.same_counter)
        (ap (λ k. p.unseal k m.iv m.aad m.tag m.ciphertext) (sym paired.same_key) ∙ opens) code
        (dispatch-upload p works authenticate plain s1 v (return_code success) ran) in
    (
      to_server p works lawful authenticate name e client,
      first ∷ last ∷ [],
      record c0 {
        incoming = [];
        counter = client.counter + fm.chunks_num + 3;
        outgoing = client.outgoing ++ to_server p works lawful authenticate name e client;
        calls = client.calls + 1 + 9 + 5 + 9 * fm.chunks_num + 5;
      },
      v,
      acts,
      refl,
      refl,
      served,
      out,
      left,
      stored ∙ ap (λ b. some (fresh_entry b)) text,
      omega (arith, paired.same_counter),
    )
