-- ===== src/Transfers/Downloads.antt =====
-- `Client::downloadRequest` against `Server::downloadRequest`.
use secure_cloud_storage.Common.{
  ℕ, ◌+◌, ◌-◌, ◌^◌, ◌≤◌, ◌<◌, ◌≡◌, refl, sym, ap, ◌∙◌, true, false, none, some, List, [], ◌∷◌, ◌++◌,
  length, arith, append-nil,
}
use secure_cloud_storage.Config.{max_packet_size, max_counter_value, file_name_len}
use secure_cloud_storage.Codes.{return_code, success, message_code, Message, download_ack}
use secure_cloud_storage.Memory.{Bytes}
use secure_cloud_storage.Memory.Laws.{NonNul, joined}
use secure_cloud_storage.Files.{Entry, find, fresh_entry}
use secure_cloud_storage.Files.Laws.{find-created}
use secure_cloud_storage.Files.Manager.{read, closed}
use secure_cloud_storage.Files.Reading.{all_chunks}
use secure_cloud_storage.Files.Opening.{read_manager, write_manager, same_chunks}
use secure_cloud_storage.Messages.Generic
use secure_cloud_storage.Messages.Download.{request_bytes}
use secure_cloud_storage.World.{Platform, IsLawful, World, M, done, returned}
use secure_cloud_storage.Channel.Exchange.{on_wire-opens}
use secure_cloud_storage.Steps.Pieces.{
  AllPieces, AllCoded, AllPieces-moved, stream, packets, contents, joined-packets,
}
use secure_cloud_storage.Steps.Pieces.Sending.{
  pieces, length-pieces, contents-pieces, pieces-AllPieces, pieces-AllCoded,
}
use secure_cloud_storage.Server.Handlers.{user_path}
use secure_cloud_storage.Server.Session.{serve_once}
use secure_cloud_storage.Server.Serving.{serve_once-served, dispatch-download}
use secure_cloud_storage.Server.Downloading.{chunk_code}
use secure_cloud_storage.Server.Downloading.Whole.{Announces, download_request-done}
use secure_cloud_storage.Client.Requests
use secure_cloud_storage.Client.Requests.{local_path}
use secure_cloud_storage.Client.Downloading.{IsChunk}
use secure_cloud_storage.Client.Downloading.Whole
use secure_cloud_storage.Client.Downloading.Whole.{request_packet}
use secure_cloud_storage.Transfers.{IsPaired}

Announces-moved :
    (p : Platform) (key key' : Bytes) (counter counter' code size : ℕ) (packet : Bytes)
    → key ≡ key'
    → counter ≡ counter'
    → Announces p key counter code size packet
    → Announces p key' counter' code size packet
Announces-moved p key key' counter counter' code size packet same_key same_counter announces =
    rw (← same_key, ← same_counter) announces

-- The server's pieces of a file, for the client's manager and its key and counter.
file_pieces :
    (p : Platform) (works : (n : ℕ) → p.succeeds n ≡ true)
    → IsLawful p
    → (path local : Bytes) (e : Entry) (key key' : Bytes) (counter counter' draw : ℕ) → key' ≡ key
    → counter' ≡ counter
    → 0 < length e.content
    → length e.content < 2 ^ 53
    → let fm = read_manager path e.content in
      let target = write_manager local (length e.content) in
      let xs = pieces p works chunk_code fm path e fm.chunks_num 0 0 key' counter' draw in
      counter' + fm.chunks_num ≤ max_counter_value
      → AllPieces p key target 0 counter xs
        × AllCoded IsChunk xs
        × (length xs ≡ target.chunks_num)
        × (length xs ≡ fm.chunks_num)
        × (contents xs ≡ e.content)
file_pieces p works lawful path local e key key' counter counter' draw same_key same_counter some'
      small room =
    let fm = read_manager path e.content in
    let n = fm.chunks_num in
    let (all, last) =
      all_chunks (length e.content) (record (closed read) { stream = some path }) some' small in
    let (same_number, same_last) = same_chunks path local e.content in
    let number = length-pieces p works chunk_code fm path e n 0 0 key' counter' draw in
    (
      AllPieces-moved p key' key fm (write_manager local (length e.content)) counter' counter
          (pieces p works chunk_code fm path e n 0 0 key' counter' draw) same_key same_counter
          same_number same_last
          (pieces-AllPieces p works chunk_code fm path e lawful n 0 0 key' counter' draw
            (omega arith) all room),
      pieces-AllCoded p works chunk_code fm path e n 0 0 key' counter' draw,
      number ∙ same_number,
      number,
      contents-pieces p works chunk_code fm path e n 0 0 key' counter' draw (omega arith) all,
    )

-- A client's download and the server's handling of it fit together while no call fails: two ends of
-- a session, with enough left on the counter, a regular, non-empty file of less than 4 GB in the
-- user's directory under a name that fits its field, and no local file of that name. There are
-- packets each way such that the client, given the server's packets, ends its request with the code
-- for success and has sent its own; and one round of the server's loop, given the client's packets,
-- sends exactly the server's and goes on. Then both counters are the same again, both have taken
-- all the packets, the client has the file with the content of the server's, and the server's files
-- are as they were.
pub download_end_to_end :
    (p : Platform)
    → ((n : ℕ) → p.succeeds n ≡ true)
    → IsLawful p
    → (authenticate : M ℕ) (name : Bytes) (e : Entry) (client server : World)
    → let fm = read_manager (user_path server name) e.content in
      IsPaired client server
      → find (local_path name) client.disk ≡ none
      → find (user_path server name) server.disk ≡ some e
      → e.regular ≡ true
      → e.symlink ≡ false
      → NonNul name
      → length name < file_name_len
      → 0 < length e.content
      → length e.content < 2 ^ 32
      → client.counter + 2 + fm.chunks_num ≤ max_counter_value
      → (to_server : List Bytes) × (to_client : List Bytes) × (c : World) × (s : World)
        × (Requests.download_request p authenticate name
              (record client { incoming = joined to_client })
            ≡ returned (return_code success) c)
        × (c.outgoing ≡ client.outgoing ++ to_server)
        × (c.incoming ≡ [])
        × (serve_once p authenticate (record server { incoming = joined to_server }) ≡ done true s)
        × (s.outgoing ≡ server.outgoing ++ to_client)
        × (s.incoming ≡ [])
        × (find (local_path name) c.disk ≡ some (fresh_entry e.content))
        × (s.disk ≡ server.disk)
        × (c.counter ≡ s.counter)
download_end_to_end p works lawful authenticate name e client server paired free there regular
      direct nonnul fits some' small room =
    let path = user_path server name in
    let local = local_path name in
    let fm = read_manager path e.content in
    let (plain, made, total, code, named) =
      request_bytes name (p.rand_bytes client.calls (max_packet_size - 36))
        (p.fresh max_packet_size) nonnul fits (lawful.fresh_size max_packet_size)
        (omega (arith, lawful.rand_size client.calls (max_packet_size - 36))) in
    let packet = request_packet p works lawful authenticate name client plain in
    let s1 = record server { incoming = []; calls = server.calls + 5 } in
    let (v, first, draw, ran, out, announces, counted, kept, left) =
      download_request-done p works lawful authenticate plain name e s1 named there regular direct
        some' small (omega (arith, paired.same_counter)) in
    let xs =
      pieces p works chunk_code fm path e fm.chunks_num 0 0 server.session_key (server.counter + 2)
        draw in
    let (all, coded, count, number, text) =
      file_pieces p works lawful path local e client.session_key server.session_key
        (client.counter + 2) (server.counter + 2) draw (sym paired.same_key)
        (omega (arith, paired.same_counter)) some' (omega arith)
        (omega (arith, paired.same_counter)) in
    let (wire_size, at_counter, opens) =
      on_wire-opens p works lawful client.session_key client.counter plain (client.calls + 1 + 1)
        max_packet_size total (omega arith) in
    let m = Generic.deserialize packet max_packet_size in
    let served =
      serve_once-served p works authenticate lawful packet plain []
        (record server { incoming = joined (packet ∷ []) }) v
        (message_code Message.download_request) (return_code success) refl wire_size
        (at_counter ∙ paired.same_counter)
        (ap (λ k. p.unseal k m.iv m.aad m.tag m.ciphertext) (sym paired.same_key) ∙ opens) code
        (dispatch-download p works authenticate plain s1 v (return_code success) ran) in
    let c0 = record client { incoming = joined (first ∷ packets xs) } in
    let acts =
      Whole.download_request-done p works lawful authenticate name first [] plain (length e.content)
        xs c0 free made total small
        (Announces-moved p server.session_key client.session_key (server.counter + 1)
          (client.counter + 1) (message_code download_ack) (length e.content) first
          (sym paired.same_key) (omega (arith, paired.same_counter)) announces)
        all coded count (ap (λ r. first ++ r) (joined-packets xs ∙ sym (append-nil (stream xs))))
        (omega arith) in
    (
      packet ∷ [],
      first ∷ packets xs,
      _,
      v,
      acts,
      refl,
      refl,
      served,
      out,
      left,
      find-created local (contents xs) client.disk free ∙ ap (λ b. some (fresh_entry b)) text,
      kept,
      omega (arith, paired.same_counter, counted),
    )
