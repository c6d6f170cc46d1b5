-- ===== src/Tests/Server.antt =====
-- The server's theorems, at concrete sessions.
use secure_cloud_storage.Common.{
  ◌+◌, ◌≡◌, ◌≢◌, ◌⊎◌, refl, false, none, some, [], ◌∷◌, ◌++◌, length, replicate, arith, eq_bytes,
}
use secure_cloud_storage.Codes.{return_code, success, result_code, ack}
use secure_cloud_storage.Memory.{Bytes, c_string, read_at, u32_value, u32_bytes, htonl}
use secure_cloud_storage.Files.{codes, Entry, find, fresh_entry}
use secure_cloud_storage.Files.Manager.{init_file_info}
use secure_cloud_storage.Messages.Upload.{deserialize_upload_m1}
use secure_cloud_storage.Messages.Generic
use secure_cloud_storage.World.{World, done, returned, final}
use secure_cloud_storage.Channel.{send_message}
use secure_cloud_storage.Server.Handlers.{
  list_request, download_request, upload_request, logout_request,
}
use secure_cloud_storage.Server.Session.{run, accept_packet}
use secure_cloud_storage.Server.Storage.Unchanged.{reading_leaves_disk}
use secure_cloud_storage.Server.Storage.Uploads.{upload_leaves_files}
use secure_cloud_storage.Steps.Pieces.{Piece, AllPieces}
use secure_cloud_storage.Files.Opening.{write_manager}
use secure_cloud_storage.Server.Uploading.Whole.{upload_completes}
use secure_cloud_storage.Steps.Replies.{Tells}
use secure_cloud_storage.Server.Termination.{run_total}
use secure_cloud_storage.Channel.Exchange.{send_message_opens}
use secure_cloud_storage.Server.Authentic.{IsCurrent, IsRefused, accept_packet_authentic}
use secure_cloud_storage.Tests.Platform.{
  toy, toy-IsLawful, login, login-SameDisk, login-Shrinks, session, key, tag_of,
}

-- The request to upload three bytes as `new`.
abbrev request : Bytes
request = 3 ∷ codes "new" ++ replicate 32 0 ++ (3 ∷ 0 ∷ 0 ∷ 0 ∷ replicate 31 9)

request_name : c_string (deserialize_upload_m1 request).filename ≡ some (codes "new")
unfolding deserialize_upload_m1 read_at c_string
request_name = refl

-- The chunk behind it.
abbrev chunk : Piece
chunk = record {
  packet =
      replicate 12 0
      ++ (u32_bytes (htonl 7) ++ (tag_of key (u32_bytes (htonl 7)) ++ (4 ∷ codes "one")));
  code = 4;
  content = codes "one";
}

abbrev uploading : World
uploading = record session { incoming = chunk.packet ++ (1 ∷ 2 ∷ []) }

chunk-AllPieces :
    AllPieces toy key
      (write_manager (codes "../data/eve/new") (deserialize_upload_m1 request).file_size)
      0
      7
      (chunk ∷ [])
unfolding init_file_info secure_cloud_storage.Files.Doubles.chunks_of deserialize_upload_m1 read_at
    u32_value u32_bytes htonl eq_bytes Generic.deserialize Generic.get_counter
chunk-AllPieces =
    (record { packet_size = refl; at_counter = refl; opens = refl; content_size = refl }, tt)

chunk_count :
    1
    ≡ (write_manager (codes "../data/eve/new") (deserialize_upload_m1 request).file_size).chunks_num
unfolding init_file_info secure_cloud_storage.Files.Doubles.chunks_of deserialize_upload_m1 read_at
    u32_value
chunk_count = refl

name_free : find (codes "../data/eve/new") session.disk ≡ none
unfolding find eq_bytes
name_free = refl

upload_completes_example :
    (v : World) × (first : Bytes) × (last : Bytes) × (upload_request toy login request uploading
      ≡ returned (return_code success) v)
    × (find (codes "../data/eve/new") v.disk ≡ some (fresh_entry (codes "one")))
    × (length (codes "one") ≡ (deserialize_upload_m1 request).file_size)
    × (v.incoming ≡ 1 ∷ 2 ∷ [])
    × (v.counter ≡ 9)
    × (v.outgoing ≡ first ∷ last ∷ [])
    × Tells toy key 6 (result_code ack) first
    × Tells toy key 8 (result_code ack) last
unfolding u32_bytes
upload_completes_example =
    upload_completes toy (λ n. refl) toy-IsLawful login request (codes "new") (chunk ∷ [])
      (1 ∷ 2 ∷ []) uploading request_name name_free chunk-AllPieces chunk_count refl (omega arith)

reading_leaves_disk_example :
    ((final (list_request toy login session)).disk ≡ session.disk)
    × ((final (download_request toy login request session)).disk ≡ session.disk)
    × ((final (logout_request toy login session)).disk ≡ session.disk)
reading_leaves_disk_example = reading_leaves_disk toy login login-SameDisk request session

upload_leaves_files_example :
    let after = (final (upload_request toy login request uploading)).disk in
    ((q : Bytes) → codes "../data/eve/new" ≢ q → find q after ≡ find q session.disk)
    × ((e : Entry) → find (codes "../data/eve/new") session.disk ≡ some e → after ≡ session.disk)
upload_leaves_files_example =
    upload_leaves_files toy login login-SameDisk request (codes "new") uploading (omega arith)
      request_name

run_total_example : run toy login 200 uploading ≢ done false session
unfolding u32_bytes
run_total_example = run_total toy login-Shrinks 200 uploading session (omega arith)

accept_packet_authentic_example :
    IsCurrent toy session chunk.packet
    ⊎ IsRefused toy session (accept_packet toy login chunk.packet session)
accept_packet_authentic_example =
    accept_packet_authentic toy login chunk.packet session toy-IsLawful

send_message_opens_example :
    (packet : Bytes) × (send_message toy (codes "one") 2 session
      ≡ done tt (record session {
        calls = session.calls + 9;
        outgoing = session.outgoing ++ (packet ∷ []);
      }))
    × (length packet ≡ Generic.get_message_size 2)
    × (Generic.get_counter (Generic.deserialize packet 2) ≡ 5)
    × (let m = Generic.deserialize packet 2 in
        toy.unseal key m.iv m.aad m.tag m.ciphertext ≡ some (codes "on"))
send_message_opens_example =
    send_message_opens toy (λ n. refl) toy-IsLawful (codes "one") 2 session refl (omega arith)
      (omega arith)
