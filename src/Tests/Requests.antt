-- ===== src/Tests/Requests.antt =====
-- The theorems on the other requests, at concrete sessions.
use secure_cloud_storage.Common.{
  ℕ, ◌+◌, ◌≤◌, ◌≡◌, ◌≢◌, inl, refl, true, none, some, List, [], ◌∷◌, ◌++◌, length, replicate, arith,
  eq_bytes,
}
use secure_cloud_storage.Codes.{
  return_code, success, result_code, ack, message_code, delete_ask, delete_confirm, download_ack,
  wrong_msg_code,
}
use secure_cloud_storage.Memory.{Bytes, c_string, read_at, u32_value, htonl}
use secure_cloud_storage.Files.{codes, Entry, find, fresh_entry}
use secure_cloud_storage.Files.Manager.{init_file_info}
use secure_cloud_storage.Messages.Generic
use secure_cloud_storage.Messages.Simple
use secure_cloud_storage.Messages.Download
use secure_cloud_storage.Messages.Delete
use secure_cloud_storage.Messages.Rename.{deserialize_rename_message}
use secure_cloud_storage.World.{World, returned, pure, ◌>>=◌}
use secure_cloud_storage.Server.Handlers.{
  download_request, rename_request, delete_request, logout_request,
}
use secure_cloud_storage.Server.Session.{accept_packet, dispatch}
use secure_cloud_storage.Steps.Replies.{Tells}
use secure_cloud_storage.Server.Leaving.{logout_leaves_zero_key}
use secure_cloud_storage.Server.Renaming.{rename_answers}
use secure_cloud_storage.Server.Deleting.{IsReply}
use secure_cloud_storage.Server.Deleting.Decided.{delete_completes, delete_refused}
use secure_cloud_storage.Server.Downloading.{chunks_in}
use secure_cloud_storage.Files.Opening.{read_manager}
use secure_cloud_storage.Server.Downloading.Whole.{Announces, download_completes}
use secure_cloud_storage.Tests.Platform.{toy, toy-IsLawful, login, session, key, packet_at}

-- The file `a` of the session.
abbrev file : Entry
file = fresh_entry (codes "one")

there : find (codes "../data/eve/a") session.disk ≡ some file
unfolding find eq_bytes
there = refl

-- A request with the code for the file `a`.
abbrev request : ℕ → Bytes
request code = code ∷ codes "a" ++ replicate 69 0

download_name : c_string (Download.deserialize_m1 (request 5)).filename ≡ some (codes "a")
unfolding Download.deserialize_m1 read_at c_string
download_name = refl

room :
    session.counter + 2 + (read_manager (codes "../data/eve/a") file.content).chunks_num
    ≤ 4294967295
unfolding init_file_info secure_cloud_storage.Files.Doubles.chunks_of
room = omega arith

download_completes_example :
    (v : World) × (first : Bytes) × (packets : List Bytes) × (download_request toy login
        (request 5)
        session
      ≡ returned (return_code success) v)
    × (v.outgoing ≡ first ∷ packets)
    × Announces toy key 6 (message_code download_ack) 3 first
    × (chunks_in toy key (read_manager (codes "../data/eve/a") (codes "one")) 0 7 packets
        ≡ some (codes "one"))
    × (length packets ≡ (read_manager (codes "../data/eve/a") (codes "one")).chunks_num)
    × (v.counter ≡ 7 + (read_manager (codes "../data/eve/a") (codes "one")).chunks_num)
    × (v.disk ≡ session.disk)
download_completes_example =
    download_completes toy (λ n. refl) toy-IsLawful login (request 5) (codes "a") file session
      download_name there refl refl (omega arith) (omega arith) room

-- The request to rename `a` to `c`.
abbrev rename_a : Bytes
rename_a = 14 ∷ codes "a" ++ replicate 34 0 ++ codes "c" ++ replicate 34 0

rename_old : c_string (deserialize_rename_message rename_a).old_filename ≡ some (codes "a")
unfolding deserialize_rename_message read_at c_string
rename_old = refl

rename_new : c_string (deserialize_rename_message rename_a).new_filename ≡ some (codes "c")
unfolding deserialize_rename_message read_at c_string
rename_new = refl

rename_answers_example :
    (v : World) × (reply : Bytes) × (rename_request toy login rename_a session
      ≡ returned (return_code success) v)
    × (v.outgoing ≡ reply ∷ [])
    × (v.incoming ≡ session.incoming)
    × (v.counter ≡ 7)
    × Tells toy key 6 (result_code ack) reply
    × (find (codes "../data/eve/c") v.disk ≡ some file)
unfolding find eq_bytes
rename_answers_example =
    rename_answers toy (λ n. refl) toy-IsLawful login rename_a (codes "a") (codes "c")
      (codes "../data/eve/c") session (omega arith) rename_old rename_new

delete_name : c_string (Delete.deserialize (request 8)).file_name ≡ some (codes "a")
unfolding Delete.deserialize read_at c_string
delete_name = refl

-- A simple message of the client.
abbrev simple : ℕ → Bytes
simple code = code ∷ replicate 70 0

abbrev answering : ℕ → World
answering code = record session { incoming = packet_at key 7 (simple code) ++ (1 ∷ []) }

simple-IsReply : (code : ℕ) → IsReply toy key 7 code (simple code) (packet_at key 7 (simple code))
unfolding Generic.deserialize Generic.get_counter Simple.deserialize read_at u32_value htonl
    eq_bytes
simple-IsReply code = (refl, refl, refl, refl)

delete_completes_example :
    (v : World) × (ask : Bytes) × (reply : Bytes) × (delete_request toy login
        (request 8)
        (answering 10)
      ≡ returned (return_code success) v)
    × (v.outgoing ≡ ask ∷ reply ∷ [])
    × (v.incoming ≡ 1 ∷ [])
    × Tells toy key 6 (message_code delete_ask) ask
    × Tells toy key 8 (result_code ack) reply
    × (v.counter ≡ 9)
    × (find (codes "../data/eve/a") v.disk ≡ none)
unfolding eq_bytes
delete_completes_example =
    delete_completes toy (λ n. refl) toy-IsLawful login (request 8) (packet_at key 7 (simple 10))
      (simple 10) (1 ∷ []) (codes "a") (codes "../data/eve/a") file (answering 10) (omega arith)
      refl (simple-IsReply 10) delete_name there

not_confirmed : 0 ≢ message_code delete_confirm
not_confirmed = omega arith

delete_refused_example :
    (v : World) × (ask : Bytes) × (delete_request toy login (request 8) (answering 0)
      ≡ returned (return_code wrong_msg_code) v)
    × (v.outgoing ≡ ask ∷ [])
    × Tells toy key 6 (message_code delete_ask) ask
    × (v.counter ≡ 8)
    × (v.disk ≡ session.disk)
delete_refused_example =
    delete_refused toy (λ n. refl) toy-IsLawful login (request 8) (packet_at key 7 (simple 0))
      (simple 0) (1 ∷ []) (codes "a") 0 (answering 0) (omega arith) refl (simple-IsReply 0)
      delete_name (inl not_confirmed)

-- A request for the list, sealed under the key of zeros.
abbrev forged : Bytes
forged = packet_at (replicate 16 0) 6 (simple 11)

forged_counter : 6 ≡ Generic.get_counter (Generic.deserialize forged 71)
unfolding Generic.deserialize Generic.get_counter read_at u32_value htonl
forged_counter = refl

forged_opens :
    let m = Generic.deserialize forged 71 in
    toy.unseal (replicate 16 0) m.iv m.aad m.tag m.ciphertext ≡ some (simple 11)
unfolding Generic.deserialize read_at eq_bytes
forged_opens = refl

logout_leaves_zero_key_example :
    (v : World) × (reply : Bytes) × (logout_request toy login session
      ≡ returned (return_code success) v)
    × (v.session_key ≡ replicate 16 0)
    × (v.counter ≡ 6)
    × (v.outgoing ≡ reply ∷ [])
    × Tells toy key 6 (result_code ack) reply
    × (accept_packet toy login forged v
        ≡ (dispatch toy login 11 (simple 11) >>= λ result. pure true)
            (record v { calls = v.calls + 5 }))
logout_leaves_zero_key_example =
    logout_leaves_zero_key toy (λ n. refl) toy-IsLawful login session forged (simple 11)
      (omega arith) forged_counter forged_opens
