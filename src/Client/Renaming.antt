-- ===== src/Client/Renaming.antt =====
-- `Client::renameRequest` of src/modules/Client.cpp, given the server's answer.
use secure_cloud_storage.Common.{
  ℕ, ◌+◌, ◌<◌, ◌≡◌, refl, true, not, Option, none, some, [], ◌∷◌, ◌++◌, length, arith, ◌==◌,
}
use secure_cloud_storage.Config.{max_packet_size, max_counter_value}
use secure_cloud_storage.Codes.{
  return_code, Return, success, result_code, nack, file_already_exists, rename_failure,
}
use secure_cloud_storage.Memory.{Bytes}
use secure_cloud_storage.Messages.Generic.{generic}
use secure_cloud_storage.Messages.Rename.{rename, serialize_rename_message}
use secure_cloud_storage.Files.{Disk, Entry}
use secure_cloud_storage.World.{Platform, IsLawful, World, M, returned, leave, require, ◌>>=◌, ◌>>◌}
use secure_cloud_storage.Channel.Exchange.{sealed, on_wire, send_message-whole}
use secure_cloud_storage.Steps.Counter.{counted_to}
use secure_cloud_storage.Steps.Replies.{Tells}
use secure_cloud_storage.Server.Renaming.{renamed}
use secure_cloud_storage.Client.Requests.{rename_request}
use secure_cloud_storage.Client.Replies.{receive_reply-Tells}

-- What the user is told of a rename, by what the two names lead to on the server.
abbrev pub told : Option Entry → Option Entry → ℕ
told none there = return_code Return.file_not_found
told (some e) (some d) = return_code file_already_exists
told (some e) none = return_code success

-- The tests on the code of the answer.
abbrev verdict : ℕ → M ℕ
verdict code = do
  require (not (code == return_code Return.file_not_found)) (return_code Return.file_not_found)
  require (not (code == return_code file_already_exists)) (return_code file_already_exists)
  require (not (code == result_code nack)) (return_code rename_failure)
  leave (return_code success)

verdict-returned :
    (o n : Option Entry) (old new : Bytes) (disk : Disk) (w : World)
    → verdict (renamed o n old new disk).0 w ≡ returned (told o n) w
unfolding require ◌>>=◌
verdict-returned none n old new disk w = refl
verdict-returned (some e) (some d) old new disk w = refl
verdict-returned (some e) none old new disk w = refl

module _ (p : Platform) (works : (n : ℕ) → p.succeeds n ≡ true) (lawful : IsLawful p)
    (authenticate : M ℕ) (old new : Bytes) where
  -- The request's plaintext, and its packet.
  abbrev pub request : Bytes
  request = serialize_rename_message (rename old new) (p.fresh max_packet_size)

  abbrev pub request_packet : World → Bytes
  request_packet w =
      on_wire p works (sealed p works w.session_key (generic w.counter) request w.calls)

  -- The client's rename, given an answer with the server's code.
  pub rename_request-done :
      (o n : Option Entry) (a b first : Bytes) (disk : Disk) (w : World)
      → length request ≡ max_packet_size
      → Tells p w.session_key (w.counter + 1) (renamed o n a b disk).0 first
      → w.incoming ≡ first ++ []
      → w.counter + 1 < max_counter_value
      → rename_request p authenticate old new w
        ≡ returned (told o n) (record w {
          incoming = [];
          counter = w.counter + 2;
          calls = w.calls + 9 + 5;
          outgoing = w.outgoing ++ (request_packet w ∷ []);
        })
  unfolding rename_request ◌>>=◌
  rename_request-done o n a b first disk w total tells next room =
      let sent = send_message-whole p works lawful request max_packet_size w total (omega arith) in
      let u1 = record w { calls = w.calls + 9; outgoing = w.outgoing ++ (request_packet w ∷ []) } in
      let u2 = record u1 { counter = w.counter + 1 } in
      let replied =
        receive_reply-Tells p works lawful authenticate (renamed o n a b disk).0 first [] u2 next
          tells in
      let u3 = record u2 { incoming = []; calls = w.calls + 9 + 5 } in
      rw
        (
          sent,
          counted_to p authenticate u1 (w.counter + 1) (omega arith) refl,
          replied,
          counted_to p authenticate u3 (w.counter + 2) (omega arith) (omega arith),
          tells.says,
        )
        (verdict-returned o n a b disk (record u3 { counter = w.counter + 2 }))
