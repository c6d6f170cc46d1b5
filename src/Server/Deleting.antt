-- ===== src/Server/Deleting.antt =====
-- `Server::deleteRequest` of src/modules/Server.cpp: the question and the client's answer.
pub mod Decided
use secure_cloud_storage.Common.{
  ℕ, ◌+◌, ◌^◌, ◌<◌, ◌≡◌, ◌≢◌, refl, sym, ap, ◌∙◌, ◌⊎◌, inl, inr, Bool, true, false, not, Option,
  none, some, [], ◌∷◌, ◌++◌, length, arith, ◌==◌, ==_iff, Bool-cases, eq_bytes, append_assoc,
  if◌then◌else◌,
}
use secure_cloud_storage.Config.{max_packet_size, max_counter_value}
use secure_cloud_storage.Codes.{
  return_code, success, result_code, ack, message_code, delete_ask, delete_confirm, error_code,
  filename_not_found, wrong_msg_code,
}
use secure_cloud_storage.Memory.{Bytes, c_string}
use secure_cloud_storage.Messages.Delete
use secure_cloud_storage.Messages.Simple
use secure_cloud_storage.Messages.Generic
use secure_cloud_storage.Files
use secure_cloud_storage.Files.{Disk, Entry, find}
use secure_cloud_storage.Files.Laws.{find-remove}
use secure_cloud_storage.Files.Manager.{is_file_present}
use secure_cloud_storage.World.{
  Platform, IsLawful, World, M, Outcome, done, returned, modify, require, to_string, to_string-done,
  world, leave, ◌>>=◌, ◌>>◌,
}
use secure_cloud_storage.Channel.{attempt, receive_message}
use secure_cloud_storage.Server.Handlers.{remove_file, delete_request, user_path}
use secure_cloud_storage.Steps.{increment_counter, send_simple}
use secure_cloud_storage.Steps.Counter.{increment_counter-done, counted_to}
use secure_cloud_storage.Channel.Exchange.{receive_message-done}
use secure_cloud_storage.Steps.Replies.{Tells, send_simple-done}

-- The packet opens under the key, at the counter, to a simple message with the code.
abbrev pub IsReply : Platform → Bytes → ℕ → ℕ → Bytes → Bytes → Type 0
IsReply p key counter code plain packet =
    let m = Generic.deserialize packet max_packet_size in
    (length packet ≡ Generic.get_message_size max_packet_size)
    × (counter ≡ Generic.get_counter m)
    × (p.unseal key m.iv m.aad m.tag m.ciphertext ≡ some plain)
    × ((Simple.deserialize plain).message_code ≡ code)

module _ (p : Platform) (works : (n : ℕ) → p.succeeds n ≡ true) (lawful : IsLawful p)
    (authenticate : M ℕ) where
  -- The world in which the confirmation has been read and counted.
  abbrev pub confirmed : World → Bytes → Bytes → World
  confirmed w ask rest = record w {
    counter = w.counter + 3;
    outgoing = w.outgoing ++ (ask ∷ []);
    incoming = rest;
    calls = w.calls + 10 + 5;
  }

  -- What `deleteRequest` does from there.
  abbrev pub decide : ℕ → Bytes → M ℕ
  decide code field = do
    require (code == message_code delete_confirm) (return_code wrong_msg_code)
    name ← to_string field
    v ← world
    require (is_file_present (user_path v name) v.disk) (error_code filename_not_found)
    remove_file p authenticate (user_path v name)
    send_simple p authenticate (result_code ack)
    increment_counter p authenticate
    leave (return_code success)

  pub asked :
      (plaintext packet plain rest : Bytes) (code : ℕ) (w : World)
      → w.counter + 2 < max_counter_value
      → w.incoming ≡ packet ++ rest
      → IsReply p w.session_key (w.counter + 2) code plain packet
      → (ask : Bytes) × (delete_request p authenticate plaintext w
          ≡ decide code (Delete.deserialize plaintext).file_name (confirmed w ask rest))
        × Tells p w.session_key (w.counter + 1) (message_code delete_ask) ask
  unfolding delete_request require ◌>>=◌
  asked plaintext packet plain rest code w low next (size, now, opens, says) =
      let w1 = record w { counter = w.counter + 1 } in
      let (ask, sent, tells) =
        send_simple-done p works lawful authenticate (message_code delete_ask) w1 (omega arith) in
      let u1 = record w1 { calls = w.calls + 10; outgoing = w.outgoing ++ (ask ∷ []) } in
      let u2 = record u1 { counter = w.counter + 2 } in
      let u3 = record u2 { incoming = rest; calls = w.calls + 10 + 5 } in
      let same = (==_iff (w.counter + 2) _).1 now in
      (
        ask,
        rw
            (
              increment_counter-done p authenticate w (omega arith),
              sent,
              counted_to p authenticate u1 (w.counter + 2) (omega arith) (omega arith),
              receive_message-done p works lawful Simple.get_message_size packet rest plain u2 next
                  size (omega arith) opens,
              same,
              counted_to p authenticate u3 (w.counter + 3) low (omega arith),
              says,
            )
            refl,
        tells,
      )
