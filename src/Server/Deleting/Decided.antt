-- ===== src/Server/Deleting/Decided.antt =====
-- `Server::deleteRequest` of src/modules/Server.cpp: what the answer decides.
use secure_cloud_storage.Common.{
  ℕ, ◌+◌, ◌<◌, ◌≡◌, ◌≢◌, refl, ◌∙◌, ◌⊎◌, inl, inr, true, false, none, some, [], ◌∷◌, ◌++◌, arith,
  ◌==◌, ==_iff, Bool-cases, eq_bytes, append_assoc, if◌then◌else◌,
}
use secure_cloud_storage.Config.{max_counter_value}
use secure_cloud_storage.Codes.{
  return_code, success, result_code, ack, message_code, delete_ask, delete_confirm, error_code,
  filename_not_found, wrong_msg_code,
}
use secure_cloud_storage.Memory.{Bytes, c_string}
use secure_cloud_storage.Messages.Delete
use secure_cloud_storage.Files
use secure_cloud_storage.Files.{Disk, Entry, find}
use secure_cloud_storage.Files.Laws.{find-remove}
use secure_cloud_storage.Files.Manager.{is_file_present}
use secure_cloud_storage.World.{
  Platform, IsLawful, World, M, returned, modify, require, to_string-done, ◌>>=◌,
}
use secure_cloud_storage.Channel.{attempt}
use secure_cloud_storage.Server.Handlers.{remove_file, delete_request, user_path}
use secure_cloud_storage.Steps.Replies.{Tells, send_simple-done}
use secure_cloud_storage.Steps.Counter.{counted_to}
use secure_cloud_storage.Server.Deleting.{IsReply, confirmed, decide, asked}

present :
    (path : Bytes) (disk : Disk) (e : Entry)
    → find path disk ≡ some e
    → is_file_present path disk ≡ true
unfolding is_file_present
present path disk e h = rw (h, is_file_present)

absent : (path : Bytes) (disk : Disk) → find path disk ≡ none → is_file_present path disk ≡ false
unfolding is_file_present
absent path disk h = rw (h, is_file_present)

-- A deletion is asked for and confirmed, while no call fails: the server asks at the next counter,
-- and when a confirmation opens under the session key at the counter after that, exactly the named
-- file goes, every other path leads to what it led to, the acknowledgement is sent, and what
-- follows the confirmation is still to be received.
pub delete_completes :
    (p : Platform)
    → ((n : ℕ) → p.succeeds n ≡ true)
    → IsLawful p
    → (authenticate : M ℕ) (plaintext packet plain rest name q : Bytes) (e : Entry) (w : World)
    → w.counter + 3 < max_counter_value
    → w.incoming ≡ packet ++ rest
    → IsReply p w.session_key (w.counter + 2) (message_code delete_confirm) plain packet
    → c_string (Delete.deserialize plaintext).file_name ≡ some name
    → find (user_path w name) w.disk ≡ some e
    → (v : World) × (ask : Bytes) × (reply : Bytes) × (delete_request p authenticate plaintext w
        ≡ returned (return_code success) v)
      × (v.outgoing ≡ w.outgoing ++ (ask ∷ reply ∷ []))
      × (v.incoming ≡ rest)
      × Tells p w.session_key (w.counter + 1) (message_code delete_ask) ask
      × Tells p w.session_key (w.counter + 3) (result_code ack) reply
      × (v.counter ≡ w.counter + 4)
      × (find q v.disk ≡ (if eq_bytes (user_path w name) q then none else find q w.disk))
unfolding require remove_file attempt modify ◌>>=◌
delete_completes p works lawful authenticate plaintext packet plain rest name q e w low next confirm
      named there =
    let path = user_path w name in
    let (ask, step, tells) =
      asked p works lawful authenticate plaintext packet plain rest (message_code delete_confirm) w
        (omega arith) next confirm in
    let u = confirmed p works lawful authenticate w ask rest in
    let x = record u { disk = Files.remove path w.disk; calls = u.calls + 1 } in
    let (reply, sent, tells') =
      send_simple-done p works lawful authenticate (result_code ack) x (omega arith) in
    let y = record x { calls = x.calls + 10; outgoing = x.outgoing ++ (reply ∷ []) } in
    (
      record y { counter = w.counter + 4 },
      ask,
      reply,
      step
          ∙ (rw
              (
                to_string-done (Delete.deserialize plaintext).file_name name u named,
                present path w.disk e there,
                works u.calls,
              )
              (rw (sent, counted_to p authenticate y (w.counter + 4) low (omega arith)) refl)),
      append_assoc w.outgoing (ask ∷ []) (reply ∷ []),
      refl,
      tells,
      tells',
      refl,
      find-remove path q w.disk,
    )

-- A deletion that is not confirmed, or whose file is not there, changes no file and is not
-- answered: after the server's question no packet goes out, whichever of the two it is, and the
-- result is the code for a wrong message or for a missing file.
pub delete_refused :
    (p : Platform)
    → ((n : ℕ) → p.succeeds n ≡ true)
    → IsLawful p
    → (authenticate : M ℕ) (plaintext packet plain rest name : Bytes) (code : ℕ) (w : World)
    → w.counter + 2 < max_counter_value
    → w.incoming ≡ packet ++ rest
    → IsReply p w.session_key (w.counter + 2) code plain packet
    → c_string (Delete.deserialize plaintext).file_name ≡ some name
    → (code ≢ message_code delete_confirm) ⊎ (find (user_path w name) w.disk ≡ none)
    → (v : World) × (ask : Bytes) × (delete_request p authenticate plaintext w
        ≡ returned
            (if code == message_code delete_confirm
              then error_code filename_not_found
              else return_code wrong_msg_code)
            v)
      × (v.outgoing ≡ w.outgoing ++ (ask ∷ []))
      × Tells p w.session_key (w.counter + 1) (message_code delete_ask) ask
      × (v.counter ≡ w.counter + 3)
      × (v.disk ≡ w.disk)
unfolding require ◌>>=◌
delete_refused p works lawful authenticate plaintext packet plain rest name code w low next reply
      named why =
    let (ask, step, tells) =
      asked p works lawful authenticate plaintext packet plain rest code w low next reply in
    (
      confirmed p works lawful authenticate w ask rest,
      ask,
      step ∙ stops ask (Bool-cases (code == message_code delete_confirm)) why,
      refl,
      tells,
      refl,
      refl,
    )
  where
    stops :
        (ask : Bytes)
        → ((code == message_code delete_confirm) ≡ true)
          ⊎ ((code == message_code delete_confirm) ≡ false)
        → (code ≢ message_code delete_confirm) ⊎ (find (user_path w name) w.disk ≡ none)
        → let u = confirmed p works lawful authenticate w ask rest in
          decide p works lawful authenticate code (Delete.deserialize plaintext).file_name u
          ≡ returned
              (if code == message_code delete_confirm
                then error_code filename_not_found
                else return_code wrong_msg_code)
              u
    stops ask (inr other) why = rw other refl
    stops ask (inl same) (inl other) = absurd (other ((==_iff code _).0 same))
    stops ask (inl same) (inr free) =
        let u = confirmed p works lawful authenticate w ask rest in
        rw
          (
            same,
            to_string-done (Delete.deserialize plaintext).file_name name u named,
            absent (user_path w name) w.disk free,
          )
          refl
