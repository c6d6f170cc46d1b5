-- ===== src/Server/Keeps/Handlers.antt =====
-- What the handlers keep. Beside the traffic, a preorder allows for the counter to change and is
-- kept by the authentication that a used-up counter starts; what a handler does to the storage or
-- to the session key it must allow besides.
use secure_cloud_storage.Common.{ℕ, zero, suc, ◌+◌, ◌%◌, ◌^◌, ◌==◌, Bool}
use secure_cloud_storage.Config.{max_counter_value}
use secure_cloud_storage.Memory.{Bytes}
use secure_cloud_storage.Files.{Disk}
use secure_cloud_storage.Codes.{result_code, ack, return_code, success}
use secure_cloud_storage.Files.Manager.{FileManager, write, init_file_info, file_manager}
use secure_cloud_storage.World.{Platform, World, M, ◌>>=◌, ◌>>◌, leave}
use secure_cloud_storage.Server.Handlers.{
  wipe_key, list_request, download_chunks, download_request, upload_chunks, upload_request,
  answer_upload, receive_file, rename_file, rename_request, remove_file, delete_request,
  logout_request,
}
use secure_cloud_storage.Steps.{
  count_up, increment_counter, reauthenticate, send_simple, store_chunk, open_for_writing,
}
use secure_cloud_storage.Server.Keeps.{IsPreorder, Keeps}
use secure_cloud_storage.Server.Keeps.Rules.{keeps_rules, Keeps-bind, Keeps-world, Keeps-if}
use secure_cloud_storage.Server.Keeps.Channel.{
  AllowsTraffic, random-Keeps, encrypt-Keeps, send_sealed-Keeps, send_message-Keeps,
  receive_message-Keeps,
}

-- The counter may go up, by wrap-around too.
abbrev pub AllowsCounting : (World → World → Type 0) → Type 0
AllowsCounting R = (w : World) → R w (record w { counter = (w.counter + 1) % 2 ^ 32 })

module _ (p : Platform) {R : World → World → Type 0} (allows : AllowsTraffic R)
    (counting : AllowsCounting R) {authenticate : M ℕ} (again : Keeps R authenticate) where
  pre : IsPreorder R
  pre = allows.order

  count_up-Keeps : Keeps R count_up
  unfolding count_up
  count_up-Keeps = record { at = counting }

  reauthenticate-Keeps : Keeps R (reauthenticate p authenticate)
  unfolding reauthenticate
  reauthenticate-Keeps = search (keeps_rules, pre)

  pub increment_counter-Keeps : Keeps R (increment_counter p authenticate)
  unfolding increment_counter
  increment_counter-Keeps =
      Keeps-bind pre (Keeps-world pre)
        (λ w. Keeps-if pre (w.counter == max_counter_value) reauthenticate-Keeps count_up-Keeps)

  pub send_simple-Keeps : (code : ℕ) → Keeps R (send_simple p authenticate code)
  unfolding send_simple
  send_simple-Keeps code =
      search (keeps_rules, pre, random-Keeps p allows, send_message-Keeps p allows)

  pub list_request-Keeps : Keeps R (list_request p authenticate)
  unfolding list_request
  list_request-Keeps =
      search (keeps_rules, pre, increment_counter-Keeps, send_message-Keeps p allows) depth 20

  pub download_chunks-Keeps :
      (left i : ℕ) (fm : FileManager) (buffer : Bytes)
      → Keeps R (download_chunks p authenticate left i fm buffer)
  unfolding download_chunks
  download_chunks-Keeps zero i fm buffer = search (keeps_rules, pre)
  download_chunks-Keeps (suc left) i fm buffer =
      let rest = λ (f : FileManager) (b : Bytes). download_chunks-Keeps left (i + 1) f b in
      search (keeps_rules, pre, increment_counter-Keeps, send_message-Keeps p allows, rest) depth 20

  pub download_request-Keeps :
      (plaintext : Bytes) → Keeps R (download_request p authenticate plaintext)
  unfolding download_request
  download_request-Keeps plaintext =
      search
        (
          keeps_rules,
          pre,
          increment_counter-Keeps,
          send_message-Keeps p allows,
          download_chunks-Keeps,
        )
        depth 20

  pub logout_request-Keeps : Keeps R wipe_key → Keeps R (logout_request p authenticate)
  unfolding logout_request
  logout_request-Keeps wiping =
      search
        (
          keeps_rules,
          pre,
          increment_counter-Keeps,
          random-Keeps p allows,
          encrypt-Keeps p allows,
          send_sealed-Keeps p allows,
        )
        depth 20

  pub upload_chunks-Keeps :
      (left i : ℕ) (fm : FileManager)
      → ((chunk : Bytes) (size : ℕ) → Keeps R (store_chunk fm chunk size))
      → Keeps R (upload_chunks p authenticate left i fm)
  unfolding upload_chunks
  upload_chunks-Keeps zero i fm storing = search (keeps_rules, pre)
  upload_chunks-Keeps (suc left) i fm storing =
      let rest = upload_chunks-Keeps left (i + 1) fm storing in
      search (keeps_rules, pre, increment_counter-Keeps, receive_message-Keeps p allows) depth 20

  after_opening :
      (fm : FileManager)
      → ((chunk : Bytes) (size : ℕ) → Keeps R (store_chunk fm chunk size))
      → Keeps R {A = ℕ} (do
        upload_chunks p authenticate fm.chunks_num 0 fm
        send_simple p authenticate (result_code ack)
        increment_counter p authenticate
        leave (return_code success))
  after_opening fm storing =
      let chunks = λ (left i : ℕ). upload_chunks-Keeps left i fm storing in
      search (keeps_rules, pre, increment_counter-Keeps, send_simple-Keeps, chunks) depth 20

  -- `storing` speaks only of the stream that was opened on the path.
  pub receive_file-Keeps :
      (path : Bytes) (file_size : ℕ)
      → Keeps R (open_for_writing p authenticate path)
      → ((disk : Disk) (creatable : Bool) (chunk : Bytes) (size : ℕ)
          → Keeps R (
              store_chunk
                (init_file_info file_size (file_manager creatable path write disk).0)
                chunk
                size))
      → Keeps R (receive_file p authenticate path file_size)
  unfolding receive_file open_for_writing ◌>>=◌
  receive_file-Keeps path file_size opening storing = record {
    at = λ w.
        let creatable = p.succeeds w.calls in
        pre.then_also w _ _ (opening.at w) ((after_opening _ (storing w.disk creatable)).at _);
  }

  -- For a preorder that allows for any change of the storage.
  pub upload_request-Keeps :
      ((path : Bytes) → Keeps R (open_for_writing p authenticate path))
      → ((fm : FileManager) (chunk : Bytes) (size : ℕ) → Keeps R (store_chunk fm chunk size))
      → (plaintext : Bytes) → Keeps R (upload_request p authenticate plaintext)
  unfolding upload_request answer_upload receive_file
  upload_request-Keeps opening storing plaintext =
      let chunks = λ (left i : ℕ) (fm : FileManager). upload_chunks-Keeps left i fm (storing fm) in
      search (keeps_rules, pre, increment_counter-Keeps, send_simple-Keeps, opening, chunks) depth
        20

  pub rename_request-Keeps :
      ((old new : Bytes) → Keeps R (rename_file p authenticate old new))
      → (plaintext : Bytes) → Keeps R (rename_request p authenticate plaintext)
  unfolding rename_request
  rename_request-Keeps renaming plaintext =
      search (keeps_rules, pre, increment_counter-Keeps, send_simple-Keeps, renaming) depth 20

  pub delete_request-Keeps :
      ((path : Bytes) → Keeps R (remove_file p authenticate path))
      → (plaintext : Bytes) → Keeps R (delete_request p authenticate plaintext)
  unfolding delete_request
  delete_request-Keeps removing plaintext =
      search
        (
          keeps_rules,
          pre,
          increment_counter-Keeps,
          send_simple-Keeps,
          receive_message-Keeps p allows,
          removing,
        )
        depth 20
