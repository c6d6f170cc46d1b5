-- ===== src/Client/Keeping.antt =====
-- What the client's requests keep, by the rules of Server/Keeps.
use secure_cloud_storage.Common.{ℕ, zero, suc, ◌+◌, Bool, Option, none, some}
use secure_cloud_storage.Memory.{Bytes}
use secure_cloud_storage.Files.{Disk}
use secure_cloud_storage.Files.Manager.{FileManager, write, init_file_info, file_manager}
use secure_cloud_storage.World.{Platform, World, M, leave, ◌>>=◌, ◌>>◌}
use secure_cloud_storage.Channel.{send_message}
use secure_cloud_storage.Steps.{increment_counter, send_simple, store_chunk, open_for_writing}
use secure_cloud_storage.Server.Keeps.{IsPreorder, Keeps}
use secure_cloud_storage.Server.Keeps.Rules.{keeps_rules}
use secure_cloud_storage.Server.Keeps.Channel.{
  AllowsTraffic, random-Keeps, attempts-Keeps, send_message-Keeps, receive_message-Keeps,
}
use secure_cloud_storage.Server.Keeps.Handlers.{
  AllowsCounting, increment_counter-Keeps, send_simple-Keeps,
}
use secure_cloud_storage.Client.Requests.{
  receive_reply, padding, filled, list_request, save_chunks, download_request, send_chunks,
  upload_request, rename_request, logout_request, delete_request, local_path,
}
use secure_cloud_storage.Codes.{return_code, success}

module _ (p : Platform) {R : World → World → Type 0} (allows : AllowsTraffic R)
    (counting : AllowsCounting R) {authenticate : M ℕ} (again : Keeps R authenticate) where
  pre : IsPreorder R
  pre = allows.order

  count : Keeps R (increment_counter p authenticate)
  count = increment_counter-Keeps p allows counting again

  simple : (code : ℕ) → Keeps R (send_simple p authenticate code)
  simple code = send_simple-Keeps p allows counting again code

  sending : (buffer : Bytes) (len : ℕ) → Keeps R (send_message p buffer len)
  sending buffer len = send_message-Keeps p allows buffer len

  receive_reply-Keeps : (len : ℕ) → Keeps R (receive_reply p authenticate len)
  unfolding receive_reply
  receive_reply-Keeps len = search (keeps_rules, pre, receive_message-Keeps p allows) depth 20

  padding-Keeps : (len : ℕ) → Keeps R (padding p authenticate len)
  unfolding padding
  padding-Keeps len =
      search (keeps_rules, pre, random-Keeps p allows, attempts-Keeps p allows) depth 20

  filled-Keeps : (buffer : Option Bytes) → Keeps R (filled buffer)
  unfolding filled
  filled-Keeps none = record { at = λ w. pre.same w }
  filled-Keeps (some buffer) = record { at = λ w. pre.same w }

  pub list_request-Keeps : Keeps R (list_request p authenticate)
  unfolding list_request
  list_request-Keeps = search (keeps_rules, pre, count, simple, receive_reply-Keeps) depth 20

  pub send_chunks-Keeps :
      (left i : ℕ) (fm : FileManager) (buffer : Bytes)
      → Keeps R (send_chunks p authenticate left i fm buffer)
  unfolding send_chunks
  send_chunks-Keeps zero i fm buffer = search (keeps_rules, pre)
  send_chunks-Keeps (suc left) i fm buffer =
      let rest = λ (f : FileManager) (b : Bytes). send_chunks-Keeps left (i + 1) f b in
      search (keeps_rules, pre, count, sending, rest) depth 20

  pub upload_request-Keeps : (name : Bytes) → Keeps R (upload_request p authenticate name)
  unfolding upload_request
  upload_request-Keeps name =
      search
        (
          keeps_rules,
          pre,
          count,
          sending,
          receive_reply-Keeps,
          send_chunks-Keeps,
          random-Keeps p allows,
        )
        depth 40

  pub rename_request-Keeps : (old new : Bytes) → Keeps R (rename_request p authenticate old new)
  unfolding rename_request
  rename_request-Keeps old new =
      search (keeps_rules, pre, count, sending, receive_reply-Keeps) depth 40

  pub logout_request-Keeps : Keeps R (logout_request p authenticate)
  unfolding logout_request
  logout_request-Keeps = search (keeps_rules, pre, count, simple, receive_reply-Keeps) depth 20

  pub delete_request-Keeps :
      (sure : Bool) (name : Bytes) → Keeps R (delete_request p authenticate sure name)
  unfolding delete_request
  delete_request-Keeps sure name =
      search
        (keeps_rules, pre, count, simple, sending, receive_reply-Keeps, padding-Keeps, filled-Keeps)
        depth 40

  save_chunks-Keeps :
      (left i : ℕ) (fm : FileManager)
      → ((chunk : Bytes) (size : ℕ) → Keeps R (store_chunk fm chunk size))
      → Keeps R (save_chunks p authenticate left i fm)
  unfolding save_chunks
  save_chunks-Keeps zero i fm storing = search (keeps_rules, pre)
  save_chunks-Keeps (suc left) i fm storing =
      let rest = save_chunks-Keeps left (i + 1) fm storing in
      search (keeps_rules, pre, count, receive_reply-Keeps) depth 20

  saved :
      (fm : FileManager)
      → ((chunk : Bytes) (size : ℕ) → Keeps R (store_chunk fm chunk size))
      → Keeps R {A = ℕ}
          (do save_chunks p authenticate fm.chunks_num 0 fm; leave (return_code success))
  saved fm storing =
      let chunks = λ (left i : ℕ). save_chunks-Keeps left i fm storing in
      search (keeps_rules, pre, chunks) depth 20

  opened :
      (path : Bytes) (size : ℕ)
      → Keeps R (open_for_writing p authenticate path)
      → ((disk : Disk) (creatable : Bool) (chunk : Bytes) (n : ℕ)
          → Keeps R (
              store_chunk (init_file_info size (file_manager creatable path write disk).0) chunk n))
      → Keeps R {A = ℕ} (do
        fm ← open_for_writing p authenticate path
        let fm' = init_file_info size fm
        save_chunks p authenticate fm'.chunks_num 0 fm'
        leave (return_code success))
  unfolding open_for_writing ◌>>=◌
  opened path size opening storing = record {
    at = λ w.
        let creatable = p.succeeds w.calls in
        pre.then_also w _ _ (opening.at w) ((saved _ (storing w.disk creatable)).at _);
  }

  -- `storing` speaks only of the stream that was opened on the path.
  pub download_request-Keeps :
      (name : Bytes)
      → Keeps R (open_for_writing p authenticate (local_path name))
      → ((size : ℕ) (disk : Disk) (creatable : Bool) (chunk : Bytes) (n : ℕ)
          → Keeps R (
              store_chunk
                (init_file_info size (file_manager creatable (local_path name) write disk).0)
                chunk
                n))
      → Keeps R (download_request p authenticate name)
  unfolding download_request
  download_request-Keeps name opening storing =
      let tail = λ (size : ℕ). opened (local_path name) size opening (storing size) in
      search
        (tail, keeps_rules, pre, count, sending, receive_reply-Keeps, padding-Keeps, filled-Keeps)
        depth 40
