-- ===== src/Server/Handlers.antt =====
-- The request handlers of src/modules/Server.cpp. The members `m_session_key`, `m_counter` and
-- `m_username` are fields of the world. The authentication that a used-up counter starts is the
-- argument `authenticate`.
use secure_cloud_storage.Common.{
  ℕ, zero, suc, ◌+◌, ◌-◌, ◌%◌, ◌^◌, Bool, false, not, ◌&&◌, none, some, [], ◌∷◌, ◌++◌, length,
  replicate, ◌==◌, eq_bytes, if◌then◌else◌,
}
use secure_cloud_storage.Config.{max_packet_size, chunk_size, aes_key_len}
use secure_cloud_storage.Codes.{
  result_code, message_code, error_code, return_code, ack, nack, delete_ask, delete_confirm,
  download_ack, Error, Return, filename_already_exists, filename_not_found, delete_file_error,
  success, wrong_counter, wrong_msg_code, wrong_path, read_chunk_failure, encryption_failure,
  file_already_exists,
}
use secure_cloud_storage.Memory.{Bytes}
use secure_cloud_storage.Messages.Simple
use secure_cloud_storage.Messages.Simple.{SimpleMessage}
use secure_cloud_storage.Messages.Listing
use secure_cloud_storage.Messages.Upload
use secure_cloud_storage.Messages.Download
use secure_cloud_storage.Messages.Delete
use secure_cloud_storage.Messages.Rename
use secure_cloud_storage.Messages.Generic
use secure_cloud_storage.Messages.Generic.{Generic, generic}
use secure_cloud_storage.Files
use secure_cloud_storage.Files.{Disk, Entry, codes, find}
use secure_cloud_storage.Files.Manager.{
  FileManager, read, init_file_info, file_manager, is_file_present, read_chunk,
}
use secure_cloud_storage.Files.Listing.{get_files_list}
use secure_cloud_storage.Steps.{increment_counter, send_simple, open_for_writing, store_chunk}
use secure_cloud_storage.World.{
  Platform, World, M, pure, done, world, modify, ◌>>=◌, ◌>>◌, leave, require, require_some,
  to_string,
}
use secure_cloud_storage.Channel.{
  attempt, random, encrypt, send_sealed, send_message, receive_message,
}

-- `"../data/" + m_username`, and a file in that directory.
abbrev pub user_directory : World → Bytes
user_directory w = codes "../data/" ++ w.username

abbrev pub user_path : World → Bytes → Bytes
user_path w name = user_directory w ++ (codes "/" ++ name)

-- `OPENSSL_cleanse(m_session_key, sizeof(m_session_key))`
unfoldable pub wipe_key : M (Unit {0})
wipe_key w = done tt (record w { session_key = replicate aes_key_len 0 })

module _ (p : Platform) (authenticate : M ℕ) where
  unfoldable pub list_request : M ℕ
  list_request = do
    increment_counter p authenticate
    w ← world
    let files = get_files_list w.directories (user_directory w) w.disk
    require (not (eq_bytes files (codes "error"))) (return_code wrong_path)
    let n = length files % 2 ^ 32
    let list_size = if n == 0 then n else (n + 1) % 2 ^ 32
    let buffer = Listing.serialize_m2 (Listing.list_m2 list_size) (p.fresh max_packet_size)
    send_message p buffer Listing.get_message_size_m2
    increment_counter p authenticate
    if list_size == 0 then leave (return_code success) else (do
      let file_list = files ++ (0 ∷ [])
      let memory = p.fresh (Listing.get_message_size_m3 list_size)
      let buffer' = Listing.serialize_m3 (Listing.list_m3 list_size file_list) list_size memory
      send_message p buffer' (Listing.get_message_size_m3 list_size)
      increment_counter p authenticate
      leave (return_code success))

  -- The loop over the chunks: `left` rounds remain, this is round `i`, and `buffer` is
  -- `current_chunk`.
  unfoldable pub download_chunks : ℕ → ℕ → FileManager → Bytes → M (Unit {0})
  download_chunks zero i fm buffer = pure tt
  download_chunks (suc left) i fm buffer = do
    let size = if i == fm.chunks_num - 1 then fm.last_chunk_size else chunk_size
    w ← world
    (buffer', fm') ←
        require_some (read_chunk fm buffer size w.disk) (return_code read_chunk_failure)
    let mi = Download.download_mi buffer' size
    let len = Download.get_message_size_mi size
    send_message p (Download.serialize_mi mi size (p.fresh len)) len
    increment_counter p authenticate
    download_chunks left (i + 1) fm' buffer'

  -- `isFilePresent(path) && is_regular_file(path) && !is_symlink(path)`
  unfoldable pub downloadable : Bytes → Disk → Bool
  downloadable path disk = elim (find path disk) [
    | none ↦ false
    | some e ↦ e.regular && not e.symlink
  ]

  unfoldable pub download_request : Bytes → M ℕ
  unfolding downloadable
  download_request plaintext = do
    let m1 = Download.deserialize_m1 plaintext
    increment_counter p authenticate
    w ← world
    name ← to_string m1.filename
    let path = user_path w name
    let (fm, disk) = file_manager false path read w.disk
    let m2 =
        if downloadable path w.disk
        then Download.download_m2 (message_code download_ack) fm.file_size
        else Download.download_m2 (error_code Error.file_not_found) 0
    let buffer = Download.serialize_m2 m2 (p.fresh Download.get_message_size_m2)
    send_message p buffer Download.get_message_size_m2
    increment_counter p authenticate
    if m2.file_size == 0 then leave (return_code Return.file_not_found) else (do
      download_chunks fm.chunks_num 0 fm (p.fresh chunk_size)
      leave (return_code success))

  -- The loop over the chunks, as above.
  unfoldable pub upload_chunks : ℕ → ℕ → FileManager → M (Unit {0})
  upload_chunks zero i fm = pure tt
  upload_chunks (suc left) i fm = do
    let size = if i == fm.chunks_num - 1 then fm.last_chunk_size else chunk_size
    (m, plain) ← receive_message p (Upload.get_size_upload_mi size)
    let mi = Upload.deserialize_upload_mi plain size
    w ← world
    require (w.counter == Generic.get_counter m) (return_code wrong_counter)
    increment_counter p authenticate
    store_chunk fm mi.chunk size
    upload_chunks left (i + 1) fm

  -- From the acknowledgement of the request to the end of `uploadRequest`.
  unfoldable pub receive_file : Bytes → ℕ → M ℕ
  receive_file path file_size = do
    fm ← open_for_writing p authenticate path
    let fm' = init_file_info file_size fm
    upload_chunks fm'.chunks_num 0 fm'
    send_simple p authenticate (result_code ack)
    increment_counter p authenticate
    leave (return_code success)

  -- The answer to the request, and what follows it.
  unfoldable pub answer_upload : Bytes → ℕ → Bool → M ℕ
  answer_upload path file_size present = do
    let code = if present then result_code nack else result_code ack
    send_simple p authenticate code
    increment_counter p authenticate
    if code == result_code nack
        then leave (error_code filename_already_exists)
        else receive_file path file_size

  unfoldable pub upload_request : Bytes → M ℕ
  upload_request plaintext = do
    let m1 = Upload.deserialize_upload_m1 plaintext
    increment_counter p authenticate
    w ← world
    name ← to_string m1.filename
    let path = user_path w name
    answer_upload path m1.file_size (is_file_present path w.disk)

  -- `rename(old, new)`, and the code that is sent for its result.
  unfoldable pub rename_file : Bytes → Bytes → M ℕ
  rename_file old new = do
    ok ← attempt p
    if ok
        then (do
          modify (λ w. record w { disk = Files.rename old new w.disk })
          pure (result_code ack))
        else pure (result_code nack)

  unfoldable pub rename_request : Bytes → M ℕ
  unfolding rename_file
  rename_request plaintext = do
    let m1 = Rename.deserialize_rename_message plaintext
    increment_counter p authenticate
    w ← world
    old ← to_string m1.old_filename
    new ← to_string m1.new_filename
    code ←
        if not (is_file_present (user_path w old) w.disk)
        then pure (return_code Return.file_not_found)
        else if is_file_present (user_path w new) w.disk
        then pure (return_code file_already_exists)
        else rename_file (user_path w old) (user_path w new)
    send_simple p authenticate code
    increment_counter p authenticate
    leave (return_code success)

  -- `remove(path)`, with a return if it fails.
  unfoldable pub remove_file : Bytes → M (Unit {0})
  remove_file path = do
    ok ← attempt p
    require ok (error_code delete_file_error)
    modify (λ w. record w { disk = Files.remove path w.disk })

  unfoldable pub delete_request : Bytes → M ℕ
  unfolding remove_file
  delete_request plaintext = do
    let m1 = Delete.deserialize plaintext
    increment_counter p authenticate
    send_simple p authenticate (message_code delete_ask)
    increment_counter p authenticate
    (m, plain) ← receive_message p Simple.get_message_size
    let m3 = Simple.deserialize plain
    w ← world
    require (w.counter == Generic.get_counter m) (return_code wrong_counter)
    increment_counter p authenticate
    require (m3.message_code == message_code delete_confirm) (return_code wrong_msg_code)
    name ← to_string m1.file_name
    v ← world
    require (is_file_present (user_path v name) v.disk) (error_code filename_not_found)
    remove_file (user_path v name)
    send_simple p authenticate (result_code ack)
    increment_counter p authenticate
    leave (return_code success)

  -- The session key is wiped between the encryption and the sending of the answer.
  unfoldable pub logout_request : M ℕ
  logout_request = do
    increment_counter p authenticate
    padding ← random p (max_packet_size - 1)
    let m2 : SimpleMessage = record { message_code = result_code ack }
    let buffer = Simple.serialize m2 padding (p.fresh max_packet_size)
    w ← world
    sealed ← encrypt p w.session_key (generic w.counter) buffer Simple.get_message_size
    m ← require_some sealed (return_code encryption_failure)
    wipe_key
    send_sealed p m Simple.get_message_size
    leave (return_code success)
