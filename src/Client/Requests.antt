-- ===== src/Client/Requests.antt =====
-- The requests of src/modules/Client.cpp. What the client types in is an argument, and what a list
-- request shows is its result.
use secure_cloud_storage.Common.{
  ℕ, zero, suc, ◌+◌, ◌-◌, Bool, false, not, ◌||◌, Option, none, some, List, [], ◌∷◌, ◌++◌, ltb,
  ◌==◌, if◌then◌else◌,
}
use secure_cloud_storage.Config.{max_packet_size, chunk_size, max_file_size}
use secure_cloud_storage.Codes.{
  result_code, message_code, error_code, return_code, ack, nack, list_ack, list_response,
  download_ack, download_chunk, delete_ask, delete_confirm, Error, Return, success, wrong_counter,
  wrong_msg_code, file_already_exists, wrong_file_size, rename_failure, Message,
}
use secure_cloud_storage.Memory.{Bytes}
use secure_cloud_storage.Messages.Simple
use secure_cloud_storage.Messages.Listing
use secure_cloud_storage.Messages.Upload
use secure_cloud_storage.Messages.Download
use secure_cloud_storage.Messages.Delete
use secure_cloud_storage.Messages.Rename
use secure_cloud_storage.Messages.Generic
use secure_cloud_storage.Files.{Disk, codes}
use secure_cloud_storage.Files.Manager.{
  FileManager, read, init_file_info, file_manager, is_file_present, read_chunk,
}
use secure_cloud_storage.World.{
  Platform, M, pure, world, ◌>>=◌, ◌>>◌, leave, require, to_string, undefined, done,
}
use secure_cloud_storage.Channel.{random, attempts, send_message, receive_message}
use secure_cloud_storage.Steps.{increment_counter, send_simple, open_for_writing, store_chunk}

-- `"../files/" + filename`
abbrev pub local_path : Bytes → Bytes
local_path name = codes "../files/" ++ name

-- `getline` up to each comma, until the stream is at its end.
unfoldable pub getlines : Bytes → Bytes → List Bytes
getlines [] [] = []
getlines (c ∷ line) [] = (c ∷ line) ∷ []
getlines line (c ∷ s) =
    let next = line ∷ getlines [] s in
    let more = getlines (line ++ (c ∷ [])) s in if c == b',' then next else more

-- The buffer of a request, which the handlers use without a test: encrypting from a null pointer is
-- undefined.
unfoldable pub filled : Option Bytes → M Bytes
filled none w = undefined w
filled (some buffer) w = done buffer w

-- The bytes that the file has next, in the buffer. The client does not look at the result of
-- `readChunk`: on -1 the buffer is as it was.
unfoldable pub next_chunk : FileManager → Bytes → ℕ → Disk → Bytes × FileManager
next_chunk fm buffer size disk = elim (read_chunk fm buffer size disk) [
  | none ↦ (buffer, fm)
  | some r ↦ r
]

module _ (p : Platform) (authenticate : M ℕ) where
  -- A reply: received, opened, and at the expected counter.
  unfoldable pub receive_reply : ℕ → M Bytes
  receive_reply len = do
    (m, plain) ← receive_message p len
    w ← world
    require (w.counter == Generic.get_counter m) (return_code wrong_counter)
    pure plain

  -- The bytes that `RAND_bytes` adds to a request, `none` if it fails.
  unfoldable pub padding : ℕ → M (Option Bytes)
  padding len = do bytes ← random p len; ok ← attempts p 1; pure (if ok then some bytes else none)

  -- The result is the list of the names that are shown, with the code for success.
  unfoldable pub list_request : M (List Bytes)
  list_request = do
    send_simple p authenticate (message_code Message.list_request)
    increment_counter p authenticate
    plain ← receive_reply Listing.get_message_size_m2
    let m2 = Listing.deserialize_m2 plain
    increment_counter p authenticate
    require (m2.message_code == message_code list_ack) (return_code wrong_msg_code)
    if m2.list_size == 0 then pure [] else (do
      plain' ← receive_reply (Listing.get_message_size_m3 m2.list_size)
      let m3 = Listing.deserialize_m3 plain' m2.list_size
      increment_counter p authenticate
      require (m3.message_code == message_code list_response) (return_code wrong_msg_code)
      text ← to_string m3.file_list
      pure (getlines [] text))

  -- The loop over the chunks: `left` rounds remain, and this is round `i`.
  unfoldable pub save_chunks : ℕ → ℕ → FileManager → M (Unit {0})
  save_chunks zero i fm = pure tt
  save_chunks (suc left) i fm = do
    let size = if i == fm.chunks_num - 1 then fm.last_chunk_size else chunk_size
    plain ← receive_reply (Download.get_message_size_mi size)
    let mi = Download.deserialize_mi plain size
    increment_counter p authenticate
    require (mi.message_code == message_code download_chunk) (return_code wrong_msg_code)
    store_chunk fm mi.file_chunk size
    save_chunks left (i + 1) fm

  unfoldable pub download_request : Bytes → M ℕ
  download_request filename = do
    w ← world
    let path = local_path filename
    require (not (is_file_present path w.disk)) (return_code file_already_exists)
    random ← padding (max_packet_size - 36)
    buffer ←
        filled
          (Download.serialize_m1 (Download.download_m1 filename) random (p.fresh max_packet_size))
    send_message p buffer max_packet_size
    increment_counter p authenticate
    plain ← receive_reply Download.get_message_size_m2
    let m2 = Download.deserialize_m2 plain
    increment_counter p authenticate
    require (not (m2.message_code == error_code Error.file_not_found))
        (return_code Return.file_not_found)
    require (m2.message_code == message_code download_ack) (return_code wrong_msg_code)
    fm ← open_for_writing p authenticate path
    let fm' = init_file_info m2.file_size fm
    save_chunks fm'.chunks_num 0 fm'
    leave (return_code success)

  -- The loop over the chunks, with the chunk buffer.
  unfoldable pub send_chunks : ℕ → ℕ → FileManager → Bytes → M (Unit {0})
  send_chunks zero i fm buffer = pure tt
  send_chunks (suc left) i fm buffer = do
    let size = if i == fm.chunks_num - 1 then fm.last_chunk_size else chunk_size
    w ← world
    let (buffer', fm') = next_chunk fm buffer size w.disk
    let mi = Upload.upload_mi buffer' size
    let len = Upload.get_size_upload_mi size
    send_message p (Upload.serialize_upload_mi mi (p.fresh len)) len
    increment_counter p authenticate
    send_chunks left (i + 1) fm' buffer'

  unfoldable pub upload_request : Bytes → M ℕ
  upload_request filename = do
    w ← world
    let path = local_path filename
    require (is_file_present path w.disk) (return_code Return.file_not_found)
    let (fm, disk) = file_manager false path read w.disk
    require (not (fm.file_size == 0 || ltb max_file_size fm.file_size))
        (return_code wrong_file_size)
    random ← random p (max_packet_size - 40)
    let m1 = Upload.upload_m1 filename fm.file_size
    send_message p (Upload.serialize_upload_m1 m1 random (p.fresh max_packet_size)) max_packet_size
    increment_counter p authenticate
    plain ← receive_reply Simple.get_message_size
    let m2 = Simple.deserialize plain
    increment_counter p authenticate
    require (not (m2.message_code == result_code nack)) (return_code file_already_exists)
    require (m2.message_code == result_code ack) (return_code wrong_msg_code)
    send_chunks fm.chunks_num 0 fm (p.fresh chunk_size)
    plain' ← receive_reply Simple.get_message_size
    increment_counter p authenticate
    require ((Simple.deserialize plain').message_code == result_code ack)
        (return_code wrong_msg_code)
    leave (return_code success)

  unfoldable pub rename_request : Bytes → Bytes → M ℕ
  rename_request old_file_name new_file_name = do
    let m1 = Rename.rename old_file_name new_file_name
    let buffer = Rename.serialize_rename_message m1 (p.fresh max_packet_size)
    send_message p buffer Rename.get_message_size
    increment_counter p authenticate
    plain ← receive_reply Simple.get_message_size
    let m2 = Simple.deserialize plain
    increment_counter p authenticate
    require (not (m2.message_code == return_code Return.file_not_found))
        (return_code Return.file_not_found)
    require (not (m2.message_code == return_code file_already_exists))
        (return_code file_already_exists)
    require (not (m2.message_code == result_code nack)) (return_code rename_failure)
    leave (return_code success)

  unfoldable pub logout_request : M ℕ
  logout_request = do
    send_simple p authenticate (message_code Message.logout_request)
    increment_counter p authenticate
    plain ← receive_reply Simple.get_message_size
    require ((Simple.deserialize plain).message_code == result_code ack)
        (return_code wrong_msg_code)
    leave (return_code success)

  -- `sure` is whether the user answers 1 to the question.
  unfoldable pub delete_request : Bool → Bytes → M ℕ
  delete_request sure filename = do
    random ← padding (max_packet_size - 36)
    buffer ← filled (Delete.serialize (Delete.delete filename) random (p.fresh max_packet_size))
    send_message p buffer max_packet_size
    increment_counter p authenticate
    plain ← receive_reply Simple.get_message_size
    increment_counter p authenticate
    require ((Simple.deserialize plain).message_code == message_code delete_ask)
        (return_code wrong_msg_code)
    let code = if sure then message_code delete_confirm else message_code Message.no_delete_confirm
    send_simple p authenticate code
    increment_counter p authenticate
    require sure (return_code Return.no_delete_confirm)
    plain' ← receive_reply Simple.get_message_size
    increment_counter p authenticate
    require ((Simple.deserialize plain').message_code == result_code ack)
        (return_code wrong_msg_code)
    leave (return_code success)
