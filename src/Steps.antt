-- ===== src/Steps.antt =====
-- The steps that the requests of the client and of the server have in common. Both classes have
-- members `m_session_key` and `m_counter`, which are fields of the world, and their
-- `incrementCounter` has one text; `authenticate` is the authentication that it calls.
pub mod Counter
pub mod Plain
pub mod Outcomes
pub mod Replies
pub mod Pieces
use secure_cloud_storage.Common.{
  ℕ, zero, suc, ◌+◌, ◌-◌, ◌%◌, ◌^◌, Bool, false, not, ◌&&◌, none, some, [], ◌∷◌, ◌++◌, length,
  replicate, ◌==◌, eq_bytes, if◌then◌else◌,
}
use secure_cloud_storage.Config.{max_packet_size, chunk_size, max_counter_value, aes_key_len}
use secure_cloud_storage.Codes.{
  result_code, message_code, error_code, return_code, ack, nack, delete_ask, delete_confirm,
  download_ack, Error, Return, filename_already_exists, filename_not_found, delete_file_error,
  success, authentication_success, authentication_failure, wrong_counter, wrong_msg_code,
  wrong_path, read_chunk_failure, write_chunk_failure, encryption_failure, file_already_exists,
}
use secure_cloud_storage.Memory.{Bytes}
use secure_cloud_storage.Messages.Simple
use secure_cloud_storage.Messages.Simple.{SimpleMessage}
use secure_cloud_storage.Messages.Listing
use secure_cloud_storage.Messages.Upload
use secure_cloud_storage.Messages.Download
use secure_cloud_storage.Messages.Delete
use secure_cloud_storage.Messages.Rename
use secure_cloud_storage.Messages.Generic
use secure_cloud_storage.Messages.Generic.{Generic, generic}
use secure_cloud_storage.Files
use secure_cloud_storage.Files.{Disk, Entry, codes, find}
use secure_cloud_storage.Files.Manager.{
  FileManager, read, write, init_file_info, file_manager, is_file_present, read_chunk, write_chunk,
}
use secure_cloud_storage.Files.Listing.{get_files_list}
use secure_cloud_storage.World.{
  Platform, World, M, pure, done, returned, world, modify, ◌>>=◌, ◌>>◌, leave, throw, require,
  require_some, call, to_string,
}
use secure_cloud_storage.Channel.{
  attempt, random, encrypt, send_sealed, send_message, receive_message,
}

-- `m_counter++`
unfoldable pub count_up : M (Unit {0})
count_up w = done tt (record w { counter = (w.counter + 1) % 2 ^ 32 })

-- `writeChunk`, with a return if it fails.
unfoldable pub store_chunk : FileManager → Bytes → ℕ → M (Unit {0})
store_chunk fm chunk size w = elim (write_chunk fm chunk size w.disk) [
  | none ↦ returned (return_code write_chunk_failure) w
  | some disk ↦ done tt (record w { disk = disk })
]

module _ (p : Platform) (authenticate : M ℕ) where
  unfoldable pub reauthenticate : M (Unit {0})
  reauthenticate = do
    code ← call authenticate
    if code == return_code authentication_success
        then pure tt
        else throw (return_code authentication_failure)

  unfoldable pub increment_counter : M (Unit {0})
  increment_counter = do
    w ← world
    if w.counter == max_counter_value then reauthenticate else count_up

  -- A `SimpleMessage` with its random padding, sent.
  unfoldable pub send_simple : ℕ → M (Unit {0})
  send_simple code = do
    padding ← random p (max_packet_size - 1)
    let m : SimpleMessage = record { message_code = code }
    send_message p (Simple.serialize m padding (p.fresh max_packet_size)) Simple.get_message_size

  -- The file is opened for writing, if the system lets it be created.
  unfoldable pub open_for_writing : Bytes → M FileManager
  open_for_writing path w =
      let creatable = p.succeeds w.calls in
      let (fm, disk) = file_manager creatable path write w.disk in
      done fm (record w { disk = disk; calls = w.calls + 1 })
