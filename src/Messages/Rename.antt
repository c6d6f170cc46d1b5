-- ===== src/Messages/Rename.antt =====
-- src/messages/Rename.cpp
use secure_cloud_storage.Common.{ℕ, ◌+◌, ◌<◌, ◌≡◌, refl, sym, ap, ◌∙◌, [], ◌∷◌, length, some, arith}
use secure_cloud_storage.Config.{file_name_len, max_packet_size}
use secure_cloud_storage.Codes.{message_code, rename_request}
use secure_cloud_storage.Memory.{Bytes, read_at, start, put_all, strncpy, c_string}
use secure_cloud_storage.Memory.Laws.{
  NonNul, read_at-put_all, length-put_all, length-strncpy, c_string-strncpy,
}
use secure_cloud_storage.Messages.Simple.{byte_of, first_byte}

pub record Rename : Type 0 where
  pub message_code : ℕ
  pub old_filename : Bytes
  pub new_filename : Bytes

unfoldable pub rename : Bytes → Bytes → Rename
rename old_filename new_filename = record {
  message_code = message_code rename_request;
  old_filename = strncpy file_name_len old_filename;
  new_filename = strncpy file_name_len new_filename;
}

unfoldable pub serialize_rename_message : Rename → Bytes → Bytes
serialize_rename_message m memory =
    (put_all ((m.message_code ∷ []) ∷ m.old_filename ∷ m.new_filename ∷ []) (start memory)).buffer

unfoldable pub deserialize_rename_message : Bytes → Rename
deserialize_rename_message buffer = record {
  message_code = byte_of (read_at buffer 0 1);
  old_filename = read_at buffer 1 file_name_len;
  new_filename = read_at buffer (1 + file_name_len) file_name_len;
}

abbrev pub get_message_size : ℕ
get_message_size = 1 + file_name_len + file_name_len

deserialize-serialize :
    (m : Rename) (memory : Bytes)
    → length m.old_filename ≡ file_name_len
    → length m.new_filename ≡ file_name_len
    → deserialize_rename_message (serialize_rename_message m memory) ≡ m
unfolding serialize_rename_message deserialize_rename_message
deserialize-serialize m memory ho hn =
    let code = m.message_code ∷ [] in
    rw (
      read_at-put_all [] code (m.old_filename ∷ m.new_filename ∷ []) memory 0 1 refl refl,
      read_at-put_all (code ∷ []) m.old_filename (m.new_filename ∷ []) memory 1 35 refl ho,
      read_at-put_all (code ∷ m.old_filename ∷ []) m.new_filename [] memory 36 35 (omega arith) hn,
    )

-- A rename request for two names that fit their fields arrives as it was made, with both names in
-- their places, and fills a packet exactly.
pub rename_arrives :
    (old new memory : Bytes)
    → NonNul old
    → length old < file_name_len
    → NonNul new
    → length new < file_name_len
    → length memory ≡ max_packet_size
    → let sent = serialize_rename_message (rename old new) memory in
      let got = deserialize_rename_message sent in
      (got ≡ rename old new)
      × (c_string got.old_filename ≡ some old)
      × (c_string got.new_filename ≡ some new)
      × (length sent ≡ get_message_size)
unfolding rename serialize_rename_message
rename_arrives old new memory nonnul fits nonnul' fits' hm =
    let m = rename old new in
    let ho : length m.old_filename ≡ file_name_len = length-strncpy file_name_len old in
    let hn : length m.new_filename ≡ file_name_len = length-strncpy file_name_len new in
    let trip = deserialize-serialize m memory ho hn in
    let fields = (m.message_code ∷ []) ∷ m.old_filename ∷ m.new_filename ∷ [] in
    (
      trip,
      rw trip (c_string-strncpy file_name_len old nonnul fits),
      rw trip (c_string-strncpy file_name_len new nonnul' fits'),
      length-put_all fields memory (omega arith) ∙ hm,
    )

pub request_code :
    (old new memory : Bytes)
    → byte_of (serialize_rename_message (rename old new) memory) ≡ message_code rename_request
unfolding serialize_rename_message rename
request_code old new memory =
    let m = rename old new in
    let code = m.message_code ∷ [] in
    sym (first_byte (serialize_rename_message m memory))
    ∙ ap byte_of
        (read_at-put_all [] code (m.old_filename ∷ m.new_filename ∷ []) memory 0 1 refl refl)
