-- ===== src/Messages/Delete.antt =====
-- src/messages/Delete.cpp
use mathlib.Core.Option
use secure_cloud_storage.Common.{
  ℕ, ◌+◌, ◌<◌, ◌≡◌, refl, sym, ap, ◌∙◌, [], ◌∷◌, length, arith, Option, some, none,
}
use secure_cloud_storage.Config.{file_name_len, max_packet_size}
use secure_cloud_storage.Codes.{message_code, delete_request}
use secure_cloud_storage.Memory.{Bytes, read_at, start, put_all, strncpy, c_string}
use secure_cloud_storage.Memory.Laws.{
  NonNul, length-put_all, read_at-put_all, length-strncpy, c_string-strncpy,
}
use secure_cloud_storage.Messages.Simple.{byte_of, first_byte}

pub record Delete : Type 0 where
  pub message_code : ℕ
  pub file_name : Bytes

unfoldable pub delete : Bytes → Delete
delete file_name = record {
  message_code = message_code delete_request;
  file_name = strncpy file_name_len file_name;
}

-- `random` is what `RAND_bytes` delivers, `none` when it fails: then there is no message.
unfoldable pub serialize : Delete → Option Bytes → Bytes → Option Bytes
serialize m none memory = none
serialize m (some random) memory =
    some (put_all ((m.message_code ∷ []) ∷ m.file_name ∷ random ∷ []) (start memory)).buffer

unfoldable pub deserialize : Bytes → Delete
deserialize buffer = record {
  message_code = byte_of (read_at buffer 0 1);
  file_name = read_at buffer 1 file_name_len;
}

abbrev pub get_message_size : ℕ
get_message_size = 1 + file_name_len

deserialize-serialize :
    (m : Delete) (random memory : Bytes)
    → length m.file_name ≡ file_name_len
    → Option.map deserialize (serialize m (some random) memory) ≡ some m
unfolding serialize deserialize
deserialize-serialize m random memory hf =
    let code = m.message_code ∷ [] in
    rw (
      read_at-put_all [] code (m.file_name ∷ random ∷ []) memory 0 1 refl refl,
      read_at-put_all (code ∷ []) m.file_name (random ∷ []) memory 1 35 refl hf,
    )

-- A delete request for a name that fits its field arrives as it was made, with that name.
pub delete_arrives :
    (name random memory : Bytes)
    → NonNul name
    → length name < file_name_len
    → (Option.map deserialize (serialize (delete name) (some random) memory) ≡ some (delete name))
      × (c_string (delete name).file_name ≡ some name)
unfolding delete
delete_arrives name random memory nonnul fits = (
  deserialize-serialize (delete name) random memory (length-strncpy file_name_len name),
  c_string-strncpy file_name_len name nonnul fits,
)

-- The packet's text that the client makes for a name.
pub request_bytes :
    (name random memory : Bytes)
    → NonNul name
    → length name < file_name_len
    → length memory ≡ max_packet_size
    → length random + get_message_size ≡ max_packet_size
    → (plain : Bytes) × (serialize (delete name) (some random) memory ≡ some plain)
      × (length plain ≡ max_packet_size)
      × (byte_of plain ≡ message_code delete_request)
      × (c_string (deserialize plain).file_name ≡ some name)
unfolding serialize delete deserialize
request_bytes name random memory nonnul fits hm hr =
    let field : Bytes = strncpy file_name_len name in
    let size : length field ≡ file_name_len = length-strncpy file_name_len name in
    let code = message_code delete_request ∷ [] in
    let plain = (put_all (code ∷ field ∷ random ∷ []) (start memory)).buffer in
    (
      plain,
      refl,
      length-put_all (code ∷ field ∷ random ∷ []) memory (omega arith) ∙ hm,
      sym (first_byte plain)
          ∙ ap byte_of (read_at-put_all [] code (field ∷ random ∷ []) memory 0 1 refl refl),
      ap c_string (read_at-put_all (code ∷ []) field (random ∷ []) memory 1 35 refl size)
          ∙ c_string-strncpy file_name_len name nonnul fits,
    )
