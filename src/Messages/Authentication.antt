-- ===== src/Messages/Authentication.antt =====
-- src/messages/Authentication.cpp
pub mod RoundTrip
use secure_cloud_storage.Common.{
  ℕ, ◌+◌, ◌-◌, ◌^◌, ◌≤◌, ◌<◌, ◌≡◌, refl, ap, ◌∙◌, [], ◌∷◌, ◌++◌, length, replicate, take, Bool,
  arith, ◌==◌, take_all, take-append, length-append, length-replicate,
}
use secure_cloud_storage.Config.{iv_len, aad_len, aes_tag_len, username_len}
use secure_cloud_storage.Codes.{message_code, authentication_request}
use secure_cloud_storage.Memory.{
  Bytes, read_at, start, put_all, strncpy, u32_bytes, u32_value, htonl, ntohl,
}
use secure_cloud_storage.Memory.Laws.{read_at-put_all, length-put_all, length-strncpy}
use secure_cloud_storage.Memory.Words.{length-u32_bytes, u32_value-u32_bytes, htonl-htonl, htonl-lt}
use secure_cloud_storage.Messages.Simple.{byte_of}

abbrev pub ephemeral_key_len : ℕ
ephemeral_key_len = 1024

abbrev pub encrypted_signature_len : ℕ
encrypted_signature_len = 128

abbrev pub max_serialized_certificate_len : ℕ
max_serialized_certificate_len = 1500

pub record AuthenticationM1 : Type 0 where
  pub message_code : ℕ
  pub ephemeral_key : Bytes
  pub ephemeral_key_len : ℕ
  pub username : Bytes

-- `memset(field, 0, size); memcpy(field, source, length)`
unfoldable pub zero_padded : Bytes → ℕ → Bytes
zero_padded source size = source ++ replicate (size - length source) 0

unfoldable pub authentication_m1 : Bytes → Bytes → AuthenticationM1
authentication_m1 key username = record {
  message_code = message_code authentication_request;
  ephemeral_key = zero_padded key ephemeral_key_len;
  ephemeral_key_len = length key;
  username = strncpy username_len username;
}

abbrev pub get_message_size_m1 : ℕ
get_message_size_m1 = 1 + ephemeral_key_len + 4 + username_len

unfoldable pub serialize_m1 : AuthenticationM1 → Bytes → Bytes
serialize_m1 m memory =
    (put_all
      ((m.message_code ∷ [])
        ∷ m.ephemeral_key
        ∷ u32_bytes (htonl m.ephemeral_key_len)
        ∷ m.username
        ∷ [])
      (start memory)).buffer

unfoldable pub deserialize_m1 : Bytes → AuthenticationM1
deserialize_m1 buffer = record {
  message_code = byte_of (read_at buffer 0 1);
  ephemeral_key = read_at buffer 1 ephemeral_key_len;
  ephemeral_key_len = ntohl (u32_value (read_at buffer (1 + ephemeral_key_len) 4));
  username = read_at buffer (1 + ephemeral_key_len + 4) username_len;
}

pub record AuthenticationM3 : Type 0 where
  pub ephemeral_key : Bytes
  pub ephemeral_key_len : ℕ
  pub iv : Bytes
  pub aad : Bytes
  pub tag : Bytes
  pub encrypted_digital_signature : Bytes
  pub serialized_certificate : Bytes
  pub serialized_certificate_len : ℕ

unfoldable pub authentication_m3 : Bytes → Bytes → Bytes → Bytes → Bytes → Bytes → AuthenticationM3
authentication_m3 key iv aad tag signature certificate = record {
  ephemeral_key = zero_padded key ephemeral_key_len;
  ephemeral_key_len = length key;
  iv = take iv_len iv;
  aad = take aad_len aad;
  tag = take aes_tag_len tag;
  encrypted_digital_signature = take encrypted_signature_len signature;
  serialized_certificate = zero_padded certificate max_serialized_certificate_len;
  serialized_certificate_len = length certificate;
}

abbrev pub get_message_size_m3 : ℕ
get_message_size_m3 =
    ephemeral_key_len + 4 + iv_len + aad_len + aes_tag_len + encrypted_signature_len
    + max_serialized_certificate_len + 4

unfoldable pub serialize_m3 : AuthenticationM3 → Bytes → Bytes
serialize_m3 m memory =
    (put_all
      (m.ephemeral_key
        ∷ u32_bytes (htonl m.ephemeral_key_len)
        ∷ m.iv
        ∷ m.aad
        ∷ m.tag
        ∷ m.encrypted_digital_signature
        ∷ m.serialized_certificate
        ∷ u32_bytes (htonl m.serialized_certificate_len)
        ∷ [])
      (start memory)).buffer

-- The certificate's length is converted by `htonl` here, which is the same swap as `ntohl`.
unfoldable pub deserialize_m3 : Bytes → AuthenticationM3
deserialize_m3 buffer = record {
  ephemeral_key = read_at buffer 0 ephemeral_key_len;
  ephemeral_key_len = ntohl (u32_value (read_at buffer 1024 4));
  iv = read_at buffer 1028 iv_len;
  aad = read_at buffer 1040 aad_len;
  tag = read_at buffer 1044 aes_tag_len;
  encrypted_digital_signature = read_at buffer 1060 encrypted_signature_len;
  serialized_certificate = read_at buffer 1188 max_serialized_certificate_len;
  serialized_certificate_len = htonl (u32_value (read_at buffer 2688 4));
}

-- The counter is compared in host byte order, as the sender copied it.
unfoldable pub check_counter_m3 : AuthenticationM3 → ℕ → Bool
check_counter_m3 m counter = u32_value m.aad == counter

pub record AuthenticationM4 : Type 0 where
  pub iv : Bytes
  pub aad : Bytes
  pub tag : Bytes
  pub encrypted_digital_signature : Bytes

unfoldable pub authentication_m4 : Bytes → Bytes → Bytes → Bytes → AuthenticationM4
authentication_m4 iv aad tag signature = record {
  iv = take iv_len iv;
  aad = take aad_len aad;
  tag = take aes_tag_len tag;
  encrypted_digital_signature = take encrypted_signature_len signature;
}

abbrev pub get_message_size_m4 : ℕ
get_message_size_m4 = iv_len + aad_len + aes_tag_len + encrypted_signature_len

unfoldable pub serialize_m4 : AuthenticationM4 → Bytes → Bytes
serialize_m4 m memory =
    (put_all (m.iv ∷ m.aad ∷ m.tag ∷ m.encrypted_digital_signature ∷ []) (start memory)).buffer

unfoldable pub deserialize_m4 : Bytes → AuthenticationM4
deserialize_m4 buffer = record {
  iv = read_at buffer 0 iv_len;
  aad = read_at buffer 12 aad_len;
  tag = read_at buffer 16 aes_tag_len;
  encrypted_digital_signature = read_at buffer 32 encrypted_signature_len;
}

unfoldable pub check_counter_m4 : AuthenticationM4 → ℕ → Bool
check_counter_m4 m counter = u32_value m.aad == counter
