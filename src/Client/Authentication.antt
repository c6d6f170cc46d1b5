-- ===== src/Client/Authentication.antt =====
-- `Client::authenticationRequest` of src/modules/Client.cpp. `again` is the authentication that
-- `incrementCounter` would start at a used-up counter, and `private_key` the member
-- `m_long_term_private_key`.
use secure_cloud_storage.Common.{ℕ, Option, ◌++◌, take, ◌==◌, if◌then◌else◌}
use secure_cloud_storage.Config.{max_packet_size}
use secure_cloud_storage.Codes.{
  result_code, return_code, error_code, ack, receive_failure, encryption_failure,
  decryption_failure, wrong_counter, authentication_success, authentication_failure,
  username_not_found,
}
use secure_cloud_storage.Memory.{Bytes, u32_bytes}
use secure_cloud_storage.Messages.Generic
use secure_cloud_storage.Messages.Simple
use secure_cloud_storage.Messages.Simple.{byte_of}
use secure_cloud_storage.Messages.Authentication.{
  AuthenticationM3, ephemeral_key_len, encrypted_signature_len, authentication_m1, serialize_m1,
  get_message_size_m1, deserialize_m3, get_message_size_m3, check_counter_m3, authentication_m4,
  serialize_m4, get_message_size_m4,
}
use secure_cloud_storage.World.{
  Platform, M, pure, world, modify, leave, throw, require, require_some, ◌>>=◌, ◌>>◌,
}
use secure_cloud_storage.Channel.{not_broken, receive, decrypt, aes_encrypt}
use secure_cloud_storage.Steps.{increment_counter}
use secure_cloud_storage.Steps.Plain.{receive_plain, send_plain}
use secure_cloud_storage.Credentials.{
  Credentials, diffie_hellman, generate_ephemeral_key, serialize_ephemeral_key,
  deserialize_ephemeral_key, derive_shared_secret, generate_ds, is_ds_verified,
  deserialize_certificate, verify_certificate, get_public_key, secret_of, take_session_key, text_of,
  fitting, front, decrypt_signature,
}

module _ (p : Platform) (c : Credentials) (private_key : Bytes) (again : M ℕ) where
  -- The first message: the ephemeral key as text, and the user's name.
  unfoldable pub send_m1 : Bytes → M (Unit {0})
  send_m1 text = do
    key ← fitting p c text ephemeral_key_len
    w ← world
    let m1 = authentication_m1 key w.username
    send_plain p (serialize_m1 m1 (p.fresh get_message_size_m1)) get_message_size_m1

  -- The second message. Only -1 counts as a failure to receive it.
  unfoldable pub receive_m2 : M (Unit {0})
  receive_m2 = do
    (status, buffer) ← receive p Simple.get_message_size
    require (not_broken status) (return_code receive_failure)
    require ((Simple.deserialize buffer).message_code == result_code ack)
        (error_code username_not_found)

  -- The third message, with the session key that its ephemeral key gives.
  unfoldable pub receive_m3 : Option Bytes → M (AuthenticationM3 × Bytes)
  receive_m3 own = do
    buffer ← receive_plain p get_message_size_m3
    let m3 = deserialize_m3 buffer
    modify (λ w. record w { counter = 0 })
    require (check_counter_m3 m3 0) (return_code wrong_counter)
    increment_counter p again
    peer ← deserialize_ephemeral_key p c m3.ephemeral_key m3.ephemeral_key_len
    outcome ← derive_shared_secret p c own peer
    secret ← secret_of p c outcome
    take_session_key p c secret
    w ← world
    signature ←
        decrypt_signature p c w.session_key m3.aad m3.iv m3.tag m3.encrypted_digital_signature
    pure (m3, signature)

  -- The server's certificate and its signature of both keys.
  unfoldable pub check_server : AuthenticationM3 → Bytes → Bytes → M (Unit {0})
  check_server m3 text signature = do
    certificate ←
        deserialize_certificate p c m3.serialized_certificate m3.serialized_certificate_len
    trusted ← verify_certificate p c certificate
    require trusted (return_code authentication_failure)
    let key = get_public_key p c certificate
    require (is_ds_verified p c text signature key) (return_code authentication_failure)

  -- The fourth message: the client's signature of both keys, encrypted.
  unfoldable pub send_m4 : Bytes → M (Unit {0})
  send_m4 text = do
    w ← world
    let aad = u32_bytes w.counter
    signature ← front p c (generate_ds p c text private_key) encrypted_signature_len
    sealed ← aes_encrypt p w.session_key aad signature
    (iv, cipher, tag) ← require_some sealed (return_code encryption_failure)
    let m4 = authentication_m4 iv aad tag cipher
    send_plain p (serialize_m4 m4 (p.fresh get_message_size_m4)) get_message_size_m4
    increment_counter p again

  -- The fifth message, and the end.
  unfoldable pub receive_m5 : M ℕ
  receive_m5 = do
    buffer ← receive_plain p (Generic.get_message_size max_packet_size)
    let m = Generic.deserialize buffer max_packet_size
    w ← world
    opened ← decrypt p w.session_key m
    plain ← require_some opened (return_code decryption_failure)
    if w.counter == Generic.get_counter m then pure tt else throw (return_code wrong_counter)
    require (byte_of plain == result_code ack) (return_code authentication_failure)
    modify (λ w. record w { counter = 0 })
    leave (return_code authentication_success)

  unfoldable pub authentication_request : M ℕ
  unfolding send_m1 receive_m2 receive_m3 check_server send_m4 receive_m5
  authentication_request = do
    parameters ← diffie_hellman p c
    own ← generate_ephemeral_key p c parameters
    written ← serialize_ephemeral_key p c own
    own_text ← text_of p c written
    send_m1 own_text
    receive_m2
    (m3, signature) ← receive_m3 own
    let text = own_text ++ take m3.ephemeral_key_len m3.ephemeral_key
    check_server m3 text signature
    send_m4 text
    receive_m5
