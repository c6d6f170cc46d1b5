-- ===== src/Server/Authentication.antt =====
-- `Server::authenticationRequest` of src/modules/Server.cpp. `again` is the authentication that
-- `incrementCounter` would start at a used-up counter.
use secure_cloud_storage.Common.{ℕ, ◌-◌, Bool, Option, none, some, [], ◌++◌, take, if◌then◌else◌}
use secure_cloud_storage.Config.{max_packet_size}
use secure_cloud_storage.Codes.{
  result_code, return_code, error_code, ack, nack, encryption_failure, wrong_counter,
  authentication_success, authentication_failure, username_not_found,
}
use secure_cloud_storage.Memory.{Bytes, u32_bytes}
use secure_cloud_storage.Messages.Simple
use secure_cloud_storage.Messages.Simple.{SimpleMessage}
use secure_cloud_storage.Messages.Authentication.{
  ephemeral_key_len, encrypted_signature_len, max_serialized_certificate_len, deserialize_m1,
  get_message_size_m1, authentication_m3, serialize_m3, get_message_size_m3, deserialize_m4,
  get_message_size_m4, check_counter_m4,
}
use secure_cloud_storage.Files.{codes}
use secure_cloud_storage.World.{
  Platform, M, pure, world, modify, leave, require, require_some, to_string, ◌>>=◌, ◌>>◌,
}
use secure_cloud_storage.Channel.{random, aes_encrypt, send_message}
use secure_cloud_storage.Steps.{increment_counter}
use secure_cloud_storage.Steps.Plain.{receive_plain, send_plain}
use secure_cloud_storage.Credentials.{
  Credentials, unmade, released, made, misuse, diffie_hellman, generate_ephemeral_key,
  serialize_ephemeral_key, deserialize_ephemeral_key, derive_shared_secret, generate_ds,
  is_ds_verified, serialize_certificate, secret_of, take_session_key, text_of, fitting, front,
  decrypt_signature,
}

-- `"../resources/public_keys/" + username + "_key.pem"`
abbrev pub key_path : Bytes → Bytes
key_path name = codes "../resources/public_keys/" ++ (name ++ codes "_key.pem")

module _ (p : Platform) (c : Credentials) (again : M ℕ) where
  -- The second message: whether the user has a public key.
  unfoldable pub answer_user : Option Bytes → M (Unit {0})
  answer_user key = do
    padding ← random p (max_packet_size - 1)
    let code = elim key as (λ _. ℕ) [ none ↦ result_code nack | some _ ↦ result_code ack ]
    let m2 : SimpleMessage = record { message_code = code }
    send_plain p (Simple.serialize m2 padding (p.fresh max_packet_size)) Simple.get_message_size

  -- The session key from the two ephemeral keys; the result is the server's one as text.
  unfoldable pub agree_key : Bytes → ℕ → M Bytes
  agree_key key key_len = do
    parameters ← diffie_hellman p c
    own ← generate_ephemeral_key p c parameters
    peer ← deserialize_ephemeral_key p c key key_len
    outcome ← derive_shared_secret p c own peer
    secret ← secret_of p c outcome
    take_session_key p c secret
    written ← serialize_ephemeral_key p c own
    text_of p c written

  -- The server's certificate as text. The result of the serialization is not looked at: without a
  -- text the pointer stays null at length 0.
  unfoldable pub own_certificate : M Bytes
  own_certificate = do
    written ←
        serialize_certificate p c
          (c.certificate_file (codes "../resources/certificates/Server_cert.pem"))
    elim written [ unmade ↦ pure [] | released ↦ misuse | made t ↦ pure t ]

  -- The third message: the server's signature of both keys, encrypted, with its certificate.
  unfoldable pub send_m3 : Bytes → Bytes → M (Unit {0})
  send_m3 key text = do
    file ←
        require_some (c.private_key_file (codes "../resources/private_keys/Server_key.pem"))
          (return_code authentication_failure)
    private_key ← require_some file (return_code authentication_failure)
    modify (λ w. record w { counter = 0 })
    w ← world
    let aad = u32_bytes w.counter
    signature ← front p c (generate_ds p c text private_key) encrypted_signature_len
    sealed ← aes_encrypt p w.session_key aad signature
    (iv, cipher, tag) ← require_some sealed (return_code encryption_failure)
    certificate ← own_certificate
    key' ← fitting p c key ephemeral_key_len
    certificate' ← fitting p c certificate max_serialized_certificate_len
    let m3 = authentication_m3 key' iv aad tag cipher certificate'
    send_plain p (serialize_m3 m3 (p.fresh get_message_size_m3)) get_message_size_m3
    increment_counter p again

  -- The fourth message: the client's signature.
  unfoldable pub receive_m4 : M Bytes
  receive_m4 = do
    buffer ← receive_plain p get_message_size_m4
    let m4 = deserialize_m4 buffer
    w ← world
    require (check_counter_m4 m4 w.counter) (return_code wrong_counter)
    increment_counter p again
    decrypt_signature p c w.session_key m4.aad m4.iv m4.tag m4.encrypted_digital_signature

  -- The fifth message, and the end.
  unfoldable pub send_m5 : Bool → M ℕ
  send_m5 verified = do
    let code = if verified then result_code ack else result_code nack
    padding ← random p (max_packet_size - 1)
    let m5 : SimpleMessage = record { message_code = code }
    send_message p (Simple.serialize m5 padding (p.fresh max_packet_size)) Simple.get_message_size
    modify (λ w. record w { counter = 0 })
    leave (
        if verified then return_code authentication_success else return_code authentication_failure)

  unfoldable pub authentication_request : M ℕ
  unfolding agree_key answer_user own_certificate send_m3 receive_m4 send_m5
  authentication_request = do
    buffer ← receive_plain p get_message_size_m1
    let m1 = deserialize_m1 buffer
    name ← to_string m1.username
    file ← require_some (c.public_key_file (key_path name)) (return_code authentication_failure)
    modify (λ w. record w { username = name })
    answer_user file
    client_key ← require_some file (error_code username_not_found)
    key ← agree_key m1.ephemeral_key m1.ephemeral_key_len
    let text = take m1.ephemeral_key_len m1.ephemeral_key ++ key
    send_m3 key text
    signature ← receive_m4
    send_m5 (is_ds_verified p c text signature (some client_key))
