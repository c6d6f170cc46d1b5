-- ===== src/Steps/Outcomes/Keys.antt =====
-- The steps with keys and plain messages are quiet.
use secure_cloud_storage.Common.{ℕ, ◌&&◌, Bool, Option, none, some, if◌then◌else◌}
use secure_cloud_storage.Memory.{Bytes}
use secure_cloud_storage.World.{Platform, pure, ◌>>=◌}
use secure_cloud_storage.Channel.{attempts}
use secure_cloud_storage.Steps.Plain.{receive_plain, send_plain}
use secure_cloud_storage.Credentials.{
  Credentials, Serialized, unmade, released, made, Derived, unallocated, failed, derived,
  diffie_hellman, generate_ephemeral_key, written, serialize_ephemeral_key, cut,
  deserialize_ephemeral_key, derive_shared_secret, serialize_certificate, deserialize_certificate,
  whole_certificate, verify_certificate, secret_of, text_of, fitting, front, decrypt_signature,
}
use secure_cloud_storage.Steps.Outcomes.{
  Quiet, Quiet-pure, Quiet-undefined, Quiet-bind, Quiet-if, Quiet-option, Quiet-leave,
  Quiet-attempts, decryption_failure_other, quiet_rules,
}
use secure_cloud_storage.Codes.{return_code, decryption_failure}

module _ (p : Platform) where
  pub receive_plain-Quiet : (n : ℕ) → Quiet (receive_plain p n)
  unfolding receive_plain
  receive_plain-Quiet n = search (quiet_rules) depth 20

  pub send_plain-Quiet : (buffer : Bytes) (n : ℕ) → Quiet (send_plain p buffer n)
  unfolding send_plain
  send_plain-Quiet buffer n = search (quiet_rules) depth 20

pub cut-Quiet : (p : Platform) (field : Bytes) (size n : ℕ) → Quiet (cut field size n)
unfolding cut
cut-Quiet p field size n = search (quiet_rules) depth 20

module _ (p : Platform) (c : Credentials) where
  pub diffie_hellman-Quiet : Quiet (diffie_hellman p c)
  unfolding diffie_hellman
  diffie_hellman-Quiet = search (quiet_rules) depth 20

  generation :
      (parameters : Bool) (n : ℕ)
      → Quiet (attempts p 3 >>= λ ok. pure (if parameters && ok then some (c.key_pair n) else none))
  generation parameters n = search (quiet_rules) depth 20

  pub generate_ephemeral_key-Quiet :
      (parameters : Bool) → Quiet (generate_ephemeral_key p c parameters)
  unfolding generate_ephemeral_key
  generate_ephemeral_key-Quiet parameters = record {
    at = λ w. (generation parameters w.calls).at w;
  }

  written-Quiet : (text : Option Bytes) → Quiet (written p c text)
  unfolding written
  written-Quiet text = search (quiet_rules) depth 20

  pub serialize_ephemeral_key-Quiet : (key : Option Bytes) → Quiet (serialize_ephemeral_key p c key)
  unfolding serialize_ephemeral_key
  serialize_ephemeral_key-Quiet key = search (quiet_rules, written-Quiet) depth 20

  pub serialize_certificate-Quiet :
      (certificate : Option Bytes) → Quiet (serialize_certificate p c certificate)
  unfolding serialize_certificate
  serialize_certificate-Quiet certificate = search (quiet_rules, written-Quiet) depth 20

  pub deserialize_ephemeral_key-Quiet :
      (field : Bytes) (n : ℕ) → Quiet (deserialize_ephemeral_key p c field n)
  unfolding deserialize_ephemeral_key
  deserialize_ephemeral_key-Quiet field n = search (quiet_rules, cut-Quiet p) depth 20

  pub derive_shared_secret-Quiet :
      (own peer : Option Bytes) → Quiet (derive_shared_secret p c own peer)
  unfolding derive_shared_secret
  derive_shared_secret-Quiet none peer = Quiet-pure _
  derive_shared_secret-Quiet (some own) none = Quiet-pure _
  derive_shared_secret-Quiet (some own) (some peer) = search (quiet_rules) depth 20

  whole_certificate-Quiet : (field : Bytes) → Quiet (whole_certificate p c field)
  unfolding whole_certificate
  whole_certificate-Quiet field =
      Quiet-option (c.certificate_of _) Quiet-undefined (λ x. Quiet-pure _)

  pub deserialize_certificate-Quiet :
      (field : Bytes) (n : ℕ) → Quiet (deserialize_certificate p c field n)
  unfolding deserialize_certificate
  deserialize_certificate-Quiet field n = search (quiet_rules, whole_certificate-Quiet) depth 20

  pub verify_certificate-Quiet :
      (certificate : Option Bytes) → Quiet (verify_certificate p c certificate)
  unfolding verify_certificate
  verify_certificate-Quiet certificate = search (quiet_rules) depth 20

  pub secret_of-Quiet : (d : Derived) → Quiet (secret_of p c d)
  unfolding secret_of
  secret_of-Quiet unallocated = Quiet-undefined
  secret_of-Quiet failed = search (quiet_rules) depth 20
  secret_of-Quiet (derived s) = Quiet-pure s

  pub text_of-Quiet : (s : Serialized) → Quiet (text_of p c s)
  unfolding text_of
  text_of-Quiet unmade = search (quiet_rules) depth 20
  text_of-Quiet released = Quiet-undefined
  text_of-Quiet (made t) = Quiet-pure t

  pub fitting-Quiet : (text : Bytes) (size : ℕ) → Quiet (fitting p c text size)
  unfolding fitting
  fitting-Quiet text size = search (quiet_rules) depth 20

  pub front-Quiet : (buffer : Bytes) (n : ℕ) → Quiet (front p c buffer n)
  unfolding front
  front-Quiet buffer n = search (quiet_rules) depth 20

  pub decrypt_signature-Quiet :
      (key aad iv tag cipher : Bytes) → Quiet (decrypt_signature p c key aad iv tag cipher)
  unfolding decrypt_signature
  decrypt_signature-Quiet key aad iv tag cipher = Quiet-bind (Quiet-attempts p 5) (λ ok.
      Quiet-if ok
        (Quiet-option (p.unseal key iv aad tag cipher) Quiet-undefined (λ s. Quiet-pure s))
        (Quiet-leave (return_code decryption_failure) decryption_failure_other))

pub ruleset key_rules = (
  receive_plain-Quiet, send_plain-Quiet, diffie_hellman-Quiet, generate_ephemeral_key-Quiet,
  serialize_ephemeral_key-Quiet, serialize_certificate-Quiet, deserialize_ephemeral_key-Quiet,
  derive_shared_secret-Quiet, deserialize_certificate-Quiet, verify_certificate-Quiet,
  secret_of-Quiet, text_of-Quiet, fitting-Quiet, front-Quiet, decrypt_signature-Quiet,
)
