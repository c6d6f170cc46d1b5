-- ===== src/Credentials.antt =====
-- The keys of the authentication: src/crypto/DiffieHellman.cpp, Hash.cpp, DigitalSignatureManager.cpp
-- and CertificateManager.cpp. What OpenSSL computes and what the key and certificate files hold is
-- the record `Credentials`; which of the calls fail is the platform's.
use secure_cloud_storage.Common.{
  ℕ, ◌^◌, Bool, false, Option, none, some, length, take, ltb, leb, ◌==◌, not, ◌||◌, ◌&&◌,
  if◌then◌else◌,
}
use mathlib.Core.Option
use secure_cloud_storage.Config.{aes_key_len}
use secure_cloud_storage.Codes.{return_code, authentication_failure, decryption_failure}
use secure_cloud_storage.Memory.{Bytes}
use secure_cloud_storage.Messages.Authentication.{ephemeral_key_len, max_serialized_certificate_len}
use secure_cloud_storage.World.{Platform, M, pure, undefined, modify, leave, to_string, ◌>>=◌}
use secure_cloud_storage.Channel.{attempt, attempts}

-- A key pair, a public key and a certificate are byte strings, whatever stands behind the pointers.
-- `key_pair n` is what `EVP_PKEY_keygen` makes as the n-th call, `key_text` and `key_of` write and
-- read a public key as PEM, `agree` is `EVP_PKEY_derive` of an own key pair and a peer's key.
-- `sign` is the contents of the signature buffer. A file is `none` if it cannot be opened, and holds
-- `none` if no key can be read from it. `trusted` is `X509_verify_cert` with the CA's store.
pub record Credentials : Type 0 where
  pub key_pair : ℕ → Bytes
  pub key_text : Bytes → Bytes
  pub key_of : Bytes → Option Bytes
  pub agree : Bytes → Bytes → Option Bytes
  pub sha256 : Bytes → Bytes
  pub sign : Bytes → Bytes → Bytes
  pub verifies : Bytes → Bytes → Bytes → Bool
  pub public_key_file : Bytes → Option (Option Bytes)
  pub private_key_file : Bytes → Option (Option Bytes)
  pub certificate_file : Bytes → Option Bytes
  pub certificate_text : Bytes → Bytes
  pub certificate_of : Bytes → Option Bytes
  pub trusted : Bytes → Bool
  pub certificate_key : Bytes → Option Bytes

-- The outcome of a serialization: the pointer was not set, or it was set and its memory is deleted
-- again, or it has the text.
pub data Serialized : Type 0 where
  unmade released : Serialized
  made : Bytes → Serialized

-- The outcome of a derivation: without a buffer, with one but without a secret, or with the secret.
pub data Derived : Type 0 where
  unallocated failed : Derived
  derived : Bytes → Derived

-- Any computation, undefined: a use of memory that the program does not own.
abbrev pub misuse : {A : Type 0} → M A
misuse w = undefined w

-- A text that an `int` length cuts out of a field: `none` for a length that is not positive.
unfoldable pub cut : Bytes → ℕ → ℕ → M (Option Bytes)
cut field size n =
    if n == 0 || leb (2 ^ 31) n
    then pure none
    else if ltb size n
    then misuse
    else pure (some (take n field))

module _ (p : Platform) (c : Credentials) where
  -- `DiffieHellman::DiffieHellman`: whether the parameters are set.
  unfoldable pub diffie_hellman : M Bool
  diffie_hellman = attempts p 6

  -- The context, its initialisation and the generation; `none` is the null pointer.
  unfoldable pub generate_ephemeral_key : Bool → M (Option Bytes)
  generate_ephemeral_key parameters w =
      (attempts p 3 >>= λ ok. pure (if parameters && ok then some (c.key_pair w.calls) else none)) w

  -- The memory BIO, the writing and the reading back of a text, if there is something to write.
  unfoldable pub written : Option Bytes → M Serialized
  written text = do
    opened ← attempt p
    ok ← attempt p
    read ← attempt p
    pure (elim text [
      | none ↦ unmade
      | some t ↦ if opened && ok then (if read then made t else released) else unmade
    ])

  unfoldable pub serialize_ephemeral_key : Option Bytes → M Serialized
  unfolding written
  serialize_ephemeral_key key = written (Option.map c.key_text key)

  unfoldable pub deserialize_ephemeral_key : Bytes → ℕ → M (Option Bytes)
  unfolding cut
  deserialize_ephemeral_key field n = do
    opened ← attempt p
    if not opened then pure none else (do
      text ← cut field ephemeral_key_len n
      ok ← attempt p
      pure (elim text [ none ↦ none | some t ↦ if ok then c.key_of t else none ]))

  -- The two calls that prepare the context, the peer's key, the size of the secret and the secret.
  -- Where the size is not determined, the length of the buffer is not either.
  unfoldable pub derive_shared_secret : Option Bytes → Option Bytes → M Derived
  derive_shared_secret none peer = pure unallocated
  derive_shared_secret (some own) none = pure unallocated
  derive_shared_secret (some own) (some peer) = do
    prepared ← attempts p 3
    if not prepared then pure unallocated else (do
      sized ← attempt p
      if not sized then misuse else (do
        ok ← attempt p
        pure (elim (c.agree own peer) [
          | none ↦ failed
          | some s ↦ if ok then derived s else failed
        ])))

  unfoldable pub generate_ds : Bytes → Bytes → Bytes
  generate_ds text private_key = c.sign private_key text

  -- No key makes `EVP_VerifyFinal` fail.
  unfoldable pub is_ds_verified : Bytes → Bytes → Option Bytes → Bool
  is_ds_verified text signature none = false
  is_ds_verified text signature (some key) = c.verifies key text signature

  unfoldable pub serialize_certificate : Option Bytes → M Serialized
  unfolding written
  serialize_certificate certificate = written (Option.map c.certificate_text certificate)

  -- The parser of a text that is longer than the array stops at the end of a certificate in it, and
  -- reads on behind the array if there is none.
  unfoldable pub whole_certificate : Bytes → M Bytes
  whole_certificate field = elim (c.certificate_of (take max_serialized_certificate_len field)) [
    | none ↦ misuse
    | some x ↦ pure (take max_serialized_certificate_len field)
  ]

  -- A negative length makes the BIO take the field as a C string.
  unfoldable pub deserialize_certificate : Bytes → ℕ → M (Option Bytes)
  unfolding whole_certificate
  deserialize_certificate field n = do
    text ←
        if leb (2 ^ 31) n
        then to_string field
        else if ltb max_serialized_certificate_len n
        then whole_certificate field
        else pure (take n field)
    ok ← attempt p
    pure (if ok then c.certificate_of text else none)

  unfoldable pub verify_certificate : Option Bytes → M Bool
  verify_certificate certificate = do
    ok ← attempts p 2
    pure (elim certificate [ none ↦ false | some x ↦ ok && c.trusted x ])

  unfoldable pub get_public_key : Option Bytes → Option Bytes
  get_public_key none = none
  get_public_key (some x) = c.certificate_key x

  -- What both ends do with a derivation: the secret's buffer is wiped at its length, which is not
  -- set where there is no buffer.
  unfoldable pub secret_of : Derived → M Bytes
  secret_of unallocated = misuse
  secret_of failed = leave (return_code authentication_failure)
  secret_of (derived s) = pure s

  -- `generateSHA256` of the secret, whose first bytes are the session key.
  unfoldable pub take_session_key : Bytes → M (Unit {0})
  take_session_key secret =
      modify (λ w. record w { session_key = take aes_key_len (c.sha256 secret) })

  -- What both ends do with a serialized key: memory that is deleted already is deleted again.
  unfoldable pub text_of : Serialized → M Bytes
  text_of unmade = leave (return_code authentication_failure)
  text_of released = misuse
  text_of (made t) = pure t

  -- A buffer that is copied into an array of the given size.
  unfoldable pub fitting : Bytes → ℕ → M Bytes
  fitting text size = if ltb size (length text) then misuse else pure text

  -- The bytes that are read from a buffer, which may be shorter.
  unfoldable pub front : Bytes → ℕ → M Bytes
  front buffer n = if ltb (length buffer) n then misuse else pure (take n buffer)

  -- `AesGcm::decrypt` of a signature. After a wrong tag the buffer that it has deleted is deleted
  -- again; after another failure no buffer is returned.
  unfoldable pub decrypt_signature : Bytes → Bytes → Bytes → Bytes → Bytes → M Bytes
  decrypt_signature key aad iv tag cipher = do
    ok ← attempts p 5
    if ok
        then elim (p.unseal key iv aad tag cipher) [ none ↦ misuse | some s ↦ pure s ]
        else leave (return_code decryption_failure)
