-- ===== src/Server/Agreement.antt =====
-- The key exchange in `Server::authenticationRequest` of src/modules/Server.cpp: where the session key
-- and the server's text come from.
use mathlib.Core.Option
use secure_cloud_storage.Common.{ℕ, ◌≡◌, refl, take}
use secure_cloud_storage.Config.{aes_key_len}
use secure_cloud_storage.Memory.{Bytes}
use secure_cloud_storage.World.{Platform, World, M, ◌>>=◌}
use secure_cloud_storage.Credentials.{Credentials, derived, made}
use secure_cloud_storage.Steps.Outcomes.Judging.{Condition, Ends, IsJudged, Ends-bind, Ends-assoc}
use secure_cloud_storage.Steps.Outcomes.Yielding.{Yields-any, Ends-knowing, Ends-inside}
use secure_cloud_storage.Steps.Outcomes.Keys.{
  diffie_hellman-Quiet, generate_ephemeral_key-Quiet, serialize_ephemeral_key-Quiet,
  deserialize_ephemeral_key-Quiet, derive_shared_secret-Quiet, secret_of-Quiet, text_of-Quiet,
}
use secure_cloud_storage.Steps.Outcomes.Agreeing.{
  IsAgreed, IsGenerated, IsRead, IsDerived, IsWritten, generate_ephemeral_key-Yields,
  deserialize_ephemeral_key-Yields, derive_shared_secret-Yields, serialize_ephemeral_key-Yields,
  secret_of-Yields, text_of-Yields, take_session_key-Ends, from_steps,
}
use secure_cloud_storage.Server.Authentication.{agree_key}

abbrev pub Named : Bytes → Condition
Named n name counter key = name ≡ n

abbrev pub Keyed : Bytes → Bytes → Condition
Keyed n k name counter key = (name ≡ n) × (key ≡ k)

module _ (p : Platform) (c : Credentials) (again : M ℕ) (Good : World → Type 0) where
  -- The rest may use where the session key and the server's text are from.
  pub agree_key-Ends :
      {B : Type 0} {H : Condition} (n field : Bytes) (len : ℕ) (g : Bytes → M B)
      → ((text k : Bytes)
          → IsAgreed c text (take len field) k
          → Ends (IsJudged Good) (Keyed n k) H (g text))
      → Ends (IsJudged Good) (Named n) H (agree_key p c again field len >>= g)
  unfolding agree_key
  agree_key-Ends n field len g rest =
      Ends-inside Good (λ _. Unit) _ _ g (diffie_hellman-Quiet p c) (Yields-any _)
        (λ parameters _.
          Ends-inside Good (IsGenerated p c) _ _ g (generate_ephemeral_key-Quiet p c parameters)
            (generate_ephemeral_key-Yields p c parameters)
            (λ own generated.
              Ends-inside Good (IsRead p c (take len field)) _ _ g
                (deserialize_ephemeral_key-Quiet p c field len)
                (deserialize_ephemeral_key-Yields p c field len)
                (λ peer read.
                  Ends-inside Good (IsDerived p c own peer) _ _ g
                    (derive_shared_secret-Quiet p c own peer)
                    (derive_shared_secret-Yields p c own peer)
                    (λ d from.
                      Ends-inside Good (λ s. d ≡ derived s) _ _ g (secret_of-Quiet p c d)
                        (secret_of-Yields p c d)
                        (λ secret is_secret.
                          let k = take aes_key_len (c.sha256 secret) in
                          Ends-assoc Good _ _ g (
                            Ends-bind Good
                              (take_session_key-Ends p c Good secret (Named n) (Keyed n k)
                                (λ name counter key h. (h, refl)))
                              (λ _.
                                Ends-inside Good (IsWritten p c (Option.map c.key_text own)) _ _ g
                                  (serialize_ephemeral_key-Quiet p c own)
                                  (serialize_ephemeral_key-Yields p c own)
                                  (λ written is_written.
                                    Ends-knowing Good (λ t. written ≡ made t)
                                      (text_of-Quiet p c written) (text_of-Yields p c written)
                                      (λ text is_text. rest text k (
                                        from_steps p c own peer d secret (take len field) text
                                          generated read from is_secret
                                          (rw is_text at is_written)))))))))))
