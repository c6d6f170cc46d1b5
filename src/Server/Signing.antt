-- ===== src/Server/Signing.antt =====
-- The messages that the server's authentication in src/modules/Server.cpp exchanges after the key
-- exchange: the third and the fourth.
use secure_cloud_storage.Common.{ℕ, ◌+◌, ◌<◌, ◌≡◌, refl, ap, true, some, [], arith}
use secure_cloud_storage.Config.{max_counter_value}
use secure_cloud_storage.Memory.{Bytes}
use secure_cloud_storage.Messages.Authentication.{deserialize_m4, check_counter_m4}
use secure_cloud_storage.World.{Platform, World, M, pure, ◌>>=◌}
use secure_cloud_storage.Credentials.{Credentials, Serialized, unmade, released, made, misuse}
use secure_cloud_storage.Steps.{increment_counter}
use secure_cloud_storage.Steps.Outcomes.{
  Quiet, Quiet-bind, Quiet-pure, Quiet-undefined, Quiet-require, Quiet-require_some, Quiet-world,
  Quiet-aes_encrypt, authentication_failure_other, encryption_failure_other, wrong_counter_other,
}
use secure_cloud_storage.Steps.Outcomes.Judging.{
  Condition, Ends, IsJudged, Ends-bind, Ends-Quiet, Ends-counter, Ends-increment_counter,
  Ends-world, Ends-assoc,
}
use secure_cloud_storage.Steps.Outcomes.Yielding.{
  Yields-any, Yields-require, Ends-knowing, Ends-inside,
}
use secure_cloud_storage.Steps.Outcomes.Keys.{
  front-Quiet, fitting-Quiet, send_plain-Quiet, receive_plain-Quiet, decrypt_signature-Quiet,
  serialize_certificate-Quiet,
}
use secure_cloud_storage.Steps.Outcomes.Agreeing.{decrypt_signature-Yields}
use secure_cloud_storage.Server.Authentication.{own_certificate, send_m3, receive_m4}
use secure_cloud_storage.Server.Agreement.{Keyed}

-- The fourth message, which opens under the session key to the signature, at the second counter.
pub record IsSigned (p : Platform) (session_key message signature : Bytes) : Type 0 where
  pub current : check_counter_m4 (deserialize_m4 message) 1 ≡ true
  pub opens :
      let m4 = deserialize_m4 message in
      p.unseal session_key m4.iv m4.aad m4.tag m4.encrypted_digital_signature ≡ some signature

abbrev pub Counted : Bytes → ℕ → Bytes → Condition
Counted n i k name counter key = (name ≡ n) × (counter ≡ i) × (key ≡ k)

module _ (p : Platform) (c : Credentials) (again : M ℕ) where
  own_certificate-Quiet : Quiet (own_certificate p c again)
  unfolding own_certificate
  own_certificate-Quiet = Quiet-bind (serialize_certificate-Quiet p c _) (λ s. by_case s)
    where
      by_case :
          (s : Serialized)
          → Quiet
              (elim s as (λ _. M Bytes) [ unmade ↦ pure [] | released ↦ misuse | made t ↦ pure t ])
      by_case unmade = Quiet-pure []
      by_case released = Quiet-undefined
      by_case (made t) = Quiet-pure t

  module _ (Good : World → Type 0) where
    abbrev Judged : {A : Type 0} → Condition → Condition → M A → Type 0
    Judged F G m = Ends (IsJudged Good) F G m

    quiet : {A : Type 0} {m : M A} (F : Condition) → Quiet m → Judged F F m
    quiet F q = Ends-Quiet Good F q

    and_then :
        {A B : Type 0} {F G H : Condition} {m : M A} {f : A → M B}
        → Judged F G m
        → ((a : A) → Judged G H (f a))
        → Judged F H (m >>= f)
    and_then = Ends-bind Good

    -- The counter goes up from a known value.
    counting :
        (n : Bytes) (i : ℕ) (k : Bytes)
        → i < max_counter_value
        → Judged (Counted n i k) (Counted n (i + 1) k) (increment_counter p again)
    counting n i k low =
        Ends-increment_counter Good p again i (Counted n i k) (Counted n (i + 1) k) low
          (λ name count key (same, here, kept). here)
          (λ name count key (same, here, kept). (same, ap (λ x. x + 1) here, kept))

    pub send_m3-Ends :
        (n k key text : Bytes) → Judged (Keyed n k) (Counted n 1 k) (send_m3 p c again key text)
    unfolding send_m3
    send_m3-Ends n k key text =
        let here = Counted n 0 k in
        let F = Keyed n k in
        and_then (quiet F (Quiet-require_some _ _ authentication_failure_other)) (λ file.
          and_then (quiet F (Quiet-require_some file _ authentication_failure_other))
            (λ private_key.
              and_then
                (Ends-counter Good 0 F here (λ name count key' (same, kept). (same, refl, kept)))
                (λ _. and_then (quiet here Quiet-world) (λ w.
                  and_then (quiet here (front-Quiet p c _ _)) (λ signature.
                    and_then (quiet here (Quiet-aes_encrypt p _ _ _)) (λ sealed.
                      and_then (quiet here (Quiet-require_some sealed _ encryption_failure_other))
                        (λ s. and_then (quiet here own_certificate-Quiet) (λ certificate.
                          and_then (quiet here (fitting-Quiet p c _ _)) (λ key'.
                            and_then (quiet here (fitting-Quiet p c _ _)) (λ certificate'.
                              and_then (quiet here (send_plain-Quiet p _ _))
                                (λ _. counting n 0 k (omega arith))))))))))))

    -- The rest may use that the fourth message opens under the session key.
    pub receive_m4-Ends :
        {B : Type 0} {H : Condition} (n k : Bytes) (g : Bytes → M B)
        → ((message signature : Bytes)
            → IsSigned p k message signature
            → Judged (Counted n 2 k) H (g signature))
        → Judged (Counted n 1 k) H (receive_m4 p c again >>= g)
    unfolding receive_m4
    receive_m4-Ends n k g rest =
        Ends-inside Good (λ _. Unit) _ _ g (receive_plain-Quiet p _) (Yields-any _)
          (λ message _. Ends-assoc Good _ _ g (
            Ends-world Good (λ w (name, count, kept).
              let m4 = deserialize_m4 message in
              Ends-inside Good (λ _. check_counter_m4 m4 w.counter ≡ true) _ _ g
                (Quiet-require _ _ wrong_counter_other) (Yields-require _ _ (λ h. h))
                (λ _ current. Ends-assoc Good _ _ g (
                  and_then (counting n 1 k (omega arith)) (λ _.
                    Ends-knowing Good
                      (λ s.
                        p.unseal w.session_key m4.iv m4.aad m4.tag m4.encrypted_digital_signature
                        ≡ some s)
                      (decrypt_signature-Quiet p c _ _ _ _ _)
                      (decrypt_signature-Yields p c _ _ _ _ _)
                      (λ signature opens.
                        rest message signature (record {
                          current = rw count at current;
                          opens = rw kept at opens;
                        }))))))))
