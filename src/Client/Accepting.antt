-- ===== src/Client/Accepting.antt =====
-- What a successful `Client::authenticationRequest` of src/modules/Client.cpp has checked.
use mathlib.Core.Option
use secure_cloud_storage.Common.{ℕ, ◌+◌, ◌≡◌, inr, refl, ap, true, Option, some, ◌++◌, take, arith}
use secure_cloud_storage.Config.{aes_key_len}
use secure_cloud_storage.Memory.{Bytes}
use secure_cloud_storage.Messages.Authentication.{
  AuthenticationM3, deserialize_m3, check_counter_m3,
}
use secure_cloud_storage.World.{Platform, World, M, ◌>>=◌}
use secure_cloud_storage.Credentials.{Credentials, derived, made}
use secure_cloud_storage.Steps.Outcomes.{
  Quiet, Quiet-pure, Quiet-if, Quiet-throw, Quiet-require, Quiet-require_some, Quiet-world,
  Quiet-decrypt, Quiet-aes_encrypt, authentication_failure_other, decryption_failure_other,
  encryption_failure_other, wrong_counter_other, quiet_rules,
}
use secure_cloud_storage.Steps.Outcomes.Judging.{
  Condition, Never, Comes, Ends, IsJudged, Ends-bind, Ends-Quiet, Ends-counter,
  Ends-increment_counter, Ends-world, Ends-assoc, Ends-pure,
}
use secure_cloud_storage.Steps.Outcomes.Yielding.{
  Yields-any, Yields-require, Ends-knowing, Ends-inside,
}
use secure_cloud_storage.Steps.Outcomes.Keys.{
  key_rules, receive_plain-Quiet, send_plain-Quiet, front-Quiet, diffie_hellman-Quiet,
  generate_ephemeral_key-Quiet, serialize_ephemeral_key-Quiet, text_of-Quiet,
  deserialize_ephemeral_key-Quiet, derive_shared_secret-Quiet, secret_of-Quiet,
  decrypt_signature-Quiet,
}
use secure_cloud_storage.Steps.Outcomes.Agreeing.{
  IsAgreed, IsGenerated, IsRead, IsDerived, IsWritten, generate_ephemeral_key-Yields,
  deserialize_ephemeral_key-Yields, derive_shared_secret-Yields, serialize_ephemeral_key-Yields,
  secret_of-Yields, text_of-Yields, decrypt_signature-Yields, take_session_key-Ends, from_steps,
}
use secure_cloud_storage.Client.Authentication.{
  send_m1, receive_m2, receive_m3, send_m4, receive_m5, authentication_request,
}
use secure_cloud_storage.Client.Checking.{IsServer, check_server-Yields, check_server-Quiet}

-- What has happened: the session key comes from a key pair that the client has generated and from
-- the server's key in a third message, which carries a first counter and opens under the session key
-- to a signature. The server has shown itself by that signature of the public part of the client's
-- pair followed by the server's key. And the counter starts at 0.
pub record IsChecked (p : Platform) (c : Credentials) (w : World) : Type 0 where
  pub third : Bytes
  pub client_text : Bytes
  pub signature : Bytes
  pub current : check_counter_m3 (deserialize_m3 third) 0 ≡ true
  pub agreed :
      let m3 = deserialize_m3 third in
      IsAgreed c client_text (take m3.ephemeral_key_len m3.ephemeral_key) w.session_key
  pub opens :
      let m3 = deserialize_m3 third in
      p.unseal w.session_key m3.iv m3.aad m3.tag m3.encrypted_digital_signature ≡ some signature
  pub server :
      let m3 = deserialize_m3 third in
      IsServer c (client_text ++ take m3.ephemeral_key_len m3.ephemeral_key) signature
  pub at_start : w.counter ≡ 0

-- What the third message has brought, for a key pair and the text of its public part.
record HasBrought (p : Platform) (c : Credentials) (own : Option Bytes) (k third signature : Bytes)
    : Type 0 where
  current : check_counter_m3 (deserialize_m3 third) 0 ≡ true
  agreed :
      (text : Bytes)
      → Option.map c.key_text own ≡ some text
      → let m3 = deserialize_m3 third in
        IsAgreed c text (take m3.ephemeral_key_len m3.ephemeral_key) k
  opens :
      let m3 = deserialize_m3 third in
      p.unseal k m3.iv m3.aad m3.tag m3.encrypted_digital_signature ≡ some signature

module _ (p : Platform) (c : Credentials) (private_key : Bytes) (again : M ℕ) where
  send_m1-Quiet : (text : Bytes) → Quiet (send_m1 p c private_key again text)
  unfolding send_m1
  send_m1-Quiet text = search (quiet_rules, key_rules) depth 30

  receive_m2-Quiet : Quiet (receive_m2 p c private_key again)
  unfolding receive_m2
  receive_m2-Quiet = search (quiet_rules, key_rules) depth 30

  abbrev Anything : Condition
  Anything name counter key = Unit

  abbrev At : ℕ → Condition
  At i name counter key = counter ≡ i

  abbrev Counted : ℕ → Bytes → Condition
  Counted i k name counter key = (counter ≡ i) × (key ≡ k)

  abbrev Good : World → Type 0
  Good = IsChecked p c

  abbrev Judged : {A : Type 0} → Condition → Condition → M A → Type 0
  Judged F G m = Ends (IsJudged Good) F G m

  quiet : {A : Type 0} {m : M A} (F : Condition) → Quiet m → Judged F F m
  quiet F q = Ends-Quiet Good F q

  and_then :
      {A B : Type 0} {F G H : Condition} {m : M A} {f : A → M B}
      → Judged F G m
      → ((a : A) → Judged G H (f a))
      → Judged F H (m >>= f)
  and_then = Ends-bind Good

  -- The rest may use it.
  receive_m3-Ends :
      {B : Type 0} {H : Condition} (own : Option Bytes) (g : AuthenticationM3 × Bytes → M B)
      → IsGenerated p c own
      → ((third signature k : Bytes)
          → HasBrought p c own k third signature
          → Judged (Counted 1 k) H (g (deserialize_m3 third, signature)))
      → Judged Anything H (receive_m3 p c private_key again own >>= g)
  unfolding receive_m3
  receive_m3-Ends own g generated rest =
      Ends-inside Good (λ _. Unit) _ _ g (receive_plain-Quiet p _) (Yields-any _)
        (λ third _.
          let m3 = deserialize_m3 third in
          let field = take m3.ephemeral_key_len m3.ephemeral_key in
          Ends-assoc Good _ _ g (
            and_then (Ends-counter Good 0 Anything (At 0) (λ name count key h. refl)) (λ _.
              Ends-inside Good (λ _. check_counter_m3 m3 0 ≡ true) _ _ g
                (Quiet-require _ _ wrong_counter_other) (Yields-require _ _ (λ h. h))
                (λ _ current. Ends-assoc Good _ _ g (
                  and_then
                    (Ends-increment_counter Good p again 0 (At 0) (At 1) (omega arith)
                      (λ name count key h. h) (λ name count key h. ap (λ x. x + 1) h))
                    (λ _.
                      Ends-inside Good (IsRead p c field) _ _ g
                        (deserialize_ephemeral_key-Quiet p c _ _)
                        (deserialize_ephemeral_key-Yields p c _ _)
                        (λ peer read.
                          Ends-inside Good (IsDerived p c own peer) _ _ g
                            (derive_shared_secret-Quiet p c own peer)
                            (derive_shared_secret-Yields p c own peer)
                            (λ d from.
                              Ends-inside Good (λ s. d ≡ derived s) _ _ g (secret_of-Quiet p c d)
                                (secret_of-Yields p c d)
                                (λ secret is_secret.
                                  let k = take aes_key_len (c.sha256 secret) in
                                  Ends-assoc Good _ _ g (
                                    and_then
                                      (take_session_key-Ends p c Good secret (At 1) (Counted 1 k)
                                        (λ name count key h. (h, refl)))
                                      (λ _. Ends-assoc Good _ _ g (
                                        Ends-world Good (λ w (count, kept).
                                          Ends-inside Good
                                            (λ s.
                                              p.unseal w.session_key m3.iv m3.aad m3.tag
                                                m3.encrypted_digital_signature
                                              ≡ some s)
                                            _ _ g (decrypt_signature-Quiet p c _ _ _ _ _)
                                            (decrypt_signature-Yields p c _ _ _ _ _)
                                            (λ signature opens.
                                              Ends-pure Good (m3, signature) g
                                                (rest third signature k (record {
                                                  current = current;
                                                  agreed = λ text is_text.
                                                      from_steps p c own peer d secret field text
                                                        generated read from is_secret is_text;
                                                  opens = rw kept at opens;
                                                }))))))))))))))))

  send_m4-Ends :
      (k text : Bytes) → Judged (Counted 1 k) (Counted 2 k) (send_m4 p c private_key again text)
  unfolding send_m4
  send_m4-Ends k text =
      let F = Counted 1 k in
      and_then (quiet F Quiet-world) (λ w. and_then (quiet F (front-Quiet p c _ _)) (λ signature.
        and_then (quiet F (Quiet-aes_encrypt p _ _ _)) (λ sealed.
          and_then (quiet F (Quiet-require_some sealed _ encryption_failure_other)) (λ s.
            and_then (quiet F (send_plain-Quiet p _ _)) (λ _.
              Ends-increment_counter Good p again 1 F (Counted 2 k) (omega arith)
                (λ name count key (here, kept). here)
                (λ name count key (here, kept). (ap (λ x. x + 1) here, kept)))))))

  receive_m5-Ends :
      (k : Bytes)
      → ((w : World) → w.counter ≡ 0 → w.session_key ≡ k → Good w)
      → Judged (Counted 2 k) Never (receive_m5 p c private_key again)
  unfolding receive_m5
  receive_m5-Ends k good =
      let F = Counted 2 k in
      and_then (quiet F (receive_plain-Quiet p _)) (λ buffer. and_then (quiet F Quiet-world) (λ w.
        and_then (quiet F (Quiet-decrypt p _ _)) (λ opened.
          and_then (quiet F (Quiet-require_some opened _ decryption_failure_other)) (λ plain.
            and_then (quiet F (Quiet-if _ (Quiet-pure tt) (Quiet-throw _))) (λ _.
              and_then (quiet F (Quiet-require _ _ authentication_failure_other)) (λ _.
                and_then
                  (Ends-counter Good 0 F (Counted 0 k)
                    (λ name count key (here, kept). (refl, kept)))
                  (λ _. record { at = λ w (count, kept). inr (good w count kept) })))))))

-- However the client's authentication ends, it never falls off its end, and unless it is undefined
-- or throws it returns either another code than the one for success, or that code in a world where
-- the counter is 0 and this has happened: the session key comes from a key pair that the client has
-- generated and from the server's key in a third message with the first counter; that message opens
-- under the session key to a signature; the server has shown a certificate that is trusted, and
-- under the key in it the signature was verified, as one of the public part of the client's pair
-- followed by the server's key. This holds for every stream of bytes, for all calls that fail, and
-- whatever a renewed authentication would do.
pub authentication_checks_server :
    (p : Platform) (c : Credentials) (private_key : Bytes) (again : M ℕ) (w : World)
    → Comes (IsJudged (IsChecked p c)) Never (authentication_request p c private_key again w)
unfolding authentication_request
authentication_checks_server p c private_key again w =
    let G = IsChecked p c in
    let F : Condition = λ name counter key. Unit in
    (Ends-bind G (Ends-Quiet G F (diffie_hellman-Quiet p c)) (λ parameters.
        Ends-knowing G (IsGenerated p c) (generate_ephemeral_key-Quiet p c parameters)
          (generate_ephemeral_key-Yields p c parameters)
          (λ own generated.
            Ends-knowing G (IsWritten p c (Option.map c.key_text own))
              (serialize_ephemeral_key-Quiet p c own) (serialize_ephemeral_key-Yields p c own)
              (λ written is_written.
                Ends-knowing G (λ t. written ≡ made t) (text_of-Quiet p c written)
                  (text_of-Yields p c written)
                  (λ ours is_text.
                    Ends-bind G (Ends-Quiet G F (send_m1-Quiet p c private_key again ours)) (λ _.
                      Ends-bind G (Ends-Quiet G F (receive_m2-Quiet p c private_key again)) (λ _.
                        receive_m3-Ends p c private_key again own _ generated
                          (λ third signature k brought.
                            let m3 = deserialize_m3 third in
                            let text = ours ++ take m3.ephemeral_key_len m3.ephemeral_key in
                            Ends-knowing G (λ _. IsServer c text signature)
                              (check_server-Quiet p c private_key again m3 text signature)
                              (check_server-Yields p c private_key again m3 text signature)
                              (λ _ server.
                                Ends-bind G (send_m4-Ends p c private_key again k text) (λ _.
                                  receive_m5-Ends p c private_key again k (λ v count kept. record {
                                    third = third;
                                    client_text = ours;
                                    signature = signature;
                                    current = brought.current;
                                    agreed =
                                        rw kept (brought.agreed ours (rw is_text at is_written));
                                    opens = rw kept brought.opens;
                                    server = server;
                                    at_start = count;
                                  }))))))))))).at
      w tt
