-- ===== src/Server/Accepting.antt =====
-- What a successful `Server::authenticationRequest` of src/modules/Server.cpp has checked.
use secure_cloud_storage.Common.{
  ℕ, ◌≡◌, refl, sym, ap, ◌∙◌, ◌⊎◌, inl, inr, Bool, true, false, Option, some, ◌++◌, take,
  Bool-cases, if◌then◌else◌,
}
use secure_cloud_storage.Codes.{
  return_code, authentication_success, authentication_failure, error_code, username_not_found,
}
use secure_cloud_storage.Memory.{Bytes, c_string}
use secure_cloud_storage.Messages.Authentication.{deserialize_m1, get_message_size_m1}
use secure_cloud_storage.World.{
  Platform, World, M, done, modify, to_string, require_some, ◌>>=◌, ◌>>◌,
}
use secure_cloud_storage.Credentials.{Credentials, is_ds_verified}
use secure_cloud_storage.Steps.Plain.{receive_plain}
use secure_cloud_storage.Steps.Outcomes.{
  Quiet, Quiet-random, Quiet-send_message, Quiet-to_string, username_not_found_other,
  authentication_failure_other, quiet_rules,
}
use secure_cloud_storage.Steps.Outcomes.Judging.{
  Condition, Never, Comes, Ends, IsJudged, Ends-bind, Ends-Quiet, Ends-counter, Ends-username,
  Ends-require_some, Comes-first,
}
use secure_cloud_storage.Steps.Outcomes.Yielding.{to_string-Yields, Ends-knowing}
use secure_cloud_storage.Steps.Outcomes.Keys.{key_rules, receive_plain-Quiet}
use secure_cloud_storage.Steps.Outcomes.Agreeing.{IsAgreed}
use secure_cloud_storage.Server.Authentication.{
  key_path, answer_user, agree_key, send_m3, receive_m4, send_m5, authentication_request,
}
use secure_cloud_storage.Server.Agreement.{Named, agree_key-Ends}
use secure_cloud_storage.Server.Signing.{IsSigned, Counted, send_m3-Ends, receive_m4-Ends}

-- What has happened between the two worlds: the first message named the user of the session, who has
-- a key in the key directory. The session key comes from the client's key in that message and from
-- a key pair that the server has generated. Under the user's key, the signature in a message that
-- opens under the session key was verified as one of the client's key followed by the server's. And
-- the counter starts at 0.
pub record IsVerified (p : Platform) (c : Credentials) (start w : World) : Type 0 where
  pub first : Bytes
  pub later : World
  pub fourth : Bytes
  pub key : Bytes
  pub server_text : Bytes
  pub signature : Bytes
  pub arrived : receive_plain p get_message_size_m1 start ≡ done first later
  pub named : c_string (deserialize_m1 first).username ≡ some w.username
  pub registered : c.public_key_file (key_path w.username) ≡ some (some key)
  pub agreed :
      let m1 = deserialize_m1 first in
      IsAgreed c server_text (take m1.ephemeral_key_len m1.ephemeral_key) w.session_key
  pub signed : IsSigned p w.session_key fourth signature
  pub verified :
      let m1 = deserialize_m1 first in
      c.verifies key (take m1.ephemeral_key_len m1.ephemeral_key ++ server_text) signature ≡ true
  pub at_start : w.counter ≡ 0

module _ (p : Platform) (c : Credentials) (again : M ℕ) where
  answer_user-Quiet : (key : Option Bytes) → Quiet (answer_user p c again key)
  unfolding answer_user
  answer_user-Quiet key = search (quiet_rules, key_rules) depth 20

  module _ (start : World) where
    abbrev Good : World → Type 0
    Good = IsVerified p c start

    abbrev Judged : {A : Type 0} → Condition → Condition → M A → Type 0
    Judged F G m = Ends (IsJudged Good) F G m

    quiet : {A : Type 0} {m : M A} (F : Condition) → Quiet m → Judged F F m
    quiet F q = Ends-Quiet Good F q

    and_then :
        {A B : Type 0} {F G H : Condition} {m : M A} {f : A → M B}
        → Judged F G m
        → ((a : A) → Judged G H (f a))
        → Judged F H (m >>= f)
    and_then = Ends-bind Good

    send_m5-Ends :
        (n k : Bytes) (verified : Bool)
        → ((w : World)
            → verified ≡ true
            → w.username ≡ n
            → w.counter ≡ 0
            → w.session_key ≡ k
            → Good w)
        → Judged (Counted n 2 k) Never (send_m5 p c again verified)
    unfolding send_m5
    send_m5-Ends n k verified good =
        let F = Counted n 2 k in
        and_then (quiet F (Quiet-random p _)) (λ padding.
          and_then (quiet F (Quiet-send_message p _ _)) (λ _.
            and_then
              (Ends-counter Good 0 F (Counted n 0 k)
                (λ name count key (same, here, kept). (same, refl, kept)))
              (λ _. record {
                at = λ w (name, count, key). decide w (Bool-cases verified) name count key;
              })))
      where
        decide :
            (w : World)
            → (verified ≡ true) ⊎ (verified ≡ false)
            → w.username ≡ n
            → w.counter ≡ 0
            → w.session_key ≡ k
            → IsJudged Good
                (if verified
                  then return_code authentication_success
                  else return_code authentication_failure)
                w
        decide w (inl same) name count key = inr (good w same name count key)
        decide w (inr other) name count key = inl (rw other authentication_failure_other)

    -- From the registered key on.
    after_name :
        (first n : Bytes) (later : World) (file : Option Bytes)
        → receive_plain p get_message_size_m1 start ≡ done first later
        → c_string (deserialize_m1 first).username ≡ some n
        → c.public_key_file (key_path n) ≡ some file
        → let m1 = deserialize_m1 first in
          Judged (Named n) Never (do
            answer_user p c again file
            client_key ← require_some file (error_code username_not_found)
            key ← agree_key p c again m1.ephemeral_key m1.ephemeral_key_len
            let text = take m1.ephemeral_key_len m1.ephemeral_key ++ key
            send_m3 p c again key text
            signature ← receive_m4 p c again
            send_m5 p c again (is_ds_verified p c text signature (some client_key)))
    unfolding is_ds_verified
    after_name first n later file arrived named registered =
        let m1 = deserialize_m1 first in
        let theirs = take m1.ephemeral_key_len m1.ephemeral_key in
        and_then (quiet (Named n) (answer_user-Quiet file)) (λ _.
          Ends-require_some Good file (error_code username_not_found) username_not_found_other
            (λ client_key found.
              agree_key-Ends p c again Good n m1.ephemeral_key m1.ephemeral_key_len _
                (λ ours k agreed.
                  and_then (send_m3-Ends p c again Good n k ours (theirs ++ ours)) (λ _.
                    receive_m4-Ends p c again Good n k _ (λ fourth signature signed.
                      send_m5-Ends n k (c.verifies client_key (theirs ++ ours) signature)
                        (λ w valid name count kept. record {
                          first = first;
                          later = later;
                          fourth = fourth;
                          key = client_key;
                          server_text = ours;
                          signature = signature;
                          arrived = arrived;
                          named = named ∙ ap some (sym name);
                          registered =
                              ap (λ x. c.public_key_file (key_path x)) name
                              ∙ registered
                              ∙ ap some found;
                          agreed = rw kept agreed;
                          signed = rw kept signed;
                          verified = valid;
                          at_start = count;
                        }))))))

    -- From the first message on.
    after_first :
        (first : Bytes) (later : World)
        → receive_plain p get_message_size_m1 start ≡ done first later
        → let m1 = deserialize_m1 first in
          Judged
            (λ name counter key. Unit)
            Never
            (do
              name ← to_string m1.username
              file ←
                  require_some
                    (c.public_key_file (key_path name))
                    (return_code authentication_failure)
              modify (λ w. record w { username = name })
              answer_user p c again file
              client_key ← require_some file (error_code username_not_found)
              key ← agree_key p c again m1.ephemeral_key m1.ephemeral_key_len
              let text = take m1.ephemeral_key_len m1.ephemeral_key ++ key
              send_m3 p c again key text
              signature ← receive_m4 p c again
              send_m5 p c again (is_ds_verified p c text signature (some client_key)))
    after_first first later arrived =
        Ends-knowing Good (λ name. c_string (deserialize_m1 first).username ≡ some name)
          (Quiet-to_string _) (to_string-Yields _)
          (λ name named.
            Ends-require_some Good (c.public_key_file (key_path name)) _
              authentication_failure_other
              (λ file registered.
                and_then (Ends-username Good name)
                  (λ _. after_name first name later file arrived named registered)))

-- However an authentication of a client ends, it never falls off its end, and unless it is undefined
-- or throws it returns either another code than the one for success, or that code in a world where
-- this has happened since the start: the first message that was received names the user, whose key
-- file holds a public key; the session key comes from the client's key in that message and from a
-- key pair that the server has generated; and under the user's key, the signature in a message that
-- opens under this session key at the second counter was verified, as one of the client's key
-- followed by the public part of that key pair. The counter is 0 then. This holds for every stream
-- of bytes, for all calls that fail, and whatever a renewed authentication would do.
pub authentication_verifies :
    (p : Platform) (c : Credentials) (again : M ℕ) (w : World)
    → Comes (IsJudged (IsVerified p c w)) Never (authentication_request p c again w)
unfolding authentication_request
authentication_verifies p c again w =
    Comes-first (IsVerified p c w) (λ name counter key. Unit) (receive_plain p get_message_size_m1)
      _ w (receive_plain-Quiet p _) tt
      (λ first later arrived. after_first p c again w first later arrived)
