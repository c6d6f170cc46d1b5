-- ===== src/Tests/Authentication.antt =====
-- The theorems on the authentication, with toy keys: a signature is 128 times the same byte, and
-- all secrets are the same.
use secure_cloud_storage.Common.{
  ℕ, none, some, [], ◌∷◌, ◌++◌, replicate, eq_bytes, refl, ◌≡◌, if◌then◌else◌,
}
use secure_cloud_storage.Memory.{Bytes, u32_bytes}
use secure_cloud_storage.Memory.Laws.{joined}
use secure_cloud_storage.Files.{codes}
use secure_cloud_storage.Messages.Authentication.{
  authentication_m1, serialize_m1, authentication_m4, serialize_m4, authentication_m3, serialize_m3,
}
use secure_cloud_storage.World.{World, Outcome, returned, ◌>>=◌}
use secure_cloud_storage.Credentials.{Credentials}
use secure_cloud_storage.Steps.Outcomes.Judging.{Never, Comes, IsJudged}
use secure_cloud_storage.Server.Authentication
use secure_cloud_storage.Client.Authentication as ClientSide
use secure_cloud_storage.Server.Accepting.{IsVerified, authentication_verifies}
use secure_cloud_storage.Client.Accepting.{IsChecked, authentication_checks_server}
use secure_cloud_storage.Tests.Platform.{toy, login, session, tag_of, packet_at}

abbrev keys : Credentials
keys = record {
  key_pair = λ n. 3 ∷ [];
  key_text = λ k. k;
  key_of = λ t. some t;
  agree = λ own peer. some (4 ∷ []);
  sha256 = λ s. replicate 32 5;
  sign = λ k t. replicate 128 1;
  verifies = λ k t s. eq_bytes s (replicate 128 1);
  public_key_file = λ path.
      if eq_bytes path (codes "../resources/public_keys/eve_key.pem")
      then some (some (9 ∷ []))
      else none;
  private_key_file = λ path. some (some (8 ∷ []));
  certificate_file = λ path. some (7 ∷ []);
  certificate_text = λ x. x;
  certificate_of = λ t. some t;
  trusted = λ x. eq_bytes x (7 ∷ []);
  certificate_key = λ x. some (8 ∷ []);
}

abbrev secret : Bytes
secret = replicate 16 5

-- What an honest client of the user `eve` sends.
abbrev arriving : World
arriving = record session {
  username = [];
  incoming =
      serialize_m1 (authentication_m1 (3 ∷ []) (codes "eve")) (replicate 1064 0)
      ++ serialize_m4
          (authentication_m4 (replicate 12 0) (u32_bytes 1) (tag_of secret (u32_bytes 1))
            (replicate 128 1))
          (replicate 160 0);
}

-- What an honest server answers.
abbrev answered : World
answered = record session {
  username = codes "eve";
  incoming =
      (0 ∷ replicate 70 0)
      ++ (serialize_m3
            (authentication_m3 (3 ∷ []) (replicate 12 0) (u32_bytes 0) (tag_of secret (u32_bytes 0))
              (replicate 128 1) (7 ∷ []))
            (replicate 2692 0)
          ++ packet_at secret 2 (0 ∷ replicate 70 0));
}

authentication_verifies_example :
    Comes
      (IsJudged (IsVerified toy keys arriving))
      Never
      (Authentication.authentication_request toy keys login arriving)
authentication_verifies_example = authentication_verifies toy keys login arriving

authentication_checks_server_example :
    Comes
      (IsJudged (IsChecked toy keys))
      Never
      (ClientSide.authentication_request toy keys (8 ∷ []) login answered)
authentication_checks_server_example = authentication_checks_server toy keys (8 ∷ []) login answered

abbrev code_of : Outcome ℕ → ℕ
code_of (returned c v) = c
code_of o = 0

abbrev after : Outcome ℕ → World
after (returned c v) = v
after o = session

-- The client's run with these answers, and the server's run with what the client then sends.
abbrev client_run : Outcome ℕ
client_run = ClientSide.authentication_request toy keys (8 ∷ []) login answered

abbrev server_run : Outcome ℕ
server_run =
    Authentication.authentication_request toy keys login
      (record arriving { incoming = joined (after client_run).outgoing })

-- The two authentications fit together: both succeed, the server's packets are the answers, and user,
-- session key and counter agree.
they_agree :
    (code_of client_run ≡ 23)
    × (code_of server_run ≡ 23)
    × (joined (after server_run).outgoing ≡ answered.incoming)
    × ((after server_run).session_key ≡ (after client_run).session_key)
    × ((after server_run).counter ≡ (after client_run).counter)
    × ((after server_run).username ≡ codes "eve")
unfolding eq_bytes ◌>>=◌ secure_cloud_storage.World.modify secure_cloud_storage.World.require
    secure_cloud_storage.World.require_some secure_cloud_storage.World.call
    secure_cloud_storage.World.to_string secure_cloud_storage.Memory.memcpy
    secure_cloud_storage.Memory.read_at secure_cloud_storage.Memory.put
    secure_cloud_storage.Memory.put_all secure_cloud_storage.Memory.strncpy
    secure_cloud_storage.Memory.c_string secure_cloud_storage.Memory.u32_bytes
    secure_cloud_storage.Memory.u32_value secure_cloud_storage.Memory.htonl
    secure_cloud_storage.Channel.recv secure_cloud_storage.Channel.status_of
    secure_cloud_storage.Channel.receive secure_cloud_storage.Channel.attempt
    secure_cloud_storage.Channel.send secure_cloud_storage.Channel.random
    secure_cloud_storage.Channel.attempts secure_cloud_storage.Channel.aes_encrypt
    secure_cloud_storage.Channel.aes_decrypt secure_cloud_storage.Channel.encrypt
    secure_cloud_storage.Channel.decrypt secure_cloud_storage.Channel.send_sealed
    secure_cloud_storage.Channel.send_message secure_cloud_storage.Channel.receive_message
    secure_cloud_storage.Credentials.cut secure_cloud_storage.Credentials.diffie_hellman
    secure_cloud_storage.Credentials.generate_ephemeral_key secure_cloud_storage.Credentials.written
    secure_cloud_storage.Credentials.serialize_ephemeral_key
    secure_cloud_storage.Credentials.deserialize_ephemeral_key
    secure_cloud_storage.Credentials.derive_shared_secret
    secure_cloud_storage.Credentials.generate_ds secure_cloud_storage.Credentials.is_ds_verified
    secure_cloud_storage.Credentials.serialize_certificate
    secure_cloud_storage.Credentials.deserialize_certificate
    secure_cloud_storage.Credentials.verify_certificate
    secure_cloud_storage.Credentials.get_public_key secure_cloud_storage.Credentials.secret_of
    secure_cloud_storage.Credentials.take_session_key secure_cloud_storage.Credentials.text_of
    secure_cloud_storage.Credentials.fitting secure_cloud_storage.Credentials.front
    secure_cloud_storage.Credentials.decrypt_signature secure_cloud_storage.Steps.count_up
    secure_cloud_storage.Steps.store_chunk secure_cloud_storage.Steps.reauthenticate
    secure_cloud_storage.Steps.increment_counter secure_cloud_storage.Steps.send_simple
    secure_cloud_storage.Steps.open_for_writing secure_cloud_storage.Steps.Plain.receive_plain
    secure_cloud_storage.Steps.Plain.send_plain
    secure_cloud_storage.Messages.Authentication.zero_padded
    secure_cloud_storage.Messages.Authentication.authentication_m1
    secure_cloud_storage.Messages.Authentication.serialize_m1
    secure_cloud_storage.Messages.Authentication.deserialize_m1
    secure_cloud_storage.Messages.Authentication.authentication_m3
    secure_cloud_storage.Messages.Authentication.serialize_m3
    secure_cloud_storage.Messages.Authentication.deserialize_m3
    secure_cloud_storage.Messages.Authentication.check_counter_m3
    secure_cloud_storage.Messages.Authentication.authentication_m4
    secure_cloud_storage.Messages.Authentication.serialize_m4
    secure_cloud_storage.Messages.Authentication.deserialize_m4
    secure_cloud_storage.Messages.Authentication.check_counter_m4
    secure_cloud_storage.Messages.Simple.serialize secure_cloud_storage.Messages.Simple.deserialize
    secure_cloud_storage.Messages.Generic.generic secure_cloud_storage.Messages.Generic.serialize
    secure_cloud_storage.Messages.Generic.deserialize
    secure_cloud_storage.Messages.Generic.get_counter Authentication.answer_user
    Authentication.agree_key Authentication.own_certificate Authentication.send_m3
    Authentication.receive_m4 Authentication.send_m5 Authentication.authentication_request
    ClientSide.send_m1 ClientSide.receive_m2 ClientSide.receive_m3 ClientSide.check_server
    ClientSide.send_m4 ClientSide.receive_m5 ClientSide.authentication_request
they_agree = (refl, refl, refl, refl, refl, refl)
