-- ===== src/Server/Keeps/Channel.antt =====
-- What sending and receiving keep. A preorder that allows for calls, for packets sent and for bytes
-- taken from the stream is kept by every exchange.
use secure_cloud_storage.Common.{
  ℕ, zero, suc, ◌+◌, none, Bool, true, false, [], ◌∷◌, ◌++◌, take, drop, if◌then◌else◌,
}
use secure_cloud_storage.Memory.{Bytes}
use secure_cloud_storage.Messages.Generic.{Generic}
use secure_cloud_storage.World.{Platform, World}
use secure_cloud_storage.Channel.{
  int_of, receive, attempt, send, random, attempts, aes_encrypt, aes_decrypt, encrypt, decrypt,
  send_sealed, send_message, receive_message,
}
use secure_cloud_storage.Server.Keeps.{IsPreorder, Keeps}
use secure_cloud_storage.Server.Keeps.Rules.{
  keeps_rules, Keeps-bind, Keeps-elim, Keeps-pure, Keeps-option, Keeps-undefined,
}

-- The preorder allows what the channel does.
pub record AllowsTraffic (R : World → World → Type 0) : Type 0 where
  pub order : IsPreorder R
  pub calling : (w : World) → R w (record w { calls = w.calls + 1 })
  pub sending :
      (w : World) (packet : Bytes)
      → R w (record w { calls = w.calls + 1; outgoing = w.outgoing ++ (packet ∷ []) })
  pub receiving : (w : World) (n : ℕ) → R w (record w { incoming = drop n w.incoming })

module _ (p : Platform) {R : World → World → Type 0} (allows : AllowsTraffic R) where
  pre : IsPreorder R
  pre = allows.order

  pub attempt-Keeps : Keeps R (attempt p)
  unfolding attempt
  attempt-Keeps = record { at = allows.calling }

  pub random-Keeps : (n : ℕ) → Keeps R (random p n)
  unfolding random
  random-Keeps n = record { at = allows.calling }

  pub receive-Keeps : (n : ℕ) → Keeps R (receive p n)
  unfolding receive
  receive-Keeps n = record { at = λ w. allows.receiving w n }

  pub send-Keeps : (buffer : Bytes) (n : ℕ) → Keeps R (send p buffer n)
  unfolding send
  send-Keeps buffer n = record { at = λ w. either w (p.succeeds w.calls) }
    where
      either :
          (w : World) (b : Bool)
          → R w (record w {
            calls = w.calls + 1;
            outgoing = if b then w.outgoing ++ (take n buffer ∷ []) else w.outgoing;
          })
      either w true = allows.sending w (take n buffer)
      either w false = allows.calling w

  pub attempts-Keeps : (n : ℕ) → Keeps R (attempts p n)
  unfolding attempts
  attempts-Keeps zero = search (keeps_rules, pre)
  attempts-Keeps (suc n) =
      Keeps-bind pre attempt-Keeps
        (λ ok. Keeps-elim pre ok (attempts-Keeps n) (Keeps-pure pre false))

  aes_encrypt-Keeps : (key aad plain : Bytes) → Keeps R (aes_encrypt p key aad plain)
  unfolding aes_encrypt
  aes_encrypt-Keeps key aad plain = search (keeps_rules, pre, random-Keeps, attempts-Keeps)

  aes_decrypt-Keeps :
      (key aad iv tag cipher : Bytes) → Keeps R (aes_decrypt p key aad iv tag cipher)
  unfolding aes_decrypt
  aes_decrypt-Keeps key aad iv tag cipher = search (keeps_rules, pre, attempts-Keeps)

  pub encrypt-Keeps :
      (key : Bytes) (m : Generic) (buffer : Bytes) (len : ℕ) → Keeps R (encrypt p key m buffer len)
  unfolding encrypt
  encrypt-Keeps key m buffer len = Keeps-option pre (int_of len) (Keeps-undefined pre) (λ n.
      Keeps-bind pre (aes_encrypt-Keeps key m.aad (take n buffer))
        (λ sealed. Keeps-option pre sealed (Keeps-undefined pre) (λ s. Keeps-pure pre _)))

  pub decrypt-Keeps : (key : Bytes) (m : Generic) → Keeps R (decrypt p key m)
  unfolding decrypt
  decrypt-Keeps key m =
      Keeps-option pre (int_of m.ciphertext_len) (Keeps-pure pre none)
        (λ n. aes_decrypt-Keeps key m.aad m.iv m.tag (take n m.ciphertext))

  pub send_sealed-Keeps : (m : Generic) (len : ℕ) → Keeps R (send_sealed p m len)
  unfolding send_sealed
  send_sealed-Keeps m len = search (keeps_rules, pre, send-Keeps)

  pub send_message-Keeps : (buffer : Bytes) (len : ℕ) → Keeps R (send_message p buffer len)
  unfolding send_message
  send_message-Keeps buffer len =
      search (keeps_rules, pre, encrypt-Keeps, send_sealed-Keeps) depth 8

  pub receive_message-Keeps : (len : ℕ) → Keeps R (receive_message p len)
  unfolding receive_message
  receive_message-Keeps len = search (keeps_rules, pre, receive-Keeps, decrypt-Keeps) depth 12
