-- ===== src/Server/Authentic.antt =====
-- Which packets reach a handler: the guards of the loop in `Server::run`, src/modules/Server.cpp.
use secure_cloud_storage.Common.{
  ℕ, zero, suc, ◌+◌, ◌≡◌, refl, sym, ◌⊎◌, inl, inr, Bool, true, false, Option, none, some, ◌==◌,
  if◌then◌else◌, Bool-cases, ==_iff, arith,
}
use secure_cloud_storage.Config.{max_packet_size}
use secure_cloud_storage.Codes.{return_code, wrong_counter}
use secure_cloud_storage.Memory.{Bytes}
use secure_cloud_storage.Messages.Generic
use secure_cloud_storage.Messages.Generic.{Generic}
use secure_cloud_storage.World.{Platform, IsLawful, World, M, Outcome, done, thrown, ◌>>=◌}
use secure_cloud_storage.Channel.Lengths.{decrypt-whole}
use secure_cloud_storage.Channel.{attempts, aes_decrypt, decrypt}
use secure_cloud_storage.Server.Session.{accept_packet}

module _ (p : Platform) where
  -- Calls that may fail change nothing but their count.
  pub attempts-done :
      (n : ℕ) (w : World)
      → (b : Bool) × (k : ℕ) × (attempts p n w ≡ done b (record w { calls = k }))
  unfolding attempts ◌>>=◌
  attempts-done zero w = (true, w.calls, refl)
  attempts-done (suc n) w = elim (Bool-cases (p.succeeds w.calls)) [
    | inl ok ↦ let (b, k, e) = attempts-done n (record w { calls = w.calls + 1 }) in (b, k, rw ok e)
    | inr bad ↦ (false, w.calls + 1, rw bad)
  ]

  -- A decryption yields what the cipher accepts, or nothing.
  pub decrypt-done :
      (key buffer : Bytes) (w : World)
      → let m = Generic.deserialize buffer max_packet_size in
        (o : Option Bytes) × (k : ℕ) × (decrypt p key m w ≡ done o (record w { calls = k }))
        × ((o ≡ none) ⊎ (o ≡ p.unseal key m.iv m.aad m.tag m.ciphertext))
  unfolding aes_decrypt ◌>>=◌
  decrypt-done key buffer w =
      let m = Generic.deserialize buffer max_packet_size in
      let (b, k, e) = attempts-done 5 w in
      (
        (if b then p.unseal key m.iv m.aad m.tag m.ciphertext else none),
        k,
        rw (decrypt-whole p key buffer max_packet_size (omega arith), e),
        either b,
      )
    where
      m : Generic
      m = Generic.deserialize buffer max_packet_size

      either :
          (b : Bool)
          → ((if b then p.unseal key m.iv m.aad m.tag m.ciphertext else none) ≡ none)
            ⊎ ((if b then p.unseal key m.iv m.aad m.tag m.ciphertext else none)
                ≡ p.unseal key m.iv m.aad m.tag m.ciphertext)
      either true = inr refl
      either false = inl refl

  -- A packet that was sealed under the session key, with the counter that the server expects.
  abbrev pub IsCurrent : World → Bytes → Type 0
  IsCurrent w buffer =
      let m = Generic.deserialize buffer max_packet_size in
      (plain : Bytes) × (p.seal w.session_key m.iv m.aad plain ≡ (m.ciphertext, m.tag))
      × (w.counter ≡ Generic.get_counter m)

  -- The loop stops, by `return` or by the exception for a wrong counter, and nothing has changed
  -- but the number of calls.
  abbrev pub IsRefused : World → Outcome Bool → Type 0
  IsRefused w o =
      ((k : ℕ) × (o ≡ done false (record w { calls = k })))
      ⊎ ((k : ℕ) × (o ≡ thrown (return_code wrong_counter) (record w { calls = k })))

  module _ (authenticate : M ℕ) (buffer : Bytes) (w : World) where
    undecrypted :
        (k : ℕ)
        → decrypt p w.session_key (Generic.deserialize buffer max_packet_size) w
          ≡ done none (record w { calls = k })
        → IsRefused w (accept_packet p authenticate buffer w)
    unfolding accept_packet ◌>>=◌
    undecrypted k e = inl (k, rw e)

    counter_differs :
        (k : ℕ) (plain : Bytes)
        → decrypt p w.session_key (Generic.deserialize buffer max_packet_size) w
          ≡ done (some plain) (record w { calls = k })
        → (w.counter == Generic.get_counter (Generic.deserialize buffer max_packet_size)) ≡ false
        → IsRefused w (accept_packet p authenticate buffer w)
    unfolding accept_packet ◌>>=◌
    counter_differs k plain e wrong = inr (k, rw (e, wrong))

    -- Only a packet that was sealed under the session key, with the counter that the server
    -- expects, reaches a handler. Any other packet, forged, altered or replayed, ends the loop with
    -- the files, the counter, the key and the packets sent as they were.
    pub accept_packet_authentic :
        IsLawful p → IsCurrent w buffer ⊎ IsRefused w (accept_packet p authenticate buffer w)
    accept_packet_authentic lawful =
        let m = Generic.deserialize buffer max_packet_size in
        let (o, k, e, from) = decrypt-done w.session_key buffer w in
        by_result o k e from (Bool-cases (w.counter == Generic.get_counter m))
      where
        m' : Generic
        m' = Generic.deserialize buffer max_packet_size

        by_result :
            (o : Option Bytes) (k : ℕ)
            → decrypt p w.session_key m' w ≡ done o (record w { calls = k })
            → ((o ≡ none) ⊎ (o ≡ p.unseal w.session_key m'.iv m'.aad m'.tag m'.ciphertext))
            → (((w.counter == Generic.get_counter m') ≡ true)
                ⊎ ((w.counter == Generic.get_counter m') ≡ false))
            → IsCurrent w buffer ⊎ IsRefused w (accept_packet p authenticate buffer w)
        by_result none k e from c = inr (undecrypted k e)
        by_result (some plain) k e (inl bad) c = cc
        by_result (some plain) k e (inr good) (inl now) =
            inl (plain, lawful.authentic _ _ _ _ _ plain (sym good), (==_iff _ _).0 now)
        by_result (some plain) k e (inr good) (inr wrong) = inr (counter_differs k plain e wrong)
