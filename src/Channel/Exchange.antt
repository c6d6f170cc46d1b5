-- ===== src/Channel/Exchange.antt =====
-- One message sent and one message received while no call fails: what the helpers of
-- Server/Channel do then, under the laws of the cipher.
use secure_cloud_storage.Common.{
  ℕ, zero, suc, ◌+◌, ◌^◌, ◌<◌, ◌≡◌, refl, sym, ap, ◌∙◌, true, false, some, [], ◌∷◌, ◌++◌, length,
  take, drop, arith, ◌==◌, take_all, take-append, drop-append, append-nil,
}
use secure_cloud_storage.Config.{iv_len}
use secure_cloud_storage.Memory.{Bytes}
use secure_cloud_storage.Memory.Words.{length-u32_bytes}
use secure_cloud_storage.Messages.Generic
use secure_cloud_storage.Messages.Generic.{Generic, generic, IsSized, deserialize-serialize}
use secure_cloud_storage.Messages.Generic.{length-serialize, get_counter-generic}
use secure_cloud_storage.World.{Platform, IsLawful, World, done, require, require_some, ◌>>=◌}
use secure_cloud_storage.Channel.Lengths.{int_of-lt, decrypt-whole}
use secure_cloud_storage.Channel.{
  received, recv, status_of, receive, attempts, random, aes_encrypt, aes_decrypt, encrypt, decrypt,
  send, send_sealed, send_message, receive_message,
}

drop_all : {n : ℕ} (s : Bytes) → length s ≡ n → drop n s ≡ []
drop_all {n} s h = ap (λ k. drop k s) (sym h) ∙ none_left s
  where
    none_left : (t : Bytes) → drop (length t) t ≡ []
    none_left [] = refl
    none_left (c ∷ t) = none_left t

module _ (p : Platform) (works : (n : ℕ) → p.succeeds n ≡ true) where
  attempts-true :
      (n : ℕ) (w : World) → attempts p n w ≡ done true (record w { calls = w.calls + n })
  unfolding attempts ◌>>=◌
  attempts-true zero w = ap (λ k. done true (record w { calls = k })) (omega arith)
  attempts-true (suc n) w = rw (works w.calls) (
      attempts-true n (record w { calls = w.calls + 1 })
      ∙ ap (λ k. done true (record w { calls = k })) (omega arith))

  -- The envelope that an encryption makes with the vector of the given draw.
  abbrev pub sealed : Bytes → Generic → Bytes → ℕ → Generic
  sealed key m plain draw =
      let iv = p.rand_bytes draw iv_len in
      let (cipher, tag) = p.seal key iv m.aad plain in
      record m { iv = iv; tag = tag; ciphertext = cipher; ciphertext_len = length cipher }

  pub encrypt-sealed :
      (key : Bytes) (m : Generic) (buffer : Bytes) (len : ℕ) (w : World)
      → len < 2 ^ 31
      → encrypt p key m buffer len w
        ≡ done (some (sealed key m (take len buffer) w.calls)) (record w { calls = w.calls + 8 })
  unfolding encrypt aes_encrypt random ◌>>=◌
  encrypt-sealed key m buffer len w short =
      rw (int_of-lt len short, encrypt)
        (rw (attempts-true 7 (record w { calls = w.calls + 1 })) (
          ap (λ k. done (some (sealed key m (take len buffer) w.calls)) (record w { calls = k }))
            (omega arith)))

  pub decrypt-unsealed :
      (key packet : Bytes) (len : ℕ) (w : World)
      → len < 2 ^ 31
      → let m = Generic.deserialize packet len in
        decrypt p key m w
        ≡ done (p.unseal key m.iv m.aad m.tag m.ciphertext) (record w { calls = w.calls + 5 })
  unfolding aes_decrypt ◌>>=◌
  decrypt-unsealed key packet len w short =
      rw (decrypt-whole p key packet len short) (rw (attempts-true 5 w) refl)

  -- The bytes of an envelope as they go to the peer.
  abbrev pub on_wire : Generic → Bytes
  on_wire m = Generic.serialize m (p.fresh (Generic.get_message_size m.ciphertext_len))

  module _ (lawful : IsLawful p) where
    sealed-IsSized :
        (key : Bytes) (counter : ℕ) (plain : Bytes) (draw : ℕ)
        → IsSized (sealed key (generic counter) plain draw)
    unfolding generic
    sealed-IsSized key counter plain draw = record {
      iv_size = lawful.rand_size draw iv_len;
      aad_size = length-u32_bytes _;
      tag_size = lawful.tag_size key _ _ plain;
      ciphertext_size = refl;
    }

    length-on_wire :
        (key : Bytes) (counter : ℕ) (plain : Bytes) (draw : ℕ)
        → length (on_wire (sealed key (generic counter) plain draw))
          ≡ Generic.get_message_size (length plain)
    length-on_wire key counter plain draw =
        let m = sealed key (generic counter) plain draw in
        length-serialize m _ (sealed-IsSized key counter plain draw) (lawful.fresh_size _)
        ∙ ap Generic.get_message_size (lawful.cipher_size key _ _ plain)

    pub send_sealed-done :
        (key : Bytes) (counter : ℕ) (plain : Bytes) (draw : ℕ) (w : World)
        → let packet = on_wire (sealed key (generic counter) plain draw) in
          send_sealed p (sealed key (generic counter) plain draw) (length plain) w
          ≡ done tt (record w { calls = w.calls + 1; outgoing = w.outgoing ++ (packet ∷ []) })
    unfolding send_sealed send require ◌>>=◌
    send_sealed-done key counter plain draw w =
        let packet = on_wire (sealed key (generic counter) plain draw) in
        let size = length-on_wire key counter plain draw in
        rw (works w.calls) (
          ap (λ b. done tt (record w { calls = w.calls + 1; outgoing = w.outgoing ++ (b ∷ []) }))
            (take_all (Generic.get_message_size (length plain)) packet (omega arith)))

    -- The packet that a world sends for a plaintext.
    abbrev pub packet_for : World → Bytes → Bytes
    packet_for w plain = on_wire (sealed w.session_key (generic w.counter) plain w.calls)

    pub send_message-done :
        (buffer : Bytes) (len : ℕ) (w : World)
        → length (take len buffer) ≡ len
        → len < 2 ^ 31
        → send_message p buffer len w
          ≡ done tt (record w {
            calls = w.calls + 9;
            outgoing = w.outgoing ++ (packet_for w (take len buffer) ∷ []);
          })
    unfolding send_message require_some ◌>>=◌
    send_message-done buffer len w size short =
        let plain = take len buffer in
        let u = record w { calls = w.calls + 8 } in
        rw (encrypt-sealed w.session_key (generic w.counter) buffer len w short) (
          ap (λ n. send_sealed p (sealed w.session_key (generic w.counter) plain w.calls) n u)
            (sym size)
          ∙ send_sealed-done w.session_key w.counter plain w.calls u
          ∙ ap
              (λ k.
                done tt
                  (record w { calls = k; outgoing = w.outgoing ++ (packet_for w plain ∷ []) }))
              (omega arith))

    -- A buffer that is as long as the message.
    pub send_message-whole :
        (buffer : Bytes) (len : ℕ) (w : World)
        → length buffer ≡ len
        → len < 2 ^ 31
        → send_message p buffer len w
          ≡ done tt (record w {
            calls = w.calls + 9;
            outgoing = w.outgoing ++ (packet_for w buffer ∷ []);
          })
    send_message-whole buffer len w size short =
        let whole : take len buffer ≡ buffer = take_all len buffer (omega arith) in
        send_message-done buffer len w (ap length whole ∙ size) short
        ∙ ap
            (λ b.
              done tt
                (record w { calls = w.calls + 9; outgoing = w.outgoing ++ (packet_for w b ∷ []) }))
            whole

    generic_aad :
        (key : Bytes) (counter : ℕ) (plain : Bytes) (draw : ℕ)
        → Generic.get_counter (sealed key (generic counter) plain draw)
          ≡ Generic.get_counter (generic counter)
    unfolding Generic.get_counter
    generic_aad key counter plain draw = refl

    -- What the holder of the key makes of an envelope's bytes.
    pub on_wire-opens :
        (key : Bytes) (counter : ℕ) (plain : Bytes) (draw len : ℕ)
        → length plain ≡ len
        → counter < 2 ^ 32
        → let packet = on_wire (sealed key (generic counter) plain draw) in
          let m = Generic.deserialize packet len in
          (length packet ≡ Generic.get_message_size len)
          × (Generic.get_counter m ≡ counter)
          × (p.unseal key m.iv m.aad m.tag m.ciphertext ≡ some plain)
    on_wire-opens key counter plain draw len size small =
        let m = sealed key (generic counter) plain draw in
        let cipher : m.ciphertext_len ≡ len = lawful.cipher_size key m.iv m.aad plain ∙ size in
        let back : Generic.deserialize (on_wire m) len ≡ m =
          ap (Generic.deserialize (on_wire m)) (sym cipher)
          ∙ deserialize-serialize m _ (sealed-IsSized key counter plain draw) in
        (
          length-on_wire key counter plain draw ∙ ap Generic.get_message_size size,
          rw back (generic_aad key counter plain draw ∙ get_counter-generic counter small),
          rw back (lawful.unseal-seal key m.iv m.aad plain),
        )

    -- While no call fails, `send_message` of a length below 2^31 puts exactly one packet on the
    -- wire, of the size that the receiver waits for. Whoever holds the session key reads in it the
    -- server's counter and, after decryption, the first `len` bytes of the message. Counter and
    -- files stay.
    pub send_message_opens :
        (buffer : Bytes) (len : ℕ) (w : World)
        → length (take len buffer) ≡ len
        → len < 2 ^ 31
        → w.counter < 2 ^ 32
        → (packet : Bytes) × (send_message p buffer len w
            ≡ done tt (record w { calls = w.calls + 9; outgoing = w.outgoing ++ (packet ∷ []) }))
          × (length packet ≡ Generic.get_message_size len)
          × (Generic.get_counter (Generic.deserialize packet len) ≡ w.counter)
          × (let m = Generic.deserialize packet len in
              p.unseal w.session_key m.iv m.aad m.tag m.ciphertext ≡ some (take len buffer))
    send_message_opens buffer len w size short small =
        let plain = take len buffer in
        let (wire_size, at_counter, opens) =
          on_wire-opens w.session_key w.counter plain w.calls len size small in
        (
          packet_for w plain,
          send_message-done buffer len w size short,
          wire_size,
          at_counter,
          opens,
        )

    -- A packet of the expected size that is next in the stream is received whole.
    pub receive-done :
        (n : ℕ) (packet rest : Bytes) (w : World)
        → w.incoming ≡ packet ++ rest
        → length packet ≡ n
        → 0 < n
        → receive p n w ≡ done (received, packet) (record w { incoming = rest })
    unfolding receive recv status_of
    receive-done n packet rest w stream size some' =
        let got : take n w.incoming ≡ packet = rw stream (take-append n packet rest size) in
        let left : drop n w.incoming ≡ rest = rw stream (drop-append n packet rest size) in
        let not_zero : (length packet == 0) ≡ false = ground arith in
        let all : (length packet == n) ≡ true = ground arith in
        let fresh : drop (length packet) (p.fresh n) ≡ [] =
          rw size (drop_all (p.fresh n) (lawful.fresh_size n)) in
        rw (got, left, not_zero, not_zero, all, fresh, append-nil packet) refl

    -- What a round of `receive_message` needs: the packet is next in the stream and opens.
    pub receive_message-done :
        (len : ℕ) (packet rest plain : Bytes) (w : World)
        → w.incoming ≡ packet ++ rest
        → length packet ≡ Generic.get_message_size len
        → len < 2 ^ 31
        → (let m = Generic.deserialize packet len in
            p.unseal w.session_key m.iv m.aad m.tag m.ciphertext ≡ some plain)
        → receive_message p len w
          ≡ done
              (Generic.deserialize packet len, plain)
              (record w { incoming = rest; calls = w.calls + 5 })
    unfolding receive_message require require_some ◌>>=◌
    receive_message-done len packet rest plain w stream size short opens =
        let n = Generic.get_message_size len in
        let m = Generic.deserialize packet len in
        let u = record w { incoming = rest } in
        rw (receive-done n packet rest w stream size (omega arith))
          (rw (decrypt-unsealed w.session_key packet len u short, opens))
