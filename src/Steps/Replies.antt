-- ===== src/Steps/Replies.antt =====
-- The one-byte answers of the handlers, while no call fails.
use secure_cloud_storage.Common.{
  ℕ, ◌+◌, ◌^◌, ◌<◌, ◌≡◌, ap, ◌∙◌, true, some, [], ◌∷◌, ◌++◌, length, take, arith, take_all,
}
use secure_cloud_storage.Config.{max_packet_size}
use secure_cloud_storage.Memory.{Bytes}
use secure_cloud_storage.Messages.Generic
use secure_cloud_storage.Messages.Generic.{generic}
use secure_cloud_storage.Messages.Simple
use secure_cloud_storage.Messages.Simple.{SimpleMessage}
use secure_cloud_storage.World.{Platform, IsLawful, World, M, done, ◌>>=◌}
use secure_cloud_storage.Channel.{random}
use secure_cloud_storage.Steps.{send_simple}
use secure_cloud_storage.Channel.Exchange.{
  on_wire-opens, on_wire, sealed, packet_for, send_message-done,
}

-- The packet opens under the key, at the counter, to a simple message with the code.
pub record Tells (p : Platform) (key : Bytes) (counter code : ℕ) (packet : Bytes) : Type 0 where
  pub plain : Bytes
  pub size : length packet ≡ Generic.get_message_size max_packet_size
  pub at_counter : Generic.get_counter (Generic.deserialize packet max_packet_size) ≡ counter
  pub opens :
      let m = Generic.deserialize packet max_packet_size in
      p.unseal key m.iv m.aad m.tag m.ciphertext ≡ some plain
  pub says : (Simple.deserialize plain).message_code ≡ code

pub Tells-moved :
    (p : Platform) (key key' : Bytes) (counter counter' code : ℕ) (packet : Bytes)
    → key ≡ key'
    → counter ≡ counter'
    → Tells p key counter code packet
    → Tells p key' counter' code packet
Tells-moved p key key' counter counter' code packet same_key same_counter tells =
    rw (← same_key, ← same_counter) tells

module _ (p : Platform) (works : (n : ℕ) → p.succeeds n ≡ true) (lawful : IsLawful p)
    (authenticate : M ℕ) where
  -- The plaintext of an answer with the padding of the given draw.
  abbrev pub answer : ℕ → ℕ → Bytes
  answer code draw =
      Simple.serialize (record { message_code = code }) (p.rand_bytes draw 70)
        (p.fresh max_packet_size)

  pub answer-read :
      (code draw : ℕ)
      → (Simple.deserialize (answer code draw) ≡ record { message_code = code })
        × (length (answer code draw) ≡ max_packet_size)
        × (take max_packet_size (answer code draw) ≡ answer code draw)
  answer-read code draw =
      let (back, size) =
        Simple.simple_arrives (record { message_code = code }) (p.rand_bytes draw 70)
          (p.fresh max_packet_size) (lawful.fresh_size max_packet_size)
          (omega (arith, lawful.rand_size draw 70)) in
      (back, size, take_all max_packet_size (answer code draw) (omega arith))

  pub on_wire-Tells :
      (key : Bytes) (counter code draw nonce : ℕ)
      → counter < 2 ^ 32
      → Tells p key counter code
          (on_wire p works (sealed p works key (generic counter) (answer code draw) nonce))
  on_wire-Tells key counter code draw nonce small =
      let (back, size, whole) = answer-read code draw in
      let (wire_size, at_counter, opens) =
        on_wire-opens p works lawful key counter (answer code draw) nonce max_packet_size size
          small in
      record {
        plain = answer code draw;
        size = wire_size;
        at_counter = at_counter;
        opens = opens;
        says = ap (λ (s : SimpleMessage). s.message_code) back;
      }

  -- The packet of a simple message that is sent at the given draw.
  abbrev pub simple_packet : Bytes → ℕ → ℕ → ℕ → Bytes
  simple_packet key counter code draw =
      on_wire p works (sealed p works key (generic counter) (answer code draw) (draw + 1))

  pub send_simple-sent :
      (code : ℕ) (w : World)
      → send_simple p authenticate code w
        ≡ done tt (record w {
          calls = w.calls + 10;
          outgoing = w.outgoing ++ (simple_packet w.session_key w.counter code w.calls ∷ []);
        })
  unfolding send_simple random ◌>>=◌
  send_simple-sent code w =
      let u = record w { calls = w.calls + 1 } in
      let plain = answer code w.calls in
      let (back, size, whole) = answer-read code w.calls in
      let packet = simple_packet w.session_key w.counter code w.calls in
      send_message-done p works lawful plain max_packet_size u (ap length whole ∙ size)
        (omega arith)
      ∙ ap
          (λ b. done tt (record w {
            calls = w.calls + 1 + 9;
            outgoing = w.outgoing ++ (packet_for p works lawful u b ∷ []);
          }))
          whole
      ∙ ap (λ k. done tt (record w { calls = k; outgoing = w.outgoing ++ (packet ∷ []) }))
          (omega arith)

  pub send_simple-done :
      (code : ℕ) (w : World)
      → w.counter < 2 ^ 32
      → (packet : Bytes) × (send_simple p authenticate code w
          ≡ done tt (record w { calls = w.calls + 10; outgoing = w.outgoing ++ (packet ∷ []) }))
        × Tells p w.session_key w.counter code packet
  send_simple-done code w small = (
    simple_packet w.session_key w.counter code w.calls,
    send_simple-sent code w,
    on_wire-Tells w.session_key w.counter code w.calls (w.calls + 1) small,
  )
