-- ===== src/Client/Replies.antt =====
-- What the client makes of a reply that opens at the expected counter.
use secure_cloud_storage.Common.{
  ℕ, ◌+◌, ◌^◌, ◌<◌, arith, ◌≡◌, sym, true, some, ◌++◌, length, ◌==◌, ==_iff,
}
use secure_cloud_storage.Config.{max_packet_size}
use secure_cloud_storage.Memory.{Bytes}
use secure_cloud_storage.Messages.Generic
use secure_cloud_storage.World.{Platform, IsLawful, World, M, done, require, ◌>>=◌}
use secure_cloud_storage.Channel.Exchange.{receive_message-done}
use secure_cloud_storage.Steps.Replies.{Tells}
use secure_cloud_storage.Client.Requests.{receive_reply}

module _ (p : Platform) (works : (n : ℕ) → p.succeeds n ≡ true) (lawful : IsLawful p)
    (authenticate : M ℕ) where
  pub receive_reply-done :
      (len : ℕ) (packet rest plain : Bytes) (w : World)
      → w.incoming ≡ packet ++ rest
      → length packet ≡ Generic.get_message_size len
      → len < 2 ^ 31
      → Generic.get_counter (Generic.deserialize packet len) ≡ w.counter
      → (let m = Generic.deserialize packet len in
          p.unseal w.session_key m.iv m.aad m.tag m.ciphertext ≡ some plain)
      → receive_reply p authenticate len w
        ≡ done plain (record w { incoming = rest; calls = w.calls + 5 })
  unfolding receive_reply require ◌>>=◌
  receive_reply-done len packet rest plain w next size short at_counter opens =
      let m = Generic.deserialize packet len in
      let now : (w.counter == Generic.get_counter m) ≡ true = (==_iff _ _).1 (sym at_counter) in
      rw (receive_message-done p works lawful len packet rest plain w next size short opens, now)

  -- A simple message.
  pub receive_reply-Tells :
      (code : ℕ) (packet rest : Bytes) (w : World)
      → w.incoming ≡ packet ++ rest
      → (tells : Tells p w.session_key w.counter code packet)
      → receive_reply p authenticate max_packet_size w
        ≡ done tells.plain (record w { incoming = rest; calls = w.calls + 5 })
  receive_reply-Tells code packet rest w next tells =
      receive_reply-done max_packet_size packet rest tells.plain w next tells.size (omega arith)
        tells.at_counter tells.opens
