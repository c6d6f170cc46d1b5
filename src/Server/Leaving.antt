-- ===== src/Server/Leaving.antt =====
-- `Server::logoutRequest` of src/modules/Server.cpp, and what the loop does after it.
use secure_cloud_storage.Common.{
  ℕ, ◌+◌, ◌<◌, ◌≡◌, refl, sym, ap, ◌∙◌, true, some, [], ◌∷◌, ◌++◌, replicate, arith,
}
use secure_cloud_storage.Config.{max_packet_size, max_counter_value, aes_key_len}
use secure_cloud_storage.Codes.{return_code, success, result_code, ack}
use secure_cloud_storage.Memory.{Bytes}
use secure_cloud_storage.Messages.Generic
use secure_cloud_storage.Messages.Generic.{generic}
use secure_cloud_storage.Messages.Simple.{byte_of}
use secure_cloud_storage.World.{
  Platform, IsLawful, World, M, done, returned, pure, require_some, ◌>>=◌,
}
use secure_cloud_storage.Channel.{random, send_sealed}
use secure_cloud_storage.Server.Handlers.{logout_request, wipe_key}
use secure_cloud_storage.Server.Session.{accept_packet, dispatch}
use secure_cloud_storage.Server.Serving.{accept_packet-served}
use secure_cloud_storage.Steps.Counter.{increment_counter-done}
use secure_cloud_storage.Channel.Exchange.{encrypt-sealed, sealed, on_wire, send_sealed-done}
use secure_cloud_storage.Steps.Replies.{Tells, simple_packet, answer, answer-read, on_wire-Tells}

module _ (p : Platform) (works : (n : ℕ) → p.succeeds n ≡ true) (lawful : IsLawful p)
    (authenticate : M ℕ) where
  -- The acknowledgement, and the world after a logout.
  abbrev pub acknowledgement : World → Bytes
  acknowledgement w =
      simple_packet p works lawful authenticate w.session_key (w.counter + 1) (result_code ack)
        w.calls

  abbrev pub left : World → World
  left w = record w {
    counter = w.counter + 1;
    session_key = replicate aes_key_len 0;
    outgoing = w.outgoing ++ (acknowledgement w ∷ []);
    calls = w.calls + 1 + 8 + 1;
  }

  pub logout_request-done :
      (w : World)
      → w.counter < max_counter_value
      → logout_request p authenticate w ≡ returned (return_code success) (left w)
  unfolding logout_request random wipe_key require_some ◌>>=◌
  logout_request-done w low =
      let w1 = record w { counter = w.counter + 1 } in
      let u = record w1 { calls = w.calls + 1 } in
      let code = result_code ack in
      let text = answer p works lawful authenticate code w.calls in
      let (back, size, whole) = answer-read p works lawful authenticate code w.calls in
      let m = sealed p works w.session_key (generic u.counter) text u.calls in
      let reply = on_wire p works m in
      let sealed' =
        encrypt-sealed p works w.session_key (generic u.counter) text max_packet_size u
          (omega arith)
        ∙ ap
            (λ b.
              done (some (sealed p works w.session_key (generic u.counter) b u.calls))
                (record u { calls = u.calls + 8 }))
            whole in
      let x = record u { calls = u.calls + 8; session_key = replicate aes_key_len 0 } in
      let sent =
        ap (λ n. send_sealed p m n x) (sym size)
        ∙ send_sealed-done p works lawful w.session_key u.counter text u.calls x in
      rw (increment_counter-done p authenticate w low, sealed', sent) refl

-- A logout is answered while no call fails: the acknowledgement goes out under the old key, at the
-- next counter, and the key is all zeros then. The loop goes on with that key: a packet that opens
-- under sixteen zero bytes at that same counter is served like any other.
pub logout_leaves_zero_key :
    (p : Platform)
    → ((n : ℕ) → p.succeeds n ≡ true)
    → IsLawful p
    → (authenticate : M ℕ) (w : World) (packet plain : Bytes) → w.counter < max_counter_value
    → let m = Generic.deserialize packet max_packet_size in
      w.counter + 1 ≡ Generic.get_counter m
      → p.unseal (replicate aes_key_len 0) m.iv m.aad m.tag m.ciphertext ≡ some plain
      → (v : World) × (reply : Bytes) × (logout_request p authenticate w
          ≡ returned (return_code success) v)
        × (v.session_key ≡ replicate aes_key_len 0)
        × (v.counter ≡ w.counter + 1)
        × (v.outgoing ≡ w.outgoing ++ (reply ∷ []))
        × Tells p w.session_key (w.counter + 1) (result_code ack) reply
        × (accept_packet p authenticate packet v
            ≡ (dispatch p authenticate (byte_of plain) plain >>= λ result. pure true)
                (record v { calls = v.calls + 5 }))
logout_leaves_zero_key p works lawful authenticate w packet plain low now opens =
    let v = left p works lawful authenticate w in
    (
      v,
      acknowledgement p works lawful authenticate w,
      logout_request-done p works lawful authenticate w low,
      refl,
      refl,
      refl,
      on_wire-Tells p works lawful authenticate w.session_key (w.counter + 1) (result_code ack)
          w.calls (w.calls + 1) (omega arith),
      accept_packet-served p works authenticate packet plain v now opens,
    )
