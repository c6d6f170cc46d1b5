-- ===== src/Server/Serving.antt =====
-- One round of the loop of `Server::run` in src/modules/Server.cpp, for a packet that is accepted.
use secure_cloud_storage.Common.{ℕ, ◌+◌, ◌≡◌, refl, sym, true, some, ◌++◌, length, arith, ==_iff}
use secure_cloud_storage.Config.{max_packet_size}
use secure_cloud_storage.Codes.{
  message_code, list_request, download_request, upload_request, rename_request, delete_request,
  logout_request,
}
use secure_cloud_storage.Memory.{Bytes}
use secure_cloud_storage.Messages.Generic
use secure_cloud_storage.Messages.Simple.{byte_of}
use secure_cloud_storage.World.{Platform, IsLawful, World, M, done, returned, pure, call, ◌>>=◌}
use secure_cloud_storage.Server.Handlers
use secure_cloud_storage.Server.Session.{accept_packet, dispatch, serve_once}
use secure_cloud_storage.Channel.Exchange.{decrypt-unsealed, receive-done}

call-returned :
    (m : M ℕ) (w v : World) (result : ℕ) → m w ≡ returned result v → call m w ≡ done result v
unfolding call
call-returned m w v result h = rw (h, call)

module _ (p : Platform) (works : (n : ℕ) → p.succeeds n ≡ true) (authenticate : M ℕ) where
  -- A packet that opens at the expected counter is served.
  pub accept_packet-served :
      (packet plain : Bytes) (w : World)
      → let m = Generic.deserialize packet max_packet_size in
        w.counter ≡ Generic.get_counter m
        → p.unseal w.session_key m.iv m.aad m.tag m.ciphertext ≡ some plain
        → accept_packet p authenticate packet w
          ≡ (dispatch p authenticate (byte_of plain) plain >>= λ result. pure true)
              (record w { calls = w.calls + 5 })
  unfolding accept_packet ◌>>=◌
  accept_packet-served packet plain w now opens =
      let m = Generic.deserialize packet max_packet_size in
      rw (decrypt-unsealed p works w.session_key packet max_packet_size w (omega arith))
        (rw (opens, (==_iff w.counter (Generic.get_counter m)).1 now) refl)

  -- The packet is next in the stream, and its plaintext asks for a handler that returns.
  pub serve_once-served :
      IsLawful p
      → (packet plain rest : Bytes) (w v : World) (code result : ℕ)
      → let m = Generic.deserialize packet max_packet_size in
        w.incoming ≡ packet ++ rest
        → length packet ≡ Generic.get_message_size max_packet_size
        → Generic.get_counter m ≡ w.counter
        → p.unseal w.session_key m.iv m.aad m.tag m.ciphertext ≡ some plain
        → byte_of plain ≡ code
        → dispatch p authenticate code plain (record w { incoming = rest; calls = w.calls + 5 })
          ≡ done result v
        → serve_once p authenticate w ≡ done true v
  unfolding serve_once ◌>>=◌
  serve_once-served lawful packet plain rest w v code result next size at_counter opens asks
        handled =
      rw (
        receive-done p works lawful (Generic.get_message_size max_packet_size) packet rest w next
            size (omega arith),
        accept_packet-served packet plain (record w { incoming = rest }) (sym at_counter) opens,
        asks,
        handled,
      )

  -- The handler that a code asks for.
  pub dispatch-upload :
      (plain : Bytes) (w v : World) (result : ℕ)
      → Handlers.upload_request p authenticate plain w ≡ returned result v
      → dispatch p authenticate (message_code upload_request) plain w ≡ done result v
  unfolding dispatch
  dispatch-upload plain w v result h =
      call-returned (Handlers.upload_request p authenticate plain) w v result h

  pub dispatch-download :
      (plain : Bytes) (w v : World) (result : ℕ)
      → Handlers.download_request p authenticate plain w ≡ returned result v
      → dispatch p authenticate (message_code download_request) plain w ≡ done result v
  unfolding dispatch
  dispatch-download plain w v result h =
      call-returned (Handlers.download_request p authenticate plain) w v result h

  pub dispatch-rename :
      (plain : Bytes) (w v : World) (result : ℕ)
      → Handlers.rename_request p authenticate plain w ≡ returned result v
      → dispatch p authenticate (message_code rename_request) plain w ≡ done result v
  unfolding dispatch
  dispatch-rename plain w v result h =
      call-returned (Handlers.rename_request p authenticate plain) w v result h

  pub dispatch-list :
      (plain : Bytes) (w v : World) (result : ℕ)
      → Handlers.list_request p authenticate w ≡ returned result v
      → dispatch p authenticate (message_code list_request) plain w ≡ done result v
  unfolding dispatch
  dispatch-list plain w v result h =
      call-returned (Handlers.list_request p authenticate) w v result h

  pub dispatch-delete :
      (plain : Bytes) (w v : World) (result : ℕ)
      → Handlers.delete_request p authenticate plain w ≡ returned result v
      → dispatch p authenticate (message_code delete_request) plain w ≡ done result v
  unfolding dispatch
  dispatch-delete plain w v result h =
      call-returned (Handlers.delete_request p authenticate plain) w v result h

  pub dispatch-logout :
      (plain : Bytes) (w v : World) (result : ℕ)
      → Handlers.logout_request p authenticate w ≡ returned result v
      → dispatch p authenticate (message_code logout_request) plain w ≡ done result v
  unfolding dispatch
  dispatch-logout plain w v result h =
      call-returned (Handlers.logout_request p authenticate) w v result h
