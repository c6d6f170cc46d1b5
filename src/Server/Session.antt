-- ===== src/Server/Session.antt =====
-- The dispatch loop of `Server::run` in src/modules/Server.cpp.
use secure_cloud_storage.Common.{ℕ, zero, suc, Bool, true, false, none, some, ◌==◌, if◌then◌else◌}
use secure_cloud_storage.Config.{max_packet_size}
use secure_cloud_storage.Codes.{
  message_code, return_code, list_request, download_request, upload_request, rename_request,
  delete_request, logout_request, wrong_counter, authentication_success,
}
use secure_cloud_storage.Memory.{Bytes}
use secure_cloud_storage.Messages.Simple.{byte_of}
use secure_cloud_storage.Messages.Generic
use secure_cloud_storage.World.{
  Platform, M, pure, world, ◌>>=◌, throw, call, done, returned, thrown, undefined, Outcome,
}
use secure_cloud_storage.Channel.{received, broken, gone, receive, decrypt}
use secure_cloud_storage.Server.Handlers

-- `catch (int error_code)`
unfoldable pub caught : Outcome Bool → Outcome Bool
caught (done b w) = done b w
caught (returned c w) = returned c w
caught (thrown c w) = done true w
caught (undefined w) = undefined w

module _ (p : Platform) (authenticate : M ℕ) where
  -- The `switch` over the first byte of the plaintext.
  unfoldable pub dispatch : ℕ → Bytes → M ℕ
  dispatch command plaintext =
      if command == message_code list_request
      then call (Handlers.list_request p authenticate)
      else if command == message_code download_request
      then call (Handlers.download_request p authenticate plaintext)
      else if command == message_code upload_request
      then call (Handlers.upload_request p authenticate plaintext)
      else if command == message_code rename_request
      then call (Handlers.rename_request p authenticate plaintext)
      else if command == message_code delete_request
      then call (Handlers.delete_request p authenticate plaintext)
      else if command == message_code logout_request
      then call (Handlers.logout_request p authenticate)
      else pure 0

  -- A packet that has arrived: `false` ends the loop.
  unfoldable pub accept_packet : Bytes → M Bool
  unfolding dispatch
  accept_packet buffer = do
    let m = Generic.deserialize buffer max_packet_size
    w ← world
    opened ← decrypt p w.session_key m
    elim opened [
      | none ↦ pure false
      | some plaintext ↦
          if w.counter == Generic.get_counter m
          then (do result ← dispatch (byte_of plaintext) plaintext; pure true)
          else throw (return_code wrong_counter)
    ]

  -- One round of the loop.
  unfoldable pub serve_once : M Bool
  unfolding accept_packet
  serve_once = do
    (status, buffer) ← receive p (Generic.get_message_size max_packet_size)
    elim status [ received ↦ accept_packet buffer | broken ↦ pure false | gone ↦ pure false ]

  -- `while (true)` with fuel. The result is whether the loop ended by itself.
  unfoldable pub serve_loop : ℕ → M Bool
  serve_loop zero = pure false
  serve_loop (suc fuel) = do
    more ← serve_once
    elim more [ true ↦ serve_loop fuel | false ↦ pure true ]

  -- The body of `run`: the login, then the loop.
  unfoldable pub run_body : ℕ → M Bool
  unfolding serve_loop
  run_body fuel = do
    result ← call authenticate
    if result == return_code authentication_success then serve_loop fuel else pure true

  -- `run`, whose handler catches every code that is thrown.
  unfoldable pub run : ℕ → M Bool
  unfolding run_body caught
  run fuel w = caught (run_body fuel w)
