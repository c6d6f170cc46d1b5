-- ===== src/Steps/Plain.antt =====
-- Messages of the authentication that are sent and received without an envelope.
use secure_cloud_storage.Common.{ℕ, Bool, true, false}
use secure_cloud_storage.Codes.{return_code, receive_failure, send_failure}
use secure_cloud_storage.Memory.{Bytes}
use secure_cloud_storage.World.{Platform, M, pure, require, ◌>>=◌, ◌>>◌}
use secure_cloud_storage.Channel.{Status, received, broken, gone, receive, send}

abbrev pub is_received : Status → Bool
is_received received = true
is_received broken = false
is_received gone = false

module _ (p : Platform) where
  -- `delete` and `return` unless the whole message came.
  unfoldable pub receive_plain : ℕ → M Bytes
  receive_plain n = do
    (status, buffer) ← receive p n
    require (is_received status) (return_code receive_failure)
    pure buffer

  unfoldable pub send_plain : Bytes → ℕ → M (Unit {0})
  send_plain buffer n = do ok ← send p buffer n; require ok (return_code send_failure)
