-- ===== src/Transfers.antt =====
-- The client of src/modules/Client.cpp and the server of src/modules/Server.cpp together: what one
-- sends is what the other receives.
use secure_cloud_storage.Common.{◌≡◌}
use secure_cloud_storage.World.{World}
pub mod Uploads
pub mod Downloads
pub mod Renames
pub mod Deletions
pub mod Lists
pub mod Logouts

-- The two ends of a session: one key and one counter.
pub record IsPaired (client server : World) : Type 0 where
  pub same_key : client.session_key ≡ server.session_key
  pub same_counter : client.counter ≡ server.counter
