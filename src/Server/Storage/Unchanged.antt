-- ===== src/Server/Storage/Unchanged.antt =====
-- The handlers that only read leave the storage alone.
use secure_cloud_storage.Common.{ℕ, ◌≡◌, refl, ◌∙◌}
use secure_cloud_storage.Memory.{Bytes}
use secure_cloud_storage.World.{Platform, World, M, final}
use secure_cloud_storage.Server.Handlers.{wipe_key, list_request, download_request, logout_request}
use secure_cloud_storage.Server.Keeps.{Keeps}
use secure_cloud_storage.Server.Keeps.Channel.{AllowsTraffic}
use secure_cloud_storage.Server.Keeps.Handlers.{
  list_request-Keeps, download_request-Keeps, logout_request-Keeps,
}

abbrev pub SameDisk : World → World → Type 0
SameDisk w v = v.disk ≡ w.disk

pub SameDisk-AllowsTraffic : AllowsTraffic SameDisk
SameDisk-AllowsTraffic = record {
  order = record { same = λ w. refl; then_also = λ u v w h k. k ∙ h };
  calling = λ w. refl;
  sending = λ w packet. refl;
  receiving = λ w n. refl;
}

wipe_key-SameDisk : Keeps SameDisk wipe_key
unfolding wipe_key
wipe_key-SameDisk = record { at = λ w. refl }

-- However a listing, a download or a logout ends, in success, in an error at any step or in an
-- exception, no stored file is changed, added or removed, provided that the authentication that a
-- used-up counter starts changes none.
pub reading_leaves_disk :
    (p : Platform) (authenticate : M ℕ)
    → Keeps SameDisk authenticate
    → (plaintext : Bytes) (w : World)
    → ((final (list_request p authenticate w)).disk ≡ w.disk)
      × ((final (download_request p authenticate plaintext w)).disk ≡ w.disk)
      × ((final (logout_request p authenticate w)).disk ≡ w.disk)
reading_leaves_disk p authenticate again plaintext w = (
  (list_request-Keeps p SameDisk-AllowsTraffic (λ v. refl) again).at w,
  (download_request-Keeps p SameDisk-AllowsTraffic (λ v. refl) again plaintext).at w,
  (logout_request-Keeps p SameDisk-AllowsTraffic (λ v. refl) again wipe_key-SameDisk).at w,
)
