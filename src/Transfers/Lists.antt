-- ===== src/Transfers/Lists.antt =====
-- `Client::listRequest` against `Server::listRequest`.
use secure_cloud_storage.Messages.Generic
use secure_cloud_storage.Messages.Listing
use secure_cloud_storage.Messages.Simple
use secure_cloud_storage.World.{World}
use secure_cloud_storage.Client.Requests
