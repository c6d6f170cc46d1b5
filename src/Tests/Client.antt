-- ===== src/Tests/Client.antt =====
-- The client's theorems, at concrete sessions.
use secure_cloud_storage.Common.{◌≡◌, refl, some, [], ◌∷◌, eq_bytes}
use secure_cloud_storage.Files.{codes, find, fresh_entry}
use secure_cloud_storage.World.{World, final}
use secure_cloud_storage.Client.Session.{operate, list, download, upload, rename, quit}
use secure_cloud_storage.Client.Files.{operate_keeps_files}
use secure_cloud_storage.Tests.Platform.{toy, login, login-SameDisk, session}

-- A client with one file.
abbrev client : World
client = record session { disk = (codes "../files/new", fresh_entry (codes "text")) ∷ [] }

here : find (codes "../files/new") client.disk ≡ some (fresh_entry (codes "text"))
unfolding find eq_bytes
here = refl

operate_keeps_files_example :
    find
      (codes "../files/new")
      (final (
        operate toy login
          (upload (codes "new")
            ∷ download (codes "new")
            ∷ rename (codes "a") (codes "b")
            ∷ list
            ∷ quit
            ∷ [])
          client)).disk
    ≡ some (fresh_entry (codes "text"))
operate_keeps_files_example =
    operate_keeps_files toy login login-SameDisk
      (upload (codes "new")
        ∷ download (codes "new")
        ∷ rename (codes "a") (codes "b")
        ∷ list
        ∷ quit
        ∷ [])
      client (codes "../files/new") (fresh_entry (codes "text")) here
