-- ===== src/Tests/Transfers.antt =====
-- The theorems on the client and the server together, at concrete sessions.
use secure_cloud_storage.Common.{
  ◌+◌, ◌<◌, ◌≤◌, ◌≡◌, refl, replicate, true, none, some, List, [], ◌∷◌, arith, eq_bytes,
}
use secure_cloud_storage.Codes.{return_code, success}
use secure_cloud_storage.Memory.{Bytes}
use secure_cloud_storage.Memory.Laws.{NonNul, joined}
use secure_cloud_storage.Files.{codes, find, fresh_entry}
use secure_cloud_storage.Files.Manager.{init_file_info}
use secure_cloud_storage.Files.Opening.{read_manager}
use secure_cloud_storage.World.{World, done, returned}
use secure_cloud_storage.Server.Session.{serve_once}
use secure_cloud_storage.Client.Requests
use secure_cloud_storage.Transfers.{IsPaired}
use secure_cloud_storage.Transfers.Uploads.{upload_end_to_end}
use secure_cloud_storage.Transfers.Downloads.{download_end_to_end}
use secure_cloud_storage.Transfers.Renames.{rename_end_to_end}
use secure_cloud_storage.Transfers.Deletions.{delete_end_to_end}
use secure_cloud_storage.Transfers.Logouts.{logout_end_to_end}
use secure_cloud_storage.Files.Listing.{get_files_list, entry_names, strip_prefix}
use secure_cloud_storage.Client.Listing.{AllFilled}
use secure_cloud_storage.Tests.Platform.{toy, toy-IsLawful, login, session}

-- The client at the other end of the session, which has one file.
abbrev client : World
client = record session { disk = (codes "../files/new", fresh_entry (codes "text")) ∷ [] }

ends : IsPaired client session
ends = record { same_key = refl; same_counter = refl }

sent : find (codes "../files/new") client.disk ≡ some (fresh_entry (codes "text"))
unfolding find eq_bytes
sent = refl

free : find (codes "../data/eve/new") session.disk ≡ none
unfolding find eq_bytes
free = refl

nonnul : NonNul (codes "new")
nonnul = (omega arith, (omega arith, (omega arith, tt)))

room : 5 + 2 + (read_manager (codes "../files/new") (codes "text")).chunks_num < 4294967295
unfolding init_file_info secure_cloud_storage.Files.Doubles.chunks_of
room = omega arith

upload_end_to_end_example :
    (to_server : List Bytes) × (to_client : List Bytes) × (c : World) × (s : World)
    × (Requests.upload_request toy login
          (codes "new")
          (record client { incoming = joined to_client })
        ≡ returned (return_code success) c)
    × (c.outgoing ≡ to_server)
    × (c.incoming ≡ [])
    × (serve_once toy login (record session { incoming = joined to_server }) ≡ done true s)
    × (s.outgoing ≡ to_client)
    × (s.incoming ≡ [])
    × (find (codes "../data/eve/new") s.disk ≡ some (fresh_entry (codes "text")))
    × (c.counter ≡ s.counter)
upload_end_to_end_example =
    upload_end_to_end toy (λ n. refl) toy-IsLawful login (codes "new") (fresh_entry (codes "text"))
      client session ends sent free nonnul (omega arith) (omega arith) (omega arith) room

there : find (codes "../data/eve/a") session.disk ≡ some (fresh_entry (codes "one"))
unfolding find eq_bytes
there = refl

absent : find (codes "../files/a") client.disk ≡ none
unfolding find eq_bytes
absent = refl

few : 5 + 2 + (read_manager (codes "../data/eve/a") (codes "one")).chunks_num ≤ 4294967295
unfolding init_file_info secure_cloud_storage.Files.Doubles.chunks_of
few = omega arith

download_end_to_end_example :
    (to_server : List Bytes) × (to_client : List Bytes) × (c : World) × (s : World)
    × (Requests.download_request toy login
          (codes "a")
          (record client { incoming = joined to_client })
        ≡ returned (return_code success) c)
    × (c.outgoing ≡ to_server)
    × (c.incoming ≡ [])
    × (serve_once toy login (record session { incoming = joined to_server }) ≡ done true s)
    × (s.outgoing ≡ to_client)
    × (s.incoming ≡ [])
    × (find (codes "../files/a") c.disk ≡ some (fresh_entry (codes "one")))
    × (s.disk ≡ session.disk)
    × (c.counter ≡ s.counter)
download_end_to_end_example =
    download_end_to_end toy (λ n. refl) toy-IsLawful login (codes "a") (fresh_entry (codes "one"))
      client session ends absent there refl refl (omega arith, tt) (omega arith) (omega arith)
      (omega arith) few

one : NonNul (codes "a")
one = (omega arith, tt)

-- The name `c` is free on the server: the user is told of the success.
rename_end_to_end_example :
    (to_server : Bytes) × (to_client : Bytes) × (c : World) × (s : World) × (Requests.rename_request
        toy login
        (codes "a")
        (codes "c")
        (record client { incoming = joined (to_client ∷ []) })
      ≡ returned (return_code success) c)
    × (c.outgoing ≡ to_server ∷ [])
    × (c.incoming ≡ [])
    × (serve_once toy login (record session { incoming = joined (to_server ∷ []) }) ≡ done true s)
    × (s.outgoing ≡ to_client ∷ [])
    × (s.incoming ≡ [])
    × (find (codes "../data/eve/c") s.disk ≡ some (fresh_entry (codes "one")))
    × (c.disk ≡ client.disk)
    × (c.counter ≡ s.counter)
unfolding find eq_bytes
rename_end_to_end_example =
    rename_end_to_end toy (λ n. refl) toy-IsLawful login (codes "a") (codes "c")
      (codes "../data/eve/c") client session ends one (omega arith) (omega arith, tt) (omega arith)
      (omega arith)

delete_end_to_end_example :
    (asks : Bytes) × (confirms : Bytes) × (ask : Bytes) × (reply : Bytes) × (c : World)
    × (s : World) × (Requests.delete_request toy login true
          (codes "a")
          (record client { incoming = joined (ask ∷ reply ∷ []) })
        ≡ returned (return_code success) c)
    × (c.outgoing ≡ asks ∷ confirms ∷ [])
    × (c.incoming ≡ [])
    × (serve_once toy login (record session { incoming = joined (asks ∷ confirms ∷ []) })
        ≡ done true s)
    × (s.outgoing ≡ ask ∷ reply ∷ [])
    × (s.incoming ≡ [])
    × (find (codes "../data/eve/a") s.disk ≡ none)
    × (c.disk ≡ client.disk)
    × (c.counter ≡ s.counter)
unfolding eq_bytes
delete_end_to_end_example =
    delete_end_to_end toy (λ n. refl) toy-IsLawful login (codes "a") (codes "../data/eve/a")
      (fresh_entry (codes "one")) client session ends there one (omega arith) (omega arith)

abbrev text : Bytes
text = get_files_list session.directories (codes "../data/eve") session.disk

filled : AllFilled (entry_names (codes "../data/eve") session.disk)
unfolding entry_names strip_prefix
filled = (λ e. cc, (λ e. cc, tt))

logout_end_to_end_example :
    (asks : Bytes) × (reply : Bytes) × (c : World) × (s : World) × (Requests.logout_request toy
        login
        (record client { incoming = joined (reply ∷ []) })
      ≡ returned (return_code success) c)
    × (c.outgoing ≡ asks ∷ [])
    × (c.incoming ≡ [])
    × (serve_once toy login (record session { incoming = joined (asks ∷ []) }) ≡ done true s)
    × (s.outgoing ≡ reply ∷ [])
    × (s.incoming ≡ [])
    × (s.session_key ≡ replicate 16 0)
    × (c.disk ≡ client.disk)
    × (s.disk ≡ session.disk)
logout_end_to_end_example =
    logout_end_to_end toy (λ n. refl) toy-IsLawful login client session ends (omega arith)
