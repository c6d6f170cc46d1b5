-- ===== src/Tests/Listing.antt =====
-- The theorems on the list request, at concrete sessions.
use secure_cloud_storage.Common.{◌+◌, ◌≡◌, ◌≢◌, refl, true, [], ◌∷◌, ◌++◌, length, arith, eq_bytes}
use secure_cloud_storage.Codes.{return_code, success, wrong_path, message_code, list_response}
use secure_cloud_storage.Memory.{Bytes}
use secure_cloud_storage.Files.{codes, fresh_entry}
use secure_cloud_storage.Files.Listing.{
  get_files_list, entry_names, strip_prefix, known, with_commas, pop_back,
}
use secure_cloud_storage.Messages.Listing
use secure_cloud_storage.Messages.Listing.{list_m2}
use secure_cloud_storage.World.{World, returned}
use secure_cloud_storage.Server.Handlers.{list_request}
use secure_cloud_storage.Server.Listing.{Carries, list_error_name, list_answers}
use secure_cloud_storage.Tests.Platform.{toy, toy-IsLawful, login, session, key}

text_size : length (get_files_list session.directories (codes "../data/eve") session.disk) ≡ 3
unfolding get_files_list known entry_names strip_prefix with_commas pop_back eq_bytes
text_size = refl

text_other : get_files_list session.directories (codes "../data/eve") session.disk ≢ codes "error"
unfolding get_files_list known entry_names strip_prefix with_commas pop_back eq_bytes
text_other = λ e. cc

list_answers_example :
    let text = get_files_list session.directories (codes "../data/eve") session.disk in
    (v : World) × (first : Bytes) × (second : Bytes) × (size : Bytes) × (list : Bytes)
    × (list_request toy login session ≡ returned (return_code success) v)
    × (v.outgoing ≡ first ∷ second ∷ [])
    × Carries toy key 6 Listing.get_message_size_m2 size first
    × (Listing.deserialize_m2 size ≡ list_m2 (length text + 1))
    × Carries toy key 7 (Listing.get_message_size_m3 (length text + 1)) list second
    × ((Listing.deserialize_m3 list (length text + 1)).file_list ≡ text ++ (0 ∷ []))
    × ((Listing.deserialize_m3 list (length text + 1)).message_code ≡ message_code list_response)
    × (v.incoming ≡ session.incoming)
    × (v.counter ≡ 8)
    × (v.disk ≡ session.disk)
list_answers_example =
    list_answers toy (λ n. refl) toy-IsLawful login session (omega arith) text_other
      (omega (arith, text_size)) (omega (arith, text_size))

-- The user's only file is called `error`.
abbrev unlucky : World
unlucky = record session { disk = (codes "../data/eve/error", fresh_entry []) ∷ [] }

unlucky_known : known unlucky.directories (codes "../data/eve") ≡ true
unfolding known eq_bytes
unlucky_known = refl

unlucky_names : entry_names (codes "../data/eve") unlucky.disk ≡ codes "error" ∷ []
unfolding entry_names strip_prefix
unlucky_names = refl

list_error_name_example :
    list_request toy login unlucky
    ≡ returned (return_code wrong_path) (record unlucky { counter = 6 })
list_error_name_example =
    list_error_name toy login unlucky (omega arith) unlucky_known unlucky_names
