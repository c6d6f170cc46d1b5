-- ===== src/Server/Renaming.antt =====
-- `Server::renameRequest` of src/modules/Server.cpp.
use secure_cloud_storage.Common.{
  ℕ, ◌+◌, ◌<◌, ◌≡◌, ◌≢◌, refl, sym, ap, ◌∙◌, true, not, Option, none, some, [], ◌∷◌, ◌++◌, arith,
  eq_bytes, if◌then◌else◌,
}
use secure_cloud_storage.Config.{max_counter_value}
use secure_cloud_storage.Codes.{return_code, Return, success, result_code, ack, file_already_exists}
use secure_cloud_storage.Memory.{Bytes, c_string}
use secure_cloud_storage.Messages.Rename.{deserialize_rename_message}
use secure_cloud_storage.Files
use secure_cloud_storage.Files.{Disk, Entry, find}
use secure_cloud_storage.Files.Laws.{find-rename}
use secure_cloud_storage.Files.Manager.{is_file_present}
use secure_cloud_storage.World.{
  Platform, IsLawful, World, M, done, returned, modify, pure, to_string-done, ◌>>=◌,
}
use secure_cloud_storage.Channel.{attempt}
use secure_cloud_storage.Server.Handlers.{rename_file, rename_request, user_path}
use secure_cloud_storage.Steps.{increment_counter}
use secure_cloud_storage.Steps.Counter.{increment_counter-done}
use secure_cloud_storage.Steps.Replies.{Tells, send_simple-done}

-- The code that answers a rename, and the directory after it.
abbrev pub renamed : Option Entry → Option Entry → Bytes → Bytes → Disk → ℕ × Disk
renamed none there old new disk = (return_code Return.file_not_found, disk)
renamed (some e) (some d) old new disk = (return_code file_already_exists, disk)
renamed (some e) none old new disk = (result_code ack, Files.rename old new disk)

module _ (p : Platform) (works : (n : ℕ) → p.succeeds n ≡ true) (authenticate : M ℕ) where
  -- The choice of the code, with what it does to the directory.
  abbrev choice : Bytes → Bytes → World → M ℕ
  choice old new w =
      if not (is_file_present old w.disk)
      then pure (return_code Return.file_not_found)
      else if is_file_present new w.disk
      then pure (return_code file_already_exists)
      else rename_file p authenticate old new

  choice-done :
      (old new : Bytes) (w : World)
      → let (code, disk) = renamed (find old w.disk) (find new w.disk) old new w.disk in
        (k : ℕ) × (choice old new w w ≡ done code (record w { disk = disk; calls = k }))
  unfolding is_file_present rename_file attempt modify ◌>>=◌
  choice-done old new w = by_presence (find old w.disk) (find new w.disk) refl refl
    where
      by_presence :
          (o n : Option Entry)
          → find old w.disk ≡ o
          → find new w.disk ≡ n
          → let (code, disk) = renamed o n old new w.disk in
            (k : ℕ) × (choice old new w w ≡ done code (record w { disk = disk; calls = k }))
      by_presence none n eo en = (w.calls, rw (eo, is_file_present) refl)
      by_presence (some e) (some d) eo en = (w.calls, rw (eo, en, is_file_present) refl)
      by_presence (some e) none eo en =
          (w.calls + 1, rw (eo, en, is_file_present) (rw (works w.calls) refl))

-- What a path leads to after a rename, by what it led to before.
abbrev pub moved : Option Entry → Option Entry → Bytes → Bytes → Bytes → Option Entry → Option Entry
moved none there old new q before = before
moved (some e) (some d) old new q before = before
moved (some e) none old new q before =
    if eq_bytes new q then some e else if eq_bytes old q then none else before

find-renamed :
    (o n : Option Entry) (old new q : Bytes) (disk : Disk)
    → find old disk ≡ o
    → find new disk ≡ n
    → find q (renamed o n old new disk).1 ≡ moved o n old new q (find q disk)
find-renamed none n old new q disk eo en = refl
find-renamed (some e) (some d) old new q disk eo en = refl
find-renamed (some e) none old new q disk eo en =
    let different : old ≢ new =
      λ h. let same : some e ≡ none = sym eo ∙ ap (λ x. find x disk) h ∙ en in cc in
    find-rename old new q disk en different
    ∙ ap (λ x. if eq_bytes new q then x else if eq_bytes old q then none else find q disk) eo

-- A rename always answers, while no call fails: not found if the old name leads nowhere, already
-- there if the new one leads somewhere, and else an acknowledgement. Only then does the directory
-- change: the new name leads to the file, the old one nowhere, and every other path to what it led
-- to. Nothing is received, the counter goes up by two, and the result is the code for success in
-- all three cases.
pub rename_answers :
    (p : Platform)
    → ((n : ℕ) → p.succeeds n ≡ true)
    → IsLawful p
    → (authenticate : M ℕ) (plaintext old new q : Bytes) (w : World)
    → w.counter + 1 < max_counter_value
    → let m1 = deserialize_rename_message plaintext in
      c_string m1.old_filename ≡ some old
      → c_string m1.new_filename ≡ some new
      → let was = find (user_path w old) w.disk in
        let other = find (user_path w new) w.disk in
        (v : World) × (reply : Bytes) × (rename_request p authenticate plaintext w
          ≡ returned (return_code success) v)
        × (v.outgoing ≡ w.outgoing ++ (reply ∷ []))
        × (v.incoming ≡ w.incoming)
        × (v.counter ≡ w.counter + 2)
        × Tells p w.session_key
            (w.counter + 1)
            (renamed was other (user_path w old) (user_path w new) w.disk).0
            reply
        × (find q v.disk ≡ moved was other (user_path w old) (user_path w new) q (find q w.disk))
unfolding rename_request ◌>>=◌
rename_answers p works lawful authenticate plaintext old new q w low old_name new_name =
    let m1 = deserialize_rename_message plaintext in
    let a = user_path w old in
    let b = user_path w new in
    let w1 = record w { counter = w.counter + 1 } in
    let (code, disk) = renamed (find a w.disk) (find b w.disk) a b w.disk in
    let (k, chosen) = choice-done p works authenticate a b w1 in
    let x = record w1 { disk = disk; calls = k } in
    let (reply, sent, tells) = send_simple-done p works lawful authenticate code x (omega arith) in
    let u' = record x { calls = k + 10; outgoing = w.outgoing ++ (reply ∷ []) } in
    let u = record u' { counter = w.counter + 2 } in
    let counted : increment_counter p authenticate u' ≡ done tt u =
      increment_counter-done p authenticate u' low
      ∙ ap (λ c. done tt (record u' { counter = c })) (omega arith) in
    (
      u,
      reply,
      rw
          (
            increment_counter-done p authenticate w (omega arith),
            to_string-done m1.old_filename old w1 old_name,
            to_string-done m1.new_filename new w1 new_name,
            chosen,
          )
          (rw (sent, counted) refl),
      refl,
      refl,
      refl,
      tells,
      find-renamed (find a w.disk) (find b w.disk) a b q w.disk refl refl,
    )
