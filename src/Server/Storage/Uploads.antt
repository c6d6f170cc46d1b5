-- ===== src/Server/Storage/Uploads.antt =====
-- An upload touches no file but the one that it creates.
use secure_cloud_storage.Common.{
  ℕ, ◌+◌, ◌<◌, ◌≡◌, ◌≢◌, refl, ap, ◌∙◌, Bool, true, some, take, arith, eq_bytes_iff,
}
use secure_cloud_storage.Config.{max_counter_value}
use secure_cloud_storage.Memory.{Bytes, c_string}
use secure_cloud_storage.Files.{Disk, Entry, find}
use secure_cloud_storage.Files.Laws.{find-create, find-append_content}
use secure_cloud_storage.Files.Manager.{
  write, file_manager, init_file_info, write_chunk, is_file_present,
}
use secure_cloud_storage.World.{Platform, World, M, final, ◌>>=◌, to_string-done}
use secure_cloud_storage.Server.Handlers.{receive_file, answer_upload, upload_request, user_path}
use secure_cloud_storage.Steps.{store_chunk, open_for_writing}
use secure_cloud_storage.Steps.Counter.{increment_counter-done}
use secure_cloud_storage.Server.Storage.Unchanged.{SameDisk, SameDisk-AllowsTraffic}
use secure_cloud_storage.Messages.Upload.{deserialize_upload_m1}
use secure_cloud_storage.Server.Keeps.Rules.{Keeps-bind, Keeps-if, Keeps-leave}
use secure_cloud_storage.Server.Keeps.{Keeps}
use secure_cloud_storage.Server.Keeps.Channel.{AllowsTraffic}
use secure_cloud_storage.Server.Keeps.Handlers.{
  AllowsCounting, receive_file-Keeps, send_simple-Keeps, increment_counter-Keeps,
}

-- Every other path leads to what it led to.
abbrev pub SameElsewhere : Bytes → World → World → Type 0
SameElsewhere path w v = (q : Bytes) → path ≢ q → find q v.disk ≡ find q w.disk

module _ (path : Bytes) where
  pub SameElsewhere-AllowsTraffic : AllowsTraffic (SameElsewhere path)
  SameElsewhere-AllowsTraffic = record {
    order = record { same = λ w q ne. refl; then_also = λ u v w h k q ne. k q ne ∙ h q ne };
    calling = λ w q ne. refl;
    sending = λ w packet q ne. refl;
    receiving = λ w n q ne. refl;
  }

  opening_elsewhere :
      (creatable : Bool) (disk : Disk) (q : Bytes)
      → path ≢ q
      → find q (file_manager creatable path write disk).1 ≡ find q disk
  unfolding file_manager
  opening_elsewhere creatable disk q ne =
      ground (arith, find-create path q disk, eq_bytes_iff path q)

  pub open_for_writing-SameElsewhere :
      (p : Platform) (authenticate : M ℕ)
      → Keeps (SameElsewhere path) (open_for_writing p authenticate path)
  unfolding open_for_writing
  open_for_writing-SameElsewhere p authenticate = record {
    at = λ w q ne. opening_elsewhere (p.succeeds w.calls) w.disk q ne;
  }

  -- The stream of a manager that was opened on the path leads there, if anywhere.
  pub storing_elsewhere :
      (size : ℕ) (disk : Disk) (creatable : Bool) (chunk : Bytes) (n : ℕ)
      → Keeps
          (SameElsewhere path)
          (store_chunk (init_file_info size (file_manager creatable path write disk).0) chunk n)
  unfolding store_chunk write_chunk init_file_info file_manager
  storing_elsewhere size disk creatable chunk n = record {
    at = λ w q ne.
        ground (arith, find-append_content path q (take n chunk) w.disk, eq_bytes_iff path q);
  }

  pub receive_file-SameElsewhere :
      (p : Platform) {authenticate : M ℕ} (size : ℕ)
      → Keeps (SameElsewhere path) authenticate
      → Keeps (SameElsewhere path) (receive_file p authenticate path size)
  receive_file-SameElsewhere p {authenticate} size again =
      receive_file-Keeps p SameElsewhere-AllowsTraffic (λ w q ne. refl) again path size
        (open_for_writing-SameElsewhere p authenticate) (storing_elsewhere size)

  answer_upload-SameElsewhere :
      (p : Platform) {authenticate : M ℕ} (size : ℕ) (present : Bool)
      → Keeps (SameElsewhere path) authenticate
      → Keeps (SameElsewhere path) (answer_upload p authenticate path size present)
  unfolding answer_upload
  answer_upload-SameElsewhere p {authenticate} size present again =
      let allows = SameElsewhere-AllowsTraffic in
      let pre = allows.order in
      let counting : AllowsCounting (SameElsewhere path) = λ w q ne. refl in
      Keeps-bind pre (send_simple-Keeps p allows counting again _) λ _.
        Keeps-bind pre (increment_counter-Keeps p allows counting again)
          λ _. Keeps-if pre _ (Keeps-leave pre _) (receive_file-SameElsewhere p size again)

  -- If the file is there, the request is refused before anything is written.
  answer_upload-SameDisk :
      (p : Platform) {authenticate : M ℕ} (size : ℕ)
      → Keeps SameDisk authenticate
      → Keeps SameDisk (answer_upload p authenticate path size true)
  unfolding answer_upload
  answer_upload-SameDisk p size again =
      let allows = SameDisk-AllowsTraffic in
      let pre = allows.order in
      let counting : AllowsCounting SameDisk = λ w. refl in
      Keeps-bind pre (send_simple-Keeps p allows counting again _)
        λ _. Keeps-bind pre (increment_counter-Keeps p allows counting again) λ _. Keeps-leave pre _

pub upload_request_lem :
    (p : Platform) (authenticate : M ℕ) (plaintext name : Bytes) (w : World)
    → w.counter < max_counter_value
    → c_string (deserialize_upload_m1 plaintext).filename ≡ some name
    → upload_request p authenticate plaintext w
      ≡ answer_upload p authenticate
          (user_path w name)
          (deserialize_upload_m1 plaintext).file_size
          (is_file_present (user_path w name) w.disk)
          (record w { counter = w.counter + 1 })
unfolding upload_request ◌>>=◌
upload_request_lem p authenticate plaintext name w low named =
    let v = record w { counter = w.counter + 1 } in
    rw (
      increment_counter-done p authenticate w low,
      to_string-done (deserialize_upload_m1 plaintext).filename name v named,
    )

present_of_find :
    (path : Bytes) (disk : Disk) (e : Entry)
    → find path disk ≡ some e
    → is_file_present path disk ≡ true
unfolding is_file_present
present_of_find path disk e h = rw (h, is_file_present)

-- An upload changes at most the file that it names, and nothing at all if that file is there: then
-- it ends without writing. This holds however it ends, from a counter below its maximum, provided
-- that the authentication that a used-up counter starts changes no file.
pub upload_leaves_files :
    (p : Platform) (authenticate : M ℕ)
    → Keeps SameDisk authenticate
    → (plaintext name : Bytes) (w : World) → w.counter < max_counter_value
    → c_string (deserialize_upload_m1 plaintext).filename ≡ some name
    → let after = (final (upload_request p authenticate plaintext w)).disk in
      ((q : Bytes) → user_path w name ≢ q → find q after ≡ find q w.disk)
      × ((e : Entry) → find (user_path w name) w.disk ≡ some e → after ≡ w.disk)
upload_leaves_files p authenticate again plaintext name w low named =
    let path = user_path w name in
    let size = (deserialize_upload_m1 plaintext).file_size in
    let v = record w { counter = w.counter + 1 } in
    let step = upload_request_lem p authenticate plaintext name w low named in
    let elsewhere : Keeps (SameElsewhere path) authenticate = record {
      at = λ u q ne. ap (find q) (again.at u);
    } in
    (
      λ q ne. rw step ((answer_upload-SameElsewhere path p size _ elsewhere).at v q ne),
      λ e there.
          rw (step, present_of_find path w.disk e there)
            ((answer_upload-SameDisk path p size again).at v),
    )
