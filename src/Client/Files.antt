-- ===== src/Client/Files.antt =====
-- The client's local files, whatever the user does: src/modules/Client.cpp.
use secure_cloud_storage.Common.{
  ℕ, ◌≡◌, ◌≢◌, refl, sym, ap, ◌∙◌, ◌+◌, ◌%◌, ◌^◌, Option, none, some, List, [], ◌∷◌,
}
use secure_cloud_storage.Codes.{return_code, file_already_exists}
use secure_cloud_storage.Memory.{Bytes}
use secure_cloud_storage.Files.{Entry, find}
use secure_cloud_storage.Files.Opening.{is_file_present-some}
use secure_cloud_storage.World.{
  Platform, World, M, Outcome, done, returned, thrown, undefined, final, pure, require, ◌>>=◌,
}
use secure_cloud_storage.Server.Keeps.{IsPreorder, Keeps}
use secure_cloud_storage.Server.Keeps.Rules.{
  Keeps-bind, Keeps-pure, Keeps-if, Keeps-call, Keeps-world,
}
use secure_cloud_storage.Server.Keeps.Channel.{AllowsTraffic}
use secure_cloud_storage.Server.Storage.Unchanged.{SameDisk}
use secure_cloud_storage.Server.Storage.Uploads.{
  SameElsewhere, SameElsewhere-AllowsTraffic, open_for_writing-SameElsewhere, storing_elsewhere,
}
use secure_cloud_storage.Client.Requests.{local_path, download_request}
use secure_cloud_storage.Client.Session.{
  Operation, list, download, upload, rename, delete, logout, quit, Exit, perform, operate, shown,
  zero,
}
use secure_cloud_storage.Client.Keeping.{
  list_request-Keeps, upload_request-Keeps, rename_request-Keeps, logout_request-Keeps,
  delete_request-Keeps, download_request-Keeps,
}

-- Every file that was there is there as it was.
abbrev pub FilesStay : World → World → Type 0
FilesStay w v = (q : Bytes) (e : Entry) → find q w.disk ≡ some e → find q v.disk ≡ some e

FilesStay-AllowsTraffic : AllowsTraffic FilesStay
FilesStay-AllowsTraffic = record {
  order = record { same = λ w q e h. h; then_also = λ u v w h k q e i. k q e (h q e i) };
  calling = λ w q e h. h;
  sending = λ w packet q e h. h;
  receiving = λ w n q e h. h;
}

pre : IsPreorder FilesStay
pre = FilesStay-AllowsTraffic.order

shown-Keeps : {m : M (List Bytes)} → Keeps FilesStay m → Keeps FilesStay (shown m)
unfolding shown
shown-Keeps {m} km = record { at = λ w. stops w (m w) (km.at w) }
  where
    stops :
        (w : World) (o : Outcome (List Bytes))
        → FilesStay w (final o)
        → FilesStay w (
            final (elim o as (λ _. Outcome ℕ) [
              | done names v ↦ done 22 v
              | returned code v ↦ done code v
              | thrown code v ↦ thrown code v
              | undefined v ↦ undefined v
            ]))
    stops w (done a v) h = h
    stops w (returned c v) h = h
    stops w (thrown c v) h = h
    stops w (undefined v) h = h

module _ (p : Platform) {authenticate : M ℕ} (again : Keeps SameDisk authenticate) where
  -- A download of a file that is there ends at once.
  already_there :
      (name : Bytes) (e : Entry) (w : World)
      → find (local_path name) w.disk ≡ some e
      → download_request p authenticate name w ≡ returned (return_code file_already_exists) w
  unfolding download_request require ◌>>=◌
  already_there name e w there = rw (is_file_present-some (local_path name) w.disk e there) refl

  elsewhere : (path : Bytes) → Keeps (SameElsewhere path) authenticate
  elsewhere path = record { at = λ w q ne. ap (find q) (again.at w) }

  stays : Keeps FilesStay authenticate
  stays = record { at = λ w q e h. ap (find q) (again.at w) ∙ h }

  download_request-FilesStay :
      (name : Bytes) → Keeps FilesStay (download_request p authenticate name)
  download_request-FilesStay name = record {
    at = λ w q e there. by_presence w q e there (find (local_path name) w.disk) refl;
  }
    where
      by_presence :
          (w : World) (q : Bytes) (e : Entry)
          → find q w.disk ≡ some e
          → (o : Option Entry) → find (local_path name) w.disk ≡ o
          → find q (final (download_request p authenticate name w)).disk ≡ some e
      by_presence w q e there (some d) h = rw (already_there name d w h) there
      by_presence w q e there none h =
          let path = local_path name in
          let other : path ≢ q =
            λ same. let both : none ≡ some e = sym h ∙ ap (λ x. find x w.disk) same ∙ there in cc in
          (download_request-Keeps p (SameElsewhere-AllowsTraffic path) (λ u r ne. refl)
              (elsewhere path) name (open_for_writing-SameElsewhere path p authenticate)
              (storing_elsewhere path)).at
            w q other
          ∙ there

  counting : (w : World) → FilesStay w (record w { counter = (w.counter + 1) % 2 ^ 32 })
  counting w q e h = h

  perform-Keeps : (o : Operation) → Keeps FilesStay (perform p authenticate o)
  unfolding perform
  perform-Keeps list =
      let allows = FilesStay-AllowsTraffic in
      Keeps-bind pre (shown-Keeps (list_request-Keeps p allows counting stays))
        (λ result. Keeps-pure pre none)
  perform-Keeps (download name) = Keeps-if pre _ (Keeps-pure pre none) (
      Keeps-bind pre (Keeps-call pre (download_request-FilesStay name))
        (λ result. Keeps-pure pre none))
  perform-Keeps (upload name) = Keeps-if pre _ (Keeps-pure pre none) (
      Keeps-bind pre
        (Keeps-call pre (upload_request-Keeps p FilesStay-AllowsTraffic counting stays name))
        (λ result. Keeps-pure pre none))
  perform-Keeps (rename old new) = Keeps-if pre _ (Keeps-pure pre none) (
      Keeps-bind pre
        (Keeps-call pre (rename_request-Keeps p FilesStay-AllowsTraffic counting stays old new))
        (λ result. Keeps-pure pre none))
  perform-Keeps (delete sure name) =
      let request =
        Keeps-call pre (delete_request-Keeps p FilesStay-AllowsTraffic counting stays sure name) in
      Keeps-if pre _ (Keeps-pure pre none) (
        Keeps-bind pre (Keeps-world pre) (λ w.
          Keeps-if pre _ (Keeps-pure pre none)
            (Keeps-bind pre request (λ result. Keeps-pure pre none))))
  perform-Keeps logout =
      Keeps-bind pre
        (Keeps-call pre (logout_request-Keeps p FilesStay-AllowsTraffic counting stays))
        (λ result. Keeps-pure pre (some zero))
  perform-Keeps quit =
      Keeps-bind pre
        (Keeps-call pre (logout_request-Keeps p FilesStay-AllowsTraffic counting stays))
        (λ result. Keeps-pure pre _)

  Keeps-over :
      (over : Option Exit) {m : M (Option Exit)}
      → Keeps FilesStay m
      → Keeps FilesStay (elim over as (λ _. M (Option Exit)) [ none ↦ m | some e ↦ pure (some e) ])
  Keeps-over none km = km
  Keeps-over (some e) km = Keeps-pure pre (some e)

  operate-Keeps : (os : List Operation) → Keeps FilesStay (operate p authenticate os)
  unfolding operate
  operate-Keeps [] = Keeps-pure pre none
  operate-Keeps (o ∷ os) =
      let rest = operate-Keeps os in Keeps-bind pre (perform-Keeps o) (λ over. Keeps-over over rest)

-- Whatever the user chooses from the menu, in any order, and whatever the server sends: every local
-- file that was there before is there afterwards with the same content, however the operations end,
-- provided that an authentication changes no file.
pub operate_keeps_files :
    (p : Platform) (authenticate : M ℕ)
    → Keeps SameDisk authenticate
    → (os : List Operation) (w : World) (q : Bytes) (e : Entry) → find q w.disk ≡ some e
    → find q (final (operate p authenticate os w)).disk ≡ some e
operate_keeps_files p authenticate again os w q e there = (operate-Keeps p again os).at w q e there
