-- ===== src/Client/Session.antt =====
-- `Client::run` of src/modules/Client.cpp: the start, and the loop over what the user chooses from
-- the menu.
use secure_cloud_storage.Common.{
  ℕ, Bool, not, ◌||◌, Option, none, some, List, [], ◌∷◌, ◌++◌, ◌==◌, if◌then◌else◌,
}
use secure_cloud_storage.Codes.{return_code, success, authentication_success}
use secure_cloud_storage.Memory.{Bytes}
use secure_cloud_storage.Files.{codes}
use secure_cloud_storage.Files.Manager.{is_file_present}
use secure_cloud_storage.Files.Names.{is_string_valid}
use secure_cloud_storage.World.{
  Platform, M, Outcome, done, returned, thrown, undefined, failed, pure, world, modify, call, ◌>>=◌,
  ◌>>◌,
}
use secure_cloud_storage.Channel.{attempt}
use secure_cloud_storage.Client.Requests

-- The seven entries of the menu, with what the user types in. For a deletion that is also whether
-- the question is answered by 1.
pub data Operation : Type 0 where
  list : Operation
  download upload : Bytes → Operation
  rename : Bytes → Bytes → Operation
  delete : Bool → Bytes → Operation
  logout quit : Operation

-- What `run` returns: -1, 0 or 1.
pub data Exit : Type 0 where
  minus_one zero one : Exit

-- The path of the deletion's own check.
abbrev pub data_path : Bytes → Bytes → Bytes
data_path username filename = codes "../data/" ++ (username ++ (codes "/" ++ filename))

-- `listRequest`, whose names go to the screen.
unfoldable pub shown : M (List Bytes) → M ℕ
shown m w = elim (m w) [
  | done names v ↦ done (return_code success) v
  | returned code v ↦ done code v
  | thrown code v ↦ thrown code v
  | undefined v ↦ undefined v
]

-- `catch (int error)`
unfoldable pub caught : Outcome (Option Exit) → Outcome (Option Exit)
caught (done e w) = done e w
caught (returned code w) = returned code w
caught (thrown code w) = done (some zero) w
caught (undefined w) = undefined w

module _ (p : Platform) (authenticate : M ℕ) where
  -- The `switch`: `none` is another round.
  unfoldable pub perform : Operation → M (Option Exit)
  unfolding shown
  perform list = do result ← shown (Requests.list_request p authenticate); pure none
  perform (download filename) =
      if not (is_string_valid filename)
      then pure none
      else (do result ← call (Requests.download_request p authenticate filename); pure none)
  perform (upload filename) =
      if not (is_string_valid filename)
      then pure none
      else (do result ← call (Requests.upload_request p authenticate filename); pure none)
  perform (rename old new) =
      if not (is_string_valid old) || not (is_string_valid new)
      then pure none
      else (do result ← call (Requests.rename_request p authenticate old new); pure none)
  perform (delete sure filename) = if not (is_string_valid filename) then pure none else (do
    w ← world
    if not (is_file_present (data_path w.username filename) w.disk)
        then pure none
        else (do result ← call (Requests.delete_request p authenticate sure filename); pure none))
  perform logout = do result ← call (Requests.logout_request p authenticate); pure (some zero)
  perform quit = do
    result ← call (Requests.logout_request p authenticate)
    pure (some (if result == return_code success then one else zero))

  -- The loop over the user's choices; `none` if the user makes no more.
  unfoldable pub operate : List Operation → M (Option Exit)
  operate [] = pure none
  operate (o ∷ os) = do over ← perform o; elim over [ none ↦ operate os | some e ↦ pure (some e) ]

-- The file of the user's encrypted private key.
abbrev pub private_key_path : Bytes → Bytes
private_key_path username =
    codes "../resources/encrypted_private_keys/" ++ (username ++ codes "_key.pem")

-- `key_file` is what `PEM_read_bio_PrivateKey` makes of a path and a password, if the path can be
-- opened; `authenticate` takes the private key.
module _ (p : Platform) (key_file : Bytes → Option (Bytes → Option Bytes))
    (authenticate : Bytes → M ℕ) where
  -- The private key of the user, by the password.
  unfoldable pub unlock : Bytes → Bytes → Option Bytes
  unlock username password = elim (key_file (private_key_path username)) [
    | none ↦ none
    | some f ↦ f password
  ]

  -- The connection, the authentication and the loop. The constructor of the socket does not throw:
  -- after a failed connection the authentication runs on a stream from which nothing comes but -1.
  unfoldable pub connect : Bytes → List Operation → M (Option Exit)
  unfolding caught
  connect private_key os = do
    connected ← attempt p
    modify (λ w. if connected then w else record w { incoming = []; ending = failed })
    result ← call (authenticate private_key)
    if result == return_code authentication_success
        then (λ w. caught (operate p (authenticate private_key) os w))
        else pure (some minus_one)

  unfoldable pub run : Bytes → Bytes → List Operation → M (Option Exit)
  unfolding unlock connect
  run username password os = do
    modify (λ w. record w { username = username })
    if not (is_string_valid username) || not (is_string_valid password)
        then pure (some minus_one)
        else elim (unlock username password) [
          | none ↦ pure (some minus_one)
          | some private_key ↦ connect private_key os
        ]
