-- ===== src/Tests/Messages.antt =====
-- The round trips of the messages, at concrete messages.
use mathlib.Core.Option
use secure_cloud_storage.Common.{◌%◌, ◌^◌, ◌≡◌, refl, some, length, take, replicate, arith, ◌==◌}
use secure_cloud_storage.Memory.{Bytes, c_string, u32_bytes}
use secure_cloud_storage.Memory.Laws.{NonNul}
use secure_cloud_storage.Files.{codes}
use secure_cloud_storage.Messages.Upload.{
  upload_m1, serialize_upload_m1, deserialize_upload_m1, upload_m1_arrives, upload_mi,
  serialize_upload_mi, deserialize_upload_mi, get_size_upload_mi, upload_mi_arrives,
}
use secure_cloud_storage.Messages.Simple
use secure_cloud_storage.Messages.Simple.{SimpleMessage, simple_arrives}
use secure_cloud_storage.Messages.Download
use secure_cloud_storage.Messages.Download.{
  download_m1, download_m2, download_mi, download_m1_arrives, download_reply_arrives,
}
use secure_cloud_storage.Messages.Listing.{list_reply_arrives}
use secure_cloud_storage.Messages.Listing
use secure_cloud_storage.Messages.Delete
use secure_cloud_storage.Messages.Delete.{delete, delete_arrives}
use secure_cloud_storage.Messages.Rename.{
  rename, serialize_rename_message, deserialize_rename_message, rename_arrives,
}
use secure_cloud_storage.Messages.Rename
use secure_cloud_storage.Messages.Generic
use secure_cloud_storage.Messages.Generic.{Generic, IsSized, generic, generic_arrives}
use secure_cloud_storage.Messages.Authentication
use secure_cloud_storage.Messages.Authentication.{
  authentication_m1, authentication_m3, authentication_m4, check_counter_m4,
}
use secure_cloud_storage.Messages.Authentication.RoundTrip.{
  authentication_m1_arrives, authentication_m3_arrives, authentication_m4_arrives,
}

abbrev name : Bytes
name = codes "a.txt"

abbrev other_name : Bytes
other_name = codes "b.txt"

name-NonNul : NonNul name
name-NonNul = (omega arith, (omega arith, (omega arith, (omega arith, (omega arith, tt)))))

other_name-NonNul : NonNul other_name
other_name-NonNul = (omega arith, (omega arith, (omega arith, (omega arith, (omega arith, tt)))))

abbrev memory : Bytes
memory = replicate 71 255

upload_m1_arrives_example :
    let sent = serialize_upload_m1 (upload_m1 name 1000001) (replicate 31 9) memory in
    let got = deserialize_upload_m1 sent in
    (got ≡ upload_m1 name 1000001)
    × (c_string got.filename ≡ some name)
    × (got.file_size ≡ 1000001)
    × (length sent ≡ 71)
upload_m1_arrives_example =
    upload_m1_arrives name (replicate 31 9) memory 1000001 name-NonNul (omega arith) (omega arith)
      refl refl

upload_mi_arrives_example :
    let sent = serialize_upload_mi (upload_mi (codes "one") 3) (replicate 4 255) in
    let got = deserialize_upload_mi sent 3 in
    (got ≡ upload_mi (codes "one") 3)
    × (got.chunk ≡ codes "one")
    × (length sent ≡ get_size_upload_mi 3)
upload_mi_arrives_example = upload_mi_arrives (codes "one") (replicate 4 255) refl

nine : SimpleMessage
nine = record { message_code = 9 }

simple_arrives_example :
    (Simple.deserialize (Simple.serialize nine (replicate 70 1) memory) ≡ nine)
    × (length (Simple.serialize nine (replicate 70 1) memory) ≡ 71)
simple_arrives_example = simple_arrives nine (replicate 70 1) memory refl refl

download_m1_arrives_example :
    (Option.map Download.deserialize_m1
        (Download.serialize_m1 (download_m1 name) (some (replicate 35 1)) memory)
      ≡ some (download_m1 name))
    × (c_string (download_m1 name).filename ≡ some name)
download_m1_arrives_example =
    download_m1_arrives name (replicate 35 1) memory name-NonNul (omega arith)

download_reply_arrives_example :
    let sent = Download.serialize_m2 (download_m2 6 4294967299) memory in
    let chunk = Download.serialize_mi (download_mi (codes "one") 3) 3 memory in
    (Download.deserialize_m2 sent ≡ download_m2 6 4294967299)
    × ((Download.deserialize_m2 sent).file_size ≡ 4294967299 % 2 ^ 32)
    × ((Download.deserialize_mi chunk 3).file_chunk ≡ codes "one")
download_reply_arrives_example = download_reply_arrives 6 4294967299 (codes "one") memory

list_reply_arrives_example :
    let sent = Listing.serialize_m3 (Listing.list_m3 3 (codes "a,b")) 3 (replicate 4 255) in
    (Listing.deserialize_m2 (Listing.serialize_m2 (Listing.list_m2 3) memory) ≡ Listing.list_m2 3)
    × (Listing.deserialize_m3 sent 3 ≡ Listing.list_m3 3 (codes "a,b"))
    × ((Listing.deserialize_m3 sent 3).file_list ≡ codes "a,b")
    × (length sent ≡ Listing.get_message_size_m3 3)
list_reply_arrives_example =
    list_reply_arrives (codes "a,b") memory (replicate 4 255) (omega arith) refl

delete_arrives_example :
    (Option.map Delete.deserialize (Delete.serialize (delete name) (some (replicate 35 1)) memory)
      ≡ some (delete name))
    × (c_string (delete name).file_name ≡ some name)
delete_arrives_example = delete_arrives name (replicate 35 1) memory name-NonNul (omega arith)

rename_arrives_example :
    let sent = serialize_rename_message (rename name other_name) memory in
    let got = deserialize_rename_message sent in
    (got ≡ rename name other_name)
    × (c_string got.old_filename ≡ some name)
    × (c_string got.new_filename ≡ some other_name)
    × (length sent ≡ Rename.get_message_size)
rename_arrives_example =
    rename_arrives name other_name memory name-NonNul (omega arith) other_name-NonNul (omega arith)
      refl

abbrev envelope : Generic
envelope = record (generic 5) { ciphertext = codes "one"; ciphertext_len = 3 }

envelope-IsSized : IsSized envelope
unfolding generic u32_bytes
envelope-IsSized = record {
  iv_size = refl;
  aad_size = refl;
  tag_size = refl;
  ciphertext_size = refl;
}

envelope_aad : envelope.aad ≡ (generic 5).aad
envelope_aad = refl

generic_arrives_example :
    let sent = Generic.serialize envelope (replicate 35 255) in
    let got = Generic.deserialize sent envelope.ciphertext_len in
    (got ≡ envelope)
    × (Generic.get_counter got ≡ 5)
    × (length sent ≡ Generic.get_message_size envelope.ciphertext_len)
generic_arrives_example =
    generic_arrives envelope (replicate 35 255) 5 envelope-IsSized refl (omega arith) envelope_aad

authentication_m1_arrives_example :
    let m = authentication_m1 (codes "key") (codes "eve") in
    let got = Authentication.deserialize_m1 (Authentication.serialize_m1 m memory) in
    (got ≡ m) × (take got.ephemeral_key_len got.ephemeral_key ≡ codes "key")
authentication_m1_arrives_example =
    authentication_m1_arrives (codes "key") (codes "eve") memory (omega arith)

authentication_m3_arrives_example :
    let m =
      authentication_m3
        (codes "key")
        (replicate 12 1)
        (replicate 4 2)
        (replicate 16 3)
        (replicate 128 4)
        (codes "cert") in
    let got = Authentication.deserialize_m3 (Authentication.serialize_m3 m memory) in
    (got ≡ m)
    × (take got.ephemeral_key_len got.ephemeral_key ≡ codes "key")
    × (take got.serialized_certificate_len got.serialized_certificate ≡ codes "cert")
authentication_m3_arrives_example =
    authentication_m3_arrives (codes "key") (replicate 12 1) (replicate 4 2) (replicate 16 3)
      (replicate 128 4) (codes "cert") memory (omega arith) refl refl refl (omega arith)
      (omega arith)

authentication_m4_arrives_example :
    let m = authentication_m4 (replicate 12 1) (u32_bytes 0) (replicate 16 3) (replicate 128 4) in
    let got = Authentication.deserialize_m4 (Authentication.serialize_m4 m memory) in
    (got ≡ m) × (check_counter_m4 got 1 ≡ (0 == 1))
authentication_m4_arrives_example =
    authentication_m4_arrives (replicate 12 1) (replicate 16 3) (replicate 128 4) memory 0 1 refl
      refl (omega arith) (omega arith)
