-- ===== src/Tests/Files.antt =====
-- Names, listings and directories, at concrete inputs.
use secure_cloud_storage.Common.{
  ℕ, ◌+◌, ◌-◌, ◌*◌, ◌≤◌, ◌<◌, ◌≡◌, ◌≢◌, ◌↔◌, refl, true, [], ◌∷◌, length, arith, eq_bytes,
}
use secure_cloud_storage.Config.{chunk_size, file_name_len}
use secure_cloud_storage.Memory.Laws.{NonNul}
use secure_cloud_storage.Files.{Disk, codes, fresh_entry}
use secure_cloud_storage.Files.Manager.{init_file_info, closed, read}
use secure_cloud_storage.Files.Doubles.{chunks_of, chunks_of_lem}
use secure_cloud_storage.Files.Chunks.{init_file_info_partition}
use secure_cloud_storage.Files.Names.{
  AllListed, Without, contains, strspn, is_string_valid, is_string_valid_iff, is_string_valid_safe,
}
use secure_cloud_storage.Files.Listing.{
  AllPlain, strip_prefix, entry_names, known, get_files_list, split_commas,
  split_commas-get_files_list,
}

abbrev disk : Disk
disk = (codes "d/a", fresh_entry (codes "one")) ∷ (codes "d/b", fresh_entry []) ∷ []

is_string_valid_iff_example : (is_string_valid (codes "a.txt") ≡ true) ↔ (
    AllListed (codes "a.txt")
    × (0 < length (codes "a.txt"))
    × (length (codes "a.txt") < file_name_len)
    × (codes "a.txt" ≢ codes ".")
    × (codes "a.txt" ≢ codes ".."))
is_string_valid_iff_example = is_string_valid_iff (codes "a.txt")

valid : is_string_valid (codes "a.txt") ≡ true
unfolding is_string_valid strspn contains eq_bytes
valid = refl

is_string_valid_safe_example :
    NonNul (codes "a.txt")
    × Without b'/' (codes "a.txt")
    × Without b',' (codes "a.txt")
    × (length (codes "a.txt") < file_name_len)
is_string_valid_safe_example = is_string_valid_safe (codes "a.txt") valid

directory_known : known (codes "d" ∷ []) (codes "d") ≡ true
unfolding known eq_bytes
directory_known = refl

names_plain : AllPlain (entry_names (codes "d") disk)
unfolding entry_names strip_prefix
names_plain = ((omega arith, tt), ((omega arith, tt), tt))

split_commas-get_files_list_example :
    let text = get_files_list (codes "d" ∷ []) (codes "d") disk in
    (entry_names (codes "d") disk ≢ [] → split_commas [] text ≡ entry_names (codes "d") disk)
    × (entry_names (codes "d") disk ≡ [] → text ≡ [])
split_commas-get_files_list_example =
    split_commas-get_files_list (codes "d" ∷ []) (codes "d") disk directory_known names_plain

init_file_info_partition_example :
    let r = init_file_info 1000001 (closed read) in
    let size : ℕ = 1000001 in
    (r.file_size ≡ size)
    × (1 ≤ r.last_chunk_size)
    × (r.last_chunk_size ≤ chunk_size)
    × (0 < size → (0 < r.chunks_num) × ((r.chunks_num - 1) * chunk_size + r.last_chunk_size ≡ size))
    × (size ≡ 0 → r.chunks_num ≡ 0)
init_file_info_partition_example = init_file_info_partition 1000001 (closed read) (omega arith)

chunks_of_lem_example : chunks_of 4000000001 ≡ 4001
chunks_of_lem_example = chunks_of_lem 4000000001 (omega arith)

-- From 2^53 on the last chunk can be lost.
inexact : chunks_of 9007199255000001 ≡ 9007199255
unfolding chunks_of
inexact = refl
