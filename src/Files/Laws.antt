-- ===== src/Files/Laws.antt =====
-- What each operation on the directory does to every path.
use secure_cloud_storage.Common.{
  ◌≡◌, ◌≢◌, refl, ◌∙◌, eq_bytes_refl, Option, none, some, [], ◌∷◌, ◌++◌, arith, append_assoc,
  append-nil, eq_bytes, eq_bytes_iff, if◌then◌else◌,
}
use secure_cloud_storage.Memory.{Bytes}
use secure_cloud_storage.Files.{
  Disk, Entry, find, fresh_entry, create, append_content, remove, rename,
}
use mathlib.Core.Option

abbrev pub or_new : Option Entry → Entry → Option Entry
or_new none e = some e
or_new (some d) e = some d

pub find-create :
    (path q : Bytes) (disk : Disk)
    → find q (create path disk)
      ≡ (if eq_bytes path q then or_new (find q disk) (fresh_entry []) else find q disk)
unfolding find create
find-create path q [] = refl
find-create path q ((p, e) ∷ disk) = ground (arith, find-create path q disk)

abbrev pub extended : Bytes → Entry → Entry
extended more e = record e { content = e.content ++ more }

pub find-append_content :
    (path q more : Bytes) (disk : Disk)
    → find q (append_content path more disk)
      ≡ (if eq_bytes path q then Option.map (extended more) (find q disk) else find q disk)
unfolding find append_content
find-append_content path q more [] = ground arith
find-append_content path q more ((p, e) ∷ disk) = ground (
  arith,
  find-append_content path q more disk,
  eq_bytes_iff p path,
  eq_bytes_iff p q,
  eq_bytes_iff path q,
)

pub find-remove :
    (path q : Bytes) (disk : Disk)
    → find q (remove path disk) ≡ (if eq_bytes path q then none else find q disk)
unfolding find remove
find-remove path q [] = ground arith
find-remove path q ((p, e) ∷ disk) =
    ground
      (arith, find-remove path q disk, eq_bytes_iff p path, eq_bytes_iff p q, eq_bytes_iff path q)

-- A file that is renamed to a free name: the new name has what the old one had, and the old name
-- is free.
pub find-rename :
    (old new q : Bytes) (disk : Disk)
    → find new disk ≡ none
    → old ≢ new
    → find q (rename old new disk)
      ≡ (if eq_bytes new q then find old disk else if eq_bytes old q then none else find q disk)
unfolding find rename
find-rename old new q [] free ne = ground arith
find-rename old new q ((p, e) ∷ disk) free ne = ground (
  arith,
  find-rename old new q disk,
  eq_bytes_iff p old,
  eq_bytes_iff p new,
  eq_bytes_iff p q,
  eq_bytes_iff old q,
  eq_bytes_iff new q,
  eq_bytes_iff old new,
)

pub append_content-append :
    (path a b : Bytes) (disk : Disk)
    → append_content path b (append_content path a disk) ≡ append_content path (a ++ b) disk
unfolding append_content
append_content-append path a b [] = refl
append_content-append path a b ((q, e) ∷ disk) =
    ground (arith, append_content-append path a b disk, append_assoc e.content a b)

pub append_content-nil : (path : Bytes) (disk : Disk) → append_content path [] disk ≡ disk
unfolding append_content
append_content-nil path [] = refl
append_content-nil path ((q, e) ∷ disk) =
    ground (arith, append_content-nil path disk, append-nil e.content)

-- A new file that some content is appended to.
pub find-created :
    (path content : Bytes) (disk : Disk)
    → find path disk ≡ none
    → find path (append_content path content (create path disk)) ≡ some (fresh_entry content)
find-created path content disk free =
    find-append_content path path content (create path disk)
    ∙ (rw (eq_bytes_refl path, find-create path path disk, eq_bytes_refl path, free))
