-- ===== src/Files.antt =====
-- The directory that the server keeps, as the standard library shows it: `ifstream`, `ofstream`,
-- `remove`, `rename` and `std::filesystem` on paths that are byte strings. A path names at most
-- the first entry that bears it. Permissions and full disks are the argument `creatable`.
use Prim.Native.Char.{code}
use Prim.Native.String.{String}
use secure_cloud_storage.Common.{
  ℕ, ◌+◌, Bool, true, false, Option, none, some, List, [], ◌∷◌, ◌++◌, ◌==◌, eq_bytes, if◌then◌else◌,
}
use secure_cloud_storage.Memory.{Bytes}
pub mod Laws
pub mod Doubles
pub mod Manager
pub mod Chunks
pub mod Opening
pub mod Reading
pub mod Names
pub mod Listing

-- The bytes of an ASCII literal.
abbrev pub codes : String → Bytes
codes String.[] = []
codes (String.◌∷◌ c s) = code c ∷ codes s

-- What a path leads to: its bytes, whether they are a regular file's, and whether the path itself
-- is a symbolic link.
pub record Entry : Type 0 where
  pub content : Bytes
  pub regular : Bool
  pub symlink : Bool

abbrev pub Disk : Type 0
Disk = List (Bytes × Entry)

unfoldable pub find : Bytes → Disk → Option Entry
find path [] = none
find path ((p, e) ∷ disk) = if eq_bytes p path then some e else find path disk

abbrev pub fresh_entry : Bytes → Entry
fresh_entry content = record { content = content; regular = true; symlink = false }

-- A new file at the end of the directory.
unfoldable pub create : Bytes → Disk → Disk
create path disk = disk ++ ((path, fresh_entry []) ∷ [])

unfoldable pub append_content : Bytes → Bytes → Disk → Disk
append_content path more [] = []
append_content path more ((p, e) ∷ disk) =
    if eq_bytes p path
    then (p, record e { content = e.content ++ more }) ∷ disk
    else (p, e) ∷ append_content path more disk

-- `remove(path)`, after which the path is gone.
unfoldable pub remove : Bytes → Disk → Disk
remove path [] = []
remove path ((p, e) ∷ disk) =
    let rest = remove path disk in if eq_bytes p path then rest else (p, e) ∷ rest

-- `rename(old, new)`
unfoldable pub rename : Bytes → Bytes → Disk → Disk
rename old new [] = []
rename old new ((p, e) ∷ disk) =
    let rest = rename old new disk in if eq_bytes p old then (new, e) ∷ rest else (p, e) ∷ rest
