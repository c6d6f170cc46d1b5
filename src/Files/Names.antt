-- ===== src/Files/Names.antt =====
-- `FileManager::isStringValid` of src/utils/FileManager.cpp: the names that the client lets pass.
use secure_cloud_storage.Common.{
  ℕ, suc, ◌<◌, ◌≤◌, ◌≡◌, ◌≢◌, ◌↔◌, refl, Bool, true, false, ◌||◌, [], ◌∷◌, length, arith, ltb, leb,
  ◌==◌, eq_bytes, eq_bytes_iff, if◌then◌else◌,
}
use secure_cloud_storage.Config.{file_name_len}
use secure_cloud_storage.Memory.{Bytes}
use secure_cloud_storage.Memory.Laws.{NonNul}
use secure_cloud_storage.Files.{codes}

abbrev pub whitelist : Bytes
whitelist = codes "abcdefghijklmnopqrstuvwxyzABCDEFGHIJKLMNOPQRSTUVWXYZ1234567890_-.@"

unfoldable pub contains : Bytes → ℕ → Bool
contains [] c = false
contains (x ∷ xs) c = (x == c) || contains xs c

-- `strspn(s, accept)`: how many bytes at the front of `s` are in `accept`. The search ends at the
-- NUL of the C string, since no NUL is in `accept`.
unfoldable pub strspn : Bytes → Bytes → ℕ
strspn [] accept = 0
strspn (c ∷ s) accept = let rest = strspn s accept in if contains accept c then suc rest else 0

unfoldable pub is_string_valid : Bytes → Bool
is_string_valid s =
    if ltb (strspn s whitelist) (length s)
    then false
    else if eq_bytes s []
    then false
    else if leb file_name_len (length s)
    then false
    else if eq_bytes s (codes ".") || eq_bytes s (codes "..")
    then false
    else true

-- Every byte is in the white list.
abbrev pub AllListed : Bytes → Type 0
AllListed [] = Unit
AllListed (c ∷ s) = (contains whitelist c ≡ true) × AllListed s

strspn_le : (s accept : Bytes) → strspn s accept ≤ length s
unfolding strspn
strspn_le [] accept = omega arith
strspn_le (c ∷ s) accept = ground (arith, strspn_le s accept)

strspn_all : (s : Bytes) → (length s ≤ strspn s whitelist) ↔ AllListed s
unfolding strspn
strspn_all [] = (λ h. tt, λ h. omega arith)
strspn_all (c ∷ s) = (
  λ h. let p = listed_head h in (p.0, (strspn_all s).0 p.1),
  λ (p, q). whole p ((strspn_all s).1 q),
)
  where
    listed_head :
        suc (length s) ≤ strspn (c ∷ s) whitelist
        → (contains whitelist c ≡ true) × (length s ≤ strspn s whitelist)
    listed_head h = ground arith

    whole :
        contains whitelist c ≡ true
        → length s ≤ strspn s whitelist
        → suc (length s) ≤ strspn (c ∷ s) whitelist
    whole p q = ground arith

-- The guards of the function, one by one.
guards :
    (s : Bytes)
    → is_string_valid s ≡ true
    → (length s ≤ strspn s whitelist)
      × (s ≢ [])
      × (length s < file_name_len)
      × (s ≢ codes ".")
      × (s ≢ codes "..")
unfolding is_string_valid
guards s h =
    ground (arith, eq_bytes_iff s [], eq_bytes_iff s (codes "."), eq_bytes_iff s (codes ".."))

passes :
    (s : Bytes)
    → length s ≤ strspn s whitelist
    → s ≢ []
    → length s < file_name_len
    → s ≢ codes "."
    → s ≢ codes ".."
    → is_string_valid s ≡ true
unfolding is_string_valid
passes s h empty fits dot dots =
    ground (arith, eq_bytes_iff s [], eq_bytes_iff s (codes "."), eq_bytes_iff s (codes ".."))

some_byte : (s : Bytes) → s ≢ [] → 0 < length s
some_byte [] h = absurd (h refl)
some_byte (c ∷ s) h = omega arith

no_byte : (s : Bytes) → 0 < length s → s ≢ []
no_byte [] h e = absurd (omega arith)
no_byte (c ∷ s) h e = cc

-- A name is valid exactly if all its bytes are in the white list, it has at least one and at most
-- 34 of them, and it is neither `.` nor `..`.
pub is_string_valid_iff :
    (s : Bytes)
    → (is_string_valid s ≡ true) ↔ (
        AllListed s
        × (0 < length s)
        × (length s < file_name_len)
        × (s ≢ codes ".")
        × (s ≢ codes ".."))
is_string_valid_iff s = (
  λ h.
      let (listed, empty, fits, dot, dots) = guards s h in
      ((strspn_all s).0 listed, some_byte s empty, fits, dot, dots),
  λ (listed, some, fits, dot, dots).
      passes s ((strspn_all s).1 listed) (no_byte s some) fits dot dots,
)

listed_ne : (c : ℕ) → contains whitelist c ≡ true → (c ≢ 0) × (c ≢ b'/') × (c ≢ b',')
unfolding contains
listed_ne c h = (λ e. excluded 0 refl e, λ e. excluded b'/' refl e, λ e. excluded b',' refl e)
  where
    excluded : (k : ℕ) → contains whitelist k ≡ false → c ≢ k
    excluded k out e = cc

-- No byte is `k`.
abbrev pub Without : ℕ → Bytes → Type 0
Without k [] = Unit
Without k (c ∷ s) = (c ≢ k) × Without k s

AllListed-Without : (s : Bytes) → AllListed s → NonNul s × Without b'/' s × Without b',' s
AllListed-Without [] h = (tt, tt, tt)
AllListed-Without (c ∷ s) (h, hs) =
    let (nul, slash, comma) = listed_ne c h in
    let (nuls, slashes, commas) = AllListed-Without s hs in
    ((nul, nuls), (slash, slashes), (comma, commas))

-- A valid name fits the fields of the messages with its NUL, holds no NUL itself, no path
-- separator and no comma. So it is carried whole, stays in the user's directory, and is told
-- apart in a list of names.
pub is_string_valid_safe :
    (s : Bytes)
    → is_string_valid s ≡ true
    → NonNul s × Without b'/' s × Without b',' s × (length s < file_name_len)
is_string_valid_safe s h =
    let (listed, some, fits, dot, dots) = (is_string_valid_iff s).0 h in
    let (nuls, slashes, commas) = AllListed-Without s listed in (nuls, slashes, commas, fits)
