-- ===== src/Files/Listing.antt =====
-- `FileManager::getFilesList` of src/utils/FileManager.cpp: the names in a directory, joined by
-- commas.
use secure_cloud_storage.Common.{
  ℕ, ◌≡◌, ◌≢◌, refl, ap, sym, ◌∙◌, append-nil, append_assoc, Bool, true, false, Option, none, some,
  List, [], ◌∷◌, ◌++◌, ◌||◌, arith, ◌==◌, eq_bytes, if◌then◌else◌,
}
use secure_cloud_storage.Memory.{Bytes}
use secure_cloud_storage.Files.{Disk, codes}
use secure_cloud_storage.Files.Names.{Without}

-- What follows `prefix` in a text, if that begins with it.
unfoldable pub strip_prefix : Bytes → Bytes → Option Bytes
strip_prefix [] s = some s
strip_prefix (a ∷ p) [] = none
strip_prefix (a ∷ p) (b ∷ s) = if a == b then strip_prefix p s else none

-- The names of the directory's entries, in the order of the iteration: the paths of the form
-- `path/name`.
unfoldable pub entry_names : Bytes → Disk → List Bytes
unfolding strip_prefix
entry_names path [] = []
entry_names path ((p, e) ∷ disk) =
    let rest = entry_names path disk in
    elim (strip_prefix (path ++ codes "/") p) [ none ↦ rest | some name ↦ name ∷ rest ]

-- `filesString += name + ","`
unfoldable pub with_commas : List Bytes → Bytes
with_commas [] = []
with_commas (name ∷ names) = name ++ (codes "," ++ with_commas names)

-- `pop_back`
unfoldable pub pop_back : Bytes → Bytes
pop_back [] = []
pop_back (c ∷ []) = []
pop_back (c ∷ (d ∷ s)) = c ∷ pop_back (d ∷ s)

unfoldable pub known : List Bytes → Bytes → Bool
known [] path = false
known (d ∷ directories) path = eq_bytes d path || known directories path

-- The result for a directory that is not there is the text "error".
unfoldable pub get_files_list : List Bytes → Bytes → Disk → Bytes
unfolding known
get_files_list directories path disk =
    if known directories path then pop_back (with_commas (entry_names path disk)) else codes "error"

-- Reading such a list: the text up to each comma is one name.
unfoldable pub split_commas : Bytes → Bytes → List Bytes
split_commas name [] = name ∷ []
split_commas name (c ∷ s) =
    let next = name ∷ split_commas [] s in
    let more = split_commas (name ++ (c ∷ [])) s in if c == b',' then next else more

-- The names of a list, each without a comma.
abbrev pub AllPlain : List Bytes → Type 0
AllPlain [] = Unit
AllPlain (name ∷ names) = Without b',' name × AllPlain names

-- The list without its last comma, by recursion.
joined : List Bytes → Bytes
joined [] = []
joined (name ∷ []) = name
joined (name ∷ (n ∷ names)) = name ++ (b',' ∷ joined (n ∷ names))

pop_back-cons : (c : ℕ) (s : Bytes) → s ≢ [] → pop_back (c ∷ s) ≡ c ∷ pop_back s
unfolding pop_back
pop_back-cons c [] h = absurd (h refl)
pop_back-cons c (d ∷ s) h = refl

append-ne-nil : (s t : Bytes) → t ≢ [] → s ++ t ≢ []
append-ne-nil [] t h e = h e
append-ne-nil (c ∷ s) t h e = cc

pop_back-append : (s t : Bytes) → t ≢ [] → pop_back (s ++ t) ≡ s ++ pop_back t
pop_back-append [] t h = refl
pop_back-append (c ∷ s) t h =
    pop_back-cons c (s ++ t) (append-ne-nil s t h) ∙ ap (λ l. c ∷ l) (pop_back-append s t h)

with_commas-ne-nil : (name : Bytes) (names : List Bytes) → with_commas (name ∷ names) ≢ []
unfolding with_commas
with_commas-ne-nil name names = append-ne-nil name (b',' ∷ with_commas names) (λ e. cc)

pop_back-with_commas : (names : List Bytes) → pop_back (with_commas names) ≡ joined names
unfolding with_commas joined pop_back
pop_back-with_commas [] = refl
pop_back-with_commas (name ∷ []) = pop_back-append name (codes ",") (λ e. cc) ∙ append-nil name
pop_back-with_commas (name ∷ (n ∷ names)) =
    pop_back-append name (b',' ∷ with_commas (n ∷ names)) (λ e. cc)
    ∙ ap (λ l. name ++ l)
        (pop_back-cons b',' (with_commas (n ∷ names)) (with_commas-ne-nil n names)
          ∙ ap (λ l. b',' ∷ l) (pop_back-with_commas (n ∷ names)))

split_commas-last :
    (done name : Bytes) → Without b',' name → split_commas done name ≡ (done ++ name) ∷ []
unfolding split_commas
split_commas-last done [] h = ap (λ l. l ∷ []) (sym (append-nil done))
split_commas-last done (c ∷ name) (h, hs) =
    (let rest = split_commas-last (done ++ (c ∷ [])) name hs in ground arith)
    ∙ ap (λ l. l ∷ []) (append_assoc done (c ∷ []) name)

split_commas-comma :
    (done name s : Bytes)
    → Without b',' name
    → split_commas done (name ++ (b',' ∷ s)) ≡ (done ++ name) ∷ split_commas [] s
unfolding split_commas
split_commas-comma done [] s h = ap (λ l. l ∷ split_commas [] s) (sym (append-nil done))
split_commas-comma done (c ∷ name) s (h, hs) =
    (let rest = split_commas-comma (done ++ (c ∷ [])) name s hs in ground arith)
    ∙ ap (λ l. l ∷ split_commas [] s) (append_assoc done (c ∷ []) name)

split_commas-joined :
    (name : Bytes) (names : List Bytes)
    → AllPlain (name ∷ names)
    → split_commas [] (joined (name ∷ names)) ≡ name ∷ names
unfolding joined
split_commas-joined name [] (h, hs) = split_commas-last [] name h
split_commas-joined name (n ∷ names) (h, hs) =
    split_commas-comma [] name (joined (n ∷ names)) h
    ∙ ap (λ l. name ∷ l) (split_commas-joined n names hs)

-- The list of a directory that has entries, none with a comma in its name, is a text from which
-- the names can be read again, all of them and in order. An empty directory gives the empty text.
pub split_commas-get_files_list :
    (directories : List Bytes) (path : Bytes) (disk : Disk)
    → known directories path ≡ true
    → AllPlain (entry_names path disk)
    → let text = get_files_list directories path disk in
      (entry_names path disk ≢ [] → split_commas [] text ≡ entry_names path disk)
      × (entry_names path disk ≡ [] → text ≡ [])
unfolding get_files_list joined
split_commas-get_files_list directories path disk there plain =
    let text : get_files_list directories path disk ≡ joined (entry_names path disk) =
      rw there (pop_back-with_commas (entry_names path disk)) in
    rw (text) (readable (entry_names path disk) plain)
  where
    readable :
        (names : List Bytes)
        → AllPlain names
        → (names ≢ [] → split_commas [] (joined names) ≡ names) × (names ≡ [] → joined names ≡ [])
    readable [] h = (λ ne. absurd (ne refl), λ e. ap joined e)
    readable (name ∷ names) h = (λ ne. split_commas-joined name names h, λ e. cc)
