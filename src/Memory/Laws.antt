-- ===== src/Memory/Laws.antt =====
-- Fields written one behind another, C strings, and fixed character arrays.
use secure_cloud_storage.Common.{
  ℕ, zero, suc, ◌+◌, ◌≤◌, ◌<◌, ◌≡◌, ◌≢◌, refl, ap, ◌∙◌, List, [], ◌∷◌, ◌++◌, some, length, drop,
  length-append, take-append, drop-append, drop-drop, append_assoc, length-replicate, length-drop,
  append-nil, arith,
}
use secure_cloud_storage.Memory.{Bytes, Cursor, read_at, start, put, put_all, strncpy, c_string}

-- No byte of a text is NUL.
abbrev pub NonNul : Bytes → Type 0
NonNul [] = Unit
NonNul (c ∷ s) = (c ≢ 0) × NonNul s

-- A cursor whose written part is `done` and whose untouched part is `rest`.
abbrev Written : Bytes → Bytes → Cursor
Written done rest = record { buffer = done ++ rest; position = length done }

put-Written :
    (field done rest : Bytes)
    → put field (Written done rest) ≡ Written (done ++ field) (drop (length field) rest)
unfolding put
put-Written field done rest =
    rw (take-append (length done) done rest refl, ← drop-drop (length done) (length field))
      (rw (drop-append (length done) done rest refl, length-append) (rw append_assoc))

abbrev pub total : List Bytes → ℕ
total [] = 0
total (f ∷ fs) = length f + total fs

abbrev pub joined : List Bytes → Bytes
joined [] = []
joined (f ∷ fs) = f ++ joined fs

put_all-Written :
    (fs : List Bytes) (done rest : Bytes)
    → put_all fs (Written done rest) ≡ Written (done ++ joined fs) (drop (total fs) rest)
unfolding put_all
put_all-Written [] done rest = rw (append-nil done)
put_all-Written (f ∷ fs) done rest = rw (put-Written f done rest) (
    put_all-Written fs (done ++ f) (drop (length f) rest)
    ∙ rw (append_assoc done f (joined fs), drop-drop (length f) (total fs) rest))

-- What a serializer leaves in its buffer: the fields in order, then what the buffer held.
pub put_all-start :
    (fs : List Bytes) (memory : Bytes)
    → (put_all fs (start memory)).buffer ≡ joined fs ++ drop (total fs) memory
put_all-start fs memory = ap (λ (c : Cursor). c.buffer) (put_all-Written fs [] memory)

length-joined : (fs : List Bytes) → length (joined fs) ≡ total fs
length-joined [] = refl
length-joined (f ∷ fs) = omega (arith, length-joined fs, length-append f (joined fs))

-- Fields that fit leave the size of the buffer alone: nothing is written past its end.
pub length-put_all :
    (fs : List Bytes) (memory : Bytes)
    → total fs ≤ length memory
    → length (put_all fs (start memory)).buffer ≡ length memory
length-put_all fs memory h = rw put_all-start (
    omega (
      arith,
      length-append (joined fs) (drop (total fs) memory),
      length-joined fs,
      length-drop (total fs) memory,
    ))

read_at-joined :
    (before : List Bytes) (f : Bytes) (after : List Bytes) (rest : Bytes) (n : ℕ)
    → length f ≡ n
    → read_at (joined (before ++ f ∷ after) ++ rest) (total before) n ≡ f
unfolding read_at
read_at-joined [] f after rest n h =
    rw (append_assoc f (joined after) rest) (take-append n f (joined after ++ rest) h)
read_at-joined (b ∷ before) f after rest n h =
    rw (append_assoc b (joined (before ++ f ∷ after)) rest, ← drop-drop (length b) (total before))
      (rw (drop-append (length b) b (joined (before ++ f ∷ after) ++ rest) refl)
        (read_at-joined before f after rest n h))

-- A field is read back from where it was written, whatever the buffer held before.
pub read_at-put_all :
    (before : List Bytes) (f : Bytes) (after : List Bytes) (memory : Bytes) (p n : ℕ)
    → total before ≡ p
    → length f ≡ n
    → read_at (put_all (before ++ f ∷ after) (start memory)).buffer p n ≡ f
read_at-put_all before f after memory p n e h =
    rw (put_all-start (before ++ f ∷ after) memory, ← e)
      (read_at-joined before f after (drop (total (before ++ f ∷ after)) memory) n h)

pub length-strncpy : (n : ℕ) (s : Bytes) → length (strncpy n s) ≡ n
unfolding strncpy
length-strncpy zero s = refl
length-strncpy (suc n) [] = ap suc (length-strncpy n [])
length-strncpy (suc n) (c ∷ s) = ground (arith, length-strncpy n s, length-replicate n zero)

pub c_string-strncpy :
    (n : ℕ) (s : Bytes) → NonNul s → length s < n → c_string (strncpy n s) ≡ some s
unfolding strncpy c_string
c_string-strncpy zero s h l = absurd (omega arith)
c_string-strncpy (suc n) [] h l = refl
c_string-strncpy (suc n) (c ∷ s) h l = ground (arith, c_string-strncpy n s h.1)

pub dropped_all : (n : ℕ) (s : Bytes) → length s ≤ n → drop n s ≡ []
dropped_all zero [] h = refl
dropped_all zero (c ∷ s) h = absurd (omega arith)
dropped_all (suc n) [] h = refl
dropped_all (suc n) (c ∷ s) h = dropped_all n s (omega arith)

-- Fields that fill the buffer leave nothing of it.
pub put_all-exact :
    (fs : List Bytes) (memory : Bytes)
    → length memory ≡ total fs
    → (put_all fs (start memory)).buffer ≡ joined fs
put_all-exact fs memory h =
    put_all-start fs memory
    ∙ ap (λ r. joined fs ++ r) (dropped_all (total fs) memory (omega arith))
    ∙ append-nil (joined fs)
