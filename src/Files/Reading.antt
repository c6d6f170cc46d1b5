-- ===== src/Files/Reading.antt =====
-- Reading a file chunk by chunk, as the rounds of the sending loops do.
use secure_cloud_storage.Common.{
  ℕ, zero, suc, ◌+◌, ◌-◌, ◌*◌, ◌^◌, ◌≤◌, ◌<◌, ◌≡◌, refl, ap, ◌∙◌, some, ◌++◌, length, take, drop,
  arith, ◌==◌, if◌then◌else◌, length-append, length-take, length-drop, take-append,
}
use secure_cloud_storage.Config.{chunk_size}
use secure_cloud_storage.Memory.{Bytes, memcpy}
use secure_cloud_storage.Files.{Disk, Entry, find}
use secure_cloud_storage.Files.Manager.{FileManager, read, read_chunk, delivered, init_file_info}
use secure_cloud_storage.Files.Chunks.{init_file_info_partition}

-- The size of the chunk of round `i`.
abbrev pub size_at : FileManager → ℕ → ℕ
size_at fm i = if i == fm.chunks_num - 1 then fm.last_chunk_size else chunk_size

-- The bytes of the last so many rounds.
abbrev pub remaining : FileManager → ℕ → ℕ
remaining fm zero = 0
remaining fm (suc n) = n * chunk_size + fm.last_chunk_size

pub remaining-suc :
    (fm : FileManager) (left i : ℕ)
    → i + suc left ≡ fm.chunks_num
    → size_at fm i + remaining fm left ≡ remaining fm (suc left)
remaining-suc fm zero i h = ground arith
remaining-suc fm (suc n) i h = ground arith

pub size_at_le :
    (fm : FileManager) (i : ℕ) → fm.last_chunk_size ≤ chunk_size → size_at fm i ≤ chunk_size
size_at_le fm i h = ground arith

all_remaining :
    (fm : FileManager) (n size : ℕ)
    → n ≡ fm.chunks_num
    → 0 < n
    → (n - 1) * chunk_size + fm.last_chunk_size ≡ size
    → remaining fm n ≡ size
all_remaining fm zero size h some' total = absurd (omega arith)
all_remaining fm (suc n) size h some' total = omega arith

-- A file's chunks are its bytes.
pub all_chunks :
    (size : ℕ) (before : FileManager)
    → 0 < size
    → size < 2 ^ 53
    → let fm = init_file_info size before in
      (0 + remaining fm fm.chunks_num ≡ size) × (fm.last_chunk_size ≤ chunk_size)
all_chunks size before some' small =
    let fm = init_file_info size before in
    let (same, least, most, sum, none') = init_file_info_partition size before small in
    let (positive, total) = sum some' in
    (omega (arith, all_remaining fm fm.chunks_num size refl positive total), most)

abbrev pub at : FileManager → ℕ → FileManager
at fm k = record fm { position = k }

-- The next bytes of a file's content.
abbrev pub next_bytes : FileManager → Entry → ℕ → ℕ → Bytes
next_bytes fm e i k = take (size_at fm i) (drop k e.content)

module _ (fm : FileManager) (path : Bytes) (e : Entry) where
  pub length-next_bytes :
      (i k : ℕ) → k + size_at fm i ≤ length e.content → length (next_bytes fm e i k) ≡ size_at fm i
  length-next_bytes i k enough =
      omega (arith, length-take (size_at fm i) (drop k e.content), length-drop k e.content)

  -- A read that finds enough bytes fills the front of the buffer with them.
  pub read_chunk-some :
      (i k : ℕ) (buffer : Bytes) (disk : Disk)
      → fm.open_mode ≡ read
      → fm.stream ≡ some path
      → find path disk ≡ some e
      → k + size_at fm i ≤ length e.content
      → read_chunk (at fm k) buffer (size_at fm i) disk
        ≡ some (memcpy buffer 0 (next_bytes fm e i k), at fm (k + size_at fm i))
  unfolding read_chunk delivered
  read_chunk-some i k buffer disk mode open_at there enough =
      let got = next_bytes fm e i k in
      let found : read_chunk (at fm k) buffer (size_at fm i) disk
          ≡ some (memcpy buffer 0 got, at fm (k + length got)) =
        rw (mode, open_at, there) refl in
      found ∙ ap (λ n. some (memcpy buffer 0 got, at fm (k + n))) (length-next_bytes i k enough)

  -- The buffer of a round holds the bytes in front, and keeps its size.
  pub next_bytes-buffer :
      (i k : ℕ) (buffer : Bytes)
      → k + size_at fm i ≤ length e.content
      → size_at fm i ≤ length buffer
      → (take (size_at fm i) (memcpy buffer 0 (next_bytes fm e i k)) ≡ next_bytes fm e i k)
        × (length (memcpy buffer 0 (next_bytes fm e i k)) ≡ length buffer)
  unfolding memcpy
  next_bytes-buffer i k buffer enough fits =
      let got = next_bytes fm e i k in
      let all = length-next_bytes i k enough in
      let front : memcpy buffer 0 got ≡ got ++ drop (length got) buffer =
        ap (λ n. got ++ drop n buffer) (omega arith) in
      (
        rw front (take-append (size_at fm i) got (drop (length got) buffer) all),
        rw front (
            omega (
              arith,
              length-append got (drop (length got) buffer),
              length-drop (length got) buffer,
            )),
      )
