-- ===== src/Files/Manager.antt =====
-- src/utils/FileManager.cpp: one stream on one file, read or written in chunks.
use secure_cloud_storage.Common.{
  ℕ, ◌+◌, ◌%◌, Bool, true, false, Option, none, some, [], length, take, drop, ◌==◌, if◌then◌else◌,
}
use secure_cloud_storage.Config.{chunk_size}
use secure_cloud_storage.Memory.{Bytes, memcpy}
use secure_cloud_storage.Files.Doubles.{chunks_of}
use secure_cloud_storage.Files.{Disk, find, create, append_content}

pub data OpenMode : Type 0 where
  read write : OpenMode

-- `stream` is the path of the open stream, `none` while it is not open; `position` is where the
-- next read starts.
pub record FileManager : Type 0 where
  pub open_mode : OpenMode
  pub stream : Option Bytes
  pub position : ℕ
  pub file_size : ℕ
  pub chunks_num : ℕ
  pub last_chunk_size : ℕ

-- The number of chunks is the size over the chunk size, computed in `double` and rounded up.
unfoldable pub init_file_info : ℕ → FileManager → FileManager
init_file_info size fm = record fm {
  file_size = size;
  chunks_num = chunks_of size;
  last_chunk_size = if size % chunk_size == 0 then chunk_size else size % chunk_size;
}

abbrev pub closed : OpenMode → FileManager
closed mode = record {
  open_mode = mode;
  stream = none;
  position = 0;
  file_size = 0;
  chunks_num = 0;
  last_chunk_size = 0;
}

unfoldable pub is_file_present : Bytes → Disk → Bool
is_file_present path disk = elim (find path disk) [ none ↦ false | some e ↦ true ]

-- The constructor, which calls `openFile`; the errors that it catches leave the stream closed.
-- `creatable` tells whether the system lets the file be created.
unfoldable pub file_manager : Bool → Bytes → OpenMode → Disk → FileManager × Disk
unfolding init_file_info is_file_present
file_manager creatable path read disk = elim (find path disk) [
  | none ↦ (closed read, disk)
  | some e ↦ (init_file_info (length e.content) (record (closed read) { stream = some path }), disk)
]
file_manager creatable path write disk =
    if is_file_present path disk
    then (closed write, disk)
    else if creatable
    then (record (closed write) { stream = some path }, create path disk)
    else (closed write, disk)

-- The bytes that a read of `size` at the stream's position delivers.
unfoldable pub delivered : FileManager → ℕ → Disk → Bytes
delivered fm size disk = elim fm.stream [
  | none ↦ []
  | some path ↦ elim (find path disk) [
    | none ↦ []
    | some e ↦ take size (drop fm.position e.content)
  ]
]

-- The result is `none` for -1; else the buffer, whose tail a short read leaves as it was, and the
-- stream behind what was read.
unfoldable pub read_chunk : FileManager → Bytes → ℕ → Disk → Option (Bytes × FileManager)
unfolding delivered memcpy
read_chunk fm buffer size disk =
    let got = delivered fm size disk in
    elim fm.open_mode [
      | read ↦ some (memcpy buffer 0 got, record fm { position = fm.position + length got })
      | write ↦ none
    ]

-- `none` for -1. A stream that is not open takes nothing.
unfoldable pub write_chunk : FileManager → Bytes → ℕ → Disk → Option Disk
write_chunk fm buffer size disk =
    let written = elim fm.stream as (λ _. Disk) [
      | none ↦ disk
      | some path ↦ append_content path (take size buffer) disk
    ] in
    elim fm.open_mode [ read ↦ none | write ↦ some written ]
