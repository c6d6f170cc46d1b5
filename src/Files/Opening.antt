-- ===== src/Files/Opening.antt =====
-- Managers of files that are there to be read, and of new files to be written.
use secure_cloud_storage.Common.{ℕ, ◌≤◌, arith, ◌≡◌, refl, true, false, none, some, length}
use secure_cloud_storage.Config.{chunk_size}
use secure_cloud_storage.Memory.{Bytes}
use secure_cloud_storage.Files.{Disk, Entry, find, create}
use secure_cloud_storage.Files.Manager.{
  FileManager, read, write, file_manager, init_file_info, is_file_present, closed,
}
use secure_cloud_storage.Files.Reading.{at}

-- The manager of a file of the given path and content that is opened for reading.
abbrev pub read_manager : Bytes → Bytes → FileManager
read_manager path content =
    init_file_info (length content) (record (closed read) { stream = some path })

-- The manager of a new file of the given path, set up for the announced size.
abbrev pub write_manager : Bytes → ℕ → FileManager
write_manager path size = init_file_info size (record (closed write) { stream = some path })

pub read_manager-mode : (path content : Bytes) → (read_manager path content).open_mode ≡ read
unfolding init_file_info
read_manager-mode path content = refl

pub read_manager-stream : (path content : Bytes) → (read_manager path content).stream ≡ some path
unfolding init_file_info
read_manager-stream path content = refl

pub read_manager-size :
    (path content : Bytes) → (read_manager path content).file_size ≡ length content
unfolding init_file_info
read_manager-size path content = refl

pub read_manager-at :
    (path : Bytes) (e : Entry) → at (read_manager path e.content) 0 ≡ read_manager path e.content
unfolding init_file_info
read_manager-at path e = refl

pub write_manager-mode : (path : Bytes) (size : ℕ) → (write_manager path size).open_mode ≡ write
unfolding init_file_info
write_manager-mode path size = refl

pub write_manager-stream : (path : Bytes) (size : ℕ) → (write_manager path size).stream ≡ some path
unfolding init_file_info
write_manager-stream path size = refl

pub write_manager-last :
    (path : Bytes) (size : ℕ) → (write_manager path size).last_chunk_size ≤ chunk_size
unfolding init_file_info
write_manager-last path size = ground arith

-- The chunks depend on the size alone.
pub same_chunks :
    (path path' content : Bytes)
    → let r = read_manager path content in
      let s = write_manager path' (length content) in
      (r.chunks_num ≡ s.chunks_num) × (r.last_chunk_size ≡ s.last_chunk_size)
unfolding init_file_info
same_chunks path path' content = (refl, refl)

pub opened_to_read :
    (path : Bytes) (disk : Disk) (e : Entry)
    → find path disk ≡ some e
    → file_manager false path read disk ≡ (read_manager path e.content, disk)
unfolding file_manager
opened_to_read path disk e there = rw (there, file_manager)

pub is_file_present-none :
    (path : Bytes) (disk : Disk) → find path disk ≡ none → is_file_present path disk ≡ false
unfolding is_file_present
is_file_present-none path disk free = rw (free, is_file_present)

pub is_file_present-some :
    (path : Bytes) (disk : Disk) (e : Entry)
    → find path disk ≡ some e
    → is_file_present path disk ≡ true
unfolding is_file_present
is_file_present-some path disk e there = rw (there, is_file_present)

pub opened_to_write :
    (path : Bytes) (disk : Disk)
    → find path disk ≡ none
    → file_manager true path write disk
      ≡ (record (closed write) { stream = some path }, create path disk)
unfolding file_manager
opened_to_write path disk free = rw (is_file_present-none path disk free)
