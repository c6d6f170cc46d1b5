-- ===== src/Files/Chunks.antt =====
-- The chunks of a file partition it.
use secure_cloud_storage.Common.{ℕ, ◌+◌, ◌-◌, ◌*◌, ◌^◌, ◌≤◌, ◌<◌, ◌≡◌, arith}
use secure_cloud_storage.Config.{chunk_size}
use secure_cloud_storage.Files.Doubles.{chunks_of_lem}
use secure_cloud_storage.Files.Manager.{FileManager, init_file_info}

-- For every size below 2^53 the chunk count and the last chunk's size describe the file exactly: a
-- file with bytes is all its chunks but one, full, and a last one of at least one byte and at most
-- a full chunk; the empty file has no chunk.
pub init_file_info_partition :
    (size : ℕ) (fm : FileManager)
    → size < 2 ^ 53
    → let r = init_file_info size fm in
      (r.file_size ≡ size)
      × (1 ≤ r.last_chunk_size)
      × (r.last_chunk_size ≤ chunk_size)
      × (0 < size
          → (0 < r.chunks_num) × ((r.chunks_num - 1) * chunk_size + r.last_chunk_size ≡ size))
      × (size ≡ 0 → r.chunks_num ≡ 0)
unfolding init_file_info
init_file_info_partition size fm small = rw (chunks_of_lem size small) (ground arith)
