-- ===== src/Server/Storage.antt =====
-- What the handlers do to the stored files.
pub mod Unchanged
pub mod Uploads
