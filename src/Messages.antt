-- ===== src/Messages.antt =====
-- The plaintext messages of src/messages: one module for each pair of source files.
pub mod Simple
pub mod Upload
pub mod Download
pub mod Listing
pub mod Delete
pub mod Rename
pub mod Generic
pub mod Authentication
