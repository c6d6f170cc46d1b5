-- ===== src/Client.antt =====
-- The client's side of a connection: src/modules/Client.cpp. Its members `m_username`, `m_counter`
-- and `m_session_key` are fields of the world, and the disk is the client's own.
pub mod Requests
pub mod Renaming
pub mod Deleting
pub mod Listing
pub mod Leaving
pub mod Replies
pub mod Uploading
pub mod Downloading
pub mod Authentication
pub mod Checking
pub mod Accepting
pub mod Session
pub mod Keeping
pub mod Files
