-- ===== src/Server.antt =====
-- The server's side of a connection: src/modules/Server.cpp over the socket of
-- src/utils/SocketManager.cpp and the cipher of src/crypto/AesGcm.cpp.
pub mod Keeps
pub mod Handlers
pub mod Session
pub mod Uploading
pub mod Downloading
pub mod Listing
pub mod Leaving
pub mod Serving
pub mod Authentication
pub mod Agreement
pub mod Signing
pub mod Accepting
pub mod Renaming
pub mod Deleting
pub mod Termination
pub mod Authentic
pub mod Storage
