-- ===== src/Tests.antt =====
-- The theorems applied to concrete inputs.
mod Platform
mod Messages
mod Files
mod Server
mod Requests
mod Listing
pub mod Transfers
mod Authentication
mod Client
