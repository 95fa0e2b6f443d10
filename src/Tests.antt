-- ===== src/Tests.antt =====
-- Concrete states and requests, at which the properties are applied.
pub mod Auth
pub mod Oauth
pub mod Grants
pub mod Endpoint
pub mod Pages
pub mod Devices
pub mod Access
pub mod Database
pub mod Chat
pub mod Sqltext
pub mod Tsv
