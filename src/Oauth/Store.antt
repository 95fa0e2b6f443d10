-- ===== src/Oauth/Store.antt =====
-- internal/oauth/store.go: the methods of the store, each one a step under the store's lock. Its
-- state and its result are returned together.
pub mod Clients
pub mod Codes
pub mod Devices
pub mod Tokens
pub mod Sweep
pub mod Ops
pub mod Reports
pub mod Revocation
pub mod Expiry
pub mod SingleUse
pub mod Approval
pub mod Bounds
pub mod Keys
