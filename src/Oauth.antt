-- ===== src/Oauth.antt =====
-- internal/oauth: the OAuth 2.0 authorisation server.
pub mod Types
pub mod Store
pub mod Pkce
pub mod Server
