-- ===== src/Oauth/Server.antt =====
-- internal/oauth/server.go, errors.go, token.go, device.go and revoke.go: the server's state and the
-- endpoints that issue and revoke tokens. What the server reads from outside a request, the random
-- draws and the clock, comes with it as arguments.
pub mod Errors
pub mod Issue
pub mod CodeGrant
pub mod RefreshGrant
pub mod DeviceGrant
pub mod Endpoint
pub mod Session
pub mod Accounts
pub mod Redirect
pub mod Csrf
pub mod SignIn
pub mod Scope
pub mod Authorize
pub mod Register
pub mod UserCode
pub mod Device
