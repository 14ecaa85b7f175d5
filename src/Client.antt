-- ===== src/Client.antt =====
-- internal/client: the command-line client that submits a deployment and waits for its outcome.
pub mod Credential
pub mod Redirect
pub mod Requests
pub mod Watch
