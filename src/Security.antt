-- ===== src/Security.antt =====
-- security/: the file of the protected API key.
pub mod Envelope
pub mod SecureString
pub mod DpapiSecretStore
