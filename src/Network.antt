-- ===== src/Network.antt =====
-- network/: percent-encoding, and the HTTPS session.
pub mod UrlEncoder
pub mod WinHttpClient
