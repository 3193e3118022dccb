-- ===== src/Canon.antt =====
-- internal/canon: canonical encoding. A Go `bytes.Buffer` is the list of the bytes written so far,
-- and a function that appends to it is the function that gives the appended bytes.
pub mod Hex
pub mod Utf8
pub mod Encode
pub mod Reader
pub mod RoundTrip
pub mod Leads
pub mod Collision
pub mod Document
pub mod Latch
