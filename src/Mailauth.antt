-- ===== src/Mailauth.antt =====
-- Package mailauth: DMARC records, the DNS tree walk, and identifier alignment.
pub mod Spf
pub mod Dkim
pub mod Dmarc
pub mod TreeWalk
pub mod Align
mod Examples
