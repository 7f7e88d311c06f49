-- ===== src/Redaction.antt =====
-- redaction.py: the redaction of texts and of streams.
pub mod Apply
pub mod Mask
pub mod Stream
pub mod Pieces
pub mod Streamed
pub mod Window
pub mod Matches
pub mod Scan
pub mod Compliance
pub mod Rich
pub mod Honest
pub mod Recorded
pub mod Tokenised
mod Examples
