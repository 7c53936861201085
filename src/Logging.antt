-- ===== src/Logging.antt =====
-- frontend/src/lib/logger.ts and frontend/src/lib/sanitization.ts.
pub mod Luhn
pub mod Redaction
pub mod Cleaning
pub mod State
pub mod Identity
pub mod Queue
pub mod Delivery
pub mod Invariant
pub mod Runs
