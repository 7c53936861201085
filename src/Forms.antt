-- ===== src/Forms.antt =====
-- The helpers of the client's forms: frontend/src/lib/validation.ts and
-- frontend/src/lib/password-strength.ts.
pub mod Validation
pub mod Password
