-- ===== src/Routing.antt =====
-- frontend/src/i18n/config.ts, frontend/src/middleware.ts and the redirect guards of
-- frontend/src/lib/security.ts and frontend/src/lib/auth.ts.
pub mod Locale
pub mod Ranking
pub mod Protection
pub mod Segments
pub mod Redirects
pub mod Headers
pub mod Nonce
pub mod Middleware
pub mod Gate
