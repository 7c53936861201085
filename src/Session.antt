-- ===== src/Session.antt =====
-- frontend/src/lib/auth.ts and the hooks of frontend/src/lib/api-client.ts: the session and its
-- calls.
pub mod Csrf
pub mod Readers
pub mod Hooks
pub mod Calls
pub mod Laws
pub mod LoginForm
pub mod Locks
