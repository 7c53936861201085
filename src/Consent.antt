-- ===== src/Consent.antt =====
-- frontend/src/stores/consent-store.ts and the components that decide and gate on consent
-- (consent-banner.tsx, consent-manager.tsx, consent-gate.tsx under frontend/src/components/client).
pub mod Store
pub mod Panel
pub mod History
pub mod Laws
