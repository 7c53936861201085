-- ===== src/Checkout.antt =====
-- frontend/src/lib/checkout.ts and the calls and recovery of
-- frontend/src/components/client/checkout/checkout-provider.tsx.
pub mod Delivery
pub mod Orders
pub mod Formats
pub mod Laws
pub mod Payments
pub mod Flow
pub mod FlowEvents
pub mod Steps
pub mod OrderSteps
pub mod Requests
pub mod Fixed
