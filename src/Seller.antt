-- ===== src/Seller.antt =====
-- frontend/src/lib/seller.ts: the answers of the seller API, and what the rows keep of them; and the
-- documents of the onboarding in frontend/src/components/client/seller.
pub mod Answers
pub mod Connect
pub mod Kyc
pub mod Previews
pub mod Uploads
pub mod Listing
pub mod Business
pub mod Wizard
pub mod WizardEvents
pub mod Submissions
pub mod FieldErrors
