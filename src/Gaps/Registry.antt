-- ===== src/Gaps/Registry.antt =====
-- The registered contract gaps of frontend/src/lib/api/contract-gaps.ts, in their order.
use jolarca.Common.{String, List, [], ◌∷◌, ◌++◌}

pub data Method : Type 0 where
  get post patch delete : Method

pub record ContractGap : Type 0 where
  pub id : String
  pub method : Method
  pub path : String
  pub owner_app : String
  pub needed_for : String

abbrev gap : (id : String) → Method → (path owner_app needed_for : String) → ContractGap
gap id method path owner_app needed_for = record {
  id = id;
  method = method;
  path = path;
  owner_app = owner_app;
  needed_for = needed_for;
}

abbrev order_gaps : List ContractGap
order_gaps =
    gap "GAP-Y01" post "/api/v1/orders/{id}/payment-intent/" "payments_app"
      "embedded Stripe Payment Element"
    ∷ gap "GAP-U04" post "/api/v1/auth/totp/enroll/" "users_app" "2FA enrollment (MVP-U2)"
    ∷ gap "GAP-U05" post "/api/v1/auth/password-reset/" "users_app"
        "password reset request (constant-time response, no user enumeration)"
    ∷ []

abbrev seller_gaps : List ContractGap
seller_gaps =
    gap "GAP-V01" post "/api/v1/sellers/onboard/" "sellers_app"
      "seller onboarding business info (incl. base64 WebP logo, ≤2MB)"
    ∷ gap "GAP-V02" get "/api/v1/sellers/me/" "sellers_app"
        "dashboard: KYC-lite/VIES + Connect status"
    ∷ gap "GAP-V03" post "/api/v1/sellers/stripe-connect/" "sellers_app"
        "Stripe Connect Express account creation + onboarding URL (platform fee configured server-side; frontend never talks to Connect directly)"
    ∷ gap "GAP-V04" post "/api/v1/sellers/listings/" "sellers_app"
        "listing creation (products_app owns catalog writes via services)"
    ∷ gap "GAP-V07" post "/api/v1/sellers/documents/" "sellers_app"
        "KYC document upload (multipart → S3 via backend; no client-side processing of sensitive images)"
    ∷ gap "GAP-V08" patch "/api/v1/sellers/listings/{id}/" "sellers_app" "listing editing"
    ∷ gap "GAP-V09" get "/api/v1/sellers/me/stats/" "sellers_app"
        "dashboard stats cards (sales, pending orders, listings, balance)"
    ∷ gap "GAP-V10" get "/api/v1/sellers/me/payouts/" "sellers_app"
        "payout status/balance/next payout + Express dashboard link (data sourced from payments_app internally)"
    ∷ gap "GAP-V11" get "/api/v1/sellers/me/orders/" "sellers_app"
        "dashboard recent-orders table, server-side pagination"
    ∷ gap "GAP-V12" get "/api/v1/sellers/me/shipping-profiles/" "sellers_app"
        "listing form shipping-profile selection"
    ∷ gap "GAP-V13" get "/api/v1/sellers/" "sellers_app"
        "public seller directory (/sellers index page)"
    ∷ []

abbrev compliance_gaps : List ContractGap
compliance_gaps =
    gap "GAP-C01" post "/api/v1/compliance/consent/" "compliance_app"
      "consent banner decisions (audited, immutable)"
    ∷ gap "GAP-C04" get "/api/v1/compliance/consent/" "compliance_app"
        "consent history on the account consent page"
    ∷ gap "GAP-C02" post "/api/v1/compliance/export/" "compliance_app"
        "Art. 20 portability request (self-service)"
    ∷ gap "GAP-C03" post "/api/v1/compliance/erasure/" "compliance_app"
        "Art. 17 erasure request (self-service)"
    ∷ gap "GAP-M01" get "/api/v1/admin/moderation/queue/" "core + owners" "moderation queue UI"
    ∷ gap "GAP-M02" post "/api/v1/admin/moderation/{id}/decision/" "core + owners"
        "takedown/approve actions (audit-emitting)"
    ∷ []

abbrev moderation_gaps : List ContractGap
moderation_gaps =
    gap "GAP-M03" get "/api/v1/admin/stats/" "core"
      "admin dashboard stats (pending verifications, active sellers, flagged listings, open compliance requests)"
    ∷ gap "GAP-M04" get "/api/v1/admin/sellers/" "sellers_app"
        "seller verification queue with status filters"
    ∷ gap "GAP-M05" get "/api/v1/admin/sellers/{id}/" "sellers_app"
        "seller detail: business info, authenticated document URLs, verification history"
    ∷ gap "GAP-M06" post "/api/v1/admin/sellers/{id}/decision/" "sellers_app"
        "approve/reject/hold (audit-emitting; rejection email with reason)"
    ∷ gap "GAP-M07" get "/api/v1/admin/compliance/requests/" "compliance_app"
        "GDPR Art. 15/17/20 request queue for admins"
    ∷ gap "GAP-M08" post "/api/v1/admin/compliance/requests/{id}/fulfill/" "compliance_app"
        "mark export/erasure fulfilled (audit-emitting; export package download URL)"
    ∷ gap "GAP-M09" post "/api/v1/admin/audit/" "core"
        "client-emitted audit events (server-side mutations also emit their own)"
    ∷ gap "GAP-M10" patch "/api/v1/admin/moderation/{id}/corrections/" "products_app"
        "minor listing corrections during moderation (audit-emitting)"
    ∷ gap "GAP-M11" get "/api/v1/admin/orders/" "orders_app"
        "admin orders overview (support + payment investigations)"
    ∷ gap "GAP-M12" get "/api/v1/admin/users/" "users_app"
        "admin user management (search, status, 2FA resets)"
    ∷ gap "GAP-M13" get "/api/v1/admin/analytics/" "core"
        "marketplace analytics (GMV, conversion, queue SLAs)"
    ∷ []

abbrev funeral_gaps : List ContractGap
funeral_gaps =
    gap "GAP-F01" post "/api/v1/funeral-services/consultation-requests/" "funeral_services_app"
      "consultation lead capture (name + one contact method; PII kept server-side only)"
    ∷ gap "GAP-F02" get "/api/v1/funeral-services/" "funeral_services_app"
        "directory with location/service-type/language filters (no prices in payload)"
    ∷ gap "GAP-F03" get "/api/v1/funeral-services/{slug}/" "funeral_services_app"
        "funeral home profile: services, gallery, team, reviews, coordinates"
    ∷ []

abbrev core_gaps : List ContractGap
core_gaps =
    gap "GAP-L01" post "/api/v1/logs/" "core"
      "client structured log ingestion (PII-redacted, batched; logger.ts transport)"
    ∷ gap "GAP-A01" post "/api/v1/analytics/vitals/" "core"
        "Core Web Vitals collector (consent-gated, batched beacon; web-vitals.tsx transport)"
    ∷ gap "GAP-I01" get "/api/v1/i18n/{locale}/" "core"
        "server-side locale strings with static-JSON fallback (src/i18n/config.ts)"
    ∷ []

unfoldable pub contract_gaps : List ContractGap
contract_gaps =
    order_gaps ++ seller_gaps ++ compliance_gaps ++ moderation_gaps ++ funeral_gaps ++ core_gaps
