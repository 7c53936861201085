-- ===== src/Admin/Decisions.antt =====
-- The actions of a moderator and their audit events: `logAdminAction`, `decideSeller`,
-- `decideListing`, `correctListing`, `fulfillComplianceRequest`. A run keeps the requests that it
-- sends and the warnings that it logs, in order.
use jolarca.Common.{String, Option, some, List, [], ◌∷◌, ◌++◌, ◌<>◌, if◌then◌else◌}
use jolarca.Common.Text.{is_empty, or_undefined}
use jolarca.Errors.{Result, ok, throw}
use jolarca.Http.{Fetched, Call, settled, rejected, is_ok, failure}

pub data TargetType : Type 0 where
  seller listing compliance_request admin : TargetType

pub record AdminAuditEvent : Type 0 where
  pub action : String
  pub target_type : TargetType
  pub target_id : String
  pub detail : Option String

pub data SellerDecision : Type 0 where
  approve_seller reject_seller hold more_info : SellerDecision

abbrev pub seller_decision_text : SellerDecision → String
seller_decision_text approve_seller = "approve"
seller_decision_text reject_seller = "reject"
seller_decision_text hold = "hold"
seller_decision_text more_info = "more_info"

pub data ListingDecision : Type 0 where
  approve_listing reject_listing escalate : ListingDecision

abbrev pub listing_decision_text : ListingDecision → String
listing_decision_text approve_listing = "approve"
listing_decision_text reject_listing = "reject"
listing_decision_text escalate = "escalate"

pub record Corrections : Type 0 where
  pub title : Option String
  pub category : Option String
  pub price : Option String

-- A request, by its path and its body.
pub data Request : Type 0 where
  seller_decision : (seller_id decision : String) (reason : Option String) → Request
  listing_decision : (listing_id decision : String) (reason : Option String) → Request
  corrections : (listing_id : String) (body : Corrections) → Request
  fulfill : (request_id : String) (note : Option String) → Request
  audit : (event : AdminAuditEvent) (occurred_at : String) → Request

pub record Run {ℓ} (A : Type ℓ) : Type ℓ where
  pub outcome : Result A
  pub sent : List Request
  pub warnings : List String

abbrev pub continue_ {ℓ κ} :
    {A : Type ℓ} {B : Type κ} (outcome : Result A)
    → (sent : List Request) (warnings : List String) → (A → Run B)
    → Run B
continue_ (throw e) sent warnings f = record { outcome = throw e; sent = sent; warnings = warnings }
continue_ (ok a) sent warnings f =
    let rest = f a in
    record {
      outcome = rest.outcome;
      sent = sent ++ rest.sent;
      warnings = warnings ++ rest.warnings;
    }

infixl 5 ◌>>=◌
abbrev pub ◌>>=◌ {ℓ κ} : {A : Type ℓ} {B : Type κ} → Run A → (A → Run B) → Run B
r >>= f = continue_ r.outcome r.sent r.warnings f

abbrev settle : Call → Result Fetched
settle (settled f) = ok f
settle (rejected e) = throw e

-- `server` is how each request's call ends, `fresh` what `newTraceId()` returns, `now` the time
-- in ISO format.
module _ (server : Request → Call) (fresh now : String) where
  unfoldable pub send : Request → Run Fetched
  send request = record { outcome = settle (server request); sent = request ∷ []; warnings = [] }

  unfoldable pub unwrap_ok : Fetched → Run (Unit {0})
  unfolding is_ok failure
  unwrap_ok res = record {
    outcome = if is_ok res.response then ok tt else throw (failure fresh res);
    sent = [];
    warnings = [];
  }

  unfoldable pub warn_unless_ok : AdminAuditEvent → Fetched → Run (Unit {0})
  unfolding is_ok
  warn_unless_ok event res = record {
    outcome = ok tt;
    sent = [];
    warnings =
        if is_ok res.response
        then []
        else ("audit emission failed for " <> event.action <> " on " <> event.target_id) ∷ [];
  }

  unfoldable pub log_admin_action : AdminAuditEvent → Run (Unit {0})
  unfolding send warn_unless_ok
  log_admin_action event = do res ← send (audit event now); warn_unless_ok event res

  -- `by ${adminEmail}${reason ? ` — ${reason}` : ""}`
  unfoldable pub detail_text : (admin_email reason : String) → String
  detail_text admin_email reason =
      "by " <> admin_email <> (if is_empty reason then "" else " — " <> reason)

  unfoldable pub decide_seller :
      String → SellerDecision → (reason admin_email : String) → Run (Unit {0})
  unfolding send unwrap_ok log_admin_action detail_text
  decide_seller seller_id decision reason admin_email = do
    res ← send (seller_decision seller_id (seller_decision_text decision) (or_undefined reason))
    _ ← unwrap_ok res
    log_admin_action (record {
      action = "seller." <> seller_decision_text decision;
      target_type = seller;
      target_id = seller_id;
      detail = some (detail_text admin_email reason);
    })

  unfoldable pub decide_listing :
      String → ListingDecision → (reason admin_email : String) → Run (Unit {0})
  unfolding send unwrap_ok log_admin_action detail_text
  decide_listing listing_id decision reason admin_email = do
    res ← send (listing_decision listing_id (listing_decision_text decision) (or_undefined reason))
    _ ← unwrap_ok res
    log_admin_action (record {
      action = "listing." <> listing_decision_text decision;
      target_type = listing;
      target_id = listing_id;
      detail = some (detail_text admin_email reason);
    })

  unfoldable pub correct_listing : String → Corrections → (admin_email : String) → Run (Unit {0})
  unfolding send unwrap_ok log_admin_action
  correct_listing listing_id body admin_email = do
    res ← send (corrections listing_id body)
    _ ← unwrap_ok res
    log_admin_action (record {
      action = "listing.corrected";
      target_type = listing;
      target_id = listing_id;
      detail = some ("by " <> admin_email);
    })

  unfoldable pub fulfill_compliance_request : String → (note admin_email : String) → Run (Unit {0})
  unfolding send unwrap_ok log_admin_action detail_text
  fulfill_compliance_request request_id note admin_email = do
    res ← send (fulfill request_id (or_undefined note))
    _ ← unwrap_ok res
    log_admin_action (record {
      action = "compliance.fulfilled";
      target_type = compliance_request;
      target_id = request_id;
      detail = some (detail_text admin_email note);
    })
