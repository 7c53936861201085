-- ===== src/Admin/Audit.antt =====
-- What the audit trail of lib/admin.ts records, for every action and every end of its calls.
use jolarca.Common.{
  String, true, false, ◌≡◌, refl, some, [], ◌∷◌, ◌<>◌, Bool-cases, inl, inr, ◌↔◌, ◌∙◌,
}
use mathlib.Core.List.{cons≢nil}
use jolarca.Common.Text.{or_undefined}
use jolarca.Errors.{Thrown, ok, throw}
use jolarca.Http.{Fetched, Call, settled, rejected, is_ok, failure}
use jolarca.Admin.Decisions.{
  AdminAuditEvent, SellerDecision, ListingDecision, Corrections, seller, listing,
  compliance_request, Request, seller_decision, listing_decision, corrections, fulfill, audit, Run,
  ◌>>=◌, send, unwrap_ok, warn_unless_ok, log_admin_action, detail_text, decide_seller,
  decide_listing, correct_listing, fulfill_compliance_request, seller_decision_text,
  listing_decision_text,
}

-- The four actions.
pub data Action : Type 0 where
  on_seller : String → SellerDecision → (reason : String) → Action
  on_listing : String → ListingDecision → (reason : String) → Action
  on_corrections : String → Corrections → Action
  on_request : String → (note : String) → Action

-- The request of an action.
abbrev pub mutation : Action → Request
mutation (on_seller id decision reason) =
    seller_decision id (seller_decision_text decision) (or_undefined reason)
mutation (on_listing id decision reason) =
    listing_decision id (listing_decision_text decision) (or_undefined reason)
mutation (on_corrections id body) = corrections id body
mutation (on_request id note) = fulfill id (or_undefined note)

module _ (server : Request → Call) (fresh now admin_email : String) where
  abbrev pub perform : Action → Run (Unit {0})
  perform (on_seller id decision reason) =
      decide_seller server fresh now id decision reason admin_email
  perform (on_listing id decision reason) =
      decide_listing server fresh now id decision reason admin_email
  perform (on_corrections id body) = correct_listing server fresh now id body admin_email
  perform (on_request id note) = fulfill_compliance_request server fresh now id note admin_email

  -- The event of an action: what was done to which target, and by whom.
  abbrev pub event_of : Action → AdminAuditEvent
  event_of (on_seller id decision reason) = record {
    action = "seller." <> seller_decision_text decision;
    target_type = seller;
    target_id = id;
    detail = some (detail_text server fresh now admin_email reason);
  }
  event_of (on_listing id decision reason) = record {
    action = "listing." <> listing_decision_text decision;
    target_type = listing;
    target_id = id;
    detail = some (detail_text server fresh now admin_email reason);
  }
  event_of (on_corrections id body) = record {
    action = "listing.corrected";
    target_type = listing;
    target_id = id;
    detail = some ("by " <> admin_email);
  }
  event_of (on_request id note) = record {
    action = "compliance.fulfilled";
    target_type = compliance_request;
    target_id = id;
    detail = some (detail_text server fresh now admin_email note);
  }

  -- The four have the same steps.
  abbrev audited : Request → AdminAuditEvent → Run (Unit {0})
  audited request event = do
    res ← send server fresh now request
    _ ← unwrap_ok server fresh now res
    log_admin_action server fresh now event

  perform-audited : (action : Action) → perform action ≡ audited (mutation action) (event_of action)
  unfolding decide_seller decide_listing correct_listing fulfill_compliance_request
  perform-audited (on_seller id decision reason) = refl
  perform-audited (on_listing id decision reason) = refl
  perform-audited (on_corrections id body) = refl
  perform-audited (on_request id note) = refl

  warned_unless :
      (event : AdminAuditEvent) (logged : Fetched)
      → ((warn_unless_ok server fresh now event logged).warnings ≡ [])
        ↔ (is_ok logged.response ≡ true)
  unfolding warn_unless_ok
  warned_unless event logged = elim (Bool-cases (is_ok logged.response)) [
    | inl e ↦ rw e (λ h. refl, λ h. refl)
    | inr e ↦ rw e (λ h. absurd (cons≢nil h), λ h. cc)
  ]

  audited_answered :
      (request : Request) (event : AdminAuditEvent) (done logged : Fetched)
      → server request ≡ settled done
      → is_ok done.response ≡ true
      → server (audit event now) ≡ settled logged
      → audited request event ≡ record {
        outcome = ok tt;
        sent = request ∷ audit event now ∷ [];
        warnings = (warn_unless_ok server fresh now event logged).warnings;
      }
  unfolding send unwrap_ok log_admin_action warn_unless_ok
  audited_answered request event done logged mutated accepted answered =
      rw (mutated, accepted, answered) refl

  -- An action whose request succeeded and whose audit request was answered, with whatever status,
  -- succeeds; it sent its request and then its event, and it warned exactly if the answer to the
  -- event was no success.
  pub perform_answered :
      (action : Action) (done logged : Fetched)
      → server (mutation action) ≡ settled done
      → is_ok done.response ≡ true
      → server (audit (event_of action) now) ≡ settled logged
      → (perform action).outcome ≡ ok tt
        × ((perform action).sent ≡ mutation action ∷ audit (event_of action) now ∷ [])
        × (((perform action).warnings ≡ []) ↔ (is_ok logged.response ≡ true))
  perform_answered action done logged mutated accepted answered =
      let run =
        perform-audited action
        ∙ audited_answered (mutation action) (event_of action) done logged mutated accepted
            answered in
      rw run (refl, refl, warned_unless (event_of action) logged)

  -- An action whose request the server refuses throws that failure, sends nothing else, and leaves
  -- no audit event.
  perform_refused :
      (action : Action) (refused : Fetched)
      → server (mutation action) ≡ settled refused
      → is_ok refused.response ≡ false
      → perform action ≡ record {
        outcome = throw (failure fresh refused);
        sent = mutation action ∷ [];
        warnings = [];
      }
  unfolding send unwrap_ok
  perform_refused action refused mutated no_success =
      rw (perform-audited action, mutated, no_success) refl

  -- An action whose request succeeded throws all the same if the audit request is rejected, as it
  -- is without a connection.
  perform_unconnected :
      (action : Action) (done : Fetched) (e : Thrown)
      → server (mutation action) ≡ settled done
      → is_ok done.response ≡ true
      → server (audit (event_of action) now) ≡ rejected e
      → perform action ≡ record {
        outcome = throw e;
        sent = mutation action ∷ audit (event_of action) now ∷ [];
        warnings = [];
      }
  unfolding send unwrap_ok log_admin_action
  perform_unconnected action done e mutated accepted failed =
      rw (perform-audited action, mutated, accepted, failed) refl
