-- ===== src/Admin/Queues.antt =====
-- The statistics and the queues: `fetchAdminStats`, `fetchSellerQueue`, `fetchListingQueue`,
-- `fetchComplianceRequests`, each from the call's outcome to its rows or the error it throws.
use jolarca.Common.{String, Option, none, some, List, ◌==◌, if◌then◌else◌}
use jolarca.Common.Int.{ℤ, pos}
use jolarca.Json.{Value, get, text?, text_or, number_or, array_or_empty, texts}
use jolarca.Errors.{Result, ok, ◌>>=◌}
use jolarca.Http.{Call, checked, payload}
use jolarca.Rows.{fetch_rows}

pub record AdminStats : Type 0 where
  pub pending_verifications : ℤ
  pub active_sellers : ℤ
  pub flagged_listings : ℤ
  pub open_compliance_requests : ℤ

unfoldable pub fetch_admin_stats : (fresh : String) → Call → Result AdminStats
unfolding checked payload number_or get
fetch_admin_stats fresh call = do
  res ← checked fresh call
  let r = payload res
  ok (record {
    pending_verifications = number_or (get r "pending_verifications") (pos 0);
    active_sellers = number_or (get r "active_sellers") (pos 0);
    flagged_listings = number_or (get r "flagged_listings") (pos 0);
    open_compliance_requests = number_or (get r "open_compliance_requests") (pos 0);
  })

pub data SellerQueueStatus : Type 0 where
  pending approved rejected needs_review : SellerQueueStatus

abbrev status_of : Option String → SellerQueueStatus
status_of none = pending
status_of (some s) =
    if s == "approved"
    then approved
    else if s == "rejected"
    then rejected
    else if s == "needs_review"
    then needs_review
    else pending

-- A status that is not one of the four is "pending".
unfoldable pub verification_status : Value → SellerQueueStatus
unfolding text?
verification_status v = status_of (text? v)

pub record SellerQueueRow : Type 0 where
  pub id : String
  pub business_name : String
  pub business_type : String
  pub registered_at : String
  pub documents_status : String
  pub connect_status : String
  pub verification_status : SellerQueueStatus

unfoldable pub seller_row_of : String → Value → SellerQueueRow
unfolding get text_or verification_status
seller_row_of id s = record {
  id = id;
  business_name = text_or (get s "business_name") "—";
  business_type = text_or (get s "business_type") "unknown";
  registered_at = text_or (get s "registered_at") "";
  documents_status = text_or (get s "documents_status") "none";
  connect_status = text_or (get s "connect_status") "none";
  verification_status = verification_status (get s "verification_status");
}

-- A row is kept by the text of a member: `if (typeof s.id !== "string") return null`.
unfoldable pub keyed {ℓ} : {A : Type ℓ} → String → (String → Value → A) → Value → Option A
unfolding get text?
keyed key build entry = elim (text? (get entry key)) [
  | none ↦ none
  | some id ↦ some (build id entry)
]

unfoldable pub fetch_seller_queue : (fresh : String) → Call → Result (List SellerQueueRow)
unfolding fetch_rows keyed seller_row_of
fetch_seller_queue fresh call = fetch_rows (keyed "id" seller_row_of) fresh "results" call

pub data FlagSource : Type 0 where
  auto manual : FlagSource

abbrev source_of : Option String → FlagSource
source_of none = manual
source_of (some s) = if s == "auto" then auto else manual

pub record ListingQueueRow : Type 0 where
  pub id : String
  pub title : String
  pub seller_name : String
  pub category : String
  pub flag_reason : String
  pub flag_source : FlagSource
  pub status : String
  pub price : String
  pub description_html : String
  pub image_urls : List String

unfoldable pub listing_row_of : String → Value → ListingQueueRow
unfolding get text? text_or array_or_empty texts
listing_row_of id l = record {
  id = id;
  title = text_or (get l "title") "—";
  seller_name = text_or (get l "seller_name") "—";
  category = text_or (get l "category") "—";
  flag_reason = text_or (get l "flag_reason") "";
  flag_source = source_of (text? (get l "flag_source"));
  status = text_or (get l "status") "flagged";
  price = text_or (get l "price") "";
  description_html = text_or (get l "description_html") "";
  image_urls = texts (array_or_empty (get l "image_urls"));
}

unfoldable pub fetch_listing_queue : (fresh : String) → Call → Result (List ListingQueueRow)
unfolding fetch_rows keyed listing_row_of
fetch_listing_queue fresh call = fetch_rows (keyed "id" listing_row_of) fresh "results" call

pub data ComplianceRequestType : Type 0 where
  access erasure export_ : ComplianceRequestType

abbrev type_of : Option String → ComplianceRequestType
type_of none = access
type_of (some s) = if s == "erasure" then erasure else if s == "export" then export_ else access

pub data ComplianceStatus : Type 0 where
  open_ in_progress fulfilled : ComplianceStatus

abbrev progress_of : Option String → ComplianceStatus
progress_of none = open_
progress_of (some s) =
    if s == "in_progress" then in_progress else if s == "fulfilled" then fulfilled else open_

pub record ComplianceRequestRow : Type 0 where
  pub id : String
  pub type : ComplianceRequestType
  pub user_email : String
  pub requested_at : String
  pub status : ComplianceStatus
  pub assigned_admin : String
  pub download_url : Option String

unfoldable pub compliance_row_of : String → Value → ComplianceRequestRow
unfolding get text? text_or
compliance_row_of id q = record {
  id = id;
  type = type_of (text? (get q "type"));
  user_email = text_or (get q "user_email") "—";
  requested_at = text_or (get q "requested_at") "";
  status = progress_of (text? (get q "status"));
  assigned_admin = text_or (get q "assigned_admin") "";
  download_url = text? (get q "download_url");
}

unfoldable pub fetch_compliance_requests :
    (fresh : String) → Call → Result (List ComplianceRequestRow)
unfolding fetch_rows keyed compliance_row_of
fetch_compliance_requests fresh call =
    fetch_rows (keyed "id" compliance_row_of) fresh "results" call
