-- ===== src/Admin/Detail.antt =====
-- The page of one seller: `fetchSellerDetail`.
use jolarca.Common.{String, List}
use jolarca.Common.Text.{or_text}
use jolarca.Json.{Value, get, text_or}
use jolarca.Errors.{Result, ok, ◌>>=◌}
use jolarca.Http.{Call, checked, payload}
use jolarca.Rows.{rows_at}
use jolarca.Admin.Queues.{SellerQueueStatus, verification_status, keyed}

pub record SellerDocumentInfo : Type 0 where
  pub kind : String
  pub file_name : String
  pub url : String
  pub mime_type : String

unfoldable pub document_of : String → Value → SellerDocumentInfo
unfolding get text_or
document_of url d = record {
  kind = text_or (get d "kind") "document";
  file_name = text_or (get d "file_name") "file";
  url = url;
  mime_type = text_or (get d "mime_type") "image/jpeg";
}

pub record SellerVerificationEvent : Type 0 where
  pub at : String
  pub admin : String
  pub action : String
  pub note : String

unfoldable pub event_of : String → Value → SellerVerificationEvent
unfolding get text_or
event_of at h = record {
  at = at;
  admin = text_or (get h "admin") "system";
  action = text_or (get h "action") "note";
  note = text_or (get h "note") "";
}

pub record SellerDetail : Type 0 where
  pub id : String
  pub business_name : String
  pub business_type : String
  pub registration_number : String
  pub vat_id : String
  pub country : String
  pub address : String
  pub contact_email : String
  pub phone : String
  pub verification_status : SellerQueueStatus
  pub connect_status : String
  pub documents : List SellerDocumentInfo
  pub history : List SellerVerificationEvent

-- `str(r[key])`
unfoldable pub text_at : Value → String → String
unfolding get text_or
text_at r key = text_or (get r key) ""

unfoldable pub parse_seller_detail : (seller_id : String) → Value → Result SellerDetail
unfolding rows_at keyed document_of event_of text_at verification_status get
parse_seller_detail seller_id r = do
  documents ← rows_at (keyed "url" document_of) "documents" r
  history ← rows_at (keyed "at" event_of) "history" r
  ok (record {
    id = or_text (text_at r "id") seller_id;
    business_name = or_text (text_at r "business_name") "—";
    business_type = or_text (text_at r "business_type") "unknown";
    registration_number = text_at r "registration_number";
    vat_id = text_at r "vat_id";
    country = text_at r "country";
    address = text_at r "address";
    contact_email = text_at r "contact_email";
    phone = text_at r "phone";
    verification_status = verification_status (get r "verification_status");
    connect_status = or_text (text_at r "connect_status") "none";
    documents = documents;
    history = history;
  })

unfoldable pub fetch_seller_detail : (fresh seller_id : String) → Call → Result SellerDetail
unfolding checked payload parse_seller_detail
fetch_seller_detail fresh seller_id call = do
  res ← checked fresh call
  parse_seller_detail seller_id (payload res)
