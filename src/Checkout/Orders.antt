-- ===== src/Checkout/Orders.antt =====
-- The order calls of the checkout, each from the call's outcome to its value or the error it throws.
use jolarca.Common.{String, Bool, Option, none, some, List, if◌then◌else◌}
use jolarca.Json.{Value, get, text?, text_or, is_true, is_nullish}
use jolarca.Errors.{Thrown, api, Result, ok, throw, ◌>>=◌}
use jolarca.Http.{Call, checked, payload}
use jolarca.Rows.{fetch_rows}

unfoldable pub validate_vat_id : (fresh : String) → Call → Result Bool
unfolding checked payload is_true get
validate_vat_id fresh call = do res ← checked fresh call; ok (is_true (get (payload res) "valid"))

pub record CreatedOrder : Type 0 where
  pub order_id : String
  pub client_secret : String

-- `record.order_id ?? record.id`
unfoldable pub order_key : Value → Value
unfolding get is_nullish
order_key r = if is_nullish (get r "order_id") then get r "id" else get r "order_id"

abbrev pub order_mismatch : (fresh : String) → Thrown
order_mismatch fresh = api (record {
  status = 500;
  code = "order_contract_mismatch";
  message = "Unexpected order payload";
  details = none;
  trace_id = fresh;
})

unfoldable pub created : (fresh : String) → Option String → Option String → Result CreatedOrder
created fresh none secret = throw (order_mismatch fresh)
created fresh (some id) none = throw (order_mismatch fresh)
created fresh (some id) (some secret) = ok (record { order_id = id; client_secret = secret })

unfoldable pub create_order : (fresh : String) → Call → Result CreatedOrder
unfolding checked payload order_key text? get created
create_order fresh call = do
  res ← checked fresh call
  let r = payload res
  created fresh (text? (order_key r)) (text? (get r "client_secret"))

pub record OrderDetail : Type 0 where
  pub order_id : String
  pub order_number : String
  pub status : String
  pub total_gross : String
  pub currency : String
  pub eta_days : Option String

unfoldable pub fetch_order_detail : (fresh order_id : String) → Call → Result OrderDetail
unfolding checked payload text_or text? get
fetch_order_detail fresh order_id call = do
  res ← checked fresh call
  let r = payload res
  ok (record {
    order_id = text_or (get r "order_id") order_id;
    order_number = text_or (get r "order_number") "";
    status = text_or (get r "status") "";
    total_gross = text_or (get r "total_gross") "0";
    currency = text_or (get r "currency") "EUR";
    eta_days = text? (get r "eta_days");
  })

pub record OrderHistoryEntry : Type 0 where
  pub order_id : String
  pub order_number : String
  pub status : String
  pub total_gross : String
  pub currency : String
  pub created_at : String

unfoldable pub history_row : Value → Option OrderHistoryEntry
unfolding get text? text_or
history_row r = elim (text? (get r "order_id")) [
  | none ↦ none
  | some id ↦ some (record {
    order_id = id;
    order_number = text_or (get r "order_number") "";
    status = text_or (get r "status") "";
    total_gross = text_or (get r "total_gross") "0";
    currency = text_or (get r "currency") "EUR";
    created_at = text_or (get r "created_at") "";
  })
]

unfoldable pub fetch_order_history : (fresh : String) → Call → Result (List OrderHistoryEntry)
unfolding fetch_rows history_row
fetch_order_history fresh call = fetch_rows history_row fresh "results" call
