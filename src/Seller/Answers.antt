-- ===== src/Seller/Answers.antt =====
-- The answers of the seller API, each from the call's outcome to its value or the error it throws.
use jolarca.Common.{String, Option, none, some, List, ◌==◌, if◌then◌else◌}
use jolarca.Common.Int.{ℤ, pos}
use jolarca.Common.Text.{starts_with, has_prefix}
use jolarca.Json.{Value, get, text?, text_or, number_or}
use jolarca.Errors.{Thrown, api, Result, ok, throw, ◌>>=◌}
use jolarca.Http.{Call, checked, payload}
use jolarca.Rows.{rows_at, fetch_rows}

-- `unwrapOk`: `submitBusinessInfo`, `uploadKycDocument`, `createListing` and `updateListing` wait for
-- their call and end with it.
unfoldable pub unwrap_ok : (fresh : String) → Call → Result (Unit {0})
unfolding checked
unwrap_ok fresh call = do res ← checked fresh call; ok tt

-- The error of an answer without a usable URL.
abbrev pub contract_mismatch : (fresh : String) → Thrown
contract_mismatch fresh = api (record {
  status = 500;
  code = "connect_contract_mismatch";
  message = "Missing onboarding URL";
  details = none;
  trace_id = fresh;
})

unfoldable pub onboarding_url : (fresh : String) → Option String → Result String
unfolding has_prefix
onboarding_url fresh none = throw (contract_mismatch fresh)
onboarding_url fresh (some url) =
    if starts_with url "https://" then ok url else throw (contract_mismatch fresh)

unfoldable pub create_stripe_connect : (fresh : String) → Call → Result String
unfolding checked payload text? get onboarding_url
create_stripe_connect fresh call = do
  res ← checked fresh call
  onboarding_url fresh (text? (get (payload res) "onboarding_url"))

pub record SellerStats : Type 0 where
  pub total_sales : ℤ
  pub currency : String
  pub pending_orders : ℤ
  pub active_listings : ℤ
  pub payout_balance : ℤ

unfoldable pub fetch_seller_stats : (fresh : String) → Call → Result SellerStats
unfolding checked payload number_or text_or get
fetch_seller_stats fresh call = do
  res ← checked fresh call
  let r = payload res
  ok (record {
    total_sales = number_or (get r "total_sales") (pos 0);
    currency = text_or (get r "currency") "EUR";
    pending_orders = number_or (get r "pending_orders") (pos 0);
    active_listings = number_or (get r "active_listings") (pos 0);
    payout_balance = number_or (get r "payout_balance") (pos 0);
  })

pub record SellerOrderRow : Type 0 where
  pub id : String
  pub placed_at : String
  pub buyer_name : String
  pub total : String
  pub status : String

unfoldable pub order_row : Value → Option SellerOrderRow
unfolding get text? text_or
order_row o = elim (text? (get o "id")) [
  | none ↦ none
  | some id ↦ some (record {
    id = id;
    placed_at = text_or (get o "placed_at") "";
    buyer_name = text_or (get o "buyer_name") "—";
    total = text_or (get o "total") "0";
    status = text_or (get o "status") "unknown";
  })
]

pub record OrderPage : Type 0 where
  pub page : ℤ
  pub total_pages : ℤ
  pub results : List SellerOrderRow

unfoldable pub fetch_seller_orders : (fresh : String) (page : ℤ) → Call → Result OrderPage
unfolding checked payload number_or get rows_at order_row
fetch_seller_orders fresh page call = do
  res ← checked fresh call
  let r = payload res
  rows ← rows_at order_row "results" r
  ok (record {
    page = number_or (get r "page") page;
    total_pages = number_or (get r "total_pages") (pos 1);
    results = rows;
  })

pub record CategoryOption : Type 0 where
  pub id : String
  pub name : String
  pub slug : String

abbrev category_of : Option String → Option String → Value → Option CategoryOption
category_of none name slug = none
category_of (some id) none slug = none
category_of (some id) (some name) slug =
    some (record { id = id; name = name; slug = text_or slug id })

unfoldable pub category_row : Value → Option CategoryOption
unfolding get text? text_or
category_row c = category_of (text? (get c "id")) (text? (get c "name")) (get c "slug")

unfoldable pub fetch_categories : (fresh : String) → Call → Result (List CategoryOption)
unfolding fetch_rows category_row
fetch_categories fresh call = fetch_rows category_row fresh "results" call

pub data PayoutStatus : Type 0 where
  active pending restricted : PayoutStatus

abbrev payout_status : Option String → PayoutStatus
payout_status none = pending
payout_status (some s) =
    if s == "active" then active else if s == "restricted" then restricted else pending

pub record PayoutInfo : Type 0 where
  pub status : PayoutStatus
  pub available_balance : String
  pub next_payout_date : String
  pub total_paid : String
  pub express_dashboard_url : Option String

unfoldable pub fetch_payout_info : (fresh : String) → Call → Result PayoutInfo
unfolding checked payload text? text_or get
fetch_payout_info fresh call = do
  res ← checked fresh call
  let r = payload res
  ok (record {
    status = payout_status (text? (get r "status"));
    available_balance = text_or (get r "available_balance") "—";
    next_payout_date = text_or (get r "next_payout_date") "";
    total_paid = text_or (get r "total_paid") "—";
    express_dashboard_url = text? (get r "express_dashboard_url");
  })

pub record ShippingProfileOption : Type 0 where
  pub id : String
  pub name : String

abbrev profile_of : Option String → Option String → Option ShippingProfileOption
profile_of none name = none
profile_of (some id) none = none
profile_of (some id) (some name) = some (record { id = id; name = name })

unfoldable pub shipping_row : Value → Option ShippingProfileOption
unfolding get text?
shipping_row p = profile_of (text? (get p "id")) (text? (get p "name"))

unfoldable pub fetch_shipping_profiles :
    (fresh : String) → Call → Result (List ShippingProfileOption)
unfolding fetch_rows shipping_row
fetch_shipping_profiles fresh call = fetch_rows shipping_row fresh "results" call
