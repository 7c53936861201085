-- ===== src/Checkout/Delivery.antt =====
-- Delivery methods, their recovery from the session's storage, and the lists of options and lockers.
use jolarca.Common.{String, Option, none, some, List, ◌==◌, if◌then◌else◌}
use jolarca.Json.{Value, str, obj, prop, end, get, text?, text_or, is_nullish}
use jolarca.Errors.{Result}
use jolarca.Http.{Call}
use jolarca.Rows.{fetch_rows}

pub data CheckoutCountry : Type 0 where
  lt lv ee : CheckoutCountry

abbrev pub country_text : CheckoutCountry → String
country_text lt = "LT"
country_text lv = "LV"
country_text ee = "EE"

unfoldable pub country_of : String → Option CheckoutCountry
country_of s =
    if s == "LT"
    then some lt
    else if s == "LV"
    then some lv
    else if s == "EE"
    then some ee
    else none

pub data DeliveryMethodId : Type 0 where
  courier dpd_locker omniva_locker : DeliveryMethodId

abbrev pub method_text : DeliveryMethodId → String
method_text courier = "courier"
method_text dpd_locker = "dpd_locker"
method_text omniva_locker = "omniva_locker"

unfoldable pub method_of : String → Option DeliveryMethodId
method_of s =
    if s == "courier"
    then some courier
    else if s == "dpd_locker"
    then some dpd_locker
    else if s == "omniva_locker"
    then some omniva_locker
    else none

pub record CheckoutRecovery : Type 0 where
  pub delivery_method : DeliveryMethodId
  pub country : CheckoutCountry

abbrev recovery : Option DeliveryMethodId → Option CheckoutCountry → Option CheckoutRecovery
recovery none country = none
recovery (some method) none = none
recovery (some method) (some country) =
    some (record { delivery_method = method; country = country })

-- What `readRecovery` makes of the stored text, by what `JSON.parse` gives of it: `none` where
-- there is no text or none that parses. Reading a member of null throws, which is caught.
unfoldable pub read_recovery : Option Value → Option CheckoutRecovery
unfolding is_nullish get text_or method_of country_of
read_recovery none = none
read_recovery (some parsed) =
    if is_nullish parsed
    then none
    else recovery (method_of (text_or (get parsed "deliveryMethod") ""))
        (country_of (text_or (get parsed "country") ""))

-- What `writeRecovery` hands to `JSON.stringify`.
unfoldable pub write_recovery : CheckoutRecovery → Value
write_recovery r = obj (
    prop "deliveryMethod" (str (method_text r.delivery_method))
      (prop "country" (str (country_text r.country)) end))

pub record DeliveryMethod : Type 0 where
  pub id : DeliveryMethodId
  pub label_key : String
  pub price : String
  pub currency : String
  pub eta_days : Option String

abbrev label_key : DeliveryMethodId → String
label_key courier = "courier"
label_key dpd_locker = "dpdLocker"
label_key omniva_locker = "omnivaLocker"

unfoldable pub option_row : Value → Option DeliveryMethod
unfolding get text? text_or method_of
option_row r = elim (method_of (text_or (get r "id") "")) [
  | none ↦ none
  | some id ↦ some (record {
    id = id;
    label_key = label_key id;
    price = text_or (get r "price") "0";
    currency = text_or (get r "currency") "EUR";
    eta_days = text? (get r "eta_days");
  })
]

unfoldable pub fetch_shipping_options : (fresh : String) → Call → Result (List DeliveryMethod)
unfolding fetch_rows option_row
fetch_shipping_options fresh call = fetch_rows option_row fresh "options" call

pub record ParcelLocker : Type 0 where
  pub id : String
  pub name : String
  pub address : String
  pub city : Option String

abbrev locker_of :
    Option String → Option String → (address : String) (city : Option String) → Option ParcelLocker
locker_of none name address city = none
locker_of (some id) none address city = none
locker_of (some id) (some name) address city =
    some (record { id = id; name = name; address = address; city = city })

unfoldable pub locker_row : Value → Option ParcelLocker
unfolding get text? text_or
locker_row r =
    locker_of (text? (get r "id")) (text? (get r "name")) (text_or (get r "address") "")
      (text? (get r "city"))

unfoldable pub fetch_lockers : (fresh : String) → Call → Result (List ParcelLocker)
unfolding fetch_rows locker_row
fetch_lockers fresh call = fetch_rows locker_row fresh "lockers" call
