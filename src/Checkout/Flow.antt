-- ===== src/Checkout/Flow.antt =====
-- The state of the checkout: the provider in
-- frontend/src/components/client/checkout/checkout-provider.tsx and the payment phase of
-- payment-step.tsx beside it, with the effect that creates the order. Toasts and scrolling are left out.
use jolarca.Common.{
  ℕ, suc, String, Bool, true, false, not, ◌&&◌, ◌||◌, Option, none, some, List, [], ◌∷◌, ◌++◌, map,
  if◌then◌else◌,
}
use jolarca.Common.Int.{ℤ}
use jolarca.Common.Text.{or_undefined}
use jolarca.Errors.{Thrown, Result, ok, throw}
use jolarca.Cart.Item.{CartItem, is_contract_pending}
use jolarca.Checkout.Delivery.{CheckoutCountry, DeliveryMethodId, CheckoutRecovery, ParcelLocker}
use jolarca.Checkout.Orders.{CreatedOrder}

pub data CheckoutStep : Type 0 where
  address_step delivery_step payment_step review_step : CheckoutStep

pub data VatStatus : Type 0 where
  idle checking valid invalid : VatStatus

pub data PrepareState : Type 0 where
  loading ready contract_pending error : PrepareState

pub record AddressData : Type 0 where
  pub full_name : String
  pub street : String
  pub city : String
  pub postal_code : String
  pub country : CheckoutCountry
  pub phone : String
  pub save_to_address_book : Bool

-- The errors that the address form shows: those which the schema has against a form, or that of the
-- postal code.
pub data AddressErrors : Type 0 where
  no_errors postal_invalid : AddressErrors
  rejected : AddressData → AddressErrors

-- What `createOrder` sends.
pub record OrderRequest : Type 0 where
  pub items : List (String × ℤ)
  pub method : DeliveryMethodId
  pub locker_id : Option String
  pub address : AddressData
  pub vat_id : Option String
  pub cart_id : Option String
  pub idempotency_key : String

-- The provider's state and the cart beside it; the payment phase, which is mounted or not, in its
-- how manieth mounting, with its state and its ref; the requests for an order that are outstanding,
-- each with the mounting that made it; all requests, the newest first; the checks of a VAT id that
-- are outstanding; and the orders for which a payment was started, the newest first.
pub record Checkout : Type 0 where
  pub step : CheckoutStep
  pub address : Option AddressData
  pub address_errors : AddressErrors
  pub delivery_method : Option DeliveryMethodId
  pub locker : Option ParcelLocker
  pub vat_id : String
  pub vat_status : VatStatus
  pub terms_accepted : Bool
  pub order : Option CreatedOrder
  pub idempotency_key : String
  pub items : List CartItem
  pub cart_id : Option String
  pub is_mounted : Bool
  pub mounting : ℕ
  pub prepare_state : PrepareState
  pub started : Bool
  pub in_flight : List ℕ
  pub requested : List OrderRequest
  pub submitting : Bool
  pub vat_checks : ℕ
  pub placing : Bool
  pub terms_error : Bool
  pub payment_error : Option String
  pub confirmed : List String

abbrev blank_address : CheckoutCountry → AddressData
blank_address country = record {
  full_name = "";
  street = "";
  city = "";
  postal_code = "";
  country = country;
  phone = "";
  save_to_address_book = false;
}

abbrev recovered_address : Option CheckoutRecovery → Option AddressData
recovered_address none = none
recovered_address (some recovery) = some (blank_address recovery.country)

abbrev recovered_method : Option CheckoutRecovery → Option DeliveryMethodId
recovered_method none = none
recovered_method (some recovery) = some recovery.delivery_method

-- The checkout as it opens, with what was recovered.
unfoldable pub initial :
    (key : String) → Option CheckoutRecovery → List CartItem → (cart_id : Option String) → Checkout
initial key recovery items cart_id = record {
  step = address_step;
  address = recovered_address recovery;
  address_errors = no_errors;
  delivery_method = recovered_method recovery;
  locker = none;
  vat_id = "";
  vat_status = idle;
  terms_accepted = false;
  order = none;
  idempotency_key = key;
  items = items;
  cart_id = cart_id;
  is_mounted = false;
  mounting = 0;
  prepare_state = loading;
  started = false;
  in_flight = [];
  requested = [];
  submitting = false;
  vat_checks = 0;
  placing = false;
  terms_error = false;
  payment_error = none;
  confirmed = [];
}

abbrev pub locker_id : Option ParcelLocker → Option String
locker_id none = none
locker_id (some locker) = some locker.id

abbrev pub order_line : CartItem → String × ℤ
order_line item = (item.product_id, item.quantity)

abbrev pub request_of : AddressData → DeliveryMethodId → Checkout → OrderRequest
request_of address method s = record {
  items = map order_line s.items;
  method = method;
  locker_id = locker_id s.locker;
  address = address;
  vat_id = or_undefined s.vat_id;
  cart_id = s.cart_id;
  idempotency_key = s.idempotency_key;
}

abbrev pub start : Option AddressData → Option DeliveryMethodId → Checkout → Checkout
start none method s = s
start (some address) none s = s
start (some address) (some method) s = record s {
  started = true;
  in_flight = s.in_flight ++ s.mounting ∷ [];
  requested = request_of address method s ∷ s.requested;
}

abbrev pub is_some : Option CreatedOrder → Bool
is_some none = false
is_some (some order) = true

-- The effect of the mounted payment phase, which creates the order.
unfoldable pub prepare : Checkout → Checkout
prepare s =
    if not s.is_mounted || is_some s.order || s.started
    then s
    else start s.address s.delivery_method s

abbrev pub in_phase : CheckoutStep → Bool
in_phase address_step = false
in_phase delivery_step = false
in_phase payment_step = true
in_phase review_step = true

abbrev pub has_items : List CartItem → Bool
has_items [] = false
has_items (item ∷ items) = true

-- A new payment phase.
abbrev pub mount : Checkout → Checkout
mount s = record s {
  is_mounted = true;
  mounting = suc s.mounting;
  prepare_state = if is_some s.order then ready else loading;
  started = false;
  submitting = false;
  placing = false;
  terms_error = false;
  payment_error = none;
}

-- The payment phase stands in the last two steps, over a cart that is not empty; then its effect.
unfoldable pub render : Checkout → Checkout
unfolding prepare
render s =
    if in_phase s.step && has_items s.items
    then (if s.is_mounted then prepare s else prepare (mount s))
    else record s { is_mounted = false }

-- Over an empty cart no form stands.
abbrev pub kept_errors : List CartItem → AddressErrors → AddressErrors
kept_errors [] _ = no_errors
kept_errors (item ∷ items) shown = shown

-- A step's own state goes with its step.
abbrev pub unless_payment : CheckoutStep → Bool → Bool
unless_payment payment_step flag = false
unless_payment _ flag = flag

abbrev pub unless_review : CheckoutStep → Bool → Bool
unless_review review_step flag = false
unless_review _ flag = flag

abbrev pub kept_error : CheckoutStep → Option String → Option String
kept_error review_step e = none
kept_error _ e = e

unfoldable pub go_to_step : CheckoutStep → Checkout → Checkout
unfolding render
go_to_step next s = render (record s {
  step = next;
  submitting = unless_payment s.step s.submitting;
  placing = unless_review s.step s.placing;
  terms_error = unless_review s.step s.terms_error;
  payment_error = kept_error s.step s.payment_error;
})

-- The answer to the request for an order; a failure is noted in the phase that made the request.
abbrev fail : Thrown → Checkout → Checkout
fail e s = record s {
  started = false;
  prepare_state = if is_contract_pending e then contract_pending else error;
}

abbrev pub answer : Result CreatedOrder → (mounting : ℕ) → (is_current : Bool) → Checkout → Checkout
answer (ok order) mounting is_current s = record s {
  order = some order;
  prepare_state = if is_current then ready else s.prepare_state;
}
answer (throw e) mounting is_current s = if is_current then fail e s else s
