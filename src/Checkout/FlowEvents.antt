-- ===== src/Checkout/FlowEvents.antt =====
-- What the buyer, the cart and the answers do in the checkout: the handlers of
-- frontend/src/components/client/checkout/address-form.tsx, delivery-method.tsx, checkout-flow.tsx,
-- payment-step.tsx and review-step.tsx. Stripe is loaded, and its check of the hosted fields is
-- answered at once. `schema` is `addressSchema.safeParse`.
use jolarca.Common.{
  ℕ, suc, ◌-◌, String, Bool, true, false, not, ◌&&◌, ◌||◌, Option, none, some, List, [], ◌∷◌, ltb,
  ◌is◌, if◌then◌else◌,
}
use jolarca.Common.Lists.{pick}
use jolarca.Common.Text.{is_empty, trim}
use jolarca.Errors.{Result, ok, throw}
use jolarca.Cart.Item.{CartItem, is_contract_pending}
use jolarca.Checkout.Delivery.{DeliveryMethodId, courier, dpd_locker, omniva_locker, ParcelLocker}
use jolarca.Checkout.Formats.{postal_code_valid, vat_id_format_valid}
use jolarca.Checkout.Orders.{CreatedOrder}
use jolarca.Checkout.Payments.{payment_error_key}
use jolarca.Checkout.Flow.{
  CheckoutStep, address_step, delivery_step, payment_step, review_step, idle, checking, valid,
  invalid, AddressData, no_errors, postal_invalid, rejected, Checkout, is_some, has_items, render,
  go_to_step, answer, kept_errors,
}

-- `setDeliveryMethod`
unfoldable pub set_delivery_method : Option DeliveryMethodId → Checkout → Checkout
set_delivery_method method s = record s { delivery_method = method; locker = none }

abbrev pub needs_locker : DeliveryMethodId → Bool
needs_locker courier = false
needs_locker dpd_locker = true
needs_locker omniva_locker = true

abbrev pub has_locker : Option ParcelLocker → Bool
has_locker none = false
has_locker (some locker) = true

-- `canContinue`
unfoldable pub can_continue : Option DeliveryMethodId → Option ParcelLocker → Bool
can_continue none locker = false
can_continue (some method) locker = not (needs_locker method) || has_locker locker

abbrev pub rank : CheckoutStep → ℕ
rank address_step = 0
rank delivery_step = 1
rank payment_step = 2
rank review_step = 3

abbrev pub in_step : CheckoutStep → Checkout → Bool
in_step step s = rank step is rank s.step && has_items s.items

unfoldable pub settle_order : ℕ → Result CreatedOrder → Checkout → Checkout
unfolding pick
settle_order n result s = elim (pick n s.in_flight) [
  | none ↦ s
  | some (mounting, others) ↦
      answer result mounting (s.is_mounted && s.mounting is mounting)
        (record s { in_flight = others })
]

-- The VAT id stands below the card's fields, which need an order.
unfoldable pub type_vat : String → Checkout → Checkout
type_vat vat_id s =
    if in_step payment_step s && is_some s.order
    then record s { vat_id = vat_id; vat_status = idle }
    else s

-- `checkVatId` up to its call, within `handleContinue`.
abbrev pub check_vat : Option AddressData → Checkout → Checkout
check_vat none s = go_to_step review_step (record s { vat_status = idle })
check_vat (some address) s =
    if is_empty (trim s.vat_id)
    then go_to_step review_step (record s { vat_status = idle })
    else if vat_id_format_valid address.country s.vat_id
    then record s { vat_status = checking; submitting = true; vat_checks = suc s.vat_checks }
    else record s { vat_status = invalid }

unfoldable pub handle_continue : (fields_ok : Bool) → Checkout → Checkout
unfolding trim vat_id_format_valid go_to_step
handle_continue fields_ok s =
    if in_step payment_step s && is_some s.order && not s.submitting && fields_ok
    then check_vat s.address s
    else s

abbrev pub vat_answer : Result Bool → Checkout → Checkout
vat_answer (ok true) s = go_to_step review_step (record s { vat_status = valid })
vat_answer (ok false) s = record s { vat_status = invalid }
vat_answer (throw e) s =
    if is_contract_pending e
    then go_to_step review_step (record s { vat_status = idle })
    else record s { vat_status = invalid }

-- The end of `checkVatId` and of `handleContinue`, wherever the buyer is by then.
unfoldable pub settle_vat : Result Bool → Checkout → Checkout
unfolding is_contract_pending go_to_step
settle_vat result s =
    if s.vat_checks is 0
    then s
    else vat_answer result (record s { vat_checks = s.vat_checks - 1; submitting = false })

abbrev pub confirm : Option CreatedOrder → Checkout → Checkout
confirm none s = s
confirm (some order) s = record s {
  placing = true;
  payment_error = none;
  confirmed = order.order_id ∷ s.confirmed;
}

-- `handlePlaceOrder` up to the confirmation of the payment.
unfoldable pub handle_place_order : Checkout → Checkout
handle_place_order s =
    if in_step review_step s
    then if not s.terms_accepted
      then record s { terms_error = true }
      else if s.placing
      then s
      else confirm s.order s
    else s

-- The end of `handlePlaceOrder`, where the payment failed.
unfoldable pub settle_payment : (code type_ : Option String) → Checkout → Checkout
unfolding payment_error_key
settle_payment code type_ s =
    if s.placing
    then record s { placing = false; payment_error = some (payment_error_key code type_) }
    else s

unfoldable pub set_terms_accepted : Bool → Checkout → Checkout
set_terms_accepted accepted s =
    if in_step review_step s then record s { terms_accepted = accepted; terms_error = false } else s

pub data Event : Type 0 where
  submit_address : AddressData → Event
  choose_method : DeliveryMethodId → Event
  choose_locker : ParcelLocker → Event
  proceed place_order : Event
  payment_failed : (code type_ : Option String) → Event
  go_back : CheckoutStep → Event
  order_answered : ℕ → Result CreatedOrder → Event
  enter_vat : String → Event
  continue_payment : (fields_ok : Bool) → Event
  vat_answered : Result Bool → Event
  accept_terms : Bool → Event
  cart_changes : List CartItem → (cart_id : Option String) → Event

module _ (schema : AddressData → Option AddressData) where
  abbrev pub store_address : AddressData → Option AddressData → Checkout → Checkout
  store_address form none s = record s { address_errors = rejected form }
  store_address form (some address) s =
      if postal_code_valid form.country form.postal_code
      then go_to_step delivery_step
          (record s { address = some address; address_errors = no_errors })
      else record s { address_errors = postal_invalid }

  -- `handleSubmit` of the address form.
  unfoldable pub handle_submit : AddressData → Checkout → Checkout
  unfolding postal_code_valid go_to_step
  handle_submit form s = store_address form (schema form) s

  unfoldable pub on_event : Event → Checkout → Checkout
  unfolding handle_submit set_delivery_method can_continue settle_order type_vat handle_continue
      settle_vat handle_place_order settle_payment set_terms_accepted render go_to_step
  on_event (submit_address candidate) s =
      if in_step address_step s then handle_submit candidate s else s
  on_event (choose_method method) s =
      if in_step delivery_step s then set_delivery_method (some method) s else s
  on_event (choose_locker locker) s =
      if in_step delivery_step s then record s { locker = some locker } else s
  on_event proceed s =
      if in_step delivery_step s && can_continue s.delivery_method s.locker
      then go_to_step payment_step s
      else s
  on_event place_order s = handle_place_order s
  on_event (payment_failed code type_) s = settle_payment code type_ s
  on_event (go_back step) s =
      if ltb (rank step) (rank s.step) && has_items s.items then go_to_step step s else s
  on_event (order_answered n result) s = settle_order n result s
  on_event (enter_vat vat_id) s = type_vat vat_id s
  on_event (continue_payment fields_ok) s = handle_continue fields_ok s
  on_event (vat_answered result) s = settle_vat result s
  on_event (accept_terms accepted) s = set_terms_accepted accepted s
  on_event (cart_changes items cart_id) s = render (record s {
    items = items;
    cart_id = cart_id;
    address_errors = kept_errors items s.address_errors;
  })

  unfoldable pub after_events : List Event → Checkout → Checkout
  unfolding on_event
  after_events [] s = s
  after_events (event ∷ events) s = after_events events (on_event event s)
