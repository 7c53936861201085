-- ===== src/Checkout/Requests.antt =====
-- What the requests for an order carry, over any run of the checkout of
-- frontend/src/components/client/checkout.
use jolarca.Common.{
  String, ◌≡◌, refl, true, not, ◌&&◌, inl, inr, Option, none, some, List, [], ◌∷◌, ltb, if-either,
  if-cases, arith,
}
use jolarca.Common.Lists.{All}
use jolarca.Cart.Item.{CartItem}
use jolarca.Checkout.Delivery.{DeliveryMethodId, CheckoutRecovery, ParcelLocker}
use jolarca.Checkout.Formats.{postal_code_valid}
use jolarca.Checkout.Flow
use jolarca.Checkout.Flow.{
  CheckoutStep, address_step, delivery_step, payment_step, review_step, AddressData, OrderRequest,
  Checkout, initial, locker_id, request_of, start, kept_errors, is_some, prepare, in_phase,
  has_items, mount, render, go_to_step, answer,
}
use jolarca.Checkout.FlowEvents.{
  set_delivery_method, can_continue, rank, in_step, handle_place_order, settle_payment,
  set_terms_accepted, Event, store_address, handle_submit, on_event, after_events,
}
use jolarca.Checkout.Steps.{IsProper, IsSafe, later_step, later_phase, not_in_phase, render-IsSafe}
use jolarca.Checkout.OrderSteps.{
  go_to_step-IsSafe, settle_order-IsSafe, type_vat-IsSafe, handle_continue-IsSafe,
  settle_vat-IsSafe, confirm-IsSafe,
}

module _ (schema : AddressData → Option AddressData) (key : String) where
  submitted-IsSafe :
      (form address : AddressData) (s : Checkout)
      → postal_code_valid form.country form.postal_code ≡ true
      → schema form ≡ some address
      → IsSafe schema key s
      → IsSafe schema key (
          go_to_step delivery_step
            (record s { address = some address; address_errors = Flow.AddressErrors.no_errors }))
  submitted-IsSafe form address s postal parsed (before, keyed, proper) =
      go_to_step-IsSafe schema key delivery_step
        (record s { address = some address; address_errors = Flow.AddressErrors.no_errors })
        (elim before [
          | inl made ↦ inl made
          | inr early ↦ inr (record {
            no_vat = early.no_vat;
            no_check = early.no_check;
            addressed =
                λ e. (address, refl, record { form = form; parsed = parsed; postal = postal });
            deliverable = λ e. absurd (cc);
          })
        ])
        keyed proper

  store_address-IsSafe :
      (form : AddressData) (address : Option AddressData) (s : Checkout)
      → schema form ≡ address
      → IsSafe schema key s
      → IsSafe schema key (store_address schema form address s)
  store_address-IsSafe form none s parsed h = h
  store_address-IsSafe form (some address) s parsed h =
      if-cases (IsSafe schema key) (postal_code_valid form.country form.postal_code)
        (λ postal. submitted-IsSafe form address s postal parsed h) (λ e. h)

  handle_submit-IsSafe :
      (form : AddressData) (s : Checkout)
      → IsSafe schema key s
      → IsSafe schema key (handle_submit schema form s)
  unfolding handle_submit
  handle_submit-IsSafe form s h = store_address-IsSafe form (schema form) s refl h

  -- In the delivery step the method and the locker may change.
  in_delivery :
      (s : Checkout) (method : Option DeliveryMethodId) (locker : Option ParcelLocker)
      → in_step delivery_step s ≡ true
      → IsSafe schema key s
      → IsSafe schema key (record s { delivery_method = method; locker = locker })
  in_delivery s method locker here (before, keyed, proper) = (
    elim before [
      | inl made ↦ inl made
      | inr early ↦ inr (record {
        no_vat = early.no_vat;
        no_check = early.no_check;
        addressed = early.addressed;
        deliverable = λ phase. absurd (not_in_phase s.step phase (ground (arith, here)));
      })
    ],
    keyed,
    proper,
  )

  proceed-IsSafe :
      (s : Checkout)
      → in_step delivery_step s && can_continue s.delivery_method s.locker ≡ true
      → IsSafe schema key s
      → IsSafe schema key (go_to_step payment_step s)
  proceed-IsSafe s here (before, keyed, proper) =
      go_to_step-IsSafe schema key payment_step s
        (elim before [
          | inl made ↦ inl made
          | inr early ↦ inr (record {
            no_vat = early.no_vat;
            no_check = early.no_check;
            addressed = λ e.
                early.addressed (later_step delivery_step s.step (λ e. cc) (ground (arith, here)));
            deliverable = λ e. ground (arith, here);
          })
        ])
        keyed proper

  go_back-IsSafe :
      (step : CheckoutStep) (s : Checkout)
      → ltb (rank step) (rank s.step) && has_items s.items ≡ true
      → IsSafe schema key s
      → IsSafe schema key (go_to_step step s)
  go_back-IsSafe step s back (before, keyed, proper) =
      go_to_step-IsSafe schema key step s
        (elim before [
          | inl made ↦ inl made
          | inr early ↦ inr (record {
            no_vat = early.no_vat;
            no_check = early.no_check;
            addressed = λ e. early.addressed (later_step step s.step e (ground (arith, back)));
            deliverable = λ e. early.deliverable (later_phase step s.step e (ground (arith, back)));
          })
        ])
        keyed proper

  on_event-IsSafe :
      (event : Event) (s : Checkout)
      → IsSafe schema key s
      → IsSafe schema key (on_event schema event s)
  unfolding on_event
  on_event-IsSafe (Event.submit_address form) s h =
      if-either (IsSafe schema key) (in_step address_step s) (handle_submit-IsSafe form s h) h
  on_event-IsSafe (Event.choose_method method) s h =
      if-cases (IsSafe schema key) (in_step delivery_step s)
        (λ here. unfold set_delivery_method in in_delivery s (some method) none here h) (λ e. h)
  on_event-IsSafe (Event.choose_locker locker) s h =
      if-cases (IsSafe schema key) (in_step delivery_step s)
        (λ here. in_delivery s s.delivery_method (some locker) here h) (λ e. h)
  on_event-IsSafe Event.proceed s h =
      if-cases (IsSafe schema key)
        (in_step delivery_step s && can_continue s.delivery_method s.locker)
        (λ here. proceed-IsSafe s here h) (λ e. h)
  on_event-IsSafe Event.place_order s h =
      unfold handle_place_order in
      if-either (IsSafe schema key) (in_step review_step s)
        (if-either (IsSafe schema key) (not s.terms_accepted) h
          (if-either (IsSafe schema key) s.placing h (confirm-IsSafe schema key s.order s h)))
        h
  on_event-IsSafe (Event.payment_failed code type_) s h =
      unfold settle_payment in if-either (IsSafe schema key) s.placing h h
  on_event-IsSafe (Event.go_back step) s h =
      if-cases (IsSafe schema key) (ltb (rank step) (rank s.step) && has_items s.items)
        (λ back. go_back-IsSafe step s back h) (λ e. h)
  on_event-IsSafe (Event.order_answered n result) s h = settle_order-IsSafe schema key n result s h
  on_event-IsSafe (Event.enter_vat vat_id) s h = type_vat-IsSafe schema key vat_id s h
  on_event-IsSafe (Event.continue_payment fields_ok) s h =
      handle_continue-IsSafe schema key fields_ok s h
  on_event-IsSafe (Event.vat_answered result) s h = settle_vat-IsSafe schema key result s h
  on_event-IsSafe (Event.accept_terms accepted) s h =
      unfold set_terms_accepted in if-either (IsSafe schema key) (in_step review_step s) h h
  on_event-IsSafe (Event.cart_changes items cart_id) s h =
      render-IsSafe schema key
        (record s {
          items = items;
          cart_id = cart_id;
          address_errors = kept_errors items s.address_errors;
        })
        h

  after_events-keeps :
      (events : List Event) (s : Checkout)
      → IsSafe schema key s
      → IsSafe schema key (after_events schema events s)
  unfolding after_events
  after_events-keeps [] s h = h
  after_events-keeps (event ∷ events) s h =
      after_events-keeps events (on_event schema event s) (on_event-IsSafe event s h)

  -- Whatever the buyer, the cart and the answers do, from a checkout that opens with anything that
  -- was recovered: every request for an order carries the key that the checkout was opened with, an
  -- address that the schema accepted with a postal code of its country, and a locker if its method
  -- needs one; and no request carries a VAT id.
  pub requested-AreProper :
      (events : List Event) (recovery : Option CheckoutRecovery) (items : List CartItem)
      (cart_id : Option String)
      → All
          (IsProper schema key)
          (after_events schema events (initial key recovery items cart_id)).requested
  requested-AreProper events recovery items cart_id =
      (after_events-keeps events (initial key recovery items cart_id) (
        unfold initial in
        (
          inr (record {
            no_vat = refl;
            no_check = refl;
            addressed = λ e. absurd (e refl);
            deliverable = λ e. absurd (cc);
          }),
          refl,
          tt,
        ))).2
