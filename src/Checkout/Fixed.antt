-- ===== src/Checkout/Fixed.antt =====
-- How an order stays the order of its checkout: in frontend/src/components/client/checkout, the effect
-- of payment-step.tsx that creates it, and the handlers that could replace it.
use mathlib.Core.Option.{some-injective}
use jolarca.Common.{
  ℕ, ◌-◌, ◌≡◌, refl, ap, sym, ◌∙◌, true, false, Bool, not, ◌&&◌, ◌||◌, Option, none, some, List, [],
  ◌∷◌, ltb, ◌is◌, if-either, if-cases, arith,
}
use jolarca.Common.Lists.{pick, All}
use jolarca.Common.Text.{is_empty, trim}
use jolarca.Errors.{Result, ok, throw}
use jolarca.Cart.Item.{is_contract_pending}
use jolarca.Checkout.Formats.{postal_code_valid, vat_id_format_valid}
use jolarca.Checkout.Orders.{CreatedOrder}
use jolarca.Checkout.Flow
use jolarca.Checkout.Flow.{
  CheckoutStep, address_step, delivery_step, payment_step, review_step, AddressData, OrderRequest,
  Checkout, start, kept_errors, is_some, prepare, in_phase, has_items, mount, render, go_to_step,
  unless_payment, unless_review, kept_error,
}
use jolarca.Checkout.FlowEvents.{
  set_delivery_method, can_continue, rank, in_step, settle_order, type_vat, check_vat,
  handle_continue, vat_answer, settle_vat, confirm, handle_place_order, settle_payment,
  set_terms_accepted, Event, store_address, handle_submit, on_event, after_events,
}

module _ (order : CreatedOrder) (requests : List OrderRequest) where
  -- The order stands, no request is out, none was added, and only this order is paid.
  abbrev pub IsFixed : Checkout → Type 0
  IsFixed s =
      (s.order ≡ some order)
      × (s.in_flight ≡ [])
      × (s.requested ≡ requests)
      × All (λ id. id ≡ order.order_id) s.confirmed

  prepare-IsFixed : (s : Checkout) → IsFixed s → IsFixed (prepare s)
  unfolding prepare
  prepare-IsFixed s h =
      let made : is_some s.order ≡ true = ap is_some h.0 in
      if-cases IsFixed (not s.is_mounted || is_some s.order || s.started) (λ stays. h)
        (λ goes. absurd (ground (arith, goes, made)))

  render-IsFixed : (s : Checkout) → IsFixed s → IsFixed (render s)
  unfolding render
  render-IsFixed s h =
      if-either IsFixed (in_phase s.step && has_items s.items)
        (if-either IsFixed s.is_mounted (prepare-IsFixed s h) (prepare-IsFixed (mount s) h)) h

  go_to_step-IsFixed :
      (next : CheckoutStep) (s : Checkout) → IsFixed s → IsFixed (go_to_step next s)
  unfolding go_to_step
  go_to_step-IsFixed next s h =
      render-IsFixed
        (record s {
          step = next;
          submitting = unless_payment s.step s.submitting;
          placing = unless_review s.step s.placing;
          terms_error = unless_review s.step s.terms_error;
          payment_error = kept_error s.step s.payment_error;
        })
        h

  settle_order-IsFixed :
      (n : ℕ) (result : Result CreatedOrder) (s : Checkout)
      → IsFixed s
      → IsFixed (settle_order n result s)
  unfolding settle_order pick
  settle_order-IsFixed n result s h = rw (h.1, settle_order) h

  check_vat-IsFixed :
      (address : Option AddressData) (s : Checkout) → IsFixed s → IsFixed (check_vat address s)
  check_vat-IsFixed none s h =
      go_to_step-IsFixed review_step (record s { vat_status = Flow.VatStatus.idle }) h
  check_vat-IsFixed (some address) s h =
      if-either IsFixed (is_empty (trim s.vat_id))
        (go_to_step-IsFixed review_step (record s { vat_status = Flow.VatStatus.idle }) h)
        (if-either IsFixed (vat_id_format_valid address.country s.vat_id) h h)

  vat_answer-IsFixed :
      (result : Result Bool) (s : Checkout) → IsFixed s → IsFixed (vat_answer result s)
  vat_answer-IsFixed (ok true) s h =
      go_to_step-IsFixed review_step (record s { vat_status = Flow.VatStatus.valid }) h
  vat_answer-IsFixed (ok false) s h = h
  vat_answer-IsFixed (throw e) s h =
      if-either IsFixed (is_contract_pending e)
        (go_to_step-IsFixed review_step (record s { vat_status = Flow.VatStatus.idle }) h) h

  confirm-IsFixed :
      (o : Option CreatedOrder) (s : Checkout) → s.order ≡ o → IsFixed s → IsFixed (confirm o s)
  confirm-IsFixed none s e h = h
  confirm-IsFixed (some o) s e (made, idle, same, paid) =
      (made, idle, same, (ap CreatedOrder.order_id (some-injective _ _ (sym e ∙ made)), paid))

  handle_place_order-IsFixed : (s : Checkout) → IsFixed s → IsFixed (handle_place_order s)
  unfolding handle_place_order
  handle_place_order-IsFixed s h =
      if-either IsFixed (in_step review_step s)
        (if-either IsFixed (not s.terms_accepted) h
          (if-either IsFixed s.placing h (confirm-IsFixed s.order s refl h)))
        h

  module _ (schema : AddressData → Option AddressData) where
    store_address-IsFixed :
        (form : AddressData) (address : Option AddressData) (s : Checkout)
        → IsFixed s
        → IsFixed (store_address schema form address s)
    store_address-IsFixed form none s h = h
    store_address-IsFixed form (some address) s h =
        if-either IsFixed (postal_code_valid form.country form.postal_code)
          (go_to_step-IsFixed delivery_step
            (record s { address = some address; address_errors = Flow.AddressErrors.no_errors }) h)
          h

    on_event-IsFixed :
        (event : Event) (s : Checkout) → IsFixed s → IsFixed (on_event schema event s)
    unfolding on_event
    on_event-IsFixed (Event.submit_address form) s h =
        unfold handle_submit in
        if-either IsFixed (in_step address_step s) (store_address-IsFixed form (schema form) s h) h
    on_event-IsFixed (Event.choose_method method) s h =
        unfold set_delivery_method in if-either IsFixed (in_step delivery_step s) h h
    on_event-IsFixed (Event.choose_locker locker) s h =
        if-either IsFixed (in_step delivery_step s) h h
    on_event-IsFixed Event.proceed s h =
        if-either IsFixed (in_step delivery_step s && can_continue s.delivery_method s.locker)
          (go_to_step-IsFixed payment_step s h) h
    on_event-IsFixed Event.place_order s h = handle_place_order-IsFixed s h
    on_event-IsFixed (Event.payment_failed code type_) s h =
        unfold settle_payment in if-either IsFixed s.placing h h
    on_event-IsFixed (Event.go_back step) s h =
        if-either IsFixed (ltb (rank step) (rank s.step) && has_items s.items)
          (go_to_step-IsFixed step s h) h
    on_event-IsFixed (Event.order_answered n result) s h = settle_order-IsFixed n result s h
    on_event-IsFixed (Event.enter_vat vat_id) s h =
        unfold type_vat in if-either IsFixed (in_step payment_step s && is_some s.order) h h
    on_event-IsFixed (Event.continue_payment fields_ok) s h =
        unfold handle_continue in
        if-either IsFixed
          (in_step payment_step s && is_some s.order && not s.submitting && fields_ok)
          (check_vat-IsFixed s.address s h) h
    on_event-IsFixed (Event.vat_answered result) s h =
        unfold settle_vat in
        if-either IsFixed (s.vat_checks is 0) h (
          vat_answer-IsFixed result (record s { vat_checks = s.vat_checks - 1; submitting = false })
            h)
    on_event-IsFixed (Event.accept_terms accepted) s h =
        unfold set_terms_accepted in if-either IsFixed (in_step review_step s) h h
    on_event-IsFixed (Event.cart_changes items cart_id) s h =
        render-IsFixed
          (record s {
            items = items;
            cart_id = cart_id;
            address_errors = kept_errors items s.address_errors;
          })
          h

    after_events-IsFixed :
        (events : List Event) (s : Checkout) → IsFixed s → IsFixed (after_events schema events s)
    unfolding after_events
    after_events-IsFixed [] s h = h
    after_events-IsFixed (event ∷ events) s h =
        after_events-IsFixed events (on_event schema event s) (on_event-IsFixed event s h)

-- In a checkout that has an order, with no request for another one out: whatever the buyer, the cart
-- and the answers do from then on, the order stays and no further one is requested; and if all
-- payments so far were started for this order, so are all later ones.
pub after_events_keep_order :
    (schema : AddressData → Option AddressData) (order : CreatedOrder) (events : List Event)
    (s : Checkout)
    → s.order ≡ some order
    → s.in_flight ≡ []
    → All (λ id. id ≡ order.order_id) s.confirmed
    → let t = after_events schema events s in
      (t.order ≡ some order)
      × (t.requested ≡ s.requested)
      × All (λ id. id ≡ order.order_id) t.confirmed
after_events_keep_order schema order events s made idle paid =
    let (stays, none_out, same, all_paid) =
      after_events-IsFixed order s.requested schema events s (made, idle, refl, paid) in
    (stays, same, all_paid)
