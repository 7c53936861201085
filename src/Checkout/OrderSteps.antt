-- ===== src/Checkout/OrderSteps.antt =====
-- How the order, its payment and the check of its VAT id, in payment-step.tsx and review-step.tsx of
-- frontend/src/components/client/checkout, keep a checkout safe.
use jolarca.Common.{
  ℕ, ◌-◌, String, ◌≡◌, refl, Bool, true, false, not, ◌&&◌, ◌⊎◌, inl, inr, Option, none, some, ◌is◌,
  if-either, if-cases, Option-cases, arith,
}
use jolarca.Common.Lists.{pick, All}
use jolarca.Common.Text.{is_empty, trim}
use jolarca.Errors.{Result, ok, throw}
use jolarca.Cart.Item.{is_contract_pending}
use jolarca.Checkout.Formats.{vat_id_format_valid}
use jolarca.Checkout.Orders.{CreatedOrder}
use jolarca.Checkout.Flow
use jolarca.Checkout.Flow.{
  CheckoutStep, address_step, delivery_step, payment_step, review_step, AddressData, OrderRequest,
  Checkout, initial, locker_id, request_of, start, kept_errors, is_some, prepare, in_phase,
  has_items, mount, render, go_to_step, answer,
}
use jolarca.Checkout.FlowEvents.{
  in_step, settle_order, type_vat, check_vat, handle_continue, vat_answer, settle_vat, confirm,
}
use jolarca.Checkout.Steps.{IsProper, IsEarly, IsSafe, render-IsSafe}

module _ (schema : AddressData → Option AddressData) (key : String) where
  -- A step to which the buyer may go.
  pub go_to_step-IsSafe :
      (next : CheckoutStep) (s : Checkout)
      → (is_some s.order ≡ true)
        ⊎ IsEarly schema key s.vat_id s.vat_checks next s.address s.delivery_method s.locker
      → s.idempotency_key ≡ key
      → All (IsProper schema key) s.requested
      → IsSafe schema key (go_to_step next s)
  unfolding go_to_step
  go_to_step-IsSafe next s open_ keyed proper = render-IsSafe schema key _ (open_, keyed, proper)

  -- An event that needs an order, and goes to the review at most.
  go_to_review :
      (s : Checkout)
      → is_some s.order ≡ true
      → IsSafe schema key s
      → IsSafe schema key (go_to_step review_step s)
  go_to_review s made (before, keyed, proper) =
      go_to_step-IsSafe review_step s (inl made) keyed proper

  answer-IsSafe :
      (result : Result CreatedOrder) (mounting : ℕ) (is_current : Bool) (s : Checkout)
      → IsSafe schema key s
      → IsSafe schema key (answer result mounting is_current s)
  answer-IsSafe (ok order) mounting is_current s (before, keyed, proper) = (inl refl, keyed, proper)
  answer-IsSafe (throw e) mounting is_current s h = if-either (IsSafe schema key) is_current h h

  pub settle_order-IsSafe :
      (n : ℕ) (result : Result CreatedOrder) (s : Checkout)
      → IsSafe schema key s
      → IsSafe schema key (settle_order n result s)
  unfolding settle_order
  settle_order-IsSafe n result s h = elim (Option-cases (pick n s.in_flight)) [
    | inl missing ↦ rw (missing, settle_order) h
    | inr ((mounting, others), found) ↦
        rw (found, settle_order)
          (answer-IsSafe result mounting _ (record s { in_flight = others }) h)
  ]

  pub type_vat-IsSafe :
      (vat_id : String) (s : Checkout) → IsSafe schema key s → IsSafe schema key (type_vat vat_id s)
  unfolding type_vat
  type_vat-IsSafe vat_id s (before, keyed, proper) =
      if-cases (IsSafe schema key) (in_step payment_step s && is_some s.order)
        (λ made. (inl (ground (arith, made)), keyed, proper)) (λ e. (before, keyed, proper))

  check_vat-IsSafe :
      (address : Option AddressData) (s : Checkout)
      → is_some s.order ≡ true
      → IsSafe schema key s
      → IsSafe schema key (check_vat address s)
  check_vat-IsSafe none s made h =
      go_to_review (record s { vat_status = Flow.VatStatus.idle }) made h
  check_vat-IsSafe (some address) s made (before, keyed, proper) =
      if-either (IsSafe schema key) (is_empty (trim s.vat_id))
        (go_to_review (record s { vat_status = Flow.VatStatus.idle }) made (before, keyed, proper))
        (if-either (IsSafe schema key) (vat_id_format_valid address.country s.vat_id)
          (inl made, keyed, proper) (inl made, keyed, proper))

  pub handle_continue-IsSafe :
      (fields_ok : Bool) (s : Checkout)
      → IsSafe schema key s
      → IsSafe schema key (handle_continue fields_ok s)
  unfolding handle_continue
  handle_continue-IsSafe fields_ok s h =
      if-cases (IsSafe schema key)
        (in_step payment_step s && is_some s.order && not s.submitting && fields_ok)
        (λ e. check_vat-IsSafe s.address s (ground (arith, e)) h) (λ e. h)

  vat_answer-IsSafe :
      (result : Result Bool) (s : Checkout)
      → is_some s.order ≡ true
      → IsSafe schema key s
      → IsSafe schema key (vat_answer result s)
  vat_answer-IsSafe (ok true) s made h =
      go_to_review (record s { vat_status = Flow.VatStatus.valid }) made h
  vat_answer-IsSafe (ok false) s made h = h
  vat_answer-IsSafe (throw e) s made h =
      if-either (IsSafe schema key) (is_contract_pending e)
        (go_to_review (record s { vat_status = Flow.VatStatus.idle }) made h) h

  pub settle_vat-IsSafe :
      (result : Result Bool) (s : Checkout)
      → IsSafe schema key s
      → IsSafe schema key (settle_vat result s)
  unfolding settle_vat
  settle_vat-IsSafe result s (before, keyed, proper) =
      if-cases (IsSafe schema key) (s.vat_checks is 0) (λ e. (before, keyed, proper))
        (λ some_check.
          let made : is_some s.order ≡ true = elim before [
            | inl made ↦ made
            | inr early ↦ absurd (ground (arith, some_check, early.no_check))
          ] in
          vat_answer-IsSafe result (record s { vat_checks = s.vat_checks - 1; submitting = false })
            made (inl made, keyed, proper))

  pub confirm-IsSafe :
      (order : Option CreatedOrder) (s : Checkout)
      → IsSafe schema key s
      → IsSafe schema key (confirm order s)
  confirm-IsSafe none s h = h
  confirm-IsSafe (some order) s h = h
