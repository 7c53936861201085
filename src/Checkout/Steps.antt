-- ===== src/Checkout/Steps.antt =====
-- What each step of the checkout of frontend/src/components/client/checkout relies on, and what the
-- effect that creates the order sends.
use mathlib.Core.Path.{subst}
use mathlib.Core.Option.{some-injective}
use jolarca.Common.{
  ℕ, ◌≤◌, String, ◌≡◌, ◌≢◌, refl, sym, ap, ◌∙◌, true, not, ◌&&◌, ◌||◌, ◌⊎◌, inl, inr, Option, none,
  some, if-either, if-cases, arith,
}
use jolarca.Common.Lists.{All}
use jolarca.Common.Text.{or_undefined}
use jolarca.Checkout.Delivery.{DeliveryMethodId, ParcelLocker}
use jolarca.Checkout.Formats.{postal_code_valid}
use jolarca.Checkout.Flow.{
  CheckoutStep, address_step, delivery_step, payment_step, review_step, AddressData, OrderRequest,
  Checkout, locker_id, request_of, start, is_some, prepare, in_phase, has_items, mount, render,
}
use jolarca.Checkout.FlowEvents.{needs_locker, can_continue, rank}

-- A step behind another one is not the first.
pub later_step :
    (step current : CheckoutStep)
    → step ≢ address_step
    → rank step ≤ rank current
    → current ≢ address_step
later_step address_step address_step h le = h
later_step step delivery_step h le = λ e. cc
later_step step payment_step h le = λ e. cc
later_step step review_step h le = λ e. cc
later_step delivery_step address_step h le = absurd (omega arith)
later_step payment_step address_step h le = absurd (omega arith)
later_step review_step address_step h le = absurd (omega arith)

pub later_phase :
    (step current : CheckoutStep)
    → in_phase step ≡ true
    → rank step ≤ rank current
    → in_phase current ≡ true
later_phase step payment_step h le = refl
later_phase step review_step h le = refl
later_phase address_step current h le = absurd (cc)
later_phase delivery_step current h le = absurd (cc)
later_phase payment_step address_step h le = absurd (omega arith)
later_phase payment_step delivery_step h le = absurd (omega arith)
later_phase review_step address_step h le = absurd (omega arith)
later_phase review_step delivery_step h le = absurd (omega arith)

pub not_in_phase : (step : CheckoutStep) → in_phase step ≡ true → 1 ≡ rank step → ⊥
not_in_phase address_step h e = omega arith
not_in_phase delivery_step h e = cc
not_in_phase payment_step h e = omega arith
not_in_phase review_step h e = omega arith

module _ (schema : AddressData → Option AddressData) (key : String) where
  -- The address is what the schema makes of a form whose postal code is one of its country.
  pub record IsSubmitted (address : AddressData) : Type 0 where
    pub form : AddressData
    pub parsed : schema form ≡ some address
    pub postal : postal_code_valid form.country form.postal_code ≡ true

  -- Under the checkout's key, for an address of the form, to a locker if the method needs one, and
  -- without a VAT id.
  pub record IsProper (request : OrderRequest) : Type 0 where
    pub keyed : request.idempotency_key ≡ key
    pub submitted : IsSubmitted request.address
    pub delivered : needs_locker request.method ≡ true → request.locker_id ≢ none
    pub untaxed : request.vat_id ≡ none

  -- Before there is an order, no VAT id stands in the checkout, and each step has what the earlier
  -- ones ask for.
  pub record IsEarly (vat_id : String) (vat_checks : ℕ) (step : CheckoutStep)
      (address : Option AddressData) (method : Option DeliveryMethodId)
      (locker : Option ParcelLocker) : Type 0 where
    pub no_vat : vat_id ≡ ""
    pub no_check : vat_checks ≡ 0
    pub addressed : step ≢ address_step → (a : AddressData) × (address ≡ some a) × IsSubmitted a
    pub deliverable : in_phase step ≡ true → can_continue method locker ≡ true

  abbrev pub IsSafe : Checkout → Type 0
  IsSafe s =
      ((is_some s.order ≡ true)
        ⊎ IsEarly s.vat_id s.vat_checks s.step s.address s.delivery_method s.locker)
      × (s.idempotency_key ≡ key)
      × All IsProper s.requested

  deliverable-locker :
      (method : DeliveryMethodId) (locker : Option ParcelLocker)
      → can_continue (some method) locker ≡ true
      → needs_locker method ≡ true
      → locker_id locker ≢ none
  unfolding can_continue
  deliverable-locker method none h n = λ e. absurd (ground (arith, h, n))
  deliverable-locker method (some locker) h n = λ e. cc

  in_phase-ne : (step : CheckoutStep) → in_phase step ≡ true → step ≢ address_step
  in_phase-ne address_step h = λ e. absurd (cc)
  in_phase-ne delivery_step h = λ e. cc
  in_phase-ne payment_step h = λ e. cc
  in_phase-ne review_step h = λ e. cc

  start-IsSafe :
      (address : Option AddressData) (method : Option DeliveryMethodId) (s : Checkout)
      → s.address ≡ address
      → s.delivery_method ≡ method
      → in_phase s.step ≡ true
      → IsEarly s.vat_id s.vat_checks s.step s.address s.delivery_method s.locker
      → IsSafe s
      → IsSafe (start address method s)
  start-IsSafe none method s ea em phase early h = h
  start-IsSafe (some address) none s ea em phase early h = h
  start-IsSafe (some address) (some method) s ea em phase early (open_, keyed, proper) =
      let (a, found, submitted) = early.addressed (in_phase-ne s.step phase) in
      let request : IsProper (request_of address method s) = record {
        keyed = keyed;
        submitted = subst IsSubmitted (some-injective _ _ (sym found ∙ ea)) submitted;
        delivered =
            deliverable-locker method s.locker
              (subst (λ m. can_continue m s.locker ≡ true) em (early.deliverable phase));
        untaxed = ap or_undefined early.no_vat;
      } in
      (open_, keyed, (request, proper))

  prepare-IsSafe : (s : Checkout) → in_phase s.step ≡ true → IsSafe s → IsSafe (prepare s)
  unfolding prepare
  prepare-IsSafe s phase h =
      if-cases IsSafe (not s.is_mounted || is_some s.order || s.started) (λ stays. h)
        (λ goes.
          start-IsSafe s.address s.delivery_method s refl refl phase
            (elim h.0 [ inl made ↦ absurd (ground (arith, goes, made)) | inr early ↦ early ]) h)

  pub render-IsSafe : (s : Checkout) → IsSafe s → IsSafe (render s)
  unfolding render
  render-IsSafe s h =
      if-cases IsSafe (in_phase s.step && has_items s.items)
        (λ stands.
          let phase : in_phase s.step ≡ true = ground arith in
          if-either IsSafe s.is_mounted (prepare-IsSafe s phase h)
            (prepare-IsSafe (mount s) phase h))
        (λ gone. h)
