-- ===== src/Seller/WizardEvents.antt =====
-- What the seller, the browser and the server do in the onboarding of
-- frontend/src/components/client/seller/onboarding-wizard.tsx, where each event needs its step.
use jolarca.Common.{
  String, Bool, true, false, not, ◌&&◌, ◌⊎◌, inl, inr, Option, none, List, [], ◌∷◌, if◌then◌else◌,
}
use jolarca.Errors.{Result}
use jolarca.Seller.Kyc
use jolarca.Seller.Kyc.{
  File, Step, business_step, identity_step, payout_step, review_step, Onboarding,
}
use jolarca.Seller.Business.{
  BusinessInfo, FieldName, with_field, BusinessType, Issue, business_field_errors, format_errors,
}
use jolarca.Checkout.Delivery.{CheckoutCountry}
use jolarca.Seller.Wizard.{
  Wizard, is_step, go_to_step, handle_logo, settle_logo, store_info, returned, can_connect,
  start_connect, settle_connect, send_info, settle_submit,
}

-- What the seller, the browser and the server do.
pub data Event : Type 0 where
  step_to : Step → Event
  type_field : FieldName → String → Event
  choose_country : CheckoutCountry → Event
  choose_type : BusinessType → Event
  choose_logo : Option File → Event
  remove_logo submit_form connect review_submit : Event
  logo_converted connect_answered : (here : Bool) → Result String → Event
  connect_returned : (refused : Bool) → Event
  document : Kyc.Event → Event
  submit_answered : (here : Bool) → Result (Unit {0}) → Event

-- An answer comes in any step; the rest of the documents' events needs the second.
abbrev pub is_answer : Kyc.Event → Bool
is_answer (Kyc.Event.answered n answer) = true
is_answer _ = false

abbrev pub in_step : Step → Wizard → Wizard → Wizard
in_step step next w = if is_step step w.kyc.step then next else w

module _ (schema : BusinessInfo → BusinessInfo ⊎ List Issue) where
  abbrev pub store_parsed : BusinessInfo ⊎ List Issue → Wizard → Wizard
  store_parsed (inr issues) w = record w { errors = business_field_errors issues }
  store_parsed (inl info) w = store_info info (format_errors w.form) w

  -- `handleSubmit` of the form.
  unfoldable pub handle_submit : Wizard → Wizard
  unfolding business_field_errors format_errors go_to_step
  handle_submit w = store_parsed (schema w.form) w

  unfoldable pub on_event : Event → Wizard → Wizard
  unfolding go_to_step handle_logo settle_logo start_connect settle_connect handle_submit
      settle_submit Kyc.on_event
  on_event (step_to step) w = go_to_step step w
  on_event (type_field name value) w =
      in_step business_step (record w { form = with_field name value w.form }) w
  on_event (choose_country country) w =
      in_step business_step (record w { form = record w.form { country = country } }) w
  on_event (choose_type type_) w =
      in_step business_step (record w { form = record w.form { business_type = type_ } }) w
  on_event (choose_logo file) w = in_step business_step (handle_logo file w) w
  on_event remove_logo w = in_step business_step (record w { logo = none }) w
  on_event submit_form w = in_step business_step (handle_submit w) w
  on_event (logo_converted here result) w = settle_logo here result w
  on_event connect w =
      if is_step payout_step w.kyc.step && can_connect w.connect_status && not w.portal_pending
      then start_connect w
      else w
  on_event (connect_answered here result) w = settle_connect here result w
  on_event (connect_returned refused) w = in_step payout_step (returned refused w) w
  on_event (document event) w =
      let next = Kyc.on_event event w.kyc in
      if is_answer event
      then record w { kyc = next }
      else in_step identity_step
          (go_to_step next.step (record w { kyc = record next { step = w.kyc.step } })) w
  on_event review_submit w =
      if is_step review_step w.kyc.step && not w.submitting then send_info w.business_info w else w
  on_event (submit_answered here result) w = settle_submit here result w

  unfoldable pub after_events : List Event → Wizard → Wizard
  unfolding on_event
  after_events [] w = w
  after_events (event ∷ events) w = after_events events (on_event event w)
