-- ===== src/Seller/Submissions.antt =====
-- What the onboarding of frontend/src/components/client/seller/onboarding-wizard.tsx sends about a
-- business, and how its form tells of the schema's issues.
use mathlib.Core.Path.{subst}
use jolarca.Common.{
  ◌-◌, String, ◌≡◌, refl, Bool, true, false, not, ◌&&◌, ◌⊎◌, inl, inr, Option, none, some, List, [],
  ◌∷◌, ltb, leb, if◌then◌else◌, if-either,
}
use jolarca.Common.Lists.{All}
use jolarca.Common.Record.{Entries, insert}
use jolarca.Common.Text.{is_empty, starts_with}
use jolarca.Errors.{Result, ok, throw}
use jolarca.Cart.Item.{is_contract_pending}
use jolarca.Checkout.Formats.{vat_id_format_valid, registration_number_valid}
use jolarca.Seller.Kyc
use jolarca.Seller.Kyc.{File, Step, business_step, identity_step, payout_step, review_step}
use jolarca.Seller.Business.{BusinessInfo, FieldError, invalid, Issue, format_errors}
use jolarca.Seller.Wizard.{
  Wizard, initial, is_step, go_to_step, max_image_bytes, handle_logo, end_logo, settle_logo,
  store_info, can_connect, end_connect, settle_connect, send_info, end_submit, settle_submit,
}
use jolarca.Seller.WizardEvents.{
  Event, is_answer, store_parsed, handle_submit, on_event, after_events,
}

clean_tests :
    (registered empty taxed : Bool)
    → (let errors : Entries FieldError =
          if registered then [] else ("registrationNumber", invalid) ∷ [] in
        if not empty && not taxed then insert "vatId" invalid errors else errors)
      ≡ []
    → (registered ≡ true) × ((empty ≡ true) ⊎ (taxed ≡ true))
unfolding insert
clean_tests true true taxed e = (refl, inl refl)
clean_tests true false true e = (refl, inr refl)
clean_tests true false false e = absurd (cc)
clean_tests false true taxed e = absurd (cc)
clean_tests false false true e = absurd (cc)
clean_tests false false false e = absurd (cc)

module _ (schema : BusinessInfo → BusinessInfo ⊎ List Issue) where
  -- The schema made it of a form with a registration number of the form's country, and with no VAT id
  -- or one of that country.
  pub record IsChecked (info : BusinessInfo) : Type 0 where
    pub form : BusinessInfo
    pub parsed : schema form ≡ inl info
    pub registered : registration_number_valid form.country form.registration_number ≡ true
    pub taxed :
        (is_empty form.vat_id ≡ true) ⊎ (vat_id_format_valid form.country form.vat_id ≡ true)

  abbrev IsStored : Option BusinessInfo → Type 0
  IsStored none = Unit
  IsStored (some info) = IsChecked info

  abbrev IsProper : Wizard → Type 0
  IsProper w = IsStored w.business_info × All (λ request. IsChecked request.0) w.sent

  -- A form without errors of its formats.
  no_format_errors :
      (form : BusinessInfo)
      → format_errors form ≡ []
      → (registration_number_valid form.country form.registration_number ≡ true)
        × ((is_empty form.vat_id ≡ true) ⊎ (vat_id_format_valid form.country form.vat_id ≡ true))
  unfolding format_errors
  no_format_errors form e =
      clean_tests (registration_number_valid form.country form.registration_number)
        (is_empty form.vat_id) (vat_id_format_valid form.country form.vat_id) e

  go_to_step-IsProper : (step : Step) (w : Wizard) → IsProper w → IsProper (go_to_step step w)
  unfolding go_to_step
  go_to_step-IsProper step w h = if-either IsProper (is_step step w.kyc.step) h h

  store_info-IsProper :
      (info : BusinessInfo) (errors : Entries FieldError) (w : Wizard)
      → (errors ≡ [] → IsChecked info)
      → IsProper w
      → IsProper (store_info info errors w)
  store_info-IsProper info [] w checked (stored, sent) =
      go_to_step-IsProper identity_step (record w { errors = []; business_info = some info })
        (checked refl, sent)
  store_info-IsProper info (e ∷ errors) w checked h = h

  store_parsed-IsProper :
      (parsed : BusinessInfo ⊎ List Issue) (w : Wizard)
      → schema w.form ≡ parsed
      → IsProper w
      → IsProper (store_parsed schema parsed w)
  store_parsed-IsProper (inr issues) w e h = h
  store_parsed-IsProper (inl info) w e h =
      store_info-IsProper info (format_errors w.form) w
        (λ clean. record {
          form = w.form;
          parsed = e;
          registered = (no_format_errors w.form clean).0;
          taxed = (no_format_errors w.form clean).1;
        })
        h

  handle_logo-IsProper :
      (file : Option File) (w : Wizard) → IsProper w → IsProper (handle_logo file w)
  unfolding handle_logo
  handle_logo-IsProper none w h = h
  handle_logo-IsProper (some file) w h =
      if-either IsProper (not (starts_with file.type_ "image/")) h
        (if-either IsProper (not (leb file.size max_image_bytes)) h h)

  end_logo-IsProper :
      (here : Bool) (result : Result String) (w : Wizard)
      → IsProper w
      → IsProper (end_logo here result w)
  end_logo-IsProper here (ok data_url) w h = h
  end_logo-IsProper true (throw e) w h = h
  end_logo-IsProper false (throw e) w h = h

  end_connect-IsProper :
      (here : Bool) (result : Result String) (w : Wizard)
      → IsProper w
      → IsProper (end_connect here result w)
  end_connect-IsProper here (ok url) w h = h
  end_connect-IsProper here (throw e) w h = if-either IsProper (is_contract_pending e) h h

  end_submit-IsProper :
      (here : Bool) (result : Result (Unit {0})) (w : Wizard)
      → IsProper w
      → IsProper (end_submit here result w)
  end_submit-IsProper here (ok done) w h = h
  end_submit-IsProper true (throw e) w h = h
  end_submit-IsProper false (throw e) w h = h

  send_info-IsProper :
      (info : Option BusinessInfo) (w : Wizard)
      → w.business_info ≡ info
      → IsProper w
      → IsProper (send_info info w)
  send_info-IsProper none w e h = go_to_step-IsProper business_step w h
  send_info-IsProper (some info) w e (stored, sent) = (stored, (subst IsStored e stored, sent))

  on_event-IsProper : (event : Event) (w : Wizard) → IsProper w → IsProper (on_event schema event w)
  unfolding on_event handle_submit settle_logo settle_connect settle_submit
  on_event-IsProper (Event.step_to step) w h = go_to_step-IsProper step w h
  on_event-IsProper (Event.type_field name value) w h =
      if-either IsProper (is_step business_step w.kyc.step) h h
  on_event-IsProper (Event.choose_country country) w h =
      if-either IsProper (is_step business_step w.kyc.step) h h
  on_event-IsProper (Event.choose_type type_) w h =
      if-either IsProper (is_step business_step w.kyc.step) h h
  on_event-IsProper (Event.choose_logo file) w h =
      if-either IsProper (is_step business_step w.kyc.step) (handle_logo-IsProper file w h) h
  on_event-IsProper Event.remove_logo w h =
      if-either IsProper (is_step business_step w.kyc.step) h h
  on_event-IsProper Event.submit_form w h =
      if-either IsProper (is_step business_step w.kyc.step)
        (store_parsed-IsProper (schema w.form) w refl h) h
  on_event-IsProper (Event.logo_converted here result) w h =
      if-either IsProper (ltb 0 w.converting)
        (end_logo-IsProper here result (record w { converting = w.converting - 1 }) h) h
  on_event-IsProper Event.connect w h =
      if-either IsProper
        (is_step payout_step w.kyc.step && can_connect w.connect_status && not w.portal_pending) h h
  on_event-IsProper (Event.connect_answered here result) w h =
      if-either IsProper (ltb 0 w.connecting)
        (end_connect-IsProper here result (record w { connecting = w.connecting - 1 }) h) h
  on_event-IsProper (Event.connect_returned refused) w h =
      if-either IsProper (is_step payout_step w.kyc.step) h h
  on_event-IsProper (Event.document event) w h = if-either IsProper (is_answer event) h (
      if-either IsProper (is_step identity_step w.kyc.step)
        (go_to_step-IsProper (Kyc.on_event event w.kyc).step
          (record w { kyc = record (Kyc.on_event event w.kyc) { step = w.kyc.step } }) h)
        h)
  on_event-IsProper Event.review_submit w h =
      if-either IsProper (is_step review_step w.kyc.step && not w.submitting)
        (send_info-IsProper w.business_info w refl h) h
  on_event-IsProper (Event.submit_answered here result) w h =
      if-either IsProper (ltb 0 w.submissions)
        (end_submit-IsProper here result (record w { submissions = w.submissions - 1 }) h) h

  after_events-keeps :
      (events : List Event) (w : Wizard) → IsProper w → IsProper (after_events schema events w)
  unfolding after_events
  after_events-keeps [] w h = h
  after_events-keeps (event ∷ events) w h =
      after_events-keeps events (on_event schema event w) (on_event-IsProper event w h)

  -- Whatever the seller does and in whatever order the answers come, the stepper included: what the
  -- review sends about the business was made by the schema of a form whose registration number fits
  -- the form's country and whose VAT id is empty or fits that country.
  pub sent-AreChecked :
      (events : List Event)
      → All (λ request. IsChecked request.0) (after_events schema events initial).sent
  sent-AreChecked events = (after_events-keeps events initial (tt, tt)).1
