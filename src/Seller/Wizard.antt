-- ===== src/Seller/Wizard.antt =====
-- The onboarding of a seller: the state of
-- frontend/src/components/client/seller/onboarding-provider.tsx and the steps beside it,
-- business-info-form.tsx, payout-setup.tsx and review-step.tsx, with the stepper of
-- onboarding-wizard.tsx. The documents of the second step are those of Kyc.
use jolarca.Common.{
  ℕ, suc, ◌-◌, String, Bool, true, false, not, ◌&&◌, Option, none, some, List, [], ◌∷◌, ltb, leb,
  if◌then◌else◌,
}
use jolarca.Common.Record.{Entries}
use jolarca.Common.Text.{starts_with, has_prefix}
use jolarca.Errors.{Result, ok, throw}
use jolarca.Cart.Item.{is_contract_pending}
use jolarca.Seller.Kyc
use jolarca.Seller.Kyc.{
  File, Step, business_step, identity_step, payout_step, review_step, Onboarding,
}
use jolarca.Seller.Business.{BusinessInfo, first_form, FieldError}

pub data ConnectStatus : Type 0 where
  idle redirecting success error : ConnectStatus

pub data Outcome : Type 0 where
  unsent pending failed : Outcome

pub data LogoError : Type 0 where
  no_error not_image too_large not_converted : LogoError

-- The context's state and the state of the step that is shown, with the conversions and calls whose
-- end is outstanding, what was sent, the newest first, and the pages that were opened.
pub record Wizard : Type 0 where
  pub kyc : Onboarding
  pub business_info : Option BusinessInfo
  pub logo : Option String
  pub connect_status : ConnectStatus
  pub form : BusinessInfo
  pub errors : Entries FieldError
  pub logo_error : LogoError
  pub logo_busy : Bool
  pub portal_pending : Bool
  pub submitting : Bool
  pub outcome : Outcome
  pub converting : ℕ
  pub connecting : ℕ
  pub submissions : ℕ
  pub sent : List (BusinessInfo × Option String)
  pub opened : List String

abbrev pub initial : Wizard
initial = record {
  kyc = Kyc.initial;
  business_info = none;
  logo = none;
  connect_status = idle;
  form = first_form none;
  errors = [];
  logo_error = no_error;
  logo_busy = false;
  portal_pending = false;
  submitting = false;
  outcome = unsent;
  converting = 0;
  connecting = 0;
  submissions = 0;
  sent = [];
  opened = [];
}

abbrev pub rank : Step → ℕ
rank business_step = 0
rank identity_step = 1
rank payout_step = 2
rank review_step = 3

abbrev pub is_step : Step → Step → Bool
is_step step other = leb (rank step) (rank other) && leb (rank other) (rank step)

-- A step that is entered starts with its own first state.
abbrev pub fresh_step : Wizard → Wizard
fresh_step w = record w {
  form = first_form w.business_info;
  errors = [];
  logo_error = no_error;
  logo_busy = false;
  portal_pending = false;
  submitting = false;
  outcome = unsent;
}

unfoldable pub go_to_step : Step → Wizard → Wizard
go_to_step step w =
    let next = record w { kyc = record w.kyc { step = step } } in
    if is_step step w.kyc.step then next else fresh_step next

abbrev pub max_image_bytes : ℕ
max_image_bytes = 2097152

-- `handleLogo` up to the conversion.
unfoldable pub handle_logo : Option File → Wizard → Wizard
unfolding has_prefix
handle_logo none w = record w { logo_error = no_error }
handle_logo (some file) w =
    if not (starts_with file.type_ "image/")
    then record w { logo_error = not_image }
    else if not (leb file.size max_image_bytes)
    then record w { logo_error = too_large }
    else record w { logo_error = no_error; logo_busy = true; converting = suc w.converting }

-- `handleLogo` from the conversion's end on. `here`: whether the form that began it is still shown.
abbrev pub end_logo : (here : Bool) → Result String → Wizard → Wizard
end_logo here (ok data_url) w = record w {
  logo = some data_url;
  logo_busy = w.logo_busy && not here;
}
end_logo true (throw e) w = record w { logo_error = not_converted; logo_busy = false }
end_logo false (throw e) w = w

unfoldable pub settle_logo : (here : Bool) → Result String → Wizard → Wizard
settle_logo here result w =
    if ltb 0 w.converting
    then end_logo here result (record w { converting = w.converting - 1 })
    else w

-- The choice of the form once the formats are checked.
abbrev pub store_info : BusinessInfo → Entries FieldError → Wizard → Wizard
store_info info [] w =
    go_to_step identity_step (record w { errors = []; business_info = some info })
store_info info (e ∷ errors) w = record w { errors = e ∷ errors }

-- `setConnectStatus` on the return from Stripe.
abbrev pub returned : (refused : Bool) → Wizard → Wizard
returned refused w = record w { connect_status = if refused then error else success }

-- `startConnect` up to the call; its button stands only where it is shown and not disabled.
abbrev pub can_connect : ConnectStatus → Bool
can_connect success = false
can_connect redirecting = false
can_connect _ = true

unfoldable pub start_connect : Wizard → Wizard
start_connect w = record w { connect_status = redirecting; connecting = suc w.connecting }

-- `startConnect` from the answer on.
abbrev pub end_connect : (here : Bool) → Result String → Wizard → Wizard
end_connect here (ok url) w = record w { opened = url ∷ w.opened }
end_connect here (throw e) w =
    if is_contract_pending e
    then record w {
      portal_pending = if here then true else w.portal_pending;
      connect_status = idle;
    }
    else record w { connect_status = error }

unfoldable pub settle_connect : (here : Bool) → Result String → Wizard → Wizard
unfolding is_contract_pending
settle_connect here result w =
    if ltb 0 w.connecting
    then end_connect here result (record w { connecting = w.connecting - 1 })
    else w

-- `handleSubmit` of the review.
abbrev pub send_info : Option BusinessInfo → Wizard → Wizard
send_info none w = go_to_step business_step w
send_info (some info) w = record w {
  submitting = true;
  outcome = unsent;
  submissions = suc w.submissions;
  sent = (info, w.logo) ∷ w.sent;
}

abbrev pub end_submit : (here : Bool) → Result (Unit {0}) → Wizard → Wizard
end_submit here (ok done) w = record w {
  opened = "/seller/dashboard" ∷ w.opened;
  submitting = w.submitting && not here;
}
end_submit true (throw e) w = record w {
  outcome = if is_contract_pending e then pending else failed;
  submitting = false;
}
end_submit false (throw e) w = w

unfoldable pub settle_submit : (here : Bool) → Result (Unit {0}) → Wizard → Wizard
unfolding is_contract_pending
settle_submit here result w =
    if ltb 0 w.submissions
    then end_submit here result (record w { submissions = w.submissions - 1 })
    else w
