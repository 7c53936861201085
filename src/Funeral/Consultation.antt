-- ===== src/Funeral/Consultation.antt =====
-- The dialog of a consultation request, frontend/src/components/client/funeral/consultation-form.tsx,
-- which its page keeps mounted while it is closed. Focus is left out.
use jolarca.Common.{
  ℕ, String, Bool, true, false, not, ◌&&◌, ◌⊎◌, inl, inr, Option, none, some, List, [], ◌∷◌, ◌++◌,
  if◌then◌else◌,
}
use jolarca.Common.Lists.{pick}
use jolarca.Errors.{Result, ok, throw}
use jolarca.Cart.Item.{is_contract_pending}
use jolarca.Funeral.{ConsultationDraft, Issue, ConsultationFieldErrors, consultation_field_errors}

pub data Outcome : Type 0 where
  idle submitting success portal_pending error : Outcome

pub data FieldName : Type 0 where
  name phone email preferred_contact service_type message : FieldName

-- The fields as they are typed.
pub record Form : Type 0 where
  pub name : String
  pub phone : String
  pub email : String
  pub preferred_contact : String
  pub service_type : String
  pub message : String

-- `{ ...current, [name]: value }`
abbrev pub with_field : FieldName → String → Form → Form
with_field name value f = record f { name = value }
with_field phone value f = record f { phone = value }
with_field email value f = record f { email = value }
with_field preferred_contact value f = record f { preferred_contact = value }
with_field service_type value f = record f { service_type = value }
with_field message value f = record f { message = value }

abbrev pub Request : Type 0
Request = ConsultationDraft × Option String

-- The component's state and its props, whether the timer that closes the dialog runs, the requests
-- whose answer is outstanding, each with the provider it is for, and those that were accepted, the
-- newest first.
pub record ConsultationForm : Type 0 where
  pub is_open : Bool
  pub provider_slug : Option String
  pub form : Form
  pub errors : ConsultationFieldErrors
  pub outcome : Outcome
  pub timer : Bool
  pub in_flight : List Request
  pub accepted : List Request

abbrev pub no_errors : ConsultationFieldErrors
no_errors = record { name = none; phone = none; email = none; contact = none }

abbrev pub initial : (default_service_type : String) → ConsultationForm
initial default_service_type = record {
  is_open = false;
  provider_slug = none;
  form = record {
    name = "";
    phone = "";
    email = "";
    preferred_contact = "phone";
    service_type = default_service_type;
    message = "";
  };
  errors = no_errors;
  outcome = idle;
  timer = false;
  in_flight = [];
  accepted = [];
}

abbrev pub is_success : Outcome → Bool
is_success success = true
is_success _ = false

abbrev pub is_submitting : Outcome → Bool
is_submitting submitting = true
is_submitting _ = false

-- The effect on `open` and the outcome: over a success that is shown, the timer runs.
abbrev pub run_timer : ConsultationForm → ConsultationForm
run_timer s = record s { timer = s.is_open && is_success s.outcome }

-- The page opens the dialog for a provider; the effect on `open` resets the outcome.
abbrev pub open_for : Option String → ConsultationForm → ConsultationForm
open_for provider_slug s =
    if s.is_open
    then record s { provider_slug = provider_slug }
    else run_timer (record s { is_open = true; provider_slug = provider_slug; outcome = idle })

-- `onClose`
abbrev pub close : ConsultationForm → ConsultationForm
close s = run_timer (record s { is_open = false })

-- Whether the fields are shown, in place of the confirmation.
abbrev pub shows_form : ConsultationForm → Bool
shows_form s = s.is_open && not (is_success s.outcome)

-- `handleSubmit` up to the wait.
abbrev pub send : ConsultationDraft ⊎ List Issue → ConsultationForm → ConsultationForm
send (inr issues) s = record s { errors = consultation_field_errors issues }
send (inl draft) s = run_timer (record s {
  errors = no_errors;
  outcome = submitting;
  in_flight = s.in_flight ++ (draft, s.provider_slug) ∷ [];
})

-- `handleSubmit` from the answer on.
abbrev pub end_submit : Request → Result (Unit {0}) → ConsultationForm → ConsultationForm
end_submit request (ok done) s =
    run_timer (record s { outcome = success; accepted = request ∷ s.accepted })
end_submit request (throw e) s =
    run_timer (record s { outcome = if is_contract_pending e then portal_pending else error })

unfoldable pub settle_submit : ℕ → Result (Unit {0}) → ConsultationForm → ConsultationForm
unfolding pick is_contract_pending
settle_submit n answer s = elim (pick n s.in_flight) [
  | none ↦ s
  | some (request, others) ↦ end_submit request answer (record s { in_flight = others })
]

pub data Event : Type 0 where
  opened : Option String → Event
  closed submit timer_ends : Event
  type_field : FieldName → String → Event
  answered : ℕ → Result (Unit {0}) → Event

module _ (schema : Form → ConsultationDraft ⊎ List Issue) where
  unfoldable pub handle_submit : ConsultationForm → ConsultationForm
  unfolding consultation_field_errors
  handle_submit s = send (schema s.form) s

  -- The button is disabled while a request is sent.
  unfoldable pub on_event : Event → ConsultationForm → ConsultationForm
  unfolding handle_submit settle_submit
  on_event (opened provider_slug) s = open_for provider_slug s
  on_event closed s = close s
  on_event submit s = if shows_form s && not (is_submitting s.outcome) then handle_submit s else s
  on_event timer_ends s = if s.timer then close s else s
  on_event (type_field key value) s =
      if shows_form s then record s { form = with_field key value s.form } else s
  on_event (answered n answer) s = settle_submit n answer s

  unfoldable pub after_events : List Event → ConsultationForm → ConsultationForm
  unfolding on_event
  after_events [] s = s
  after_events (event ∷ events) s = after_events events (on_event event s)
