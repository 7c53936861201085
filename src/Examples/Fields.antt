-- ===== src/Examples/Fields.antt =====
-- A form with an error, a consultation request and its issues, and the filters of a category.
use jolarca.Common.{◌≡◌, ◌⊎◌, refl, true, inl, none, map, some, List, [], ◌∷◌}
use jolarca.Common.Lists.{any}
use jolarca.Common.Record.{lookup}
use jolarca.Common.Text.{includes_code}
use jolarca.Forms.Validation.{
  FieldErrors, several, nothing, error_at, described, field_aria_props, error_summary_entries,
  field_aria_props-lookup,
}
use jolarca.Catalog.{price_desc, Panel, navigate, open_panel, parse_filters}
use jolarca.Catalog.RoundTrip.{open_panel-navigate}
use jolarca.Funeral.{Issue, required, invalid, consultation_field_errors}
use jolarca.Errors.{ok}
use jolarca.Funeral.{ConsultationDraft}
use jolarca.Funeral.Consultation
use jolarca.Funeral.Consultation.{Form, Request, ConsultationForm}
use jolarca.Funeral.Confirmed.{IsHonest, after_events-IsHonest}
use jolarca.Funeral.Issues.{
  is_about_contact, is_about_name, is_about_phone, is_about_email, flag,
  consultation_field_errors-any,
}

abbrev form_errors : FieldErrors
form_errors = ("email", several (" " ∷ "taken" ∷ [])) ∷ ("name", nothing) ∷ []

field_aria_props-lookup_example :
    field_aria_props "email" (error_at (lookup "email" form_errors))
    ≡ described "email" (lookup "email" (error_summary_entries form_errors))
unfolding lookup
field_aria_props-lookup_example = field_aria_props-lookup "email" form_errors (refl, (refl, tt))

abbrev issues : List Issue
issues =
    (record { message = "too_small"; field = some "name" })
    ∷ (record { message = "contact_required"; field = none })
    ∷ []

consultation_field_errors-any_example : consultation_field_errors issues ≡ record {
  name = flag (any is_about_name issues) required;
  phone = flag (any is_about_phone issues) invalid;
  email = flag (any is_about_email issues) invalid;
  contact = flag (any is_about_contact issues) required;
}
consultation_field_errors-any_example = consultation_field_errors-any issues

-- A schema that takes every form.
abbrev draft_of : Form → ConsultationDraft ⊎ List Issue
draft_of form = inl (record {
  name = form.name;
  phone = some form.phone;
  email = some form.email;
  preferred_contact = form.preferred_contact;
  service_type = none;
  message = none;
})

-- The dialog is closed while the request to the first home is sent, and opened for the second; then
-- the first home's answer arrives.
abbrev two_homes : List Consultation.Event
two_homes =
    Consultation.opened (some "first")
    ∷ Consultation.type_field Consultation.FieldName.phone "+37060000000"
    ∷ Consultation.submit
    ∷ Consultation.closed
    ∷ Consultation.opened (some "second")
    ∷ Consultation.answered 0 (ok tt)
    ∷ []

abbrev consulted : ConsultationForm
consulted = Consultation.after_events draft_of two_homes (Consultation.initial "")

after_events-IsHonest_example : IsHonest draft_of consulted
after_events-IsHonest_example = after_events-IsHonest draft_of two_homes ""

success_elsewhere :
    (consulted.outcome ≡ Consultation.success)
    × (consulted.timer ≡ true)
    × (consulted.provider_slug ≡ some "second")
    × (map (λ (request : Request). request.1) consulted.accepted ≡ some "first" ∷ [])
unfolding Consultation.after_events
success_elsewhere = (refl, refl, refl, refl)

abbrev candles : Panel
candles = record {
  price_min = "2.50";
  price_max = "";
  sellers = "wax-and-wick" ∷ "bees" ∷ [];
  sort = price_desc;
}

open_panel-navigate_example : open_panel (parse_filters (navigate candles)) ≡ candles
open_panel-navigate_example =
    open_panel-navigate candles
      ((refl, unfold includes_code in refl), ((refl, unfold includes_code in refl), tt))

candles_query :
    navigate candles
    ≡ ("price_min", "2.50") ∷ ("sellers", "wax-and-wick,bees") ∷ ("sort", "price_desc") ∷ []
unfolding navigate
candles_query = refl
