-- ===== src/Seller/Business.antt =====
-- The first step of the onboarding, frontend/src/components/client/seller/business-info-form.tsx, with
-- the field errors of frontend/src/lib/seller.ts.
use jolarca.Common.{
  String, not, ◌&&◌, Option, none, some, List, [], ◌∷◌, ◌==◌, if◌then◌else◌, or_else,
}
use jolarca.Common.Record.{Entries, lookup, insert}
use jolarca.Common.Text.{is_empty, or_undefined}
use jolarca.Checkout.Delivery.{CheckoutCountry, lt}
use jolarca.Checkout.Formats.{vat_id_format_valid, registration_number_valid}

pub data BusinessType : Type 0 where
  individual company : BusinessType

-- The form's fields, and what the schema makes of them.
pub record BusinessInfo : Type 0 where
  pub business_name : String
  pub registration_number : String
  pub vat_id : String
  pub business_type : BusinessType
  pub country : CheckoutCountry
  pub street : String
  pub city : String
  pub postal_code : String
  pub contact_email : String
  pub phone : String

abbrev blank : BusinessInfo
blank = record {
  business_name = "";
  registration_number = "";
  vat_id = "";
  business_type = company;
  country = lt;
  street = "";
  city = "";
  postal_code = "";
  contact_email = "";
  phone = "";
}

-- The fields with which the form starts.
abbrev pub first_form : Option BusinessInfo → BusinessInfo
first_form stored = or_else stored blank

pub data FieldName : Type 0 where
  business_name registration_number vat_id street city postal_code contact_email phone : FieldName

-- `{ ...current, [name]: value }`, for the fields that hold a text.
abbrev pub with_field : FieldName → String → BusinessInfo → BusinessInfo
with_field business_name value f = record f { business_name = value }
with_field registration_number value f = record f { registration_number = value }
with_field vat_id value f = record f { vat_id = value }
with_field street value f = record f { street = value }
with_field city value f = record f { city = value }
with_field postal_code value f = record f { postal_code = value }
with_field contact_email value f = record f { contact_email = value }
with_field phone value f = record f { phone = value }

pub data FieldError : Type 0 where
  required invalid : FieldError

-- What is read of an issue: its code, and the first part of its path.
pub record Issue : Type 0 where
  pub code : String
  pub field : Option String

-- A field that has an error keeps it.
abbrev pub put_new :
    Option FieldError → String → FieldError → Entries FieldError → Entries FieldError
put_new none field error out = insert field error out
put_new (some noted) field error out = out

abbrev pub error_of : String → FieldError
error_of code = if code == "too_small" then required else invalid

abbrev pub note_issue : Option String → String → Entries FieldError → Entries FieldError
note_issue none code out = out
note_issue (some field) code out = put_new (lookup field out) field (error_of code) out

-- `issue.path[0]`, where it is not empty.
abbrev pub field_of : Issue → Option String
field_of issue = elim issue.field [ none ↦ none | some text ↦ or_undefined text ]

abbrev pub note_issues : List Issue → Entries FieldError → Entries FieldError
note_issues [] out = out
note_issues (issue ∷ issues) out = note_issues issues (note_issue (field_of issue) issue.code out)

unfoldable pub business_field_errors : List Issue → Entries FieldError
unfolding lookup insert
business_field_errors issues = note_issues issues []

-- The errors of the formats, which the schema does not know.
unfoldable pub format_errors : BusinessInfo → Entries FieldError
unfolding registration_number_valid vat_id_format_valid insert
format_errors form =
    let errors =
      if registration_number_valid form.country form.registration_number
      then []
      else ("registrationNumber", invalid) ∷ [] in
    if not (is_empty form.vat_id) && not (vat_id_format_valid form.country form.vat_id)
    then insert "vatId" invalid errors
    else errors
