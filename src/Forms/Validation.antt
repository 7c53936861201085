-- ===== src/Forms/Validation.antt =====
-- frontend/src/lib/validation.ts: the errors of a form's fields, and where they are announced.
use jolarca.Common.{
  String, ◌<>◌, ◌≡◌, refl, ap, ◌∙◌, Bool, true, not, Option, none, some, List, [], ◌∷◌, ◌==◌,
  eq_iff, ltb, first_some, if◌then◌else◌, Bool-cases, inl, inr, arith,
}
use jolarca.Common.Lists.{length, find}
use jolarca.Common.Record.{Entries, lookup, HasDistinctKeys}
use jolarca.Common.Text.{is_empty, or_undefined, trim}
use mathlib.Core.Path.{subst}

-- A field's error: one text, several, or none.
pub data FieldError : Type 0 where
  one : String → FieldError
  several : List String → FieldError
  nothing : FieldError

abbrev pub FieldErrors : Type 0
FieldErrors = Entries FieldError

unfoldable pub error_id_for : (field_id : String) → String
error_id_for field_id = field_id <> "-error"

unfoldable pub first_error : FieldError → Option String
unfolding trim
first_error (one error) = or_undefined error
first_error (several errors) = find (λ entry. not (is_empty (trim entry))) errors
first_error nothing = none

-- A message that is falsy counts as none.
abbrev pub message_of : FieldError → Option String
message_of error = elim (first_error error) [
  | none ↦ none
  | some message ↦ if is_empty message then none else some message
]

abbrev pub described : (field_id : String) → Option String → Option (Bool × String)
described field_id none = none
described field_id (some message) = some (true, error_id_for field_id)

-- `aria-invalid` and `aria-describedby`, where they are set.
unfoldable pub field_aria_props : (field_id : String) → FieldError → Option (Bool × String)
unfolding first_error error_id_for
field_aria_props field_id error = described field_id (message_of error)

abbrev with_entry : String → Option String → Entries String → Entries String
with_entry field_id none entries = entries
with_entry field_id (some message) entries = (field_id, message) ∷ entries

unfoldable pub error_summary_entries : FieldErrors → Entries String
unfolding first_error
error_summary_entries [] = []
error_summary_entries ((field_id, error) ∷ errors) =
    with_entry field_id (message_of error) (error_summary_entries errors)

unfoldable pub has_errors : FieldErrors → Bool
unfolding error_summary_entries
has_errors errors = ltb 0 (length (error_summary_entries errors))

abbrev pub error_at : Option FieldError → FieldError
error_at none = nothing
error_at (some error) = error

lookup-with_entry :
    (field_id name : String) (message : Option String) (entries : Entries String)
    → lookup field_id (with_entry name message entries) ≡ (
        if name == field_id
        then first_some message (lookup field_id entries)
        else lookup field_id entries)
unfolding lookup
lookup-with_entry field_id name none entries = ground arith
lookup-with_entry field_id name (some m) entries = refl

first_some-none :
    (message other : Option String) → other ≡ none → first_some message other ≡ message
first_some-none none other h = h
first_some-none (some m) other h = refl

-- The message of a field in the summary is the field's own.
lookup-error_summary_entries :
    (field_id : String) (errors : FieldErrors)
    → HasDistinctKeys errors
    → lookup field_id (error_summary_entries errors)
      ≡ message_of (error_at (lookup field_id errors))
unfolding error_summary_entries lookup
lookup-error_summary_entries field_id [] h = refl
lookup-error_summary_entries field_id ((name, error) ∷ errors) (fresh, h) =
    lookup-with_entry field_id name (message_of error) (error_summary_entries errors)
    ∙ elim (Bool-cases (name == field_id)) [
      | inr other ↦ rw other (lookup-error_summary_entries field_id errors h)
      | inl same ↦
          let absent : lookup field_id errors ≡ none =
            subst (λ id. lookup id errors ≡ none) ((eq_iff name field_id).0 same) fresh in
          rw same (
            first_some-none (message_of error) (lookup field_id (error_summary_entries errors)) (
              lookup-error_summary_entries field_id errors h
              ∙ ap (λ found. message_of (error_at found)) absent))
    ]

-- Where no field stands twice, a field has its ARIA properties exactly if the summary lists it: those
-- that point to the field's error element.
pub field_aria_props-lookup :
    (field_id : String) (errors : FieldErrors)
    → HasDistinctKeys errors
    → field_aria_props field_id (error_at (lookup field_id errors))
      ≡ described field_id (lookup field_id (error_summary_entries errors))
unfolding field_aria_props
field_aria_props-lookup field_id errors h = rw (lookup-error_summary_entries field_id errors h) refl
