-- ===== src/Funeral/Issues.antt =====
-- What the loop of `consultationFieldErrors` in frontend/src/lib/funeral.ts finds.
use jolarca.Common.{
  ◌≡◌, refl, ap, ◌∙◌, Bool, true, false, not, ◌&&◌, ◌||◌, Option, none, some, List, [], ◌∷◌, ◌==◌,
  first_some, Bool-cases, inl, inr,
}
use jolarca.Common.Lists.{any}
use jolarca.Funeral.{
  Issue, ErrorWord, required, invalid, ConsultationFieldErrors, is_field, note, note_issue,
  note_issues, consultation_field_errors,
}

abbrev pub is_about_contact : Issue → Bool
is_about_contact issue = issue.message == "contact_required"

abbrev pub is_about_name : Issue → Bool
is_about_name issue = not (is_about_contact issue) && is_field "name" issue

abbrev pub is_about_phone : Issue → Bool
is_about_phone issue =
    not (is_about_contact issue) && is_field "phone" issue && not (issue.message == "too_small")

abbrev pub is_about_email : Issue → Bool
is_about_email issue = not (is_about_contact issue) && is_field "email" issue

abbrev pub flag : Bool → ErrorWord → Option ErrorWord
flag true word = some word
flag false word = none

-- The words that were there, then those of the issues.
abbrev found : List Issue → ConsultationFieldErrors → ConsultationFieldErrors
found issues out = record {
  name = first_some out.name (flag (any is_about_name issues) required);
  phone = first_some out.phone (flag (any is_about_phone issues) invalid);
  email = first_some out.email (flag (any is_about_email issues) invalid);
  contact = first_some out.contact (flag (any is_about_contact issues) required);
}

note-flag :
    (here later : Bool) (word : ErrorWord) (old : Option ErrorWord)
    → first_some (note here word old) (flag later word) ≡ first_some old (flag (here || later) word)
note-flag true later word none = refl
note-flag true later word (some w) = refl
note-flag false later word none = refl
note-flag false later word (some w) = refl

found-note_issue :
    (issue : Issue) (issues : List Issue) (out : ConsultationFieldErrors)
    → found issues (note_issue issue out) ≡ found (issue ∷ issues) out
unfolding note_issue
found-note_issue issue issues out = elim (Bool-cases (is_about_contact issue)) [
  | inl contact ↦
      rw (contact, note_issue)
        (ap (λ words. record (found issues out) { contact = words })
          (note-flag true (any is_about_contact issues) required out.contact))
  | inr other ↦ rw (other, note_issue, note-flag, note-flag, note-flag) refl
]

first_some-none : (o : Option ErrorWord) → first_some o none ≡ o
first_some-none none = refl
first_some-none (some w) = refl

note_issues-found :
    (issues : List Issue) (out : ConsultationFieldErrors)
    → note_issues issues out ≡ found issues out
unfolding note_issues
note_issues-found [] out =
    rw (first_some-none, first_some-none, first_some-none, first_some-none) refl
note_issues-found (issue ∷ issues) out =
    note_issues-found issues (note_issue issue out) ∙ found-note_issue issue issues out

-- The loop over the issues finds what four searches find, whatever the order of the issues: a missing
-- way of contact if an issue says so, and of the others a bad name, phone or email if one is about
-- it, except that a phone is not bad for being short.
pub consultation_field_errors-any :
    (issues : List Issue)
    → consultation_field_errors issues ≡ record {
      name = flag (any is_about_name issues) required;
      phone = flag (any is_about_phone issues) invalid;
      email = flag (any is_about_email issues) invalid;
      contact = flag (any is_about_contact issues) required;
    }
unfolding consultation_field_errors
consultation_field_errors-any issues =
    note_issues-found issues (record { name = none; phone = none; email = none; contact = none })
