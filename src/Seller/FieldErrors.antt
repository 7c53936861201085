-- ===== src/Seller/FieldErrors.antt =====
-- The errors that frontend/src/lib/seller.ts makes of the schema's issues.
use mathlib.Core.Path.{subst}
use jolarca.Common.{
  String, ◌≡◌, refl, sym, Bool, true, false, inl, inr, Option, none, some, List, [], ◌∷◌, ◌==◌,
  if◌then◌else◌, Option-cases, Bool-cases, first_some, first_some-none, eq_iff,
}
use jolarca.Common.Record.{Entries, lookup, lookup-insert}
use jolarca.Seller.Business.{
  FieldError, put_new, error_of, Issue, field_of, note_issue, note_issues, business_field_errors,
}

-- The first issue of a field tells its error.
abbrev names : String → Option String → Bool
names field none = false
names field (some text) = text == field

abbrev pub first_error : String → List Issue → Option FieldError
first_error field [] = none
first_error field (issue ∷ issues) =
    if names field (field_of issue) then some (error_of issue.code) else first_error field issues

lookup-put_new :
    (field text : String) (error : FieldError) (out : Entries FieldError)
    → lookup field (put_new (lookup text out) text error out)
      ≡ first_some (lookup field out) (if text == field then some error else none)
lookup-put_new field text error out = elim (Option-cases (lookup text out)) [
  | inl missing ↦ rw missing (elim (Bool-cases (text == field)) [
    | inl same ↦
        let absent : lookup field out ≡ none =
          subst (λ key. lookup key out ≡ none) ((eq_iff text field).0 same) missing in
        rw (lookup-insert text field error out, same, absent) refl
    | inr other ↦
        rw (lookup-insert text field error out, other, first_some-none (lookup field out)) refl
  ])
  | inr (noted, found) ↦ rw found (elim (Bool-cases (text == field)) [
    | inl same ↦
        let present : lookup field out ≡ some noted =
          subst (λ key. lookup key out ≡ some noted) ((eq_iff text field).0 same) found in
        rw present refl
    | inr other ↦ rw (other, first_some-none (lookup field out)) refl
  ])
]

lookup-note_issue :
    (field : String) (named : Option String) (code : String) (out : Entries FieldError)
    → lookup field (note_issue named code out)
      ≡ first_some (lookup field out) (if names field named then some (error_of code) else none)
lookup-note_issue field none code out = sym (first_some-none (lookup field out))
lookup-note_issue field (some text) code out = lookup-put_new field text (error_of code) out

first_some-if {ℓ} :
    {A : Type ℓ} (o : Option A) (b : Bool) (a : A) (rest : Option A)
    → first_some (first_some o (if b then some a else none)) rest
      ≡ first_some o (if b then some a else rest)
first_some-if none true a rest = refl
first_some-if none false a rest = refl
first_some-if (some x) b a rest = refl

note_issues-first :
    (field : String) (issues : List Issue) (out : Entries FieldError)
    → lookup field (note_issues issues out)
      ≡ first_some (lookup field out) (first_error field issues)
note_issues-first field [] out = sym (first_some-none (lookup field out))
note_issues-first field (issue ∷ issues) out =
    rw
      (
        note_issues-first field issues (note_issue (field_of issue) issue.code out),
        lookup-note_issue field (field_of issue) issue.code out,
      )
      (first_some-if (lookup field out) (names field (field_of issue)) (error_of issue.code)
        (first_error field issues))

-- Each field shows the error of its first issue: that it is required where the text is too small, else
-- that it is invalid; a field without an issue shows none.
pub business_field_errors-first :
    (field : String) (issues : List Issue)
    → lookup field (business_field_errors issues) ≡ first_error field issues
unfolding business_field_errors
business_field_errors-first field issues = note_issues-first field issues []
