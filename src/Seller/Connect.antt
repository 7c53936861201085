-- ===== src/Seller/Connect.antt =====
-- Which answers the payment onboarding accepts.
use jolarca.Common.{
  String, ◌≡◌, refl, true, Option, none, some, ◌↔◌, Bool-cases, inl, inr, ap, sym, ◌∙◌,
}
use mathlib.Core.Bool.{false≢true}
use jolarca.Common.Text.{starts_with}
use jolarca.Json.{get, text?}
use jolarca.Errors.{ok}
use jolarca.Http.{Fetched, settled, is_ok, payload, checked}
use jolarca.Seller.Answers.{create_stripe_connect, onboarding_url}

https_url :
    (fresh url : String) (found : Option String)
    → (onboarding_url fresh found ≡ ok url)
      ↔ ((found ≡ some url) × (starts_with url "https://" ≡ true))
unfolding onboarding_url
https_url fresh url none = (λ h. cc, λ h. cc)
https_url fresh url (some u) = elim (Bool-cases (starts_with u "https://")) [
  | inl e ↦ rw e (
    λ h. (let same : u ≡ url = cc in (ap some same, rw (sym same) e)),
    λ h. (let same : u ≡ url = cc in ap ok same),
  )
  | inr e ↦ rw e (
    λ h. cc,
    λ h.
        (let same : u ≡ url = cc in
          let secure : starts_with u "https://" ≡ true = rw same h.1 in
          absurd (false≢true (sym e ∙ secure))),
  )
]

-- The seller is sent to a URL exactly if the call succeeded and its answer names that URL, and it
-- is an https one.
pub create_stripe_connect-https :
    (fresh url : String) (answer : Fetched)
    → (create_stripe_connect fresh (settled answer) ≡ ok url) ↔ (
        (is_ok answer.response ≡ true)
        × (text? (get (payload answer) "onboarding_url") ≡ some url)
        × (starts_with url "https://" ≡ true))
unfolding create_stripe_connect checked
create_stripe_connect-https fresh url answer = elim (Bool-cases (is_ok answer.response)) [
  | inl e ↦
      let (onward, back) = https_url fresh url (text? (get (payload answer) "onboarding_url")) in
      rw e (λ h. (refl, (onward h).0, (onward h).1), λ h. back (h.1, h.2))
  | inr e ↦ rw e (λ h. cc, λ h. cc)
]
