-- ===== src/Checkout/Payments.antt =====
-- `paymentErrorKey` of frontend/src/lib/checkout.ts. A code is one of Stripe's, so that no name of
-- `Object.prototype` is looked up.
use jolarca.Common.{String, Option, none, some, [], ◌∷◌, ◌==◌, if◌then◌else◌, or_else}
use jolarca.Common.Record.{Entries, lookup}

abbrev pub payment_error_keys : Entries String
payment_error_keys =
    ("card_declined", "errorCardDeclined")
    ∷ ("incorrect_cvc", "errorCardDetails")
    ∷ ("invalid_cvc", "errorCardDetails")
    ∷ ("invalid_number", "errorCardDetails")
    ∷ ("incomplete_number", "errorCardDetails")
    ∷ ("expired_card", "errorCardExpired")
    ∷ ("insufficient_funds", "errorInsufficientFunds")
    ∷ ("processing_error", "errorProcessing")
    ∷ ("sepa_debit_failed", "errorSepaFailed")
    ∷ ("requires_action", "errorRequiresAction")
    ∷ []

abbrev unmapped : (type_ : Option String) → String
unmapped none = "errorPaymentGeneric"
unmapped (some type_) =
    if type_ == "validation_error" then "errorCardDetails" else "errorPaymentGeneric"

unfoldable pub payment_error_key : (code type_ : Option String) → String
unfolding lookup
payment_error_key none type_ = unmapped type_
payment_error_key (some code) type_ = or_else (lookup code payment_error_keys) (unmapped type_)
