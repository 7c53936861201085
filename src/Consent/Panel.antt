-- ===== src/Consent/Panel.antt =====
-- The consent gate, the banner's buttons and the account page's save button.
use jolarca.Common.{
  ℕ, String, Bool, true, false, not, ◌||◌, some, List, [], ◌∷◌, or_else, if◌then◌else◌,
}
use jolarca.Errors.{Result, ok, throw, ◌>>=◌}
use jolarca.Http.{Call, checked}
use jolarca.Cart.Item.{is_contract_pending}
use jolarca.Cart.Sync.{Toast, warning, error, info, error_code}
use jolarca.Consent.Store.{Category, Choices, consent_version, ConsentState, accept_all, reject_all}

-- `choices[category]`
abbrev pub granted : Choices → Category → Bool
granted choices Category.necessary = choices.necessary
granted choices Category.analytics = choices.analytics
granted choices Category.marketing = choices.marketing
granted choices Category.preferences = choices.preferences

-- `ConsentGate`: whether it renders its children.
unfoldable pub consent_gate : (mounted : Bool) → ConsentState → Category → Bool
consent_gate mounted state Category.necessary = true
consent_gate mounted state category =
    if not mounted || not state.decided || not (granted state.choices category) then false else true

-- The body of `recordConsent`'s POST.
pub record AuditRecord : Type 0 where
  pub choices : Choices
  pub timestamp : String
  pub version : ℕ

abbrev pub audit : Choices → String → AuditRecord
audit choices timestamp = record {
  choices = choices;
  timestamp = timestamp;
  version = consent_version;
}

unfoldable pub record_consent : (fresh : String) → Call → Result (Unit {0})
unfolding checked
record_consent fresh call = do res ← checked fresh call; ok tt

-- `pushToBackend`: the toasts of its `catch`.
unfoldable pub push_to_backend : Result (Unit {0}) → List Toast
unfolding is_contract_pending
push_to_backend (ok done) = []
push_to_backend (throw e) =
    if is_contract_pending e
    then []
    else record { variant = warning; code = error_code e "consent_record_failed" } ∷ []

-- A handler's new state, and the audit record that it posts. The banner's posts settle later, in
-- `push_to_backend`, and change no state.
pub record Decision : Type 0 where
  pub state : ConsentState
  pub posted : AuditRecord

-- `later` is the clock of the handler's own call.
unfoldable pub handle_accept_all : (now later : String) → ConsentState → Decision
unfolding accept_all
handle_accept_all now later state =
    let (next, choices) = accept_all now state in
    record { state = next; posted = audit choices (or_else next.timestamp later) }

unfoldable pub handle_reject_all : (now later : String) → ConsentState → Decision
unfolding reject_all
handle_reject_all now later state =
    let (next, choices) = reject_all now state in
    record { state = next; posted = audit choices (or_else next.timestamp later) }

-- The banner's save: the current toggles become a decision.
unfoldable pub handle_save : (now : String) → ConsentState → Decision
handle_save now state = record {
  state = record state { decided = true; timestamp = some now };
  posted = audit state.choices now;
}

-- The account page's save, once its POST has settled; `state` is the store's of that time.
unfoldable pub settle_save :
    (now : String) → Result (Unit {0}) → ConsentState → ConsentState × List Toast
unfolding is_contract_pending
settle_save now (ok done) state = (
  record state { decided = true; timestamp = some now },
  record { variant = info; code = "consent_saved" } ∷ [],
)
settle_save now (throw e) state =
    if is_contract_pending e
    then (
      record state { decided = true; timestamp = some now },
      record { variant = info; code = "consent_sync_pending" } ∷ [],
    )
    else (state, record { variant = error; code = error_code e "consent_record_failed" } ∷ [])
