-- ===== src/Consent/History.antt =====
-- `fetchConsentHistory`, and the requests of the data subject's rights.
use jolarca.Common.{String, true, Option, none, some, List, [], ◌is◌, if◌then◌else◌}
use jolarca.Common.Int.{ℤ, pos}
use jolarca.Json.{Value, get, text?, number_or, is_true}
use jolarca.Errors.{Result, ok, throw, ◌>>=◌}
use jolarca.Http.{Call, settled, rejected, checked}
use jolarca.Rows.{fetch_rows}
use jolarca.Consent.Store.{Choices}

pub record ConsentRecord : Type 0 where
  pub choices : Choices
  pub timestamp : String
  pub version : ℤ

unfoldable pub parse_record : Value → Option ConsentRecord
unfolding get text? number_or is_true
parse_record r = elim (text? (get r "timestamp")) [
  | none ↦ none
  | some timestamp ↦ some (record {
    timestamp = timestamp;
    version = number_or (get r "version") (pos 0);
    choices = record {
      necessary = true;
      analytics = is_true (get r "analytics");
      marketing = is_true (get r "marketing");
      preferences = is_true (get r "preferences");
    };
  })
]

-- An anonymous session has no history.
unfoldable pub fetch_consent_history : (fresh : String) → Call → Result (List ConsentRecord)
unfolding fetch_rows parse_record
fetch_consent_history fresh (rejected e) = throw e
fetch_consent_history fresh (settled f) =
    if f.response.status is 401 then ok [] else fetch_rows parse_record fresh "history" (settled f)

unfoldable pub request_data_export : (fresh : String) → Call → Result (Unit {0})
unfolding checked
request_data_export fresh call = do res ← checked fresh call; ok tt

unfoldable pub request_data_erasure : (fresh : String) → Call → Result (Unit {0})
unfolding checked
request_data_erasure fresh call = do res ← checked fresh call; ok tt
