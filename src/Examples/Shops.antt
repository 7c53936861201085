-- ===== src/Examples/Shops.antt =====
-- A moderator's decision while the audit log is down.
use jolarca.Common.{◌≡◌, refl, true, none, some, [], ◌∷◌, ◌↔◌}
use jolarca.Json.{str, obj, prop, end}
use jolarca.Errors.{ok}
use jolarca.Http.{Fetched, Call, settled, is_ok}
use jolarca.Admin.Decisions.{Request, audit, reject_seller}
use jolarca.Admin.Audit.{Action, on_seller, mutation, perform, event_of, perform_answered}

abbrev accepted : Fetched
accepted = record {
  response = record { status = 200; status_text = "OK"; json = none };
  data_ = some (
      obj (
        prop "onboarding_url" (str "https://connect.example/1")
          (prop "id" (str "o1") (prop "client_secret" (str "s1") end))));
  error = none;
}

abbrev unavailable : Fetched
unavailable = record {
  response = record { status = 503; status_text = "Unavailable"; json = none };
  data_ = none;
  error = none;
}

abbrev rejection : Action
rejection = on_seller "s1" reject_seller "forged papers"

-- The decisions are accepted; the audit log is down.
abbrev log_down : Request → Call
log_down (audit event occurred_at) = settled unavailable
log_down _ = settled accepted

perform_answered_example :
    ((perform log_down "t0" "now" "ona@jol.example" rejection).outcome ≡ ok tt)
    × ((perform log_down "t0" "now" "ona@jol.example" rejection).sent
        ≡ mutation rejection
          ∷ audit (event_of log_down "t0" "now" "ona@jol.example" rejection) "now"
          ∷ [])
    × (((perform log_down "t0" "now" "ona@jol.example" rejection).warnings ≡ [])
        ↔ (is_ok unavailable.response ≡ true))
perform_answered_example =
    perform_answered log_down "t0" "now" "ona@jol.example" rejection accepted unavailable refl
      (unfold is_ok in refl) refl
