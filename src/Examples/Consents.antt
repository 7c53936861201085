-- ===== src/Examples/Consents.antt =====
-- A visitor who has accepted analytics, an error with a field of personal data, and searches.
use mathlib.Core.Bool.{false≢true}
use jolarca.Common.{String, ◌≡◌, ◌≢◌, refl, Bool, true, false, none, some, List, [], ◌∷◌, ap}
use jolarca.Errors.{Thrown, validation}
use jolarca.Consent.Store.{
  Category, PersistedConsent, consent_version, ConsentState, initial, default_choices, partialize,
  merge,
}
use jolarca.Consent.Laws.{
  Event, accept, toggle, reload, after_all, IsLawful, after_all-IsLawful, merge-partialize,
}
use jolarca.Search.Query.{SearchQuery, empty_filters}

abbrev analysed : ConsentState
analysed = record {
  choices = record default_choices { analytics = true };
  timestamp = some "2026-01-01";
  version = consent_version;
  decided = true;
}

analysed-IsLawful : IsLawful analysed
analysed-IsLawful = record { necessary = refl; version = refl; timed = λ d. refl }

-- Whether a category is the necessary one.
abbrev is_necessary : Category → Bool
is_necessary Category.necessary = true
is_necessary _ = false

analytics_optional : Category.analytics ≢ Category.necessary
analytics_optional e = false≢true (ap is_necessary e)

abbrev history : List Event
history = accept "2026-01-02" ∷ toggle Category.marketing false ∷ reload none ∷ []

after_all-IsLawful_example : IsLawful (after_all history analysed)
after_all-IsLawful_example =
    after_all-IsLawful history analysed (refl, (tt, (tt, tt))) analysed-IsLawful

merge-partialize_example : merge (some (partialize analysed)) initial ≡ analysed
merge-partialize_example = merge-partialize analysed analysed-IsLawful refl

abbrev stale : PersistedConsent
stale = record { choices = default_choices; timestamp = none; version = consent_version }

abbrev refused : Thrown
refused = validation (("email", "ona@example.lt is taken" ∷ []) ∷ []) "invalid" "t7"

abbrev asked : SearchQuery
asked = record { q = " vase "; page = 3; filters = record empty_filters { seller = "leaf" } }

abbrev searches : List (Bool × String)
searches = (false, "vase") ∷ (false, " bowl ") ∷ (true, "cup") ∷ (false, "vase") ∷ []
