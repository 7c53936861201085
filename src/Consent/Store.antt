-- ===== src/Consent/Store.antt =====
-- The state of the consent store, its actions and its storage. `now` is what
-- `new Date().toISOString()` returns when it is called.
use jolarca.Common.{ℕ, String, Bool, true, false, Option, none, some, ◌is◌, if◌then◌else◌}
use jolarca.Common.Text.{is_empty}

pub data Category : Type 0 where
  necessary analytics marketing preferences : Category

pub record Choices : Type 0 where
  pub necessary : Bool
  pub analytics : Bool
  pub marketing : Bool
  pub preferences : Bool

abbrev pub consent_version : ℕ
consent_version = 1

abbrev pub default_choices : Choices
default_choices = record {
  necessary = true;
  analytics = false;
  marketing = false;
  preferences = false;
}

abbrev pub all_choices : Choices
all_choices = record { necessary = true; analytics = true; marketing = true; preferences = true }

pub record PersistedConsent : Type 0 where
  pub choices : Choices
  pub timestamp : Option String
  pub version : ℕ

pub record ConsentState : Type 0 where
  pub choices : Choices
  pub timestamp : Option String
  pub version : ℕ
  pub decided : Bool

unfoldable pub decide : (now : String) → Choices → ℕ → PersistedConsent
decide now choices version = record {
  choices = record choices { necessary = true };
  timestamp = some now;
  version = version;
}

-- An absent payload has no version.
unfoldable pub is_current_version : Option PersistedConsent → Bool
is_current_version none = false
is_current_version (some payload) = payload.version is consent_version

abbrev pub initial : ConsentState
initial = record {
  choices = default_choices;
  timestamp = none;
  version = consent_version;
  decided = false;
}

-- `set({ ...next, decided: true })`
abbrev decided_by : PersistedConsent → ConsentState
decided_by next = record {
  choices = next.choices;
  timestamp = next.timestamp;
  version = next.version;
  decided = true;
}

-- The new state, and the choices that the action returns.
unfoldable pub accept_all : (now : String) → ConsentState → ConsentState × Choices
unfolding decide
accept_all now state =
    let next = decide now all_choices consent_version in (decided_by next, next.choices)

unfoldable pub reject_all : (now : String) → ConsentState → ConsentState × Choices
unfolding decide
reject_all now state =
    let next = decide now default_choices consent_version in (decided_by next, next.choices)

unfoldable pub set_category : Category → Bool → ConsentState → ConsentState
set_category Category.necessary value state = state
set_category Category.analytics value state = record state {
  choices = record state.choices { analytics = value };
}
set_category Category.marketing value state = record state {
  choices = record state.choices { marketing = value };
}
set_category Category.preferences value state = record state {
  choices = record state.choices { preferences = value };
}

unfoldable pub reset_consent : ConsentState → ConsentState
reset_consent state = initial

unfoldable pub partialize : ConsentState → PersistedConsent
partialize state = record {
  choices = state.choices;
  timestamp = state.timestamp;
  version = state.version;
}

-- `!payload?.timestamp`
abbrev pub has_timestamp : Option String → Bool
has_timestamp none = false
has_timestamp (some timestamp) = if is_empty timestamp then false else true

abbrev admit_payload : PersistedConsent → ConsentState → ConsentState
admit_payload payload current = record current {
  choices = record payload.choices { necessary = true };
  timestamp = payload.timestamp;
  version = payload.version;
  decided = true;
}

unfoldable pub merge : Option PersistedConsent → ConsentState → ConsentState
unfolding is_current_version
merge none current = current
merge (some payload) current =
    if is_current_version (some payload)
    then if has_timestamp payload.timestamp then admit_payload payload current else current
    else current
