-- ===== src/Consent/Laws.antt =====
-- What the consent store guarantees to what it gates.
use jolarca.Common.{
  String, ◌≡◌, ◌≢◌, refl, Bool, true, false, Option, none, some, List, [], ◌∷◌, arith, Bool-cases,
  inl, inr, ◌↔◌, ◌⊎◌,
}
use jolarca.Common.Text.{is_empty}
use jolarca.Common.Lists.{All}
use jolarca.Errors.{Thrown, Result, ok, throw}
use jolarca.Cart.Item.{is_contract_pending}
use jolarca.Consent.Store.{
  Category, consent_version, ConsentState, PersistedConsent, initial, accept_all, default_choices,
  all_choices, reject_all, set_category, reset_consent, partialize, has_timestamp, merge,
}
use jolarca.Consent.Panel.{
  granted, consent_gate, handle_accept_all, handle_reject_all, handle_save, settle_save, audit,
}

-- One thing that happens to the store; a time is what the clock then shows.
pub data Event : Type 0 where
  accept reject save : (now : String) → Event
  toggle : Category → Bool → Event
  reset : Event
  account_save : (now : String) → Result (Unit {0}) → Event
  reload : Option PersistedConsent → Event

unfoldable pub after : Event → ConsentState → ConsentState
unfolding accept_all reject_all set_category reset_consent merge handle_accept_all handle_reject_all
    handle_save settle_save
after (accept now) state = (handle_accept_all now now state).state
after (reject now) state = (handle_reject_all now now state).state
after (save now) state = (handle_save now state).state
after (toggle category value) state = set_category category value state
after reset state = reset_consent state
after (account_save now result) state = (settle_save now result state).0
after (reload payload) state = merge payload initial

unfoldable pub after_all : List Event → ConsentState → ConsentState
unfolding after
after_all [] state = state
after_all (event ∷ events) state = after_all events (after event state)

-- Necessary processing is always on, the version is the current one, and a decision has a time.
pub record IsLawful (state : ConsentState) : Type 0 where
  pub necessary : state.choices.necessary ≡ true
  pub version : state.version ≡ consent_version
  pub timed : state.decided ≡ true → has_timestamp state.timestamp ≡ true

-- The clock shows no empty text.
abbrev pub HasTime : Event → Type 0
HasTime (accept now) = is_empty now ≡ false
HasTime (reject now) = is_empty now ≡ false
HasTime (save now) = is_empty now ≡ false
HasTime (account_save now result) = is_empty now ≡ false
HasTime _ = Unit

merge-IsLawful : (payload : Option PersistedConsent) → IsLawful (merge payload initial)
unfolding merge
merge-IsLawful none = record { necessary = refl; version = refl; timed = λ d. cc }
merge-IsLawful (some payload) = record {
  necessary = ground arith;
  version = ground arith;
  timed = λ d. ground arith;
}

settle_save-IsLawful :
    (now : String) (e : Thrown) (state : ConsentState)
    → is_empty now ≡ false
    → IsLawful state
    → IsLawful (settle_save now (throw e) state).0
unfolding settle_save
settle_save-IsLawful now e state h w = elim (Bool-cases (is_contract_pending e)) [
  | inl pending ↦
      rw (pending, settle_save)
        (record { necessary = w.necessary; version = w.version; timed = λ d. ground arith })
  | inr final ↦ rw (final, settle_save) w
]

after-IsLawful :
    (event : Event) (state : ConsentState)
    → HasTime event
    → IsLawful state
    → IsLawful (after event state)
unfolding after
after-IsLawful (accept now) state h w = record {
  necessary = refl;
  version = refl;
  timed = λ d. ground arith;
}
after-IsLawful (reject now) state h w = record {
  necessary = refl;
  version = refl;
  timed = λ d. ground arith;
}
after-IsLawful (save now) state h w = record {
  necessary = w.necessary;
  version = w.version;
  timed = λ d. ground arith;
}
after-IsLawful (toggle Category.necessary value) state h w = w
after-IsLawful (toggle Category.analytics value) state h w = record {
  necessary = w.necessary;
  version = w.version;
  timed = w.timed;
}
after-IsLawful (toggle Category.marketing value) state h w = record {
  necessary = w.necessary;
  version = w.version;
  timed = w.timed;
}
after-IsLawful (toggle Category.preferences value) state h w = record {
  necessary = w.necessary;
  version = w.version;
  timed = w.timed;
}
after-IsLawful reset state h w = record { necessary = refl; version = refl; timed = λ d. cc }
after-IsLawful (account_save now (ok done)) state h w = record {
  necessary = w.necessary;
  version = w.version;
  timed = λ d. ground arith;
}
after-IsLawful (account_save now (throw e)) state h w = settle_save-IsLawful now e state h w
after-IsLawful (reload payload) state h w = merge-IsLawful payload

-- From a lawful state, whatever happens, also a reload from any stored payload, as long as the
-- clock shows no empty text: necessary processing stays on, the version is current, and the state
-- is decided only with a time.
pub after_all-IsLawful :
    (events : List Event) (state : ConsentState)
    → All HasTime events
    → IsLawful state
    → IsLawful (after_all events state)
unfolding after_all
after_all-IsLawful [] state h w = w
after_all-IsLawful (event ∷ events) state (t, h) w =
    after_all-IsLawful events (after event state) h (after-IsLawful event state t w)

-- Without a decision the gate is shut for every category but the necessary one; with one, and
-- once mounted, it is open exactly for the categories that are chosen.
pub consent_gate_iff :
    (mounted : Bool) (state : ConsentState) (category : Category)
    → category ≢ Category.necessary
    → (consent_gate mounted state category ≡ true)
      ↔ ((mounted ≡ true) × (state.decided ≡ true) × (granted state.choices category ≡ true))
unfolding consent_gate
consent_gate_iff mounted state Category.necessary h = absurd (h refl)
consent_gate_iff mounted state Category.analytics h = ground arith
consent_gate_iff mounted state Category.marketing h = ground arith
consent_gate_iff mounted state Category.preferences h = ground arith

-- A reload brings a lawful, decided state back as it was.
pub merge-partialize :
    (state : ConsentState)
    → IsLawful state
    → state.decided ≡ true
    → merge (some (partialize state)) initial ≡ state
unfolding merge partialize
merge-partialize state w d = let t = w.timed d in ground arith

-- Of a stored payload of another policy version, or without a time, nothing is taken over.
pub merge_stale :
    (payload : PersistedConsent) (current : ConsentState)
    → (payload.version ≢ consent_version) ⊎ (has_timestamp payload.timestamp ≡ false)
    → merge (some payload) current ≡ current
unfolding merge
merge_stale payload current h = ground arith

-- The posted audit record of each of the banner's buttons, and the state that the button leaves,
-- agree on the choices and on the time.
pub banner_audited :
    (now later : String) (state : ConsentState)
    → let a = handle_accept_all now later state in
      let r = handle_reject_all now later state in
      let s = handle_save now state in
      (a.posted ≡ audit a.state.choices now)
      × (a.state.timestamp ≡ some now)
      × (r.posted ≡ audit r.state.choices now)
      × (r.state.timestamp ≡ some now)
      × (s.posted ≡ audit s.state.choices now)
      × (s.state.timestamp ≡ some now)
      × (s.state.choices ≡ state.choices)
      × (r.state.choices ≡ default_choices)
      × (a.state.choices ≡ all_choices)
unfolding handle_accept_all handle_reject_all handle_save
banner_audited now later state = (refl, refl, refl, refl, refl, refl, refl, refl, refl)

-- Once a decision stands in a lawful state, a toggle of a category but the necessary one opens or
-- shuts the gate at once, while the stored decision keeps the time of the earlier one: a reload
-- brings the new choice back under the old time.
pub toggle_unrecorded :
    (category : Category) (value : Bool) (state : ConsentState)
    → category ≢ Category.necessary
    → IsLawful state
    → state.decided ≡ true
    → let next = set_category category value state in
      (consent_gate true next category ≡ value)
      × (next.timestamp ≡ state.timestamp)
      × (merge (some (partialize next)) initial ≡ next)
unfolding set_category consent_gate after
toggle_unrecorded Category.necessary value state h w d = absurd (h refl)
toggle_unrecorded category value state h w d = (
  ground arith,
  refl,
  merge-partialize (after (toggle category value) state)
      (after-IsLawful (toggle category value) state tt w) d,
)
