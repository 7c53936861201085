-- ===== src/Search/Race.antt =====
-- The race of the requests of frontend/src/components/client/search/search-combobox.tsx: whose answer
-- is shown, and which item is active.
use mathlib.Core.Path.{subst}
use jolarca.Common.{
  ℕ, String, ◌≡◌, refl, Bool, true, false, not, ◌⊎◌, inl, inr, Option, none, some, List, [], ◌∷◌,
  ltb, ◌is◌, if◌then◌else◌, if-either, if-cases, arith, Bool-cases,
}
use jolarca.Common.Int.{pos}
use jolarca.Common.Text.{is_empty}
use jolarca.Common.Lists.{pick, ArePicked, pick-ArePicked, length}
use jolarca.Errors.{Result, ok}
use jolarca.Search.Recent.{Stored}
use jolarca.Search.Palette.{Suggestions, PaletteItem, Palette, rebuild, set_open, set_value, close}
use jolarca.Search.PaletteEvents.{
  initial, follow, go, item_at, elapse, settle, activate, Event, on_event, after_events,
}
use jolarca.Search.Consistency.{
  IsFair, IsConsistent, IsListed-below, elapse-IsConsistent, set_open-IsConsistent,
  set_value-IsConsistent, close-IsConsistent, settle-IsConsistent, arrow-IsConsistent,
}

module _ (run_label : String → String) where
  follow-IsConsistent :
      (href : Option String) (p : Palette) → IsConsistent p → IsConsistent (follow run_label href p)
  follow-IsConsistent none p h = h
  follow-IsConsistent (some href) p h = if-either IsConsistent (is_empty href) h (record {
    fair = record { asked = h.fair.asked; waiting = h.fair.waiting };
    listed = h.listed;
  })

  go-IsConsistent :
      (full blocked : Bool) (query href : Option String) (p : Palette)
      → IsConsistent p
      → IsConsistent (go run_label full blocked query href p)
  go-IsConsistent full blocked none href p h = follow-IsConsistent href p h
  go-IsConsistent full blocked (some query) href p h =
      if-either IsConsistent (is_empty query) (follow-IsConsistent href p h) (record {
        fair = record { asked = h.fair.asked; waiting = h.fair.waiting };
        listed = h.listed;
      })

  activate-IsConsistent :
      (full blocked : Bool) (item : Option PaletteItem) (p : Palette)
      → IsConsistent p
      → IsConsistent (activate run_label full blocked item p)
  unfolding activate
  activate-IsConsistent full blocked none p h = h
  activate-IsConsistent full blocked (some item) p h =
      close-IsConsistent run_label _ (go-IsConsistent full blocked item.query item.href p h)

  hover-IsConsistent :
      (n : ℕ) (p : Palette)
      → IsConsistent p
      → IsConsistent (if ltb n (length p.items) then record p { active_index = pos n } else p)
  hover-IsConsistent n p h =
      if-cases IsConsistent (ltb n (length p.items))
        (λ e. record {
          fair = record { asked = h.fair.asked; waiting = h.fair.waiting };
          listed = IsListed-below n p.items (ground arith);
        })
        (λ e. h)

  on_event-IsConsistent :
      (event : Event) (p : Palette) → IsConsistent p → IsConsistent (on_event run_label event p)
  unfolding on_event
  on_event-IsConsistent Event.hotkey p h = set_open-IsConsistent run_label (not p.is_open) p h
  on_event-IsConsistent Event.trigger p h = set_open-IsConsistent run_label true p h
  on_event-IsConsistent Event.escape p h =
      if-either IsConsistent p.is_open (close-IsConsistent run_label p h) h
  on_event-IsConsistent Event.navigate p h = close-IsConsistent run_label p h
  on_event-IsConsistent Event.outside p h =
      if-either IsConsistent p.is_open (close-IsConsistent run_label p h) h
  on_event-IsConsistent Event.arrow_down p h =
      if-either IsConsistent p.is_open (arrow-IsConsistent run_label true p h) h
  on_event-IsConsistent Event.arrow_up p h =
      if-either IsConsistent p.is_open (arrow-IsConsistent run_label false p h) h
  on_event-IsConsistent (Event.type_text s) p h =
      if-either IsConsistent p.is_open (set_value-IsConsistent run_label s p h) h
  on_event-IsConsistent (Event.enter full blocked) p h =
      if-either IsConsistent p.is_open
        (activate-IsConsistent full blocked (item_at p.items p.active_index) p h) h
  on_event-IsConsistent (Event.hover n) p h =
      if-either IsConsistent p.is_open (hover-IsConsistent n p h) h
  on_event-IsConsistent (Event.click full blocked n) p h =
      if-either IsConsistent p.is_open
        (activate-IsConsistent full blocked (item_at p.items (pos n)) p h) h
  on_event-IsConsistent Event.timer_ends p h = elapse-IsConsistent p h
  on_event-IsConsistent (Event.answered n answer) p h = settle-IsConsistent run_label n answer p h

  after_events-keeps :
      (events : List Event) (p : Palette)
      → IsConsistent p
      → IsConsistent (after_events run_label events p)
  unfolding after_events
  after_events-keeps [] p h = h
  after_events-keeps (event ∷ events) p h =
      after_events-keeps events (on_event run_label event p) (on_event-IsConsistent event p h)

  -- After any events, in any order: no request has an id beyond the latest, while the palette is
  -- open the latest request is for the text that is typed, and the active item is one of those
  -- listed, if any is.
  pub after_events-IsConsistent :
      (events : List Event) (stored : Stored)
      → IsConsistent (after_events run_label events (initial stored))
  after_events-IsConsistent events stored =
      after_events-keeps events (initial stored)
        (record { fair = record { asked = tt; waiting = tt }; listed = tt })

  settle_fair :
      (n id : ℕ) (text : String) (others : List (ℕ × String)) (answer : Result Suggestions)
      (p : Palette)
      → p.is_open ≡ true
      → pick n p.in_flight ≡ some ((id, text), others)
      → IsConsistent p
      → (text ≡ p.value) ⊎ (settle run_label n answer p ≡ record p { in_flight = others })
  unfolding settle
  settle_fair n id text others answer p o found h =
      let ((le, same), rest) =
        subst (ArePicked (IsFair p.is_open p.request_id p.value)) found
          (pick-ArePicked (IsFair p.is_open p.request_id p.value) n p.in_flight h.fair.asked) in
      elim (Bool-cases (p.request_id is id)) [
        | inl mine ↦ inl (same o (ground arith))
        | inr other ↦ inr (
            rw (found, settle)
              (if-cases (λ q. q ≡ record p { in_flight = others }) (p.request_id is id)
                (λ mine. absurd (ground (arith, other))) (λ e. refl)))
      ]

  -- After any events, an answer that arrives while the palette is open either was asked for the text
  -- that is typed, or changes nothing but the list of outstanding requests.
  pub settle_typed :
      (events : List Event) (stored : Stored) (n id : ℕ) (text : String)
      (others : List (ℕ × String)) (answer : Result Suggestions)
      → (after_events run_label events (initial stored)).is_open ≡ true
      → pick n (after_events run_label events (initial stored)).in_flight
        ≡ some ((id, text), others)
      → (text ≡ (after_events run_label events (initial stored)).value)
        ⊎ (settle run_label n answer (after_events run_label events (initial stored))
            ≡ record (after_events run_label events (initial stored)) { in_flight = others })
  settle_typed events stored n id text others answer open_ found =
      settle_fair n id text others answer (after_events run_label events (initial stored)) open_
        found (after_events-IsConsistent events stored)

  -- What was asked before the palette was closed is shown when it is opened again, over an empty
  -- field.
  pub stale_shown :
      (stored : Stored) (suggestions : Suggestions)
      → let p =
          after_events run_label
            (Event.trigger
              ∷ Event.type_text "a"
              ∷ Event.timer_ends
              ∷ Event.escape
              ∷ Event.answered 0 (ok suggestions)
              ∷ Event.trigger
              ∷ [])
            (initial stored) in
        (p.value ≡ "") × (p.suggestions ≡ some suggestions)
  unfolding after_events on_event set_open set_value close elapse settle pick rebuild
  stale_shown stored suggestions = (refl, refl)
