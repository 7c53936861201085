-- ===== src/Search/PaletteEvents.antt =====
-- The handlers of frontend/src/components/client/search/search-combobox.tsx, and what its timer and
-- the answers do.
use jolarca.Common.{
  ℕ, zero, suc, String, Bool, true, false, not, Option, none, some, List, [], ◌∷◌, ◌++◌, ltb, ◌is◌,
  if◌then◌else◌,
}
use jolarca.Common.Int.{ℤ, pos, negsuc, ◌+ℤ◌, ◌-ℤ◌, min_ℤ, max_ℤ}
use jolarca.Common.Lists.{pick, length}
use jolarca.Common.Text.{is_empty}
use jolarca.Errors.{Result, ok, throw}
use jolarca.Cart.Item.{is_contract_pending}
use jolarca.Search.Recent.{Stored, write_recent_search}
use jolarca.Search.Palette.{Suggestions, PaletteItem, Palette, rebuild, set_open, set_value, close}

abbrev pub initial : Stored → Palette
initial stored = record {
  is_open = false;
  value = "";
  items = [];
  active_index = pos 0;
  suggestions = none;
  is_unavailable = false;
  recent = [];
  request_id = 0;
  timer = none;
  in_flight = [];
  stored = stored;
  handoff = none;
  pushed = [];
}

-- `items[index]`
unfoldable pub item_at : List PaletteItem → ℤ → Option PaletteItem
item_at [] index = none
item_at (item ∷ items) (negsuc n) = none
item_at (item ∷ items) (pos zero) = some item
item_at (item ∷ items) (pos (suc n)) = item_at items (pos n)

abbrev pub send : Option (ℕ × String) → Palette → Palette
send none p = p
send (some request) p = record p { timer = none; in_flight = p.in_flight ++ request ∷ [] }

-- The timer's end: `fetchSuggestions(value)` is called.
unfoldable pub elapse : Palette → Palette
elapse p = send p.timer p

-- The arrow keys: down, or up.
unfoldable pub arrow : Bool → Palette → Palette
unfolding ◌+ℤ◌ ◌-ℤ◌
arrow true p = record p {
  active_index = min_ℤ (pos (length p.items) -ℤ pos 1) (p.active_index +ℤ pos 1);
}
arrow false p = record p { active_index = max_ℤ (pos 0) (p.active_index -ℤ pos 1) }

-- The keys and the mouse; the field and the list stand in an open palette only.
pub data Event : Type 0 where
  hotkey trigger escape navigate outside arrow_down arrow_up : Event
  type_text : String → Event
  enter : (full blocked : Bool) → Event
  hover : ℕ → Event
  click : (full blocked : Bool) → ℕ → Event
  timer_ends : Event
  answered : ℕ → Result Suggestions → Event

module _ (run_label : String → String) where
  -- `setSuggestions(null)` changes nothing where they are null already.
  abbrev pub drop_suggestions : Option Suggestions → Palette → Palette
  drop_suggestions none p = p
  drop_suggestions (some s) p = rebuild run_label (record p { suggestions = none })

  -- The answer to the latest request.
  abbrev pub accept : Result Suggestions → Palette → Palette
  accept (ok suggestions) p =
      rebuild run_label (record p { suggestions = some suggestions; is_unavailable = false })
  accept (throw e) p =
      drop_suggestions p.suggestions (record p { is_unavailable = not (is_contract_pending e) })

  -- The answer to a request: only the latest request's is read.
  unfoldable pub settle : ℕ → Result Suggestions → Palette → Palette
  unfolding pick rebuild is_contract_pending
  settle n answer p = elim (pick n p.in_flight) [
    | none ↦ p
    | some ((id, value), others) ↦
        let answered = record p { in_flight = others } in
        if p.request_id is id then accept answer answered else answered
  ]

  abbrev pub follow : Option String → Palette → Palette
  follow none p = p
  follow (some href) p = if is_empty href then p else record p { pushed = href ∷ p.pushed }

  -- `full` and `blocked`: whether the writes to the local and to the session storage throw.
  abbrev pub go : (full blocked : Bool) → (query href : Option String) → Palette → Palette
  go full blocked none href p = follow href p
  go full blocked (some query) href p = if is_empty query then follow href p else record p {
    stored = write_recent_search full query p.stored;
    handoff = if blocked then p.handoff else some query;
    pushed = "/search" ∷ p.pushed;
  }

  unfoldable pub activate : (full blocked : Bool) → Option PaletteItem → Palette → Palette
  unfolding write_recent_search close
  activate full blocked none p = p
  activate full blocked (some item) p = close run_label (go full blocked item.query item.href p)

  unfoldable pub on_event : Event → Palette → Palette
  unfolding set_open set_value close arrow activate item_at elapse settle
  on_event hotkey p = set_open run_label (not p.is_open) p
  on_event trigger p = set_open run_label true p
  on_event escape p = if p.is_open then close run_label p else p
  on_event navigate p = close run_label p
  on_event outside p = if p.is_open then close run_label p else p
  on_event arrow_down p = if p.is_open then arrow true p else p
  on_event arrow_up p = if p.is_open then arrow false p else p
  on_event (type_text s) p = if p.is_open then set_value run_label s p else p
  on_event (enter full blocked) p =
      if p.is_open then activate full blocked (item_at p.items p.active_index) p else p
  on_event (hover n) p =
      if p.is_open
      then if ltb n (length p.items) then record p { active_index = pos n } else p
      else p
  on_event (click full blocked n) p =
      if p.is_open then activate full blocked (item_at p.items (pos n)) p else p
  on_event timer_ends p = elapse p
  on_event (answered n answer) p = settle n answer p

  unfoldable pub after_events : List Event → Palette → Palette
  unfolding on_event
  after_events [] p = p
  after_events (event ∷ events) p = after_events events (on_event event p)
