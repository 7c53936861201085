-- ===== src/Search/Palette.antt =====
-- The search palette, frontend/src/components/client/search/search-combobox.tsx: its state, the list
-- of its items, and what its effects do when the state changes.
use jolarca.Common.{
  ℕ, suc, String, ◌<>◌, Bool, true, false, Option, none, some, List, [], ◌∷◌, ◌++◌, map, ◌==◌,
  if◌then◌else◌,
}
use jolarca.Common.Int.{ℤ, pos}
use jolarca.Common.Text.{trim, is_empty, decimal}
use jolarca.Search.Recent.{Stored, read_recent_searches}
use jolarca.Search.Answers.{SearchSuggestions, SlugName}

-- What the palette reads of a product.
pub record Product : Type 0 where
  pub id : String
  pub title : String
  pub slug : String
  pub seller_name : Option String

pub data Group : Type 0 where
  recent products sellers categories : Group

pub record PaletteItem : Type 0 where
  pub id : String
  pub group : Group
  pub label : String
  pub sublabel : Option String
  pub href : Option String
  pub query : Option String

abbrev pub Suggestions : Type 0
Suggestions = SearchSuggestions Product

-- The component's state and refs, with the timer that waits and the requests whose answer is
-- outstanding, each with its id and its text, and the storage, the handed-over query and the pages
-- that were pushed, the newest first.
pub record Palette : Type 0 where
  pub is_open : Bool
  pub value : String
  pub items : List PaletteItem
  pub active_index : ℤ
  pub suggestions : Option Suggestions
  pub is_unavailable : Bool
  pub recent : List String
  pub request_id : ℕ
  pub timer : Option (ℕ × String)
  pub in_flight : List (ℕ × String)
  pub stored : Stored
  pub handoff : Option String
  pub pushed : List String

unfoldable pub recent_items : ℕ → List String → List PaletteItem
unfolding decimal
recent_items index [] = []
recent_items index (term ∷ terms) =
    record {
      id = "recent-" <> decimal index;
      group = recent;
      label = term;
      sublabel = none;
      href = none;
      query = some term;
    }
    ∷ recent_items (suc index) terms

abbrev pub product_item : Product → PaletteItem
product_item product = record {
  id = "product-" <> product.id;
  group = products;
  label = product.title;
  sublabel = product.seller_name;
  href = some ("/p/" <> product.slug);
  query = none;
}

abbrev pub seller_item : SlugName → PaletteItem
seller_item seller = record {
  id = "seller-" <> seller.slug;
  group = sellers;
  label = seller.name;
  sublabel = none;
  href = some ("/sellers/" <> seller.slug);
  query = none;
}

abbrev pub category_item : SlugName → PaletteItem
category_item category = record {
  id = "category-" <> category.slug;
  group = categories;
  label = category.name;
  sublabel = none;
  href = some ("/c/" <> category.slug);
  query = none;
}

abbrev pub suggested_items : Option Suggestions → List PaletteItem
suggested_items none = []
suggested_items (some s) =
    map product_item s.products ++ map seller_item s.sellers ++ map category_item s.categories

-- `run_label` is the translated label of the search for a text.
module _ (run_label : String → String) where
  abbrev pub run_item : String → PaletteItem
  run_item query = record {
    id = "run-search";
    group = recent;
    label = run_label query;
    sublabel = none;
    href = none;
    query = some query;
  }

  -- The recent searches where nothing is typed, else the search for the text; then what is suggested.
  unfoldable pub items_of : String → List String → Option Suggestions → List PaletteItem
  unfolding trim recent_items
  items_of value terms suggestions =
      (if is_empty (trim value) then recent_items 0 terms else run_item (trim value) ∷ [])
      ++ suggested_items suggestions

  -- The effect that lists the items.
  unfoldable pub rebuild : Palette → Palette
  unfolding items_of
  rebuild p = record p { items = items_of p.value p.recent p.suggestions; active_index = pos 0 }

  -- The effect on the text and on `open`: the waiting timer is cleared, and an open palette sets
  -- one, under a new id.
  abbrev pub ask : Palette → Palette
  ask p =
      if p.is_open
      then record p { request_id = suc p.request_id; timer = some (suc p.request_id, p.value) }
      else record p { timer = none }

  -- `setOpen(next)` with the effects that follow: opening reads the recent searches.
  unfoldable pub set_open : Bool → Palette → Palette
  unfolding rebuild
  set_open true p =
      if p.is_open
      then p
      else rebuild (ask (record p { is_open = true; recent = read_recent_searches p.stored }))
  set_open false p = if p.is_open then ask (record p { is_open = false }) else p

  -- `setValue(next)` with the effects that follow.
  unfoldable pub set_value : String → Palette → Palette
  unfolding rebuild
  set_value next p = if p.value == next then p else rebuild (ask (record p { value = next }))

  unfoldable pub close : Palette → Palette
  unfolding set_open set_value
  close p = record (set_value "" (set_open false p)) { active_index = pos 0 }
