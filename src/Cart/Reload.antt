-- ===== src/Cart/Reload.antt =====
-- What a page reload keeps of the cart.
use jolarca.Common.{◌≡◌, refl, ap, false, Option, none, some, List, [], ◌∷◌}
use jolarca.Common.Text.{is_empty}
use jolarca.Common.Record.{Entries, lookup, values}
use jolarca.Cart.Item.{CartItem}
use jolarca.Cart.Store.{CartState}
use jolarca.Cart.Quantities.{IsPositive}
use jolarca.Cart.Persist.{
  PersistedLine, PersistedDraft, line_of, lines_of, partialize, StoredLine, StoredDraft, restored,
}

-- What the storage gives back of a draft that was written to it.
abbrev pub stored_line : PersistedLine → Option StoredLine
stored_line line = some (record {
  product_id = some line.product_id;
  slug = some line.slug;
  quantity = some line.quantity;
})

abbrev pub stored_lines : List PersistedLine → List (Option StoredLine)
stored_lines [] = []
stored_lines (line ∷ lines) = stored_line line ∷ stored_lines lines

abbrev pub stored : PersistedDraft → Option StoredDraft
stored draft = some (record { cart_id = draft.cart_id; lines = some (stored_lines draft.lines) })

-- A line that can be stored: it has a product id and holds at least one piece.
abbrev pub IsStorable : CartItem → Type 0
IsStorable item = (is_empty item.product_id ≡ false) × IsPositive item.quantity

-- No key of the first list is one of the second.
abbrev AreApart : Entries CartItem → Entries CartItem → Type 0
AreApart done [] = Unit
AreApart done ((k, v) ∷ rest) = (lookup k done ≡ none) × AreApart done rest

-- The item that comes back of an item that was stored.
abbrev restored_of : CartItem → CartItem
restored_of item = restored item.product_id (record {
  product_id = some item.product_id;
  slug = some item.slug;
  quantity = some item.quantity;
})

-- The item without what may be personal or is for display.
abbrev pub anonymous : CartItem → CartItem
anonymous item = record item {
  title = "";
  price = "";
  currency = "";
  image_url = none;
  max_stock = none;
  seller_id = none;
  seller_name = none;
  server_item_id = none;
}

abbrev pub anonymous_items : Entries CartItem → Entries CartItem
anonymous_items [] = []
anonymous_items ((k, item) ∷ items) = (k, anonymous item) ∷ anonymous_items items

lines_of-anonymous :
    (items : Entries CartItem) → lines_of (values (anonymous_items items)) ≡ lines_of (values items)
unfolding lines_of values
lines_of-anonymous [] = refl
lines_of-anonymous ((k, item) ∷ items) = ap (◌∷◌ (line_of item)) (lines_of-anonymous items)

-- Titles, prices, images, stocks, sellers, the server's line ids, the announcement and the
-- snapshot have no part in what is written to the storage: without them the same is written.
pub partialize-anonymous :
    (state : CartState)
    → partialize (record state {
      items = anonymous_items state.items;
      announcement = none;
      previous_items = none;
    })
      ≡ partialize state
unfolding partialize
partialize-anonymous state =
    ap (λ lines. record { cart_id = state.cart_id; lines = lines }) (lines_of-anonymous state.items)
