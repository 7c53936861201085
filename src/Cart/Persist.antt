-- ===== src/Cart/Persist.antt =====
-- What the `persist` middleware writes and reads: `partialize` and `merge` of the cart store.
use jolarca.Common.{String, Option, none, some, List, [], ◌∷◌, or_else, if◌then◌else◌}
use jolarca.Common.Int.{ℤ, pos, max_ℤ}
use jolarca.Common.Text.{is_empty}
use jolarca.Common.Record.{Entries, values, insert}
use jolarca.Cart.Item.{CartItem, title_from_slug}
use jolarca.Cart.Store.{CartState}

pub record PersistedLine : Type 0 where
  pub product_id : String
  pub slug : String
  pub quantity : ℤ

pub record PersistedDraft : Type 0 where
  pub cart_id : Option String
  pub lines : List PersistedLine

abbrev pub line_of : CartItem → PersistedLine
line_of item = record { product_id = item.product_id; slug = item.slug; quantity = item.quantity }

unfoldable pub lines_of : List CartItem → List PersistedLine
lines_of [] = []
lines_of (item ∷ items) = line_of item ∷ lines_of items

unfoldable pub partialize : CartState → PersistedDraft
unfolding lines_of values
partialize state = record { cart_id = state.cart_id; lines = lines_of (values state.items) }

-- A line as it is found in the storage: any of its fields may be missing.
pub record StoredLine : Type 0 where
  pub product_id : Option String
  pub slug : Option String
  pub quantity : Option ℤ

pub record StoredDraft : Type 0 where
  pub cart_id : Option String
  pub lines : Option (List (Option StoredLine))

-- The item of a line whose product id is `product_id`.
unfoldable pub restored : String → StoredLine → CartItem
unfolding title_from_slug
restored product_id line =
    let slug = or_else line.slug product_id in
    record {
      product_id = product_id;
      slug = slug;
      title = title_from_slug slug;
      price = "0";
      currency = "EUR";
      quantity = max_ℤ (pos 1) (or_else line.quantity (pos 1));
      image_url = none;
      max_stock = none;
      seller_id = none;
      seller_name = none;
      server_item_id = none;
    }

-- One round of the loop in `merge`: a line without a product id is skipped.
unfoldable pub restore_line : Option StoredLine → Entries CartItem → Entries CartItem
unfolding restored insert
restore_line none items = items
restore_line (some line) items = elim line.product_id [
  | none ↦ items
  | some product_id ↦
      if is_empty product_id then items else insert product_id (restored product_id line) items
]

unfoldable pub restore_lines : List (Option StoredLine) → Entries CartItem → Entries CartItem
unfolding restore_line
restore_lines [] items = items
restore_lines (line ∷ lines) items = restore_lines lines (restore_line line items)

-- `persisted ?? {}`
abbrev pub draft_or_empty : Option StoredDraft → StoredDraft
draft_or_empty draft = or_else draft (record { cart_id = none; lines = none })

unfoldable pub merge : Option StoredDraft → CartState → CartState
unfolding restore_lines
merge persisted current =
    let draft = draft_or_empty persisted in
    record current { items = restore_lines (or_else draft.lines []) []; cart_id = draft.cart_id }
