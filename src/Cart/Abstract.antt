-- ===== src/Cart/Abstract.antt =====
-- What the cart store of frontend/src/stores/cart-store.ts promises its readers: the line of each
-- product, and not the order in which the lines are stored.
use jolarca.Common.{
  String, Bool, true, false, Option, none, some, List, [], ◌∷◌, ◌==◌, if◌then◌else◌, or_else,
  first_some,
}
use jolarca.Common.Int.{ℤ, ◌+ℤ◌}
use jolarca.Common.Text.{or_text}
use jolarca.Common.Record.{Entries, lookup}
use jolarca.Cart.Item.{CartItem, clamp_quantity, title_from_slug}
use jolarca.Cart.Store
use jolarca.Cart.Store.{
  CartAnnouncement, CartState, initial, quantity_of, announce_line, gone, Action, perform,
  perform_all,
}
use jolarca.Cart.Merging.{last_with}

-- The line of each product, if it has one.
abbrev pub Lines : Type 0
Lines = String → Option CartItem

abbrev pub lines_of : Entries CartItem → Lines
lines_of items product_id = lookup product_id items

pub record Cart : Type 0 where
  pub lines : Lines
  pub cart_id : Option String
  pub is_synced : Bool
  pub announcement : Option CartAnnouncement
  pub saved : Option Lines
  pub is_open : Bool

abbrev pub saved_lines : Option (Entries CartItem) → Option Lines
saved_lines none = none
saved_lines (some items) = some (lines_of items)

-- What a reader of the store sees.
abbrev pub view : CartState → Cart
view state = record {
  lines = lines_of state.items;
  cart_id = state.cart_id;
  is_synced = state.server_synced;
  announcement = state.announcement;
  saved = saved_lines state.previous_items;
  is_open = state.drawer_open;
}

abbrev pub empty_cart : Cart
empty_cart = record {
  lines = λ product_id. none;
  cart_id = none;
  is_synced = false;
  announcement = none;
  saved = none;
  is_open = false;
}

abbrev pub put : String → CartItem → Lines → Lines
put product_id item lines other = if product_id == other then some item else lines other

abbrev pub drop_line : String → Lines → Lines
drop_line product_id lines other = if product_id == other then none else lines other

-- The line after an addition.
abbrev pub sum_line : CartItem → ℤ → Option CartItem → CartItem
sum_line item quantity existing = record item {
  title = or_text item.title (title_from_slug item.slug);
  quantity = clamp_quantity (quantity_of existing +ℤ quantity) item.max_stock;
}

abbrev pub change_line : String → ℤ → Cart → Option CartItem → Cart
change_line product_id quantity cart none = cart
change_line product_id quantity cart (some item) =
    let next = clamp_quantity quantity item.max_stock in
    record cart {
      saved = some cart.lines;
      lines = put product_id (record item { quantity = next }) cart.lines;
      announcement = announce_line Store.AnnouncementCode.updated item.title next;
    }

abbrev pub stamp_line : String → String → Option ℤ → Cart → Option CartItem → Cart
stamp_line product_id server_item_id quantity cart none = cart
stamp_line product_id server_item_id quantity cart (some item) = record cart {
  lines =
      put product_id
        (record item {
          server_item_id = some server_item_id;
          quantity = or_else quantity item.quantity;
        })
        cart.lines;
}

abbrev pub undo_with : Cart → Option Lines → Cart
undo_with cart none = cart
undo_with cart (some lines) = record cart { lines = lines; saved = none }

-- What each action promises.
unfoldable pub promise : Action → Cart → Cart
promise (Action.add item quantity) cart =
    let line = sum_line item quantity (cart.lines item.product_id) in
    record cart {
      saved = some cart.lines;
      lines = put item.product_id line cart.lines;
      announcement = announce_line Store.AnnouncementCode.added line.title line.quantity;
    }
promise (Action.drop product_id) cart = record cart {
  saved = some cart.lines;
  lines = drop_line product_id cart.lines;
  announcement = gone (cart.lines product_id);
}
promise (Action.change product_id quantity) cart =
    change_line product_id quantity cart (cart.lines product_id)
promise Action.clear cart = record empty_cart { is_open = cart.is_open }
promise Action.keep cart = record cart { saved = none }
promise Action.undo cart = undo_with cart cart.saved
promise Action.save cart = record cart { saved = some cart.lines }
promise Action.show cart = record cart { is_open = true }
promise Action.hide cart = record cart { is_open = false }
promise (Action.merge items cart_id) cart = record cart {
  lines = λ product_id. last_with product_id items (cart.lines product_id);
  cart_id = first_some cart_id cart.cart_id;
  is_synced = true;
}
promise (Action.say announcement) cart = record cart { announcement = announcement }
promise (Action.stamp product_id server_item_id quantity) cart =
    stamp_line product_id server_item_id quantity cart (cart.lines product_id)

abbrev pub promise_all : List Action → Cart → Cart
promise_all [] cart = cart
promise_all (action ∷ actions) cart = promise_all actions (promise action cart)
