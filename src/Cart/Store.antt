-- ===== src/Cart/Store.antt =====
-- The state of the cart store and its actions. The snapshot is `previous_items`.
use jolarca.Common.{
  String, Bool, true, false, Option, none, some, List, [], ◌∷◌, or_else, first_some,
}
use jolarca.Common.Int.{ℤ, pos, ◌+ℤ◌}
use jolarca.Common.Text.{or_text}
use jolarca.Common.Record.{Entries, lookup, insert, remove}
use jolarca.Cart.Item.{CartItem, clamp_quantity, merge_server_cart, title_from_slug}

pub data AnnouncementCode : Type 0 where
  added removed updated : AnnouncementCode

pub record CartAnnouncement : Type 0 where
  pub code : AnnouncementCode
  pub title : String
  pub quantity : ℤ

pub record CartState : Type 0 where
  pub items : Entries CartItem
  pub cart_id : Option String
  pub server_synced : Bool
  pub announcement : Option CartAnnouncement
  pub previous_items : Option (Entries CartItem)
  pub drawer_open : Bool

abbrev pub initial : CartState
initial = record {
  items = [];
  cart_id = none;
  server_synced = false;
  announcement = none;
  previous_items = none;
  drawer_open = false;
}

-- `existing?.quantity ?? 0`
abbrev pub quantity_of : Option CartItem → ℤ
quantity_of none = pos 0
quantity_of (some item) = item.quantity

abbrev pub announce_line : AnnouncementCode → String → ℤ → Option CartAnnouncement
announce_line code title quantity =
    some (record { code = code; title = title; quantity = quantity })

-- The line that `addItem` writes: the argument is a whole item, whose own quantity is not read.
unfoldable pub added_line : CartItem → ℤ → CartState → CartItem
unfolding lookup clamp_quantity title_from_slug ◌+ℤ◌
added_line item quantity state = record item {
  title = or_text item.title (title_from_slug item.slug);
  quantity =
      clamp_quantity (quantity_of (lookup item.product_id state.items) +ℤ quantity) item.max_stock;
}

unfoldable pub add_item : CartItem → ℤ → CartState → CartState
unfolding added_line insert
add_item item quantity state =
    let line = added_line item quantity state in
    record state {
      previous_items = some state.items;
      items = insert item.product_id line state.items;
      announcement = announce_line added line.title line.quantity;
    }

abbrev pub gone : Option CartItem → Option CartAnnouncement
gone none = none
gone (some item) = announce_line removed item.title item.quantity

unfoldable pub remove_item : String → CartState → CartState
unfolding lookup remove
remove_item product_id state = record state {
  previous_items = some state.items;
  items = remove product_id state.items;
  announcement = gone (lookup product_id state.items);
}

unfoldable pub update_quantity : String → ℤ → CartState → CartState
unfolding lookup insert clamp_quantity
update_quantity product_id quantity state = elim (lookup product_id state.items) [
  | none ↦ state
  | some item ↦
      let next = clamp_quantity quantity item.max_stock in
      record state {
        previous_items = some state.items;
        items = insert product_id (record item { quantity = next }) state.items;
        announcement = announce_line updated item.title next;
      }
]

unfoldable pub clear_cart : CartState → CartState
clear_cart state = record state {
  items = [];
  cart_id = none;
  server_synced = false;
  announcement = none;
  previous_items = none;
}

unfoldable pub apply_server_cart : List CartItem → Option String → CartState → CartState
unfolding merge_server_cart
apply_server_cart server_items cart_id state = record state {
  items = merge_server_cart state.items server_items;
  cart_id = first_some cart_id state.cart_id;
  server_synced = true;
}

unfoldable pub snapshot : CartState → CartState
snapshot state = record state { previous_items = some state.items }

unfoldable pub confirm : CartState → CartState
confirm state = record state { previous_items = none }

unfoldable pub rollback : CartState → CartState
rollback state = elim state.previous_items [
  | none ↦ state
  | some items ↦ record state { items = items; previous_items = none }
]

unfoldable pub announce : Option CartAnnouncement → CartState → CartState
announce announcement state = record state { announcement = announcement }

unfoldable pub confirm_server_line : String → String → Option ℤ → CartState → CartState
unfolding lookup insert
confirm_server_line product_id server_item_id quantity state =
    elim (lookup product_id state.items) [
      | none ↦ state
      | some item ↦ record state {
        items =
            insert product_id
              (record item {
                server_item_id = some server_item_id;
                quantity = or_else quantity item.quantity;
              })
              state.items;
      }
    ]

unfoldable pub open_drawer : CartState → CartState
open_drawer state = record state { drawer_open = true }

unfoldable pub close_drawer : CartState → CartState
close_drawer state = record state { drawer_open = false }

-- One call of the store's actions, and a sequence of them.
pub data Action : Type 0 where
  add : CartItem → ℤ → Action
  drop : String → Action
  change : String → ℤ → Action
  clear keep undo save show hide : Action
  merge : List CartItem → Option String → Action
  say : Option CartAnnouncement → Action
  stamp : String → String → Option ℤ → Action

unfoldable pub perform : Action → CartState → CartState
unfolding add_item remove_item update_quantity clear_cart apply_server_cart snapshot confirm
    rollback announce confirm_server_line open_drawer close_drawer
perform (add item quantity) = add_item item quantity
perform (drop product_id) = remove_item product_id
perform (change product_id quantity) = update_quantity product_id quantity
perform clear = clear_cart
perform keep = confirm
perform undo = rollback
perform save = snapshot
perform show = open_drawer
perform hide = close_drawer
perform (merge items cart_id) = apply_server_cart items cart_id
perform (say announcement) = announce announcement
perform (stamp product_id server_item_id quantity) =
    confirm_server_line product_id server_item_id quantity

unfoldable pub perform_all : List Action → CartState → CartState
unfolding perform
perform_all [] state = state
perform_all (action ∷ actions) state = perform_all actions (perform action state)
