-- ===== src/Cart/Refinement.antt =====
-- The store of frontend/src/stores/cart-store.ts keeps what its abstract view promises.
use mathlib.Core.Path.{fun_ext}
use jolarca.Common.{
  String, ◌≡◌, refl, ap, ◌∙◌, Option, none, some, List, [], ◌∷◌, Option-cases, inl, inr,
}
use jolarca.Common.Int.{ℤ}
use jolarca.Common.Lists.{All}
use jolarca.Common.Record.{Entries, lookup, insert, remove, lookup-insert, lookup-remove, IsKeyed}
use jolarca.Cart.Item.{CartItem, key_of, clamp_quantity}
use jolarca.Cart.Store
use jolarca.Cart.Store.{
  CartAnnouncement, CartState, initial, quantity_of, announce_line, gone, Action, perform,
  perform_all,
}
use jolarca.Cart.Invariant.{IsAllowed, IsWellFormed, perform-IsWellFormed, initial-IsWellFormed}
use jolarca.Cart.Merging.{lookup-merge_server_cart}
use jolarca.Cart.Abstract.{
  Lines, lines_of, Cart, saved_lines, view, empty_cart, put, drop_line, promise, promise_all,
}

lines_of-nil : lines_of [] ≡ (λ product_id. none)
unfolding lookup
lines_of-nil = fun_ext (λ product_id. refl)

lines_of-insert :
    (product_id : String) (item : CartItem) (items : Entries CartItem)
    → lines_of (insert product_id item items) ≡ put product_id item (lines_of items)
lines_of-insert product_id item items = fun_ext (λ other. lookup-insert product_id other item items)

lines_of-remove :
    (product_id : String) (items : Entries CartItem)
    → lines_of (remove product_id items) ≡ drop_line product_id (lines_of items)
lines_of-remove product_id items = fun_ext (λ other. lookup-remove product_id other items)

-- A view with other lines.
abbrev with_lines : Cart → Lines → Cart
with_lines cart lines = record cart { lines = lines }

view-add_item :
    (item : CartItem) (quantity : ℤ) (state : CartState)
    → view (Store.add_item item quantity state) ≡ promise (Action.add item quantity) (view state)
unfolding Store.add_item Store.added_line promise
view-add_item item quantity state =
    ap (with_lines (view (Store.add_item item quantity state)))
      (lines_of-insert item.product_id (Store.added_line item quantity state) state.items)

view-remove_item :
    (product_id : String) (state : CartState)
    → view (Store.remove_item product_id state) ≡ promise (Action.drop product_id) (view state)
unfolding Store.remove_item promise
view-remove_item product_id state =
    ap (with_lines (view (Store.remove_item product_id state)))
      (lines_of-remove product_id state.items)

view-update_quantity :
    (product_id : String) (quantity : ℤ) (state : CartState)
    → view (Store.update_quantity product_id quantity state)
      ≡ promise (Action.change product_id quantity) (view state)
unfolding Store.update_quantity promise
view-update_quantity product_id quantity state =
    elim (Option-cases (lookup product_id state.items)) [
      | inl missing ↦ rw (missing, Store.update_quantity) refl
      | inr (item, found) ↦
          rw (found, Store.update_quantity)
            (ap
              (with_lines (record (view state) {
                saved = some (lines_of state.items);
                announcement =
                    announce_line Store.AnnouncementCode.updated item.title
                      (clamp_quantity quantity item.max_stock);
              }))
              (lines_of-insert product_id _ state.items))
    ]

view-rollback : (state : CartState) → view (Store.rollback state) ≡ promise Action.undo (view state)
unfolding Store.rollback promise
view-rollback state = elim (Option-cases state.previous_items) [
  | inl missing ↦
      rw (missing, Store.rollback)
        (ap (λ saved. record (view state) { saved = saved_lines saved }) missing)
  | inr (items, found) ↦ rw (found, Store.rollback) refl
]

view-apply_server_cart :
    (items : List CartItem) (cart_id : Option String) (state : CartState)
    → IsKeyed key_of state.items
    → view (Store.apply_server_cart items cart_id state)
      ≡ promise (Action.merge items cart_id) (view state)
unfolding Store.apply_server_cart promise
view-apply_server_cart items cart_id state h =
    ap (with_lines (view (Store.apply_server_cart items cart_id state)))
      (fun_ext (λ product_id. lookup-merge_server_cart product_id state.items items h))

view-confirm_server_line :
    (product_id server_item_id : String) (quantity : Option ℤ) (state : CartState)
    → view (Store.confirm_server_line product_id server_item_id quantity state)
      ≡ promise (Action.stamp product_id server_item_id quantity) (view state)
unfolding Store.confirm_server_line promise
view-confirm_server_line product_id server_item_id quantity state =
    elim (Option-cases (lookup product_id state.items)) [
      | inl missing ↦ rw (missing, Store.confirm_server_line) refl
      | inr (item, found) ↦
          rw (found, Store.confirm_server_line)
            (ap (with_lines (view state)) (lines_of-insert product_id _ state.items))
    ]

-- Each action does what it promises.
view-perform :
    (action : Action) (state : CartState)
    → IsKeyed key_of state.items
    → view (perform action state) ≡ promise action (view state)
unfolding perform promise
view-perform (Action.add item quantity) state h = view-add_item item quantity state
view-perform (Action.drop product_id) state h = view-remove_item product_id state
view-perform (Action.change product_id quantity) state h =
    view-update_quantity product_id quantity state
view-perform Action.clear state h =
    unfold Store.clear_cart in
    ap (with_lines (record empty_cart { is_open = state.drawer_open })) lines_of-nil
view-perform Action.keep state h = refl
view-perform Action.undo state h = view-rollback state
view-perform Action.save state h = refl
view-perform Action.show state h = refl
view-perform Action.hide state h = refl
view-perform (Action.merge items cart_id) state h = view-apply_server_cart items cart_id state h
view-perform (Action.say announcement) state h = refl
view-perform (Action.stamp product_id server_item_id quantity) state h =
    view-confirm_server_line product_id server_item_id quantity state

view-perform_all :
    (actions : List Action) (state : CartState)
    → All IsAllowed actions
    → IsWellFormed state
    → view (perform_all actions state) ≡ promise_all actions (view state)
unfolding perform_all
view-perform_all [] state h w = refl
view-perform_all (action ∷ actions) state (a, h) w =
    view-perform_all actions (perform action state) h (perform-IsWellFormed action state a w)
    ∙ ap (promise_all actions) (view-perform action state w.current.keyed)

-- From the empty cart, any sequence of allowed actions shows its readers what the same sequence
-- promises on a plain function from product ids to lines.
pub perform_all_refines :
    (actions : List Action)
    → All IsAllowed actions
    → view (perform_all actions initial) ≡ promise_all actions empty_cart
perform_all_refines actions h =
    view-perform_all actions initial h initial-IsWellFormed
    ∙ ap (promise_all actions) (ap (with_lines empty_cart) lines_of-nil)
