-- ===== src/Cart/Invariant.antt =====
-- What holds of the cart after any sequence of the store's actions.
use jolarca.Common.{
  String, ◌≡◌, refl, Option, none, some, List, [], ◌∷◌, arith, Option-cases, inl, inr, or_else,
}
use mathlib.Core.Path.{subst}
use jolarca.Common.Int.{ℤ, ◌+ℤ◌}
use jolarca.Common.Lists.{All}
use jolarca.Common.Record.{
  Entries, lookup, insert, values, insert_all, IsKeyed, insert-IsKeyed, remove-IsKeyed,
  insert_all-IsKeyed, All-insert, All-remove, All-lookup, key-lookup, remove,
}
use jolarca.Cart.Item.{CartItem, key_of, merge_server_cart}
use jolarca.Cart.Store
use jolarca.Cart.Store.{CartState, initial, Action, perform, perform_all}
use jolarca.Cart.Quantities.{IsPositive, HasStock, clamp_quantity-IsPositive}

-- A line holds at least one piece, and its stock, if known, is at least 1.
abbrev pub IsGood : CartItem → Type 0
IsGood item = IsPositive item.quantity × HasStock item.max_stock

-- Each item is filed under its own product id, no id twice, and each line is good.
pub record AreGood (items : Entries CartItem) : Type 0 where
  pub keyed : IsKeyed key_of items
  pub good : All IsGood (values items)

pub record IsWellFormed (state : CartState) : Type 0 where
  pub current : AreGood state.items
  pub snapshot : (items : Entries CartItem) → state.previous_items ≡ some items → AreGood items

-- What the callers of the actions have to bring: known stocks of at least 1, and quantities of at
-- least 1 where the server gives them. The quantities that a user asks for may be anything.
abbrev pub IsAllowed : Action → Type 0
IsAllowed (Action.add item quantity) = HasStock item.max_stock
IsAllowed (Action.merge items cart_id) = All IsGood items
IsAllowed (Action.stamp product_id server_item_id none) = Unit
IsAllowed (Action.stamp product_id server_item_id (some quantity)) = IsPositive quantity
IsAllowed _ = Unit

AreGood-nil : AreGood []
unfolding values
AreGood-nil = record { keyed = tt; good = tt }

AreGood-insert :
    (k : String) (item : CartItem) (items : Entries CartItem)
    → k ≡ item.product_id
    → IsGood item
    → AreGood items
    → AreGood (insert k item items)
AreGood-insert k item items e g a = record {
  keyed = insert-IsKeyed key_of k item items e a.keyed;
  good = All-insert IsGood k item items g a.good;
}

AreGood-remove : (k : String) (items : Entries CartItem) → AreGood items → AreGood (remove k items)
AreGood-remove k items a = record {
  keyed = remove-IsKeyed key_of k items a.keyed;
  good = All-remove IsGood k items a.good;
}

AreGood-lookup :
    (k : String) (items : Entries CartItem) {item : CartItem}
    → lookup k items ≡ some item
    → AreGood items
    → (k ≡ item.product_id) × IsGood item
AreGood-lookup k items e a =
    (key-lookup key_of k items e a.keyed, All-lookup IsGood k items e a.good)

All-insert_all :
    (vs : List CartItem) (items : Entries CartItem)
    → All IsGood vs
    → All IsGood (values items)
    → All IsGood (values (insert_all key_of vs items))
unfolding insert_all
All-insert_all [] items h k = k
All-insert_all (v ∷ vs) items (g, h) k =
    All-insert_all vs (insert (key_of v) v items) h (All-insert IsGood (key_of v) v items g k)

merge_server_cart-AreGood :
    (items : Entries CartItem) (server : List CartItem)
    → AreGood items
    → All IsGood server
    → AreGood (merge_server_cart items server)
unfolding merge_server_cart
merge_server_cart-AreGood items server a h = record {
  keyed = insert_all-IsKeyed key_of server _ (insert_all-IsKeyed key_of (values items) [] tt);
  good = All-insert_all server _ h (All-insert_all (values items) [] a.good tt);
}

added_line-IsGood :
    (item : CartItem) (quantity : ℤ) (state : CartState)
    → HasStock item.max_stock
    → IsGood (Store.added_line item quantity state)
unfolding Store.added_line
added_line-IsGood item quantity state h = (
  clamp_quantity-IsPositive (Store.quantity_of (lookup item.product_id state.items) +ℤ quantity)
      item.max_stock h,
  h,
)

add_item-IsWellFormed :
    (item : CartItem) (quantity : ℤ) (state : CartState)
    → HasStock item.max_stock
    → IsWellFormed state
    → IsWellFormed (Store.add_item item quantity state)
unfolding Store.add_item
add_item-IsWellFormed item quantity state h w = record {
  current =
      AreGood-insert item.product_id (Store.added_line item quantity state) state.items refl
        (added_line-IsGood item quantity state h) w.current;
  snapshot = λ items e. subst AreGood (ground arith) w.current;
}

remove_item-IsWellFormed :
    (product_id : String) (state : CartState)
    → IsWellFormed state
    → IsWellFormed (Store.remove_item product_id state)
unfolding Store.remove_item
remove_item-IsWellFormed product_id state w = record {
  current = AreGood-remove product_id state.items w.current;
  snapshot = λ items e. subst AreGood (ground arith) w.current;
}

update_quantity-IsWellFormed :
    (product_id : String) (quantity : ℤ) (state : CartState)
    → IsWellFormed state
    → IsWellFormed (Store.update_quantity product_id quantity state)
unfolding Store.update_quantity
update_quantity-IsWellFormed product_id quantity state w =
    elim (Option-cases (lookup product_id state.items)) [
      | inl missing ↦ rw (missing, Store.update_quantity) w
      | inr (item, found) ↦
          let (same, good) = AreGood-lookup product_id state.items found w.current in
          rw (found, Store.update_quantity)
            (record {
              current =
                  AreGood-insert product_id _ state.items same
                    (clamp_quantity-IsPositive quantity item.max_stock good.1, good.1) w.current;
              snapshot = λ items e. subst AreGood (ground arith) w.current;
            })
    ]

stamped_quantity :
    (product_id server_item_id : String) (old : ℤ) (quantity : Option ℤ)
    → IsPositive old
    → IsAllowed (Action.stamp product_id server_item_id quantity)
    → IsPositive (or_else quantity old)
stamped_quantity product_id server_item_id old none p h = p
stamped_quantity product_id server_item_id old (some n) p h = h

confirm_server_line-IsWellFormed :
    (product_id server_item_id : String) (quantity : Option ℤ) (state : CartState)
    → IsAllowed (Action.stamp product_id server_item_id quantity)
    → IsWellFormed state
    → IsWellFormed (Store.confirm_server_line product_id server_item_id quantity state)
unfolding Store.confirm_server_line
confirm_server_line-IsWellFormed product_id server_item_id quantity state h w =
    elim (Option-cases (lookup product_id state.items)) [
      | inl missing ↦ rw (missing, Store.confirm_server_line) w
      | inr (item, found) ↦
          let (same, good) = AreGood-lookup product_id state.items found w.current in
          rw (found, Store.confirm_server_line)
            (record {
              current =
                  AreGood-insert product_id _ state.items same
                    (
                      stamped_quantity product_id server_item_id item.quantity quantity good.0 h,
                      good.1,
                    )
                    w.current;
              snapshot = w.snapshot;
            })
    ]

rollback-IsWellFormed :
    (state : CartState) → IsWellFormed state → IsWellFormed (Store.rollback state)
unfolding Store.rollback
rollback-IsWellFormed state w = elim (Option-cases state.previous_items) [
  | inl none_ ↦ rw (none_, Store.rollback) w
  | inr (items, saved) ↦
      rw (saved, Store.rollback)
        (record { current = w.snapshot items saved; snapshot = λ items' e. cc })
]

pub perform-IsWellFormed :
    (action : Action) (state : CartState)
    → IsAllowed action
    → IsWellFormed state
    → IsWellFormed (perform action state)
unfolding perform
perform-IsWellFormed (Action.add item quantity) state h w =
    add_item-IsWellFormed item quantity state h w
perform-IsWellFormed (Action.drop product_id) state h w =
    remove_item-IsWellFormed product_id state w
perform-IsWellFormed (Action.change product_id quantity) state h w =
    update_quantity-IsWellFormed product_id quantity state w
perform-IsWellFormed Action.clear state h w = record {
  current = AreGood-nil;
  snapshot = λ items e. cc;
}
perform-IsWellFormed Action.keep state h w = record {
  current = w.current;
  snapshot = λ items e. cc;
}
perform-IsWellFormed Action.undo state h w = rollback-IsWellFormed state w
perform-IsWellFormed Action.save state h w = record {
  current = w.current;
  snapshot = λ items e. subst AreGood (ground arith) w.current;
}
perform-IsWellFormed Action.show state h w = record { current = w.current; snapshot = w.snapshot }
perform-IsWellFormed Action.hide state h w = record { current = w.current; snapshot = w.snapshot }
perform-IsWellFormed (Action.merge items cart_id) state h w = record {
  current = merge_server_cart-AreGood state.items items w.current h;
  snapshot = w.snapshot;
}
perform-IsWellFormed (Action.say announcement) state h w = record {
  current = w.current;
  snapshot = w.snapshot;
}
perform-IsWellFormed (Action.stamp product_id server_item_id quantity) state h w =
    confirm_server_line-IsWellFormed product_id server_item_id quantity state h w

-- From a well-formed cart, any sequence of allowed actions leads to a well-formed cart: items
-- under their own ids, no id twice, every quantity at least 1, and the same of the snapshot.
pub perform_all-IsWellFormed :
    (actions : List Action) (state : CartState)
    → All IsAllowed actions
    → IsWellFormed state
    → IsWellFormed (perform_all actions state)
unfolding perform_all
perform_all-IsWellFormed [] state h w = w
perform_all-IsWellFormed (action ∷ actions) state (a, h) w =
    perform_all-IsWellFormed actions (perform action state) h
      (perform-IsWellFormed action state a w)

pub initial-IsWellFormed : IsWellFormed initial
initial-IsWellFormed = record { current = AreGood-nil; snapshot = λ items e. cc }
