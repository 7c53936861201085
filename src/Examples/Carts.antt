-- ===== src/Examples/Carts.antt =====
-- A cart with a line for tea, and what happens to it.
use mathlib.Core.Bool.{false≢true}
use jolarca.Common.{◌≡◌, refl, false, none, some, List, [], ◌∷◌, ◌≢◌, eq_iff, arith}
use jolarca.Common.Int.{pos}
use jolarca.Common.Record.{lookup}
use jolarca.Json.{Value, str, num, obj, prop, end}
use jolarca.Errors.{Thrown, network, throw}
use jolarca.Http.{Call, settled}
use jolarca.Cart.Item.{CartItem, merge_server_cart, is_contract_pending}
use jolarca.Cart.Store.{
  CartState, initial, Action, add, drop, undo, added_line, add_item, perform_all,
}
use jolarca.Cart.Server.{Confirmed}
use jolarca.Cart.Sync.{settle_add}
use jolarca.Cart.Invariant.{IsWellFormed, initial-IsWellFormed, perform_all-IsWellFormed}
use jolarca.Cart.Abstract.{view, promise_all, empty_cart}
use jolarca.Cart.Refinement.{perform_all_refines}
use jolarca.Cart.Races.{both_started, first_fails}
use jolarca.Cart.Merging.{last_with, lookup-merge_server_cart}

abbrev pub tea : CartItem
tea = record {
  product_id = "tea";
  slug = "green-tea";
  title = "Green tea";
  price = "3.50";
  currency = "EUR";
  quantity = pos 2;
  image_url = none;
  max_stock = some (pos 9);
  seller_id = none;
  seller_name = some "Leaf";
  server_item_id = some "line-1";
}

abbrev mug : CartItem
mug = record tea { product_id = "mug"; slug = "mug"; title = "Mug"; server_item_id = none }

mug≢tea : mug.product_id ≢ tea.product_id
mug≢tea e = false≢true ((eq_iff "mug" "tea").1 e)

abbrev filled : CartState
filled = record initial { items = ("tea", tea) ∷ [] }

-- An answer with status 409.
abbrev conflict : Call
conflict = settled (record {
  response = record { status = 409; status_text = "Conflict"; json = none };
  data_ = none;
  error = none;
})

abbrev offline : Thrown
offline = network "offline" "t1"

abbrev visit : List Action
visit = add mug (pos 40) ∷ add tea (pos 1) ∷ drop "mug" ∷ undo ∷ []

perform_all-IsWellFormed_example : IsWellFormed (perform_all visit initial)
perform_all-IsWellFormed_example =
    perform_all-IsWellFormed visit initial (omega arith, (omega arith, (tt, (tt, tt))))
      initial-IsWellFormed

lookup-merge_server_cart_example :
    lookup "tea" (merge_server_cart filled.items (mug ∷ []))
    ≡ last_with "tea" (mug ∷ []) (lookup "tea" filled.items)
lookup-merge_server_cart_example =
    lookup-merge_server_cart "tea" filled.items (mug ∷ []) (unfold lookup in (refl, refl, tt))

abbrev entry : Value
entry = obj (prop "product_id" (str "tea") (prop "quantity" (num (pos 2)) end))

abbrev nameless : Value
nameless = obj (prop "quantity" (num (pos 2)) end)

abbrev answer_of : Value → Value
answer_of items = obj (prop "cart_id" (str "c1") (prop "items" items end))

first_fails_example :
    let s = settle_add "mug" (throw offline) (both_started mug (pos 1) tea (pos 1) initial) in
    (s.stands ≡ false)
    × (s.state.items ≡ (add_item mug (pos 1) initial).items)
    × (lookup "mug" s.state.items ≡ some (added_line mug (pos 1) initial))
    × (lookup "tea" s.state.items ≡ none)
first_fails_example =
    first_fails mug tea (pos 1) (pos 1) initial offline (unfold is_contract_pending in refl) mug≢tea
      (unfold lookup in refl)

abbrev confirmed : Confirmed
confirmed = record { server_item_id = some "line-2"; quantity = some (pos 1) }

perform_all_refines_example : view (perform_all visit initial) ≡ promise_all visit empty_cart
perform_all_refines_example = perform_all_refines visit (omega arith, (omega arith, (tt, (tt, tt))))
