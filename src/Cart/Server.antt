-- ===== src/Cart/Server.antt =====
-- The server calls of cart-store.ts (the requests' bodies are in Cart/Sync), each from the call's
-- outcome to its result or the error that it throws.
use jolarca.Common.{String, Option, none, some, List, or_else, ◌is◌, if◌then◌else◌}
use jolarca.Common.Int.{ℤ, pos}
use jolarca.Common.Text.{is_empty}
use jolarca.Json.{
  Value, undefined, get, or_empty, text?, number?, text_or, number_or, to_text, is_nullish,
}
use jolarca.Errors.{Result, ok, throw, ◌>>=◌}
use jolarca.Http.{Call, settled, rejected, payload, checked}
use jolarca.Rows.{rows_at}
use jolarca.Cart.Item.{CartItem, title_from_slug}

pub record Confirmed : Type 0 where
  pub server_item_id : Option String
  pub quantity : Option ℤ

unfoldable pub server_add_item : (fresh : String) → Call → Result Confirmed
unfolding checked payload text? number? get
server_add_item fresh call = do
  res ← checked fresh call
  let r = payload res
  ok (record { server_item_id = text? (get r "id"); quantity = number? (get r "quantity") })

unfoldable pub server_update_quantity : (fresh : String) → Call → Result (Unit {0})
unfolding checked
server_update_quantity fresh call = do res ← checked fresh call; ok tt

unfoldable pub server_remove_item : (fresh : String) → Call → Result (Unit {0})
unfolding checked
server_remove_item fresh call = do res ← checked fresh call; ok tt

unfoldable pub push_local_draft_to_server : (fresh : String) → Call → Result (Unit {0})
unfolding checked
push_local_draft_to_server fresh call = do res ← checked fresh call; ok tt

-- The item of an entry, once its product id is known.
unfoldable pub item_of : String → Value → CartItem
unfolding get text_or text? number? number_or to_text is_nullish title_from_slug
item_of product_id r =
    let slug = get r "slug" in
    record {
      product_id = product_id;
      slug = text_or slug product_id;
      title =
          or_else (text? (get r "title"))
            (title_from_slug (if is_nullish slug then product_id else to_text slug));
      price = text_or (get r "price") "0";
      currency = text_or (get r "currency") "EUR";
      quantity = number_or (get r "quantity") (pos 1);
      image_url = text? (get r "image_url");
      max_stock = number? (get r "max_stock");
      seller_id = text? (get r "seller_id");
      seller_name = text? (get r "seller_name");
      server_item_id = text? (get r "id");
    }

-- The callback of `map`: an entry without a product id is no item.
unfoldable pub parse_item : Value → Option CartItem
unfolding item_of text_or get
parse_item raw =
    let product_id = text_or (get raw "product_id") "" in
    if is_empty product_id then none else some (item_of product_id raw)

pub record ServerCart : Type 0 where
  pub cart_id : Option String
  pub items : List CartItem

unfoldable pub parse_server_cart : Value → Result ServerCart
unfolding rows_at parse_item or_empty get text?
parse_server_cart data_ = do
  let r = or_empty data_
  items ← rows_at parse_item "items" r
  ok (record { cart_id = text? (get r "cart_id"); items = items })

-- `null` where the session is anonymous.
unfoldable pub fetch_server_cart : (fresh : String) → Call → Result (Option ServerCart)
unfolding checked parse_server_cart
fetch_server_cart fresh (rejected e) = throw e
fetch_server_cart fresh (settled f) = if f.response.status is 401 then ok none else do
  res ← checked fresh (settled f)
  cart ← parse_server_cart (or_else res.data_ undefined)
  ok (some cart)
