-- ===== src/Cart/Merging.antt =====
-- Reading the server's cart, and merging it into the local one.
use jolarca.Common.{
  String, ◌≡◌, refl, ap, ◌∙◌, false, Option, some, List, [], ◌∷◌, arith, ◌==◌, eq_iff,
  if◌then◌else◌, ◌++◌, map, first_some, Bool-cases, inl, inr,
}
use jolarca.Common.Text.{is_empty}
use jolarca.Common.Lists.{All, present}
use jolarca.Common.Record.{Entries, lookup, insert, values, insert_all, lookup-insert, IsKeyed}
use jolarca.Json.{
  Value, null, arr, Elems, elems, get, text_or, text?, is_nullish, array_or_empty, or_empty-object,
}
use jolarca.Errors.{ok, throw}
use jolarca.Rows.{null_access, parse_rows-present, parse_rows-null}
use jolarca.Cart.Item.{CartItem, key_of, merge_server_cart}
use jolarca.Cart.Server.{item_of, parse_item, ServerCart, parse_server_cart}

-- The last of the items that has the id, else `before`.
abbrev pub last_with : String → List CartItem → Option CartItem → Option CartItem
last_with k [] before = before
last_with k (item ∷ items) before =
    last_with k items (if item.product_id == k then some item else before)

lookup-insert_all :
    (k : String) (items : List CartItem) (m : Entries CartItem)
    → lookup k (insert_all key_of items m) ≡ last_with k items (lookup k m)
unfolding insert_all
lookup-insert_all k [] m = refl
lookup-insert_all k (item ∷ items) m =
    lookup-insert_all k items (insert item.product_id item m)
    ∙ ap (last_with k items) (lookup-insert item.product_id k item m)

-- In a record whose items stand under their own ids the last of its values with an id is the
-- value under that id.
last_with-values :
    (k : String) (m : Entries CartItem) (before : Option CartItem)
    → IsKeyed key_of m
    → last_with k (values m) before ≡ first_some (lookup k m) before
unfolding lookup values
last_with-values k [] before h = refl
last_with-values k ((j, item) ∷ m) before (same, fresh, h) = ground (
  arith,
  eq_iff j k,
  eq_iff item.product_id k,
  last_with-values k m before h,
  last_with-values k m (some item) h,
)

first_some-nil :
    (k : String) (local : Entries CartItem)
    → first_some (lookup k local) (lookup {V = CartItem} k []) ≡ lookup k local
unfolding lookup
first_some-nil k local = ground arith

-- After a merge into a cart whose items are filed under their own ids, once each, a product id has
-- the server's last line for it; an id that the server does not list keeps the local line, and an
-- id that neither has stays absent.
pub lookup-merge_server_cart :
    (k : String) (local : Entries CartItem) (server : List CartItem)
    → IsKeyed key_of local
    → lookup k (merge_server_cart local server) ≡ last_with k server (lookup k local)
unfolding merge_server_cart
lookup-merge_server_cart k local server h =
    lookup-insert_all k server (insert_all key_of (values local) [])
    ∙ ap (last_with k server) (
        lookup-insert_all k (values local) []
        ∙ last_with-values k local (lookup k []) h
        ∙ first_some-nil k local)

-- The product ids of the server's entries: those that are texts and not empty.
abbrev pub id_of : Value → List String
id_of raw = let id = text_or (get raw "product_id") "" in if is_empty id then [] else id ∷ []

abbrev pub ids_of : List Value → List String
ids_of [] = []
ids_of (raw ∷ raws) = id_of raw ++ ids_of raws

abbrev pub product_ids : List CartItem → List String
product_ids [] = []
product_ids (item ∷ items) = item.product_id ∷ product_ids items

product_ids-present :
    (raws : List Value) → product_ids (present (map parse_item raws)) ≡ ids_of raws
unfolding parse_item item_of
product_ids-present [] = refl
product_ids-present (raw ∷ raws) =
    elim (Bool-cases (is_empty (text_or (get raw "product_id") ""))) [
      | inl empty ↦ rw (empty, parse_item) (product_ids-present raws)
      | inr named ↦
          rw (named, parse_item)
            (ap (◌∷◌ (text_or (get raw "product_id") "")) (product_ids-present raws))
    ]

-- An answer with no null among its items is parsed to the server's cart id, if it is a text, and
-- to one item for each entry with a product id, in order: none is lost, none is made up.
pub parse_server_cart_ids :
    (raws : Elems) (answer : Value)
    → get answer "items" ≡ arr raws
    → is_nullish answer ≡ false
    → All (λ raw. is_nullish raw ≡ false) (elems raws)
    → (cart : ServerCart) × (parse_server_cart answer ≡ ok cart)
      × (product_ids cart.items ≡ ids_of (elems raws))
      × (cart.cart_id ≡ text? (get answer "cart_id"))
unfolding parse_server_cart array_or_empty
parse_server_cart_ids raws answer listed object h = (
  record { cart_id = text? (get answer "cart_id"); items = present (map parse_item (elems raws)) },
  rw (or_empty-object answer object, listed, parse_rows-present parse_item (elems raws) h),
  product_ids-present (elems raws),
  refl,
)

-- The first null among the items of an answer makes the parse throw, whatever stands before it and
-- after it.
pub parse_server_cart_null :
    (before after : List Value) (raws : Elems) (answer : Value)
    → get answer "items" ≡ arr raws
    → is_nullish answer ≡ false
    → elems raws ≡ before ++ null ∷ after
    → All (λ entry. is_nullish entry ≡ false) before
    → parse_server_cart answer ≡ throw null_access
unfolding parse_server_cart array_or_empty
parse_server_cart_null before after raws answer listed object split h = rw (
  or_empty-object answer object,
  listed,
  split,
  parse_rows-null parse_item before after null h (unfold is_nullish in refl),
)
