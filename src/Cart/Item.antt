-- ===== src/Cart/Item.antt =====
-- The lines of a cart and the pure helpers of cart-store.ts.
use Prim.Native.Char.{code}
use Prim.Native.String.{String, [], ◌∷◌}
use jolarca.Common.{Bool, false, ◌||◌, Option, none, some, List, ◌is◌, if◌then◌else◌}
use mathlib.Core.List.{[], ◌∷◌}
use jolarca.Common.Int.{ℤ, pos, max_ℤ, min_ℤ, ◌+ℤ◌, ◌-ℤ◌, leb_ℤ}
use jolarca.Common.Record.{Entries, values, insert_all}
use jolarca.Errors.{Thrown, api}

pub record CartItem : Type 0 where
  pub product_id : String
  pub slug : String
  pub title : String
  pub price : String
  pub currency : String
  pub quantity : ℤ
  pub image_url : Option String
  pub max_stock : Option ℤ
  pub seller_id : Option String
  pub seller_name : Option String
  pub server_item_id : Option String

abbrev pub low_stock_threshold : ℤ
low_stock_threshold = pos 5

-- The sum of the quantities.
sum_from : ℤ → List CartItem → ℤ
sum_from sum [] = sum
sum_from sum (item ∷ items) = sum_from (sum +ℤ item.quantity) items

unfoldable pub count_items : Entries CartItem → ℤ
unfolding sum_from values ◌+ℤ◌
count_items items = sum_from (pos 0) (values items)

-- Quantities are whole, so `Math.floor` leaves them.
unfoldable pub clamp_quantity : ℤ → Option ℤ → ℤ
clamp_quantity quantity none = max_ℤ (pos 1) quantity
clamp_quantity quantity (some max_stock) = min_ℤ (max_ℤ (pos 1) quantity) max_stock

unfoldable pub is_low_stock : CartItem → Bool
unfolding ◌-ℤ◌
is_low_stock item = elim item.max_stock [
  | none ↦ false
  | some max_stock ↦ leb_ℤ (max_stock -ℤ item.quantity) low_stock_threshold
]

abbrev pub key_of : CartItem → String
key_of item = item.product_id

-- The merged object is built afresh, local lines first.
unfoldable pub merge_server_cart : Entries CartItem → List CartItem → Entries CartItem
unfolding values insert_all
merge_server_cart local server = insert_all key_of server (insert_all key_of (values local) [])

-- `slug.replace(/-/g, " ")`
unfoldable pub title_from_slug : String → String
title_from_slug [] = []
title_from_slug (c ∷ s) = (if code c is b'-' then " " else c) ∷ title_from_slug s

-- 404, 405 and 501 from a cart route.
unfoldable pub is_contract_pending : Thrown → Bool
is_contract_pending (api e) = e.status is 404 || e.status is 405 || e.status is 501
is_contract_pending _ = false
