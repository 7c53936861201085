-- ===== src/Cart/Quantities.antt =====
-- The bounds of `clampQuantity`.
use jolarca.Common.{◌≡◌, Option, none, some, arith}
use jolarca.Common.Int.{ℤ, pos, ◌≤ℤ◌}
use jolarca.Cart.Item.{clamp_quantity}

abbrev pub IsPositive : ℤ → Type 0
IsPositive n = pos 1 ≤ℤ n

-- A stock that is known is at least 1.
abbrev pub HasStock : Option ℤ → Type 0
HasStock none = Unit
HasStock (some n) = IsPositive n

-- A quantity is clamped to at least 1 where the stock is unknown or at least 1.
pub clamp_quantity-IsPositive :
    (quantity : ℤ) (max_stock : Option ℤ)
    → HasStock max_stock
    → IsPositive (clamp_quantity quantity max_stock)
unfolding clamp_quantity
clamp_quantity-IsPositive quantity none h = ground arith
clamp_quantity-IsPositive quantity (some n) h = ground arith

-- With a stock n of at least 1 the clamped quantity lies between 1 and n, and clamping it once more
-- leaves it as it is.
pub clamp_quantity_range :
    (quantity n : ℤ)
    → IsPositive n
    → IsPositive (clamp_quantity quantity (some n))
      × (clamp_quantity quantity (some n) ≤ℤ n)
      × (clamp_quantity (clamp_quantity quantity (some n)) (some n)
          ≡ clamp_quantity quantity (some n))
unfolding clamp_quantity
clamp_quantity_range quantity n h = (ground arith, ground arith, ground arith)

-- With a stock n of 0 or less the result is n, below the lower bound of 1, for every quantity.
pub clamp_quantity_sold_out : (quantity n : ℤ) → n ≤ℤ pos 0 → clamp_quantity quantity (some n) ≡ n
unfolding clamp_quantity
clamp_quantity_sold_out quantity n h = ground arith
