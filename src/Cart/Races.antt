-- ===== src/Cart/Races.antt =====
-- Two additions that overlap: the second starts before the first one's call has settled. The store
-- keeps a single snapshot.
use jolarca.Common.{◌≡◌, ◌≢◌, refl, false, none, some, ◌∙◌}
use jolarca.Common.Int.{ℤ}
use jolarca.Common.Record.{lookup, lookup-insert_ne, lookup-insert_self}
use jolarca.Errors.{Thrown, ok, throw}
use jolarca.Cart.Item.{CartItem, is_contract_pending}
use jolarca.Cart.Store.{CartState, added_line, add_item, confirm, rollback}
use jolarca.Cart.Server.{Confirmed}
use jolarca.Cart.Sync.{settle_error, settle_add}
use jolarca.Cart.Effects.{stamp_line-lookup_ne}

-- The cart when both have started.
abbrev pub both_started : CartItem → ℤ → CartItem → ℤ → CartState → CartState
both_started first n second m state = add_item second m (add_item first n state)

module _ (first second : CartItem) (n m : ℤ) (state : CartState) (e : Thrown)
    (final : is_contract_pending e ≡ false) where
  -- If the first of two overlapping additions of different products fails for good, the second
  -- being new to the cart, the rollback leaves exactly the items that the cart had once the first,
  -- failed addition had started: its line stays, and the second product has no line.
  pub first_fails :
      first.product_id ≢ second.product_id
      → lookup second.product_id state.items ≡ none
      → let s = settle_add first.product_id (throw e) (both_started first n second m state) in
        (s.stands ≡ false)
        × (s.state.items ≡ (add_item first n state).items)
        × (lookup first.product_id s.state.items ≡ some (added_line first n state))
        × (lookup second.product_id s.state.items ≡ none)
  unfolding settle_add settle_error add_item rollback
  first_fails differ new =
      rw (final, settle_error)
        (
          refl,
          refl,
          lookup-insert_self first.product_id _ state.items,
          lookup-insert_ne first.product_id second.product_id _ state.items differ ∙ new,
        )

  -- If the first of two overlapping additions of different products is confirmed and the second
  -- then fails for good, the confirmation has dropped the snapshot: the rollback changes nothing,
  -- and the line that the server refused stays in the cart.
  pub second_fails :
      (confirmed : Confirmed)
      → first.product_id ≢ second.product_id
      → let s = settle_add first.product_id (ok confirmed) (both_started first n second m state) in
        let t = settle_add second.product_id (throw e) s.state in
        (t.stands ≡ false)
        × (t.state.items ≡ s.state.items)
        × (lookup second.product_id t.state.items
            ≡ some (added_line second m (add_item first n state)))
  unfolding settle_add settle_error add_item rollback confirm
  second_fails confirmed differ =
      rw (final, settle_error)
        (
          refl,
          refl,
          stamp_line-lookup_ne second.product_id first.product_id confirmed
                (both_started first n second m state) differ
              ∙ lookup-insert_self second.product_id _ (add_item first n state).items,
        )
