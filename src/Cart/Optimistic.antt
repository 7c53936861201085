-- ===== src/Cart/Optimistic.antt =====
-- The hooks of use-cart.ts, when no other mutation runs while one waits.
use jolarca.Common.{
  String, ◌≡◌, ◌≢◌, refl, true, false, Bool, none, some, List, [], ◌∷◌, Option-cases, inl, inr,
  Bool-cases,
}
use jolarca.Common.Int.{ℤ}
use jolarca.Common.Record.{lookup}
use jolarca.Errors.{Thrown, Result, ok, throw}
use jolarca.Http.{Call}
use jolarca.Cart.Item.{CartItem, is_contract_pending}
use jolarca.Cart.Store.{CartState, remove_item, update_quantity, confirm, rollback}
use jolarca.Cart.Server.{server_update_quantity, server_remove_item}
use jolarca.Cart.Sync.{
  Toast, error, Settled, settle_error, settle_unit, quiet, update_line, use_update_quantity,
  remove_line, use_remove_item, server_line,
}

-- What the three mutations have in common, `before` being the state that they start from: a
-- mutation that does not stand leaves the items as they were and says so in one error toast; one
-- that stands emits no error. No snapshot is left.
abbrev pub NoError : List Toast → Type 0
NoError [] = Unit
NoError (toast ∷ toasts) = (toast.variant ≢ error) × NoError toasts

abbrev pub OneError : List Toast → Type 0
OneError [] = ⊥
OneError (toast ∷ toasts) = (toast.variant ≡ error) × (toasts ≡ [])

-- By whether the mutation stands.
abbrev pub Verdict : (stands : Bool) → CartState → Settled → Type 0
Verdict true before s = NoError s.toasts
Verdict false before s = (s.state.items ≡ before.items) × OneError s.toasts

abbrev pub IsAtomic : CartState → Settled → Type 0
IsAtomic before s = (s.state.previous_items ≡ none) × Verdict s.stands before s

settle_error-IsAtomic :
    (before started : CartState) (code : String) (e : Thrown)
    → started.previous_items ≡ some before.items
    → IsAtomic before (settle_error code e started)
unfolding settle_error rollback
settle_error-IsAtomic before started code e h = elim (Bool-cases (is_contract_pending e)) [
  | inl pending ↦ rw (pending, settle_error) (refl, (cc, tt))
  | inr final ↦ rw (final, settle_error, h, rollback) (refl, (refl, (refl, refl)))
]

quiet-IsAtomic :
    (before state : CartState) → state.previous_items ≡ none → IsAtomic before (quiet state)
quiet-IsAtomic before state h = (h, tt)

settle_unit-IsAtomic :
    (before started : CartState) (code : String) (result : Result (Unit {0}))
    → started.previous_items ≡ some before.items
    → IsAtomic before (settle_unit code result started)
unfolding settle_unit
settle_unit-IsAtomic before started code (ok done) h =
    quiet-IsAtomic before (confirm started) (unfold confirm in refl)
settle_unit-IsAtomic before started code (throw e) h = settle_error-IsAtomic before started code e h

-- A settled mutation that stands has no more than the change and the confirmation.
update_line-IsAtomic :
    (authenticated : Bool) (fresh : String) (item : CartItem) (quantity : ℤ) (call : Call)
    (before started : CartState)
    → started.previous_items ≡ some before.items
    → IsAtomic before (update_line authenticated fresh item quantity call started).settled
unfolding update_line
update_line-IsAtomic false fresh item quantity call before started h =
    quiet-IsAtomic before (confirm started) (unfold confirm in refl)
update_line-IsAtomic true fresh item quantity call before started h =
    elim (Option-cases (server_line item)) [
      | inl missing ↦
          rw (missing, update_line)
            (quiet-IsAtomic before (confirm started) (unfold confirm in refl))
      | inr (id, found) ↦
          rw (found, update_line)
            (settle_unit-IsAtomic before started "cart_update_failed"
              (server_update_quantity fresh call) h)
    ]

remove_line-IsAtomic :
    (authenticated : Bool) (fresh : String) (item : CartItem) (call : Call)
    (before started : CartState)
    → started.previous_items ≡ some before.items
    → IsAtomic before (remove_line authenticated fresh item call started).settled
unfolding remove_line
remove_line-IsAtomic false fresh item call before started h =
    quiet-IsAtomic before (confirm started) (unfold confirm in refl)
remove_line-IsAtomic true fresh item call before started h =
    elim (Option-cases (server_line item)) [
      | inl missing ↦
          rw (missing, remove_line)
            (quiet-IsAtomic before (confirm started) (unfold confirm in refl))
      | inr (id, found) ↦
          rw (found, remove_line)
            (settle_unit-IsAtomic before started "cart_remove_failed"
              (server_remove_item fresh call) h)
    ]

-- `useUpdateQuantity` on a line of the cart, for every outcome of its call and with no other
-- mutation while it waits: the mutation stands, with no error toast, or the items are as before
-- and one error toast says so. No snapshot is left.
pub use_update_quantity-IsAtomic :
    (authenticated : Bool) (fresh product_id : String) (quantity : ℤ) (call : Call)
    (state : CartState) {item : CartItem}
    → lookup product_id state.items ≡ some item
    → IsAtomic state
        (use_update_quantity authenticated fresh product_id quantity call state).settled
unfolding use_update_quantity
use_update_quantity-IsAtomic authenticated fresh product_id quantity call state {item} found =
    rw (found, use_update_quantity)
      (update_line-IsAtomic authenticated fresh item quantity call state
        (update_quantity product_id quantity state)
        (unfold update_quantity in rw (found, update_quantity)))

-- `useRemoveItem` on a line of the cart, for every outcome of its call and with no other mutation
-- while it waits: the mutation stands, with no error toast, or the items are as before and one
-- error toast says so. No snapshot is left.
pub use_remove_item-IsAtomic :
    (authenticated : Bool) (fresh product_id : String) (call : Call) (state : CartState)
    {item : CartItem}
    → lookup product_id state.items ≡ some item
    → IsAtomic state (use_remove_item authenticated fresh product_id call state).settled
unfolding use_remove_item
use_remove_item-IsAtomic authenticated fresh product_id call state {item} found =
    rw (found, use_remove_item)
      (remove_line-IsAtomic authenticated fresh item call state (remove_item product_id state)
        (unfold remove_item in refl))
