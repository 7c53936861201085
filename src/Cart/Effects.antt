-- ===== src/Cart/Effects.antt =====
-- Which lines of the cart the hooks of use-cart.ts change, for every outcome of their calls, when
-- no other mutation runs while one waits.
use jolarca.Common.{
  String, ◌≡◌, ◌≢◌, refl, true, false, Bool, Option, none, some, or_else, Option-cases, inl, inr,
  Bool-cases, if◌then◌else◌, ◌==◌, ◌&&◌, ◌∙◌,
}
use jolarca.Common.Int.{ℤ, pos}
use jolarca.Common.Record.{lookup, insert, lookup-insert, lookup-insert_ne, lookup-insert_self}
use jolarca.Common.Text.{is_empty}
use jolarca.Errors.{Result, ok, throw}
use jolarca.Http.{Call}
use jolarca.Cart.Item.{CartItem, is_contract_pending}
use jolarca.Cart.Store.{CartState, added_line, add_item, confirm, rollback, confirm_server_line}
use jolarca.Cart.Server.{Confirmed, server_add_item}
use jolarca.Cart.Sync.{settle_error, settle_add, stamp_line, use_add_to_cart}

confirm_server_line-lookup_ne :
    (k product_id id : String) (quantity : Option ℤ) (state : CartState)
    → product_id ≢ k
    → lookup k (confirm_server_line product_id id quantity state).items ≡ lookup k state.items
unfolding confirm_server_line
confirm_server_line-lookup_ne k product_id id quantity state h =
    elim (Option-cases (lookup product_id state.items)) [
      | inl missing ↦ rw (missing, confirm_server_line)
      | inr (item, found) ↦
          rw (found, confirm_server_line) (lookup-insert_ne product_id k _ state.items h)
    ]

pub stamp_line-lookup_ne :
    (k product_id : String) (confirmed : Confirmed) (state : CartState)
    → product_id ≢ k
    → lookup k (stamp_line product_id confirmed state).items ≡ lookup k state.items
unfolding stamp_line
stamp_line-lookup_ne k product_id confirmed state h = elim (Option-cases confirmed.server_item_id) [
  | inl missing ↦ rw (missing, stamp_line)
  | inr (id, given) ↦
      rw (given, stamp_line)
        (elim (Bool-cases (is_empty id)) [
          | inl empty ↦ rw empty
          | inr full ↦
              rw full (confirm_server_line-lookup_ne k product_id id confirmed.quantity state h)
        ])
]

settle_add-lookup_ne :
    (k product_id : String) (before started : CartState) (result : Result Confirmed)
    → product_id ≢ k
    → started.previous_items ≡ some before.items
    → lookup k started.items ≡ lookup k before.items
    → lookup k (settle_add product_id result started).state.items ≡ lookup k before.items
unfolding settle_add settle_error confirm rollback
settle_add-lookup_ne k product_id before started (ok confirmed) h saved same =
    stamp_line-lookup_ne k product_id confirmed started h ∙ same
settle_add-lookup_ne k product_id before started (throw e) h saved same =
    elim (Bool-cases (is_contract_pending e)) [
      | inl pending ↦ rw (pending, settle_error) same
      | inr final ↦ rw (final, settle_error, saved, rollback)
    ]

-- With no other mutation while it waits, `useAddToCart` changes no line but that of the added
-- product, for every outcome of its call.
pub use_add_to_cart-lookup_ne :
    (k : String) (authenticated : Bool) (fresh : String) (item : CartItem) (quantity : Option ℤ)
    (call : Call) (state : CartState)
    → item.product_id ≢ k
    → lookup k (use_add_to_cart authenticated fresh item quantity call state).settled.state.items
      ≡ lookup k state.items
unfolding use_add_to_cart
use_add_to_cart-lookup_ne k false fresh item quantity call state h =
    lookup-insert_ne item.product_id k _ state.items h
use_add_to_cart-lookup_ne k true fresh item quantity call state h =
    settle_add-lookup_ne k item.product_id state (add_item item (or_else quantity (pos 1)) state)
      (server_add_item fresh call) h refl (lookup-insert_ne item.product_id k _ state.items h)

-- Whether an addition with that answer stands: a visitor who is not signed in asks no server, and a
-- contract that is pending keeps the line.
abbrev pub keeps : (authenticated : Bool) → Result Confirmed → Bool
keeps false answer = true
keeps true (ok confirmed) = true
keeps true (throw e) = is_contract_pending e

-- A line with the server's id and quantity, if the server gave an id.
abbrev pub stamped : Confirmed → CartItem → CartItem
stamped confirmed line = elim confirmed.server_item_id [
  | none ↦ line
  | some id ↦ if is_empty id then line else record line {
    server_item_id = some id;
    quantity = or_else confirmed.quantity line.quantity;
  }
]

-- The line of an addition that stands.
abbrev pub kept_line : (authenticated : Bool) → Result Confirmed → CartItem → CartItem
kept_line true (ok confirmed) line = stamped confirmed line
kept_line _ _ line = line

if-nested {ℓ} :
    {A : Type ℓ} (b : Bool) (x y z : A)
    → (if b then x else if b then y else z) ≡ (if b then x else z)
if-nested true x y z = refl
if-nested false x y z = refl

stamp_line-lookup :
    (k : String) (item : CartItem) (n : ℤ) (confirmed : Confirmed) (state : CartState)
    → lookup k (stamp_line item.product_id confirmed (add_item item n state)).items ≡ (
        if item.product_id == k
        then some (stamped confirmed (added_line item n state))
        else lookup k state.items)
unfolding stamp_line add_item
stamp_line-lookup k item n confirmed state = elim (Option-cases confirmed.server_item_id) [
  | inl missing ↦
      rw (missing, stamp_line)
        (lookup-insert item.product_id k (added_line item n state) state.items)
  | inr (id, given) ↦
      rw (given, stamp_line)
        (elim (Bool-cases (is_empty id)) [
          | inl empty ↦
              rw empty (lookup-insert item.product_id k (added_line item n state) state.items)
          | inr full ↦
              let line = added_line item n state in
              rw
                (
                  full,
                  lookup-insert_self item.product_id line state.items,
                  confirm_server_line,
                  lookup-insert item.product_id k _ (insert item.product_id line state.items),
                  lookup-insert item.product_id k line state.items,
                )
                (if-nested (item.product_id == k) _ _ _)
        ])
]

pub settle_add-lookup :
    (k : String) (item : CartItem) (n : ℤ) (answer : Result Confirmed) (state : CartState)
    → lookup k (settle_add item.product_id answer (add_item item n state)).state.items ≡ (
        if keeps true answer && item.product_id == k
        then some (kept_line true answer (added_line item n state))
        else lookup k state.items)
unfolding settle_add settle_error confirm rollback add_item
settle_add-lookup k item n (ok confirmed) state = stamp_line-lookup k item n confirmed state
settle_add-lookup k item n (throw e) state = elim (Bool-cases (is_contract_pending e)) [
  | inl pending ↦
      rw (pending, settle_error)
        (lookup-insert item.product_id k (added_line item n state) state.items)
  | inr final ↦ rw (final, settle_error) refl
]
