-- ===== src/Cart/Sync.antt =====
-- frontend/src/hooks/use-cart.ts: a mutation is applied to the store at once, and its call's
-- outcome is settled later, against the store of that time. A hook returns the new state, the
-- toasts that it emits itself and the requests that it sends.
use jolarca.Common.{
  String, Bool, true, false, Option, none, some, List, [], ◌∷◌, ◌++◌, or_else, if◌then◌else◌,
}
use jolarca.Common.Int.{ℤ, pos}
use jolarca.Common.Text.{is_empty}
use jolarca.Common.Record.{lookup, values}
use jolarca.Errors.{Thrown, api, Result, ok, throw}
use jolarca.Http.{Call}
use jolarca.Cart.Item.{CartItem, is_contract_pending}
use jolarca.Cart.Store.{
  CartState, add_item, remove_item, update_quantity, apply_server_cart, confirm, rollback,
  confirm_server_line,
}
use jolarca.Cart.Persist.{PersistedLine, lines_of}
use jolarca.Cart.Server.{
  Confirmed, server_add_item, server_update_quantity, server_remove_item,
  push_local_draft_to_server, ServerCart, fetch_server_cart,
}

pub data Variant : Type 0 where
  error warning info : Variant

pub record Toast : Type 0 where
  pub variant : Variant
  pub code : String

pub data Request : Type 0 where
  post_item : (product_id : String) → ℤ → Request
  patch_item : (server_item_id : String) → ℤ → Request
  delete_item : (server_item_id : String) → Request
  post_sync : List PersistedLine → Request
  get_cart : Request

-- `isApiError(error) ? error.code : code`
abbrev pub error_code : Thrown → String → String
error_code (api e) code = e.code
error_code _ code = code

pub record Settled : Type 0 where
  pub state : CartState
  pub toasts : List Toast
  -- Whether the mutation stands.
  pub stands : Bool

-- The `catch` of the three mutations; `code` is the toast's where the error has none.
unfoldable pub settle_error : String → Thrown → CartState → Settled
unfolding is_contract_pending confirm rollback
settle_error code e state =
    if is_contract_pending e
    then record {
      state = confirm state;
      toasts = record { variant = info; code = "cart_sync_pending" } ∷ [];
      stands = true;
    }
    else record {
      state = rollback state;
      toasts = record { variant = error; code = error_code e code } ∷ [];
      stands = false;
    }

abbrev pub quiet : CartState → Settled
quiet state = record { state = state; toasts = []; stands = true }

-- `if (confirmed.serverItemId)`, an empty text being no id.
unfoldable pub stamp_line : String → Confirmed → CartState → CartState
unfolding confirm_server_line
stamp_line product_id confirmed state = elim confirmed.server_item_id [
  | none ↦ state
  | some id ↦
      if is_empty id then state else confirm_server_line product_id id confirmed.quantity state
]

-- After the wait of `useAddToCart`.
unfoldable pub settle_add : String → Result Confirmed → CartState → Settled
unfolding settle_error stamp_line confirm
settle_add product_id (ok confirmed) state = quiet (confirm (stamp_line product_id confirmed state))
settle_add product_id (throw e) state = settle_error "cart_add_failed" e state

-- After the waits of `useUpdateQuantity` and `useRemoveItem`.
unfoldable pub settle_unit : String → Result (Unit {0}) → CartState → Settled
unfolding settle_error confirm
settle_unit code (ok _) state = quiet (confirm state)
settle_unit code (throw e) state = settle_error code e state

pub record Outcome : Type 0 where
  pub settled : Settled
  pub open settled use *
  pub requests : List Request

-- `useAddToCart`, with no other mutation while it waits.
unfoldable pub use_add_to_cart :
    (authenticated : Bool) (fresh : String) → CartItem → Option ℤ → Call → CartState → Outcome
unfolding add_item confirm settle_add server_add_item
use_add_to_cart authenticated fresh item quantity call state =
    let asked = or_else quantity (pos 1) in
    let started = add_item item asked state in
    if authenticated
    then record {
      settled = settle_add item.product_id (server_add_item fresh call) started;
      requests = post_item item.product_id asked ∷ [];
    }
    else record { settled = quiet (confirm started); requests = [] }

-- `if (item.serverItemId)`: the id of the line on the server, if it has one.
abbrev pub server_line : CartItem → Option String
server_line item = elim item.server_item_id [
  | none ↦ none
  | some id ↦ if is_empty id then none else some id
]

unfoldable pub update_line :
    (authenticated : Bool) (fresh : String) → CartItem → ℤ → Call → CartState → Outcome
unfolding confirm settle_unit server_update_quantity
update_line false fresh item quantity call started = record {
  settled = quiet (confirm started);
  requests = [];
}
update_line true fresh item quantity call started = elim (server_line item) [
  | none ↦ record { settled = quiet (confirm started); requests = [] }
  | some id ↦ record {
    settled = settle_unit "cart_update_failed" (server_update_quantity fresh call) started;
    requests = patch_item id quantity ∷ [];
  }
]

-- `useUpdateQuantity`; the item is read before the store changes.
unfoldable pub use_update_quantity :
    (authenticated : Bool) (fresh : String) → String → ℤ → Call → CartState → Outcome
unfolding lookup update_quantity update_line
use_update_quantity authenticated fresh product_id quantity call state =
    elim (lookup product_id state.items) [
      | none ↦ record { settled = quiet state; requests = [] }
      | some item ↦
          update_line authenticated fresh item quantity call
            (update_quantity product_id quantity state)
    ]

unfoldable pub remove_line :
    (authenticated : Bool) (fresh : String) → CartItem → Call → CartState → Outcome
unfolding confirm settle_unit server_remove_item
remove_line false fresh item call started = record {
  settled = quiet (confirm started);
  requests = [];
}
remove_line true fresh item call started = elim (server_line item) [
  | none ↦ record { settled = quiet (confirm started); requests = [] }
  | some id ↦ record {
    settled = settle_unit "cart_remove_failed" (server_remove_item fresh call) started;
    requests = delete_item id ∷ [];
  }
]

-- `useRemoveItem`
unfoldable pub use_remove_item :
    (authenticated : Bool) (fresh : String) → String → Call → CartState → Outcome
unfolding lookup remove_item remove_line
use_remove_item authenticated fresh product_id call state = elim (lookup product_id state.items) [
  | none ↦ record { settled = quiet state; requests = [] }
  | some item ↦ remove_line authenticated fresh item call (remove_item product_id state)
]

-- The `catch` of both halves of `syncWithServer`.
unfoldable pub warn_unless_pending : Thrown → List Toast
unfolding is_contract_pending
warn_unless_pending e =
    if is_contract_pending e
    then []
    else record { variant = warning; code = error_code e "cart_sync_failed" } ∷ []

abbrev pub toasts_of : Result (Unit {0}) → List Toast
toasts_of (ok _) = []
toasts_of (throw e) = warn_unless_pending e

-- The first half: the draft is pushed unless it is empty.
unfoldable pub push_draft : (fresh : String) → List PersistedLine → Call → List Toast × List Request
unfolding push_local_draft_to_server warn_unless_pending
push_draft fresh [] call = ([], [])
push_draft fresh (line ∷ lines) call =
    (toasts_of (push_local_draft_to_server fresh call), post_sync (line ∷ lines) ∷ [])

-- The second half: the server's cart is merged into the store.
unfoldable pub settle_fetch : Result (Option ServerCart) → CartState → CartState × List Toast
unfolding apply_server_cart warn_unless_pending
settle_fetch (ok none) state = (state, [])
settle_fetch (ok (some cart)) state = (apply_server_cart cart.items cart.cart_id state, [])
settle_fetch (throw e) state = (state, warn_unless_pending e)

unfoldable pub sync_with_server : (fresh : String) (push fetch : Call) → CartState → Outcome
unfolding push_draft settle_fetch fetch_server_cart lines_of values
sync_with_server fresh push fetch state =
    let (push_toasts, pushed) = push_draft fresh (lines_of (values state.items)) push in
    let (merged, fetch_toasts) = settle_fetch (fetch_server_cart fresh fetch) state in
    record {
      settled = record { state = merged; toasts = push_toasts ++ fetch_toasts; stands = true };
      requests = pushed ++ get_cart ∷ [];
    }
