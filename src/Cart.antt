-- ===== src/Cart.antt =====
-- frontend/src/stores/cart-store.ts and frontend/src/hooks/use-cart.ts: the cart's state, its
-- storage, its server calls and the optimistic mutations over them.
pub mod Item
pub mod Store
pub mod Persist
pub mod Server
pub mod Sync
pub mod Quantities
pub mod Invariant
pub mod Reload
pub mod Merging
pub mod Optimistic
pub mod Effects
pub mod Races
pub mod Abstract
pub mod Refinement
