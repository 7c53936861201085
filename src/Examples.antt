-- ===== src/Examples.antt =====
-- The theorems at concrete inputs.
mod Carts
mod Consents
mod Pages
mod Shops
mod Logs
mod Flows
mod Fields
mod Panels
