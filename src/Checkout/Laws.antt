-- ===== src/Checkout/Laws.antt =====
-- What the checkout's formats, recovery and order call guarantee.
use Prim.Native.Char.{Char, code}
use Prim.Native.String.{[] as empty, ◌∷◌ as ◌∷ˢ◌}
use text.Mathlib.TextLemmas.{cons-append, nil-append}
use jolarca.Common.{
  ℕ, String, ◌<>◌, ◌≡◌, refl, true, false, Option, none, some, List, [], ◌∷◌, ◌↔◌, ◌≢◌, arith,
  Bool-cases, inl, inr, ap,
}
use jolarca.Common.Text.{codes, upper_code}
use jolarca.Json.{get, text?}
use jolarca.Errors.{ok}
use jolarca.Http.{Fetched, settled, is_ok, payload, checked}
use jolarca.Checkout.Delivery.{
  CheckoutCountry, lt, lv, ee, country_text, country_of, DeliveryMethodId, courier, dpd_locker,
  omniva_locker, method_text, method_of, CheckoutRecovery, read_recovery, write_recovery,
}
use jolarca.Checkout.Formats.{vat_pattern, is_separator, normalized, vat_id_format_valid}
use jolarca.Checkout.Orders.{CreatedOrder, create_order, created, order_key}

method_of-text : (m : DeliveryMethodId) → method_of (method_text m) ≡ some m
unfolding method_of
method_of-text courier = refl
method_of-text dpd_locker = refl
method_of-text omniva_locker = refl

country_of-text : (c : CheckoutCountry) → country_of (country_text c) ≡ some c
unfolding country_of
country_of-text lt = refl
country_of-text lv = refl
country_of-text ee = refl

-- Reading back the recovery that was written gives the same method and country.
pub read-write_recovery : (r : CheckoutRecovery) → read_recovery (some (write_recovery r)) ≡ some r
unfolding read_recovery write_recovery
read-write_recovery r = rw (method_of-text r.delivery_method, country_of-text r.country) refl

pattern_country :
    (c d : CheckoutCountry) (cs : List ℕ)
    → vat_pattern c cs ≡ true
    → vat_pattern d cs ≡ true
    → c ≡ d
unfolding vat_pattern
pattern_country lt lt cs p q = refl
pattern_country lv lv cs p q = refl
pattern_country ee ee cs p q = refl
pattern_country c d [] p q = cc
pattern_country c d (x ∷ []) p q = cc
pattern_country c d (x ∷ (y ∷ cs)) p q = ground arith

-- A VAT id that has the format of one country does not have that of another.
pub vat_id_format_valid-country :
    (c d : CheckoutCountry) (vat_id : String)
    → c ≢ d
    → vat_id_format_valid c vat_id ≡ true
    → vat_id_format_valid d vat_id ≡ false
unfolding vat_id_format_valid
vat_id_format_valid-country c d vat_id differ p = elim (Bool-cases (vat_id_format_valid d vat_id)) [
  | inl q ↦ absurd (differ (pattern_country c d (normalized (codes vat_id)) p q))
  | inr q ↦ q
]

normalized-separator :
    (s t : String) (c : Char)
    → is_separator (code c) ≡ true
    → normalized (codes (s <> (c ∷ˢ t))) ≡ normalized (codes (s <> t))
unfolding normalized codes
normalized-separator empty t c h = rw (nil-append (c ∷ˢ t), nil-append t, h) refl
normalized-separator (x ∷ˢ s) t c h =
    rw (cons-append x s (c ∷ˢ t), cons-append x s t)
      (elim (Bool-cases (is_separator (code x))) [
        | inl e ↦ rw e (normalized-separator s t c h)
        | inr e ↦ rw e (ap (◌∷◌ (upper_code (code x))) (normalized-separator s t c h))
      ])

-- A blank, a dot or a dash put anywhere into a VAT id leaves it valid or invalid as it was.
pub vat_id_format_valid-separator :
    (country : CheckoutCountry) (s t : String) (c : Char)
    → is_separator (code c) ≡ true
    → vat_id_format_valid country (s <> (c ∷ˢ t)) ≡ vat_id_format_valid country (s <> t)
unfolding vat_id_format_valid
vat_id_format_valid-separator country s t c h =
    ap (vat_pattern country) (normalized-separator s t c h)

created_order :
    (fresh : String) (id secret : Option String) (order : CreatedOrder)
    → (created fresh id secret ≡ ok order)
      ↔ ((id ≡ some order.order_id) × (secret ≡ some order.client_secret))
unfolding created
created_order fresh none secret order = (λ h. cc, λ h. cc)
created_order fresh (some id) none order = (λ h. cc, λ h. cc)
created_order fresh (some id) (some secret) order = (
  λ h.
      (let made : record { order_id = id; client_secret = secret } ≡ order = cc in
        (ap (λ o. some o.order_id) made, ap (λ o. some o.client_secret) made)),
  λ h.
      (let same_id : id ≡ order.order_id = cc in
        let same_secret : secret ≡ order.client_secret = cc in rw (same_id, same_secret) refl),
)

-- An order is created exactly if its call succeeded and the answer names, as texts, an order id,
-- under either of its two names, and a client secret; the order is made of these two.
pub create_order_iff :
    (fresh : String) (answer : Fetched) (order : CreatedOrder)
    → (create_order fresh (settled answer) ≡ ok order) ↔ (
        (is_ok answer.response ≡ true)
        × (text? (order_key (payload answer)) ≡ some order.order_id)
        × (text? (get (payload answer) "client_secret") ≡ some order.client_secret))
unfolding create_order checked
create_order_iff fresh answer order = elim (Bool-cases (is_ok answer.response)) [
  | inl e ↦
      let (onward, back) =
        created_order fresh (text? (order_key (payload answer)))
          (text? (get (payload answer) "client_secret")) order in
      rw e (λ h. (refl, (onward h).0, (onward h).1), λ h. back (h.1, h.2))
  | inr e ↦ rw e (λ h. cc, λ h. cc)
]
