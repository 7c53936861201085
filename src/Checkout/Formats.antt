-- ===== src/Checkout/Formats.antt =====
-- The national formats of lib/checkout.ts and lib/seller.ts, on the codes of a text: postal codes,
-- VAT ids, registration numbers. No character outside ASCII has an upper case that makes a text fit.
use jolarca.Common.{
  ℕ, zero, suc, String, Bool, true, false, not, ◌&&◌, ◌||◌, List, [], ◌∷◌, map, leb, ◌is◌,
}
use jolarca.Common.Lists.{filter}
use jolarca.Common.Text.{trim, codes, upper_code, is_space_code}
use jolarca.Checkout.Delivery.{CheckoutCountry, lt, lv, ee}

-- `/^\d{n}$/`
unfoldable pub digits : ℕ → List ℕ → Bool
digits zero [] = true
digits zero (c ∷ cs) = false
digits (suc n) [] = false
digits (suc n) (c ∷ cs) = leb b'0' c && leb c b'9' && digits n cs

unfoldable pub postal_pattern : CheckoutCountry → List ℕ → Bool
unfolding digits
postal_pattern lt (l ∷ t ∷ dash ∷ rest) = l is b'L' && t is b'T' && dash is b'-' && digits 5 rest
postal_pattern lv (l ∷ v ∷ dash ∷ rest) = l is b'L' && v is b'V' && dash is b'-' && digits 4 rest
postal_pattern ee cs = digits 5 cs
postal_pattern _ _ = false

unfoldable pub postal_code_valid : CheckoutCountry → String → Bool
unfolding postal_pattern trim codes upper_code
postal_code_valid country postal_code =
    postal_pattern country (map upper_code (codes (trim postal_code)))

unfoldable pub vat_pattern : CheckoutCountry → List ℕ → Bool
unfolding digits
vat_pattern lt (l ∷ t ∷ rest) = l is b'L' && t is b'T' && (digits 9 rest || digits 12 rest)
vat_pattern lv (l ∷ v ∷ rest) = l is b'L' && v is b'V' && digits 11 rest
vat_pattern ee (e ∷ f ∷ rest) = e is b'E' && f is b'E' && digits 9 rest
vat_pattern _ _ = false

-- `[\s.-]`
abbrev pub is_separator : ℕ → Bool
is_separator c = is_space_code c || c is b'.' || c is b'-'

-- `vatId.replace(/[\s.-]/g, "").toUpperCase()`
unfoldable pub normalized : List ℕ → List ℕ
unfolding upper_code
normalized cs = map upper_code (filter (λ c. not (is_separator c)) cs)

unfoldable pub vat_id_format_valid : CheckoutCountry → String → Bool
unfolding vat_pattern normalized codes
vat_id_format_valid country vat_id = vat_pattern country (normalized (codes vat_id))

unfoldable pub reg_number_length : CheckoutCountry → ℕ
reg_number_length lt = 9
reg_number_length lv = 11
reg_number_length ee = 8

unfoldable pub registration_number_valid : CheckoutCountry → String → Bool
unfolding digits reg_number_length trim codes
registration_number_valid country value = digits (reg_number_length country) (codes (trim value))
