-- ===== src/Routing/Nonce.antt =====
-- `generateNonce` and `verifyCspNonce` of frontend/src/lib/security.ts, on the codes of the text.
use jolarca.Common.{
  ℕ, zero, suc, ◌+◌, ◌-◌, ◌≡◌, refl, Bool, true, false, ◌&&◌, ◌||◌, List, [], ◌∷◌, ltb, leb, ◌is◌,
  if◌then◌else◌, arith, ◌∙◌,
}
use Prim.Native.Nat.{◌*◌, ◌/◌, ◌%◌}
use jolarca.Common.Lists.{length}

-- The code of the standard base64 digit for a number below 64.
unfoldable pub base64_digit : ℕ → ℕ
base64_digit n =
    if ltb n 26
    then n + 65
    else if ltb n 52
    then n + 71
    else if ltb n 62
    then n - 4
    else if n is 62
    then b'+'
    else b'/'

-- `btoa`, of bytes: three of them are four digits, and what is left over is filled up with "=".
unfoldable pub base64 : List ℕ → List ℕ
unfolding base64_digit
base64 [] = []
base64 (a ∷ []) = base64_digit (a / 4) ∷ base64_digit (a % 4 * 16) ∷ b'=' ∷ b'=' ∷ []
base64 (a ∷ b ∷ []) =
    base64_digit (a / 4)
    ∷ base64_digit (a % 4 * 16 + b / 16)
    ∷ base64_digit (b % 16 * 4)
    ∷ b'='
    ∷ []
base64 (a ∷ b ∷ c ∷ bytes) =
    base64_digit (a / 4)
    ∷ base64_digit (a % 4 * 16 + b / 16)
    ∷ base64_digit (b % 16 * 4 + c / 64)
    ∷ base64_digit (c % 64)
    ∷ base64 bytes

-- `generateNonce`, by the random bytes.
unfoldable pub generate_nonce : List ℕ → List ℕ
unfolding base64
generate_nonce bytes = base64 bytes

-- `[A-Za-z0-9+/]`
unfoldable pub is_base64_code : ℕ → Bool
is_base64_code c =
    (leb b'A' c && leb c b'Z')
    || (leb b'a' c && leb c b'z')
    || (leb b'0' c && leb c b'9')
    || c is b'+'
    || c is b'/'

-- The pattern from a point where `n` digits are still to come.
unfoldable pub nonce_from : ℕ → List ℕ → Bool
unfolding is_base64_code
nonce_from zero (c ∷ d ∷ []) = c is b'=' && d is b'='
nonce_from (suc n) (c ∷ cs) = is_base64_code c && nonce_from n cs
nonce_from _ _ = false

-- `/^[A-Za-z0-9+/]{22}==$/`
unfoldable pub verify_csp_nonce : List ℕ → Bool
unfolding nonce_from
verify_csp_nonce nonce = nonce_from 22 nonce

base64_digit-code : (n : ℕ) → is_base64_code (base64_digit n) ≡ true
unfolding base64_digit is_base64_code
base64_digit-code n = ground arith

nonce_from-digit :
    (n d : ℕ) (cs : List ℕ) → nonce_from (suc n) (base64_digit d ∷ cs) ≡ nonce_from n cs
unfolding nonce_from
nonce_from-digit n d cs = rw (base64_digit-code d) refl

-- The bytes of `k` groups of three and one more, and the digits that they give.
abbrev bytes_of : ℕ → ℕ
bytes_of zero = 1
bytes_of (suc k) = suc (suc (suc (bytes_of k)))

abbrev digits_of : ℕ → ℕ
digits_of zero = 2
digits_of (suc k) = suc (suc (suc (suc (digits_of k))))

nonce_from-base64 :
    (k : ℕ) (bytes : List ℕ)
    → length bytes ≡ bytes_of k
    → nonce_from (digits_of k) (base64 bytes) ≡ true
unfolding base64
nonce_from-base64 zero [] h = absurd (omega (arith, h))
nonce_from-base64 zero (a ∷ []) h =
    nonce_from-digit 1 (a / 4) _ ∙ nonce_from-digit 0 (a % 4 * 16) _ ∙ unfold nonce_from in refl
nonce_from-base64 zero (a ∷ b ∷ bytes) h = absurd (omega (arith, h))
nonce_from-base64 (suc k) [] h = absurd (omega (arith, h))
nonce_from-base64 (suc k) (a ∷ []) h = absurd (omega (arith, h))
nonce_from-base64 (suc k) (a ∷ b ∷ []) h = absurd (omega (arith, h))
nonce_from-base64 (suc k) (a ∷ b ∷ c ∷ bytes) h =
    nonce_from-digit (suc (suc (suc (digits_of k)))) (a / 4) _
    ∙ nonce_from-digit (suc (suc (digits_of k))) (a % 4 * 16 + b / 16) _
    ∙ nonce_from-digit (suc (digits_of k)) (b % 16 * 4 + c / 64) _
    ∙ nonce_from-digit (digits_of k) (c % 64) _
    ∙ nonce_from-base64 k bytes (omega (arith, h))

-- Every nonce that is generated from sixteen bytes is accepted by `verifyCspNonce`.
pub verify_csp_nonce-generate_nonce :
    (bytes : List ℕ) → length bytes ≡ 16 → verify_csp_nonce (generate_nonce bytes) ≡ true
verify_csp_nonce-generate_nonce bytes h =
    unfold verify_csp_nonce generate_nonce in nonce_from-base64 5 bytes h
