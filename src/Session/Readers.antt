-- ===== src/Session/Readers.antt =====
-- The two readers of the CSRF cookie agree where the jar has one such cookie at most.
use Prim.Native.String.{[] as empty, ◌∷◌ as ◌∷ˢ◌}
use mathlib.Core.Path.{subst}
use text.Mathlib.TextLemmas.{cons-append}
use jolarca.Common.{
  suc, String, ◌<>◌, ◌≡◌, refl, ap, ◌∙◌, Bool, true, false, none, some, List, [], ◌∷◌, ◌++◌,
  if◌then◌else◌, Bool-cases, inl, inr, arith,
}
use jolarca.Common.Lists.{All, any, find}
use jolarca.Common.Text.{is_empty, has_prefix, slice_from, length_of, after_code, includes_code}
use jolarca.Errors.{Result, ok}
use jolarca.Session.Csrf.{
  csrf_cookie_names, cookie_pairs, is_named, first_token, read_csrf_token, is_csrf_cookie, token_of,
  hook_token,
}

-- Behind a name that has no equals sign stands what stands behind the first equals sign.
after-named :
    (name pair : String)
    → includes_code b'=' name ≡ false
    → is_named name pair ≡ true
    → after_code b'=' pair ≡ some (slice_from (suc (length_of name)) pair)
unfolding includes_code has_prefix slice_from length_of after_code
after-named empty empty h p = absurd (cc)
after-named empty (d ∷ˢ pair) h p = ground (arith, p)
after-named (c ∷ˢ name) empty h p = absurd (
    let q : has_prefix (c ∷ˢ (name <> "=")) empty ≡ true =
      subst (λ w. has_prefix w empty ≡ true) (cons-append c name "=") p in
    cc)
after-named (c ∷ˢ name) (d ∷ˢ pair) h p =
    let q : has_prefix (c ∷ˢ (name <> "=")) (d ∷ˢ pair) ≡ true =
      subst (λ w. has_prefix w (d ∷ˢ pair) ≡ true) (cons-append c name "=") p in
    let rest : after_code b'=' pair ≡ some (slice_from (suc (length_of name)) pair) =
      after-named name pair (ground (arith, h)) (ground (arith, q)) in
    ground (arith, h, q, rest)

find-none :
    (test : String → Bool) (others : List String)
    → All (λ other. test other ≡ false) others
    → find test others ≡ none
find-none test [] h = refl
find-none test (other ∷ others) (p, h) = rw p (find-none test others h)

find-one :
    (test : String → Bool) (before after : List String) (pair : String)
    → All (λ other. test other ≡ false) before
    → All (λ other. test other ≡ false) after
    → find test (before ++ pair ∷ after) ≡ (if test pair then some pair else none)
find-one test [] after pair h k = ground (arith, find-none test after k)
find-one test (other ∷ before) after pair (p, h) k = rw p (find-one test before after pair h k)

All-first :
    (name : String) (names others : List String)
    → All (λ other. any (λ name. is_named name other) (name ∷ names) ≡ false) others
    → All (λ other. is_named name other ≡ false) others
All-first name names [] h = tt
All-first name names (other ∷ others) (p, h) = (ground (arith, p), All-first name names others h)

All-rest :
    (name : String) (names others : List String)
    → All (λ other. any (λ name. is_named name other) (name ∷ names) ≡ false) others
    → All (λ other. any (λ name. is_named name other) names ≡ false) others
All-rest name names [] h = tt
All-rest name names (other ∷ others) (p, h) = (ground (arith, p), All-rest name names others h)

any-csrf :
    (pair : String) → any (λ name. is_named name pair) csrf_cookie_names ≡ is_csrf_cookie pair
any-csrf pair = ground arith

All-named :
    (others : List String)
    → All (λ other. is_csrf_cookie other ≡ false) others
    → All (λ other. any (λ name. is_named name other) csrf_cookie_names ≡ false) others
All-named [] h = tt
All-named (other ∷ others) (p, h) = (any-csrf other ∙ p, All-named others h)

-- The token of the only pair that may be one of the cookies.
module _ (decode : String → Result String) where
  token_of-blank :
      (pair value : String) (is_cookie : Bool)
      → after_code b'=' pair ≡ some value
      → is_empty value ≡ true
      → token_of decode (if is_cookie then some pair else none) ≡ ok none
  token_of-blank pair value true same blank = rw (same, blank) refl
  token_of-blank pair value false same blank = refl

  first_token-one :
      (names before after : List String) (pair : String)
      → All (λ name. includes_code b'=' name ≡ false) names
      → All (λ other. any (λ name. is_named name other) names ≡ false) before
      → All (λ other. any (λ name. is_named name other) names ≡ false) after
      → first_token decode names (before ++ pair ∷ after)
        ≡ token_of decode (if any (λ name. is_named name pair) names then some pair else none)
  unfolding first_token
  first_token-one [] before after pair keys h k = refl
  first_token-one (name ∷ names) before after pair (key, keys) h k =
      let found : find (is_named name) (before ++ pair ∷ after)
          ≡ (if is_named name pair then some pair else none) =
        find-one (is_named name) before after pair (All-first name names before h)
          (All-first name names after k) in
      let rest =
        first_token-one names before after pair keys (All-rest name names before h)
          (All-rest name names after k) in
      elim (Bool-cases (is_named name pair)) [
        | inr other ↦ rw (found, other, first_token) rest
        | inl mine ↦
            let value = slice_from (suc (length_of name)) pair in
            let same : after_code b'=' pair ≡ some value = after-named name pair key mine in
            elim (Bool-cases (is_empty value)) [
              | inl blank ↦
                  rw (found, mine, same, blank, first_token)
                    (rest ∙ token_of-blank pair value _ same blank)
              | inr full ↦ rw (found, mine, same, full, first_token) refl
            ]
      ]

  -- If at most one pair of the jar has one of the three names, both readers have the same token, or
  -- both throw the same error from its decoding.
  pub csrf_readers_agree :
      (jar : String) (before after : List String) (pair : String)
      → cookie_pairs jar ≡ before ++ pair ∷ after
      → All (λ other. is_csrf_cookie other ≡ false) before
      → All (λ other. is_csrf_cookie other ≡ false) after
      → read_csrf_token decode jar ≡ hook_token decode jar
  unfolding read_csrf_token hook_token includes_code
  csrf_readers_agree jar before after pair split h k =
      rw (split, find-one is_csrf_cookie before after pair h k)
        (first_token-one csrf_cookie_names before after pair (refl, (refl, (refl, tt)))
            (All-named before h) (All-named after k)
          ∙ ap (λ (b : Bool). token_of decode (if b then some pair else none)) (any-csrf pair))
