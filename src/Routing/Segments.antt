-- ===== src/Routing/Segments.antt =====
-- `isProtectedRoute` looks at one whole segment, with or without a locale in front.
use Prim.Native.Char.{code}
use Prim.Native.String.{String, [], ◌∷◌}
use text.Mathlib.TextEquality.{Char-path}
use text.Mathlib.TextLemmas.{cons≢nil, nil≢cons, cons-eq-cons, cons-append, nil-append}
use jolarca.Common.{
  ◌≡◌, refl, ◌⊎◌, inl, inr, Bool, true, false, ◌||◌, none, ◌==◌, arith, sym, ◌∙◌, ◌is◌, ap, eq_iff,
  Bool-cases, ◌<>◌,
}
use jolarca.Common.Text.{before_code, has_prefix}
use jolarca.Routing.Locale.{Locale, lt, lv, en, locale_text, supported_locale}
use jolarca.Routing.Protection.{
  strip_locale_segment, is_under, protected_routes, is_protected_route,
}
use jolarca.Common.Lists.{any}

-- `s` followed by `t`, computed.
abbrev pub prepend : String → String → String
prepend [] t = t
prepend (c ∷ s) t = c ∷ prepend s t

-- The path "/lt/" and so on, followed by `s`.
abbrev pub localized : Locale → String → String
localized l s = "/" ∷ prepend (locale_text l) ("/" ∷ s)

abbrev NoSlash : String → Type 0
NoSlash [] = Unit
NoSlash (c ∷ s) = ((code c is b'/') ≡ false) × NoSlash s

before_of_under :
    (w s : String)
    → NoSlash w
    → (s ≡ w) ⊎ (has_prefix (prepend w "/") s ≡ true)
    → before_code b'/' s ≡ w
unfolding before_code has_prefix
before_of_under [] [] n h = refl
before_of_under [] (c ∷ s) n (inl e) = absurd (cons≢nil e)
before_of_under [] (c ∷ s) n (inr e) = ground arith
before_of_under (d ∷ w) [] n (inl e) = absurd (nil≢cons e)
before_of_under (d ∷ w) [] n (inr e) = cc
before_of_under (d ∷ w) (c ∷ s) (here, n) (inl e) =
    let (same, rest) = cons-eq-cons.0 e in
    rw (same, here) (ap (◌∷◌ d) (before_of_under w s n (inl rest)))
before_of_under (d ∷ w) (c ∷ s) (here, n) (inr e) =
    let same : c ≡ d = Char-path c d (ground arith) in
    rw (same, here) (ap (◌∷◌ d) (before_of_under w s n (inr (ground arith))))

under_of_before :
    (w s : String) → before_code b'/' s ≡ w → (s ≡ w) ⊎ (has_prefix (prepend w "/") s ≡ true)
unfolding before_code has_prefix
under_of_before [] [] e = inl refl
under_of_before [] (c ∷ s) e = elim (Bool-cases (code c is b'/')) [
  | inl slash ↦ inr (ground arith)
  | inr other ↦ absurd (cons≢nil (rw other at e))
]
under_of_before (d ∷ w) [] e = absurd (nil≢cons e)
under_of_before (d ∷ w) (c ∷ s) e = elim (Bool-cases (code c is b'/')) [
  | inl slash ↦ absurd (nil≢cons (rw slash at e))
  | inr other ↦
      let (same, rest) = cons-eq-cons.0 (rw other at e) in
      elim (under_of_before w s rest) [
        | inl whole ↦ inl (cons-eq-cons.1 (same, whole))
        | inr below ↦ let same_code : code d ≡ code c = ap code (sym same) in inr (ground arith)
      ]
]

prepend-append : (s t : String) → s <> t ≡ prepend s t
prepend-append [] t = nil-append t
prepend-append (c ∷ s) t = cons-append c s t ∙ ap (◌∷◌ c) (prepend-append s t)

eq_of_iff : (a b : Bool) → (a ≡ true → b ≡ true) → (b ≡ true → a ≡ true) → a ≡ b
eq_of_iff true b f g = sym (f refl)
eq_of_iff false true f g = g refl
eq_of_iff false false f g = refl

-- A path is under a route of one segment exactly if its first segment is that one.
is_under_segment :
    (w s : String) → NoSlash w → is_under ("/" ∷ s) ("/" ∷ w) ≡ (before_code b'/' s == w)
unfolding is_under
is_under_segment w s n =
    rw (cons-append "/" w "/", prepend-append w "/")
      (eq_of_iff _ _
        (λ h. (eq_iff (before_code b'/' s) w).1 (
          before_of_under w s n (
            ground
              (arith, eq_iff ("/" ∷ s) ("/" ∷ w), λ (p : "/" ∷ s ≡ "/" ∷ w). cons-eq-cons.0 p))))
        (λ h. elim (under_of_before w s ((eq_iff (before_code b'/' s) w).0 h)) [
          | inl whole ↦ rw ((eq_iff ("/" ∷ s) ("/" ∷ w)).1 (ap (◌∷◌ "/") whole))
          | inr below ↦ ground arith
        ]))

unlocalized :
    (s : String)
    → supported_locale (before_code b'/' s) ≡ none
    → strip_locale_segment ("/" ∷ s) ≡ "/" ∷ s
unfolding strip_locale_segment
unlocalized s h = rw h

strip-localized : (l : Locale) (s : String) → strip_locale_segment (localized l s) ≡ "/" ∷ s
unfolding strip_locale_segment
strip-localized lt s = refl
strip-localized lv s = refl
strip-localized en s = refl

-- The names of the protected segments.
abbrev pub is_protected_name : String → Bool
is_protected_name name =
    name == "account" || name == "seller" || name == "admin" || name == "checkout"

any_under :
    (s : String)
    → any (is_under ("/" ∷ s)) protected_routes ≡ is_protected_name (before_code b'/' s)
any_under s =
    simp
      (
        is_under_segment "account" s (ground arith),
        is_under_segment "seller" s (ground arith),
        is_under_segment "admin" s (ground arith),
        is_under_segment "checkout" s (ground arith),
      )
      (ground arith)

-- A path whose first segment is no locale needs a session exactly if that segment is "account",
-- "seller", "admin" or "checkout", whatever follows: "/sellers" does not.
pub is_protected_route-segment :
    (s : String)
    → supported_locale (before_code b'/' s) ≡ none
    → is_protected_route ("/" ∷ s) ≡ is_protected_name (before_code b'/' s)
unfolding is_protected_route before_code
is_protected_route-segment s h = rw (unlocalized s h) (any_under s)

-- With a locale in front, a path whose first segment is no locale needs a session exactly if it
-- does without.
pub is_protected_route-localized :
    (l : Locale) (s : String)
    → supported_locale (before_code b'/' s) ≡ none
    → is_protected_route (localized l s) ≡ is_protected_route ("/" ∷ s)
unfolding is_protected_route
is_protected_route-localized l s h = rw (strip-localized l s, unlocalized s h)
