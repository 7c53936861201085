-- ===== src/Routing/Redirects.antt =====
-- The open-redirect guards: `sanitizeRedirectUrl` of frontend/src/lib/security.ts and
-- `safeRedirectTarget` of frontend/src/lib/auth.ts.
use Prim.Native.Char.{code}
use Prim.Native.String.{String, [], ◌∷◌}
use jolarca.Common.{
  ℕ, ◌≡◌, refl, Bool, true, false, not, ◌&&◌, ◌||◌, Option, none, some, ◌==◌, ◌<>◌, arith,
  if◌then◌else◌, ◌is◌, Bool-cases, inl, inr, ◌⊎◌, eq_refl,
}
use text.Mathlib.TextLemmas.{cons-append}
use jolarca.Common.Text.{trim, is_empty, starts_with, has_prefix, includes_code}

-- What `new URL(…)` gives of a text that it parses.
pub record Url : Type 0 where
  pub origin : String
  pub pathname : String
  pub search : String

-- The browser's origin and its `new URL(text, origin)`, `none` where that throws.
pub record Window : Type 0 where
  pub origin : String
  pub parse_url : String → Option Url

-- An absolute URL: kept, as its path and search, where its origin is the browser's.
unfoldable pub same_origin_path : Option Window → String → String
same_origin_path none trimmed = "/"
same_origin_path (some window) trimmed = elim (window.parse_url trimmed) [
  | none ↦ "/"
  | some url ↦ if url.origin == window.origin then url.pathname <> url.search else "/"
]

-- What is done with the trimmed text.
unfoldable pub sanitize_trimmed : Option Window → String → String
unfolding has_prefix includes_code same_origin_path
sanitize_trimmed window trimmed =
    if is_empty trimmed
    then "/"
    else if starts_with trimmed "//"
    then "/"
    else if starts_with trimmed "/"
    then if includes_code 92 trimmed then "/" else trimmed
    else same_origin_path window trimmed

unfoldable pub sanitize_redirect_url : Option Window → String → String
unfolding trim sanitize_trimmed
sanitize_redirect_url window url = sanitize_trimmed window (trim url)

unfoldable pub safe_redirect_target : Option String → String
unfolding has_prefix
safe_redirect_target none = "/account"
safe_redirect_target (some target) =
    if is_empty target || not (starts_with target "/") || starts_with target "//"
    then "/account"
    else target

-- What a URL parser drops wherever it stands: tabs and line breaks.
abbrev pub is_dropped : ℕ → Bool
is_dropped c = c is 9 || c is 10 || c is 13

abbrev pub as_parsed : String → String
as_parsed [] = []
as_parsed (c ∷ s) = let rest = as_parsed s in if is_dropped (code c) then rest else c ∷ rest

abbrev pub has_dropped : String → Bool
has_dropped [] = false
has_dropped (c ∷ s) = is_dropped (code c) || has_dropped s

-- A URL parser takes a backslash at the start of a path for a slash, and what follows two of them for
-- a host. A path stays on the site if, as it is parsed, it starts with "/" and goes on with neither.
abbrev pub stays_behind_slash : String → Bool
stays_behind_slash [] = true
stays_behind_slash (c ∷ s) = not (code c is b'/' || code c is 92)

abbrev pub is_site_path : String → Bool
is_site_path [] = false
is_site_path (c ∷ s) = code c is b'/' && stays_behind_slash s

abbrev pub stays_on_site : String → Bool
stays_on_site s = is_site_path (as_parsed s)

as_parsed_plain : (s : String) → has_dropped s ≡ false → as_parsed s ≡ s
as_parsed_plain [] h = refl
as_parsed_plain (c ∷ s) h =
    let kept : is_dropped (code c) ≡ false = ground (arith, h) in
    rw (kept, as_parsed_plain s (ground (arith, h))) refl

one_slash_path :
    (s : String)
    → starts_with s "/" ≡ true
    → starts_with s "//" ≡ false
    → includes_code 92 s ≡ false
    → is_site_path s ≡ true
unfolding has_prefix includes_code
one_slash_path [] p q r = cc
one_slash_path (c ∷ []) p q r = ground arith
one_slash_path (c ∷ (d ∷ s)) p q r = ground arith

-- A text that starts with one slash and holds no backslash, tab or line break stays on the site.
one_slash_stays :
    (s : String)
    → has_dropped s ≡ false
    → starts_with s "/" ≡ true
    → starts_with s "//" ≡ false
    → includes_code 92 s ≡ false
    → stays_on_site s ≡ true
one_slash_stays s plain p q r = rw (as_parsed_plain s plain) (one_slash_path s p q r)

sanitize_trimmed_stays :
    (window : Option Window) (trimmed : String)
    → has_dropped trimmed ≡ false
    → (starts_with trimmed "/" ≡ true) ⊎ (window ≡ none)
    → stays_on_site (sanitize_trimmed window trimmed) ≡ true
unfolding sanitize_trimmed
sanitize_trimmed_stays window trimmed plain h = elim (Bool-cases (is_empty trimmed)) [
  | inl e ↦ rw e refl
  | inr full ↦ elim (Bool-cases (starts_with trimmed "//")) [
    | inl e ↦ rw (full, e) refl
    | inr single ↦ elim (Bool-cases (starts_with trimmed "/")) [
      | inl slash ↦ elim (Bool-cases (includes_code 92 trimmed)) [
        | inl e ↦ rw (full, single, slash, e) refl
        | inr clean ↦
            rw (full, single, slash, clean) (one_slash_stays trimmed plain slash single clean)
      ]
      | inr e ↦ elim h [
        | inl slash ↦ cc
        | inr absent ↦ rw (full, single, e, absent) (unfold same_origin_path in refl)
      ]
    ]
  ]
]

-- If the trimmed target holds no tab and no line break, which a URL parser would drop, then the result
-- stays on the site where there is no browser window, or where the trimmed target starts with a slash.
pub sanitize_redirect_url_stays :
    (window : Option Window) (url : String)
    → has_dropped (trim url) ≡ false
    → (starts_with (trim url) "/" ≡ true) ⊎ (window ≡ none)
    → stays_on_site (sanitize_redirect_url window url) ≡ true
sanitize_redirect_url_stays window url plain h =
    unfold sanitize_redirect_url in sanitize_trimmed_stays window (trim url) plain h

-- A slash, a tab and a slash get through, and a URL parser takes what follows for a host.
sanitize_redirect_url_tab :
    (sanitize_redirect_url none "/\t/evil.example" ≡ "/\t/evil.example")
    × (stays_on_site "/\t/evil.example" ≡ false)
unfolding sanitize_redirect_url
sanitize_redirect_url_tab = (refl, refl)

no_slash-no_slashes : (s : String) → starts_with s "/" ≡ false → starts_with s "//" ≡ false
unfolding has_prefix
no_slash-no_slashes [] h = refl
no_slash-no_slashes (c ∷ s) h = ground arith

sanitize_trimmed_absolute :
    (window : Window) (trimmed : String) (parsed : Url)
    → is_empty trimmed ≡ false
    → starts_with trimmed "/" ≡ false
    → window.parse_url trimmed ≡ some parsed
    → parsed.origin ≡ window.origin
    → sanitize_trimmed (some window) trimmed ≡ parsed.pathname <> parsed.search
unfolding sanitize_trimmed same_origin_path
sanitize_trimmed_absolute window trimmed parsed full no_slash found same =
    rw (full, no_slash-no_slashes trimmed no_slash, no_slash, found, same, eq_refl window.origin)
      refl

sanitize_redirect_url_absolute :
    (window : Window) (url : String) (parsed : Url)
    → is_empty (trim url) ≡ false
    → starts_with (trim url) "/" ≡ false
    → window.parse_url (trim url) ≡ some parsed
    → parsed.origin ≡ window.origin
    → sanitize_redirect_url (some window) url ≡ parsed.pathname <> parsed.search
sanitize_redirect_url_absolute window url parsed full no_slash found same =
    unfold sanitize_redirect_url in
    sanitize_trimmed_absolute window (trim url) parsed full no_slash found same

-- An absolute URL of the browser's own origin whose path starts with two slashes is reduced to
-- that path, which a browser takes for another host: the result does not stay on the site.
pub sanitize_redirect_url_leaves :
    (window : Window) (url p : String) (parsed : Url)
    → is_empty (trim url) ≡ false
    → starts_with (trim url) "/" ≡ false
    → window.parse_url (trim url) ≡ some parsed
    → parsed.origin ≡ window.origin
    → parsed.pathname ≡ "/" ∷ ("/" ∷ p)
    → (sanitize_redirect_url (some window) url ≡ parsed.pathname <> parsed.search)
      × (stays_on_site (sanitize_redirect_url (some window) url) ≡ false)
sanitize_redirect_url_leaves window url p parsed full no_slash found same path =
    let reduced = sanitize_redirect_url_absolute window url parsed full no_slash found same in
    (
      reduced,
      rw (reduced, path, cons-append "/" ("/" ∷ p) parsed.search, cons-append "/" p parsed.search)
          refl,
    )

-- The post-login guard lets every target through that starts with a slash and a backslash, and
-- that target does not stay on the site.
pub safe_redirect_target_leaves :
    (s : String)
    → (safe_redirect_target (some ("/" ∷ ("\\" ∷ s))) ≡ "/" ∷ ("\\" ∷ s))
      × (stays_on_site ("/" ∷ ("\\" ∷ s)) ≡ false)
unfolding safe_redirect_target
safe_redirect_target_leaves s = (refl, refl)

-- Without a backslash, a tab or a line break in it, whatever the target, the result of the post-login guard stays on the
-- site.
pub safe_redirect_target_stays :
    (target : String)
    → has_dropped target ≡ false
    → includes_code 92 target ≡ false
    → stays_on_site (safe_redirect_target (some target)) ≡ true
unfolding safe_redirect_target
safe_redirect_target_stays target plain clean = elim (Bool-cases (is_empty target)) [
  | inl e ↦ rw e refl
  | inr full ↦ elim (Bool-cases (starts_with target "/")) [
    | inr e ↦ rw (full, e) refl
    | inl slash ↦ elim (Bool-cases (starts_with target "//")) [
      | inl e ↦ rw (full, slash, e) refl
      | inr single ↦ rw (full, slash, single) (one_slash_stays target plain slash single clean)
    ]
  ]
]
