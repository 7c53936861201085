-- ===== src/Routing/Middleware.antt =====
-- frontend/src/middleware.ts. next-intl's middleware and the nonce are parameters; what the request
-- object keeps is passed on where the code changes it.
use jolarca.Common.{
  String, ◌<>◌, Bool, false, not, ◌&&◌, ◌||◌, Option, none, some, List, [], ◌∷◌, ◌==◌,
  if◌then◌else◌, or_else,
}
use jolarca.Common.Int.{ℤ}
use jolarca.Common.Lists.{any, find}
use jolarca.Common.Record.{Entries, insert, lookup}
use jolarca.Common.Text.{is_empty}
use jolarca.Routing.Locale.{Locale, lt, lv, en, locale_text, resolve_locale}
use jolarca.Routing.Protection.{is_protected_route, is_under}
use jolarca.Routing.Headers.{Environment, apply_security_headers}

pub record Request : Type 0 where
  pub origin : String
  pub pathname : String
  pub search : String
  pub headers : Entries String
  pub cookies : Entries String

-- `NextResponse.redirect` of a text, or of a URL by its parts.
pub data Location : Type 0 where
  text : String → Location
  url : (origin pathname : String) → (search_params : Entries String) → Location

-- What a response is: a redirect, or what next-intl made of it.
pub data Answer : Type 0 where
  redirect : Location → Answer
  rendered : String → Answer

pub record Response : Type 0 where
  pub answer : Answer
  pub headers : Entries String

abbrev pub launch_locales : List Locale
launch_locales = lt ∷ lv ∷ en ∷ []

-- `/^\/(lt|lv|en)$/`
unfoldable pub is_locale_root : String → Bool
is_locale_root pathname = pathname == "/lt" || pathname == "/lv" || pathname == "/en"

abbrev cookie_full : Option String → Bool
cookie_full none = false
cookie_full (some value) = not (is_empty value)

abbrev pub session_cookie_names : List String
session_cookie_names = "__Host-jol_session" ∷ "jol_session" ∷ []

unfoldable pub has_session : Entries String → Bool
unfolding lookup
has_session cookies = any (λ name. cookie_full (lookup name cookies)) session_cookie_names

-- The locale that prefixes the path.
unfoldable pub path_locale : String → Option Locale
unfolding is_under
path_locale pathname = find (λ l. is_under pathname ("/" <> locale_text l)) launch_locales

module _ (env : Environment) (nonce : String) (number : String → Option ℤ) (one : ℤ)
    (next_intl : Request → Response) where
  unfoldable pub secured : Response → Response
  unfolding apply_security_headers
  secured response = record {
    answer = response.answer;
    headers = apply_security_headers env nonce response.headers;
  }

  abbrev redirected : Location → Response
  redirected location = record { answer = redirect location; headers = [] }

  -- `request.headers.set(NONCE_REQUEST_HEADER, nonce)`
  unfoldable pub with_nonce : Request → Request
  unfolding insert
  with_nonce request = record {
    origin = request.origin;
    pathname = request.pathname;
    search = request.search;
    headers = insert "x-nonce" nonce request.headers;
    cookies = request.cookies;
  }

  -- The preference of the visitor: `resolveLocale({ cookieLocale, acceptLanguage })`.
  unfoldable pub preferred : Request → Locale
  unfolding resolve_locale lookup
  preferred request =
      resolve_locale number one (lookup "jol_locale" request.cookies)
        (lookup "accept-language" request.headers)

  -- `request.cookies.set("NEXT_LOCALE", pathLocale ?? resolveLocale(…))`
  unfoldable pub bridged : Request → Request
  unfolding insert preferred path_locale
  bridged request = record {
    origin = request.origin;
    pathname = request.pathname;
    search = request.search;
    headers = request.headers;
    cookies =
        insert "NEXT_LOCALE"
          (locale_text (or_else (path_locale request.pathname) (preferred request)))
          request.cookies;
  }

  unfoldable pub to_login : Request → Location
  unfolding preferred
  to_login request =
      url request.origin ("/" <> locale_text (preferred request) <> "/login")
        (("redirect", request.pathname <> request.search) ∷ [])

  unfoldable pub respond : Request → Response
  unfolding is_locale_root is_protected_route has_session to_login bridged
  respond request =
      if is_locale_root request.pathname
      then redirected (text (request.origin <> request.pathname <> "/"))
      else if is_protected_route request.pathname && not (has_session request.cookies)
      then redirected (to_login request)
      else next_intl (bridged request)

  unfoldable pub middleware : Request → Response
  unfolding secured respond with_nonce
  middleware request = secured (respond (with_nonce request))
