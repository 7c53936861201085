-- ===== src/Examples/Pages.antt =====
-- Requests for pages, with a next-intl that renders the path it is asked for.
use Prim.Native.String.{String}
use jolarca.Common.{
  ℕ, List, ◌≡◌, refl, true, false, Option, none, some, [], ◌∷◌, ◌<>◌, inr, ◌==◌, if◌then◌else◌,
}
use jolarca.Common.Int.{ℤ, pos}
use jolarca.Common.Lists.{All}
use jolarca.Common.Record.{lookup}
use jolarca.Common.Text.{trim, split_on}
use jolarca.Routing.Locale.{
  lv, locale_text, resolve_locale, Entry, entries_of, entry_locale,
  detect_locale_from_accept_language,
}
use jolarca.Routing.Ranking.{Has, IsBelow, detect_locale-best}
use jolarca.Routing.Protection.{is_protected_route}
use jolarca.Routing.Redirects.{sanitize_redirect_url, stays_on_site, sanitize_redirect_url_stays}
use jolarca.Routing.Headers.{Environment}
use jolarca.Routing.Middleware.{Request, Response, redirect, rendered, url, has_session, middleware}
use jolarca.Routing.Gate.{seen, middleware-gate, middleware-login}

abbrev env : Environment
env = record {
  development = false;
  site_url = "https://jol.example";
  api_url = "https://api.jol.example";
  plausible_api = none;
}

-- A weight of one digit, in tenths, or the whole weight 1.
abbrev tenths : String → Option ℤ
tenths s = if s == "1" then some (pos 10) else if s == "0.5" then some (pos 5) else none

abbrev next_intl : Request → Response
next_intl request = record { answer = rendered request.pathname; headers = [] }

abbrev visit : String → Request
visit pathname = record {
  origin = "https://jol.example";
  pathname = pathname;
  search = "?tab=2";
  headers = ("accept-language", "en;q=0.5, lv") ∷ [];
  cookies = [];
}

middleware-gate_example :
    (middleware env "n0" tenths (pos 10) next_intl (visit "/lv/account/orders")).answer
    ≡ redirect (
        url "https://jol.example"
          ("/"
            <> locale_text (
                resolve_locale tenths
                  (pos 10)
                  (lookup "jol_locale" (visit "/lv/account/orders").cookies)
                  (lookup "accept-language" (visit "/lv/account/orders").headers))
            <> "/login")
          (("redirect", "/lv/account/orders" <> "?tab=2") ∷ []))
middleware-gate_example =
    middleware-gate env "n0" tenths (pos 10) next_intl (visit "/lv/account/orders")
      (unfold is_protected_route in refl) (unfold has_session in refl)

middleware-login_example :
    ((middleware env "n0" tenths (pos 10) next_intl (visit "/lv/login")).answer
      ≡ (next_intl (seen env "n0" tenths (pos 10) next_intl (visit "/lv/login"))).answer)
    × (lookup "NEXT_LOCALE" (seen env "n0" tenths (pos 10) next_intl (visit "/lv/login")).cookies
        ≡ some (locale_text lv))
    × ((middleware env "n0" tenths (pos 10) next_intl (visit "/login")).answer
        ≡ (next_intl (seen env "n0" tenths (pos 10) next_intl (visit "/login"))).answer)
middleware-login_example =
    middleware-login env "n0" tenths (pos 10) next_intl (visit "/lv/login") (visit "/login") lv refl
      refl

detect_locale-best_example :
    let entries = entries_of tenths (pos 10) (split_on b',' "en;q=0.5, lv") in
    (e : Entry) × Has e entries × (entry_locale e ≡ some lv) × All (IsBelow e) entries
detect_locale-best_example =
    detect_locale-best tenths (pos 10) "en;q=0.5, lv" lv
      (unfold detect_locale_from_accept_language in refl)

sanitize_redirect_url_stays_example :
    stays_on_site (sanitize_redirect_url none " https://evil.example/x ") ≡ true
sanitize_redirect_url_stays_example =
    sanitize_redirect_url_stays none " https://evil.example/x " (unfold trim in refl) (inr refl)

abbrev random_bytes : List ℕ
random_bytes = 0 ∷ 255 ∷ 17 ∷ 4 ∷ 99 ∷ 200 ∷ 1 ∷ 64 ∷ 63 ∷ 128 ∷ 250 ∷ 7 ∷ 8 ∷ 9 ∷ 10 ∷ 254 ∷ []
