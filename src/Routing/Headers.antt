-- ===== src/Routing/Headers.antt =====
-- The response headers of frontend/src/lib/security.ts: `STATIC_SECURITY_HEADERS`, `buildCsp`,
-- `applySecurityHeaders`. Header names are in lower case, as `Headers` keeps and compares them.
use jolarca.Common.{String, ◌<>◌, Bool, Option, none, some, List, [], ◌∷◌, ◌++◌, if◌then◌else◌}
use jolarca.Common.Record.{Entries, insert}
use jolarca.Common.Text.{starts_with, has_prefix, is_empty}

-- What the process's environment says.
pub record Environment : Type 0 where
  pub development : Bool
  pub site_url : String
  pub api_url : String
  pub plausible_api : Option String

abbrev pub static_security_headers : Entries String
static_security_headers =
    ("strict-transport-security", "max-age=63072000; includeSubDomains; preload")
    ∷ ("x-frame-options", "DENY")
    ∷ ("x-content-type-options", "nosniff")
    ∷ ("referrer-policy", "strict-origin-when-cross-origin")
    ∷ ("permissions-policy", "geolocation=(), microphone=(), camera=(), payment=(self)")
    ∷ []

-- `parts.join(separator)`
unfoldable pub join : String → List String → String
join separator [] = ""
join separator (part ∷ []) = part
join separator (part ∷ (next ∷ parts)) = part <> separator <> join separator (next ∷ parts)

-- `if (value)`
abbrev given : Option String → List String
given none = []
given (some s) = if is_empty s then [] else s ∷ []

unfoldable pub script_src : Environment → (nonce : String) → List String
script_src env nonce =
    ("'self'" ∷ ("'nonce-" <> nonce <> "'") ∷ "https://js.stripe.com" ∷ [])
    ++ (if env.development then "'unsafe-eval'" ∷ [] else [])
    ++ given env.plausible_api

unfoldable pub connect_src : Environment → List String
connect_src env =
    ("'self'" ∷ env.api_url ∷ "https://api.stripe.com" ∷ []) ++ given env.plausible_api

unfoldable pub directives : Environment → (nonce : String) → List String
unfolding join script_src connect_src has_prefix
directives env nonce =
    ("default-src 'self'"
      ∷ ("script-src " <> join " " (script_src env nonce))
      ∷ ("style-src 'self' 'nonce-" <> nonce <> "'")
      ∷ "style-src-attr 'unsafe-inline'"
      ∷ "img-src 'self' data: https: blob:"
      ∷ "font-src 'self'"
      ∷ ("connect-src " <> join " " (connect_src env))
      ∷ "frame-src https://js.stripe.com https://www.openstreetmap.org"
      ∷ "frame-ancestors 'none'"
      ∷ "object-src 'none'"
      ∷ "base-uri 'self'"
      ∷ "form-action 'self'"
      ∷ [])
    ++ (if starts_with env.site_url "https" then "upgrade-insecure-requests" ∷ [] else [])

unfoldable pub build_csp : Environment → (nonce : String) → String
unfolding directives join
build_csp env nonce = join "; " (directives env nonce)

-- `for (const [name, value] of entries) headers.set(name, value)`
unfoldable pub set_all : Entries String → Entries String → Entries String
unfolding insert
set_all [] headers = headers
set_all ((name, value) ∷ entries) headers = set_all entries (insert name value headers)

unfoldable pub apply_security_headers :
    Environment → (nonce : String) → Entries String → Entries String
unfolding set_all build_csp insert
apply_security_headers env nonce headers =
    insert "content-security-policy" (build_csp env nonce) (set_all static_security_headers headers)
