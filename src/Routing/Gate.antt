-- ===== src/Routing/Gate.antt =====
-- What the middleware promises whatever next-intl's middleware does.
use jolarca.Common.{
  String, ◌<>◌, ◌≡◌, refl, true, false, Option, some, [], ◌∷◌, Bool-cases, inl, inr, ◌⊎◌, eq_iff,
  arith,
}
use jolarca.Common.Int.{ℤ}
use jolarca.Common.Record.{lookup, lookup-insert, lookup-insert_self}
use jolarca.Routing.Locale.{Locale, lt, lv, en, locale_text, resolve_locale}
use jolarca.Routing.Protection.{is_protected_route}
use jolarca.Routing.Headers.{Environment, apply_security_headers, set_all, build_csp}
use jolarca.Routing.Middleware.{
  Request, Response, redirect, url, is_locale_root, has_session, secured, with_nonce, preferred,
  bridged, respond, middleware, to_login, path_locale,
}

root_free : (l : Locale) → is_protected_route ("/" <> locale_text l) ≡ false
unfolding is_protected_route
root_free lt = refl
root_free lv = refl
root_free en = refl

protected_no_root :
    (pathname : String) → is_protected_route pathname ≡ true → is_locale_root pathname ≡ false
unfolding is_locale_root
protected_no_root pathname protected = ground (
  arith,
  eq_iff pathname "/lt",
  eq_iff pathname "/lv",
  eq_iff pathname "/en",
  root_free lt,
  root_free lv,
  root_free en,
  protected,
)

login_free :
    (l : Locale)
    → (is_locale_root ("/" <> locale_text l <> "/login") ≡ false)
      × (is_protected_route ("/" <> locale_text l <> "/login") ≡ false)
      × (path_locale ("/" <> locale_text l <> "/login") ≡ some l)
unfolding is_locale_root is_protected_route path_locale
login_free lt = (refl, refl, refl)
login_free lv = (refl, refl, refl)
login_free en = (refl, refl, refl)

module _ (env : Environment) (nonce : String) (number : String → Option ℤ) (one : ℤ)
    (next_intl : Request → Response) where
  -- The request as next-intl gets it.
  abbrev pub seen : Request → Request
  seen request =
      bridged env nonce number one next_intl (with_nonce env nonce number one next_intl request)

  -- Every response, next-intl's and the redirects, carries the static security headers and the
  -- policy with this request's nonce, whatever headers it had.
  pub middleware-headers :
      (request : Request)
      → (lookup "content-security-policy"
            (middleware env nonce number one next_intl request).headers
          ≡ some (build_csp env nonce))
        × (lookup "strict-transport-security"
              (middleware env nonce number one next_intl request).headers
            ≡ some "max-age=63072000; includeSubDomains; preload")
        × (lookup "x-frame-options" (middleware env nonce number one next_intl request).headers
            ≡ some "DENY")
        × (lookup "x-content-type-options"
              (middleware env nonce number one next_intl request).headers
            ≡ some "nosniff")
        × (lookup "referrer-policy" (middleware env nonce number one next_intl request).headers
            ≡ some "strict-origin-when-cross-origin")
        × (lookup "permissions-policy" (middleware env nonce number one next_intl request).headers
            ≡ some "geolocation=(), microphone=(), camera=(), payment=(self)")
  unfolding middleware secured apply_security_headers set_all
  middleware-headers request = (
    simp lookup-insert,
    simp lookup-insert,
    simp lookup-insert,
    simp lookup-insert,
    simp lookup-insert,
    simp lookup-insert,
  )

  -- A request for a protected path without a session never reaches next-intl: it is answered by a
  -- redirect to the login page of the visitor's locale, with the path and the query to return to.
  pub middleware-gate :
      (request : Request)
      → is_protected_route request.pathname ≡ true
      → has_session request.cookies ≡ false
      → (middleware env nonce number one next_intl request).answer
        ≡ redirect (
            url request.origin
              ("/"
                <> locale_text (
                    resolve_locale number one
                      (lookup "jol_locale" request.cookies)
                      (lookup "accept-language" request.headers))
                <> "/login")
              (("redirect", request.pathname <> request.search) ∷ []))
  unfolding middleware secured respond with_nonce to_login preferred
  middleware-gate request protected anonymous =
      rw
        (
          protected_no_root request.pathname protected,
          protected,
          anonymous,
          lookup-insert "x-nonce" "accept-language" nonce request.headers,
        )
        refl

  seen-locale :
      (request : Request) (l : Locale)
      → path_locale request.pathname ≡ some l
      → lookup "NEXT_LOCALE" (seen request).cookies ≡ some (locale_text l)
  unfolding bridged with_nonce
  seen-locale request l found =
      rw found (lookup-insert_self "NEXT_LOCALE" (locale_text l) request.cookies)

  -- With a session, or for a path that is not protected, next-intl answers every request for a
  -- path behind a locale but the bare root of one, and the request that it sees names that locale.
  pub middleware-delegates :
      (request : Request) (l : Locale)
      → is_locale_root request.pathname ≡ false
      → (is_protected_route request.pathname ≡ false) ⊎ (has_session request.cookies ≡ true)
      → path_locale request.pathname ≡ some l
      → ((middleware env nonce number one next_intl request).answer
          ≡ (next_intl (seen request)).answer)
        × (lookup "NEXT_LOCALE" (seen request).cookies ≡ some (locale_text l))
  unfolding middleware secured respond
  middleware-delegates request l root (inl free) found =
      (rw (root, free) refl, seen-locale request l found)
  middleware-delegates request l root (inr session) found =
      elim (Bool-cases (is_protected_route request.pathname)) [
        | inl guarded ↦ (rw (root, guarded, session) refl, seen-locale request l found)
        | inr free ↦ (rw (root, free) refl, seen-locale request l found)
      ]

  bare_delegates :
      (bare : Request)
      → bare.pathname ≡ "/login"
      → (middleware env nonce number one next_intl bare).answer ≡ (next_intl (seen bare)).answer
  unfolding middleware secured respond
  bare_delegates bare at_bare =
      let root : is_locale_root bare.pathname ≡ false =
        rw at_bare (unfold is_locale_root in refl) in
      let free : is_protected_route bare.pathname ≡ false =
        rw at_bare (unfold is_protected_route in refl) in
      rw (root, free) refl

  -- No request for a login page is answered by the gate's redirect, with or without a session: next-intl
  -- answers a request for the login page behind a locale, with the locale named in the request that it
  -- sees, and one for the login page behind none.
  pub middleware-login :
      (prefixed bare : Request) (l : Locale)
      → prefixed.pathname ≡ "/" <> locale_text l <> "/login"
      → bare.pathname ≡ "/login"
      → ((middleware env nonce number one next_intl prefixed).answer
          ≡ (next_intl (seen prefixed)).answer)
        × (lookup "NEXT_LOCALE" (seen prefixed).cookies ≡ some (locale_text l))
        × ((middleware env nonce number one next_intl bare).answer ≡ (next_intl (seen bare)).answer)
  middleware-login prefixed bare l at_login at_bare =
      let (answered, named) =
        middleware-delegates prefixed l (rw at_login (login_free l).0)
          (inl (rw at_login (login_free l).1)) (rw at_login (login_free l).2) in
      (answered, named, bare_delegates bare at_bare)
