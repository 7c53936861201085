-- ===== src/Session/Csrf.antt =====
-- The two readers of the CSRF cookie: `readCsrfToken` of frontend/src/lib/auth.ts, and the request
-- hook of frontend/src/lib/api-client.ts. `decode` is `decodeURIComponent`, which may throw.
use jolarca.Common.{
  suc, String, ◌<>◌, Bool, ◌||◌, Option, none, some, List, [], ◌∷◌, map, if◌then◌else◌, or_else,
}
use jolarca.Common.Lists.{find}
use jolarca.Common.Text.{is_empty, trim, split_on, starts_with, slice_from, length_of, after_code}
use jolarca.Errors.{Result, ok, ◌>>=◌}

abbrev pub csrf_cookie_names : List String
csrf_cookie_names = "csrftoken" ∷ "jol_csrf" ∷ "__Host-jol_csrf" ∷ []

-- `jar.split(";").map((pair) => pair.trim())`
unfoldable pub cookie_pairs : String → List String
unfolding split_on trim
cookie_pairs jar = map trim (split_on b';' jar)

abbrev pub is_named : (name pair : String) → Bool
is_named name pair = starts_with pair (name <> "=")

abbrev pub is_csrf_cookie : String → Bool
is_csrf_cookie pair =
    starts_with pair "csrftoken="
    || starts_with pair "jol_csrf="
    || starts_with pair "__Host-jol_csrf="

module _ (decode : String → Result String) where
  abbrev pub decoded : String → Result (Option String)
  decoded value = do token ← decode value; ok (some token)

  -- The first name, in the order of the names, that has a value.
  unfoldable pub first_token : List String → List String → Result (Option String)
  unfolding slice_from length_of
  first_token [] pairs = ok none
  first_token (name ∷ names) pairs =
      let rest = first_token names pairs in
      elim (find (is_named name) pairs) [
        | none ↦ rest
        | some hit ↦
            let value = slice_from (suc (length_of name)) hit in
            if is_empty value then rest else decoded value
      ]

  unfoldable pub read_csrf_token : (jar : String) → Result (Option String)
  unfolding cookie_pairs first_token
  read_csrf_token jar = first_token csrf_cookie_names (cookie_pairs jar)

  abbrev pub token_of : Option String → Result (Option String)
  token_of none = ok none
  token_of (some hit) =
      let token = or_else (after_code b'=' hit) hit in
      if is_empty token then ok none else decoded token

  -- The hook's token: that of the first cookie, in the order of the jar, with one of the names.
  unfoldable pub hook_token : (jar : String) → Result (Option String)
  unfolding cookie_pairs after_code
  hook_token jar = token_of (find is_csrf_cookie (cookie_pairs jar))
