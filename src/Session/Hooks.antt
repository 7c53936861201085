-- ===== src/Session/Hooks.antt =====
-- The hooks of frontend/src/lib/api-client.ts around every call of the API. `path` is the path of the
-- window's location, `none` on the server; the values of headers and toasts are what the code sets.
use jolarca.Common.{
  ℕ, String, ◌<>◌, Bool, true, false, ◌&&◌, ◌||◌, Option, none, some, List, [], ◌∷◌, ◌++◌, map, leb,
  ◌is◌, ◌==◌, if◌then◌else◌, or_else,
}
use jolarca.Common.Record.{Entries}
use jolarca.Common.Lists.{any}
use jolarca.Common.Text.{split_on, codes, upper_code, occurs}
use jolarca.Errors.{Result, ok, ◌>>=◌}
use jolarca.Logging.State.{Logger}
use jolarca.Logging.Identity.{capture_request_id}
use jolarca.Session.Csrf.{hook_token}

abbrev pub supported_locales : List String
supported_locales = "lt" ∷ "lv" ∷ "et" ∷ "en" ∷ []

-- `parts[1]`
abbrev second : List String → Option String
second [] = none
second (a ∷ []) = none
second (a ∷ b ∷ rest) = some b

abbrev supported : Option String → Option String
supported none = none
supported (some segment) =
    if any (λ locale. locale == segment) supported_locales then some segment else none

unfoldable pub current_locale : (path : Option String) → Option String
unfolding split_on
current_locale none = none
current_locale (some path) = supported (second (split_on b'/' path))

-- The page to which `redirectToLogin` goes, if there is a window.
unfoldable pub redirect_to_login : (path : Option String) → Option String
unfolding current_locale
redirect_to_login none = none
redirect_to_login (some path) =
    some ("/" <> (or_else (current_locale (some path)) "en" <> "/login"))

pub data Variant : Type 0 where
  error warning info : Variant

pub record ToastDetail : Type 0 where
  pub variant : Variant
  pub code : String

unfoldable pub emit_toast : (path : Option String) → ToastDetail → List ToastDetail
emit_toast none detail = []
emit_toast (some path) detail = detail ∷ []

abbrev pub when_some : (header : String) → Option String → Entries String
when_some header none = []
when_some header (some value) = (header, value) ∷ []

abbrev same_codes : List ℕ → List ℕ → Bool
same_codes [] [] = true
same_codes [] (d ∷ ds) = false
same_codes (c ∷ cs) [] = false
same_codes (c ∷ cs) (d ∷ ds) = c is d && same_codes cs ds

-- The methods that change nothing, in any case.
unfoldable pub is_safe_method : String → Bool
unfolding codes upper_code
is_safe_method method =
    let cs = map upper_code (codes method) in
    same_codes cs (codes "GET") || same_codes cs (codes "HEAD")

-- `onRequest`: the headers that it sets, in order.
module _ (decode : String → Result String) where
  abbrev csrf_header : (path : Option String) (cookie method : String) → Result (Entries String)
  csrf_header none cookie method = ok []
  csrf_header (some path) cookie method =
      if is_safe_method method
      then ok []
      else do token ← hook_token decode cookie; ok (when_some "X-CSRFToken" token)

  abbrev internal : (path : Option String) → Entries String
  internal none = ("X-Forwarded-Proto", "https") ∷ []
  internal (some path) = []

  unfoldable pub on_request :
      (path : Option String) (cookie method : String) → Result (Entries String)
  unfolding current_locale is_safe_method hook_token
  on_request path cookie method = do
    csrf ← csrf_header path cookie method
    ok (when_some "Accept-Language" (current_locale path) ++ internal path ++ csrf)

-- What the response hook does: the logger's request id, the page that the browser is sent to, the
-- toasts, and whether the error is reported.
pub record Hooked : Type 0 where
  pub logger : Logger
  pub assigned : Option String
  pub toasts : List ToastDetail
  pub is_reported : Bool

unfoldable pub is_session_probe : (url : String) → Bool
unfolding occurs codes
is_session_probe url = occurs (codes "/api/v1/auth/session/") (codes url)

unfoldable pub on_response :
    (path : Option String) (url : String) (status : ℕ) (header : Option String) → Logger → Hooked
unfolding capture_request_id is_session_probe redirect_to_login emit_toast
on_response path url status header logger =
    let quiet : Hooked = record {
      logger = capture_request_id header logger;
      assigned = none;
      toasts = [];
      is_reported = false;
    } in
    if status is 401
    then (if is_session_probe url
        then quiet
        else record quiet { assigned = redirect_to_login path })
    else if status is 403
    then record quiet {
      toasts = emit_toast path (record { variant = warning; code = "forbidden" });
    }
    else if leb 500 status
    then record quiet {
      toasts = emit_toast path (record { variant = error; code = "server_error" });
      is_reported = true;
    }
    else quiet
