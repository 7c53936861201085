-- ===== src/Routing/Protection.antt =====
-- Which paths need a session: `stripLocaleSegment`, `isProtectedRoute`.
use Prim.Native.String.{String, [], ◌∷◌}
use mathlib.Core.List.{List, [] as nil, ◌∷◌ as ◌∷ᴸ◌}
use jolarca.Common.{◌+◌, Bool, ◌||◌, Option, none, some, ◌==◌, ◌<>◌}
use jolarca.Common.Lists.{any}
use jolarca.Common.Text.{after_code, before_code, length_of, slice_from, starts_with, has_prefix}
use jolarca.Routing.Locale.{Locale, supported_locale}

-- `pathname.split("/")[1]`
unfoldable pub first_segment : String → Option String
unfolding after_code before_code
first_segment pathname = elim (after_code b'/' pathname) [
  | none ↦ none
  | some rest ↦ some (before_code b'/' rest)
]

-- `s === "" ? "/" : s`
abbrev or_root : String → String
or_root [] = "/"
or_root (c ∷ s) = c ∷ s

abbrev strip_segment : String → String → Option Locale → String
strip_segment pathname segment none = pathname
strip_segment pathname segment (some l) = or_root (slice_from (length_of segment + 1) pathname)

-- "/lt/account" to "/account", and "/lt" to "/".
unfoldable pub strip_locale_segment : String → String
unfolding first_segment supported_locale slice_from length_of
strip_locale_segment pathname = elim (first_segment pathname) [
  | none ↦ pathname
  | some segment ↦ strip_segment pathname segment (supported_locale segment)
]

abbrev pub protected_routes : List String
protected_routes = "/account" ∷ᴸ "/seller" ∷ᴸ "/admin" ∷ᴸ "/checkout" ∷ᴸ nil

-- The route itself, or a path below it.
unfoldable pub is_under : String → String → Bool
unfolding has_prefix
is_under path route = path == route || starts_with path (route <> "/")

unfoldable pub is_protected_route : String → Bool
unfolding strip_locale_segment is_under
is_protected_route pathname =
    let path = strip_locale_segment pathname in any (is_under path) protected_routes
