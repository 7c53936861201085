-- ===== src/Routing/Locale.antt =====
-- Which locale a visitor gets: `isSupportedLocale`, `detectLocaleFromAcceptLanguage`,
-- `resolveLocale`.
use jolarca.Common.{
  ℕ, String, Bool, true, false, ◌&&◌, Option, none, some, List, [], ◌∷◌, map, ◌is◌, ◌==◌,
  if◌then◌else◌, or_else, first_some,
}
use jolarca.Common.Int.{ℤ, leb_ℤ}
use jolarca.Common.Lists.{find}
use jolarca.Common.Text.{trim, codes, lower_code, split_on, slice_from, is_empty}

pub data Locale : Type 0 where
  lt lv en : Locale

abbrev pub default_locale : Locale
default_locale = lt

abbrev pub locale_text : Locale → String
locale_text lt = "lt"
locale_text lv = "lv"
locale_text en = "en"

-- `isSupportedLocale`, with the locale that the text then is.
unfoldable pub supported_locale : String → Option Locale
supported_locale value =
    if value == "lt"
    then some lt
    else if value == "lv"
    then some lv
    else if value == "en"
    then some en
    else none

-- Two texts, given by their codes.
unfoldable pub same_codes : List ℕ → List ℕ → Bool
same_codes [] [] = true
same_codes (a ∷ as_) (b ∷ bs) = a is b && same_codes as_ bs
same_codes _ _ = false

-- The locale of a language tag, in any case: `isSupportedLocale(tag.toLowerCase())`.
unfoldable pub tag_locale : List ℕ → Option Locale
unfolding same_codes codes
tag_locale tag =
    if same_codes tag (codes "lt")
    then some lt
    else if same_codes tag (codes "lv")
    then some lv
    else if same_codes tag (codes "en")
    then some en
    else none

-- `tag.split("-")[0]`
unfoldable pub primary : List ℕ → List ℕ
primary [] = []
primary (c ∷ tag) = if c is b'-' then [] else c ∷ primary tag

unfoldable pub lower_codes : String → List ℕ
unfolding codes lower_code
lower_codes s = map lower_code (codes s)

abbrev starts_q : List ℕ → Bool
starts_q (a ∷ b ∷ rest) = a is b'q' && b is b'='
starts_q _ = false

-- `p.toLowerCase().startsWith("q=")`
unfoldable pub is_q_param : String → Bool
unfolding lower_codes
is_q_param p = starts_q (lower_codes p)

-- A language tag in lower case with its weight; `none` where the weight is no finite number.
pub record Entry : Type 0 where
  pub tag : List ℕ
  pub q : ℤ

-- `sort((a, b) => b.q - a.q)`, which is stable: an entry goes before those of a smaller weight.
unfoldable pub insert_entry : Entry → List Entry → List Entry
insert_entry e [] = e ∷ []
insert_entry e (f ∷ entries) = if leb_ℤ f.q e.q then e ∷ f ∷ entries else f ∷ insert_entry e entries

unfoldable pub sort_entries : List Entry → List Entry
unfolding insert_entry
sort_entries [] = []
sort_entries (e ∷ entries) = insert_entry e (sort_entries entries)

-- The locale that an entry asks for: of its tag, else of the tag's first part.
unfoldable pub entry_locale : Entry → Option Locale
unfolding tag_locale primary
entry_locale e = first_some (tag_locale e.tag) (tag_locale (primary e.tag))

-- The loop over the ranked entries.
unfoldable pub first_locale : List Entry → Option Locale
unfolding entry_locale
first_locale [] = none
first_locale (e ∷ entries) = first_some (entry_locale e) (first_locale entries)

-- `number` is `Number(…)` of a text on a fixed scale, `none` where it is not finite; `one` is 1 on
-- that scale.
module _ (number : String → Option ℤ) (one : ℤ) where
  unfoldable pub entry_of_parts : List String → Option Entry
  unfolding trim lower_codes is_q_param slice_from
  entry_of_parts [] = none
  entry_of_parts (raw_tag ∷ params) =
      let tag = lower_codes (trim raw_tag) in
      elim (find is_q_param (map trim params)) [
        | none ↦ some (record { tag = tag; q = one })
        | some param ↦ elim (number (slice_from 2 param)) [
          | none ↦ none
          | some q ↦ some (record { tag = tag; q = q })
        ]
      ]

  unfoldable pub entry_of : String → Option Entry
  unfolding trim split_on entry_of_parts
  entry_of entry = entry_of_parts (split_on b';' (trim entry))

  abbrev keep : Option Entry → List Entry → List Entry
  keep none entries = entries
  keep (some e) entries = e ∷ entries

  unfoldable pub entries_of : List String → List Entry
  unfolding entry_of
  entries_of [] = []
  entries_of (entry ∷ entries) = keep (entry_of entry) (entries_of entries)

  unfoldable pub detect_locale_from_accept_language : Option String → Option Locale
  unfolding entries_of sort_entries first_locale split_on
  detect_locale_from_accept_language none = none
  detect_locale_from_accept_language (some header) =
      if is_empty header
      then none
      else first_locale (sort_entries (entries_of (split_on b',' header)))

  -- A cookie's locale, else the header's, else the default.
  unfoldable pub resolve_locale : (cookie_locale accept_language : Option String) → Locale
  unfolding supported_locale detect_locale_from_accept_language
  resolve_locale cookie_locale accept_language =
      or_else
        (first_some (supported_locale (or_else cookie_locale ""))
          (detect_locale_from_accept_language accept_language))
        default_locale
