-- ===== src/Search/Query.antt =====
-- `buildSearchQuery`: only the fields that are not empty travel.
use jolarca.Common.{
  ℕ, String, ◌≡◌, refl, Option, none, some, [], ltb, arith, if◌then◌else◌, ◌==◌, Bool-cases, inl,
  inr, first_some, first_some-none,
}
use jolarca.Common.Text.{is_empty, trim, decimal}
use jolarca.Common.Record.{Entries, lookup, insert, lookup-insert}

pub record SearchFilters : Type 0 where
  pub category : String
  pub price_min : String
  pub price_max : String
  pub seller : String
  pub availability : String
  pub delivery : String

-- The page is a whole number; 0 and less count as the first.
pub record SearchQuery : Type 0 where
  pub q : String
  pub page : ℕ
  pub filters : SearchFilters

abbrev pub empty_filters : SearchFilters
empty_filters = record {
  category = "";
  price_min = "";
  price_max = "";
  seller = "";
  availability = "";
  delivery = "";
}

-- `if (value) params[key] = value`
unfoldable pub put_text : String → String → Entries String → Entries String
unfolding insert
put_text key value params = if is_empty value then params else insert key value params

unfoldable pub put_page : ℕ → Entries String → Entries String
unfolding insert decimal
put_page page params = if ltb 1 page then insert "page" (decimal page) params else params

unfoldable pub build_search_query : SearchQuery → Entries String
unfolding put_text put_page trim
build_search_query query =
    let f = query.filters in
    let params = put_page query.page (put_text "q" (trim query.q) []) in
    let params = put_text "category" f.category params in
    let params = put_text "price_min" f.price_min params in
    let params = put_text "price_max" f.price_max params in
    let params = put_text "seller" f.seller params in
    let params = put_text "availability" f.availability params in
    put_text "delivery" f.delivery params

-- A text that travels only if it is not empty.
abbrev pub given : String → Option String
given value = if is_empty value then none else some value

pub lookup-put_text :
    (j k value : String) (params : Entries String)
    → lookup j (put_text k value params)
      ≡ (if k == j then first_some (given value) (lookup j params) else lookup j params)
unfolding put_text
lookup-put_text j k value params = elim (Bool-cases (is_empty value)) [
  | inl empty ↦ rw empty (ground arith)
  | inr full ↦ rw full (lookup-insert k j value params)
]

abbrev pub given_page : ℕ → Option String
given_page page = if ltb 1 page then some (decimal page) else none

lookup-put_page :
    (j : String) (page : ℕ) (params : Entries String)
    → lookup j (put_page page params)
      ≡ (if "page" == j then first_some (given_page page) (lookup j params) else lookup j params)
unfolding put_page
lookup-put_page j page params = elim (Bool-cases (ltb 1 page)) [
  | inl later ↦ rw later (lookup-insert "page" j (decimal page) params)
  | inr first ↦ rw first (ground arith)
]

pub lookup-nil : (j : String) → lookup {V = String} j [] ≡ none
unfolding lookup
lookup-nil j = refl

ruleset put_laws = (lookup-put_text, lookup-put_page, first_some-none, lookup-nil)

-- Each parameter of the query is the field it is named for, trimmed in the case of the query text,
-- and is there exactly if that is not empty; the page is there exactly from 2 on.
pub build_search_query-fields :
    (query : SearchQuery)
    → let params = build_search_query query in
      (lookup "q" params ≡ given (trim query.q))
      × (lookup "page" params ≡ given_page query.page)
      × (lookup "category" params ≡ given query.filters.category)
      × (lookup "price_min" params ≡ given query.filters.price_min)
      × (lookup "price_max" params ≡ given query.filters.price_max)
      × (lookup "seller" params ≡ given query.filters.seller)
      × (lookup "availability" params ≡ given query.filters.availability)
      × (lookup "delivery" params ≡ given query.filters.delivery)
unfolding build_search_query
build_search_query-fields query = (
  simp put_laws,
  simp put_laws,
  simp put_laws,
  simp put_laws,
  simp put_laws,
  simp put_laws,
  simp put_laws,
  simp put_laws,
)
