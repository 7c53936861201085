-- ===== src/Catalog.antt =====
-- The filters of a category: frontend/src/components/client/category-filters.tsx, which pushes them
-- into the URL, frontend/src/app/[locale]/c/[category]/[slug]/page.tsx, which reads them there, and
-- frontend/src/server/catalog.ts, which asks the backend with them. The URL is the entries of its
-- query.
pub mod RoundTrip
pub mod Pages
pub mod Links
use jolarca.Common.{
  ℕ, String, Bool, true, false, not, ◌||◌, Option, none, some, List, [], ◌∷◌, ◌++◌, ◌==◌,
  if◌then◌else◌,
}
use jolarca.Common.Lists.{filter}
use jolarca.Common.Text.{is_empty, or_undefined, split_on, decimal}
use jolarca.Common.Record.{Entries, lookup, insert}
use jolarca.Routing.Headers.{join}
use jolarca.Search.Query.{put_text}

pub data Sort : Type 0 where
  newest price_asc price_desc by_name : Sort

-- `CategoryFilters` of the data layer.
pub record Filters : Type 0 where
  pub price_min : Option String
  pub price_max : Option String
  pub sellers : Option (List String)
  pub sort : Option Sort

-- `SORTS.includes(sp.sort) ? sp.sort : undefined`
abbrev pub known_sort : String → Option Sort
known_sort text =
    if text == "newest"
    then some newest
    else if text == "price_asc"
    then some price_asc
    else if text == "price_desc"
    then some price_desc
    else if text == "name"
    then some by_name
    else none

abbrev pub sort_of : Option String → Option Sort
sort_of none = none
sort_of (some text) = known_sort text

-- `text || undefined`
abbrev pub filled : Option String → Option String
filled none = none
filled (some text) = or_undefined text

-- `sellers ? sellers.split(",").filter(Boolean) : undefined`
abbrev pub sellers_of : Option String → Option (List String)
sellers_of none = none
sellers_of (some text) =
    if is_empty text then none else some (filter (λ slug. not (is_empty slug)) (split_on b',' text))

unfoldable pub parse_filters : Entries String → Filters
unfolding lookup split_on
parse_filters params = record {
  price_min = filled (lookup "price_min" params);
  price_max = filled (lookup "price_max" params);
  sellers = sellers_of (lookup "sellers" params);
  sort = sort_of (lookup "sort" params);
}

-- `if (sellers.length > 0) params.set("sellers", sellers.join(","))`
unfoldable pub put_sellers : List String → Entries String → Entries String
unfolding insert join
put_sellers [] params = params
put_sellers (slug ∷ slugs) params = insert "sellers" (join "," (slug ∷ slugs)) params

-- `if (sort !== "newest") params.set("sort", sort)`
unfoldable pub put_sort : Sort → Entries String → Entries String
unfolding insert
put_sort newest params = params
put_sort price_asc params = insert "sort" "price_asc" params
put_sort price_desc params = insert "sort" "price_desc" params
put_sort by_name params = insert "sort" "name" params

-- The state of the panel, and what it starts with.
pub record Panel : Type 0 where
  pub price_min : String
  pub price_max : String
  pub sellers : List String
  pub sort : Sort

abbrev pub or_value {ℓ} : {A : Type ℓ} → Option A → A → A
or_value none default = default
or_value (some a) default = a

abbrev pub open_panel : Filters → Panel
open_panel initial = record {
  price_min = or_value initial.price_min "";
  price_max = or_value initial.price_max "";
  sellers = or_value initial.sellers [];
  sort = or_value initial.sort newest;
}

-- `navigate`: the query of the URL that is pushed.
unfoldable pub navigate : Panel → Entries String
unfolding put_text put_sellers put_sort
navigate next =
    let params = put_text "price_min" next.price_min [] in
    let params = put_text "price_max" next.price_max params in
    let params = put_sellers next.sellers params in put_sort next.sort params

unfoldable pub includes : List String → String → Bool
includes [] slug = false
includes (seller ∷ sellers) slug = seller == slug || includes sellers slug

-- `toggleSeller` and `changeSort`: the panel, and the query that is pushed.
unfoldable pub toggle_seller : String → Panel → Panel × Entries String
unfolding includes navigate
toggle_seller slug s =
    let sellers =
      if includes s.sellers slug
      then filter (λ seller. not (seller == slug)) s.sellers
      else s.sellers ++ slug ∷ [] in
    let next = record s { sellers = sellers } in (next, navigate next)

unfoldable pub change_sort : Sort → Panel → Panel × Entries String
unfolding navigate
change_sort value s = let next = record s { sort = value } in (next, navigate next)

abbrev pub page_size : ℕ
page_size = 24

abbrev pub put_filled : String → Option String → Entries String → Entries String
put_filled key none params = params
put_filled key (some value) params = put_text key value params

abbrev pub put_sellers_of : Option (List String) → Entries String → Entries String
put_sellers_of none params = params
put_sellers_of (some sellers) params = put_sellers sellers params

abbrev pub put_sort_of : Option Sort → Entries String → Entries String
put_sort_of none params = params
put_sort_of (some sort) params = put_sort sort params

-- The query of `cachedCategoryProducts`; numbers travel as texts.
unfoldable pub category_query : ℕ → Filters → Entries String
unfolding decimal put_text put_sellers put_sort
category_query page filters =
    let params = ("page", decimal page) ∷ ("page_size", decimal page_size) ∷ [] in
    let params = put_filled "price_min" filters.price_min params in
    let params = put_filled "price_max" filters.price_max params in
    let params = put_sellers_of filters.sellers params in put_sort_of filters.sort params
