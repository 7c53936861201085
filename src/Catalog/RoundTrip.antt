-- ===== src/Catalog/RoundTrip.antt =====
-- Whether the page reads back the filters that the panel of
-- frontend/src/components/client/category-filters.tsx pushed.
use jolarca.Common.{
  first_some-none, ℕ, String, ◌≡◌, refl, false, not, Option, none, some, List, [], ◌∷◌, arith, ◌is◌,
  ◌<>◌, ◌==◌, if◌then◌else◌, first_some,
}
use Prim.Native.String.{[] as end, ◌∷◌ as ◌∷ˢ◌}
use Prim.Native.Char.{code}
use jolarca.Common.Lists.{All, filter}
use text.Mathlib.TextLemmas.{cons-append, nil-append}
use jolarca.Common.Text.{is_empty, includes_code, split_on}
use jolarca.Common.Record.{Entries, lookup, lookup-insert}
use jolarca.Routing.Headers.{join}
use jolarca.Search.Query.{lookup-put_text, given, lookup-nil}
use jolarca.Catalog.{
  Sort, newest, price_asc, price_desc, by_name, filled, sellers_of, sort_of, or_value, put_sellers,
  put_sort, Panel, open_panel, navigate, parse_filters,
}

split_on-single : (n : ℕ) (s : String) → includes_code n s ≡ false → split_on n s ≡ s ∷ []
unfolding includes_code split_on
split_on-single n end h = refl
split_on-single n (c ∷ˢ s) h =
    let other : code c is n ≡ false = ground (arith, h) in
    rw (split_on-single n s (ground (arith, h)), other) refl

split_on-joined :
    (s t : String)
    → includes_code b',' s ≡ false
    → split_on b',' (s <> "," <> t) ≡ s ∷ split_on b',' t
unfolding includes_code split_on
split_on-joined end t h = rw (nil-append ("," <> t), cons-append _ "" t, nil-append t) refl
split_on-joined (c ∷ˢ s) t h =
    let other : code c is b',' ≡ false = ground (arith, h) in
    rw (cons-append c s ("," <> t)) (rw (split_on-joined s t (ground (arith, h)), other) refl)

-- A slug that travels in a list: neither empty nor with a comma.
abbrev pub IsSlug : String → Type 0
IsSlug slug = (is_empty slug ≡ false) × (includes_code b',' slug ≡ false)

split_on-join :
    (slug : String) (slugs : List String)
    → All IsSlug (slug ∷ slugs)
    → split_on b',' (join "," (slug ∷ slugs)) ≡ slug ∷ slugs
unfolding join
split_on-join slug [] ((full, plain), h) = split_on-single b',' slug plain
split_on-join slug (next ∷ slugs) ((full, plain), h) =
    rw (split_on-joined slug (join "," (next ∷ slugs)) plain, split_on-join next slugs h) refl

join-is_empty :
    (slug : String) (slugs : List String)
    → is_empty slug ≡ false
    → is_empty (join "," (slug ∷ slugs)) ≡ false
unfolding join
join-is_empty slug [] full = full
join-is_empty end (next ∷ slugs) full = absurd (cc)
join-is_empty (c ∷ˢ slug) (next ∷ slugs) full =
    rw (cons-append c slug ("," <> join "," (next ∷ slugs))) refl

filter-slugs :
    (slugs : List String) → All IsSlug slugs → filter (λ slug. not (is_empty slug)) slugs ≡ slugs
filter-slugs [] h = refl
filter-slugs (slug ∷ slugs) ((full, plain), h) = rw (full, filter-slugs slugs h) refl

-- What the panel pushes.
given_sellers : List String → Option String
given_sellers [] = none
given_sellers (slug ∷ slugs) = some (join "," (slug ∷ slugs))

given_sort : Sort → Option String
given_sort newest = none
given_sort price_asc = some "price_asc"
given_sort price_desc = some "price_desc"
given_sort by_name = some "name"

lookup-put_sellers :
    (j : String) (sellers : List String) (params : Entries String)
    → lookup j (put_sellers sellers params) ≡ (
        if "sellers" == j
        then first_some (given_sellers sellers) (lookup j params)
        else lookup j params)
unfolding put_sellers given_sellers
lookup-put_sellers j [] params = ground (arith)
lookup-put_sellers j (slug ∷ slugs) params = lookup-insert "sellers" j _ params

lookup-put_sort :
    (j : String) (sort : Sort) (params : Entries String)
    → lookup j (put_sort sort params)
      ≡ (if "sort" == j then first_some (given_sort sort) (lookup j params) else lookup j params)
unfolding put_sort given_sort
lookup-put_sort j newest params = ground (arith)
lookup-put_sort j price_asc params = lookup-insert "sort" j "price_asc" params
lookup-put_sort j price_desc params = lookup-insert "sort" j "price_desc" params
lookup-put_sort j by_name params = lookup-insert "sort" j "name" params

filled-given : (s : String) → or_value (filled (given s)) "" ≡ s
filled-given end = refl
filled-given (c ∷ˢ s) = refl

sellers_of-given :
    (sellers : List String)
    → All IsSlug sellers
    → or_value (sellers_of (given_sellers sellers)) [] ≡ sellers
unfolding given_sellers
sellers_of-given [] h = refl
sellers_of-given (slug ∷ slugs) ((full, plain), h) =
    rw
      (
        join-is_empty slug slugs full,
        split_on-join slug slugs ((full, plain), h),
        filter-slugs (slug ∷ slugs) ((full, plain), h),
      )
      refl

sort_of-given : (sort : Sort) → or_value (sort_of (given_sort sort)) newest ≡ sort
unfolding given_sort
sort_of-given newest = refl
sort_of-given price_asc = refl
sort_of-given price_desc = refl
sort_of-given by_name = refl

ruleset navigate_laws =
    (lookup-put_text, first_some-none, lookup-nil, lookup-put_sellers, lookup-put_sort)

-- What the page finds in the URL of a panel.
pushed :
    (panel : Panel)
    → (lookup "price_min" (navigate panel) ≡ given panel.price_min)
      × (lookup "price_max" (navigate panel) ≡ given panel.price_max)
      × (lookup "sellers" (navigate panel) ≡ given_sellers panel.sellers)
      × (lookup "sort" (navigate panel) ≡ given_sort panel.sort)
unfolding navigate
pushed panel = (simp navigate_laws, simp navigate_laws, simp navigate_laws, simp navigate_laws)

-- The page that opens at the URL which a panel pushes starts its own panel with the same prices,
-- sellers and order, if each chosen seller's slug is not empty and has no comma.
pub open_panel-navigate :
    (panel : Panel) → All IsSlug panel.sellers → open_panel (parse_filters (navigate panel)) ≡ panel
unfolding parse_filters
open_panel-navigate panel slugs =
    let (min, max, sellers, sort) = pushed panel in
    rw
      (
        min,
        max,
        sellers,
        sort,
        filled-given panel.price_min,
        filled-given panel.price_max,
        sellers_of-given panel.sellers slugs,
        sort_of-given panel.sort,
      )
      refl
