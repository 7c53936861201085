-- ===== src/Search/Answers.antt =====
-- `fetchSearch` and `fetchSuggestions`, each from the call's outcome to its value or the error it
-- throws. `product` is `ProductSchema.safeParse`, `none` where it fails.
use jolarca.Common.{String, Option, none, some, List, [], ◌∷◌, map, if◌then◌else◌}
use jolarca.Common.Int.{ℤ, pos}
use jolarca.Common.Lists.{present}
use jolarca.Common.Record.{Entries}
use jolarca.Common.Text.{trim, is_empty}
use jolarca.Json.{Value, get, text?, text_or, number_or, array_or_empty}
use jolarca.Errors.{Result, ok, ◌>>=◌}
use jolarca.Http.{Call, checked, payload}
use jolarca.Rows.{rows_at}

-- A category or a seller.
pub record SlugName : Type 0 where
  pub slug : String
  pub name : String

abbrev slug_name_of : Option String → Option String → Option SlugName
slug_name_of none name = none
slug_name_of (some slug) none = none
slug_name_of (some slug) (some name) = some (record { slug = slug; name = name })

unfoldable pub slug_name : Value → Option SlugName
unfolding get text?
slug_name item = slug_name_of (text? (get item "slug")) (text? (get item "name"))

-- The parameters of the request for suggestions.
unfoldable pub suggest_query : String → Entries String
unfolding trim
suggest_query q = if is_empty (trim q) then [] else ("q", trim q) ∷ []

module _ {ℓ} (P : Type ℓ) where
  pub record SearchResults : Type ℓ where
    pub products : List P
    pub page : ℤ
    pub total_pages : ℤ
    pub ranking : String

  pub record SearchSuggestions : Type ℓ where
    pub categories : List SlugName
    pub products : List P
    pub sellers : List SlugName

module _ {ℓ} {P : Type ℓ} (product : Value → Option P) where
  -- The entries that parse, in order; a null entry is only handed to the schema.
  unfoldable pub products_at : String → Value → List P
  unfolding array_or_empty get
  products_at key r = present (map product (array_or_empty (get r key)))

  unfoldable pub fetch_search : (fresh : String) (page : ℤ) → Call → Result (SearchResults P)
  unfolding checked payload products_at number_or text_or get
  fetch_search fresh page call = do
    res ← checked fresh call
    let r = payload res
    ok (record {
      products = products_at "results" r;
      page = number_or (get r "page") page;
      total_pages = number_or (get r "total_pages") (pos 1);
      ranking = text_or (get r "ranking") "";
    })

  unfoldable pub fetch_suggestions : (fresh : String) → Call → Result (SearchSuggestions P)
  unfolding checked payload products_at rows_at slug_name
  fetch_suggestions fresh call = do
    res ← checked fresh call
    let r = payload res
    categories ← rows_at slug_name "categories" r
    sellers ← rows_at slug_name "sellers" r
    ok (record { categories = categories; products = products_at "products" r; sellers = sellers })
