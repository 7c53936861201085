-- ===== src/Search/Page.antt =====
-- The search page, frontend/src/components/client/search/search-interface.tsx: its state, its effects
-- and handlers, and what its timer and the answers do.
use jolarca.Common.{
  ℕ, suc, ◌-◌, ◌+◌, String, Bool, true, false, ◌&&◌, ◌||◌, Option, none, some, List, [], ◌∷◌, ◌++◌,
  ltb, leb, ◌is◌, ◌==◌, if◌then◌else◌, or_else,
}
use jolarca.Common.Int.{ℤ, pos, negsuc}
use jolarca.Common.Lists.{pick}
use jolarca.Common.Text.{is_empty, trim}
use jolarca.Errors.{Result, ok, throw}
use jolarca.Search.Query.{SearchFilters, SearchQuery, empty_filters}
use jolarca.Search.Recent.{Stored, write_recent_search}
use jolarca.Search.Answers.{SearchResults, SlugName}

pub data Status : Type 0 where
  idle loading ready error : Status

pub data FilterName : Type 0 where
  category price_min price_max seller availability delivery : FilterName

abbrev pub fallback_categories : List SlugName
fallback_categories =
    (record { slug = "candles"; name = "Candles" })
    ∷ (record { slug = "rosaries"; name = "Rosaries" })
    ∷ (record { slug = "icons"; name = "Icons" })
    ∷ []

-- `browseCategories`
abbrev pub browse_categories : List SlugName → List SlugName
browse_categories [] = fallback_categories
browse_categories (first ∷ others) = first ∷ others

-- `{ ...current, [name]: value }`
abbrev pub with_filter : FilterName → String → SearchFilters → SearchFilters
with_filter category value f = record f { category = value }
with_filter price_min value f = record f { price_min = value }
with_filter price_max value f = record f { price_max = value }
with_filter seller value f = record f { seller = value }
with_filter availability value f = record f { availability = value }
with_filter delivery value f = record f { delivery = value }

-- `Math.max(1, p - 1)` and `Math.min(totalPages, p + 1)`.
abbrev pub previous_page : ℕ → ℕ
previous_page page = if ltb 1 (page - 1) then page - 1 else 1

abbrev pub next_page : (total_pages page : ℕ) → ℕ
next_page total_pages page = if leb (page + 1) total_pages then page + 1 else total_pages

-- `results.totalPages`, where the buttons stand: only there are the pages more than one.
abbrev pub pages_of : ℤ → ℕ
pages_of (pos n) = n
pages_of (negsuc n) = 0

abbrev pub is_empty_list {ℓ} : {A : Type ℓ} → List A → Bool
is_empty_list [] = true
is_empty_list (x ∷ xs) = false

module _ (Product : Type 0) where
  -- The component's state and refs, with the timer that waits and the requests whose answer is
  -- outstanding, each with its id and its query, the storage of the recent searches, and the query
  -- that the palette left in the session's storage.
  pub record SearchPage : Type 0 where
    pub query : SearchQuery
    pub results : Option (SearchResults Product)
    pub status : Status
    pub categories : List SlugName
    pub categories_pending : Bool
    pub request_id : ℕ
    pub timer : Option (ℕ × SearchQuery)
    pub in_flight : List (ℕ × SearchQuery)
    pub stored : Stored
    pub handoff : Option String

  -- The visitor's input, the timer and the answers; `full` is whether the write of the recent
  -- searches throws.
  pub data Event : Type 0 where
    type_text : String → Event
    choose : FilterName → String → Event
    to_previous to_next timer_ends : Event
    answered : ℕ → (full : Bool) → Result (SearchResults Product) → Event
    categories_answered : Result (List SlugName) → Event

module _ {Product : Type 0} where
  -- The effect on the query, its page and its filters. A blank query is idle.
  unfoldable pub ask : SearchPage Product → SearchPage Product
  unfolding trim
  ask s =
      let id = suc s.request_id in
      if is_empty (trim s.query.q)
      then record s { request_id = id; timer = none; status = idle; results = none }
      else record s { request_id = id; timer = some (id, s.query); status = loading }

  -- `setQ(value); setPage(1)`
  unfoldable pub set_text : String → SearchPage Product → SearchPage Product
  unfolding ask
  set_text value s =
      if s.query.q == value && (s.query.page is 1)
      then s
      else ask (record s { query = record { q = value; page = 1; filters = s.query.filters } })

  unfoldable pub update_filter : FilterName → String → SearchPage Product → SearchPage Product
  unfolding ask
  update_filter name value s = ask (record s {
    query = record { q = s.query.q; page = 1; filters = with_filter name value s.query.filters };
  })

  unfoldable pub set_page : ℕ → SearchPage Product → SearchPage Product
  unfolding ask
  set_page page s =
      if page is s.query.page then s else ask (record s { query = record s.query { page = page } })

  abbrev pub send : Option (ℕ × SearchQuery) → SearchPage Product → SearchPage Product
  send none s = s
  send (some request) s = record s { timer = none; in_flight = s.in_flight ++ request ∷ [] }

  -- The timer's end: `fetchSearch({ q, page, filters })` is called.
  unfoldable pub elapse : SearchPage Product → SearchPage Product
  elapse s = send s.timer s

  -- The answer to the latest request; only a text that is not blank is remembered.
  abbrev pub accept :
      (full : Bool)
      → SearchQuery
      → Result (SearchResults Product)
      → SearchPage Product
      → SearchPage Product
  accept full query (ok results) s = record s {
    results = some results;
    status = ready;
    stored =
        if is_empty (trim query.q) then s.stored else write_recent_search full query.q s.stored;
  }
  accept full query (throw e) s = record s { status = error }

  -- The answer to a request: only the latest request's is read.
  unfoldable pub settle :
      ℕ → (full : Bool) → Result (SearchResults Product) → SearchPage Product → SearchPage Product
  unfolding pick trim write_recent_search
  settle n full answer s = elim (pick n s.in_flight) [
    | none ↦ s
    | some ((id, query), others) ↦
        let answered = record s { in_flight = others } in
        if s.request_id is id then accept full query answer answered else answered
  ]

  -- Whether the pages' buttons stand, and how many pages there are.
  abbrev pub shown_pages : Status → Option (SearchResults Product) → Option ℕ
  shown_pages ready (some results) =
      if (is_empty_list results.products) || leb (pages_of results.total_pages) 1
      then none
      else some (pages_of results.total_pages)
  shown_pages _ _ = none

  abbrev pub turn_back : Option ℕ → SearchPage Product → SearchPage Product
  turn_back none s = s
  turn_back (some total) s =
      if leb s.query.page 1 then s else set_page (previous_page s.query.page) s

  abbrev pub turn_on : Option ℕ → SearchPage Product → SearchPage Product
  turn_on none s = s
  turn_on (some total) s =
      if leb total s.query.page then s else set_page (next_page total s.query.page) s

  abbrev pub settle_categories : Result (List SlugName) → SearchPage Product → SearchPage Product
  settle_categories (ok options) s = record s { categories = options }
  settle_categories (throw e) s = record s { categories_pending = true }

  unfoldable pub on_event : Event Product → SearchPage Product → SearchPage Product
  unfolding set_text update_filter set_page elapse settle
  on_event (Event.type_text value) s = set_text value s
  on_event (Event.choose name value) s = update_filter name value s
  on_event Event.to_previous s = turn_back (shown_pages s.status s.results) s
  on_event Event.to_next s = turn_on (shown_pages s.status s.results) s
  on_event Event.timer_ends s = elapse s
  on_event (Event.answered n full answer) s = settle n full answer s
  on_event (Event.categories_answered answer) s = settle_categories answer s

  unfoldable pub after_events : List (Event Product) → SearchPage Product → SearchPage Product
  unfolding on_event
  after_events [] s = s
  after_events (event ∷ events) s = after_events events (on_event event s)

  abbrev pub take_handoff : String → SearchPage Product → SearchPage Product
  take_handoff handoff s =
      if is_empty handoff then s else set_text handoff (record s { handoff = none })

  -- The first render's effects: the query that the palette handed over is taken, if one is there and
  -- can be read.
  unfoldable pub mount : (initial_query : String) → Stored → Option String → SearchPage Product
  unfolding ask set_text
  mount initial_query stored handoff = take_handoff (or_else handoff "") (
      ask (record {
        query = record { q = initial_query; page = 1; filters = empty_filters };
        results = none;
        status = idle;
        categories = [];
        categories_pending = false;
        request_id = 0;
        timer = none;
        in_flight = [];
        stored = stored;
        handoff = handoff;
      }))
