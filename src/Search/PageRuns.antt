-- ===== src/Search/PageRuns.antt =====
-- Runs of the search page of frontend/src/components/client/search/search-interface.tsx.
use mathlib.Core.Path.{subst}
use jolarca.Common.{
  ℕ, ◌≤◌, String, ◌≡◌, refl, Bool, true, false, ◌||◌, ◌⊎◌, inl, inr, Option, none, some, List, [],
  ◌∷◌, leb, ◌is◌, if-either, if-cases, arith, Bool-cases, is_some, or_else,
}
use jolarca.Common.Lists.{any, pick, ArePicked, pick-ArePicked}
use jolarca.Common.Text.{is_empty, trim}
use jolarca.Errors.{Result, ok, throw}
use jolarca.Search.Query.{empty_filters}
use jolarca.Search.Query.{SearchQuery}
use jolarca.Search.Recent.{Stored}
use jolarca.Search.Answers.{SearchResults, SlugName}
use jolarca.Search.Page.{
  Status, SearchPage, previous_page, next_page, accept, settle, shown_pages, is_empty_list,
  pages_of, turn_back, turn_on, settle_categories, Event, on_event, after_events, mount,
}
use jolarca.Search.Freshness.{
  is_current, IsFair, IsSound, ask-IsSound, set_text-IsSound, update_filter-IsSound,
  set_page-IsSound, elapse-IsSound, settle-IsSound,
}

-- Where the buttons stand there are two pages at least.
abbrev AreSeveral : Option ℕ → Type 0
AreSeveral none = Unit
AreSeveral (some total) = 2 ≤ total

module _ {Product : Type 0} where
  shown_pages-several :
      (status : Status) (results : Option (SearchResults Product))
      → AreSeveral (shown_pages status results)
  shown_pages-several Status.idle results = tt
  shown_pages-several Status.loading results = tt
  shown_pages-several Status.error results = tt
  shown_pages-several Status.ready none = tt
  shown_pages-several Status.ready (some results) =
      if-cases AreSeveral (is_empty_list results.products || leb (pages_of results.total_pages) 1)
        (λ e. tt) (λ several. ground (arith, several))

  turn_back-IsSound :
      (total : Option ℕ) (s : SearchPage Product) → IsSound s → IsSound (turn_back total s)
  turn_back-IsSound none s h = h
  turn_back-IsSound (some total) s h =
      if-either IsSound (leb s.query.page 1) h
        (set_page-IsSound (previous_page s.query.page) s (ground arith) h)

  turn_on-IsSound :
      (total : Option ℕ) (s : SearchPage Product)
      → AreSeveral total
      → IsSound s
      → IsSound (turn_on total s)
  turn_on-IsSound none s several h = h
  turn_on-IsSound (some total) s several h =
      if-either IsSound (leb total s.query.page) h
        (set_page-IsSound (next_page total s.query.page) s (ground (arith, several)) h)

  settle_categories-IsSound :
      (answer : Result (List SlugName)) (s : SearchPage Product)
      → IsSound s
      → IsSound (settle_categories answer s)
  settle_categories-IsSound (ok options) s h = record {
    timed = h.timed;
    fair = h.fair;
    quiet = h.quiet;
    waited = h.waited;
    shown = h.shown;
    paged = h.paged;
  }
  settle_categories-IsSound (throw e) s h = record {
    timed = h.timed;
    fair = h.fair;
    quiet = h.quiet;
    waited = h.waited;
    shown = h.shown;
    paged = h.paged;
  }

  on_event-IsSound :
      (event : Event Product) (s : SearchPage Product) → IsSound s → IsSound (on_event event s)
  unfolding on_event
  on_event-IsSound (Event.type_text value) s h = set_text-IsSound value s h
  on_event-IsSound (Event.choose name value) s h = update_filter-IsSound name value s h
  on_event-IsSound Event.to_previous s h = turn_back-IsSound (shown_pages s.status s.results) s h
  on_event-IsSound Event.to_next s h =
      turn_on-IsSound (shown_pages s.status s.results) s (shown_pages-several s.status s.results) h
  on_event-IsSound Event.timer_ends s h = elapse-IsSound s h
  on_event-IsSound (Event.answered n full answer) s h = settle-IsSound n full answer s h
  on_event-IsSound (Event.categories_answered answer) s h = settle_categories-IsSound answer s h

  after_events-keeps :
      (events : List (Event Product)) (s : SearchPage Product)
      → IsSound s
      → IsSound (after_events events s)
  unfolding after_events
  after_events-keeps [] s h = h
  after_events-keeps (event ∷ events) s h =
      after_events-keeps events (on_event event s) (on_event-IsSound event s h)

  mount-IsSound :
      (initial_query : String) (stored : Stored) (handoff : Option String)
      → IsSound (mount {Product = Product} initial_query stored handoff)
  unfolding mount
  mount-IsSound initial_query stored handoff =
      let first : SearchPage Product = record {
        query = record { q = ""; page = 1; filters = empty_filters };
        results = none;
        status = Status.idle;
        categories = [];
        categories_pending = false;
        request_id = 0;
        timer = none;
        in_flight = [];
        stored = stored;
        handoff = handoff;
      } in
      let asked =
        ask-IsSound (record { q = initial_query; page = 1; filters = empty_filters }) first
          (omega arith)
          (record {
            timed = tt;
            fair = tt;
            quiet = λ e. (refl, refl);
            waited = λ e. absurd (cc);
            shown = λ e. absurd (cc);
            paged = omega arith;
          }) in
      if-either IsSound (is_empty (or_else handoff "")) asked (
        set_text-IsSound (or_else handoff "") _ (record {
          timed = asked.timed;
          fair = asked.fair;
          quiet = asked.quiet;
          waited = asked.waited;
          shown = asked.shown;
          paged = asked.paged;
        }))

  -- Whatever the visitor types, filters and pages through, and in whatever order timers and answers
  -- come: over a blank query the page is idle and shows no results; a page that says that it loads
  -- has a timer running or the current request's answer outstanding; a page that says that it is
  -- ready has results; and the page number is one at least.
  pub after_events_sound :
      (events : List (Event Product)) (initial_query : String) (stored : Stored)
      (handoff : Option String)
      → let s = after_events events (mount initial_query stored handoff) in
        (is_empty (trim s.query.q) ≡ true → (s.status ≡ Status.idle) × (s.results ≡ none))
        × (s.status ≡ Status.loading
            → is_some s.timer || any (is_current s.request_id) s.in_flight ≡ true)
        × (s.status ≡ Status.ready → is_some s.results ≡ true)
        × (1 ≤ s.query.page)
  after_events_sound events initial_query stored handoff =
      let h =
        after_events-keeps events (mount initial_query stored handoff)
          (mount-IsSound initial_query stored handoff) in
      (h.quiet, h.waited, h.shown, h.paged)

  -- In any run, the answer to a request is only taken off the list of the outstanding ones, or it
  -- answers the query that stands in the fields, its page and filters included.
  pub settle-current :
      (events : List (Event Product)) (initial_query : String) (stored : Stored)
      (handoff : Option String) (n : ℕ) (full : Bool) (answer : Result (SearchResults Product))
      (id : ℕ) (query : SearchQuery) (others : List (ℕ × SearchQuery))
      → let s = after_events events (mount initial_query stored handoff) in
        pick n s.in_flight ≡ some ((id, query), others)
        → let s = after_events events (mount initial_query stored handoff) in
          (settle n full answer s ≡ record s { in_flight = others })
          ⊎ ((query ≡ s.query)
              × (settle n full answer s
                  ≡ accept full query answer (record s { in_flight = others })))
  unfolding settle
  settle-current events initial_query stored handoff n full answer id query others found =
      let s = after_events events (mount initial_query stored handoff) in
      let h =
        after_events-keeps events (mount initial_query stored handoff)
          (mount-IsSound initial_query stored handoff) in
      let ((old, current), fair) =
        subst (ArePicked (IsFair s.request_id s.query)) found
          (pick-ArePicked (IsFair s.request_id s.query) n s.in_flight h.fair) in
      elim (Bool-cases (s.request_id is id)) [
        | inl same ↦ inr ((current (ground (arith, same))).0, rw (found, settle) (rw same refl))
        | inr other ↦ inl (rw (found, settle) (rw other refl))
      ]
