-- ===== src/Search/Freshness.antt =====
-- What the search page of frontend/src/components/client/search/search-interface.tsx shows, whatever
-- the visitor types and in whatever order the answers come.
use mathlib.Core.Path.{subst}
use jolarca.Common.{
  ℕ, zero, suc, ◌≤◌, String, ◌≡◌, refl, Bool, true, false, ◌&&◌, ◌||◌, inl, inr, Option, none, some,
  List, [], ◌∷◌, ◌++◌, ◌is◌, ◌==◌, if-either, if-cases, arith, Option-cases, is_some,
}
use jolarca.Common.Lists.{All, any, pick, All-append, ArePicked, pick-ArePicked}
use jolarca.Common.Text.{is_empty, trim}
use jolarca.Errors.{Result, ok, throw}
use jolarca.Search.Query.{SearchQuery}
use jolarca.Search.Answers.{SearchResults}
use jolarca.Search.Page.{
  Status, SearchPage, FilterName, with_filter, ask, set_text, update_filter, set_page, send, elapse,
  accept, settle,
}

abbrev pub is_current : ℕ → ℕ × SearchQuery → Bool
is_current latest (id, query) = latest is id

-- A request is an earlier one, or for the query that stands, which is not blank.
abbrev pub IsFair : ℕ → SearchQuery → ℕ × SearchQuery → Type 0
IsFair latest query (id, asked) =
    (id ≤ latest) × (latest ≡ id → (asked ≡ query) × (is_empty (trim query.q) ≡ false))

abbrev pub IsTimed : ℕ → SearchQuery → Option (ℕ × SearchQuery) → Type 0
IsTimed latest query none = Unit
IsTimed latest query (some (id, asked)) =
    (id ≡ latest) × (asked ≡ query) × (is_empty (trim query.q) ≡ false)

-- The removal of a member leaves what the others have.
any-pick {ℓ} :
    {A : Type ℓ} (p : A → Bool) (n : ℕ) (xs : List A) (x : A) (others : List A)
    → pick n xs ≡ some (x, others)
    → any p xs ≡ (p x || any p others)
unfolding pick
any-pick p n [] x others e = absurd (cc)
any-pick p zero (y ∷ ys) x others e = ground (arith, e)
any-pick p (suc n) (y ∷ ys) x others e = elim (Option-cases (pick n ys)) [
  | inl missing ↦ ground (arith, e, missing)
  | inr ((found, rest), f) ↦ ground (arith, e, f, any-pick p n ys found rest f)
]

any-append {ℓ} :
    {A : Type ℓ} (p : A → Bool) (xs : List A) (x : A) → p x ≡ true → any p (xs ++ x ∷ []) ≡ true
any-append p [] x h = ground (arith, h)
any-append p (y ∷ ys) x h = ground (arith, any-append p ys x h)

-- Under the next id every request is an earlier one.
older-fair :
    (latest : ℕ) (query next : SearchQuery) (xs : List (ℕ × SearchQuery))
    → All (IsFair latest query) xs
    → All (IsFair (suc latest) next) xs
older-fair latest query next [] h = tt
older-fair latest query next ((id, asked) ∷ xs) ((old, current), h) =
    ((omega (arith, old), λ e. absurd (omega (arith, old, e))), older-fair latest query next xs h)

module _ {Product : Type 0} where
  pub record IsSound (s : SearchPage Product) : Type 0 where
    pub timed : IsTimed s.request_id s.query s.timer
    pub fair : All (IsFair s.request_id s.query) s.in_flight
    pub quiet : is_empty (trim s.query.q) ≡ true → (s.status ≡ Status.idle) × (s.results ≡ none)
    pub waited :
        s.status ≡ Status.loading
        → is_some s.timer || any (is_current s.request_id) s.in_flight ≡ true
    pub shown : s.status ≡ Status.ready → is_some s.results ≡ true
    pub paged : 1 ≤ s.query.page

  -- Under a new query, the effect restores what holds.
  pub ask-IsSound :
      (query : SearchQuery) (s : SearchPage Product)
      → 1 ≤ query.page
      → IsSound s
      → IsSound (ask (record s { query = query }))
  unfolding ask
  ask-IsSound query s page h =
      if-cases IsSound (is_empty (trim query.q))
        (λ blank. record {
          timed = tt;
          fair = older-fair s.request_id s.query query s.in_flight h.fair;
          quiet = λ e. (refl, refl);
          waited = λ e. absurd (cc);
          shown = λ e. absurd (cc);
          paged = page;
        })
        (λ text. record {
          timed = (refl, refl, text);
          fair = older-fair s.request_id s.query query s.in_flight h.fair;
          quiet = λ e. absurd (cc);
          waited = λ e. refl;
          shown = λ e. absurd (cc);
          paged = page;
        })

  pub set_text-IsSound :
      (value : String) (s : SearchPage Product) → IsSound s → IsSound (set_text value s)
  unfolding set_text
  set_text-IsSound value s h =
      if-either IsSound (s.query.q == value && (s.query.page is 1)) h
        (ask-IsSound (record { q = value; page = 1; filters = s.query.filters }) s (omega arith) h)

  pub update_filter-IsSound :
      (name : FilterName) (value : String) (s : SearchPage Product)
      → IsSound s
      → IsSound (update_filter name value s)
  unfolding update_filter
  update_filter-IsSound name value s h =
      ask-IsSound
        (record { q = s.query.q; page = 1; filters = with_filter name value s.query.filters }) s
        (omega arith) h

  pub set_page-IsSound :
      (page : ℕ) (s : SearchPage Product) → 1 ≤ page → IsSound s → IsSound (set_page page s)
  unfolding set_page
  set_page-IsSound page s positive h =
      if-either IsSound (page is s.query.page) h
        (ask-IsSound (record s.query { page = page }) s positive h)

  send-IsSound :
      (timer : Option (ℕ × SearchQuery)) (s : SearchPage Product)
      → s.timer ≡ timer
      → IsSound s
      → IsSound (send timer s)
  send-IsSound none s e h = h
  send-IsSound (some (id, asked)) s e h =
      let (latest, same, text) = subst (IsTimed s.request_id s.query) e h.timed in
      record {
        timed = tt;
        fair =
            All-append (IsFair s.request_id s.query) s.in_flight ((id, asked) ∷ []) h.fair
              ((omega (arith, latest), λ e. (same, text)), tt);
        quiet = h.quiet;
        waited = λ e.
            any-append (is_current s.request_id) s.in_flight (id, asked) (ground (arith, latest));
        shown = h.shown;
        paged = h.paged;
      }

  pub elapse-IsSound : (s : SearchPage Product) → IsSound s → IsSound (elapse s)
  unfolding elapse
  elapse-IsSound s h = send-IsSound s.timer s refl h

  -- The answer to the current request.
  accept-IsSound :
      (full : Bool) (query : SearchQuery) (answer : Result (SearchResults Product))
      (s : SearchPage Product)
      → is_empty (trim s.query.q) ≡ false
      → IsTimed s.request_id s.query s.timer
      → All (IsFair s.request_id s.query) s.in_flight
      → (s.status ≡ Status.ready → is_some s.results ≡ true)
      → 1 ≤ s.query.page
      → IsSound (accept full query answer s)
  accept-IsSound full query (ok results) s text timed fair shown paged = record {
    timed = timed;
    fair = fair;
    quiet = λ blank. absurd (cc);
    waited = λ e. absurd (cc);
    shown = λ e. refl;
    paged = paged;
  }
  accept-IsSound full query (throw e) s text timed fair shown paged = record {
    timed = timed;
    fair = fair;
    quiet = λ blank. absurd (cc);
    waited = λ e. absurd (cc);
    shown = λ e. absurd (cc);
    paged = paged;
  }

  pub settle-IsSound :
      (n : ℕ) (full : Bool) (answer : Result (SearchResults Product)) (s : SearchPage Product)
      → IsSound s
      → IsSound (settle n full answer s)
  unfolding settle
  settle-IsSound n full answer s h = elim (Option-cases (pick n s.in_flight)) [
    | inl missing ↦ rw (missing, settle) h
    | inr (((id, query), others), found) ↦
        let ((old, current), fair) =
          subst (ArePicked (IsFair s.request_id s.query)) found
            (pick-ArePicked (IsFair s.request_id s.query) n s.in_flight h.fair) in
        rw (found, settle)
          (if-cases IsSound (s.request_id is id)
            (λ same.
              accept-IsSound full query answer (record s { in_flight = others })
                (current (ground (arith, same))).1 h.timed fair h.shown h.paged)
            (λ other. record {
              timed = h.timed;
              fair = fair;
              quiet = h.quiet;
              waited = λ e. ground (
                arith,
                h.waited e,
                other,
                any-pick (is_current s.request_id) n s.in_flight (id, query) others found,
              );
              shown = h.shown;
              paged = h.paged;
            }))
  ]
