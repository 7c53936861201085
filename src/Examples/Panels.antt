-- ===== src/Examples/Panels.antt =====
-- Runs of the search page, the listing form, the onboarding, the moderation page and the login form,
-- and the links of ten pages.
use jolarca.Common.{
  ◌≤◌, String, ◌≡◌, refl, true, false, ◌||◌, ◌⊎◌, inl, none, some, List, [], ◌∷◌, map, is_some,
  arith,
}
use jolarca.Common.Int.{pos}
use jolarca.Common.Record.{lookup}
use jolarca.Common.Lists.{All, any, length, pick}
use jolarca.Common.Text.{is_empty, trim}
use jolarca.Errors.{ok, network}
use jolarca.Http.{Call, settled, rejected}
use jolarca.Search.Query.{SearchQuery, empty_filters}
use jolarca.Search.Recent.{Stored}
use jolarca.Search.Answers.{SearchResults}
use jolarca.Search.Page
use jolarca.Search.Page.{SearchPage}
use jolarca.Search.Freshness.{is_current}
use jolarca.Search.PageRuns.{after_events_sound, settle-current}
use jolarca.Seller.Kyc.{File, review_step}
use jolarca.Seller.Listing
use jolarca.Seller.Listing.{max_listing_images}
use jolarca.Seller.Listing.Images.{times, unmount-after_events}
use jolarca.Seller.Listing.Limits.{images-le-max}
use jolarca.Seller.Business
use jolarca.Seller.Business.{BusinessInfo, Issue, invalid, first_form, business_field_errors}
use jolarca.Seller.Wizard
use jolarca.Seller.WizardEvents
use jolarca.Seller.Submissions.{IsChecked, sent-AreChecked}
use jolarca.Seller.FieldErrors.{first_error, business_field_errors-first}
use jolarca.Admin.Queues.{ListingQueueRow, manual}
use jolarca.Admin.Decisions.{reject_listing}
use jolarca.Admin.Moderation
use jolarca.Admin.Turns.{IsReasoned}
use jolarca.Admin.ModerationRuns.{after_events-orderly}
use jolarca.Catalog.Pages.{page, gap_start, gap_end, page_items}
use jolarca.Catalog.Links.{Reads, is_page, page_items-Reads}
use jolarca.Session.LoginForm
use jolarca.Session.Locks.{IsApart, attempts-AreApart}

abbrev typed : List (Page.Event String)
typed = Page.Event.type_text "tea" ∷ Page.Event.timer_ends ∷ []

abbrev searching : SearchPage String
searching = Page.after_events typed (Page.mount "" Stored.absent none)

abbrev tea_query : SearchQuery
tea_query = record { q = "tea"; page = 1; filters = empty_filters }

abbrev no_products : SearchResults String
no_products = record { products = []; page = pos 1; total_pages = pos 1; ranking = "" }

settle-current_example :
    (Page.settle 0 true (ok no_products) searching ≡ record searching { in_flight = [] })
    ⊎ ((tea_query ≡ searching.query)
        × (Page.settle 0 true (ok no_products) searching
            ≡ Page.accept true tea_query (ok no_products) (record searching { in_flight = [] })))
settle-current_example =
    settle-current typed "" Stored.absent none 0 true (ok no_products) 2 tea_query []
      (unfold Page.after_events Page.mount pick in refl)

after_events_sound_example :
    (is_empty (trim searching.query.q) ≡ true
      → (searching.status ≡ Page.Status.idle) × (searching.results ≡ none))
    × (searching.status ≡ Page.Status.loading
        → is_some searching.timer || any (is_current searching.request_id) searching.in_flight
          ≡ true)
    × (searching.status ≡ Page.Status.ready → is_some searching.results ≡ true)
    × (1 ≤ searching.query.page)
after_events_sound_example = after_events_sound typed "" Stored.absent none

-- Two photos are read, swapped, and the first is removed.
abbrev photo : String → File
photo name = record { name = name; type_ = "image/png"; size = 1000 }

abbrev photos : List (Listing.Event String)
photos =
    Listing.Event.drop_files (some (photo "a" ∷ photo "b" ∷ []))
    ∷ Listing.Event.converted 0 "1" (ok "data:a")
    ∷ Listing.Event.converted 0 "2" (ok "data:b")
    ∷ Listing.Event.move_left 1
    ∷ Listing.Event.removed 0
    ∷ []

shown_photos :
    map (λ image. image.data_url) (Listing.after_events photos Listing.initial).images
    ≡ "data:a" ∷ []
unfolding Listing.after_events
shown_photos = refl

unmount-after_events_example :
    times 1 (Listing.unmount (Listing.after_events photos Listing.initial)).revoked ≡ 1
unfolding Listing.after_events
unmount-after_events_example = unmount-after_events photos 1

images-le-max_example :
    length (Listing.after_events photos Listing.initial).images ≤ max_listing_images
images-le-max_example =
    images-le-max photos (unfold Listing.after_events in (refl, (tt, (tt, (tt, (tt, tt))))))

-- Two additions that overlap: the second is made while none of the first's files is read, and both
-- find room for their three.
abbrev three : List File
three = photo "a" ∷ photo "b" ∷ photo "c" ∷ []

abbrev overlapping : List (Listing.Event String)
overlapping =
    Listing.Event.drop_files (some three)
    ∷ Listing.Event.drop_files (some three)
    ∷ Listing.Event.converted 0 "1" (ok "data")
    ∷ Listing.Event.converted 0 "2" (ok "data")
    ∷ Listing.Event.converted 0 "3" (ok "data")
    ∷ Listing.Event.converted 0 "4" (ok "data")
    ∷ Listing.Event.converted 0 "5" (ok "data")
    ∷ Listing.Event.converted 0 "6" (ok "data")
    ∷ []

six_photos : length (Listing.after_events overlapping Listing.initial).images ≡ 6
unfolding Listing.after_events
six_photos = refl

-- A form that fits Lithuania, and a schema that takes every form as it is.
abbrev candle_maker : BusinessInfo
candle_maker = record (first_form none) { registration_number = "301234567" }

abbrev take_all : BusinessInfo → BusinessInfo ⊎ List Issue
take_all form = inl form

abbrev onboarding : List WizardEvents.Event
onboarding =
    WizardEvents.Event.type_field Business.FieldName.registration_number "301234567"
    ∷ WizardEvents.Event.submit_form
    ∷ WizardEvents.Event.step_to review_step
    ∷ WizardEvents.Event.review_submit
    ∷ []

sent_once :
    (WizardEvents.after_events take_all onboarding Wizard.initial).sent ≡ (candle_maker, none) ∷ []
unfolding WizardEvents.after_events
sent_once = refl

sent-AreChecked_example :
    All
      (λ request. IsChecked take_all request.0)
      (WizardEvents.after_events take_all onboarding Wizard.initial).sent
sent-AreChecked_example = sent-AreChecked take_all onboarding

-- A name with two issues, and a missing address.
abbrev schema_issues : List Issue
schema_issues =
    (record { code = "too_big"; field = some "legalName" })
    ∷ (record { code = "too_small"; field = some "address" })
    ∷ (record { code = "too_small"; field = some "legalName" })
    ∷ []

business_field_errors-first_example :
    lookup "legalName" (business_field_errors schema_issues) ≡ first_error "legalName" schema_issues
business_field_errors-first_example = business_field_errors-first "legalName" schema_issues

long_name_first : lookup "legalName" (business_field_errors schema_issues) ≡ some invalid
unfolding business_field_errors lookup
long_name_first = refl

abbrev row : ListingQueueRow
row = record {
  id = "7";
  title = "Candle";
  seller_name = "Ona";
  category = "—";
  flag_reason = "";
  flag_source = manual;
  status = "flagged";
  price = "3.00";
  description_html = "";
  image_urls = [];
}

-- A rejection is confirmed once its reason is typed, and not again while it waits.
abbrev moderation : List Moderation.Event
moderation =
    Moderation.Event.queue_answered 0 (ok (row ∷ []))
    ∷ Moderation.Event.choose reject_listing row
    ∷ Moderation.Event.confirm
    ∷ Moderation.Event.type_reason " broken "
    ∷ Moderation.Event.confirm
    ∷ Moderation.Event.confirm
    ∷ []

rejected_once :
    (Moderation.after_events moderation Moderation.initial).requested
    ≡ Moderation.Mutation.decide "7" reject_listing "broken" ∷ []
unfolding Moderation.after_events
rejected_once = refl

after_events-orderly_example :
    (length (Moderation.after_events moderation Moderation.initial).in_flight ≤ 1)
    × All IsReasoned (Moderation.after_events moderation Moderation.initial).requested
after_events-orderly_example = after_events-orderly moderation

ten_pages : page_items 5 10 ≡ page 1 ∷ gap_start ∷ page 4 ∷ page 5 ∷ page 6 ∷ gap_end ∷ page 10 ∷ []
unfolding page_items
ten_pages = refl

page_items-Reads_example :
    Reads false 1 10 (page_items 5 10)
    × (any (is_page 5) (page_items 5 10) ≡ true)
    × (length (page_items 5 10) ≤ 7)
page_items-Reads_example = page_items-Reads 5 10 (omega arith) (omega arith)

-- A failed login, a second submission at once, and one after five seconds.
abbrev visits : List LoginForm.Event
visits =
    LoginForm.Event.submit
    ∷ LoginForm.Event.answered "t" (rejected (network "offline" "t"))
        (rejected (network "offline" "t"))
    ∷ LoginForm.Event.submit
    ∷ LoginForm.Event.pass 5000
    ∷ LoginForm.Event.timer 0
    ∷ LoginForm.Event.submit
    ∷ []

abbrev visited : LoginForm.LoginForm
visited =
    LoginForm.after_events {User = String} (λ email. none) (λ password. none)
      (λ email password. none) (λ body. ok "ona") none visits (LoginForm.initial 100)

two_attempts : visited.attempts ≡ 5100 ∷ 100 ∷ []
unfolding LoginForm.after_events
two_attempts = refl

attempts-AreApart_example : All (λ attempt. All (IsApart attempt) visited.failures) visited.attempts
attempts-AreApart_example =
    attempts-AreApart {User = String} (λ email. none) (λ password. none) (λ email password. none)
      (λ body. ok "ona") none visits 100

-- A wrong password: the page is loaded anew, and takes the next attempt at once.
abbrev unauthorized : Call
unauthorized = settled (record {
  response = record { status = 401; status_text = "Unauthorized"; json = none };
  data_ = none;
  error = none;
})

abbrev guesses : List LoginForm.Event
guesses =
    LoginForm.Event.submit
    ∷ LoginForm.Event.answered "t" unauthorized unauthorized
    ∷ LoginForm.Event.submit
    ∷ []

not_locked :
    let s =
      LoginForm.after_events {User = String}
        (λ email. none)
        (λ password. none)
        (λ email password. none)
        (λ body. ok "ona")
        none
        guesses
        (LoginForm.initial 100) in
    (s.attempts ≡ 100 ∷ []) × (s.failures ≡ []) × (s.pending ≡ true)
unfolding LoginForm.after_events
not_locked = (refl, refl, refl)
