-- ===== src/Funeral.antt =====
-- frontend/src/lib/funeral.ts: the directory of funeral homes, and the consultation request. The zod
-- schema is a parameter; what it reports comes as a list of issues.
pub mod Issues
pub mod Consultation
pub mod Confirmed
use jolarca.Common.{
  String, ◌≡◌, refl, Bool, true, false, not, ◌&&◌, ◌||◌, Option, none, some, List, [], ◌∷◌, ◌++◌,
  ◌==◌, if◌then◌else◌, first_some,
}
use jolarca.Common.Int.{ℤ}
use jolarca.Common.Lists.{any}
use jolarca.Common.Record.{Entries}
use jolarca.Common.Text.{is_empty, or_text, or_undefined, trim}
use jolarca.Json.{Value, get, text?, text_or, number?, array_or_empty, texts}
use jolarca.Errors.{Result, ok, ◌>>=◌}
use jolarca.Http.{Call, checked, payload}
use jolarca.Rows.{fetch_rows, rows_at}

pub record DirectoryFilters : Type 0 where
  pub location : String
  pub service_type : String
  pub language : String

abbrev given : String → String → Entries String
given key value = if is_empty value then [] else (key, value) ∷ []

-- The query of the directory.
unfoldable pub directory_query : DirectoryFilters → Entries String
unfolding trim
directory_query filters =
    given "location" (trim filters.location)
    ++ given "service_type" filters.service_type
    ++ given "language" filters.language

pub record FuneralHome : Type 0 where
  pub slug : String
  pub name : String
  pub city : String
  pub region : String
  pub address : String
  pub phone : String
  pub email : String
  pub hours : String
  pub services : List String
  pub languages : List String
  pub photo : String
  pub photo_alt : String

-- `listOfStrings`
unfoldable pub list_of_strings : Value → List String
unfolding array_or_empty texts
list_of_strings value = texts (array_or_empty value)

-- The entry under its slug and name; the other members are texts, empty where they are missing.
abbrev home_of : (slug name : String) → Value → FuneralHome
home_of slug name h = record {
  slug = slug;
  name = name;
  city = text_or (get h "city") "";
  region = text_or (get h "region") "";
  address = text_or (get h "address") "";
  phone = text_or (get h "phone") "";
  email = text_or (get h "email") "";
  hours = text_or (get h "hours") "";
  services = list_of_strings (get h "services");
  languages = list_of_strings (get h "languages");
  photo = text_or (get h "photo_url") "";
  photo_alt = text_or (get h "photo_alt") "";
}

abbrev slugged : Option String → Value → Option FuneralHome
slugged none h = none
slugged (some slug) h = some (home_of slug (text_or (get h "name") "—") h)

unfoldable pub home_row : Value → Option FuneralHome
unfolding text? get text_or list_of_strings
home_row h = slugged (text? (get h "slug")) h

unfoldable pub fetch_funeral_directory : (fresh : String) → Call → Result (List FuneralHome)
unfolding fetch_rows home_row
fetch_funeral_directory fresh call = fetch_rows home_row fresh "results" call

pub record GalleryImage : Type 0 where
  pub url : String
  pub alt : String

pub record TeamMember : Type 0 where
  pub name : String
  pub role : String
  pub image_url : String

pub record FuneralReview : Type 0 where
  pub author : String
  pub text : String
  pub at : String

abbrev image_of : Option String → Value → Option GalleryImage
image_of none g = none
image_of (some url) g = some (record { url = url; alt = text_or (get g "alt") "" })

unfoldable pub gallery_row : Value → Option GalleryImage
unfolding text? get text_or
gallery_row g = image_of (text? (get g "url")) g

abbrev member_of : Option String → Value → Option TeamMember
member_of none m = none
member_of (some name) m = some (record {
  name = name;
  role = text_or (get m "role") "";
  image_url = text_or (get m "image_url") "";
})

unfoldable pub team_row : Value → Option TeamMember
unfolding text? get text_or
team_row m = member_of (text? (get m "name")) m

abbrev review_of : Option String → Value → Option FuneralReview
review_of none v = none
review_of (some text) v =
    some
      (record { author = text_or (get v "author") ""; text = text; at = text_or (get v "at") "" })

unfoldable pub review_row : Value → Option FuneralReview
unfolding text? get text_or
review_row v = review_of (text? (get v "text")) v

pub record FuneralHomeDetail : Type 0 where
  pub home : FuneralHome
  pub description : String
  pub gallery : List GalleryImage
  pub team : List TeamMember
  pub reviews : List FuneralReview
  pub latitude : Option ℤ
  pub longitude : Option ℤ

-- `fetchFuneralHome(slug)`; its numbers are whole here.
unfoldable pub fetch_funeral_home : (fresh slug : String) → Call → Result FuneralHomeDetail
unfolding checked payload get text_or number? list_of_strings rows_at gallery_row team_row
    review_row
fetch_funeral_home fresh slug call = do
  res ← checked fresh call
  let r = payload res
  gallery ← rows_at gallery_row "gallery" r
  team ← rows_at team_row "team" r
  reviews ← rows_at review_row "reviews" r
  ok (record {
    home =
        home_of (or_text (text_or (get r "slug") "") slug) (or_text (text_or (get r "name") "") "—")
          r;
    description = text_or (get r "description") "";
    gallery = gallery;
    team = team;
    reviews = reviews;
    latitude = number? (get r "latitude");
    longitude = number? (get r "longitude");
  })

pub record ConsultationDraft : Type 0 where
  pub name : String
  pub phone : Option String
  pub email : Option String
  pub preferred_contact : String
  pub service_type : Option String
  pub message : Option String

abbrev kept : String → Option String → Entries String
kept key none = []
kept key (some value) = given key value

-- The body of a consultation request, without the members that are undefined.
unfoldable pub consultation_body :
    ConsultationDraft → (provider_slug : Option String) → Entries String
consultation_body draft provider_slug =
    ("name", draft.name) ∷ kept "phone" draft.phone
    ++ kept "email" draft.email
    ++ ("preferred_contact", draft.preferred_contact) ∷ kept "service_type" draft.service_type
    ++ kept "message" draft.message
    ++ elim provider_slug [ none ↦ [] | some slug ↦ ("provider_slug", slug) ∷ [] ]

unfoldable pub submit_consultation_request : (fresh : String) → Call → Result (Unit {0})
unfolding checked
submit_consultation_request fresh call = do res ← checked fresh call; ok tt

-- The last refinement of `consultationSchema`: a way of contact is given.
abbrev is_not_blank : Option String → Bool
is_not_blank none = true
is_not_blank (some s) = not (is_empty s)

unfoldable pub has_contact : (phone email : Option String) → Bool
has_contact phone email = is_not_blank phone || is_not_blank email

-- An issue of zod: its message, and the first member of its path.
pub record Issue : Type 0 where
  pub message : String
  pub field : Option String

pub data ErrorWord : Type 0 where
  required invalid : ErrorWord

pub record ConsultationFieldErrors : Type 0 where
  pub name : Option ErrorWord
  pub phone : Option ErrorWord
  pub email : Option ErrorWord
  pub contact : Option ErrorWord

abbrev pub is_field : String → Issue → Bool
is_field name issue = elim issue.field [ none ↦ false | some field ↦ field == name ]

-- `out[field] ??= word`, if the test holds.
abbrev pub note : Bool → ErrorWord → Option ErrorWord → Option ErrorWord
note true word old = first_some old (some word)
note false word old = old

-- One turn of the loop.
unfoldable pub note_issue : Issue → ConsultationFieldErrors → ConsultationFieldErrors
note_issue issue out =
    if issue.message == "contact_required"
    then record out { contact = note true required out.contact }
    else record out {
      name = note (is_field "name" issue) required out.name;
      phone = note (is_field "phone" issue && not (issue.message == "too_small")) invalid out.phone;
      email = note (is_field "email" issue) invalid out.email;
    }

unfoldable pub note_issues : List Issue → ConsultationFieldErrors → ConsultationFieldErrors
unfolding note_issue
note_issues [] out = out
note_issues (issue ∷ issues) out = note_issues issues (note_issue issue out)

unfoldable pub consultation_field_errors : List Issue → ConsultationFieldErrors
unfolding note_issues
consultation_field_errors issues =
    note_issues issues (record { name = none; phone = none; email = none; contact = none })
