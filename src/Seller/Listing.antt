-- ===== src/Seller/Listing.antt =====
-- The form for a listing, frontend/src/components/client/seller/listing-form.tsx: its images, its
-- pickers and its submission. Object URLs are numbered in the order of their creation. What the
-- schema makes of the fields is given with the event that submits them.
pub mod Images
pub mod Moves
pub mod Limits
use jolarca.Common.{
  ℕ, zero, suc, ◌-◌, String, ◌<>◌, Bool, true, false, not, ◌&&◌, ◌||◌, ◌⊎◌, inl, inr, Option, none,
  some, List, [], ◌∷◌, ◌++◌, map, ltb, leb, ◌is◌, if◌then◌else◌,
}
use jolarca.Common.Int.{ℤ, pos, negsuc}
use jolarca.Common.Lists.{length, take, any, pick}
use jolarca.Common.Text.{starts_with, has_prefix}
use jolarca.Errors.{Result, ok, throw}
use jolarca.Cart.Item.{is_contract_pending}
use jolarca.Seller.Kyc.{File}

pub record ListingImage : Type 0 where
  pub id : String
  pub preview_url : ℕ
  pub data_url : String

pub data OptionState : Type 0 where
  loading gap ready : OptionState

pub data Outcome : Type 0 where
  idle pending error : Outcome

abbrev pub max_image_bytes : ℕ
max_image_bytes = 2097152

abbrev pub max_listing_images : ℕ
max_listing_images = 5

abbrev pub is_image_file : File → Bool
is_image_file file = starts_with file.type_ "image/"

abbrev pub is_within_size_limit : File → Bool
is_within_size_limit file = leb file.size max_image_bytes

-- `Array.from(list).slice(0, MAX_LISTING_IMAGES - shown)`: a negative end drops from the end.
abbrev pub room_for : (shown : ℕ) → List File → List File
room_for shown files =
    if leb shown max_listing_images
    then take (max_listing_images - shown) files
    else take (length files - (shown - max_listing_images)) files

-- `next.splice(to, 0, item)`
abbrev pub insert_at {ℓ} : {A : Type ℓ} → ℕ → A → List A → List A
insert_at zero item xs = item ∷ xs
insert_at (suc n) item [] = item ∷ []
insert_at (suc n) item (x ∷ xs) = x ∷ insert_at n item xs

-- The list with the member at `from` moved to `to`, and the list without the member at a place.
unfoldable pub moved {ℓ} : {A : Type ℓ} → (from : ℕ) (to : ℤ) → List A → List A
unfolding pick
moved from (negsuc n) xs = xs
moved from (pos to) xs =
    if ltb to (length xs)
    then elim (pick from xs) [ none ↦ xs | some (item, others) ↦ insert_at to item others ]
    else xs

abbrev pub is_loading : OptionState → Bool
is_loading loading = true
is_loading _ = false

-- A picker's options arrived, or its request failed.
abbrev pub options_state : Bool → OptionState
options_state arrived = if arrived then ready else gap

module _ (Listing : Type 0) where
  -- The component's state, with what the calls of `addFiles` that wait have yet to convert, the
  -- object URLs made and revoked so far, and the listings sent with their images, the newest first.
  pub record ListingForm : Type 0 where
    pub images : List ListingImage
    pub drag_index : Option ℕ
    pub issues : ℕ
    pub image_error : Bool
    pub submitting : Bool
    pub outcome : Outcome
    pub categories : OptionState
    pub profiles : OptionState
    pub batches : List (List File)
    pub next_url : ℕ
    pub revoked : List ℕ
    pub sent : List (Listing × List String)
    pub at_dashboard : Bool

  -- What the seller, the browser and the server do. A submission comes with what the schema gives:
  -- the listing, or the number of its issues.
  pub data Event : Type 0 where
    drop_files : Option (List File) → Event
    converted : ℕ → (now : String) → Result String → Event
    drag_start drop_on move_left move_right removed : ℕ → Event
    categories_answered profiles_answered : (arrived : Bool) → Event
    submitted : Listing ⊎ ℕ → Event
    answered : Result (Unit {0}) → Event

module _ {Listing : Type 0} where
  abbrev pub initial : ListingForm Listing
  initial = record {
    images = [];
    drag_index = none;
    issues = 0;
    image_error = false;
    submitting = false;
    outcome = idle;
    categories = loading;
    profiles = loading;
    batches = [];
    next_url = 0;
    revoked = [];
    sent = [];
    at_dashboard = false;
  }

  -- A call of `addFiles` waits for its first file, if there is one.
  abbrev pub enqueue : List File → ListingForm Listing → ListingForm Listing
  enqueue [] s = s
  enqueue (file ∷ files) s = record s { batches = s.batches ++ (file ∷ files) ∷ [] }

  -- `addFiles` up to the first wait.
  unfoldable pub add_files : Option (List File) → ListingForm Listing → ListingForm Listing
  unfolding has_prefix
  add_files none s = record s { image_error = false }
  add_files (some list) s =
      let files = room_for (length s.images) list in
      let fresh = record s { image_error = false } in
      if any (λ file. not (is_image_file file) || not (is_within_size_limit file)) files
      then record fresh { image_error = true }
      else enqueue files fresh

  -- An image is shown when its file is read; a file that cannot be read ends its call.
  abbrev pub add_image :
      (now : String) (file : File) (rest : List File)
      → Result String
      → ListingForm Listing
      → ListingForm Listing
  add_image now file rest (throw e) s = s
  add_image now file rest (ok data_url) s = enqueue rest (record s {
    images =
        s.images
        ++ (record { id = now <> "-" <> file.name; preview_url = s.next_url; data_url = data_url })
          ∷ [];
    next_url = suc s.next_url;
  })

  abbrev pub convert_next :
      (now : String) → Result String → List File → ListingForm Listing → ListingForm Listing
  convert_next now result [] s = s
  convert_next now result (file ∷ rest) s = add_image now file rest result s

  -- The loop of the n-th waiting call of `addFiles` goes on.
  unfoldable pub settle_file :
      ℕ → (now : String) → Result String → ListingForm Listing → ListingForm Listing
  unfolding pick
  settle_file n now result s = elim (pick n s.batches) [
    | none ↦ s
    | some (batch, others) ↦ convert_next now result batch (record s { batches = others })
  ]

  unfoldable pub move_image : (from : ℕ) (to : ℤ) → ListingForm Listing → ListingForm Listing
  unfolding moved
  move_image from to s = record s { images = moved from to s.images }

  unfoldable pub remove_image : ℕ → ListingForm Listing → ListingForm Listing
  unfolding pick
  remove_image index s = elim (pick index s.images) [
    | none ↦ s
    | some (target, others) ↦ record s { images = others; revoked = target.preview_url ∷ s.revoked }
  ]

  -- The drop of the dragged image on the one at a place.
  abbrev pub drop_image : Option ℕ → ℕ → ListingForm Listing → ListingForm Listing
  drop_image none index s = s
  drop_image (some from) index s = if from is index then s else move_image from (pos index) s

  -- `handleSubmit` up to the wait; `dataUrl` of each image travels.
  abbrev pub handle_submit : Listing ⊎ ℕ → ListingForm Listing → ListingForm Listing
  handle_submit (inr issues) s = record s { issues = issues }
  handle_submit (inl listing) s = record s {
    issues = 0;
    submitting = true;
    outcome = idle;
    sent = (listing, map (λ image. image.data_url) s.images) ∷ s.sent;
  }

  -- Whether the button of the submission stands open.
  unfoldable pub can_submit : ListingForm Listing → Bool
  can_submit s = not s.submitting && not (is_loading s.categories) && not (is_loading s.profiles)

  -- `handleSubmit` from the answer on.
  unfoldable pub settle_submit : Result (Unit {0}) → ListingForm Listing → ListingForm Listing
  unfolding is_contract_pending
  settle_submit (ok done) s = record s { submitting = false; at_dashboard = true }
  settle_submit (throw e) s = record s {
    submitting = false;
    outcome = if is_contract_pending e then pending else error;
  }

  -- The controls of an image stand only where there is an image, and the outer arrows are disabled.
  unfoldable pub on_event : Event Listing → ListingForm Listing → ListingForm Listing
  unfolding add_files settle_file move_image remove_image can_submit settle_submit
  on_event (Event.drop_files list) s = add_files list s
  on_event (Event.converted n now result) s = settle_file n now result s
  on_event (Event.drag_start index) s = record s { drag_index = some index }
  on_event (Event.drop_on index) s =
      if ltb index (length s.images)
      then record (drop_image s.drag_index index s) { drag_index = none }
      else s
  on_event (Event.move_left zero) s = s
  on_event (Event.move_left (suc index)) s = move_image (suc index) (pos index) s
  on_event (Event.move_right index) s =
      if ltb (suc index) (length s.images) then move_image index (pos (suc index)) s else s
  on_event (Event.removed index) s = remove_image index s
  on_event (Event.categories_answered arrived) s = record s { categories = options_state arrived }
  on_event (Event.profiles_answered arrived) s = record s { profiles = options_state arrived }
  on_event (Event.submitted parsed) s = if can_submit s then handle_submit parsed s else s
  on_event (Event.answered result) s = if s.submitting then settle_submit result s else s

  unfoldable pub after_events : List (Event Listing) → ListingForm Listing → ListingForm Listing
  unfolding on_event
  after_events [] s = s
  after_events (event ∷ events) s = after_events events (on_event event s)

  -- The form is left: the previews that are still around are revoked, by the updater that the cleanup
  -- hands to React, which is taken to run it.
  unfoldable pub unmount : ListingForm Listing → ListingForm Listing
  unmount s = record s { revoked = map (λ image. image.preview_url) s.images ++ s.revoked }
