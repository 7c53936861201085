-- ===== src/Seller/Listing/Images.antt =====
-- The object URLs and the order of the images in
-- frontend/src/components/client/seller/listing-form.tsx.
use jolarca.Common.{
  ℕ, zero, suc, ◌+◌, String, ◌<>◌, ◌≡◌, refl, not, ◌||◌, ◌⊎◌, Option, none, some, List, [], ◌∷◌,
  ◌++◌, map, ltb, ◌is◌, if◌then◌else◌, if-either, arith, Option-cases, inl, inr, false,
}
use jolarca.Common.Int.{ℤ, pos, negsuc}
use jolarca.Common.Lists.{length, any, pick}
use jolarca.Errors.{Result, ok, throw}
use jolarca.Seller.Kyc.{File}
use jolarca.Seller.Listing.{
  ListingImage, insert_at, moved, ListingForm, initial, room_for, is_image_file,
  is_within_size_limit, enqueue, add_files, convert_next, settle_file, move_image, remove_image,
  drop_image, handle_submit, can_submit, settle_submit, Event, on_event, after_events, unmount,
}

-- How often a number stands in a list.
abbrev pub times : ℕ → List ℕ → ℕ
times n [] = 0
times n (m ∷ ms) = (if m is n then 1 else 0) + times n ms

times-append : (n : ℕ) (xs ys : List ℕ) → times n (xs ++ ys) ≡ times n xs + times n ys
times-append n [] ys = omega arith
times-append n (x ∷ xs) ys = omega (arith, times-append n xs ys)

abbrev previews : List ListingImage → List ℕ
previews images = map (λ image. image.preview_url) images

times-previews_append :
    (n : ℕ) (xs ys : List ListingImage)
    → times n (previews (xs ++ ys)) ≡ times n (previews xs) + times n (previews ys)
times-previews_append n [] ys = omega arith
times-previews_append n (x ∷ xs) ys = omega (arith, times-previews_append n xs ys)

times-insert_at :
    (n place : ℕ) (item : ListingImage) (xs : List ListingImage)
    → times n (previews (insert_at place item xs)) ≡ times n (previews (item ∷ xs))
times-insert_at n zero item xs = refl
times-insert_at n (suc place) item [] = refl
times-insert_at n (suc place) item (x ∷ xs) = omega (arith, times-insert_at n place item xs)

times-pick :
    (n place : ℕ) (xs : List ListingImage) (item : ListingImage) (others : List ListingImage)
    → pick place xs ≡ some (item, others)
    → times n (previews xs) ≡ times n (previews (item ∷ others))
unfolding pick
times-pick n place [] item others e = absurd (cc)
times-pick n zero (x ∷ xs) item others e = ground (arith, e)
times-pick n (suc place) (x ∷ xs) item others e = elim (Option-cases (pick place xs)) [
  | inl missing ↦ ground (arith, e, missing)
  | inr ((found, rest), f) ↦ ground (arith, e, f, times-pick n place xs found rest f)
]

times-moved :
    (n from : ℕ) (to : ℤ) (xs : List ListingImage)
    → times n (previews (moved from to xs)) ≡ times n (previews xs)
unfolding moved
times-moved n from (negsuc to) xs = refl
times-moved n from (pos to) xs = elim (Option-cases (pick from xs)) [
  | inl missing ↦
      rw (missing, pick)
        (if-either (λ ys. times n (previews ys) ≡ times n (previews xs)) (ltb to (length xs)) refl
          refl)
  | inr ((item, others), found) ↦
      rw (found, pick)
        (if-either (λ ys. times n (previews ys) ≡ times n (previews xs)) (ltb to (length xs))
          (omega (arith, times-insert_at n to item others, times-pick n from xs item others found))
          refl)
]

module _ {Listing : Type 0} where
  -- Each object URL made so far is shown once or was revoked once.
  abbrev pub IsTidy : ListingForm Listing → Type 0
  IsTidy s =
      (url : ℕ)
      → times url (previews s.images) + times url s.revoked ≡ (if ltb url s.next_url then 1 else 0)

  enqueue-IsTidy :
      (files : List File) (s : ListingForm Listing) → IsTidy s → IsTidy (enqueue files s)
  enqueue-IsTidy [] s h = h
  enqueue-IsTidy (file ∷ files) s h = h

  add_files-IsTidy :
      (list : Option (List File)) (s : ListingForm Listing) → IsTidy s → IsTidy (add_files list s)
  unfolding add_files
  add_files-IsTidy none s h = h
  add_files-IsTidy (some list) s h =
      let files = room_for (length s.images) list in
      if-either IsTidy
        (any (λ file. not (is_image_file file) || not (is_within_size_limit file)) files) h
        (enqueue-IsTidy files (record s { image_error = false }) h)

  convert_next-IsTidy :
      (now : String) (result : Result String) (batch : List File) (s : ListingForm Listing)
      → IsTidy s
      → IsTidy (convert_next now result batch s)
  convert_next-IsTidy now result [] s h = h
  convert_next-IsTidy now (throw e) (file ∷ rest) s h = h
  convert_next-IsTidy now (ok data_url) (file ∷ rest) s h = enqueue-IsTidy rest _ (λ url. ground (
    arith,
    h url,
    times-previews_append url s.images (
        record { id = now <> "-" <> file.name; preview_url = s.next_url; data_url = data_url }
        ∷ []),
  ))

  settle_file-IsTidy :
      (n : ℕ) (now : String) (result : Result String) (s : ListingForm Listing)
      → IsTidy s
      → IsTidy (settle_file n now result s)
  unfolding settle_file
  settle_file-IsTidy n now result s h = elim (Option-cases (pick n s.batches)) [
    | inl missing ↦ rw (missing, settle_file) h
    | inr ((batch, others), found) ↦
        rw (found, settle_file)
          (convert_next-IsTidy now result batch (record s { batches = others }) h)
  ]

  move_image-IsTidy :
      (from : ℕ) (to : ℤ) (s : ListingForm Listing) → IsTidy s → IsTidy (move_image from to s)
  unfolding move_image
  move_image-IsTidy from to s h = λ url. omega (arith, h url, times-moved url from to s.images)

  remove_image-IsTidy :
      (index : ℕ) (s : ListingForm Listing) → IsTidy s → IsTidy (remove_image index s)
  unfolding remove_image
  remove_image-IsTidy index s h = elim (Option-cases (pick index s.images)) [
    | inl missing ↦ rw (missing, remove_image) h
    | inr ((target, others), found) ↦
        rw (found, remove_image)
          (λ url. omega (arith, h url, times-pick url index s.images target others found))
  ]

  drop_image-IsTidy :
      (from : Option ℕ) (index : ℕ) (s : ListingForm Listing)
      → IsTidy s
      → IsTidy (drop_image from index s)
  drop_image-IsTidy none index s h = h
  drop_image-IsTidy (some from) index s h =
      if-either IsTidy (from is index) h (move_image-IsTidy from (pos index) s h)

  handle_submit-IsTidy :
      (parsed : Listing ⊎ ℕ) (s : ListingForm Listing) → IsTidy s → IsTidy (handle_submit parsed s)
  handle_submit-IsTidy (inl listing) s h = h
  handle_submit-IsTidy (inr issues) s h = h

  settle_submit-IsTidy :
      (result : Result (Unit {0})) (s : ListingForm Listing)
      → IsTidy s
      → IsTidy (settle_submit result s)
  unfolding settle_submit
  settle_submit-IsTidy (ok done) s h = h
  settle_submit-IsTidy (throw e) s h = h

  on_event-IsTidy :
      (event : Event Listing) (s : ListingForm Listing) → IsTidy s → IsTidy (on_event event s)
  unfolding on_event
  on_event-IsTidy (Event.drop_files list) s h = add_files-IsTidy list s h
  on_event-IsTidy (Event.converted n now result) s h = settle_file-IsTidy n now result s h
  on_event-IsTidy (Event.drag_start index) s h = h
  on_event-IsTidy (Event.drop_on index) s h =
      if-either IsTidy (ltb index (length s.images)) (drop_image-IsTidy s.drag_index index s h) h
  on_event-IsTidy (Event.move_left zero) s h = h
  on_event-IsTidy (Event.move_left (suc index)) s h = move_image-IsTidy (suc index) (pos index) s h
  on_event-IsTidy (Event.move_right index) s h =
      if-either IsTidy (ltb (suc index) (length s.images))
        (move_image-IsTidy index (pos (suc index)) s h) h
  on_event-IsTidy (Event.removed index) s h = remove_image-IsTidy index s h
  on_event-IsTidy (Event.categories_answered arrived) s h = h
  on_event-IsTidy (Event.profiles_answered arrived) s h = h
  on_event-IsTidy (Event.submitted parsed) s h =
      if-either IsTidy (can_submit s) (handle_submit-IsTidy parsed s h) h
  on_event-IsTidy (Event.answered result) s h =
      if-either IsTidy s.submitting (settle_submit-IsTidy result s h) h

  after_events-IsTidy :
      (events : List (Event Listing)) (s : ListingForm Listing)
      → IsTidy s
      → IsTidy (after_events events s)
  unfolding after_events
  after_events-IsTidy [] s h = h
  after_events-IsTidy (event ∷ events) s h =
      after_events-IsTidy events (on_event event s) (on_event-IsTidy event s h)

  -- Whatever images are added, moved, dragged and removed, in whatever order files are read: when the
  -- form is left and the updater of its cleanup has run, each object URL that it made for a preview has
  -- been revoked exactly once, and no other number has been revoked.
  pub unmount-after_events :
      (events : List (Event Listing)) (url : ℕ)
      → let s = after_events events initial in
        times url (unmount s).revoked ≡ (if ltb url s.next_url then 1 else 0)
  unfolding unmount
  unmount-after_events events url =
      let s = after_events events initial in
      omega (
        arith,
        after_events-IsTidy events initial (λ url. ground arith) url,
        times-append url (previews s.images) s.revoked,
      )
