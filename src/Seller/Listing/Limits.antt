-- ===== src/Seller/Listing/Limits.antt =====
-- The number of the images in frontend/src/components/client/seller/listing-form.tsx.
use jolarca.Common.{
  ℕ, zero, suc, ◌+◌, ◌-◌, ◌≤◌, String, ◌<>◌, ◌≡◌, true, false, not, ◌||◌, ◌⊎◌, Option, none, some,
  List, [], ◌∷◌, ◌++◌, ltb, leb, ◌is◌, if-either, arith, Option-cases, inl, inr,
}
use jolarca.Common.Int.{ℤ, pos}
use jolarca.Common.Lists.{length, any, pick, length-append, length-take-le}
use jolarca.Errors.{Result, ok, throw}
use jolarca.Seller.Kyc.{File}
use jolarca.Seller.Listing.Moves.{length-pick, length-moved}
use jolarca.Seller.Listing.{
  ListingForm, initial, room_for, is_image_file, is_within_size_limit, max_listing_images, enqueue,
  add_files, convert_next, settle_file, move_image, remove_image, drop_image, handle_submit,
  can_submit, settle_submit, Event, on_event, after_events,
}

-- The files that wait for their conversion.
abbrev waiting : List (List File) → ℕ
waiting [] = 0
waiting (batch ∷ batches) = length batch + waiting batches

waiting-append : (xs ys : List (List File)) → waiting (xs ++ ys) ≡ waiting xs + waiting ys
waiting-append [] ys = omega arith
waiting-append (x ∷ xs) ys = omega (arith, waiting-append xs ys)

waiting-pick :
    (n : ℕ) (xs : List (List File)) (batch : List File) (others : List (List File))
    → pick n xs ≡ some (batch, others)
    → waiting xs ≡ length batch + waiting others
unfolding pick
waiting-pick n [] batch others e = absurd (cc)
waiting-pick zero (x ∷ xs) batch others e = ground (arith, e)
waiting-pick (suc n) (x ∷ xs) batch others e = elim (Option-cases (pick n xs)) [
  | inl missing ↦ ground (arith, e, missing)
  | inr ((found, rest), f) ↦ ground (arith, e, f, waiting-pick n xs found rest f)
]

length-room_for :
    (shown : ℕ) (files : List File)
    → shown ≤ max_listing_images
    → length (room_for shown files) + shown ≤ max_listing_images
length-room_for shown files h =
    let room : leb shown max_listing_images ≡ true = ground arith in
    rw room (omega (arith, length-take-le (max_listing_images - shown) files))

module _ {Listing : Type 0} where
  -- The images that are shown, with those that wait, fit.
  abbrev IsModest : ListingForm Listing → Type 0
  IsModest s = length s.images + waiting s.batches ≤ max_listing_images

  -- Files are added only while no others wait.
  abbrev pub IsAlone : Event Listing → ListingForm Listing → Type 0
  IsAlone (Event.drop_files list) s = s.batches ≡ []
  IsAlone event s = Unit

  abbrev pub AreAlone : List (Event Listing) → ListingForm Listing → Type 0
  AreAlone [] s = Unit
  AreAlone (event ∷ events) s = IsAlone event s × AreAlone events (on_event event s)

  enqueue-IsModest :
      (files : List File) (s : ListingForm Listing)
      → length s.images + (length files + waiting s.batches) ≤ max_listing_images
      → IsModest (enqueue files s)
  enqueue-IsModest [] s h = omega (arith, h)
  enqueue-IsModest (file ∷ files) s h =
      omega (arith, h, waiting-append s.batches ((file ∷ files) ∷ []))

  add_files-IsModest :
      (list : Option (List File)) (s : ListingForm Listing)
      → s.batches ≡ []
      → IsModest s
      → IsModest (add_files list s)
  unfolding add_files
  add_files-IsModest none s alone h = h
  add_files-IsModest (some list) s alone h =
      let files = room_for (length s.images) list in
      if-either IsModest
        (any (λ file. not (is_image_file file) || not (is_within_size_limit file)) files) h
        (enqueue-IsModest files (record s { image_error = false })
          (rw alone (omega (arith, length-room_for (length s.images) list))))

  convert_next-IsModest :
      (now : String) (result : Result String) (batch : List File) (s : ListingForm Listing)
      → length s.images + (length batch + waiting s.batches) ≤ max_listing_images
      → IsModest (convert_next now result batch s)
  convert_next-IsModest now result [] s h = omega (arith, h)
  convert_next-IsModest now (throw e) (file ∷ rest) s h = omega (arith, h)
  convert_next-IsModest now (ok data_url) (file ∷ rest) s h = enqueue-IsModest rest _ (
      omega (
        arith,
        h,
        length-append s.images (
            record { id = now <> "-" <> file.name; preview_url = s.next_url; data_url = data_url }
            ∷ []),
      ))

  settle_file-IsModest :
      (n : ℕ) (now : String) (result : Result String) (s : ListingForm Listing)
      → IsModest s
      → IsModest (settle_file n now result s)
  unfolding settle_file
  settle_file-IsModest n now result s h = elim (Option-cases (pick n s.batches)) [
    | inl missing ↦ rw (missing, settle_file) h
    | inr ((batch, others), found) ↦
        rw (found, settle_file)
          (convert_next-IsModest now result batch (record s { batches = others })
            (omega (arith, h, waiting-pick n s.batches batch others found)))
  ]

  move_image-IsModest :
      (from : ℕ) (to : ℤ) (s : ListingForm Listing) → IsModest s → IsModest (move_image from to s)
  unfolding move_image
  move_image-IsModest from to s h = omega (arith, h, length-moved from to s.images)

  remove_image-IsModest :
      (index : ℕ) (s : ListingForm Listing) → IsModest s → IsModest (remove_image index s)
  unfolding remove_image
  remove_image-IsModest index s h = elim (Option-cases (pick index s.images)) [
    | inl missing ↦ rw (missing, remove_image) h
    | inr ((target, others), found) ↦
        rw (found, remove_image) (omega (arith, h, length-pick index s.images target others found))
  ]

  drop_image-IsModest :
      (from : Option ℕ) (index : ℕ) (s : ListingForm Listing)
      → IsModest s
      → IsModest (drop_image from index s)
  drop_image-IsModest none index s h = h
  drop_image-IsModest (some from) index s h =
      if-either IsModest (from is index) h (move_image-IsModest from (pos index) s h)

  handle_submit-IsModest :
      (parsed : Listing ⊎ ℕ) (s : ListingForm Listing)
      → IsModest s
      → IsModest (handle_submit parsed s)
  handle_submit-IsModest (inl listing) s h = h
  handle_submit-IsModest (inr issues) s h = h

  settle_submit-IsModest :
      (result : Result (Unit {0})) (s : ListingForm Listing)
      → IsModest s
      → IsModest (settle_submit result s)
  unfolding settle_submit
  settle_submit-IsModest (ok done) s h = h
  settle_submit-IsModest (throw e) s h = h

  on_event-IsModest :
      (event : Event Listing) (s : ListingForm Listing)
      → IsAlone event s
      → IsModest s
      → IsModest (on_event event s)
  unfolding on_event
  on_event-IsModest (Event.drop_files list) s alone h = add_files-IsModest list s alone h
  on_event-IsModest (Event.converted n now result) s alone h = settle_file-IsModest n now result s h
  on_event-IsModest (Event.drag_start index) s alone h = h
  on_event-IsModest (Event.drop_on index) s alone h =
      if-either IsModest (ltb index (length s.images)) (drop_image-IsModest s.drag_index index s h)
        h
  on_event-IsModest (Event.move_left zero) s alone h = h
  on_event-IsModest (Event.move_left (suc index)) s alone h =
      move_image-IsModest (suc index) (pos index) s h
  on_event-IsModest (Event.move_right index) s alone h =
      if-either IsModest (ltb (suc index) (length s.images))
        (move_image-IsModest index (pos (suc index)) s h) h
  on_event-IsModest (Event.removed index) s alone h = remove_image-IsModest index s h
  on_event-IsModest (Event.categories_answered arrived) s alone h = h
  on_event-IsModest (Event.profiles_answered arrived) s alone h = h
  on_event-IsModest (Event.submitted parsed) s alone h =
      if-either IsModest (can_submit s) (handle_submit-IsModest parsed s h) h
  on_event-IsModest (Event.answered result) s alone h =
      if-either IsModest s.submitting (settle_submit-IsModest result s h) h

  after_events-IsModest :
      (events : List (Event Listing)) (s : ListingForm Listing)
      → AreAlone events s
      → IsModest s
      → IsModest (after_events events s)
  unfolding after_events
  after_events-IsModest [] s alone h = h
  after_events-IsModest (event ∷ events) s (now, later) h =
      after_events-IsModest events (on_event event s) later (on_event-IsModest event s now h)

  -- As long as files are added only while no others wait for their conversion, the form never shows
  -- more than five images, whatever else happens.
  pub images-le-max :
      (events : List (Event Listing))
      → AreAlone events initial
      → length (after_events events initial).images ≤ max_listing_images
  images-le-max events alone =
      omega (arith, after_events-IsModest events initial alone (omega arith))
