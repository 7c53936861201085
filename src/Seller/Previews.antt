-- ===== src/Seller/Previews.antt =====
-- The object URLs of the previews in frontend/src/components/client/seller/kyc-upload.tsx.
use jolarca.Common.{
  ℕ, suc, ◌<◌, ◌≡◌, refl, Bool, true, ◌⊎◌, inl, inr, Option, none, some, List, [], ◌∷◌, ◌is◌,
  if-either, if-cases, arith, Bool-cases, Option-cases,
}
use jolarca.Common.Lists.{any, pick}
use jolarca.Errors.{Result, ok}
use jolarca.Common.Text.{starts_with}
use jolarca.Seller.Kyc.{
  Kind, DocStatus, doc_at, KycDoc, File, Onboarding, initial, is_kyc_file, revoke_replaced, doc_of,
  set_doc, start_upload, handle_files, settle_upload, remove_doc, go_to_step, both_uploaded, Event,
  on_event, after_events,
}

abbrev pub is_in : ℕ → List ℕ → Bool
is_in url urls = any (λ other. other is url) urls

-- The URL is shown in a slot, or revoked.
abbrev pub IsHeld : Onboarding → ℕ → Type 0
IsHeld s url =
    (s.identity_doc.preview_url ≡ some url)
    ⊎ (s.address_doc.preview_url ≡ some url)
    ⊎ (is_in url s.revoked ≡ true)

-- A URL of a replaced document is still the shown one, or is revoked now; a revoked one stays so.
revoked_after :
    (url : ℕ) (previous next : Option ℕ) (revoked : List ℕ)
    → (previous ≡ some url) ⊎ (is_in url revoked ≡ true)
    → (next ≡ some url) ⊎ (is_in url (revoke_replaced previous next revoked) ≡ true)
revoked_after url none next revoked (inl h) = absurd (cc)
revoked_after url none next revoked (inr h) = inr h
revoked_after url (some old) none revoked (inl h) = inr (ground arith)
revoked_after url (some old) none revoked (inr h) = inr (ground arith)
revoked_after url (some old) (some new) revoked (inl h) =
    if-cases (λ urls. (some new ≡ some url) ⊎ (is_in url urls ≡ true)) (old is new)
      (λ same. inl (ground arith)) (λ other. inr (ground arith))
revoked_after url (some old) (some new) revoked (inr h) =
    if-cases (λ urls. (some new ≡ some url) ⊎ (is_in url urls ≡ true)) (old is new) (λ same. inr h)
      (λ other. inr (ground arith))

set_doc-IsHeld :
    (kind : Kind) (doc : KycDoc) (s : Onboarding) (url : ℕ)
    → IsHeld s url
    → IsHeld (set_doc kind doc s) url
unfolding set_doc
set_doc-IsHeld Kind.identity doc s url (inl h) =
    elim (revoked_after url s.identity_doc.preview_url doc.preview_url s.revoked (inl h)) [
      | inl shown ↦ inl shown
      | inr gone ↦ inr (inr gone)
    ]
set_doc-IsHeld Kind.identity doc s url (inr (inl h)) = inr (inl h)
set_doc-IsHeld Kind.identity doc s url (inr (inr h)) =
    elim (revoked_after url s.identity_doc.preview_url doc.preview_url s.revoked (inr h)) [
      | inl shown ↦ inl shown
      | inr gone ↦ inr (inr gone)
    ]
set_doc-IsHeld Kind.proof_of_address doc s url (inl h) = inl h
set_doc-IsHeld Kind.proof_of_address doc s url (inr h) =
    inr (revoked_after url s.address_doc.preview_url doc.preview_url s.revoked h)

set_doc-shows :
    (kind : Kind) (doc : KycDoc) (s : Onboarding) (url : ℕ)
    → doc.preview_url ≡ some url
    → IsHeld (set_doc kind doc s) url
unfolding set_doc
set_doc-shows Kind.identity doc s url h = inl h
set_doc-shows Kind.proof_of_address doc s url h = inr (inl h)

set_doc-next_url :
    (kind : Kind) (doc : KycDoc) (s : Onboarding) → (set_doc kind doc s).next_url ≡ s.next_url
unfolding set_doc
set_doc-next_url Kind.identity doc s = refl
set_doc-next_url Kind.proof_of_address doc s = refl

-- Every URL that was created is shown, or revoked.
abbrev pub HasNoLeak : Onboarding → Type 0
HasNoLeak s = (url : ℕ) → url < s.next_url → IsHeld s url

set_doc-HasNoLeak :
    (kind : Kind) (doc : KycDoc) (s : Onboarding) → HasNoLeak s → HasNoLeak (set_doc kind doc s)
set_doc-HasNoLeak kind doc s h url below =
    set_doc-IsHeld kind doc s url (h url (ground (arith, set_doc-next_url kind doc s)))

start_upload-HasNoLeak :
    (kind : Kind) (file : File) (s : Onboarding)
    → HasNoLeak s
    → HasNoLeak (start_upload kind file (some s.next_url) (record s { next_url = suc s.next_url }))
start_upload-HasNoLeak kind file s h url below = elim (Bool-cases (url is s.next_url)) [
  | inl new ↦ set_doc-shows kind _ (record s { next_url = suc s.next_url }) url (ground arith)
  | inr old ↦
      set_doc-IsHeld kind _ (record s { next_url = suc s.next_url }) url
        (h url (
          ground (
            arith,
            set_doc-next_url kind (doc_of file.name (some s.next_url) DocStatus.uploading)
                (record s { next_url = suc s.next_url }),
          )))
]

handle_files-HasNoLeak :
    (kind : Kind) (files : Option File) (s : Onboarding)
    → HasNoLeak s
    → HasNoLeak (handle_files kind files s)
unfolding handle_files
handle_files-HasNoLeak kind none s h = h
handle_files-HasNoLeak kind (some file) s h =
    if-either HasNoLeak (is_kyc_file file)
      (if-either HasNoLeak (starts_with file.type_ "image/") (start_upload-HasNoLeak kind file s h)
        (set_doc-HasNoLeak kind _ s h))
      (set_doc-HasNoLeak kind _ s h)

settle_upload-HasNoLeak :
    (n : ℕ) (answer : Result (Unit {0})) (s : Onboarding)
    → HasNoLeak s
    → HasNoLeak (settle_upload n answer s)
unfolding settle_upload
settle_upload-HasNoLeak n answer s h = elim (Option-cases (pick n s.in_flight)) [
  | inl missing ↦ rw (missing, settle_upload) h
  | inr ((upload, others), found) ↦
      rw (found, settle_upload)
        (set_doc-HasNoLeak upload.kind _ (record s { in_flight = others }) h)
]

on_event-HasNoLeak : (event : Event) (s : Onboarding) → HasNoLeak s → HasNoLeak (on_event event s)
unfolding on_event
on_event-HasNoLeak (Event.drop_files kind files) s h = handle_files-HasNoLeak kind files s h
on_event-HasNoLeak (Event.answered n answer) s h = settle_upload-HasNoLeak n answer s h
on_event-HasNoLeak (Event.removed kind) s h = unfold remove_doc in set_doc-HasNoLeak kind _ s h
on_event-HasNoLeak (Event.step_to step) s h = unfold go_to_step in h
on_event-HasNoLeak Event.back s h = unfold go_to_step in h
on_event-HasNoLeak Event.proceed s h =
    if-either HasNoLeak (both_uploaded s) (unfold go_to_step in h) h

after_events-keeps :
    (events : List Event) (s : Onboarding) → HasNoLeak s → HasNoLeak (after_events events s)
unfolding after_events
after_events-keeps [] s h = h
after_events-keeps (event ∷ events) s h =
    after_events-keeps events (on_event event s) (on_event-HasNoLeak event s h)

-- After any uploads, answers and removals, in any order, every object URL that was created is shown
-- in one of the two slots, or was revoked: none leaks.
pub after_events-HasNoLeak :
    (events : List Event) (url : ℕ)
    → url < (after_events events initial).next_url
    → IsHeld (after_events events initial) url
after_events-HasNoLeak events =
    after_events-keeps events initial (λ url below. absurd (omega arith))

-- If a second picture is dropped on a slot before the first one's answer, then the two answers in
-- their order leave the slot with the second picture's URL, which was revoked at the first answer.
pub revoked_shown :
    (kind : Kind) (first second : File)
    → is_kyc_file first ≡ true
    → starts_with first.type_ "image/" ≡ true
    → is_kyc_file second ≡ true
    → starts_with second.type_ "image/" ≡ true
    → let s =
        after_events
          (Event.drop_files kind (some first)
            ∷ Event.drop_files kind (some second)
            ∷ Event.answered 0 (ok tt)
            ∷ Event.answered 0 (ok tt)
            ∷ [])
          initial in
      ((doc_at kind s).preview_url ≡ some 1) × (is_in 1 s.revoked ≡ true)
unfolding after_events on_event settle_upload pick set_doc
revoked_shown Kind.identity first second k1 i1 k2 i2 = rw (k1, i1, k2, i2) (refl, refl)
revoked_shown Kind.proof_of_address first second k1 i1 k2 i2 = rw (k1, i1, k2, i2) (refl, refl)
