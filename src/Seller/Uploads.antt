-- ===== src/Seller/Uploads.antt =====
-- When frontend/src/components/client/seller/kyc-upload.tsx counts a document as uploaded.
use jolarca.Common.{
  ℕ, suc, ◌≡◌, refl, false, inl, inr, Option, none, some, List, [], ◌∷◌, if-either, if-cases, arith,
  Option-cases,
}
use jolarca.Common.Lists.{pick, All}
use jolarca.Errors.{Thrown, ok, throw}
use jolarca.Cart.Item.{is_contract_pending}
use jolarca.Common.Text.{starts_with}
use jolarca.Seller.Kyc.{
  Kind, DocStatus, is_uploaded, KycDoc, File, Onboarding, initial, is_kyc_file, doc_of, set_doc,
  start_upload, handle_files, settle_upload, remove_doc, go_to_step, both_uploaded, Event, on_event,
  after_events,
}

-- The answers of a server that accepts nothing.
abbrev pub IsRefusal : Event → Type 0
IsRefusal (Event.answered n (ok answer)) = ⊥
IsRefusal _ = Unit

-- No document counts as uploaded.
pub record IsModest (s : Onboarding) : Type 0 where
  pub identity : is_uploaded s.identity_doc.status ≡ false
  pub address : is_uploaded s.address_doc.status ≡ false

set_doc-IsModest :
    (kind : Kind) (doc : KycDoc) (s : Onboarding)
    → is_uploaded doc.status ≡ false
    → IsModest s
    → IsModest (set_doc kind doc s)
unfolding set_doc
set_doc-IsModest Kind.identity doc s d h = record { identity = d; address = h.address }
set_doc-IsModest Kind.proof_of_address doc s d h = record { identity = h.identity; address = d }

handle_files-IsModest :
    (kind : Kind) (files : Option File) (s : Onboarding)
    → IsModest s
    → IsModest (handle_files kind files s)
unfolding handle_files
handle_files-IsModest kind none s h = h
handle_files-IsModest kind (some file) s h =
    let start : (s : Onboarding) (preview : Option ℕ)
        → IsModest s
        → IsModest (start_upload kind file preview s) =
      λ s preview h.
        let shown = set_doc-IsModest kind (doc_of file.name preview DocStatus.uploading) s refl h in
        record { identity = shown.identity; address = shown.address } in
    if-either IsModest (is_kyc_file file)
      (if-either IsModest (starts_with file.type_ "image/")
        (start (record s { next_url = suc s.next_url }) (some s.next_url)
          (record { identity = h.identity; address = h.address }))
        (start s none h))
      (set_doc-IsModest kind _ s refl h)

settle_upload-IsModest :
    (n : ℕ) (e : Thrown) (s : Onboarding) → IsModest s → IsModest (settle_upload n (throw e) s)
unfolding settle_upload
settle_upload-IsModest n e s h = elim (Option-cases (pick n s.in_flight)) [
  | inl missing ↦ rw (missing, settle_upload) h
  | inr ((upload, others), found) ↦
      rw (found, settle_upload)
        (set_doc-IsModest upload.kind _ (record s { in_flight = others })
          (if-either (λ status. is_uploaded status ≡ false) (is_contract_pending e) refl refl)
          (record { identity = h.identity; address = h.address }))
]

on_event-IsModest :
    (event : Event) (s : Onboarding) → IsRefusal event → IsModest s → IsModest (on_event event s)
unfolding on_event
on_event-IsModest (Event.drop_files kind files) s r h = handle_files-IsModest kind files s h
on_event-IsModest (Event.answered n (ok answer)) s r h = absurd r
on_event-IsModest (Event.answered n (throw e)) s r h = settle_upload-IsModest n e s h
on_event-IsModest (Event.removed kind) s r h = unfold remove_doc in set_doc-IsModest kind _ s refl h
on_event-IsModest (Event.step_to step) s r h =
    unfold go_to_step in record { identity = h.identity; address = h.address }
on_event-IsModest Event.back s r h =
    unfold go_to_step in record { identity = h.identity; address = h.address }
on_event-IsModest Event.proceed s r h =
    if-cases IsModest (both_uploaded s)
      (λ both. absurd (unfold both_uploaded in ground (arith, h.identity, both))) (λ e. h)

kept_by_refusals :
    (events : List Event) (s : Onboarding)
    → All IsRefusal events
    → IsModest s
    → IsModest (after_events events s)
unfolding after_events
kept_by_refusals [] s r h = h
kept_by_refusals (event ∷ events) s (r, rs) h =
    kept_by_refusals events (on_event event s) rs (on_event-IsModest event s r h)

proceed-IsModest : (s : Onboarding) → IsModest s → on_event Event.proceed s ≡ s
unfolding on_event
proceed-IsModest s h =
    if-cases (λ next. next ≡ s) (both_uploaded s)
      (λ both. absurd (unfold both_uploaded in ground (arith, h.identity, both))) (λ e. refl)

-- As long as the server accepts no document, whatever else the seller does and however the calls
-- fail, no slot says that its document was uploaded, and the button from the documents to the payout
-- leads nowhere.
pub after_events-IsModest :
    (events : List Event)
    → All IsRefusal events
    → let s = after_events events initial in IsModest s × (on_event Event.proceed s ≡ s)
after_events-IsModest events r =
    let h = kept_by_refusals events initial r (record { identity = refl; address = refl }) in
    (h, proceed-IsModest (after_events events initial) h)
