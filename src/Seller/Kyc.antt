-- ===== src/Seller/Kyc.antt =====
-- The documents of the seller's onboarding: `setDoc` and the step in
-- frontend/src/components/client/seller/onboarding-provider.tsx, and the drop zones of kyc-upload.tsx
-- beside it. Object URLs are numbered in the order of their creation.
use jolarca.Common.{
  ℕ, suc, String, Bool, true, false, ◌&&◌, ◌||◌, Option, none, some, List, [], ◌∷◌, ◌++◌, leb, ◌==◌,
  ◌is◌, if◌then◌else◌,
}
use jolarca.Common.Lists.{pick}
use jolarca.Common.Text.{starts_with}
use jolarca.Errors.{Result, ok, throw}
use jolarca.Cart.Item.{is_contract_pending}

pub data Kind : Type 0 where
  identity proof_of_address : Kind

pub data DocStatus : Type 0 where
  empty uploading uploaded portal_pending error : DocStatus

pub record KycDoc : Type 0 where
  pub file_name : Option String
  pub preview_url : Option ℕ
  pub status : DocStatus

pub data Step : Type 0 where
  business_step identity_step payout_step review_step : Step

-- A file as the browser gives it.
pub record File : Type 0 where
  pub name : String
  pub type_ : String
  pub size : ℕ

-- An upload whose answer is outstanding.
pub record Upload : Type 0 where
  pub kind : Kind
  pub file_name : String
  pub preview : Option ℕ

pub record Onboarding : Type 0 where
  pub step : Step
  pub identity_doc : KycDoc
  pub address_doc : KycDoc
  pub next_url : ℕ
  pub revoked : List ℕ
  pub in_flight : List Upload

abbrev empty_doc : KycDoc
empty_doc = record { file_name = none; preview_url = none; status = empty }

abbrev pub initial : Onboarding
initial = record {
  step = business_step;
  identity_doc = empty_doc;
  address_doc = empty_doc;
  next_url = 0;
  revoked = [];
  in_flight = [];
}

abbrev pub kyc_max_bytes : ℕ
kyc_max_bytes = 5242880

unfoldable pub is_kyc_file : File → Bool
is_kyc_file file =
    (starts_with file.type_ "image/" || file.type_ == "application/pdf")
    && leb file.size kyc_max_bytes

-- `current[kind]`
abbrev pub doc_at : Kind → Onboarding → KycDoc
doc_at identity s = s.identity_doc
doc_at proof_of_address s = s.address_doc

-- The URLs revoked so far, once `previous` is replaced by `next`.
abbrev pub revoke_replaced : (previous next : Option ℕ) → List ℕ → List ℕ
revoke_replaced none next revoked = revoked
revoke_replaced (some url) none revoked = url ∷ revoked
revoke_replaced (some url) (some next) revoked = if url is next then revoked else url ∷ revoked

unfoldable pub set_doc : Kind → KycDoc → Onboarding → Onboarding
set_doc identity doc s = record s {
  identity_doc = doc;
  revoked = revoke_replaced s.identity_doc.preview_url doc.preview_url s.revoked;
}
set_doc proof_of_address doc s = record s {
  address_doc = doc;
  revoked = revoke_replaced s.address_doc.preview_url doc.preview_url s.revoked;
}

abbrev pub doc_of : String → Option ℕ → DocStatus → KycDoc
doc_of file_name preview status = record {
  file_name = some file_name;
  preview_url = preview;
  status = status;
}

-- `handleFiles` up to the upload, with the preview's URL where there is one.
abbrev pub start_upload : Kind → File → Option ℕ → Onboarding → Onboarding
start_upload kind file preview s =
    let shown = set_doc kind (doc_of file.name preview uploading) s in
    record shown {
      in_flight =
          shown.in_flight
          ++ (record { kind = kind; file_name = file.name; preview = preview }) ∷ [];
    }

unfoldable pub handle_files : Kind → Option File → Onboarding → Onboarding
unfolding is_kyc_file set_doc
handle_files kind none s = s
handle_files kind (some file) s =
    if is_kyc_file file
    then if starts_with file.type_ "image/"
      then start_upload kind file (some s.next_url) (record s { next_url = suc s.next_url })
      else start_upload kind file none s
    else set_doc kind (doc_of file.name none error) s

-- What the answer to an upload leaves of it: only the portal's absence is told apart.
abbrev pub status_of : Result (Unit {0}) → DocStatus
status_of (ok answer) = uploaded
status_of (throw e) = if is_contract_pending e then portal_pending else error

-- `handleFiles` from the answer on.
unfoldable pub settle_upload : ℕ → Result (Unit {0}) → Onboarding → Onboarding
unfolding pick is_contract_pending set_doc
settle_upload n answer s = elim (pick n s.in_flight) [
  | none ↦ s
  | some (upload, others) ↦
      set_doc upload.kind (doc_of upload.file_name upload.preview (status_of answer))
        (record s { in_flight = others })
]

-- `remove`
unfoldable pub remove_doc : Kind → Onboarding → Onboarding
unfolding set_doc
remove_doc kind s = set_doc kind empty_doc s

unfoldable pub go_to_step : Step → Onboarding → Onboarding
go_to_step step s = record s { step = step }

abbrev pub is_uploaded : DocStatus → Bool
is_uploaded uploaded = true
is_uploaded _ = false

-- `bothUploaded`, on which the way to the payout stands.
unfoldable pub both_uploaded : Onboarding → Bool
both_uploaded s = is_uploaded s.identity_doc.status && is_uploaded s.address_doc.status

-- What the seller and the server do: the stepper, which leads to any step from any other, and the
-- second step's zones and buttons, which are let stand in every step here. (WizardEvents has them only
-- in theirs.)
pub data Event : Type 0 where
  step_to : Step → Event
  drop_files : Kind → Option File → Event
  answered : ℕ → Result (Unit {0}) → Event
  removed : Kind → Event
  back proceed : Event

unfoldable pub on_event : Event → Onboarding → Onboarding
unfolding handle_files settle_upload remove_doc go_to_step both_uploaded
on_event (step_to step) s = go_to_step step s
on_event (drop_files kind files) s = handle_files kind files s
on_event (answered n answer) s = settle_upload n answer s
on_event (removed kind) s = remove_doc kind s
on_event back s = go_to_step business_step s
on_event proceed s = if both_uploaded s then go_to_step payout_step s else s

unfoldable pub after_events : List Event → Onboarding → Onboarding
unfolding on_event
after_events [] s = s
after_events (event ∷ events) s = after_events events (on_event event s)
