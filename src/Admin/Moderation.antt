-- ===== src/Admin/Moderation.antt =====
-- The moderation page of the listings, frontend/src/components/client/admin/listing-queue.tsx, with the
-- dialog of confirm-dialog.tsx beside it. Requests wait in the order in which they were made.
use jolarca.Common.{
  ℕ, String, Bool, true, false, not, ◌&&◌, ◌||◌, Option, none, some, List, [], ◌∷◌, ◌++◌, ◌==◌,
  if◌then◌else◌,
}
use jolarca.Common.Lists.{pick}
use jolarca.Common.Text.{is_empty, trim, or_undefined}
use jolarca.Errors.{Result, ok, throw}
use jolarca.Cart.Item.{is_contract_pending}
use jolarca.Admin.Queues.{ListingQueueRow}
use jolarca.Admin.Decisions.{
  ListingDecision, approve_listing, reject_listing, escalate, Corrections,
}

pub data State : Type 0 where
  loading gap error ready : State

pub data Toast : Type 0 where
  recorded failed : Toast

-- The fields of the correction.
pub record EditForm : Type 0 where
  pub title : String
  pub category : String
  pub price : String

-- A decision on a listing by its id, with the reason; or a listing's correction.
pub data Mutation : Type 0 where
  decide : String → ListingDecision → (reason : String) → Mutation
  correct : String → Corrections → Mutation

-- A call whose answer is outstanding: the queue, for the page or after a mutation, or a mutation.
pub data Waiting : Type 0 where
  queue : (after_mutation : Bool) → Waiting
  mutation : Mutation → Waiting

-- The page's state, with the reason of the dialog, the calls that wait, and the mutations that were
-- requested, the newest first.
pub record Moderation : Type 0 where
  pub rows : List ListingQueueRow
  pub state : State
  pub preview : Option ListingQueueRow
  pub editing : Option ListingQueueRow
  pub edit_form : EditForm
  pub pending : Option (ListingDecision × String)
  pub reason : String
  pub busy : Bool
  pub toast : Option Toast
  pub in_flight : List Waiting
  pub requested : List Mutation

-- The page as it is mounted, with its first `load`.
abbrev pub initial : Moderation
initial = record {
  rows = [];
  state = loading;
  preview = none;
  editing = none;
  edit_form = record { title = ""; category = ""; price = "" };
  pending = none;
  reason = "";
  busy = false;
  toast = none;
  in_flight = queue false ∷ [];
  requested = [];
}

abbrev pub is_ready : State → Bool
is_ready ready = true
is_ready _ = false

-- Whether the dialog has a field for a reason, and whether it must be filled.
abbrev pub with_reason : ListingDecision → Bool
with_reason approve_listing = false
with_reason reject_listing = true
with_reason escalate = true

abbrev pub reason_required : ListingDecision → Bool
reason_required approve_listing = false
reason_required reject_listing = true
reason_required escalate = false

unfoldable pub blocked : ListingDecision → String → Bool
unfolding trim
blocked decision reason = with_reason decision && reason_required decision && is_empty (trim reason)

-- A dialog that opens starts without a reason.
abbrev pub first_reason : Option (ListingDecision × String) → String → String
first_reason none reason = ""
first_reason (some shown) reason = reason

abbrev pub dash_or : String → String
dash_or text = if text == "—" then "" else text

abbrev pub edit_row : ListingQueueRow → Moderation → Moderation
edit_row row s = record s {
  editing = some row;
  edit_form = record {
    title = dash_or row.title;
    category = dash_or row.category;
    price = row.price;
  };
}

-- `runDecision` up to the call.
abbrev pub run_decision : Option (ListingDecision × String) → Moderation → Moderation
run_decision none s = s
run_decision (some (decision, id)) s =
    if s.busy || blocked decision s.reason
    then s
    else let request = decide id decision (trim s.reason) in
      record s {
        busy = true;
        in_flight = s.in_flight ++ mutation request ∷ [];
        requested = request ∷ s.requested;
      }

-- `runCorrection` up to the call; its button is disabled while the page is busy.
abbrev pub run_correction : Option ListingQueueRow → Moderation → Moderation
run_correction none s = s
run_correction (some row) s =
    if s.busy
    then s
    else let request = correct row.id (record {
      title = or_undefined s.edit_form.title;
      category = or_undefined s.edit_form.category;
      price = or_undefined s.edit_form.price;
    }) in
      record s {
        busy = true;
        in_flight = s.in_flight ++ mutation request ∷ [];
        requested = request ∷ s.requested;
      }

-- `load` up to the call.
abbrev pub load : (after_mutation : Bool) → Moderation → Moderation
load after_mutation s = record s {
  state = loading;
  in_flight = s.in_flight ++ queue after_mutation ∷ [];
}

-- `load` from the answer on; after a mutation the page is then no more busy.
abbrev pub end_load :
    (after_mutation : Bool) → Result (List ListingQueueRow) → Moderation → Moderation
end_load after_mutation (ok rows) s = record s {
  rows = rows;
  state = ready;
  busy = s.busy && not after_mutation;
}
end_load after_mutation (throw e) s = record s {
  state = if is_contract_pending e then gap else error;
  busy = s.busy && not after_mutation;
}

-- A mutation's end: its dialog closes and the queue is loaded again, or it failed.
abbrev pub close_of : Mutation → Moderation → Moderation
close_of (decide id decision reason) s = record s { pending = none }
close_of (correct id body) s = record s { editing = none }

abbrev pub end_mutation : Mutation → Result (Unit {0}) → Moderation → Moderation
end_mutation request (ok done) s = load true (close_of request (record s { toast = some recorded }))
end_mutation request (throw e) s = record s { toast = some failed; busy = false }

-- An answer to each kind of call.
abbrev pub settle_queue :
    Option (Waiting × List Waiting) → Result (List ListingQueueRow) → Moderation → Moderation
settle_queue none answer s = s
settle_queue (some (mutation request, others)) answer s = s
settle_queue (some (queue after_mutation, others)) answer s =
    end_load after_mutation answer (record s { in_flight = others })

abbrev pub settle_mutation :
    Option (Waiting × List Waiting) → Result (Unit {0}) → Moderation → Moderation
settle_mutation none answer s = s
settle_mutation (some (queue after_mutation, others)) answer s = s
settle_mutation (some (mutation request, others)) answer s =
    end_mutation request answer (record s { in_flight = others })

pub data Event : Type 0 where
  show_preview edit : ListingQueueRow → Event
  choose : ListingDecision → ListingQueueRow → Event
  hide_preview cancel_edit cancel confirm submit_edit : Event
  type_reason : String → Event
  type_edit : EditForm → Event
  queue_answered : ℕ → Result (List ListingQueueRow) → Event
  mutation_answered : ℕ → Result (Unit {0}) → Event

-- The table, and with it the rows' buttons, stands only on a ready page; Escape closes a dialog also
-- while the page is busy.
unfoldable pub on_event : Event → Moderation → Moderation
unfolding blocked pick is_contract_pending
on_event (show_preview row) s = if is_ready s.state then record s { preview = some row } else s
on_event (edit row) s = if is_ready s.state then edit_row row s else s
on_event (choose decision row) s =
    if is_ready s.state
    then record s { pending = some (decision, row.id); reason = first_reason s.pending s.reason }
    else s
on_event hide_preview s = record s { preview = none }
on_event cancel_edit s = record s { editing = none }
on_event cancel s = record s { pending = none }
on_event confirm s = run_decision s.pending s
on_event submit_edit s = run_correction s.editing s
on_event (type_reason reason) s = record s { reason = reason }
on_event (type_edit form) s = record s { edit_form = form }
on_event (queue_answered n answer) s = settle_queue (pick n s.in_flight) answer s
on_event (mutation_answered n answer) s = settle_mutation (pick n s.in_flight) answer s

unfoldable pub after_events : List Event → Moderation → Moderation
unfolding on_event
after_events [] s = s
after_events (event ∷ events) s = after_events events (on_event event s)
