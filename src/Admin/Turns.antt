-- ===== src/Admin/Turns.antt =====
-- How the requests of the moderation page, frontend/src/components/client/admin/listing-queue.tsx, take
-- turns, and what its dialogs change.
use jolarca.Common.{
  String, ◌≡◌, ◌≢◌, refl, Bool, true, false, ◌||◌, ◌⊎◌, inl, inr, Option, none, some, List, [], ◌∷◌,
  ◌++◌, if-cases, arith,
}
use jolarca.Common.Lists.{All}
use jolarca.Common.Text.{is_empty, trim}
use jolarca.Admin.Queues.{ListingQueueRow}
use jolarca.Admin.Decisions.{ListingDecision, approve_listing, reject_listing, escalate}
use jolarca.Admin.Moderation.{
  State, Mutation, decide, correct, Waiting, queue, mutation, Moderation, is_ready, blocked,
  run_decision, run_correction,
}

abbrev pub is_loading : State → Bool
is_loading State.loading = true
is_loading _ = false

not_loading : (state : State) → is_ready state ≡ true → is_loading state ≡ true → ⊥
not_loading State.loading r l = cc
not_loading State.gap r l = cc
not_loading State.error r l = cc
not_loading State.ready r l = cc

-- What waits, with what the page shows meanwhile: nothing; the queue after a mutation; the page's
-- first queue, without any dialog; or a mutation. Never two.
abbrev pub HaveTurn :
    List Waiting
    → State
    → (busy : Bool) → Option (ListingDecision × String)
    → Option ListingQueueRow
    → Type 0
HaveTurn [] state busy pending editing = (is_loading state ≡ false) × (busy ≡ false)
HaveTurn (queue true ∷ []) state busy pending editing = (is_loading state ≡ true) × (busy ≡ true)
HaveTurn (queue false ∷ []) state busy pending editing =
    (is_loading state ≡ true) × (busy ≡ false) × (pending ≡ none) × (editing ≡ none)
HaveTurn (mutation request ∷ []) state busy pending editing =
    (is_loading state ≡ false) × (busy ≡ true)
HaveTurn (first ∷ (second ∷ others)) state busy pending editing = ⊥

abbrev pub IsTurn : List Waiting → Moderation → Type 0
IsTurn waiting s = HaveTurn waiting s.state s.busy s.pending s.editing

abbrev pub IsReasoned : Mutation → Type 0
IsReasoned (decide id approve_listing reason) = Unit
IsReasoned (decide id reject_listing reason) = is_empty reason ≡ false
IsReasoned (decide id escalate reason) = Unit
IsReasoned (correct id body) = Unit

pub record IsOrderly (s : Moderation) : Type 0 where
  pub waiting : List Waiting
  pub waits : s.in_flight ≡ waiting
  pub turn : IsTurn waiting s
  pub reasoned : All IsReasoned s.requested

reason_given :
    (id : String) (decision : ListingDecision) (reason : String)
    → blocked decision reason ≡ false
    → IsReasoned (decide id decision (trim reason))
unfolding blocked
reason_given id approve_listing reason h = tt
reason_given id reject_listing reason h = h
reason_given id escalate reason h = tt

-- A mutation may only start while nothing waits, and then it alone waits.
start_mutation :
    (request : Mutation) (s : Moderation) (waiting : List Waiting)
    → s.in_flight ≡ waiting
    → IsTurn waiting s
    → s.busy ≡ false
    → (s.pending ≢ none) ⊎ (s.editing ≢ none)
    → IsReasoned request
    → All IsReasoned s.requested
    → IsOrderly (record s {
      busy = true;
      in_flight = s.in_flight ++ mutation request ∷ [];
      requested = request ∷ s.requested;
    })
start_mutation request s [] e (calm, free) idle shown given r = record {
  waiting = mutation request ∷ [];
  waits = rw e refl;
  turn = (calm, refl);
  reasoned = (given, r);
}
start_mutation request s (queue true ∷ []) e (calm, busy) idle shown given r = absurd (cc)
start_mutation request s (queue false ∷ []) e (calm, free, closed, shut) idle (inl open_) given r =
    absurd (open_ closed)
start_mutation request s (queue false ∷ []) e (calm, free, closed, shut) idle (inr open_) given r =
    absurd (open_ shut)
start_mutation request s (mutation m ∷ []) e (calm, busy) idle shown given r = absurd (cc)
start_mutation request s (first ∷ (second ∷ others)) e h idle shown given r = absurd h

pub run_decision-IsOrderly :
    (pending : Option (ListingDecision × String)) (s : Moderation)
    → s.pending ≡ pending
    → IsOrderly s
    → IsOrderly (run_decision pending s)
run_decision-IsOrderly none s e h = h
run_decision-IsOrderly (some (decision, id)) s e h =
    if-cases IsOrderly (s.busy || blocked decision s.reason) (λ refused. h)
      (λ allowed.
        start_mutation (decide id decision (trim s.reason)) s h.waiting h.waits h.turn
          (ground (arith, allowed)) (inl (λ closed. cc))
          (reason_given id decision s.reason (ground (arith, allowed))) h.reasoned)

pub run_correction-IsOrderly :
    (editing : Option ListingQueueRow) (s : Moderation)
    → s.editing ≡ editing
    → IsOrderly s
    → IsOrderly (run_correction editing s)
run_correction-IsOrderly none s e h = h
run_correction-IsOrderly (some row) s e h =
    if-cases IsOrderly s.busy (λ refused. h)
      (λ allowed.
        start_mutation _ s h.waiting h.waits h.turn allowed (inr (λ shut. cc)) tt h.reasoned)

-- On a ready page a dialog may open.
pub open_dialog :
    (s : Moderation) (pending : Option (ListingDecision × String))
    (editing : Option ListingQueueRow) (waiting : List Waiting)
    → is_ready s.state ≡ true
    → IsTurn waiting s
    → IsTurn waiting (record s { pending = pending; editing = editing })
open_dialog s pending editing [] ready_ h = h
open_dialog s pending editing (queue true ∷ []) ready_ h = h
open_dialog s pending editing (queue false ∷ []) ready_ (loads, free, p, q) =
    absurd (not_loading s.state ready_ loads)
open_dialog s pending editing (mutation m ∷ []) ready_ h = h
open_dialog s pending editing (first ∷ (second ∷ others)) ready_ h = h

pub close_pending :
    (s : Moderation) (waiting : List Waiting)
    → IsTurn waiting s
    → IsTurn waiting (record s { pending = none })
close_pending s [] h = h
close_pending s (queue true ∷ []) h = h
close_pending s (queue false ∷ []) (l, b, p, q) = (l, b, refl, q)
close_pending s (mutation m ∷ []) h = h
close_pending s (first ∷ (second ∷ others)) h = h

pub close_editing :
    (s : Moderation) (waiting : List Waiting)
    → IsTurn waiting s
    → IsTurn waiting (record s { editing = none })
close_editing s [] h = h
close_editing s (queue true ∷ []) h = h
close_editing s (queue false ∷ []) (l, b, p, q) = (l, b, p, refl)
close_editing s (mutation m ∷ []) h = h
close_editing s (first ∷ (second ∷ others)) h = h
