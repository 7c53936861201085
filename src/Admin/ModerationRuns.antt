-- ===== src/Admin/ModerationRuns.antt =====
-- Runs of the moderation page, frontend/src/components/client/admin/listing-queue.tsx: never two
-- requests at once, and no rejection without a reason.
use mathlib.Core.Path.{subst}
use jolarca.Common.{
  ◌≤◌, ◌≡◌, refl, sym, ◌∙◌, true, false, none, some, List, [], ◌∷◌, if-either, if-cases, arith,
}
use jolarca.Common.Lists.{All, length, pick}
use jolarca.Admin.Moderation.{
  Waiting, queue, mutation, Moderation, initial, is_ready, first_reason, edit_row, settle_queue,
  settle_mutation, Event, on_event, after_events,
}
use jolarca.Admin.Turns.{
  IsTurn, IsReasoned, IsOrderly, run_decision-IsOrderly, run_correction-IsOrderly, open_dialog,
  close_pending, close_editing,
}
use jolarca.Admin.Answers.{settle_queue-waiting, settle_mutation-waiting}

-- A change of what does not take turns.
same_turn :
    (s next : Moderation)
    → next.in_flight ≡ s.in_flight
    → next.requested ≡ s.requested
    → ((waiting : List Waiting) → IsTurn waiting s → IsTurn waiting next)
    → IsOrderly s
    → IsOrderly next
same_turn s next e f turn h = record {
  waiting = h.waiting;
  waits = e ∙ h.waits;
  turn = turn h.waiting h.turn;
  reasoned = subst (All IsReasoned) (sym f) h.reasoned;
}

on_event-IsOrderly : (event : Event) (s : Moderation) → IsOrderly s → IsOrderly (on_event event s)
unfolding on_event
on_event-IsOrderly (Event.show_preview row) s h =
    if-either IsOrderly (is_ready s.state)
      (same_turn s (record s { preview = some row }) refl refl (λ waiting turn. turn) h) h
on_event-IsOrderly (Event.edit row) s h =
    if-cases IsOrderly (is_ready s.state)
      (λ ready_.
        same_turn s (edit_row row s) refl refl
          (λ waiting. open_dialog s s.pending (some row) waiting ready_) h)
      (λ e. h)
on_event-IsOrderly (Event.choose decision row) s h =
    if-cases IsOrderly (is_ready s.state)
      (λ ready_.
        same_turn s
          (record s { pending = some (decision, row.id); reason = first_reason s.pending s.reason })
          refl refl (λ waiting. open_dialog s (some (decision, row.id)) s.editing waiting ready_) h)
      (λ e. h)
on_event-IsOrderly Event.hide_preview s h =
    same_turn s (record s { preview = none }) refl refl (λ waiting turn. turn) h
on_event-IsOrderly Event.cancel_edit s h =
    same_turn s (record s { editing = none }) refl refl (close_editing s) h
on_event-IsOrderly Event.cancel s h =
    same_turn s (record s { pending = none }) refl refl (close_pending s) h
on_event-IsOrderly Event.confirm s h = run_decision-IsOrderly s.pending s refl h
on_event-IsOrderly Event.submit_edit s h = run_correction-IsOrderly s.editing s refl h
on_event-IsOrderly (Event.type_reason reason) s h =
    same_turn s (record s { reason = reason }) refl refl (λ waiting turn. turn) h
on_event-IsOrderly (Event.type_edit form) s h =
    same_turn s (record s { edit_form = form }) refl refl (λ waiting turn. turn) h
on_event-IsOrderly (Event.queue_answered n answer) s h =
    subst (λ waiting. IsOrderly (settle_queue (pick n waiting) answer s)) (sym h.waits)
      (settle_queue-waiting n answer s h.waiting h.waits h.turn h.reasoned)
on_event-IsOrderly (Event.mutation_answered n answer) s h =
    subst (λ waiting. IsOrderly (settle_mutation (pick n waiting) answer s)) (sym h.waits)
      (settle_mutation-waiting n answer s h.waiting h.waits h.turn h.reasoned)

after_events-IsOrderly :
    (events : List Event) (s : Moderation) → IsOrderly s → IsOrderly (after_events events s)
unfolding after_events
after_events-IsOrderly [] s h = h
after_events-IsOrderly (event ∷ events) s h =
    after_events-IsOrderly events (on_event event s) (on_event-IsOrderly event s h)

length-turn : (waiting : List Waiting) (s : Moderation) → IsTurn waiting s → length waiting ≤ 1
length-turn [] s h = omega arith
length-turn (queue true ∷ []) s h = omega arith
length-turn (queue false ∷ []) s h = omega arith
length-turn (mutation m ∷ []) s h = omega arith
length-turn (first ∷ (second ∷ others)) s h = absurd h

-- Whatever the moderator opens, types, confirms and cancels, and whenever the answers come: at most
-- one call of the page waits for its answer, and every rejection that was requested has a reason that
-- is not blank.
pub after_events-orderly :
    (events : List Event)
    → let s = after_events events initial in (length s.in_flight ≤ 1) × All IsReasoned s.requested
after_events-orderly events =
    let h = after_events-IsOrderly events initial (record {
      waiting = queue false ∷ [];
      waits = refl;
      turn = (refl, refl, refl, refl);
      reasoned = tt;
    }) in
    (
      subst (λ waiting. length waiting ≤ 1) (sym h.waits)
          (length-turn h.waiting (after_events events initial) h.turn),
      h.reasoned,
    )
