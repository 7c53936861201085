-- ===== src/Funeral/Confirmed.antt =====
-- What the confirmation of frontend/src/components/client/funeral/consultation-form.tsx stands for.
use jolarca.Common.{
  String, ◌≡◌, ◌≢◌, refl, Bool, true, false, not, ◌&&◌, ◌⊎◌, inl, inr, Option, none, some, List, [],
  ◌∷◌, if◌then◌else◌, if-either,
}
use jolarca.Common.Lists.{All, All-append, pick, ArePicked, pick-ArePicked}
use jolarca.Errors.{Result, ok, throw}
use jolarca.Cart.Item.{is_contract_pending}
use jolarca.Funeral.{ConsultationDraft, Issue}
use jolarca.Funeral.Consultation
use jolarca.Funeral.Consultation.{
  Form, Request, ConsultationForm, initial, is_success, is_submitting, run_timer, open_for, close,
  shows_form, send, end_submit, settle_submit, Event, handle_submit, on_event, after_events,
}

module _ (schema : Form → ConsultationDraft ⊎ List Issue) where
  -- The schema made the request's draft of a form.
  pub record IsDrafted (request : Request) : Type 0 where
    pub form : Form
    pub parsed : schema form ≡ inl request.0

  -- A success is that of an accepted request, and the timer runs over a success that is shown, and
  -- over nothing else.
  pub record IsConfirmed (s : ConsultationForm) : Type 0 where
    pub success : is_success s.outcome ≡ true → s.accepted ≢ []
    pub timer : s.timer ≡ (s.is_open && is_success s.outcome)

  abbrev pub IsHonest : ConsultationForm → Type 0
  IsHonest s = IsConfirmed s × All IsDrafted s.in_flight × All IsDrafted s.accepted

  open_for-IsHonest :
      (slug : Option String) (s : ConsultationForm) → IsHonest s → IsHonest (open_for slug s)
  open_for-IsHonest slug s (confirmed, waiting, accepted) =
      if-either IsHonest s.is_open
        (record { success = confirmed.success; timer = confirmed.timer }, waiting, accepted)
        (record { success = λ e. absurd (cc); timer = refl }, waiting, accepted)

  close-IsHonest : (s : ConsultationForm) → IsHonest s → IsHonest (close s)
  close-IsHonest s (confirmed, waiting, accepted) =
      (record { success = confirmed.success; timer = refl }, waiting, accepted)

  send-IsHonest :
      (parsed : ConsultationDraft ⊎ List Issue) (s : ConsultationForm)
      → schema s.form ≡ parsed
      → IsHonest s
      → IsHonest (send parsed s)
  send-IsHonest (inr issues) s e (confirmed, waiting, accepted) =
      (record { success = confirmed.success; timer = confirmed.timer }, waiting, accepted)
  send-IsHonest (inl draft) s e (confirmed, waiting, accepted) = (
    record { success = λ e. absurd (cc); timer = refl },
    All-append IsDrafted s.in_flight ((draft, s.provider_slug) ∷ []) waiting
        (record { form = s.form; parsed = e }, tt),
    accepted,
  )

  failed-ne :
      (b : Bool) → is_success (if b then Consultation.portal_pending else Consultation.error) ≢ true
  failed-ne true = λ e. cc
  failed-ne false = λ e. cc

  end_submit-IsHonest :
      (request : Request) (answer : Result (Unit {0})) (s : ConsultationForm)
      → IsDrafted request
      → IsHonest s
      → IsHonest (end_submit request answer s)
  end_submit-IsHonest request (ok done) s drafted (confirmed, waiting, accepted) =
      (record { success = λ e. λ f. cc; timer = refl }, waiting, (drafted, accepted))
  end_submit-IsHonest request (throw e) s drafted (confirmed, waiting, accepted) = (
    record { success = λ f. absurd (failed-ne (is_contract_pending e) f); timer = refl },
    waiting,
    accepted,
  )

  settle_picked :
      (picked : Option (Request × List Request)) (answer : Result (Unit {0})) (s : ConsultationForm)
      → ArePicked IsDrafted picked
      → IsHonest s
      → IsHonest (elim picked [
        | none ↦ s
        | some (request, others) ↦ end_submit request answer (record s { in_flight = others })
      ])
  settle_picked none answer s h honest = honest
  settle_picked (some (request, others)) answer s (drafted, rest) (confirmed, waiting, accepted) =
      end_submit-IsHonest request answer (record s { in_flight = others }) drafted
        (record { success = confirmed.success; timer = confirmed.timer }, rest, accepted)

  on_event-IsHonest :
      (event : Event) (s : ConsultationForm) → IsHonest s → IsHonest (on_event schema event s)
  unfolding on_event
  on_event-IsHonest (Event.opened slug) s h = open_for-IsHonest slug s h
  on_event-IsHonest Event.closed s h = close-IsHonest s h
  on_event-IsHonest Event.submit s h =
      unfold handle_submit in
      if-either IsHonest (shows_form s && not (is_submitting s.outcome))
        (send-IsHonest (schema s.form) s refl h) h
  on_event-IsHonest Event.timer_ends s h = if-either IsHonest s.timer (close-IsHonest s h) h
  on_event-IsHonest (Event.type_field key value) s (confirmed, waiting, accepted) =
      if-either IsHonest (shows_form s)
        (record { success = confirmed.success; timer = confirmed.timer }, waiting, accepted)
        (confirmed, waiting, accepted)
  on_event-IsHonest (Event.answered n answer) s h =
      unfold settle_submit in
      settle_picked (pick n s.in_flight) answer s (pick-ArePicked IsDrafted n s.in_flight h.1) h

  after_events-keeps :
      (events : List Event) (s : ConsultationForm)
      → IsHonest s
      → IsHonest (after_events schema events s)
  unfolding after_events
  after_events-keeps [] s h = h
  after_events-keeps (event ∷ events) s h =
      after_events-keeps events (on_event schema event s) (on_event-IsHonest event s h)

  -- Whatever the visitor, the timer and the answers do: a success is there only if a request has been
  -- accepted; the timer that closes the dialog runs exactly while the dialog is open over a success;
  -- and each request that is sent or accepted is a draft that the schema made of a form.
  pub after_events-IsHonest :
      (events : List Event) (service_type : String)
      → IsHonest (after_events schema events (initial service_type))
  after_events-IsHonest events service_type =
      after_events-keeps events (initial service_type)
        (record { success = λ e. absurd (cc); timer = refl }, tt, tt)
