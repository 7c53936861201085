-- ===== src/Logging/Runs.antt =====
-- The log of frontend/src/lib/logger.ts over any order of calls, answers and events of the page.
use jolarca.Common.{ℕ, String, Bool, Option, none, some, List, [], ◌∷◌, ltb, arith, if-either}
use jolarca.Common.Lists.{All}
use mathlib.Core.Path.{subst}
use mathlib.Core.Option.{some-injective}
use jolarca.Logging.Redaction.{Entry, Heap, redact_object, is_private_key}
use jolarca.Logging.Cleaning.{AllTexts, HasCleanName, redact_from-AllTexts}
use jolarca.Logging.Queue.{
  settle_flush, on_interval, on_page_hide, redact_string, record_of, enqueue,
}
use jolarca.Logging.State.{Level, level_rank, min_level, Logger, initial, Transport, Moment}
use jolarca.Logging.Identity.{
  get_request_id, set_request_id, capture_request_id, settle_user_id, clear_user_id,
}
use jolarca.Logging.Invariant.{
  IsClean, IsSound, on_interval-IsSound, on_page_hide-IsSound, settle_flush-IsSound,
  push_record-IsSound, get_request_id-IsSound, capture_request_id-IsSound,
}

-- One call of the module, one answer, or one event of the page.
pub data Event : Type 0 where
  log : Moment → Level → String → Heap → Option Entry → Option String → Event
  interval page_hide : Transport → Event
  settle : ℕ → (ok : Bool) → Event
  capture : (header : Option String) → Event
  assign : (id : String) → Event
  digested : Option (List ℕ) → Event
  forget : Event

module _ (replace_cards : (String → String) → String → String)
    (replace_emails replace_phones : String → String) (digits_of : String → String)
    (is_production : Bool) where
  -- One event, and a sequence of them.
  unfoldable pub handle : Event → Logger → Logger
  unfolding on_interval on_page_hide settle_flush capture_request_id set_request_id settle_user_id
      clear_user_id enqueue
  handle (log moment level msg heap payload trace_id) =
      enqueue replace_cards replace_emails replace_phones digits_of is_production moment level msg
        heap payload trace_id
  handle (interval transport) = on_interval transport
  handle (page_hide transport) = on_page_hide transport
  handle (settle n ok) = settle_flush n ok
  handle (capture header) = capture_request_id header
  handle (assign id) = set_request_id id
  handle (digested digest) = settle_user_id digest
  handle forget = clear_user_id

  unfoldable pub handle_all : List Event → Logger → Logger
  unfolding handle
  handle_all [] logger = logger
  handle_all (event ∷ events) logger = handle_all events (handle event logger)

  -- The errors in a payload have clean names: those are kept as they are.
  abbrev pub IsNamed : (String → Type 0) → Event → Type 0
  IsNamed P (log moment level msg heap payload trace_id) =
      (reference : ℕ) → HasCleanName P (heap reference)
  IsNamed P _ = Unit

  record_of-IsClean :
      (P : String → Type 0)
      → ((s : String) → P (replace_phones (replace_emails s)))
      → P "[REDACTED]"
      → P "[TRUNCATED]"
      → (moment : Moment) (level : Level) (msg : String) (heap : Heap) (payload : Option Entry)
        (trace_id : Option String) (request_id : String) (logger : Logger)
      → ((reference : ℕ) → HasCleanName P (heap reference))
      → IsClean P (
          record_of replace_cards replace_emails replace_phones digits_of moment level msg heap
            payload trace_id request_id logger)
  unfolding record_of redact_string redact_object
  record_of-IsClean P clean mark cut moment level msg heap none trace_id request_id logger named =
      record { msg = clean _; payload = λ value e. absurd (cc) }
  record_of-IsClean P clean mark cut moment level msg heap (some entry) trace_id request_id logger
        named =
      record {
        msg = clean _;
        payload = λ value e. subst (AllTexts P) (some-injective _ _ e) (
            redact_from-AllTexts
              (redact_string replace_cards replace_emails replace_phones digits_of) is_private_key
              "[REDACTED]" P heap (λ s. clean _) mark cut named 7 entry);
      }

  handle-IsSound :
      (P : String → Type 0)
      → ((s : String) → P (replace_phones (replace_emails s)))
      → P "[REDACTED]"
      → P "[TRUNCATED]"
      → (event : Event) (logger : Logger) → IsNamed P event
      → IsSound P logger
      → IsSound P (handle event logger)
  unfolding handle enqueue
  handle-IsSound P clean mark cut (log moment level msg heap payload trace_id) logger named h =
      let (id, identified) = get_request_id moment.random_id logger in
      if-either (IsSound P) (ltb (level_rank level) (level_rank (min_level is_production))) h (
        push_record-IsSound P moment _ identified
          (record_of-IsClean P clean mark cut moment level msg heap payload trace_id id identified
            named)
          (get_request_id-IsSound P moment.random_id logger h))
  handle-IsSound P clean mark cut (interval transport) logger named h =
      on_interval-IsSound P transport logger h
  handle-IsSound P clean mark cut (page_hide transport) logger named h =
      on_page_hide-IsSound P transport logger h
  handle-IsSound P clean mark cut (settle n ok) logger named h =
      settle_flush-IsSound P n ok logger h
  handle-IsSound P clean mark cut (capture header) logger named h =
      capture_request_id-IsSound P header logger h
  handle-IsSound P clean mark cut (assign id) logger named h =
      unfold set_request_id in record { bounded = h.bounded; waiting = h.waiting; sent = h.sent }
  handle-IsSound P clean mark cut (digested none) logger named h =
      unfold settle_user_id in record { bounded = h.bounded; waiting = h.waiting; sent = h.sent }
  handle-IsSound P clean mark cut (digested (some bytes)) logger named h =
      unfold settle_user_id in record { bounded = h.bounded; waiting = h.waiting; sent = h.sent }
  handle-IsSound P clean mark cut forget logger named h =
      unfold clear_user_id in record { bounded = h.bounded; waiting = h.waiting; sent = h.sent }

  kept_by_all :
      (P : String → Type 0)
      → ((s : String) → P (replace_phones (replace_emails s)))
      → P "[REDACTED]"
      → P "[TRUNCATED]"
      → (events : List Event) (logger : Logger) → All (IsNamed P) events
      → IsSound P logger
      → IsSound P (handle_all events logger)
  unfolding handle_all
  kept_by_all P clean mark cut [] logger named h = h
  kept_by_all P clean mark cut (event ∷ events) logger (good, named) h =
      kept_by_all P clean mark cut events (handle event logger) named
        (handle-IsSound P clean mark cut event logger good h)

  -- After any calls, answers and events of the page, in any order, at most 100 records wait, and in
  -- each record that waits or is on its way the message is clean, and so is each text that a member of
  -- an object or an entry of an array holds in the payload: if texts without email addresses and phone
  -- numbers are, the two marks are, and the names of the errors that were logged. The keys of the
  -- payload's objects are kept as they are, and nothing is said of them.
  pub handle_all-IsSound :
      (P : String → Type 0)
      → ((s : String) → P (replace_phones (replace_emails s)))
      → P "[REDACTED]"
      → P "[TRUNCATED]"
      → (events : List Event) → All (IsNamed P) events
      → IsSound P (handle_all events initial)
  handle_all-IsSound P clean mark cut events named =
      kept_by_all P clean mark cut events initial named
        (record { bounded = omega arith; waiting = tt; sent = tt })
