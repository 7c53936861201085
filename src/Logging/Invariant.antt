-- ===== src/Logging/Invariant.antt =====
-- What each operation of the log queue of frontend/src/lib/logger.ts keeps.
use jolarca.Common.{
  ℕ, ◌-◌, ◌≤◌, String, ◌≡◌, refl, ap, Bool, true, false, inl, inr, Option, none, some, List, [],
  ◌∷◌, ◌++◌, ltb, leb, arith, Bool-cases, Option-cases, if-either,
}
use jolarca.Common.Lists.{
  pick, ArePicked, pick-ArePicked, length, All, length-drop, All-append, All-drop,
}
use mathlib.Core.Path.{subst}
use jolarca.Common.Text.{is_empty}
use jolarca.Json.{Value}
use jolarca.Logging.Cleaning.{AllTexts}
use jolarca.Logging.Queue.{
  requeue, hand_over_some, flush_logs, settle_flush, schedule_flush, on_interval, on_page_hide,
  push_record,
}
use jolarca.Logging.State.{
  max_buffer, LogRecord, Logger, Transport, beacon, broken_beacon, post, Moment,
}
use jolarca.Logging.Identity.{get_request_id, capture_request_id, is_request_id}

requeue-length : (batch queue : List LogRecord) → length (requeue batch queue) ≤ max_buffer
unfolding requeue
requeue-length batch queue =
    ground (arith, length-drop (length (batch ++ queue) - 100) (batch ++ queue))

-- The texts of a record that come from its caller: all satisfy P.
pub record IsClean (P : String → Type 0) (entry : LogRecord) : Type 0 where
  pub msg : P entry.msg
  pub payload : (value : Value) → entry.redacted_data ≡ some value → AllTexts P value

-- At most 100 records wait, and all that wait or are on their way are clean.
pub record IsSound (P : String → Type 0) (logger : Logger) : Type 0 where
  pub bounded : length logger.queue ≤ 100
  pub waiting : All (IsClean P) logger.queue
  pub sent : All (All (IsClean P)) logger.in_flight

module _ (P : String → Type 0) where
  requeue-clean :
      (batch queue : List LogRecord)
      → All (IsClean P) batch
      → All (IsClean P) queue
      → All (IsClean P) (requeue batch queue)
  unfolding requeue
  requeue-clean batch queue h k = elim (Bool-cases (ltb 100 (length (batch ++ queue)))) [
    | inl over ↦
        rw (over, requeue)
          (All-drop (IsClean P) (length (batch ++ queue) - 100) (batch ++ queue)
            (All-append (IsClean P) batch queue h k))
    | inr fits ↦ rw (fits, requeue) (All-append (IsClean P) batch queue h k)
  ]

  hand_over-IsSound :
      (transport : Transport) (queue : List LogRecord) (logger : Logger)
      → logger.queue ≡ queue
      → All (IsClean P) queue
      → All (All (IsClean P)) logger.in_flight
      → IsSound P (hand_over_some transport queue logger)
  hand_over-IsSound transport [] logger q h k = record {
    bounded = ground (arith, ap length q);
    waiting = rw q tt;
    sent = k;
  }
  hand_over-IsSound beacon (r ∷ records) logger q h k = record {
    bounded = omega arith;
    waiting = tt;
    sent = k;
  }
  hand_over-IsSound broken_beacon (r ∷ records) logger q h k = record {
    bounded = requeue-length (r ∷ records) [];
    waiting = requeue-clean (r ∷ records) [] h tt;
    sent = k;
  }
  hand_over-IsSound post (r ∷ records) logger q h k = record {
    bounded = omega arith;
    waiting = tt;
    sent = All-append (All (IsClean P)) logger.in_flight ((r ∷ records) ∷ []) k (h, tt);
  }

  pub flush_logs-IsSound :
      (transport : Transport) (logger : Logger)
      → All (IsClean P) logger.queue
      → All (All (IsClean P)) logger.in_flight
      → IsSound P (flush_logs transport logger)
  unfolding flush_logs
  flush_logs-IsSound transport logger h k = hand_over-IsSound transport logger.queue logger refl h k

  pub settle_flush-IsSound :
      (n : ℕ) (ok : Bool) (logger : Logger)
      → IsSound P logger
      → IsSound P (settle_flush n ok logger)
  unfolding settle_flush
  settle_flush-IsSound n true logger h = elim (Option-cases (pick n logger.in_flight)) [
    | inl missing ↦ rw (missing, settle_flush) h
    | inr ((batch, others), found) ↦
        let (clean, rest) =
          subst (ArePicked (All (IsClean P))) found
            (pick-ArePicked (All (IsClean P)) n logger.in_flight h.sent) in
        rw (found, settle_flush) (record { bounded = h.bounded; waiting = h.waiting; sent = rest })
  ]
  settle_flush-IsSound n false logger h = elim (Option-cases (pick n logger.in_flight)) [
    | inl missing ↦ rw (missing, settle_flush) h
    | inr ((batch, others), found) ↦
        let (clean, rest) =
          subst (ArePicked (All (IsClean P))) found
            (pick-ArePicked (All (IsClean P)) n logger.in_flight h.sent) in
        rw (found, settle_flush)
          (record {
            bounded = requeue-length batch logger.queue;
            waiting = requeue-clean batch logger.queue clean h.waiting;
            sent = rest;
          })
  ]

  pub on_interval-IsSound :
      (transport : Transport) (logger : Logger)
      → IsSound P logger
      → IsSound P (on_interval transport logger)
  unfolding on_interval
  on_interval-IsSound transport logger h =
      if-either (IsSound P) logger.flush_timer
        (flush_logs-IsSound transport logger h.waiting h.sent) h

  pub on_page_hide-IsSound :
      (transport : Transport) (logger : Logger)
      → IsSound P logger
      → IsSound P (on_page_hide transport logger)
  unfolding on_page_hide
  on_page_hide-IsSound transport logger h =
      if-either (IsSound P) logger.is_listening
        (flush_logs-IsSound transport (record logger { is_listening = false }) h.waiting h.sent) h

  schedule_flush-IsSound :
      (path : Option String) (logger : Logger)
      → IsSound P logger
      → IsSound P (schedule_flush path logger)
  unfolding schedule_flush
  schedule_flush-IsSound none logger h = h
  schedule_flush-IsSound (some path) logger h =
      if-either (IsSound P) logger.flush_timer h
        (record { bounded = h.bounded; waiting = h.waiting; sent = h.sent })

  pub push_record-IsSound :
      (moment : Moment) (entry : LogRecord) (logger : Logger)
      → IsClean P entry
      → IsSound P logger
      → IsSound P (push_record moment entry logger)
  unfolding push_record
  push_record-IsSound moment entry logger clean h =
      let waiting : All (IsClean P) (logger.queue ++ entry ∷ []) =
        All-append (IsClean P) logger.queue (entry ∷ []) h.waiting (clean, tt) in
      elim (Bool-cases (leb 20 (length (logger.queue ++ entry ∷ [])))) [
        | inl full ↦ rw (full, push_record) (flush_logs-IsSound moment.transport _ waiting h.sent)
        | inr room ↦
            rw (room, push_record)
              (schedule_flush-IsSound moment.path
                (record logger { queue = logger.queue ++ entry ∷ [] })
                (record { bounded = ground arith; waiting = waiting; sent = h.sent }))
      ]

  pub get_request_id-IsSound :
      (id : String) (logger : Logger) → IsSound P logger → IsSound P (get_request_id id logger).1
  unfolding get_request_id
  get_request_id-IsSound id logger h =
      if-either (λ (found : String × Logger). IsSound P found.1) (is_empty logger.request_id)
        (record { bounded = h.bounded; waiting = h.waiting; sent = h.sent }) h

  pub capture_request_id-IsSound :
      (header : Option String) (logger : Logger)
      → IsSound P logger
      → IsSound P (capture_request_id header logger)
  unfolding capture_request_id
  capture_request_id-IsSound none logger h = h
  capture_request_id-IsSound (some header) logger h =
      if-either (IsSound P) (is_request_id header)
        (record { bounded = h.bounded; waiting = h.waiting; sent = h.sent }) h
