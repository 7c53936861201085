-- ===== src/Logging/Queue.antt =====
-- The log queue of frontend/src/lib/logger.ts: what enters it, when it is sent, and what returns to
-- it. What the browser gives at a call (the time, a random id, the page's path, the transport) is an
-- argument; `replace_cards`, `replace_emails` and `replace_phones` are the replacements by the
-- three patterns.
use jolarca.Common.{
  ℕ, ◌-◌, String, Bool, true, false, Option, none, some, List, [], ◌∷◌, ◌++◌, ltb, leb,
  if◌then◌else◌,
}
use jolarca.Common.Lists.{pick, length, drop}
use jolarca.Json.{Value}
use jolarca.Logging.Luhn.{luhn_valid}
use jolarca.Logging.Redaction.{Entry, Heap, redact_object}
use jolarca.Logging.State.{
  Level, level_rank, min_level, max_batch, max_buffer, LogRecord, Logger, Transport, beacon,
  broken_beacon, post, Moment,
}
use jolarca.Logging.Identity.{get_request_id}

-- The older records first; the oldest go if there are too many.
unfoldable pub requeue : List LogRecord → List LogRecord → List LogRecord
requeue batch queue =
    let records = batch ++ queue in
    if ltb max_buffer (length records) then drop (length records - max_buffer) records else records

abbrev pub hand_over : Transport → List LogRecord → Logger → Logger
hand_over beacon batch logger = logger
hand_over broken_beacon batch logger = record logger { queue = requeue batch logger.queue }
hand_over post batch logger = record logger { in_flight = logger.in_flight ++ batch ∷ [] }

abbrev pub hand_over_some : Transport → List LogRecord → Logger → Logger
hand_over_some transport [] logger = logger
hand_over_some transport (r ∷ records) logger =
    hand_over transport (r ∷ records) (record logger { queue = [] })

-- `flushLogs` up to the answer: the whole queue is the batch.
unfoldable pub flush_logs : Transport → Logger → Logger
unfolding requeue
flush_logs transport logger = hand_over_some transport logger.queue logger

-- `flushLogs` from the answer on. The answer is ok, or it is not or there is none.
unfoldable pub settle_flush : ℕ → (ok : Bool) → Logger → Logger
unfolding pick requeue
settle_flush n ok logger = elim (pick n logger.in_flight) [
  | none ↦ logger
  | some (batch, others) ↦
      let settled = record logger { in_flight = others } in
      if ok then settled else record settled { queue = requeue batch settled.queue }
]

unfoldable pub schedule_flush : (path : Option String) → Logger → Logger
schedule_flush none logger = logger
schedule_flush (some path) logger =
    if logger.flush_timer then logger else record logger { flush_timer = true; is_listening = true }

-- The timer's call and the listener's, which is called once.
unfoldable pub on_interval : Transport → Logger → Logger
unfolding flush_logs
on_interval transport logger = if logger.flush_timer then flush_logs transport logger else logger

unfoldable pub on_page_hide : Transport → Logger → Logger
unfolding flush_logs
on_page_hide transport logger =
    if logger.is_listening
    then flush_logs transport (record logger { is_listening = false })
    else logger

-- The end of `enqueue`: a full queue is sent, else the timer is set.
unfoldable pub push_record : Moment → LogRecord → Logger → Logger
unfolding flush_logs schedule_flush
push_record moment entry logger =
    let pushed = record logger { queue = logger.queue ++ entry ∷ [] } in
    if leb max_batch (length pushed.queue)
    then flush_logs moment.transport pushed
    else schedule_flush moment.path pushed

module _ (replace_cards : (String → String) → String → String)
    (replace_emails replace_phones : String → String) (digits_of : String → String) where
  -- Only candidates that pass the Luhn check are card numbers; `digits_of` drops blanks and dashes.
  unfoldable pub redact_card : String → String
  unfolding luhn_valid
  redact_card candidate = if luhn_valid (digits_of candidate) then "[REDACTED_CARD]" else candidate

  unfoldable pub redact_string : String → String
  unfolding redact_card
  redact_string value = replace_phones (replace_emails (replace_cards redact_card value))

  abbrev redact_data : Heap → Option Entry → Option Value
  redact_data heap none = none
  redact_data heap (some entry) = some (redact_object redact_string heap entry)

  -- The record of a call, in a logger that has its request id.
  unfoldable pub record_of :
      Moment → Level → String → Heap → Option Entry → Option String → String → Logger → LogRecord
  unfolding redact_string redact_object
  record_of moment level msg heap payload trace_id request_id logger = record {
    ts = moment.now;
    level = level;
    msg = redact_string msg;
    request_id = request_id;
    trace_id = trace_id;
    user_id = logger.hashed_user_id;
    path = moment.path;
    redacted_data = redact_data heap payload;
  }

  -- `data` is `none` where the call gives none or `undefined`.
  unfoldable pub enqueue :
      (is_production : Bool)
      → Moment
      → Level
      → String
      → Heap
      → Option Entry
      → Option String
      → Logger
      → Logger
  unfolding level_rank get_request_id record_of push_record
  enqueue is_production moment level msg heap payload trace_id logger =
      if ltb (level_rank level) (level_rank (min_level is_production))
      then logger
      else let (request_id, identified) = get_request_id moment.random_id logger in
        push_record moment (record_of moment level msg heap payload trace_id request_id identified)
          identified
