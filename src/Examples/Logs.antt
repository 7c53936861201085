-- ===== src/Examples/Logs.antt =====
-- A log whose texts are cut at the first @, an error that is logged, and a card number.
use Prim.Native.Char.{code}
use Prim.Native.String.{[] as empty, ◌∷◌ as ◌∷ˢ◌}
use jolarca.Common.{
  if-cases, ◌is◌, String, ◌<>◌, ◌≡◌, ◌≤◌, refl, true, false, none, some, List, [], ◌∷◌, arith,
}
use jolarca.Common.Text.{includes_code, before_code}
use jolarca.Logging.Luhn.{luhn_valid, luhn_valid_substituted}
use jolarca.Common.Int.{pos}
use jolarca.Json.{num, obj, prop, end}
use jolarca.Logging.Redaction.{number, text, at, object, Heap, is_private_key, redact_from}
use jolarca.Logging.Cleaning.{depth, redact_from-depth}
use jolarca.Logging.State.{Level, LogRecord, Logger, initial, post, Moment}
use jolarca.Logging.Queue.{flush_logs, settle_flush}
use jolarca.Logging.Delivery.{settle_flush-flush_logs}
use jolarca.Logging.Invariant.{IsSound}
use jolarca.Logging.Runs.{Event, handle_all, handle_all-IsSound}

abbrev mask : String → String
mask s = before_code b'@' s

abbrev keep : String → String
keep s = s

abbrev replace_candidates : (String → String) → String → String
replace_candidates redact s = redact s

abbrev HasNoAt : String → Type 0
HasNoAt s = includes_code b'@' s ≡ false

mask-HasNoAt : (s : String) → HasNoAt (mask s)
unfolding includes_code before_code
mask-HasNoAt empty = refl
mask-HasNoAt (c ∷ˢ s) =
    if-cases HasNoAt (code c is b'@') (λ e. refl) (λ e. rw (e, includes_code) (mask-HasNoAt s))

abbrev moment : Moment
moment = record {
  now = "2026-01-01T00:00:00Z";
  random_id = "4f1c2a";
  path = some "/lt/cart";
  transport = post;
}

-- An object that holds a text and itself.
abbrev heap : Heap
heap reference = object (("note", text "write to ona@example.lt") ∷ ("self", at 0) ∷ [])

abbrev day : List Event
day =
    Event.log moment Level.warn "ona@example.lt left" heap (some (at 0)) none
    ∷ Event.interval post
    ∷ Event.settle 0 false
    ∷ []

handle_all-IsSound_example :
    IsSound HasNoAt (handle_all replace_candidates mask keep keep true day initial)
unfolding includes_code
handle_all-IsSound_example =
    handle_all-IsSound replace_candidates mask keep keep true HasNoAt mask-HasNoAt refl refl day
      ((λ reference. tt), (tt, (tt, tt)))

-- An address that stands as a key is kept.
abbrev keyed : Heap
keyed reference = object (("ona@example.lt", number (pos 1)) ∷ [])

key_kept :
    redact_from mask is_private_key "[REDACTED]" keyed 7 (at 0)
    ≡ obj (prop "ona@example.lt" (num (pos 1)) end)
unfolding redact_from is_private_key
key_kept = refl

redact_from-depth_example : depth (redact_from mask is_private_key "[REDACTED]" heap 7 (at 0)) ≤ 8
redact_from-depth_example = redact_from-depth mask is_private_key "[REDACTED]" heap 7 (at 0)

abbrev entry : LogRecord
entry = record {
  ts = "2026-01-01T00:00:00Z";
  level = Level.warn;
  msg = "left";
  request_id = "4f1c2a";
  trace_id = none;
  user_id = none;
  path = none;
  redacted_data = none;
}

abbrev waiting : Logger
waiting = record initial { queue = entry ∷ entry ∷ [] }

settle_flush-flush_logs_example : settle_flush 0 false (flush_logs post waiting) ≡ waiting
settle_flush-flush_logs_example = settle_flush-flush_logs waiting (omega arith)

luhn_valid_substituted_example : luhn_valid ("4111" <> ("2" ∷ˢ "11111111111")) ≡ false
unfolding luhn_valid
luhn_valid_substituted_example =
    luhn_valid_substituted "4111" "11111111111" "1" "2" 1 2 refl refl (omega arith) refl
