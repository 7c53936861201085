-- ===== src/Logging/State.antt =====
-- The records and the variables of frontend/src/lib/logger.ts.
use jolarca.Common.{ℕ, String, Bool, true, false, Option, none, List, []}
use jolarca.Json.{Value}

pub data Level : Type 0 where
  debug info warn error : Level

unfoldable pub level_rank : Level → ℕ
level_rank debug = 0
level_rank info = 1
level_rank warn = 2
level_rank error = 3

abbrev pub min_level : (is_production : Bool) → Level
min_level true = info
min_level false = debug

abbrev pub max_batch : ℕ
max_batch = 20

abbrev pub max_buffer : ℕ
max_buffer = 100

pub record LogRecord : Type 0 where
  pub ts : String
  pub level : Level
  pub msg : String
  pub request_id : String
  pub trace_id : Option String
  pub user_id : Option String
  pub path : Option String
  pub redacted_data : Option Value

-- The module's variables, with the batches whose answer is outstanding, and whether the listener
-- for the page's end is set.
pub record Logger : Type 0 where
  pub request_id : String
  pub hashed_user_id : Option String
  pub queue : List LogRecord
  pub flush_timer : Bool
  pub is_listening : Bool
  pub in_flight : List (List LogRecord)

abbrev pub initial : Logger
initial = record {
  request_id = "";
  hashed_user_id = none;
  queue = [];
  flush_timer = false;
  is_listening = false;
  in_flight = [];
}

-- A beacon that is handed over, one that throws, or a POST.
pub data Transport : Type 0 where
  beacon broken_beacon post : Transport

-- What the browser gives at a call: `path` is the location's if there is a window.
pub record Moment : Type 0 where
  pub now : String
  pub random_id : String
  pub path : Option String
  pub transport : Transport
