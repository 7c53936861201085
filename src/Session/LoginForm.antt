-- ===== src/Session/LoginForm.antt =====
-- The login form, frontend/src/components/client/login-form.tsx. Times are in milliseconds, and the
-- clock does not run backwards.
use jolarca.Common.{
  ℕ, ◌+◌, String, ◌<>◌, Bool, true, false, not, ◌||◌, ◌is◌, Option, none, some, List, [], ◌∷◌, ◌++◌,
  ltb, leb, ◌==◌, if◌then◌else◌,
}
use jolarca.Common.Lists.{pick}
use jolarca.Common.Text.{is_empty}
use jolarca.Json.{Value}
use jolarca.Errors.{Thrown, api, non_error, Result, ok, throw, name_of, message_of}
use jolarca.Http.{Call, settled, rejected}
use jolarca.Session.Calls.{login}
use jolarca.Routing.Redirects.{safe_redirect_target}

abbrev pub lock_ms : ℕ
lock_ms = 5000

-- What is read of an issue: the first part of its path, and its message.
abbrev pub Issue : Type 0
Issue = String × String

abbrev pub has_text : Option String → Bool
has_text none = false
has_text (some text) = if is_empty text then false else true

-- `if (key matches && !next[key]) next[key] = issue.message`, for one of the fields.
abbrev pub note_messages : (key : String) → List Issue → Option String → Option String
note_messages key [] shown = shown
note_messages key ((name, message) ∷ issues) shown =
    note_messages key issues
      (if name == key then (if has_text shown then shown else some message) else shown)

-- `String(error)`
abbrev pub error_text : (name message : String) → String
error_text name message =
    if is_empty message then name else if is_empty name then message else name <> ": " <> message

-- The message of an API error, verbatim, else the error as a text.
unfoldable pub form_message : Thrown → String
form_message (api e) = e.message
form_message (non_error text) = text
form_message e = error_text (name_of e) (message_of e)

-- The state of the component since it was mounted, with the clock, the timers that end a lock by the
-- time they are due, the times of the login calls and of their failures, the newest first, and the
-- pages that were pushed.
pub record LoginForm : Type 0 where
  pub email : String
  pub password : String
  pub remember : Bool
  pub email_error : Option String
  pub password_error : Option String
  pub form_error : Option String
  pub pending : Bool
  pub locked_until : ℕ
  pub locked : Bool
  pub now : ℕ
  pub timers : List ℕ
  pub attempts : List ℕ
  pub failures : List ℕ
  pub pushed : List String

abbrev pub initial : (now : ℕ) → LoginForm
initial now = record {
  email = "";
  password = "";
  remember = false;
  email_error = none;
  password_error = none;
  form_error = none;
  pending = false;
  locked_until = 0;
  locked = false;
  now = now;
  timers = [];
  attempts = [];
  failures = [];
  pushed = [];
}

-- Whether the response hook of frontend/src/lib/api-client.ts sends the browser to the login page: on
-- a 401, which is also the answer to a wrong password. The navigation is taken to happen at once.
abbrev pub is_sent_away : Call → Bool
is_sent_away (settled res) = res.response.status is 401
is_sent_away (rejected e) = false

-- `engageLock`
unfoldable pub engage_lock : LoginForm → LoginForm
engage_lock s = record s {
  locked = true;
  locked_until = s.now + lock_ms;
  timers = s.timers ++ (s.now + lock_ms) ∷ [];
}

-- A timer whose time has come ends the lock.
abbrev pub end_lock : Option (ℕ × List ℕ) → LoginForm → LoginForm
end_lock none s = s
end_lock (some (due, others)) s =
    if leb due s.now then record s { locked = false; timers = others } else s

-- What the visitor does, the time that passes, and the answers: a login call ends with those of its
-- two requests.
pub data Event : Type 0 where
  type_email type_password : String → Event
  check_remember : Bool → Event
  blur_email blur_password submit : Event
  pass : ℕ → Event
  timer : ℕ → Event
  answered : (fresh : String) → (login_call session_call : Call) → Event

-- `email` and `password` give the message of a field's first issue, `schema` the issues of both;
-- `parse` is the schema of the session's user, `target` the parameter `redirect` of the page.
module _ {User : Type 0} (email_issue password_issue : String → Option String)
    (schema : (email password : String) → Option (List Issue)) (parse : Option Value → Result User)
    (target : Option String) where
  -- `handleSubmit` behind its guard, up to the call.
  abbrev pub send : Option (List Issue) → LoginForm → LoginForm
  send (some issues) s = record s {
    email_error = note_messages "email" issues none;
    password_error = note_messages "password" issues none;
  }
  send none s = record s { pending = true; form_error = none; attempts = s.now ∷ s.attempts }

  unfoldable pub handle_submit : LoginForm → LoginForm
  handle_submit s =
      if s.pending || s.locked || ltb s.now s.locked_until
      then s
      else send (schema s.email s.password) s

  -- `handleSubmit` from the answer on.
  abbrev pub end_login : Result User → LoginForm → LoginForm
  end_login (ok user) s = record s {
    pending = false;
    pushed = safe_redirect_target target ∷ s.pushed;
  }
  end_login (throw e) s =
      let shown = record s { form_error = some (form_message e); failures = s.now ∷ s.failures } in
      record (engage_lock shown) { pending = false }

  -- The answer to the login call or its failure; a 401 loads the page of the login anew, so that a new
  -- form stands in place of this one.
  unfoldable pub settle_login :
      (fresh : String) → (login_call session_call : Call) → LoginForm → LoginForm
  unfolding engage_lock login safe_redirect_target form_message
  settle_login fresh login_call session_call s =
      if not s.pending
      then s
      else if is_sent_away login_call
      then initial s.now
      else end_login (login parse fresh login_call session_call) s

  unfoldable pub on_event : Event → LoginForm → LoginForm
  unfolding handle_submit settle_login pick
  on_event (type_email value) s = record s { email = value }
  on_event (type_password value) s = record s { password = value }
  on_event (check_remember value) s = record s { remember = value }
  on_event blur_email s = record s { email_error = email_issue s.email }
  on_event blur_password s = record s { password_error = password_issue s.password }
  on_event submit s = handle_submit s
  on_event (pass time) s = record s { now = s.now + time }
  on_event (timer n) s = end_lock (pick n s.timers) s
  on_event (answered fresh login_call session_call) s = settle_login fresh login_call session_call s

  unfoldable pub after_events : List Event → LoginForm → LoginForm
  unfolding on_event
  after_events [] s = s
  after_events (event ∷ events) s = after_events events (on_event event s)
