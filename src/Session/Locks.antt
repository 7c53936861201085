-- ===== src/Session/Locks.antt =====
-- The pause after a failed login in frontend/src/components/client/login-form.tsx.
use jolarca.Common.{
  ℕ, ◌+◌, ◌≤◌, String, not, ◌||◌, ◌⊎◌, inl, inr, Option, none, some, List, [], ◌∷◌, ltb, leb,
  if-either, if-cases, arith,
}
use jolarca.Common.Lists.{All, All-mono, pick}
use jolarca.Json.{Value}
use jolarca.Errors.{Result, ok, throw}
use jolarca.Session.Calls.{login}
use jolarca.Session.LoginForm.{
  lock_ms, Issue, LoginForm, initial, end_lock, Event, send, handle_submit, end_login, settle_login,
  on_event, after_events, engage_lock, is_sent_away,
}

-- An attempt that was made before a failure, or once the pause behind it was over.
abbrev pub IsApart : (attempt failure : ℕ) → Type 0
IsApart attempt failure = (attempt ≤ failure) ⊎ (failure + lock_ms ≤ attempt)

record AreSpaced (attempts failures : List ℕ) (now until : ℕ) : Type 0 where
  spaced : All (λ attempt. All (IsApart attempt) failures) attempts
  past : All (λ attempt. attempt ≤ now) attempts
  failed_past : All (λ failure. failure ≤ now) failures
  held : All (λ failure. failure + lock_ms ≤ until) failures

abbrev IsSpaced : LoginForm → Type 0
IsSpaced s = AreSpaced s.attempts s.failures s.now s.locked_until

initial-IsSpaced : (now : ℕ) → IsSpaced (initial now)
initial-IsSpaced now = record { spaced = tt; past = tt; failed_past = tt; held = tt }

end_lock-IsSpaced :
    (due : Option (ℕ × List ℕ)) (s : LoginForm) → IsSpaced s → IsSpaced (end_lock due s)
end_lock-IsSpaced none s h = h
end_lock-IsSpaced (some (due, others)) s h = if-either IsSpaced (leb due s.now) h h

pass-IsSpaced : (time : ℕ) (s : LoginForm) → IsSpaced s → IsSpaced (record s { now = s.now + time })
pass-IsSpaced time s h = record {
  spaced = h.spaced;
  past =
      All-mono (λ attempt. attempt ≤ s.now) (λ attempt. attempt ≤ s.now + time)
        (λ attempt p. omega (arith, p)) s.attempts h.past;
  failed_past =
      All-mono (λ failure. failure ≤ s.now) (λ failure. failure ≤ s.now + time)
        (λ failure p. omega (arith, p)) s.failures h.failed_past;
  held = h.held;
}

module _ {User : Type 0} (email_issue password_issue : String → Option String)
    (schema : (email password : String) → Option (List Issue)) (parse : Option Value → Result User)
    (target : Option String) where
  send-IsSpaced :
      (issues : Option (List Issue)) (s : LoginForm)
      → s.locked_until ≤ s.now
      → IsSpaced s
      → IsSpaced (send email_issue password_issue schema parse target issues s)
  send-IsSpaced (some issues) s free h = h
  send-IsSpaced none s free h = record {
    spaced = (
      All-mono (λ failure. failure + lock_ms ≤ s.locked_until) (IsApart s.now)
          (λ failure p. inr (omega (arith, p, free))) s.failures h.held,
      h.spaced,
    );
    past = (omega arith, h.past);
    failed_past = h.failed_past;
    held = h.held;
  }

  end_login-IsSpaced :
      (result : Result User) (s : LoginForm)
      → IsSpaced s
      → IsSpaced (end_login email_issue password_issue schema parse target result s)
  unfolding engage_lock
  end_login-IsSpaced (ok user) s h = h
  end_login-IsSpaced (throw e) s h = record {
    spaced = failed_now s.attempts h.past h.spaced;
    past = h.past;
    failed_past = (omega arith, h.failed_past);
    held = (
      omega arith,
      All-mono (λ failure. failure ≤ s.now) (λ failure. failure + lock_ms ≤ s.now + lock_ms)
          (λ failure p. omega (arith, p)) s.failures h.failed_past,
    );
  }
    where
      failed_now :
          (attempts : List ℕ)
          → All (λ attempt. attempt ≤ s.now) attempts
          → All (λ attempt. All (IsApart attempt) s.failures) attempts
          → All (λ attempt. All (IsApart attempt) (s.now ∷ s.failures)) attempts
      failed_now [] past spaced = tt
      failed_now (attempt ∷ attempts) (p, past) (q, spaced) =
          ((inl p, q), failed_now attempts past spaced)

  on_event-IsSpaced :
      (event : Event) (s : LoginForm)
      → IsSpaced s
      → IsSpaced (on_event email_issue password_issue schema parse target event s)
  unfolding on_event handle_submit settle_login
  on_event-IsSpaced (Event.type_email value) s h = h
  on_event-IsSpaced (Event.type_password value) s h = h
  on_event-IsSpaced (Event.check_remember value) s h = h
  on_event-IsSpaced Event.blur_email s h = h
  on_event-IsSpaced Event.blur_password s h = h
  on_event-IsSpaced Event.submit s h =
      if-cases IsSpaced (s.pending || s.locked || ltb s.now s.locked_until) (λ closed. h)
        (λ open_. send-IsSpaced (schema s.email s.password) s (ground (arith, open_)) h)
  on_event-IsSpaced (Event.pass time) s h = pass-IsSpaced time s h
  on_event-IsSpaced (Event.timer n) s h = end_lock-IsSpaced (pick n s.timers) s h
  on_event-IsSpaced (Event.answered fresh login_call session_call) s h =
      if-either IsSpaced (not s.pending) h (
        if-either IsSpaced (is_sent_away login_call) (initial-IsSpaced s.now)
          (end_login-IsSpaced (login parse fresh login_call session_call) s h))

  after_events-IsSpaced :
      (events : List Event) (s : LoginForm)
      → IsSpaced s
      → IsSpaced (after_events email_issue password_issue schema parse target events s)
  unfolding after_events
  after_events-IsSpaced [] s h = h
  after_events-IsSpaced (event ∷ events) s h =
      after_events-IsSpaced events (on_event email_issue password_issue schema parse target event s)
        (on_event-IsSpaced event s h)

  -- Whatever the visitor types and submits, whenever the answers come and the timers fire: of a login
  -- call and a failure that the form has seen since the page was last loaded, either the call was made
  -- no later than the failure, or five seconds had passed since it. (A 401, the answer to a wrong
  -- password, loads the page anew, and with it an unlocked form that has seen neither.)
  pub attempts-AreApart :
      (events : List Event) (now : ℕ)
      → let s = after_events email_issue password_issue schema parse target events (initial now) in
        All (λ attempt. All (IsApart attempt) s.failures) s.attempts
  attempts-AreApart events now =
      (after_events-IsSpaced events (initial now) (initial-IsSpaced now)).spaced
