-- ===== src/Session/Calls.antt =====
-- The operations of frontend/src/lib/auth.ts, each from the outcomes of its calls. `parse` is
-- `SessionUserSchema.parse`, which may throw.
use jolarca.Common.{String, not, ◌&&◌, ◌||◌, Option, none, some, ◌is◌, if◌then◌else◌}
use jolarca.Json.{Value}
use jolarca.Errors.{Thrown, api, Result, ok, throw, ◌>>=◌}
use jolarca.Http.{Call, settled, rejected, Fetched, is_ok, failure, checked}
use jolarca.Cart.Store.{CartState, clear_cart}

abbrev pub session_unavailable : (fresh : String) → Thrown
session_unavailable fresh = api (record {
  status = 500;
  code = "session_unavailable";
  message = "Session could not be loaded";
  details = none;
  trace_id = fresh;
})

-- `register` and `requestPasswordReset`
unfoldable pub unit_call : (fresh : String) → Call → Result (Unit {0})
unfolding checked
unit_call fresh call = do res ← checked fresh call; ok tt

unfoldable pub register : (fresh : String) → Call → Result (Unit {0})
unfolding unit_call
register fresh call = unit_call fresh call

unfoldable pub request_password_reset : (fresh : String) → Call → Result (Unit {0})
unfolding unit_call
request_password_reset fresh call = unit_call fresh call

-- `logout`: what is left of the cart, and the error that it throws.
abbrev pub leave_session : (fresh : String) → Fetched → CartState → CartState × Result (Unit {0})
leave_session fresh res cart =
    if not (is_ok res.response) && not (res.response.status is 401)
    then (cart, throw (failure fresh res))
    else (clear_cart cart, ok tt)

unfoldable pub logout : (fresh : String) → Call → CartState → CartState × Result (Unit {0})
unfolding is_ok failure clear_cart
logout fresh (rejected e) cart = (cart, throw e)
logout fresh (settled res) cart = leave_session fresh res cart

module _ {ℓ} {User : Type ℓ} (parse : Option Value → Result User) where
  abbrev found : User → Result (Option User)
  found user = ok (some user)

  abbrev pub probe : (fresh : String) → Fetched → Result (Option User)
  probe fresh res =
      if res.response.status is 401 || res.response.status is 403
      then ok none
      else if is_ok res.response
      then parse res.data_ >>= found
      else throw (failure fresh res)

  unfoldable pub get_session : (fresh : String) → Call → Result (Option User)
  unfolding is_ok failure
  get_session fresh (rejected e) = throw e
  get_session fresh (settled res) = probe fresh res

  abbrev pub present_session : (fresh : String) → Option User → Result User
  present_session fresh none = throw (session_unavailable fresh)
  present_session fresh (some user) = ok user

  unfoldable pub login : (fresh : String) → (login_call session_call : Call) → Result User
  unfolding checked get_session
  login fresh login_call session_call = do
    res ← checked fresh login_call
    session ← get_session fresh session_call
    present_session fresh session
