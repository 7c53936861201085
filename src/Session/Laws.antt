-- ===== src/Session/Laws.antt =====
-- What the session calls of frontend/src/lib/auth.ts leave, and what the hooks do beside them.
use jolarca.Common.{
  String, ◌≡◌, refl, true, false, ◌⊎◌, inl, inr, Option, none, some, [], not, ◌&&◌, ◌is◌, if-either,
}
use jolarca.Json.{Value}
use jolarca.Errors.{Thrown, Result, ok, throw}
use jolarca.Http.{Call, settled, rejected, Fetched, is_ok, failure}
use jolarca.Cart.Store.{CartState, clear_cart}
use jolarca.Logging.State.{Logger}
use jolarca.Session.Hooks.{redirect_to_login, is_session_probe, on_response}
use jolarca.Session.Calls.{logout, get_session}

-- A logout either throws and leaves the cart as it was, or clears it and throws nothing.
pub logout-clear_cart :
    (fresh : String) (call : Call) (cart : CartState)
    → ((e : Thrown) × (logout fresh call cart ≡ (cart, throw e)))
      ⊎ (logout fresh call cart ≡ (clear_cart cart, ok tt))
unfolding logout
logout-clear_cart fresh (rejected e) cart = inl (e, refl)
logout-clear_cart fresh (settled res) cart =
    if-either
      (λ (left : CartState × Result (Unit {0})).
        ((e : Thrown) × (left ≡ (cart, throw e))) ⊎ (left ≡ (clear_cart cart, ok tt)))
      (not (is_ok res.response) && not (res.response.status is 401)) (inl (failure fresh res, refl))
      (inr refl)

-- Where the backend answers a visitor's probe of the session with 401, the session is null and the
-- response hook neither leaves the page nor shows a toast.
pub guest_probe :
    {User : Type 0} (parse : Option Value → Result User) (fresh : String) (res : Fetched)
    (path : Option String) (url : String) (header : Option String) (logger : Logger)
    → res.response.status ≡ 401
    → is_session_probe url ≡ true
    → (get_session parse fresh (settled res) ≡ ok none)
      × ((on_response path url res.response.status header logger).assigned ≡ none)
      × ((on_response path url res.response.status header logger).toasts ≡ [])
unfolding get_session on_response
guest_probe parse fresh res path url header logger status probe = (
  rw (status, get_session) refl,
  rw (status, probe, on_response) refl,
  rw (status, probe, on_response) refl,
)

-- Any other call that is answered by 401, also a login with a wrong password, sends the browser to
-- the login page.
pub on_response_unauthorized :
    (path url : String) (header : Option String) (logger : Logger)
    → is_session_probe url ≡ false
    → (on_response (some path) url 401 header logger).assigned ≡ redirect_to_login (some path)
unfolding on_response
on_response_unauthorized path url header logger other = rw (other, on_response) refl
