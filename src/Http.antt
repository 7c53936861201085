-- ===== src/Http.antt =====
-- What a call of the generated API client gives back, and `unwrapOk`.
use jolarca.Common.{ℕ, String, Bool, Option, ◌&&◌, leb, if◌then◌else◌, or_else}
use jolarca.Json.{Value, undefined, or_empty}
use jolarca.Errors.{Thrown, api, Result, ok, throw, from_response}

-- The response, with what its body parses to.
pub record Response : Type 0 where
  pub status : ℕ
  pub status_text : String
  pub json : Option Value

-- openapi-fetch's result.
pub record Fetched : Type 0 where
  pub response : Response
  pub data_ : Option Value
  pub error : Option Value

-- A call settles with a result, or is rejected.
pub data Call : Type 0 where
  settled : Fetched → Call
  rejected : Thrown → Call

-- `response.ok`
unfoldable pub is_ok : Response → Bool
is_ok r = leb 200 r.status && leb r.status 299

-- `throw await ApiError.fromResponse(res.response, res.error)`
unfoldable pub failure : (fresh : String) → Fetched → Thrown
unfolding from_response
failure fresh f =
    api (from_response fresh f.response.status f.response.status_text f.response.json f.error)

-- `res.data ?? {}`
unfoldable pub payload : Fetched → Value
unfolding or_empty
payload f = or_empty (or_else f.data_ undefined)

-- The wait for a call, and the test of `res.response.ok` that throws.
unfoldable pub checked : (fresh : String) → Call → Result Fetched
unfolding is_ok failure
checked fresh (rejected e) = throw e
checked fresh (settled f) = if is_ok f.response then ok f else throw (failure fresh f)
