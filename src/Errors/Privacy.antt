-- ===== src/Errors/Privacy.antt =====
-- What the shapes that leave the browser depend on, and where their trace id comes from.
use jolarca.Common.{String, ◌≡◌, refl, Option, none, some, List, [], ◌∷◌, arith, ap}
use jolarca.Common.Record.{Entries}
use jolarca.Errors.{
  Thrown, api, validation, network, auth, permission, app, keys, serialize_error, safe_user_message,
}

-- The error without its response body and without the values of its fields.
abbrev pub blank {ℓ} : {V : Type ℓ} → Entries (List V) → Entries (List V)
blank [] = []
blank ((k, v) ∷ m) = (k, []) ∷ blank m

abbrev pub strip : Thrown → Thrown
strip (api e) = api (record e { details = none })
strip (validation fields message trace) = validation (blank fields) message trace
strip e = e

keys-blank {ℓ} : {V : Type ℓ} (m : Entries (List V)) → keys (blank m) ≡ keys m
unfolding keys
keys-blank [] = refl
keys-blank ((k, v) ∷ m) = ap (◌∷◌ k) (keys-blank m)

-- What is logged of an error is the same if its response body and the values of its fields are
-- taken away first.
pub serialize_error-strip :
    (fresh : String) (e : Thrown) → serialize_error fresh (strip e) ≡ serialize_error fresh e
unfolding serialize_error
serialize_error-strip fresh (api e) = ground arith
serialize_error-strip fresh (validation fields message trace) = ground (arith, keys-blank fields)
serialize_error-strip fresh _ = refl

-- The trace id of an `AppError`.
abbrev pub own_trace : Thrown → Option String
own_trace (api e) = some e.trace_id
own_trace (validation fields message trace) = some trace
own_trace (network message trace) = some trace
own_trace (auth kind message trace) = some trace
own_trace (permission message trace) = some trace
own_trace (app message trace) = some trace
own_trace _ = none

-- An error of the program's own classes keeps its trace id: the log entry and the message on
-- the screen both carry it, whatever new id is minted meanwhile.
pub trace_kept :
    (fresh trace : String) (e : Thrown)
    → own_trace e ≡ some trace
    → ((serialize_error fresh e).trace_id ≡ trace) × ((safe_user_message fresh e).1 ≡ trace)
unfolding serialize_error safe_user_message
trace_kept fresh trace (api e) h = ground arith
trace_kept fresh trace _ h = ground arith
