-- ===== src/Logging/Identity.antt =====
-- The request id and the user's hash of frontend/src/lib/logger.ts.
use Prim.Native.Nat.{◌/◌, ◌%◌}
use Prim.Native.Char.{code}
use Prim.Native.String.{[] as empty, ◌∷◌ as ◌∷ˢ◌}
use jolarca.Common.{
  ℕ, zero, suc, String, ◌<>◌, Bool, true, ◌&&◌, ◌||◌, Option, none, some, List, [], ◌∷◌, leb, ◌is◌,
  if◌then◌else◌,
}
use jolarca.Common.Text.{is_empty, length_of, slice_to}
use jolarca.Logging.State.{Logger}

unfoldable pub get_request_id : (random_id : String) → Logger → String × Logger
get_request_id random_id logger =
    if is_empty logger.request_id
    then (random_id, record logger { request_id = random_id })
    else (logger.request_id, logger)

unfoldable pub set_request_id : String → Logger → Logger
set_request_id id logger = record logger { request_id = id }

abbrev is_id_code : ℕ → Bool
is_id_code c =
    (leb b'A' c && leb c b'Z')
    || (leb b'a' c && leb c b'z')
    || (leb b'0' c && leb c b'9')
    || c is b'_'
    || c is b'.'
    || c is b'-'

unfoldable pub has_id_codes : String → Bool
has_id_codes empty = true
has_id_codes (c ∷ˢ s) = is_id_code (code c) && has_id_codes s

-- `/^[A-Za-z0-9_.-]{1,64}$/`
unfoldable pub is_request_id : String → Bool
unfolding length_of has_id_codes
is_request_id id = leb 1 (length_of id) && leb (length_of id) 64 && has_id_codes id

unfoldable pub capture_request_id : (header : Option String) → Logger → Logger
unfolding is_request_id
capture_request_id none logger = logger
capture_request_id (some header) logger =
    if is_request_id header then record logger { request_id = header } else logger

abbrev hex_digit : ℕ → String
hex_digit zero = "0"
hex_digit (suc zero) = "1"
hex_digit (suc (suc zero)) = "2"
hex_digit (suc (suc (suc zero))) = "3"
hex_digit (suc (suc (suc (suc zero)))) = "4"
hex_digit (suc (suc (suc (suc (suc zero))))) = "5"
hex_digit (suc (suc (suc (suc (suc (suc zero)))))) = "6"
hex_digit (suc (suc (suc (suc (suc (suc (suc zero))))))) = "7"
hex_digit (suc (suc (suc (suc (suc (suc (suc (suc zero)))))))) = "8"
hex_digit (suc (suc (suc (suc (suc (suc (suc (suc (suc zero))))))))) = "9"
hex_digit (suc (suc (suc (suc (suc (suc (suc (suc (suc (suc n)))))))))) =
    if n is 0
    then "a"
    else if n is 1
    then "b"
    else if n is 2
    then "c"
    else if n is 3
    then "d"
    else if n is 4
    then "e"
    else "f"

-- `byte.toString(16).padStart(2, "0")` of all bytes, joined.
unfoldable pub hex : List ℕ → String
hex [] = ""
hex (byte ∷ bytes) = hex_digit (byte / 16) <> (hex_digit (byte % 16) <> hex bytes)

-- The end of `setUserId`: the digest, if it could be computed.
unfoldable pub settle_user_id : (digest : Option (List ℕ)) → Logger → Logger
unfolding hex slice_to
settle_user_id none logger = record logger { hashed_user_id = none }
settle_user_id (some bytes) logger = record logger {
  hashed_user_id = some (slice_to 12 (hex bytes));
}

unfoldable pub clear_user_id : Logger → Logger
clear_user_id logger = record logger { hashed_user_id = none }
