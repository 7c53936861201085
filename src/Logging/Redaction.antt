-- ===== src/Logging/Redaction.antt =====
-- The deep redactions: `redactObject` of frontend/src/lib/logger.ts and `scrubPii` of
-- frontend/src/lib/sanitization.ts. Objects refer to one another, also in circles: a heap gives what
-- stands at a reference.
use jolarca.Common.{
  ℕ, zero, suc, String, Bool, true, false, ◌&&◌, ◌||◌, List, [], ◌∷◌, map, ◌is◌, ◌==◌,
  if◌then◌else◌,
}
use jolarca.Common.Int.{ℤ}
use jolarca.Common.Lists.{any}
use jolarca.Common.Text.{codes, lower_code, occurs}
use jolarca.Json.{
  Value, undefined, null, bool, num, str, arr, obj, Elems, Props, nil, cons, end, prop,
}

-- What a member or an entry holds: a text, a number, a boolean, null, undefined, or a reference.
pub data Entry : Type 0 where
  text : String → Entry
  number : ℤ → Entry
  boolean : Bool → Entry
  nothing missing : Entry
  at : ℕ → Entry

pub data Node : Type 0 where
  error : (name message : String) → Node
  array : List Entry → Node
  object : List (String × Entry) → Node

abbrev pub Heap : Type 0
Heap = ℕ → Node

abbrev pub to_elems : List Value → Elems
to_elems [] = nil
to_elems (v ∷ vs) = cons v (to_elems vs)

abbrev pub to_props : List (String × Value) → Props
to_props [] = end
to_props ((key, v) ∷ vs) = prop key v (to_props vs)

-- `redact_text` redacts a text, `is_private` tells the keys whose values are personal, `redacted`
-- stands for such a value.
module _ (redact_text : String → String) (is_private : String → Bool) (redacted : String) where
  -- The entries of an object, once its entries' redaction is known.
  unfoldable pub redact_members : (Entry → Value) → List (String × Entry) → List (String × Value)
  redact_members redact [] = []
  redact_members redact ((key, entry) ∷ members) =
      (key, if is_private key then str redacted else redact entry) ∷ redact_members redact members

  unfoldable pub redact_node : (Entry → Value) → Node → Value
  unfolding redact_members
  redact_node redact (error name message) =
      obj (prop "name" (str name) (prop "message" (str (redact_text message)) end))
  redact_node redact (array entries) = arr (to_elems (map redact entries))
  redact_node redact (object members) = obj (to_props (redact_members redact members))

  -- With `remaining` levels left: past the deepest level everything is cut.
  unfoldable pub redact_from : Heap → (remaining : ℕ) → Entry → Value
  unfolding redact_node
  redact_from heap zero entry = str "[TRUNCATED]"
  redact_from heap (suc remaining) (text s) = str (redact_text s)
  redact_from heap (suc remaining) (number n) = num n
  redact_from heap (suc remaining) (boolean b) = bool b
  redact_from heap (suc remaining) nothing = null
  redact_from heap (suc remaining) missing = undefined
  redact_from heap (suc remaining) (at reference) =
      redact_node (redact_from heap remaining) (heap reference)

abbrev is_line_end : ℕ → Bool
is_line_end c = c is 10 || c is 13 || c is 0x2028 || c is 0x2029

-- What a dot of a pattern matches of a text, from its start.
unfoldable pub first_line : List ℕ → List ℕ
first_line [] = []
first_line (c ∷ cs) = if is_line_end c then [] else c ∷ first_line cs

unfoldable pub one_line : List ℕ → Bool
one_line [] = true
one_line (c ∷ cs) = if is_line_end c then false else one_line cs

unfoldable pub any_occurs : List String → List ℕ → Bool
unfolding occurs codes
any_occurs words cs = any (λ word. occurs (codes word) cs) words

-- `PII_KEY_PATTERN` of the logger, in any case: a word anywhere in a key of one line, or one of the
-- second list in the key's first line.
unfoldable pub is_private_key : String → Bool
unfolding any_occurs first_line one_line codes lower_code
is_private_key key =
    let cs = map lower_code (codes key) in
    (one_line cs && any_occurs ("email" ∷ "phone" ∷ "password" ∷ "secret" ∷ "token" ∷ []) cs)
    || any_occurs
        ("firstname" ∷ "first_name" ∷ "lastname" ∷ "last_name" ∷ "fullname" ∷ "full_name" ∷ "name"
          ∷ "street" ∷ "address" ∷ "city" ∷ "postal" ∷ "zip" ∷ "dob" ∷ "birth" ∷ "ip" ∷ [])
        (first_line cs)

-- `PII_KEY` of the scrubber, which tells cases apart.
unfoldable pub is_scrubbed_key : String → Bool
unfolding any_occurs codes
is_scrubbed_key key =
    key == "name"
    || any_occurs
        ("email" ∷ "password" ∷ "secret" ∷ "token" ∷ "credential" ∷ "phone" ∷ "firstname"
          ∷ "first_name" ∷ "lastname" ∷ "last_name" ∷ "fullname" ∷ "full_name" ∷ "vardas"
          ∷ "pavarde" ∷ "uzvards" ∷ "name_" ∷ "street" ∷ "address" ∷ "adres" ∷ "adrese" ∷ "city"
          ∷ "miestas" ∷ "postal" ∷ "zip" ∷ "dob" ∷ "birth" ∷ "personalcode" ∷ "personal_code"
          ∷ "asmens" ∷ "ip" ∷ [])
        (codes key)

-- `MAX_DEPTH` is 6 in the logger and 8 in the scrubber, and the deepest level is kept.
unfoldable pub redact_object : (redact_text : String → String) → Heap → Entry → Value
unfolding redact_from is_private_key
redact_object redact_text heap entry =
    redact_from redact_text is_private_key "[REDACTED]" heap 7 entry

unfoldable pub scrub_pii : (scrub_text : String → String) → Heap → Entry → Value
unfolding redact_from is_scrubbed_key
scrub_pii scrub_text heap entry = redact_from scrub_text is_scrubbed_key "[REDACTED]" heap 9 entry
