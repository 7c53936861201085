-- ===== src/Rows.antt =====
-- The shape that the API layers give to a list of an answer:
-- `raw.map((entry) => row or null).filter((row) => row !== null)`.
use jolarca.Common.{
  String, ◌≡◌, refl, true, false, Option, List, [], ◌∷◌, ◌++◌, map, if◌then◌else◌, Option-cases,
  inl, inr,
}
use jolarca.Common.Lists.{All, present}
use jolarca.Json.{Value, get, array_or_empty, is_nullish}
use jolarca.Errors.{Thrown, Result, ok, throw, type_error, ◌>>=◌}
use jolarca.Http.{Call, checked, payload}

-- What the engine throws where a property of null is read.
abbrev pub null_access : Thrown
null_access = type_error "Cannot read properties of null"

module _ {ℓ} {A : Type ℓ} (row : Value → Option A) where
  -- The callback first reads a property of the entry.
  unfoldable pub read_row : Value → Result (Option A)
  unfolding is_nullish
  read_row raw = if is_nullish raw then throw null_access else ok (row raw)

  unfoldable pub parse_rows : List Value → Result (List A)
  unfolding read_row
  parse_rows [] = ok []
  parse_rows (raw ∷ raws) = do
    parsed ← read_row raw
    rows ← parse_rows raws
    ok (present (parsed ∷ []) ++ rows)

  -- The rows of a member of an answer; a member that is no array has none.
  unfoldable pub rows_at : String → Value → Result (List A)
  unfolding parse_rows array_or_empty get
  rows_at key answer = parse_rows (array_or_empty (get answer key))

  -- The rows of a successful call's answer.
  unfoldable pub fetch_rows : (fresh : String) → String → Call → Result (List A)
  unfolding checked payload rows_at
  fetch_rows fresh key call = do res ← checked fresh call; rows_at key (payload res)

  -- With no null among the entries the rows are those that the callback gives, in order.
  pub parse_rows-present :
      (raws : List Value)
      → All (λ raw. is_nullish raw ≡ false) raws
      → parse_rows raws ≡ ok (present (map row raws))
  unfolding parse_rows read_row
  parse_rows-present [] h = refl
  parse_rows-present (raw ∷ raws) (here, h) =
      rw (here, parse_rows-present raws h)
        (elim (Option-cases (row raw)) [ inl none_ ↦ rw none_ | inr (a, some_) ↦ rw some_ ])

  -- One null among the entries makes the parse throw, whatever stands before and after it.
  pub parse_rows-null :
      (before after : List Value) (raw : Value)
      → All (λ entry. is_nullish entry ≡ false) before
      → is_nullish raw ≡ true
      → parse_rows (before ++ raw ∷ after) ≡ throw null_access
  unfolding parse_rows read_row
  parse_rows-null [] after raw h null_ = rw null_
  parse_rows-null (entry ∷ before) after raw (here, h) null_ =
      rw (here, parse_rows-null before after raw h null_)
