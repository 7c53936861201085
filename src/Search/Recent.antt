-- ===== src/Search/Recent.antt =====
-- The recent searches in the local storage: `readRecentSearches` and `writeRecentSearch`.
use jolarca.Common.{
  ℕ, zero, suc, String, ◌≤◌, ◌≡◌, refl, ap, Bool, true, false, not, List, [], ◌∷◌, arith,
  if◌then◌else◌, ◌==◌, Bool-cases, inl, inr, sym, ◌∙◌,
}
use mathlib.Core.Path.{subst}
use jolarca.Common.Text.{is_empty, trim}
use jolarca.Common.Lists.{length, take, filter, length-take-le}
use jolarca.Json.{Value, arr, str, Elems, nil, cons, elems, array_or_empty, texts}

-- What the storage holds under the key: reading it may throw, there may be nothing (or an empty
-- text), or a text that is no JSON.
pub data Stored : Type 0 where
  unavailable absent unparsable : Stored
  parsed : Value → Stored

abbrev pub recent_searches_limit : ℕ
recent_searches_limit = 5

unfoldable pub read_recent_searches : Stored → List String
unfolding array_or_empty texts
read_recent_searches unavailable = []
read_recent_searches absent = []
read_recent_searches unparsable = []
read_recent_searches (parsed v) = take recent_searches_limit (texts (array_or_empty v))

-- `JSON.stringify` of a list of texts, as it is read back.
unfoldable pub text_elems : List String → Elems
text_elems [] = nil
text_elems (s ∷ ss) = cons (str s) (text_elems ss)

abbrev pub with_recent : String → List String → List String
with_recent q recents = take recent_searches_limit (q ∷ filter (λ entry. not (entry == q)) recents)

-- `full`: whether `setItem` throws.
abbrev store : Bool → List String → Stored → Stored
store full next unavailable = unavailable
store true next stored = stored
store false next stored = parsed (arr (text_elems next))

unfoldable pub write_recent_search : (full : Bool) → String → Stored → Stored
unfolding trim read_recent_searches text_elems
write_recent_search full term stored =
    let q = trim term in
    if is_empty q then stored else store full (with_recent q (read_recent_searches stored)) stored

texts-text_elems : (ss : List String) → texts (elems (text_elems ss)) ≡ ss
unfolding texts elems text_elems
texts-text_elems [] = refl
texts-text_elems (s ∷ ss) = ap (◌∷◌ s) (texts-text_elems ss)

take-take : (n : ℕ) (ss : List String) → take n (take n ss) ≡ take n ss
take-take zero ss = refl
take-take (suc n) [] = refl
take-take (suc n) (s ∷ ss) = ap (◌∷◌ s) (take-take n ss)

abbrev IsOpen : Stored → Type 0
IsOpen unavailable = ⊥
IsOpen _ = Unit

-- After a search for a term that is not blank, in a storage that takes it, the recent searches are
-- the trimmed term and then the earlier ones without it, five at most.
pub read-write_recent_search :
    (term : String) (stored : Stored)
    → IsOpen stored
    → is_empty (trim term) ≡ false
    → read_recent_searches (write_recent_search false term stored)
      ≡ with_recent (trim term) (read_recent_searches stored)
unfolding write_recent_search array_or_empty
read-write_recent_search term unavailable o h = absurd o
read-write_recent_search term stored o h = rw h (
    ap (take recent_searches_limit)
      (texts-text_elems (with_recent (trim term) (read_recent_searches stored)))
    ∙ take-take recent_searches_limit
        (trim term ∷ filter (λ entry. not (entry == trim term)) (read_recent_searches stored)))

abbrev pub NotIn : String → List String → Type 0
NotIn s [] = Unit
NotIn s (t ∷ ts) = ((t == s) ≡ false) × NotIn s ts

abbrev pub HasNoRepeats : List String → Type 0
HasNoRepeats [] = Unit
HasNoRepeats (s ∷ ss) = NotIn s ss × HasNoRepeats ss

NotIn-filter :
    (s q : String) (ss : List String) → NotIn s ss → NotIn s (filter (λ entry. not (entry == q)) ss)
NotIn-filter s q [] h = tt
NotIn-filter s q (t ∷ ss) (n, h) = ground (arith, NotIn-filter s q ss h)

NotIn-filter_self :
    (q : String) (ss : List String) → NotIn q (filter (λ entry. not (entry == q)) ss)
NotIn-filter_self q [] = tt
NotIn-filter_self q (t ∷ ss) = ground (arith, NotIn-filter_self q ss)

HasNoRepeats-filter :
    (q : String) (ss : List String)
    → HasNoRepeats ss
    → HasNoRepeats (filter (λ entry. not (entry == q)) ss)
HasNoRepeats-filter q [] h = tt
HasNoRepeats-filter q (s ∷ ss) (n, h) =
    ground (arith, NotIn-filter s q ss n, HasNoRepeats-filter q ss h)

NotIn-take : (n : ℕ) (s : String) (ss : List String) → NotIn s ss → NotIn s (take n ss)
NotIn-take zero s ss h = tt
NotIn-take (suc n) s [] h = tt
NotIn-take (suc n) s (t ∷ ss) (k, h) = (k, NotIn-take n s ss h)

HasNoRepeats-take : (n : ℕ) (ss : List String) → HasNoRepeats ss → HasNoRepeats (take n ss)
HasNoRepeats-take zero ss h = tt
HasNoRepeats-take (suc n) [] h = tt
HasNoRepeats-take (suc n) (s ∷ ss) (k, h) = (NotIn-take n s ss k, HasNoRepeats-take n ss h)

HasNoRepeats-with_recent :
    (q : String) (recents : List String)
    → HasNoRepeats recents
    → HasNoRepeats (with_recent q recents)
HasNoRepeats-with_recent q recents h =
    HasNoRepeats-take recent_searches_limit (q ∷ filter (λ entry. not (entry == q)) recents)
      (NotIn-filter_self q recents, HasNoRepeats-filter q recents h)

unfoldable pub write_all : List (Bool × String) → Stored → Stored
unfolding write_recent_search
write_all [] stored = stored
write_all ((full, term) ∷ searches) stored =
    write_all searches (write_recent_search full term stored)

write_recent_search-HasNoRepeats :
    (full : Bool) (term : String) (stored : Stored)
    → HasNoRepeats (read_recent_searches stored)
    → HasNoRepeats (read_recent_searches (write_recent_search full term stored))
unfolding write_recent_search
write_recent_search-HasNoRepeats full term unavailable h =
    elim (Bool-cases (is_empty (trim term))) [ inl empty ↦ rw empty h | inr full_ ↦ rw full_ h ]
write_recent_search-HasNoRepeats true term stored h = elim (Bool-cases (is_empty (trim term))) [
  | inl empty ↦ rw empty h
  | inr full_ ↦ rw full_ h
]
write_recent_search-HasNoRepeats false term stored h = elim (Bool-cases (is_empty (trim term))) [
  | inl empty ↦ rw empty h
  | inr some_ ↦
      subst HasNoRepeats (sym (read-write_recent_search term stored tt some_))
        (HasNoRepeats-with_recent (trim term) (read_recent_searches stored) h)
]

read-length : (stored : Stored) → length (read_recent_searches stored) ≤ 5
unfolding read_recent_searches
read-length unavailable = omega arith
read-length absent = omega arith
read-length unparsable = omega arith
read-length (parsed v) = length-take-le 5 (texts (array_or_empty v))

-- Whatever is searched for, and whichever writes fail, the recent searches never repeat a term and
-- are never more than five, if they do not repeat one at the start.
pub write_all-recents :
    (searches : List (Bool × String)) (stored : Stored)
    → HasNoRepeats (read_recent_searches stored)
    → HasNoRepeats (read_recent_searches (write_all searches stored))
      × (length (read_recent_searches (write_all searches stored)) ≤ 5)
unfolding write_all
write_all-recents [] stored h = (h, read-length stored)
write_all-recents ((full, term) ∷ searches) stored h =
    write_all-recents searches (write_recent_search full term stored)
      (write_recent_search-HasNoRepeats full term stored h)
