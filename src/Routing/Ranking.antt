-- ===== src/Routing/Ranking.antt =====
-- The locale that is detected is one that the visitor weighs highest.
use jolarca.Common.{
  String, ◌≡◌, refl, ◌⊎◌, inl, inr, Option, none, some, List, [], ◌∷◌, arith, Option-cases,
  Bool-cases,
}
use jolarca.Common.Int.{ℤ, ◌≤ℤ◌, leb_ℤ}
use jolarca.Common.Lists.{All}
use jolarca.Common.Text.{split_on}
use jolarca.Routing.Locale.{
  Locale, Entry, insert_entry, sort_entries, entry_locale, first_locale, entries_of,
  detect_locale_from_accept_language,
}

abbrev pub Has : Entry → List Entry → Type 0
Has e [] = ⊥
Has e (f ∷ entries) = (e ≡ f) ⊎ Has e entries

abbrev IsSorted : List Entry → Type 0
IsSorted [] = Unit
IsSorted (e ∷ entries) = All (λ f. f.q ≤ℤ e.q) entries × IsSorted entries

All-insert_entry :
    (P : Entry → Type 0) (e : Entry) (entries : List Entry)
    → P e
    → All P entries
    → All P (insert_entry e entries)
unfolding insert_entry
All-insert_entry P e [] p h = (p, tt)
All-insert_entry P e (f ∷ entries) p (q, h) = ground (arith, All-insert_entry P e entries p h)

All-of_insert_entry :
    (P : Entry → Type 0) (e : Entry) (entries : List Entry)
    → All P (insert_entry e entries)
    → P e × All P entries
unfolding insert_entry
All-of_insert_entry P e [] h = h
All-of_insert_entry P e (f ∷ entries) h = ground (arith, All-of_insert_entry P e entries)

All-le_trans :
    (e f : Entry) (entries : List Entry)
    → f.q ≤ℤ e.q
    → All (λ g. g.q ≤ℤ f.q) entries
    → All (λ g. g.q ≤ℤ e.q) entries
All-le_trans e f [] l h = tt
All-le_trans e f (g ∷ entries) l (k, h) = (omega arith, All-le_trans e f entries l h)

insert_entry-IsSorted :
    (e : Entry) (entries : List Entry) → IsSorted entries → IsSorted (insert_entry e entries)
unfolding insert_entry
insert_entry-IsSorted e [] s = (tt, tt)
insert_entry-IsSorted e (f ∷ entries) (below, s) = elim (Bool-cases (leb_ℤ f.q e.q)) [
  | inl le ↦
      rw (le, insert_entry)
        ((ground arith, All-le_trans e f entries (ground arith) below), (below, s))
  | inr gt ↦
      rw (gt, insert_entry)
        (
          All-insert_entry (λ g. g.q ≤ℤ f.q) e entries (ground arith) below,
          insert_entry-IsSorted e entries s,
        )
]

sort_entries-IsSorted : (entries : List Entry) → IsSorted (sort_entries entries)
unfolding sort_entries
sort_entries-IsSorted [] = tt
sort_entries-IsSorted (e ∷ entries) =
    insert_entry-IsSorted e (sort_entries entries) (sort_entries-IsSorted entries)

All-of_sort_entries :
    (P : Entry → Type 0) (entries : List Entry) → All P (sort_entries entries) → All P entries
unfolding sort_entries
All-of_sort_entries P [] h = h
All-of_sort_entries P (e ∷ entries) h =
    let (p, k) = All-of_insert_entry P e (sort_entries entries) h in
    (p, All-of_sort_entries P entries k)

Has-insert_entry :
    (x e : Entry) (entries : List Entry) → Has x (insert_entry e entries) → (x ≡ e) ⊎ Has x entries
unfolding insert_entry
Has-insert_entry x e [] h = h
Has-insert_entry x e (f ∷ entries) h = ground (arith, Has-insert_entry x e entries)

Has-sort_entries : (x : Entry) (entries : List Entry) → Has x (sort_entries entries) → Has x entries
unfolding sort_entries
Has-sort_entries x [] h = h
Has-sort_entries x (e ∷ entries) h = elim (Has-insert_entry x e (sort_entries entries) h) [
  | inl here ↦ inl here
  | inr later ↦ inr (Has-sort_entries x entries later)
]

-- An entry that asks for no locale, or weighs at most `e`.
abbrev pub IsBelow : Entry → Entry → Type 0
IsBelow e f = (entry_locale f ≡ none) ⊎ (f.q ≤ℤ e.q)

All-IsBelow :
    (e : Entry) (entries : List Entry) → All (λ f. f.q ≤ℤ e.q) entries → All (IsBelow e) entries
All-IsBelow e [] h = tt
All-IsBelow e (f ∷ entries) (l, h) = (inr l, All-IsBelow e entries h)

first_locale-best :
    (entries : List Entry) (l : Locale)
    → IsSorted entries
    → first_locale entries ≡ some l
    → (e : Entry) × Has e entries × (entry_locale e ≡ some l) × All (IsBelow e) entries
unfolding first_locale
first_locale-best [] l s h = cc
first_locale-best (e ∷ entries) l (below, s) h = elim (Option-cases (entry_locale e)) [
  | inl none_ ↦
      let (x, has, asks, rest) = first_locale-best entries l s (ground arith) in
      (x, inr has, asks, (inl none_, rest))
  | inr (k, asks) ↦ (e, inl refl, ground arith, (inr (ground arith), All-IsBelow e entries below))
]

-- If a locale is detected in a header, then an entry of the header asks for it, and every other
-- entry that asks for a supported locale has at most that entry's weight.
pub detect_locale-best :
    (number : String → Option ℤ) (one : ℤ) (header : String) (l : Locale)
    → detect_locale_from_accept_language number one (some header) ≡ some l
    → let entries = entries_of number one (split_on b',' header) in
      (e : Entry) × Has e entries × (entry_locale e ≡ some l) × All (IsBelow e) entries
unfolding detect_locale_from_accept_language
detect_locale-best number one header l h =
    let entries = entries_of number one (split_on b',' header) in
    let (e, has, asks, best) =
      first_locale-best (sort_entries entries) l (sort_entries-IsSorted entries) (ground arith) in
    (e, Has-sort_entries e entries has, asks, All-of_sort_entries (IsBelow e) entries best)
