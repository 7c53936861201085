-- ===== src/Catalog/Links.antt =====
-- What the page links of frontend/src/components/client/pagination.tsx list.
use mathlib.Core.Path.{subst}
use jolarca.Common.{
  ℕ, zero, suc, ◌+◌, ◌-◌, ◌≤◌, ◌<◌, ◌≡◌, refl, Bool, true, false, ◌⊎◌, inl, inr, List, [], ◌∷◌,
  ◌++◌, ltb, leb, ◌is◌, if◌then◌else◌, arith, Bool-cases,
}
use mathlib.Core.List.{append-nil}
use jolarca.Common.Lists.{length, any, length-append}
use jolarca.Catalog.Pages.{PageItem, page, gap_start, gap_end, pages_from, max, min, page_items}

-- The list reads the pages from `next` to `total`, each once and in order; behind a gap, which stands
-- for one page at least, it goes on with a later page.
abbrev pub Reads : (skipped : Bool) → (next total : ℕ) → List PageItem → Type 0
Reads false next total [] = next ≡ total + 1
Reads true next total [] = ⊥
Reads false next total (page p ∷ items) = (p ≡ next) × Reads false (p + 1) total items
Reads true next total (page p ∷ items) = (next < p) × Reads false (p + 1) total items
Reads false next total (gap_start ∷ items) = Reads true next total items
Reads true next total (gap_start ∷ items) = ⊥
Reads false next total (gap_end ∷ items) = Reads true next total items
Reads true next total (gap_end ∷ items) = ⊥

abbrev pub is_page : ℕ → PageItem → Bool
is_page n (page p) = p is n
is_page n gap_start = false
is_page n gap_end = false

pages_from-Reads :
    (first rounds next total : ℕ) (rest : List PageItem)
    → first ≡ next
    → Reads false (first + rounds) total rest
    → Reads false next total (pages_from first rounds ++ rest)
unfolding pages_from
pages_from-Reads first zero next total rest e h =
    subst (λ n. Reads false n total rest) (omega (arith, e)) h
pages_from-Reads first (suc rounds) next total rest e h = (
  e,
  pages_from-Reads (first + 1) rounds (first + 1) total rest refl
      (subst (λ n. Reads false n total rest) (omega arith) h),
)

pages_from-has :
    (first rounds n : ℕ) (rest : List PageItem)
    → first ≤ n
    → n < first + rounds
    → any (is_page n) (pages_from first rounds ++ rest) ≡ true
unfolding pages_from
pages_from-has first zero n rest h k = absurd (omega arith)
pages_from-has first (suc rounds) n rest h k = elim (Bool-cases (first is n)) [
  | inl here ↦ rw here refl
  | inr other ↦ ground (arith, other, pages_from-has (first + 1) rounds n rest)
]

pages_from-all :
    (first rounds total : ℕ)
    → first + rounds ≡ total + 1
    → Reads false first total (pages_from first rounds)
unfolding pages_from
pages_from-all first zero total h = omega (arith, h)
pages_from-all first (suc rounds) total h =
    (refl, pages_from-all (first + 1) rounds total (omega (arith, h)))

-- The end of the list, behind the pages round the current one.
ends : (stop : Bool) (total : ℕ) → List PageItem
ends stop total = (if stop then gap_end ∷ [] else []) ++ page total ∷ []

ends-Reads :
    (stop : Bool) (next total : ℕ)
    → (stop ≡ true → next < total)
    → (stop ≡ false → next ≡ total)
    → Reads false next total (ends stop total)
unfolding ends
ends-Reads true next total gap last = (gap refl, refl)
ends-Reads false next total gap last = (omega (arith, last refl), refl)

-- The list behind its first page.
behind : (start stop : Bool) (first rounds total : ℕ) → List PageItem
behind start stop first rounds total =
    (if start then gap_start ∷ [] else []) ++ (pages_from first rounds ++ ends stop total)

behind-Reads :
    (start stop : Bool) (first rounds total : ℕ)
    → (start ≡ true → 2 < first)
    → (start ≡ false → first ≡ 2)
    → 0 < rounds
    → (stop ≡ true → first + rounds < total)
    → (stop ≡ false → first + rounds ≡ total)
    → Reads false 2 total (behind start stop first rounds total)
unfolding behind pages_from
behind-Reads start stop first zero total far near some_ gap last = absurd (omega arith)
behind-Reads true stop first (suc rounds) total far near some_ gap last = (
  far refl,
  pages_from-Reads (first + 1) rounds (first + 1) total (ends stop total) refl (
      ends-Reads stop (first + 1 + rounds) total (λ e. omega (arith, gap e))
        (λ e. omega (arith, last e))),
)
behind-Reads false stop first (suc rounds) total far near some_ gap last = (
  near refl,
  pages_from-Reads (first + 1) rounds (first + 1) total (ends stop total) refl (
      ends-Reads stop (first + 1 + rounds) total (λ e. omega (arith, gap e))
        (λ e. omega (arith, last e))),
)

any-later {ℓ} :
    {A : Type ℓ} (p : A → Bool) (xs ys : List A) → any p ys ≡ true → any p (xs ++ ys) ≡ true
any-later p [] ys h = h
any-later p (x ∷ xs) ys h = ground (arith, any-later p xs ys h)

any-behind :
    (start stop : Bool) (first rounds total n : ℕ)
    → ((first ≤ n) × (n < first + rounds)) ⊎ (n ≡ total)
    → any (is_page n) (behind start stop first rounds total) ≡ true
unfolding behind ends
any-behind start stop first rounds total n (inl (low, high)) =
    any-later (is_page n) (if start then gap_start ∷ [] else []) _
      (pages_from-has first rounds n (ends stop total) low high)
any-behind start stop first rounds total n (inr last) =
    any-later (is_page n) (if start then gap_start ∷ [] else []) _ (
      any-later (is_page n) (pages_from first rounds) _
        (any-later (is_page n) (if stop then gap_end ∷ [] else []) _ (ground (arith, last))))

length-pages_from : (first rounds : ℕ) → length (pages_from first rounds) ≡ rounds
unfolding pages_from
length-pages_from first zero = refl
length-pages_from first (suc rounds) = omega (arith, length-pages_from (first + 1) rounds)

length-optional : (b : Bool) (item : PageItem) → length (if b then item ∷ [] else []) ≤ 1
length-optional true item = omega arith
length-optional false item = omega arith

length-behind :
    (start stop : Bool) (first rounds total : ℕ)
    → length (behind start stop first rounds total) ≤ rounds + 3
unfolding behind ends
length-behind start stop first rounds total = omega (
  arith,
  length-pages_from first rounds,
  length-optional start gap_start,
  length-optional stop gap_end,
  length-append (if start then gap_start ∷ [] else []) (pages_from first rounds ++ ends stop total),
  length-append (pages_from first rounds) (ends stop total),
  length-append (if stop then gap_end ∷ [] else []) (page total ∷ []),
)

-- The pages round the current one, if there are more than seven.
around : (current total : ℕ) → List PageItem
unfolding behind
around current total =
    behind (ltb 3 current) (ltb current (total - 2)) (max 2 (current - 1))
      (min (total - 1) (current + 1) + 1 - max 2 (current - 1)) total

around-Reads :
    (current total : ℕ)
    → 1 ≤ current
    → current ≤ total
    → leb total 7 ≡ false
    → Reads false 2 total (around current total)
unfolding around
around-Reads current total low high many =
    behind-Reads (ltb 3 current) (ltb current (total - 2)) (max 2 (current - 1))
      (min (total - 1) (current + 1) + 1 - max 2 (current - 1)) total (λ e. ground (arith, e, many))
      (λ e. ground (arith, e, many)) (ground (arith, many)) (λ e. ground (arith, e, many))
      (λ e. ground (arith, e, many))

around-has :
    (current total : ℕ)
    → 1 ≤ current
    → current ≤ total
    → leb total 7 ≡ false
    → any (is_page current) (page 1 ∷ around current total) ≡ true
unfolding around
around-has current total low high many = elim (Bool-cases (1 is current)) [
  | inl first ↦ rw first refl
  | inr later ↦ rw later (elim (Bool-cases (current is total)) [
    | inl last ↦
        any-behind (ltb 3 current) (ltb current (total - 2)) (max 2 (current - 1))
          (min (total - 1) (current + 1) + 1 - max 2 (current - 1)) total current
          (inr (ground (arith, last)))
    | inr inner ↦
        any-behind (ltb 3 current) (ltb current (total - 2)) (max 2 (current - 1))
          (min (total - 1) (current + 1) + 1 - max 2 (current - 1)) total current
          (inl (ground (arith, later, inner, many), ground (arith, later, inner, many)))
  ])
]

around-length :
    (current total : ℕ)
    → 1 ≤ current
    → current ≤ total
    → leb total 7 ≡ false
    → length (around current total) ≤ 6
unfolding around
around-length current total low high many =
    let rounds : min (total - 1) (current + 1) + 1 - max 2 (current - 1) ≤ 3 =
      ground (arith, many) in
    omega (
      arith,
      rounds,
      length-behind (ltb 3 current) (ltb current (total - 2)) (max 2 (current - 1))
          (min (total - 1) (current + 1) + 1 - max 2 (current - 1)) total,
    )

-- For a current page within the total: the links read all pages in order, each once, with gaps that
-- stand for one page at least; the current page is among them; and there are seven at most.
pub page_items-Reads :
    (current total : ℕ)
    → 1 ≤ current
    → current ≤ total
    → Reads false 1 total (page_items current total)
      × (any (is_page current) (page_items current total) ≡ true)
      × (length (page_items current total) ≤ 7)
unfolding page_items
page_items-Reads current total low high = elim (Bool-cases (leb total 7)) [
  | inl few ↦ rw few (
    pages_from-all 1 total total (omega arith),
    subst (λ items. any (is_page current) items ≡ true) (append-nil (pages_from 1 total))
        (pages_from-has 1 total current [] low (omega (arith, high))),
    ground (arith, few, length-pages_from 1 total),
  )
  | inr many ↦ rw many (
      unfold around behind ends in
      (
        (refl, around-Reads current total low high many),
        around-has current total low high many,
        omega (arith, around-length current total low high many),
      ))
]
