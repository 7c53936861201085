-- ===== src/Catalog/Pages.antt =====
-- The page links of a category, frontend/src/components/client/pagination.tsx: which pages are listed,
-- and where the keys move the focus.
use Prim.Native.Nat.{◌%◌}
use jolarca.Common.{
  ℕ, zero, suc, ◌+◌, ◌-◌, String, ◌||◌, ◌is◌, Option, none, some, List, [], ◌∷◌, ◌++◌, ltb, leb,
  if◌then◌else◌, ◌==◌,
}

pub data PageItem : Type 0 where
  page : ℕ → PageItem
  gap_start gap_end : PageItem

-- The loop that pushes `rounds` pages from `first` on.
unfoldable pub pages_from : (first rounds : ℕ) → List PageItem
pages_from first zero = []
pages_from first (suc rounds) = page first ∷ pages_from (first + 1) rounds

abbrev pub max : ℕ → ℕ → ℕ
max a b = if leb a b then b else a

abbrev pub min : ℕ → ℕ → ℕ
min a b = if leb a b then a else b

-- The loop from `first` to `last` makes one round more than their difference.
unfoldable pub page_items : (current total : ℕ) → List PageItem
unfolding pages_from
page_items current total =
    if leb total 7
    then pages_from 1 total
    else let first = max 2 (current - 1) in
      let last = min (total - 1) (current + 1) in
      page 1
      ∷ ((if ltb 3 current then gap_start ∷ [] else [])
          ++ (pages_from first (last + 1 - first)
              ++ ((if ltb current (total - 2) then gap_end ∷ [] else []) ++ page total ∷ [])))

-- Where the focus goes from the link at `index` of `links`; `none` for any other key, and where no link
-- has the focus.
unfoldable pub next_focus : (key : String) → (index links : ℕ) → Option ℕ
next_focus key index links =
    if key == "ArrowRight" || key == "ArrowDown"
    then some ((index + 1) % links)
    else if key == "ArrowLeft" || key == "ArrowUp"
    then some ((index + links - 1) % links)
    else if key == "Home"
    then some 0
    else if key == "End"
    then some (links - 1)
    else none

abbrev focus_at : Option ℕ → ℕ → (links : ℕ) → ℕ
focus_at none index links = index
focus_at (some next) index links = if ltb next links then next else index

abbrev pub focused : String → Option ℕ → (links : ℕ) → Option ℕ
focused key none links = none
focused key (some index) links =
    if links is 0 then some index else some (focus_at (next_focus key index links) index links)
