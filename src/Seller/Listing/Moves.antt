-- ===== src/Seller/Listing/Moves.antt =====
-- How frontend/src/components/client/seller/listing-form.tsx moves an image: where it stands then, and
-- how many there are.
use jolarca.Common.{
  ℕ, zero, suc, ◌+◌, ◌≤◌, ◌<◌, ◌≡◌, refl, true, some, List, [], ◌∷◌, ltb, if-either, arith,
  Option-cases, inl, inr,
}
use jolarca.Common.Int.{ℤ, pos, negsuc}
use jolarca.Common.Lists.{length, pick}
use jolarca.Seller.Listing.{insert_at, moved}

module _ {ℓ} {A : Type ℓ} where
  length-insert_at :
      (place : ℕ) (item : A) (xs : List A) → length (insert_at place item xs) ≡ length xs + 1
  length-insert_at zero item xs = omega arith
  length-insert_at (suc place) item [] = omega arith
  length-insert_at (suc place) item (x ∷ xs) = omega (arith, length-insert_at place item xs)

  pick-insert_at :
      (place : ℕ) (item : A) (xs : List A)
      → place ≤ length xs
      → pick place (insert_at place item xs) ≡ some (item, xs)
  unfolding pick
  pick-insert_at zero item xs h = refl
  pick-insert_at (suc place) item [] h = absurd (omega arith)
  pick-insert_at (suc place) item (x ∷ xs) h =
      rw (pick-insert_at place item xs (omega arith), pick) refl

  pub length-pick :
      (place : ℕ) (xs : List A) (item : A) (others : List A)
      → pick place xs ≡ some (item, others)
      → length xs ≡ length others + 1
  unfolding pick
  length-pick place [] item others e = absurd (cc)
  length-pick zero (x ∷ xs) item others e = ground (arith, e)
  length-pick (suc place) (x ∷ xs) item others e = elim (Option-cases (pick place xs)) [
    | inl missing ↦ ground (arith, e, missing)
    | inr ((found, rest), f) ↦ ground (arith, e, f, length-pick place xs found rest f)
  ]

  pick-some :
      (place : ℕ) (xs : List A)
      → place < length xs
      → (picked : A × List A) × (pick place xs ≡ some picked)
  unfolding pick
  pick-some place [] h = absurd (omega arith)
  pick-some zero (x ∷ xs) h = ((x, xs), refl)
  pick-some (suc place) (x ∷ xs) h =
      let ((found, others), e) = pick-some place xs (omega arith) in
      ((found, x ∷ others), rw (e, pick) refl)

  -- After a move within the list, the member that was at `from` stands at `to`, and the others stand
  -- in the order in which they stood.
  pick-moved :
      (from to : ℕ) (xs : List A)
      → from < length xs
      → to < length xs
      → pick to (moved from (pos to) xs) ≡ pick from xs
  unfolding moved
  pick-moved from to xs h k =
      let ((item, others), e) = pick-some from xs h in
      let inside : ltb to (length xs) ≡ true = ground arith in
      rw (inside, e, moved)
        (pick-insert_at to item others (omega (arith, length-pick from xs item others e)))

  pub length-moved : (from : ℕ) (to : ℤ) (xs : List A) → length (moved from to xs) ≡ length xs
  unfolding moved
  length-moved from (negsuc to) xs = refl
  length-moved from (pos to) xs = elim (Option-cases (pick from xs)) [
    | inl missing ↦
        rw (missing, pick)
          (if-either (λ (ys : List A). length ys ≡ length xs) (ltb to (length xs)) refl refl)
    | inr ((item, others), found) ↦
        rw (found, pick)
          (if-either (λ (ys : List A). length ys ≡ length xs) (ltb to (length xs))
            (omega (arith, length-insert_at to item others, length-pick from xs item others found))
            refl)
  ]
