-- ===== src/Common/Record.antt =====
-- A JavaScript object used as a map, `Record<string, V>`: its entries in the order in which the keys
-- were first written. (Keys that spell an array index would be listed first; the program's keys are
-- identifiers and names, which do not.)
use Prim.Native.String.{String}
use mathlib.Core.Path.{◌≡◌, refl, subst}
use mathlib.Core.Logic.{◌≢◌, inl, inr}
use mathlib.Core.Option.{Option, none, some}
use mathlib.Core.List.{List, [], ◌∷◌, ◌++◌}
use native.Mathlib.Omega.{arith}
use text.Mathlib.Text.{◌==◌}
use text.Mathlib.TextEquality.{eq_iff}
use text.Mathlib.TextPositions.{eq_refl}
use jolarca.Common.Tests.{if◌then◌else◌, Bool-cases}
use jolarca.Common.Lists.{All}

abbrev pub Entries {ℓ} : Type ℓ → Type ℓ
Entries V = List (String × V)

module _ {ℓ} {V : Type ℓ} where
  -- `o[key]`
  unfoldable pub lookup : String → Entries V → Option V
  lookup key [] = none
  lookup key ((name, value) ∷ rest) = if name == key then some value else lookup key rest

  -- `o[key] = value`, `{ ...o, [key]: value }`: in place if the key is there, else at the end.
  unfoldable pub insert : String → V → Entries V → Entries V
  insert key value [] = (key, value) ∷ []
  insert key value ((name, old) ∷ rest) =
      if name == key then (name, value) ∷ rest else (name, old) ∷ insert key value rest

  -- `Object.fromEntries(Object.entries(o).filter(([id]) => id !== k))`
  unfoldable pub remove : String → Entries V → Entries V
  remove k [] = []
  remove k ((j, w) ∷ m) = let rest = remove k m in if j == k then rest else (j, w) ∷ rest

  -- `Object.values(o)`
  unfoldable pub values : Entries V → List V
  values [] = []
  values ((j, w) ∷ m) = w ∷ values m

  -- `for (const v of vs) o[key(v)] = v`
  unfoldable pub insert_all : (V → String) → List V → Entries V → Entries V
  insert_all key [] m = m
  insert_all key (v ∷ vs) m = insert_all key vs (insert (key v) v m)

  pub lookup-insert :
      (key other : String) (value : V) (entries : Entries V)
      → lookup other (insert key value entries)
        ≡ (if key == other then some value else lookup other entries)
  unfolding insert lookup
  lookup-insert key other value [] = refl
  lookup-insert key other value ((name, old) ∷ rest) = ground (
    arith,
    lookup-insert key other value rest,
    eq_iff name other,
    eq_iff name key,
    eq_iff key other,
  )

  pub lookup-insert_self :
      (key : String) (value : V) (entries : Entries V)
      → lookup key (insert key value entries) ≡ some value
  lookup-insert_self key value entries = rw (lookup-insert key key value entries, eq_refl key) refl

  pub lookup-remove :
      (k j : String) (m : Entries V) → lookup j (remove k m) ≡ (if k == j then none else lookup j m)
  unfolding lookup remove
  lookup-remove k j [] = ground arith
  lookup-remove k j ((i, w) ∷ m) =
      ground (arith, eq_iff k j, eq_iff i k, eq_iff i j, lookup-remove k j m)

  -- No key stands twice.
  abbrev pub HasDistinctKeys : Entries V → Type ℓ
  HasDistinctKeys [] = Unit
  HasDistinctKeys ((k, v) ∷ m) = (lookup k m ≡ none) × HasDistinctKeys m

  -- Each value is filed under its own key, once.
  abbrev pub IsKeyed : (V → String) → Entries V → Type ℓ
  IsKeyed key [] = Unit
  IsKeyed key ((k, v) ∷ m) = (k ≡ key v) × (lookup k m ≡ none) × IsKeyed key m

  pub insert-IsKeyed :
      (key : V → String) (k : String) (v : V) (m : Entries V)
      → k ≡ key v
      → IsKeyed key m
      → IsKeyed key (insert k v m)
  unfolding lookup insert
  insert-IsKeyed key k v [] e h = (e, refl, tt)
  insert-IsKeyed key k v ((j, w) ∷ m) e (same, fresh, h) =
      ground (arith, eq_iff j k, eq_iff k j, lookup-insert k j v m, insert-IsKeyed key k v m e h)

  pub remove-IsKeyed :
      (key : V → String) (k : String) (m : Entries V) → IsKeyed key m → IsKeyed key (remove k m)
  unfolding lookup remove
  remove-IsKeyed key k [] h = tt
  remove-IsKeyed key k ((j, w) ∷ m) (same, fresh, h) =
      ground (arith, eq_iff k j, lookup-remove k j m, remove-IsKeyed key k m h)

  pub insert_all-IsKeyed :
      (key : V → String) (vs : List V) (m : Entries V)
      → IsKeyed key m
      → IsKeyed key (insert_all key vs m)
  unfolding insert_all
  insert_all-IsKeyed key [] m h = h
  insert_all-IsKeyed key (v ∷ vs) m h =
      insert_all-IsKeyed key vs (insert (key v) v m) (insert-IsKeyed key (key v) v m refl h)

  -- A new key goes to the end.
  pub insert_fresh :
      (k : String) (v : V) (m : Entries V) → lookup k m ≡ none → insert k v m ≡ m ++ (k, v) ∷ []
  unfolding lookup insert
  insert_fresh k v [] h = refl
  insert_fresh k v ((j, w) ∷ m) h = ground (arith, eq_iff j k, insert_fresh k v m)

  pub All-insert {κ} :
      (P : V → Type κ) (k : String) (v : V) (m : Entries V)
      → P v
      → All P (values m)
      → All P (values (insert k v m))
  unfolding insert values
  All-insert P k v [] p h = (p, tt)
  All-insert P k v ((j, w) ∷ m) p (q, h) = ground (arith, All-insert P k v m p h)

  pub All-remove {κ} :
      (P : V → Type κ) (k : String) (m : Entries V) → All P (values m) → All P (values (remove k m))
  unfolding remove values
  All-remove P k [] h = tt
  All-remove P k ((j, w) ∷ m) (q, h) = ground (arith, All-remove P k m h)

  pub All-lookup {κ} :
      (P : V → Type κ) (k : String) (m : Entries V) {v : V}
      → lookup k m ≡ some v
      → All P (values m)
      → P v
  unfolding lookup values
  All-lookup P k [] e h = cc
  All-lookup P k ((j, w) ∷ m) {v} e (q, h) = elim (Bool-cases (j == k)) [
    | inl here ↦ subst P (ground arith) q
    | inr later ↦ All-lookup P k m (ground arith) h
  ]

  -- Under its key a value is found with that key.
  pub key-lookup :
      (key : V → String) (k : String) (m : Entries V) {v : V}
      → lookup k m ≡ some v
      → IsKeyed key m
      → k ≡ key v
  unfolding lookup
  key-lookup key k [] e h = cc
  key-lookup key k ((j, w) ∷ m) e (same, fresh, h) = elim (Bool-cases (j == k)) [
    | inl here ↦ ground (arith, eq_iff j k)
    | inr later ↦ key-lookup key k m (ground arith) h
  ]

  pub lookup-insert_ne :
      (k j : String) (v : V) (m : Entries V) → k ≢ j → lookup j (insert k v m) ≡ lookup j m
  lookup-insert_ne k j v m h = ground (arith, lookup-insert k j v m, eq_iff k j)
