-- ===== src/Logging/Cleaning.antt =====
-- What the deep redactions leave of any payload, also of a circular one.
use Prim.Native.Nat.{max}
use jolarca.Common.{
  ℕ, zero, suc, ◌≤◌, String, Bool, inl, inr, List, [], ◌∷◌, map, arith, Bool-cases,
}
use jolarca.Json.{
  Value, undefined, null, bool, num, str, arr, obj, Elems, Props, nil, cons, end, prop,
}
use jolarca.Logging.Redaction.{
  Entry, text, number, boolean, nothing, missing, at, Node, error, array, object, Heap, to_elems,
  to_props, redact_members, redact_node, redact_from,
}

-- All texts in a value, the keys aside.
unfoldable mutual
  pub AllTexts : (String → Type 0) → Value → Type 0
  AllTexts P (str s) = P s
  AllTexts P (arr vs) = AllTextsElems P vs
  AllTexts P (obj ps) = AllTextsProps P ps
  AllTexts P undefined = Unit
  AllTexts P null = Unit
  AllTexts P (bool b) = Unit
  AllTexts P (num n) = Unit

  pub AllTextsElems : (String → Type 0) → Elems → Type 0
  AllTextsElems P nil = Unit
  AllTextsElems P (cons v vs) = AllTexts P v × AllTextsElems P vs

  pub AllTextsProps : (String → Type 0) → Props → Type 0
  AllTextsProps P end = Unit
  AllTextsProps P (prop key v ps) = AllTexts P v × AllTextsProps P ps

-- How deep objects and arrays stand in one another.
unfoldable mutual
  pub depth : Value → ℕ
  depth (arr vs) = suc (depth_elems vs)
  depth (obj ps) = suc (depth_props ps)
  depth (str s) = 1
  depth undefined = 1
  depth null = 1
  depth (bool b) = 1
  depth (num n) = 1

  pub depth_elems : Elems → ℕ
  depth_elems nil = 0
  depth_elems (cons v vs) = max (depth v) (depth_elems vs)

  pub depth_props : Props → ℕ
  depth_props end = 0
  depth_props (prop key v ps) = max (depth v) (depth_props ps)

-- The names of errors are kept as they are.
abbrev pub HasCleanName : (String → Type 0) → Node → Type 0
HasCleanName P (error name message) = P name
HasCleanName P (array entries) = Unit
HasCleanName P (object members) = Unit

module _ (redact_text : String → String) (is_private : String → Bool) (redacted : String) where
  depth_elems-map :
      (redact : Entry → Value) (n : ℕ) (entries : List Entry)
      → ((entry : Entry) → depth (redact entry) ≤ n)
      → depth_elems (to_elems (map redact entries)) ≤ n
  unfolding depth
  depth_elems-map redact n [] h = omega arith
  depth_elems-map redact n (entry ∷ entries) h =
      omega (arith, h entry, depth_elems-map redact n entries h)

  depth_props-members :
      (redact : Entry → Value) (n : ℕ) (members : List (String × Entry))
      → 1 ≤ n
      → ((entry : Entry) → depth (redact entry) ≤ n)
      → depth_props (to_props (redact_members redact_text is_private redacted redact members)) ≤ n
  unfolding depth redact_members
  depth_props-members redact n [] p h = omega arith
  depth_props-members redact n ((key, entry) ∷ members) p h = elim (Bool-cases (is_private key)) [
    | inl e ↦ rw e (omega (arith, depth_props-members redact n members p h))
    | inr e ↦ rw e (omega (arith, h entry, depth_props-members redact n members p h))
  ]

  redact_node-depth :
      (redact : Entry → Value) (n : ℕ) (node : Node)
      → 1 ≤ n
      → ((entry : Entry) → depth (redact entry) ≤ n)
      → depth (redact_node redact_text is_private redacted redact node) ≤ suc n
  unfolding redact_node depth
  redact_node-depth redact n (error name message) p h = omega arith
  redact_node-depth redact n (array entries) p h = omega (arith, depth_elems-map redact n entries h)
  redact_node-depth redact n (object members) p h =
      omega (arith, depth_props-members redact n members p h)

  -- The redaction of a payload with `n` levels left ends, also where the payload refers to itself,
  -- in a value of depth n + 1 at most.
  pub redact_from-depth :
      (heap : Heap) (n : ℕ) (entry : Entry)
      → depth (redact_from redact_text is_private redacted heap n entry) ≤ suc n
  unfolding redact_from depth
  redact_from-depth heap zero entry = omega arith
  redact_from-depth heap (suc n) (text s) = omega arith
  redact_from-depth heap (suc n) (number i) = omega arith
  redact_from-depth heap (suc n) (boolean b) = omega arith
  redact_from-depth heap (suc n) nothing = omega arith
  redact_from-depth heap (suc n) missing = omega arith
  redact_from-depth heap (suc n) (at reference) =
      redact_node-depth (redact_from redact_text is_private redacted heap n) (suc n)
        (heap reference) (omega arith) (redact_from-depth heap n)

  AllTexts-map :
      (P : String → Type 0) (redact : Entry → Value) (entries : List Entry)
      → ((entry : Entry) → AllTexts P (redact entry))
      → AllTextsElems P (to_elems (map redact entries))
  unfolding AllTexts
  AllTexts-map P redact [] h = tt
  AllTexts-map P redact (entry ∷ entries) h = (h entry, AllTexts-map P redact entries h)

  AllTexts-members :
      (P : String → Type 0) (redact : Entry → Value) (members : List (String × Entry))
      → P redacted
      → ((entry : Entry) → AllTexts P (redact entry))
      → AllTextsProps P (to_props (redact_members redact_text is_private redacted redact members))
  unfolding AllTexts redact_members
  AllTexts-members P redact [] mark h = tt
  AllTexts-members P redact ((key, entry) ∷ members) mark h = elim (Bool-cases (is_private key)) [
    | inl e ↦ rw e (mark, AllTexts-members P redact members mark h)
    | inr e ↦ rw e (h entry, AllTexts-members P redact members mark h)
  ]

  AllTexts-redact_node :
      (P : String → Type 0) (redact : Entry → Value) (node : Node)
      → ((s : String) → P (redact_text s))
      → P redacted
      → HasCleanName P node
      → ((entry : Entry) → AllTexts P (redact entry))
      → AllTexts P (redact_node redact_text is_private redacted redact node)
  unfolding AllTexts redact_node
  AllTexts-redact_node P redact (error name message) clean mark named h =
      (named, (clean message, tt))
  AllTexts-redact_node P redact (array entries) clean mark named h = AllTexts-map P redact entries h
  AllTexts-redact_node P redact (object members) clean mark named h =
      AllTexts-members P redact members mark h

  -- Every text in the result but the keys is clean: if redacted texts and the two marks are, and the names of
  -- the errors in the payload.
  pub redact_from-AllTexts :
      (P : String → Type 0) (heap : Heap)
      → ((s : String) → P (redact_text s))
      → P redacted
      → P "[TRUNCATED]"
      → ((reference : ℕ) → HasCleanName P (heap reference))
      → (n : ℕ) (entry : Entry)
      → AllTexts P (redact_from redact_text is_private redacted heap n entry)
  unfolding AllTexts redact_from
  redact_from-AllTexts P heap clean mark cut named zero entry = cut
  redact_from-AllTexts P heap clean mark cut named (suc n) (text s) = clean s
  redact_from-AllTexts P heap clean mark cut named (suc n) (number i) = tt
  redact_from-AllTexts P heap clean mark cut named (suc n) (boolean b) = tt
  redact_from-AllTexts P heap clean mark cut named (suc n) nothing = tt
  redact_from-AllTexts P heap clean mark cut named (suc n) missing = tt
  redact_from-AllTexts P heap clean mark cut named (suc n) (at reference) =
      AllTexts-redact_node P (redact_from redact_text is_private redacted heap n) (heap reference)
        clean mark (named reference) (redact_from-AllTexts P heap clean mark cut named n)
