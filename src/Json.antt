-- ===== src/Json.antt =====
-- Values of TypeScript's type `unknown` as they come from `JSON.parse`, and the reads that the API
-- layers make of them (`typeof`, `Array.isArray`, property access). Numbers are whole.
use jolarca.Common.{
  String, Bool, true, false, Option, none, some, ◌≡◌, refl, List, [], ◌∷◌, ◌==◌, if◌then◌else◌, suc,
  ◌<>◌,
}
use jolarca.Common.Int.{ℤ, pos, negsuc}
use jolarca.Common.Text.{decimal}

mutual
  pub data Value : Type 0 where
    undefined null : Value
    bool : Bool → Value
    num : ℤ → Value
    str : String → Value
    arr : Elems → Value
    obj : Props → Value

  pub data Elems : Type 0 where
    nil : Elems
    cons : Value → Elems → Elems

  pub data Props : Type 0 where
    end : Props
    prop : String → Value → Props → Props

unfoldable pub elems : Elems → List Value
elems nil = []
elems (cons v vs) = v ∷ elems vs

-- A member of an object; `undefined` where it has none.
unfoldable pub member : String → Props → Value
member k end = undefined
member k (prop j v ps) = if j == k then v else member k ps

-- `v[k]` where `v` is neither null nor undefined. A name of the JSON contract is no property of
-- a boolean, number, text or array that holds JSON.
unfoldable pub get : Value → String → Value
unfolding member
get (obj ps) k = member k ps
get undefined k = undefined
get _ k = undefined

-- `v ?? {}`, read as a record.
unfoldable pub or_empty : Value → Value
or_empty undefined = obj end
or_empty null = obj end
or_empty v = v

unfoldable pub is_nullish : Value → Bool
is_nullish undefined = true
is_nullish null = true
is_nullish _ = false

-- `typeof v === "string" ? v : undefined`
unfoldable pub text? : Value → Option String
text? (str s) = some s
text? undefined = none
text? _ = none

-- `typeof v === "number" ? v : undefined`
unfoldable pub number? : Value → Option ℤ
number? (num n) = some n
number? undefined = none
number? _ = none

-- `typeof v === "string" ? v : d`
unfoldable pub text_or : Value → String → String
text_or (str s) d = s
text_or undefined d = d
text_or _ d = d

-- `typeof v === "number" ? v : d`
unfoldable pub number_or : Value → ℤ → ℤ
number_or (num n) d = n
number_or undefined d = d
number_or _ d = d

-- `v === true`
unfoldable pub is_true : Value → Bool
is_true (bool b) = b
is_true undefined = false
is_true _ = false

-- `Array.isArray(v) ? v : []`
unfoldable pub array_or_empty : Value → List Value
unfolding elems
array_or_empty (arr vs) = elems vs
array_or_empty undefined = []
array_or_empty _ = []

-- `Array.isArray(v) ? v.filter((x) => typeof x === "string") : []`
unfoldable pub texts : List Value → List String
texts [] = []
texts (str s ∷ vs) = s ∷ texts vs
texts (undefined ∷ vs) = texts vs
texts (_ ∷ vs) = texts vs

-- Null and undefined members of an array print as nothing.
abbrev part_text : Value → String → String
part_text undefined printed = ""
part_text null printed = ""
part_text _ printed = printed

-- `String(v)`
unfoldable mutual
  pub to_text : Value → String
  to_text undefined = "undefined"
  to_text null = "null"
  to_text (bool true) = "true"
  to_text (bool false) = "false"
  to_text (num (pos n)) = decimal n
  to_text (num (negsuc n)) = "-" <> decimal (suc n)
  to_text (str s) = s
  to_text (arr vs) = join_texts "" vs
  to_text (obj ps) = "[object Object]"

  join_texts : String → Elems → String
  join_texts separator nil = ""
  join_texts separator (cons v vs) = separator <> part_text v (to_text v) <> join_texts "," vs

pub or_empty-object : (v : Value) → is_nullish v ≡ false → or_empty v ≡ v
unfolding is_nullish or_empty
or_empty-object undefined h = cc
or_empty-object null h = cc
or_empty-object _ h = refl
