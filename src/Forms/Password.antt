-- ===== src/Forms/Password.antt =====
-- `passwordStrength` of frontend/src/lib/password-strength.ts.
use Prim.Native.Nat.{◌*◌, ◌/◌}
use jolarca.Common.{
  ℕ, zero, suc, ◌+◌, ◌≤◌, String, ◌≡◌, ◌≢◌, refl, sym, ◌∙◌, Bool, true, false, not, ◌&&◌, ◌||◌,
  List, [], ◌∷◌, map, leb, ◌is◌, if◌then◌else◌, arith,
}
use jolarca.Common.Lists.{length, any}
use jolarca.Common.Text.{codes, lower_code, starts}

pub data StrengthLevel : Type 0 where
  weak fair good strong : StrengthLevel

pub record PasswordStrength : Type 0 where
  pub score : ℕ
  pub level : StrengthLevel

abbrev is_lower : ℕ → Bool
is_lower c = leb b'a' c && leb c b'z'

abbrev is_upper : ℕ → Bool
is_upper c = leb b'A' c && leb c b'Z'

abbrev is_digit : ℕ → Bool
is_digit c = leb b'0' c && leb c b'9'

abbrev is_other : ℕ → Bool
is_other c = not (is_lower c || is_upper c || is_digit c)

-- `new Set(password).size`
unfoldable pub distinct : List ℕ → ℕ
distinct [] = 0
distinct (c ∷ cs) = let rest = distinct cs in if any (λ d. d is c) cs then rest else suc rest

abbrev point : Bool → ℕ
point true = 1
point false = 0

unfoldable pub class_points : List ℕ → ℕ
unfolding distinct
class_points cs =
    point (leb 12 (length cs))
    + point (leb 16 (length cs))
    + point (any is_lower cs && any is_upper cs)
    + point (any is_digit cs)
    + point (any is_other cs)
    + point (leb 8 (distinct cs))

abbrev is_line_end : ℕ → Bool
is_line_end c = c is 10 || c is 13 || c is 0x2028 || c is 0x2029

abbrev all_are : ℕ → List ℕ → Bool
all_are c [] = true
all_are c (d ∷ ds) = d is c && all_are c ds

-- `/^(.)\1+$/`
unfoldable pub is_repeated : List ℕ → Bool
is_repeated [] = false
is_repeated (c ∷ []) = false
is_repeated (c ∷ d ∷ cs) = not (is_line_end c) && all_are c (d ∷ cs)

abbrev pub common_words : List String
common_words = "password" ∷ "slaptazodis" ∷ "parole" ∷ "parool" ∷ "123456" ∷ []

-- The words in any case, at the start.
unfoldable pub is_common : List ℕ → Bool
unfolding codes lower_code
is_common cs = any (λ word. starts (codes word) (map lower_code cs)) common_words

-- The points after the penalties.
abbrev pub penalized : (repeated common : Bool) → ℕ → ℕ
penalized true true points = 0
penalized true false points = 0
penalized false true points = if leb points 1 then points else 1
penalized false false points = points

-- `Math.max(0, Math.min(4, Math.floor(points / 1.5)))`
abbrev pub score_of : ℕ → ℕ
score_of points = let score = points * 2 / 3 in if leb score 4 then score else 4

abbrev pub level_of : ℕ → StrengthLevel
level_of score =
    if leb 4 score then strong else if score is 3 then good else if score is 2 then fair else weak

unfoldable pub password_strength : String → PasswordStrength
unfolding class_points is_repeated is_common codes
password_strength password =
    let cs = codes password in
    let score = score_of (penalized (is_repeated cs) (is_common cs) (class_points cs)) in
    record { score = score; level = level_of score }

level_of-low : (points : ℕ) → points ≤ 1 → level_of (score_of points) ≡ weak
level_of-low zero h = refl
level_of-low (suc zero) h = refl
level_of-low (suc (suc n)) h = absurd (omega arith)

penalized_low :
    (repeated common : Bool) (points : ℕ)
    → repeated || common ≡ true
    → penalized repeated common points ≤ 1
penalized_low true true points h = omega arith
penalized_low true false points h = omega arith
penalized_low false true points h = ground arith
penalized_low false false points h = absurd (cc)

-- A password that repeats one character, or starts with a common word in any case, is weak, whatever
-- else it has.
pub password_strength_weak :
    (password : String)
    → is_repeated (codes password) || is_common (codes password) ≡ true
    → (password_strength password).level ≡ weak
unfolding password_strength
password_strength_weak password h =
    level_of-low
      (penalized (is_repeated (codes password)) (is_common (codes password))
        (class_points (codes password)))
      (penalized_low (is_repeated (codes password)) (is_common (codes password))
        (class_points (codes password)) h)

strong≢weak : strong ≢ weak
strong≢weak e = cc

strong-points : (points : ℕ) → points ≤ 6 → level_of (score_of points) ≡ strong → points ≡ 6
strong-points zero le h = absurd (cc)
strong-points (suc zero) le h = absurd (cc)
strong-points (suc (suc zero)) le h = absurd (cc)
strong-points (suc (suc (suc zero))) le h = absurd (cc)
strong-points (suc (suc (suc (suc zero)))) le h = absurd (cc)
strong-points (suc (suc (suc (suc (suc zero))))) le h = absurd (cc)
strong-points (suc (suc (suc (suc (suc (suc n)))))) le h = omega arith

point-le : (b : Bool) → point b ≤ 1
point-le true = omega arith
point-le false = omega arith

class_points-le : (cs : List ℕ) → class_points cs ≤ 6
unfolding class_points
class_points-le cs = omega (
  arith,
  point-le (leb 12 (length cs)),
  point-le (leb 16 (length cs)),
  point-le (any is_lower cs && any is_upper cs),
  point-le (any is_digit cs),
  point-le (any is_other cs),
  point-le (leb 8 (distinct cs)),
)

unpenalized :
    (repeated common : Bool) (points : ℕ)
    → points ≤ 6
    → level_of (score_of (penalized repeated common points)) ≡ strong
    → (repeated ≡ false) × (common ≡ false) × (points ≡ 6)
unpenalized true true points le h = absurd (cc)
unpenalized true false points le h = absurd (cc)
unpenalized false true points le h =
    absurd (strong≢weak (sym h ∙ level_of-low (penalized false true points) (ground arith)))
unpenalized false false points le h = (refl, refl, strong-points points le h)

-- A strong password has all six points: it has 16 characters at least, 8 distinct ones, lower and
-- upper case, a digit and another character, and neither repeats one character nor starts with a
-- common word.
pub password_strength_strong :
    (password : String)
    → (password_strength password).level ≡ strong
    → (is_repeated (codes password) ≡ false)
      × (is_common (codes password) ≡ false)
      × (class_points (codes password) ≡ 6)
unfolding password_strength
password_strength_strong password h =
    unpenalized (is_repeated (codes password)) (is_common (codes password))
      (class_points (codes password)) (class_points-le (codes password)) h
