-- ===== src/Logging/Luhn.antt =====
-- `luhnValid` of frontend/src/lib/sanitization.ts, by which both redactions know a card number.
use Prim.Native.Nat.{◌*◌, ◌%◌}
use Prim.Native.Char.{Char, code}
use Prim.Native.String.{[] as empty, ◌∷◌ as ◌∷ˢ◌}
use mathlib.Core.List.{reverse, reverse-append, reverse-cons, append_assoc}
use text.Mathlib.TextLemmas.{cons-append, nil-append}
use jolarca.Common.{
  ℕ, ◌+◌, ◌-◌, ◌≤◌, String, ◌<>◌, ◌≡◌, ◌≢◌, refl, sym, ap, ◌∙◌, Bool, true, false, not, ◌&&◌,
  Option, none, some, List, [], ◌∷◌, ◌++◌, ltb, leb, ◌is◌, if◌then◌else◌, arith, Bool-cases,
  Option-cases, inl, inr,
}
use jolarca.Common.Text.{codes, is_space_code}

-- `Number(digit)` of one character: white space counts as 0, and `none` is NaN.
unfoldable pub digit_value : ℕ → Option ℕ
digit_value c =
    if leb b'0' c && leb c b'9' then some (c - b'0') else if is_space_code c then some 0 else none

-- `double ? (digit * 2 > 9 ? digit * 2 - 9 : digit * 2) : digit`
abbrev pub addend : (double : Bool) → ℕ → ℕ
addend false digit = digit
addend true digit = if ltb 9 (digit * 2) then digit * 2 - 9 else digit * 2

-- The loop, over the digits from the last to the first.
unfoldable pub luhn_loop : List ℕ → (sum : ℕ) → (double : Bool) → Bool
unfolding digit_value
luhn_loop [] sum double = (sum % 10) is 0
luhn_loop (c ∷ cs) sum double = elim (digit_value c) [
  | none ↦ false
  | some digit ↦ luhn_loop cs (sum + addend double digit) (not double)
]

unfoldable pub luhn_valid : String → Bool
unfolding luhn_loop codes
luhn_valid digits = luhn_loop (reverse (codes digits)) 0 false

codes-append : (s t : String) → codes (s <> t) ≡ codes s ++ codes t
unfolding codes
codes-append empty t = ap codes (nil-append t)
codes-append (c ∷ˢ s) t = rw (cons-append c s t) (ap (◌∷◌ (code c)) (codes-append s t))

-- What one more digit leaves of the sum's last digit.
luhn_loop-step :
    (c digit : ℕ) (cs : List ℕ) (sum : ℕ) (double : Bool)
    → digit_value c ≡ some digit
    → luhn_loop (c ∷ cs) sum double ≡ luhn_loop cs (sum + addend double digit) (not double)
unfolding luhn_loop
luhn_loop-step c digit cs sum double h = rw (h, luhn_loop) refl

luhn_loop-stop :
    (c : ℕ) (cs : List ℕ) (sum : ℕ) (double : Bool)
    → digit_value c ≡ none
    → luhn_loop (c ∷ cs) sum double ≡ false
unfolding luhn_loop
luhn_loop-stop c cs sum double h = rw (h, luhn_loop) refl

-- The same digits on two sums that both come out right: the sums end in the same digit.
luhn_loop-sums :
    (cs : List ℕ) (s t : ℕ) (double : Bool)
    → luhn_loop cs s double ≡ true
    → luhn_loop cs t double ≡ true
    → s % 10 ≡ t % 10
luhn_loop-sums [] s t double p q = unfold luhn_loop in ground arith
luhn_loop-sums (c ∷ cs) s t double p q = elim (Option-cases (digit_value c)) [
  | inl none_ ↦ cc (luhn_loop-stop c cs s double none_)
  | inr (digit, some_) ↦
      let same : (s + addend double digit) % 10 ≡ (t + addend double digit) % 10 =
        luhn_loop-sums cs (s + addend double digit) (t + addend double digit) (not double)
          (sym (luhn_loop-step c digit cs s double some_) ∙ p)
          (sym (luhn_loop-step c digit cs t double some_) ∙ q) in
      omega (arith, same)
]

digit_value-bound : (c digit : ℕ) → digit_value c ≡ some digit → digit ≤ 9
unfolding digit_value
digit_value-bound c digit h = ground arith

-- Two different digits add different amounts, whether doubled or not.
addend_distinct :
    (double : Bool) (s m n : ℕ)
    → m ≤ 9
    → n ≤ 9
    → (s + addend double m) % 10 ≡ (s + addend double n) % 10
    → m ≡ n
addend_distinct false s m n hm hn e = omega (arith, e)
addend_distinct true s m n hm hn e = ground arith

-- One digit of a run, the last first, is replaced by another.
luhn_loop-substituted :
    (xs ys : List ℕ) (a b m n sum : ℕ) (double : Bool)
    → digit_value a ≡ some m
    → digit_value b ≡ some n
    → luhn_loop (xs ++ a ∷ ys) sum double ≡ true
    → luhn_loop (xs ++ b ∷ ys) sum double ≡ true
    → m ≡ n
luhn_loop-substituted [] ys a b m n sum double da db p q =
    addend_distinct double sum m n (digit_value-bound a m da) (digit_value-bound b n db) (
      luhn_loop-sums ys (sum + addend double m) (sum + addend double n) (not double)
        (sym (luhn_loop-step a m ys sum double da) ∙ p)
        (sym (luhn_loop-step b n ys sum double db) ∙ q))
luhn_loop-substituted (x ∷ xs) ys a b m n sum double da db p q =
    elim (Option-cases (digit_value x)) [
      | inl none_ ↦ cc (luhn_loop-stop x (xs ++ a ∷ ys) sum double none_)
      | inr (d, some_) ↦
          luhn_loop-substituted xs ys a b m n (sum + addend double d) (not double) da db
            (sym (luhn_loop-step x d (xs ++ a ∷ ys) sum double some_) ∙ p)
            (sym (luhn_loop-step x d (xs ++ b ∷ ys) sum double some_) ∙ q)
    ]

reverse_around :
    (s t : String) (c : Char)
    → reverse (codes (s <> (c ∷ˢ t))) ≡ reverse (codes t) ++ code c ∷ reverse (codes s)
unfolding codes
reverse_around s t c =
    rw
      (
        codes-append s (c ∷ˢ t),
        reverse-append (codes s) (code c ∷ codes t),
        reverse-cons (code c) (codes t),
        append_assoc,
      )
      refl

-- A run of digits that passes the check passes it no more once one of its digits is replaced by
-- another digit.
pub luhn_valid_substituted :
    (s t : String) (c d : Char) (m n : ℕ)
    → digit_value (code c) ≡ some m
    → digit_value (code d) ≡ some n
    → m ≢ n
    → luhn_valid (s <> (c ∷ˢ t)) ≡ true
    → luhn_valid (s <> (d ∷ˢ t)) ≡ false
unfolding luhn_valid
luhn_valid_substituted s t c d m n dc dd differ p = elim (Bool-cases (luhn_valid (s <> (d ∷ˢ t)))) [
  | inr e ↦ e
  | inl q ↦ absurd (
      differ (
        luhn_loop-substituted (reverse (codes t)) (reverse (codes s)) (code c) (code d) m n 0 false
          dc dd (rw (← reverse_around s t c) p) (rw (← reverse_around s t d) q)))
]
