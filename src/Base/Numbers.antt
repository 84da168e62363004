-- ===== src/Base/Numbers.antt =====
-- `str(n)` of natural numbers and `int(s)`.
use Prim.Native.Nat.{ℕ, zero, suc, ◌+◌, ◌-◌, ◌*◌, ◌/◌, ◌%◌, ◌<◌}
use mathlib.Core.Path.{◌≡◌, refl, ◌∙◌, ap}
use mathlib.Core.Logic.{inl, inr}
use mathlib.Core.Bool.{Bool, true, false, ◌&&◌}
use mathlib.Core.List.{[], ◌∷◌, ◌++◌, reverse, reverse-append, reverse-cons, reverse-reverse}
use mathlib.Core.Option.{Option, none, some}
use native.Mathlib.Omega.{arith}
use scamlens.Base.Tests.{leb, ◌==◌, if◌then◌else◌, Bool-cases}
use scamlens.Base.Strings.{Text, decimal, decimal_go, strip, rstrip, lstrip, white, has_char}

abbrev pub is_digit : ℕ → Bool
is_digit c = leb 48 c && leb c 57

-- The integers over the native numbers: `negsuc n` is minus `n + 1`.
pub data ℤ : Type 0 where
  pos negsuc : ℕ → ℤ

-- The value of the digits behind a value, or `none` where they are not well formed: an underscore
-- stands between two digits. `after` says whether a digit was just read.
unfoldable pub int_from : ℕ → Bool → Text → Option ℕ
int_from acc after [] = if after then some acc else none
int_from acc after (c ∷ s) =
    let more = int_from (acc * 10 + (c - 48)) true s in
    let skip = int_from acc false s in
    if is_digit c then more else if after && (c == b'_') then skip else none

abbrev positive : Option ℕ → Option ℤ
positive none = none
positive (some n) = some (pos n)

abbrev negative : Option ℕ → Option ℤ
negative none = none
negative (some zero) = some (pos 0)
negative (some (suc n)) = some (negsuc n)

-- A sign or none, and digits.
unfoldable pub int_signed : Text → Option ℤ
unfolding int_from
int_signed [] = none
int_signed (c ∷ s) =
    if c == b'-'
    then negative (int_from 0 false s)
    else if c == b'+'
    then positive (int_from 0 false s)
    else positive (int_from 0 false (c ∷ s))

-- `int(s)` in ASCII: `none` is ValueError.
unfoldable pub int_of : Text → Option ℤ
unfolding int_signed
int_of s = int_signed (strip white s)

int_from-append :
    (acc n c : ℕ) (after : Bool) (s : Text)
    → int_from acc after s ≡ some n
    → is_digit c ≡ true
    → int_from acc after (s ++ c ∷ []) ≡ some (n * 10 + (c - 48))
unfolding int_from
int_from-append acc n c after [] h d = ground (arith, h, d)
int_from-append acc n c after (x ∷ s) h d =
    ground (
      arith,
      h,
      d,
      int_from-append (acc * 10 + (x - 48)) n c true s,
      int_from-append acc n c false s,
    )

int_from-decimal_go : (fuel n : ℕ) → n < fuel → int_from 0 false (decimal_go fuel n) ≡ some n
unfolding decimal_go int_from
int_from-decimal_go zero n h = absurd (omega arith)
int_from-decimal_go (suc fuel) n h = elim (Bool-cases (leb n 9)) [
  | inl e ↦ rw e (ground (arith, e))
  | inr e ↦ rw e (
      int_from-append 0 (n / 10) (48 + n % 10) false (decimal_go fuel (n / 10))
        (int_from-decimal_go fuel (n / 10) (ground (arith, e, h))) (ground arith)
      ∙ ap some (omega arith))
]

-- A text of digits starts with neither a sign nor white space.
int_signed-digits : (n : ℕ) (s : Text) → int_from 0 false s ≡ some n → int_signed s ≡ some (pos n)
unfolding int_signed int_from
int_signed-digits n [] h = cc
int_signed-digits n (c ∷ s) h = ground (arith, h)

lstrip-digits : (n : ℕ) (s : Text) → int_from 0 false s ≡ some n → lstrip white s ≡ s
unfolding lstrip int_from has_char
lstrip-digits n [] h = refl
lstrip-digits n (c ∷ s) h = ground (arith, h)

digit-not-white : (c : ℕ) → is_digit c ≡ true → has_char c white ≡ false
unfolding has_char
digit-not-white c h = ground (arith, h)

rstrip-nil : rstrip white [] ≡ []
unfolding rstrip lstrip
rstrip-nil = refl

rstrip-digit : (s : Text) (c : ℕ) → is_digit c ≡ true → rstrip white (s ++ c ∷ []) ≡ s ++ c ∷ []
unfolding rstrip lstrip
rstrip-digit s c h =
    rw (reverse-append s (c ∷ []), digit-not-white c h)
      (reverse-cons c (reverse s) ∙ ap (λ t. t ++ c ∷ []) (reverse-reverse s))

-- The last character of a number is a digit.
rstrip-decimal_go : (fuel n : ℕ) → rstrip white (decimal_go fuel n) ≡ decimal_go fuel n
unfolding decimal_go
rstrip-decimal_go zero n = rstrip-nil
rstrip-decimal_go (suc fuel) n = elim (Bool-cases (leb n 9)) [
  | inl e ↦ rw e (rstrip-digit [] (48 + n) (ground (arith, e)))
  | inr e ↦ rw e (rstrip-digit (decimal_go fuel (n / 10)) (48 + n % 10) (ground arith))
]

pub int_of-decimal : (n : ℕ) → int_of (decimal n) ≡ some (pos n)
unfolding int_of decimal strip
int_of-decimal n =
    let value : int_from 0 false (decimal_go (suc n) n) ≡ some n =
      int_from-decimal_go (suc n) n (omega arith) in
    rw (lstrip-digits n (decimal_go (suc n) n) value, rstrip-decimal_go (suc n) n)
      (int_signed-digits n (decimal_go (suc n) n) value)
