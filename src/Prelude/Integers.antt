-- ===== src/Prelude/Integers.antt =====
-- Integers over the native numbers, and Python's `int` of an ASCII text. `int` refuses more than
-- 4300 digits, and reads other digits of Unicode; neither is told apart here.
use nova_ve.Prelude.{
  ℕ, zero, suc, ◌+◌, ◌-◌, ◌*◌, Bool, false, ◌&&◌, ◌||◌, Option, none, some, [], ◌∷◌, Text, ◌==◌,
  if◌then◌else◌, strip,
}
use nova_ve.Prelude.Decimal.{is_digit}

pub data ℤ : Type 0 where
  pos negsuc : ℕ → ℤ

abbrev pub negated : ℕ → ℤ
negated zero = pos 0
negated (suc n) = negsuc n

-- Digits with single underscores between them, told whether a digit came last
abbrev grouped_digits : ℕ → Bool → Text → Option ℕ
grouped_digits acc after_digit [] = if after_digit then some acc else none
grouped_digits acc after_digit (c ∷ s) =
    let rest = grouped_digits (if is_digit c then acc * 10 + (c - b'0') else acc) (is_digit c) s in
    if is_digit c || (after_digit && c == b'_') then rest else none

abbrev with_sign : (ℕ → ℤ) → Option ℕ → Option ℤ
with_sign sign none = none
with_sign sign (some n) = some (sign n)

abbrev signed : Text → Option ℤ
signed [] = none
signed (c ∷ s) =
    if c == b'-'
    then with_sign negated (grouped_digits 0 false s)
    else if c == b'+'
    then with_sign pos (grouped_digits 0 false s)
    else with_sign pos (grouped_digits 0 false (c ∷ s))

-- `int(s)`, with `none` for the `ValueError`
unfoldable pub int_text : Text → Option ℤ
int_text s = signed (strip s)
