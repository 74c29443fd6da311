-- ===== src/Prelude/Decimal.antt =====
-- Decimal numerals: `str(n)`, the padding of `f"{n:03d}"`, `str.isdigit` and `int` on ASCII text.
use nova_ve.Prelude.{
  ℕ, zero, suc, ◌+◌, ◌-◌, ◌*◌, ◌/◌, ◌%◌, ◌<◌, ◌≡◌, refl, ◌∙◌, Bool, true, ◌&&◌, [], ◌∷◌, ◌++◌,
  arith, ltb, leb, Text, if◌then◌else◌,
}

abbrev pub is_digit : ℕ → Bool
is_digit c = leb b'0' c && leb c b'9'

unfoldable pub all_digits : Text → Bool
all_digits [] = true
all_digits (c ∷ s) = is_digit c && all_digits s

unfoldable pub value_from : ℕ → Text → ℕ
value_from acc [] = acc
value_from acc (c ∷ s) = value_from (acc * 10 + (c - 48)) s

-- `str(n)` on fuel; `suc n` rounds are enough.
unfoldable pub digits : ℕ → ℕ → Text
digits zero n = []
digits (suc f) n =
    let rest = digits f (n / 10) in if ltb n 10 then (48 + n) ∷ [] else rest ++ ((48 + n % 10) ∷ [])

unfoldable pub str : ℕ → Text
unfolding digits
str n = digits (suc n) n

-- `f"{n:03d}"`
unfoldable pub pad3 : Text → Text
pad3 [] = b'0' ∷ b'0' ∷ b'0' ∷ []
pad3 (a ∷ []) = b'0' ∷ b'0' ∷ a ∷ []
pad3 (a ∷ b ∷ []) = b'0' ∷ a ∷ b ∷ []
pad3 s = s

value_from_snoc :
    (acc : ℕ) (s : Text) (d : ℕ) → value_from acc (s ++ ((48 + d) ∷ [])) ≡ value_from acc s * 10 + d
unfolding value_from
value_from_snoc acc [] d = omega arith
value_from_snoc acc (c ∷ s) d = value_from_snoc (acc * 10 + (c - 48)) s d

all_digits_snoc :
    (s : Text) (d : ℕ) → d < 10 → all_digits s ≡ true → all_digits (s ++ ((48 + d) ∷ [])) ≡ true
unfolding all_digits
all_digits_snoc [] d h e = ground arith
all_digits_snoc (c ∷ s) d h e = ground (arith, all_digits_snoc s d h)

pub value_from-digits : (f n : ℕ) → n < f → value_from 0 (digits f n) ≡ n
unfolding digits value_from
value_from-digits zero n h = absurd (omega arith)
value_from-digits (suc f) n h =
    ground (arith, value_from_snoc 0 (digits f (n / 10)) (n % 10), value_from-digits f (n / 10))

pub all_digits-digits : (f n : ℕ) → all_digits (digits f n) ≡ true
unfolding digits all_digits
all_digits-digits zero n = refl
all_digits-digits (suc f) n =
    ground (arith, all_digits_snoc (digits f (n / 10)) (n % 10), all_digits-digits f (n / 10))

-- A text of three characters at least stays; a shorter one gets leading zeros.
pad3-digits : (s : Text) → all_digits s ≡ true → all_digits (pad3 s) ≡ true
unfolding pad3 all_digits
pad3-digits [] h = refl
pad3-digits (a ∷ []) h = ground arith
pad3-digits (a ∷ b ∷ []) h = ground arith
pad3-digits (a ∷ b ∷ c ∷ s) h = h

value_from-pad3 : (s : Text) → value_from 0 (pad3 s) ≡ value_from 0 s
unfolding pad3 value_from
value_from-pad3 [] = refl
value_from-pad3 (a ∷ []) = refl
value_from-pad3 (a ∷ b ∷ []) = refl
value_from-pad3 (a ∷ b ∷ c ∷ s) = refl

pub pad3-str : (n : ℕ) → (all_digits (pad3 (str n)) ≡ true) × (value_from 0 (pad3 (str n)) ≡ n)
unfolding str
pad3-str n = (
  pad3-digits (digits (suc n) n) (all_digits-digits (suc n) n),
  value_from-pad3 (digits (suc n) n) ∙ value_from-digits (suc n) n (omega arith),
)
